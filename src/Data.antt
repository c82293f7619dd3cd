-- ===== src/Data.antt =====
-- prisma/schema.prisma: the enumerations and the columns that the modelled services read and write.
pub mod Enums
pub mod Rows
pub mod Store
pub mod Keeps
