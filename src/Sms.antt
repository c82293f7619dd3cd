-- ===== src/Sms.antt =====
-- src/communications: SMS consent and SMS delivery, with the rows and the store that they share.
pub mod Rows
pub mod Keywords
pub mod Consent
pub mod Events
pub mod Delivery
mod Tests
