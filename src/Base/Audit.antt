-- ===== src/Base/Audit.antt =====
-- The audit log that every service writes to (`model AuditLog` of prisma/schema.prisma).
use signmons_calldesk_backen.Base.Tests.{Instant}
use signmons_calldesk_backen.Base.Text.{Text, Key}
use Prim.Native.Nat.{ℕ}
use Prim.Native.String.{String}
use mathlib.Core.Bool.{Bool}
use mathlib.Core.Option.{Option}
use mathlib.Core.List.{List}

pub data AuditActorType : Type 0 where
  user customer system_ai webhook : AuditActorType

-- `actorId`: a user's id, a fixed name such as "stripe", or `customer:<id>`.
pub data Actor : Type 0 where
  person : Key → Actor
  named : String → Actor
  of_customer : Key → Actor

-- What an entry of `metadata` holds.
pub data Detail : Type 0 where
  text : Text → Detail
  word : String → Detail
  words : List String → Detail
  amount : ℕ → Detail
  time : Instant → Detail
  flag : Bool → Detail
  absent : Detail

pub record Audit : Type 0 where
  pub tenant_id : Key
  pub action : String
  pub actor_type : AuditActorType
  pub actor_id : Actor
  pub entity_type : String
  pub entity_id : Key
  pub metadata : List (String × Detail)
  pub trace_id : Option Key
