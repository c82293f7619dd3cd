-- ===== src/Base/Json.antt =====
-- JSON values, as the columns `policySnapshot`, `pricingSnapshot` and `metadata` and the bodies of
-- webhooks hold them, and the guards that the services put before reading one.
use signmons_calldesk_backen.Base.Tests.{if◌then◌else◌, Bool-cases}
use signmons_calldesk_backen.Base.Text.{Text, text_eq}
use Prim.Native.Nat.{ℕ}
use Prim.Native.String.{String}
use mathlib.Core.Bool.{Bool, false}
use mathlib.Core.Option.{Option, none, some}
use text.Mathlib.Text.{◌==◌ as str_eq}
use text.Mathlib.TextEquality.{eq_iff}
use text.Mathlib.TextPositions.{eq_refl}
use mathlib.Core.Path.{◌≡◌}
use mathlib.Core.Logic.{inl, inr}
use native.Mathlib.Omega.{arith}

-- A finite number: `negative n` is -(n + 1), and `fraction k` is the k-th of those that are not whole.
pub data Number : Type 0 where
  whole : ℕ → Number
  negative : ℕ → Number
  fraction : ℕ → Number

mutual
  pub data Json : Type 0 where
    null : Json
    bool : Bool → Json
    num : Number → Json
    str : Text → Json
    arr : Items → Json
    obj : Fields → Json

  pub data Items : Type 0 where
    nil : Items
    cons : Json → Items → Items

  pub data Fields : Type 0 where
    end : Fields
    field : String → Json → Fields → Fields

-- `object.name`; `none` is `undefined`.
abbrev pub get_field : String → Fields → Option Json
get_field k end = none
get_field k (field j v fs) = if str_eq j k then some v else get_field k fs

-- `{ ...object, name: value }`
abbrev pub set_field : String → Json → Fields → Fields
set_field k v end = field k v end
set_field k v (field j w fs) = if str_eq j k then field k v fs else field j w (set_field k v fs)

-- The private `record` of the services: an object that is no array, or null.
abbrev pub record_of : Option Json → Option Fields
record_of (some (obj fs)) = some fs
record_of _ = none

-- `record?.name`
abbrev pub prop : Option Fields → String → Option Json
prop none k = none
prop (some fs) k = get_field k fs

-- `value === true`
abbrev pub is_true : Option Json → Bool
is_true (some (bool b)) = b
is_true _ = false

-- `typeof value === "string" ? value : null`
abbrev pub text_of : Option Json → Option Text
text_of (some (str t)) = some t
text_of _ = none

-- `value === literal`
abbrev pub is_text : Option Json → Text → Bool
is_text (some (str t)) lit = text_eq t lit
is_text _ lit = false

abbrev pub max_safe_integer : ℕ
max_safe_integer = 9_007_199_254_740_991

pub get_field-set_field_self :
    (k : String) (v : Json) (fs : Fields) → get_field k (set_field k v fs) ≡ some v
get_field-set_field_self k v end = rw eq_refl
get_field-set_field_self k v (field j w fs) = elim (Bool-cases (str_eq j k)) [
  | inl e ↦ rw e (rw eq_refl)
  | inr e ↦ rw e (rw e (get_field-set_field_self k v fs))
]

pub get_field-set_field_ne :
    (k j : String) (v : Json) (fs : Fields)
    → str_eq k j ≡ false
    → get_field j (set_field k v fs) ≡ get_field j fs
get_field-set_field_ne k j v end h = rw h
get_field-set_field_ne k j v (field i w fs) h = elim (Bool-cases (str_eq i k)) [
  | inl e ↦ rw (e, h) (rw ((eq_iff i k).0 e, h))
  | inr e ↦ ground (arith, get_field-set_field_ne k j v fs h)
]
