-- ===== src/Base/Text.antt =====
-- JavaScript strings that the program takes apart: lists of UTF-16 code units.
use Prim.Native.Char.{code}
use signmons_calldesk_backen.Base.Tests.{◌==◌, leb, if◌then◌else◌}
use signmons_calldesk_backen.Base.Lists.{any}
use Prim.Native.Nat.{ℕ, zero, suc, ◌+◌}
use Prim.Native.String.{String}
use mathlib.Core.Path.{◌≡◌, refl}
use mathlib.Core.Option.{Option, none, some}
use native.Mathlib.Omega.{arith}
use mathlib.Core.Bool.{Bool, true, false, ◌&&◌, ◌||◌}
use mathlib.Core.List.{List, [], ◌∷◌, map, reverse}

abbrev pub Text : Type 0
Text = List ℕ

-- An id, a hash, a token or another text that the program only compares.
abbrev pub Key : Type 0
Key = Text

-- The code units of a literal, which is ASCII.
abbrev pub codes : String → Text
codes String.[] = []
codes (String.◌∷◌ c s) = code c ∷ codes s

-- `===` on strings
unfoldable pub text_eq : Text → Text → Bool
text_eq [] [] = true
text_eq [] (b ∷ t) = false
text_eq (a ∷ s) [] = false
text_eq (a ∷ s) (b ∷ t) = a == b && text_eq s t

pub text_eq_refl : (s : Text) → text_eq s s ≡ true
unfolding text_eq
text_eq_refl [] = refl
text_eq_refl (a ∷ s) = ground (arith, text_eq_refl s)

pub text_eq→eq : (s t : Text) → text_eq s t ≡ true → s ≡ t
unfolding text_eq
text_eq→eq [] [] h = refl
text_eq→eq [] (b ∷ t) h = ground arith
text_eq→eq (a ∷ s) [] h = ground arith
text_eq→eq (a ∷ s) (b ∷ t) h = ground (arith, text_eq→eq s t)

pub eq→text_eq : (s t : Text) → s ≡ t → text_eq s t ≡ true
eq→text_eq s t h = rw (← h) (text_eq_refl s)

-- `===` on optional strings
abbrev pub opt_text_eq : Option Text → Option Text → Bool
opt_text_eq none none = true
opt_text_eq none (some b) = false
opt_text_eq (some a) none = false
opt_text_eq (some a) (some b) = text_eq a b

-- `text.startsWith(prefix)`, with the text first
unfoldable pub starts_with : Text → Text → Bool
starts_with s [] = true
starts_with [] (b ∷ t) = false
starts_with (a ∷ s) (b ∷ t) = a == b && starts_with s t

-- The white space and line terminators that `trim` removes.
abbrev pub is_space : ℕ → Bool
is_space c =
    leb 9 c && leb c 13
    || c == 32
    || c == 0xa0
    || c == 0x1680
    || leb 0x2000 c && leb c 0x200a
    || c == 0x2028
    || c == 0x2029
    || c == 0x202f
    || c == 0x205f
    || c == 0x3000
    || c == 0xfeff

unfoldable pub trim_start : Text → Text
trim_start [] = []
trim_start (c ∷ s) = if is_space c then trim_start s else c ∷ s

unfoldable pub trim : Text → Text
unfolding trim_start
trim s = reverse (trim_start (reverse (trim_start s)))

-- `text.replace(/\s+/g, " ")`: the state says whether the unit before was white space.
abbrev pub squeeze : Bool → Text → Text
squeeze inside [] = []
squeeze true (c ∷ s) = elim (is_space c) [ true ↦ squeeze true s | false ↦ c ∷ squeeze false s ]
squeeze false (c ∷ s) = elim (is_space c) [
  | true ↦ b' ' ∷ squeeze true s
  | false ↦ c ∷ squeeze false s
]

-- A text is truthy when it is not empty.
abbrev pub truthy : Text → Bool
truthy [] = false
truthy (_ ∷ _) = true

-- `Boolean(value)` of an optional string: it is there and not empty.
abbrev pub present : Option Text → Bool
present none = false
present (some t) = truthy t

-- `toLowerCase` on ASCII letters; other code units stay.
unfoldable pub lower_unit : ℕ → ℕ
lower_unit c = if leb b'A' c && leb c b'Z' then c + 32 else c

unfoldable pub to_lower : Text → Text
unfolding lower_unit
to_lower = map lower_unit

unfoldable pub one_of : Text → List Text → Bool
unfolding text_eq
one_of s = any (text_eq s)

abbrev pub is_digit : ℕ → Bool
is_digit c = leb b'0' c && leb c b'9'

-- `[0-9a-f]` with the flag `i`
abbrev pub is_hex : ℕ → Bool
is_hex c = is_digit c || leb b'a' c && leb c b'f' || leb b'A' c && leb c b'F'

-- A text with one test for each of its code units.
unfoldable pub fits : List (ℕ → Bool) → Text → Bool
fits [] [] = true
fits [] (c ∷ s) = false
fits (p ∷ ps) [] = false
fits (p ∷ ps) (c ∷ s) = p c && fits ps s

abbrev pub times : ℕ → (ℕ → Bool) → List (ℕ → Bool) → List (ℕ → Bool)
times zero p ps = ps
times (suc n) p ps = p ∷ times n p ps

-- `UUID`, `UUID_PATTERN`: 8-4-4-4-12 hexadecimal digits, with a version from 1 to 8 and a variant
-- of 8, 9, a or b.
unfoldable pub is_uuid : Text → Bool
unfolding fits
is_uuid =
    let dash = λ (c : ℕ). c == b'-' in
    let version = λ (c : ℕ). leb b'1' c && leb c b'8' in
    let variant =
      λ (c : ℕ). c == b'8' || c == b'9' || c == b'a' || c == b'b' || c == b'A' || c == b'B' in
    fits (
      times 8 is_hex (
        dash
        ∷ times 4 is_hex (
            dash
            ∷ version
            ∷ times 3 is_hex (dash ∷ variant ∷ times 3 is_hex (dash ∷ times 12 is_hex [])))))
