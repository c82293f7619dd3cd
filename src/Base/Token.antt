-- ===== src/Base/Token.antt =====
-- Signed tokens, `<payload>.<signature>`, as jobs/technician-link.service.ts and
-- scheduling/scheduling.service.ts make and split them. The digest, base64url and JSON are given.
use signmons_calldesk_backen.Base.Tests.{◌==◌, leb, if◌then◌else◌, Bool-cases}
use signmons_calldesk_backen.Base.Lists.{All}
use signmons_calldesk_backen.Base.Text.{Text, trim, trim_start, is_space, is_digit, truthy}
use signmons_calldesk_backen.Base.Json.{Json}
use Prim.Native.Nat.{ℕ}
use mathlib.Core.Path.{◌≡◌, refl, ap, sym, ◌∙◌}
use mathlib.Core.Logic.{inl, inr}
use mathlib.Core.Bool.{Bool, true, false, ◌&&◌, ◌||◌}
use mathlib.Core.Option.{Option}
use mathlib.Core.List.{List, [], ◌∷◌, ◌++◌, reverse, append-nil, reverse-cons, reverse-reverse}
use native.Mathlib.Omega.{arith}

-- `sign` is the HMAC of a text under the service's secret, in base64url; `encode` is JSON in base64url,
-- and `decode` undoes both, or throws.
pub record Codec : Type 0 where
  pub sign : Text → Text
  pub encode : Json → Text
  pub decode : Text → Option Json

abbrev join_unit : ℕ → List Text → List Text
join_unit c [] = (c ∷ []) ∷ []
join_unit c (p ∷ ps) = (c ∷ p) ∷ ps

-- `text.split(separator)` for a separator of one code unit
unfoldable pub split : ℕ → Text → List Text
split sep [] = [] ∷ []
split sep (c ∷ s) = let rest = split sep s in if c == sep then [] ∷ rest else join_unit c rest

-- The payload, a dot, and the payload's signature.
unfoldable pub token_of : Codec → Text → Text
token_of c encoded = encoded ++ b'.' ∷ c.sign encoded

-- The alphabet of base64url.
abbrev pub is_base64url : ℕ → Bool
is_base64url c =
    is_digit c || leb b'A' c && leb c b'Z' || leb b'a' c && leb c b'z' || c == b'-' || c == b'_'

-- A text that base64url gives for a payload that is not empty.
abbrev pub IsEncoded : Text → Type 0
IsEncoded t = (truthy t ≡ true) × All (λ c. is_base64url c ≡ true) t

base64url-ne-dot : (c : ℕ) → is_base64url c ≡ true → (c == b'.') ≡ false
base64url-ne-dot c h = ground arith

pub split-cons :
    (a s : Text)
    → All (λ c. is_base64url c ≡ true) a
    → split b'.' (a ++ b'.' ∷ s) ≡ a ∷ split b'.' s
unfolding split
split-cons [] s h = refl
split-cons (c ∷ a) s h = rw (base64url-ne-dot c h.0, split-cons a s h.1)

pub split_one : (a : Text) → All (λ c. is_base64url c ≡ true) a → split b'.' a ≡ a ∷ []
unfolding split
split_one [] h = refl
split_one (c ∷ a) h = rw (base64url-ne-dot c h.0, split_one a h.1)

-- A token comes apart into its payload and the payload's signature.
pub split-token_of :
    (c : Codec) (encoded : Text)
    → IsEncoded encoded
    → IsEncoded (c.sign encoded)
    → split b'.' (token_of c encoded) ≡ encoded ∷ c.sign encoded ∷ []
unfolding token_of
split-token_of c encoded h k =
    split-cons encoded (c.sign encoded) h.1
    ∙ ap (λ ps. encoded ∷ ps) (split_one (c.sign encoded) k.1)

base64url-ne-space : (c : ℕ) → is_base64url c ≡ true → is_space c ≡ false
base64url-ne-space c h = ground arith

abbrev NoSpace : Text → Type 0
NoSpace = All (λ c. is_space c ≡ false)

NoSpace-append : (s t : Text) → NoSpace s → NoSpace t → NoSpace (s ++ t)
NoSpace-append [] t h k = k
NoSpace-append (c ∷ s) t h k = (h.0, NoSpace-append s t h.1 k)

NoSpace-reverse : (s : Text) → NoSpace s → NoSpace (reverse s)
NoSpace-reverse [] h = tt
NoSpace-reverse (c ∷ s) h =
    rw reverse-cons (NoSpace-append (reverse s) (c ∷ []) (NoSpace-reverse s h.1) (h.0, tt))

NoSpace-of_base64url : (s : Text) → All (λ c. is_base64url c ≡ true) s → NoSpace s
NoSpace-of_base64url [] h = tt
NoSpace-of_base64url (c ∷ s) h = (base64url-ne-space c h.0, NoSpace-of_base64url s h.1)

trim_start-NoSpace : (s : Text) → NoSpace s → trim_start s ≡ s
unfolding trim_start
trim_start-NoSpace [] h = refl
trim_start-NoSpace (c ∷ s) h = rw (h.0) refl

trim-NoSpace : (s : Text) → NoSpace s → trim s ≡ s
unfolding trim
trim-NoSpace s h =
    rw (trim_start-NoSpace s h)
      (rw (trim_start-NoSpace (reverse s) (NoSpace-reverse s h)) (reverse-reverse s))

-- Trimming leaves a token alone.
pub trim-token_of :
    (c : Codec) (encoded : Text)
    → IsEncoded encoded
    → IsEncoded (c.sign encoded)
    → trim (token_of c encoded) ≡ token_of c encoded
unfolding token_of
trim-token_of c encoded h k = trim-NoSpace (encoded ++ b'.' ∷ c.sign encoded) (
    NoSpace-append encoded (b'.' ∷ c.sign encoded) (NoSpace-of_base64url encoded h.1)
      (refl, NoSpace-of_base64url (c.sign encoded) k.1))

-- The parts of a text, each behind a separator, spell the text.
abbrev separated : ℕ → List Text → Text
separated sep [] = []
separated sep (p ∷ ps) = sep ∷ p ++ separated sep ps

tail_eq : (a b : ℕ) (s t : Text) → a ∷ s ≡ b ∷ t → s ≡ t
tail_eq a b s t h = ground arith

separated-join_unit :
    (sep c : ℕ) (s : Text) (ps : List Text)
    → separated sep ps ≡ sep ∷ s
    → separated sep (join_unit c ps) ≡ sep ∷ c ∷ s
separated-join_unit sep c s [] h = ground arith
separated-join_unit sep c s (p ∷ ps) h =
    ap (λ t. sep ∷ c ∷ t) (tail_eq sep sep (p ++ separated sep ps) s h)

separated-split : (sep : ℕ) (s : Text) → separated sep (split sep s) ≡ sep ∷ s
unfolding split
separated-split sep [] = refl
separated-split sep (c ∷ s) = elim (Bool-cases (c == sep)) [
  | inl e ↦ rw e (rw (separated-split sep s) (ap (λ d. sep ∷ d ∷ s) (sym (same e))))
  | inr e ↦ rw e (separated-join_unit sep c s (split sep s) (separated-split sep s))
]
  where
    same : (c == sep) ≡ true → c ≡ sep
    same h = ground arith

-- A text with two parts is the two, with the separator between them.
pub eq_of_split : (sep : ℕ) (s a b : Text) → split sep s ≡ a ∷ b ∷ [] → s ≡ a ++ sep ∷ b
eq_of_split sep s a b h =
    let spelt : sep ∷ a ++ (sep ∷ b ++ []) ≡ sep ∷ s = rw h at (separated-split sep s) in
    sym (rw append-nil at (tail_eq sep sep (a ++ (sep ∷ b ++ [])) s spelt))
