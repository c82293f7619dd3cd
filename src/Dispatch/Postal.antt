-- ===== src/Dispatch/Postal.antt =====
-- jobs/routing.service.ts: `postalCode`, the code of a job's address.
use signmons_calldesk_backen.Base.{
  ℕ, Bool, true, false, not, ◌&&◌, ◌||◌, Option, none, some, when_some, if◌then◌else◌, leb, ◌==◌,
  [], ◌∷◌, take,
}
use signmons_calldesk_backen.Base.Text.{Text, codes, is_digit}
use signmons_calldesk_backen.Base.Json.{
  Json, Items, null, str, arr, obj, nil, cons, record_of, prop, is_text,
}

-- `value ?? next`, on the fields of a record: null counts as missing.
abbrev given : Option Json → Option Json → Option Json
given none next = next
given (some null) next = next
given (some v) next = some v

abbrev includes_text : Text → Items → Bool
includes_text t nil = false
includes_text t (cons v vs) = is_text (some v) t || includes_text t vs

abbrev pub items_of : Option Json → Option Items
items_of (some (arr vs)) = some vs
items_of _ = none

-- `components.find(...)`: the first component whose types include "postal_code"
abbrev postal_component : Items → Option Json
postal_component nil = none
postal_component (cons v vs) =
    if when_some (items_of (prop (record_of (some v)) "types"))
      (includes_text (codes "postal_code"))
    then some v
    else postal_component vs

abbrev is_word : ℕ → Bool
is_word c = is_digit c || leb b'A' c && leb c b'Z' || leb b'a' c && leb c b'z' || c == b'_'

abbrev ends_word : Text → Bool
ends_word [] = true
ends_word (c ∷ s) = not (is_word c)

-- Five digits at the start, with no word character behind.
abbrev zip_here : Text → Bool
zip_here (a ∷ b ∷ c ∷ d ∷ e ∷ rest) =
    is_digit a && is_digit b && is_digit c && is_digit d && is_digit e && ends_word rest
zip_here _ = false

-- `formatted.match(/\b\d{5}(?:-\d{4})?\b/)?.[0].slice(0, 5)`: where the longer form does not end a word,
-- the shorter one does, as a dash follows it. The first argument says whether a word character stands
-- before.
unfoldable pub zip_in : Bool → Text → Option Text
zip_in inside [] = none
zip_in inside (c ∷ s) =
    let rest = zip_in (is_word c) s in
    if not inside && zip_here (c ∷ s) then some (take 5 (c ∷ s)) else rest

abbrev first_five : Option Json → Option Text
first_five (some (str t)) = some (take 5 t)
first_five _ = none

-- The postal code that the components name.
unfoldable pub component_code : Json → Option Text
component_code (arr vs) = of_item (postal_component vs)
  where
    of_item : Option Json → Option Text
    of_item none = none
    of_item (some v) =
        let item = record_of (some v) in
        first_five (
          given (prop item "long_name")
            (given (prop item "longName") (given (prop item "short_name") (prop item "shortName"))))
component_code (obj fs) = first_five (
    given (prop (some fs) "postalCode")
      (given (prop (some fs) "postal_code") (prop (some fs) "zip")))
component_code _ = none

abbrev or_else : Option Text → Option Text → Option Text
or_else none next = next
or_else (some t) next = some t

unfoldable pub postal_code : Json → Text → Option Text
unfolding component_code zip_in
postal_code components formatted = or_else (component_code components) (zip_in false formatted)
