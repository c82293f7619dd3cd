-- ===== src/Dispatch/Routing/Matching.antt =====
-- The rule that a job falls under.
use signmons_calldesk_backen.Base.{
  Bool, true, false, not, ◌&&◌, ◌||◌, ◌≤◌, Option, none, some, List, [], ◌∷◌, All, any, find,
  filter, find-holds, ◌≡◌, ◌⊎◌, refl, arith,
}
use signmons_calldesk_backen.Base.Text.{Key, text_eq}
use signmons_calldesk_backen.Base.Searches.{
  Among, SortedBy, find-filter-filter, any-filter, is_some-find, find-Among, find_none-All,
  find-least,
}
use signmons_calldesk_backen.Data.Rows.{Job}
use signmons_calldesk_backen.Dispatch.Routing.{
  RoutingRule, Contact, Place, is_base_match, in_area, active_rules, base_matches, evaluate_found,
  is_nil,
}

-- The tenant's active rule applies to the job, by its service, its urgency and its time.
abbrev pub applies : Key → Job → Place → RoutingRule → Bool
applies tenant_id j place r =
    text_eq r.tenant_id tenant_id && r.is_active && is_base_match j place.is_business_hours r

-- It also has no area, or one that contains the job's postal code.
abbrev pub takes : Key → Job → Place → RoutingRule → Bool
takes tenant_id j place r = applies tenant_id j place r && in_area place.postal_code r

-- What the rule that was matched is to the tenant's rules.
abbrev pub IsChoice : Key → Job → Place → List RoutingRule → Option RoutingRule → Type 0
IsChoice tenant_id j place rules none = All (λ q. takes tenant_id j place q ≡ false) rules
IsChoice tenant_id j place rules (some r) =
    Among r rules
    × (takes tenant_id j place r ≡ true)
    × All (λ q. (takes tenant_id j place q ≡ false) ⊎ (r.priority ≤ q.priority)) rules

is_nil-filter : {A : Type 0} (p : A → Bool) (xs : List A) → is_nil (filter p xs) ≡ not (any p xs)
is_nil-filter p [] = refl
is_nil-filter p (x ∷ xs) = ground (arith, is_nil-filter p xs)

module _ (tenant_id : Key) (j : Job) (place : Place) (rules : List RoutingRule)
    (users : List Contact) where
  matched-takes :
      (evaluate_found tenant_id j place rules users).matched_rule
      ≡ find (takes tenant_id j place) rules
  unfolding evaluate_found base_matches active_rules
  matched-takes =
      find-filter-filter (λ r. text_eq r.tenant_id tenant_id && r.is_active)
        (is_base_match j place.is_business_hours) (in_area place.postal_code) rules

  covered-takes :
      (evaluate_found tenant_id j place rules users).covered
      ≡ (not (any (applies tenant_id j place) rules) || any (takes tenant_id j place) rules)
  unfolding evaluate_found base_matches active_rules
  covered-takes =
      rw
        (
          is_nil-filter (is_base_match j place.is_business_hours)
              (filter (λ r. text_eq r.tenant_id tenant_id && r.is_active) rules),
          any-filter (is_base_match j place.is_business_hours)
              (λ r. text_eq r.tenant_id tenant_id && r.is_active) rules,
        )
        (rw matched-takes (rw (is_some-find (takes tenant_id j place) rules) refl))

  choice :
      (o : Option RoutingRule)
      → find (takes tenant_id j place) rules ≡ o
      → SortedBy (λ r. r.priority) rules
      → IsChoice tenant_id j place rules o
  choice none h sorted = find_none-All (takes tenant_id j place) rules h
  choice (some r) h sorted = (
    find-Among (takes tenant_id j place) rules h,
    find-holds (takes tenant_id j place) rules h,
    find-least (λ q. q.priority) (takes tenant_id j place) rules sorted h,
  )

  -- Where the tenant's rules come by priority, the rule that is matched is an active one that applies to
  -- the job by its service, its urgency and its time and whose area, if any, has its postal code, and no
  -- such rule has a lower priority number; none is matched only where there is no such rule. The job is
  -- covered exactly where a rule was matched, or no active rule applies to it.
  pub evaluate_found-IsChoice :
      SortedBy (λ r. r.priority) rules
      → IsChoice tenant_id j place rules (evaluate_found tenant_id j place rules users).matched_rule
        × ((evaluate_found tenant_id j place rules users).covered
            ≡ (not (any (applies tenant_id j place) rules) || any (takes tenant_id j place) rules))
  evaluate_found-IsChoice sorted =
      (rw matched-takes (choice (find (takes tenant_id j place) rules) refl sorted), covered-takes)
