-- ===== src/Base/Guarded.antt =====
-- Guarded updates of one row: the key finds the row alone, and a test on it decides.
use mathlib.Core.Path.{◌≡◌, refl, ◌∙◌}
use mathlib.Core.Bool.{Bool, true, false, ◌&&◌}
use mathlib.Core.Option.{some}
use native.Mathlib.Omega.{arith}
use signmons_calldesk_backen.Base.Tests.{if◌then◌else◌}
use signmons_calldesk_backen.Base.Lists.{find, find-holds}
use signmons_calldesk_backen.Base.Table.{
  Table, count_rows, count_rows-one, find-update_rows_if, count_rows-update_rows,
}

-- The key fits one row, which is `k`.
abbrev pub Only : {T R : Type 0} → Table T R → (R → Bool) → R → T → Type 0
Only tb p k t = (count_rows p (tb.rows t) ≡ 1) × (find p (tb.rows t) ≡ some k)

module _ {T R : Type 0} (tb : Table T R) (p q : R → Bool) (f : R → R)
    (keep : (r : R) → p (f r) ≡ p r) (t : T) {k : R} (only : Only tb p k t) where
  -- How many rows a guarded update counts, and the row that it leaves.
  pub guarded_count : (tb.update_many (λ r. p r && q r) f t).0 ≡ (if q k then 1 else 0)
  guarded_count =
      tb.count-update_many (λ r. p r && q r) f t ∙ count_rows-one p q (tb.rows t) only.0 only.1

  both : (b c : Bool) → b ≡ true → (b && c) ≡ c
  both true c h = refl
  both false c h = ground arith

  pub guarded_row : Only tb p (if q k then f k else k) (tb.update_many (λ r. p r && q r) f t).1
  guarded_row =
      let holds = both (p k) (q k) (find-holds p (tb.rows t) only.1) in
      rw (tb.rows-update_many (λ r. p r && q r) f t) (
        count_rows-update_rows p (λ r. p r && q r) f keep (tb.rows t) ∙ only.0,
        rw holds at (find-update_rows_if p (λ r. p r && q r) f keep (tb.rows t) only.1),
      )

module _ {T R : Type 0} (tb : Table T R) (p : R → Bool) (f : R → R) (keep : (r : R) → p (f r) ≡ p r)
    (t : T) {k : R} (only : Only tb p k t) where
  -- The same for an update of the key's row that no test guards.
  pub keyed_count : (tb.update_many p f t).0 ≡ 1
  keyed_count = tb.count-update_many p f t ∙ only.0

  pub keyed_row : Only tb p (f k) (tb.update_many p f t).1
  keyed_row =
      let holds = find-holds p (tb.rows t) only.1 in
      rw (tb.rows-update_many p f t) (
        count_rows-update_rows p p f keep (tb.rows t) ∙ only.0,
        rw holds at (find-update_rows_if p p f keep (tb.rows t) only.1),
      )
