-- ===== src/Dispatch/Board/Ranking.antt =====
-- The candidate that is recommended.
use signmons_calldesk_backen.Base.{
  ℕ, suc, ◌≤◌, true, false, Option, none, some, if◌then◌else◌, List, [], ◌∷◌, All, find-holds, ◌≡◌,
  ◌⊎◌, refl, arith, Bool-cases, inl, inr,
}
use mathlib.Core.Path.{subst}
use signmons_calldesk_backen.Base.Text.{Text}
use signmons_calldesk_backen.Base.Listwise.{All-imp}
use signmons_calldesk_backen.Base.Searches.{Among, find-Among, find_none-All, find_head, find_tail}
use signmons_calldesk_backen.Dispatch.Board.{
  Candidate, Comparison, compare_candidates, not_after, insert, sort, recommend,
}

-- What a recommendation is among the candidates.
abbrev pub IsBest : List Candidate → Option Candidate → Type 0
IsBest cs none = All (λ d. d.eligible ≡ false) cs
IsBest cs (some c) =
    Among c cs × (c.eligible ≡ true) × All (λ d. (d.eligible ≡ false) ⊎ (d.score ≤ c.score)) cs

-- The first two keys of the order, as one number: larger comes first.
rank : Candidate → ℕ
rank c = if c.eligible then suc c.score else 0

module _ (locale_compare : Text → Text → Comparison) where
  rank_of_not_after :
      (c d : Candidate)
      → not_after locale_compare (compare_candidates locale_compare c d) ≡ true
      → rank d ≤ rank c
  unfolding rank compare_candidates
  rank_of_not_after c d h = ground arith

  rank_of_after :
      (c d : Candidate)
      → not_after locale_compare (compare_candidates locale_compare c d) ≡ false
      → rank c ≤ rank d
  unfolding rank compare_candidates
  rank_of_after c d h = ground arith

  -- The list is in order of the rank, the largest first.
  Descending : List Candidate → Type 0
  Descending [] = Unit
  Descending (c ∷ cs) = All (λ d. rank d ≤ rank c) cs × Descending cs

  All-insert :
      (P : Candidate → Type 0) (c : Candidate) (ds : List Candidate)
      → P c
      → All P ds
      → All P (insert locale_compare c ds)
  unfolding insert
  All-insert P c [] h k = (h, tt)
  All-insert P c (d ∷ ds) h k =
      elim (Bool-cases (not_after locale_compare (compare_candidates locale_compare c d))) [
        | inl e ↦ rw e (h, k)
        | inr e ↦ rw e (k.0, All-insert P c ds h k.1)
      ]

  All-of_insert :
      (P : Candidate → Type 0) (c : Candidate) (ds : List Candidate)
      → All P (insert locale_compare c ds)
      → P c × All P ds
  unfolding insert
  All-of_insert P c [] h = h
  All-of_insert P c (d ∷ ds) h =
      elim (Bool-cases (not_after locale_compare (compare_candidates locale_compare c d))) [
        | inl e ↦ let k : P c × (P d × All P ds) = rw e at h in (k.0, k.1)
        | inr e ↦
            let k : P d × All P (insert locale_compare c ds) = rw e at h in
            let l = All-of_insert P c ds k.1 in (l.0, (k.0, l.1))
      ]

  All-sort :
      (P : Candidate → Type 0) (cs : List Candidate) → All P cs → All P (sort locale_compare cs)
  unfolding sort
  All-sort P [] h = tt
  All-sort P (c ∷ cs) h = All-insert P c (sort locale_compare cs) h.0 (All-sort P cs h.1)

  All-of_sort :
      (P : Candidate → Type 0) (cs : List Candidate) → All P (sort locale_compare cs) → All P cs
  unfolding sort
  All-of_sort P [] h = tt
  All-of_sort P (c ∷ cs) h =
      let k = All-of_insert P c (sort locale_compare cs) h in (k.0, All-of_sort P cs k.1)

  insert-Descending :
      (c : Candidate) (ds : List Candidate)
      → Descending ds
      → Descending (insert locale_compare c ds)
  unfolding insert Descending
  insert-Descending c [] h = (tt, tt)
  insert-Descending c (d ∷ ds) h =
      elim (Bool-cases (not_after locale_compare (compare_candidates locale_compare c d))) [
        | inl e ↦
            let le = rank_of_not_after c d e in
            rw e ((le, All-imp _ (λ x. rank x ≤ rank c) ds (λ x k. omega arith) h.0), h)
        | inr e ↦ rw e (
          All-insert (λ x. rank x ≤ rank d) c ds (rank_of_after c d e) h.0,
          insert-Descending c ds h.1,
        )
      ]

  sort-Descending : (cs : List Candidate) → Descending (sort locale_compare cs)
  unfolding sort Descending
  sort-Descending [] = tt
  sort-Descending (c ∷ cs) = insert-Descending c (sort locale_compare cs) (sort-Descending cs)

  of_rank :
      (c d : Candidate)
      → c.eligible ≡ true
      → rank d ≤ rank c
      → (d.eligible ≡ false) ⊎ (d.score ≤ c.score)
  unfolding rank
  of_rank c d e le = elim (Bool-cases d.eligible) [ inl f ↦ inr (ground arith) | inr f ↦ inl f ]

  recommend-Descending :
      (cs : List Candidate) {c : Candidate}
      → Descending cs
      → recommend cs ≡ some c
      → All (λ d. (d.eligible ≡ false) ⊎ (d.score ≤ c.score)) cs
  unfolding recommend Descending
  recommend-Descending [] h k = tt
  recommend-Descending (d ∷ ds) {c} h k = elim (Bool-cases d.eligible) [
    | inl e ↦
        let same = find_head (λ x. x.eligible) d ds e k in
        (
          inr (subst (λ x. d.score ≤ x.score) same (omega arith)),
          subst (λ y. All (λ x. (x.eligible ≡ false) ⊎ (x.score ≤ y.score)) ds) same
              (All-imp _ _ ds (λ x le. of_rank d x e le) h.0),
        )
    | inr e ↦ (inl e, recommend-Descending ds h.1 (find_tail (λ x. x.eligible) d ds e k))
  ]

  Among-of_insert :
      (x c : Candidate) (ds : List Candidate)
      → Among x (insert locale_compare c ds)
      → (x ≡ c) ⊎ Among x ds
  unfolding insert
  Among-of_insert x c [] h = h
  Among-of_insert x c (d ∷ ds) h =
      elim (Bool-cases (not_after locale_compare (compare_candidates locale_compare c d))) [
        | inl e ↦ rw e at h
        | inr e ↦
            let k : (x ≡ d) ⊎ Among x (insert locale_compare c ds) = rw e at h in
            either (λ t. Among-of_insert x c ds t) k
      ]
    where
      swap : (x ≡ c) ⊎ Among x ds → (x ≡ c) ⊎ ((x ≡ d) ⊎ Among x ds)
      swap (inl y) = inl y
      swap (inr y) = inr (inr y)

      either :
          (Among x (insert locale_compare c ds) → (x ≡ c) ⊎ Among x ds)
          → (x ≡ d) ⊎ Among x (insert locale_compare c ds)
          → (x ≡ c) ⊎ ((x ≡ d) ⊎ Among x ds)
      either f (inl y) = inr (inl y)
      either f (inr y) = swap (f y)

  Among-of_sort :
      (x : Candidate) (cs : List Candidate) → Among x (sort locale_compare cs) → Among x cs
  unfolding sort
  Among-of_sort x [] h = h
  Among-of_sort x (c ∷ cs) h =
      go (λ t. Among-of_sort x cs t) (Among-of_insert x c (sort locale_compare cs) h)
    where
      go :
          (Among x (sort locale_compare cs) → Among x cs)
          → (x ≡ c) ⊎ Among x (sort locale_compare cs)
          → (x ≡ c) ⊎ Among x cs
      go f (inl y) = inl y
      go f (inr y) = inr (f y)

  -- The recommendation, for any comparison of names, is an eligible candidate, and no eligible candidate
  -- has a higher score. There is none only where no candidate is eligible.
  pub recommend-IsBest : (cs : List Candidate) → IsBest cs (recommend (sort locale_compare cs))
  recommend-IsBest cs = best (recommend (sort locale_compare cs)) refl
    where
      best : (o : Option Candidate) → recommend (sort locale_compare cs) ≡ o → IsBest cs o
      best none h =
          All-of_sort _ cs
            (unfold recommend in find_none-All (λ c. c.eligible) (sort locale_compare cs) h)
      best (some c) h = (
        Among-of_sort c cs
            (unfold recommend in find-Among (λ d. d.eligible) (sort locale_compare cs) h),
        unfold recommend in find-holds (λ d. d.eligible) (sort locale_compare cs) h,
        All-of_sort _ cs (recommend-Descending (sort locale_compare cs) (sort-Descending cs) h),
      )
