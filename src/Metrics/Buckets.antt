-- ===== src/Metrics/Buckets.antt =====
-- The buckets that are written are cumulative.
use loon_site.Prelude.{
  ℕ, ◌+◌, ◌≤◌, ◌≡◌, refl, sym, ap, subst, ◌∙◌, Option, none, some, List, [], ◌∷◌, map, ltb,
  if◌then◌else◌, lookup, lookup-insert, length, length-map, arith, Bool-cases, inl, inr, All, ◌==◌,
}
use loon_site.Prelude.Bytes.{Bytes, bytes_eq, bytes_beq_iff}
use loon_site.Metrics.Totals.{
  IsSorted, within, added, running-count_in, length-count_in, added-add_at, added-nil,
  length-running, added-zeros, widened,
}
use loon_site.Metrics.{
  LabelSet, label_string, HistSeries, Histogram, sort_bounds, insert_bound, count_in, found_or_new,
  observed, observe, running, new_histogram,
}

-- The raw counts and the count of a series, when there is one yet.
abbrev pub counts_of : List ℕ → Option HistSeries → List ℕ
counts_of buckets none = map (λ b. 0) buckets
counts_of buckets (some s) = s.counts

abbrev pub count_of : Option HistSeries → ℕ
count_of none = 0
count_of (some s) = s.count

unfoldable pub observe_all : List (LabelSet × ℕ) → Histogram → Histogram
observe_all [] h = h
observe_all ((labels, v) ∷ obs) h = observe_all obs (observe labels v h)

-- The values observed under labels that are written alike.
unfoldable pub values_of : Bytes → List (LabelSet × ℕ) → List ℕ
values_of key [] = []
values_of key ((labels, v) ∷ obs) =
    let rest = values_of key obs in if label_string labels == key then v ∷ rest else rest

found-counts :
    (labels : LabelSet) (buckets : List ℕ) (o : Option HistSeries)
    → ((found_or_new labels buckets o).counts ≡ counts_of buckets o)
      × ((found_or_new labels buckets o).count ≡ count_of o)
found-counts labels buckets none = (refl, refl)
found-counts labels buckets (some s) = (refl, refl)

module _ (key : Bytes) where
  abbrev at_key : Histogram → Option HistSeries
  at_key h = lookup key h.series

  observe-counts :
      (labels : LabelSet) (v : ℕ) (h : Histogram)
      → (counts_of h.buckets (at_key (observe labels v h)) ≡ (
          if label_string labels == key
          then count_in h.buckets v (counts_of h.buckets (at_key h))
          else counts_of h.buckets (at_key h)))
        × (count_of (at_key (observe labels v h))
            ≡ (if label_string labels == key then count_of (at_key h) + 1 else count_of (at_key h)))
  unfolding observe
  observe-counts labels v h =
      let own = label_string labels in
      let s = found_or_new labels h.buckets (lookup own h.series) in
      let put = lookup-insert own key (observed h.buckets v s) h.series in
      let (counts, count) = found-counts labels h.buckets (lookup own h.series) in
      elim (Bool-cases (own == key)) [
        | inr other ↦ rw (put, other) (refl, refl)
        | inl same ↦
            let e : own ≡ key = (bytes_beq_iff own key).0 same in
            rw (put, same, counts, count, e) (refl, refl)
      ]

  observe-buckets :
      (labels : LabelSet) (v : ℕ) (h : Histogram) → (observe labels v h).buckets ≡ h.buckets
  unfolding observe
  observe-buckets labels v h = refl

  -- The same for buckets that are known by an equation.
  step-counts :
      (labels : LabelSet) (v : ℕ) (buckets : List ℕ) (h : Histogram)
      → h.buckets ≡ buckets
      → (counts_of buckets (at_key (observe labels v h)) ≡ (
          if label_string labels == key
          then count_in buckets v (counts_of buckets (at_key h))
          else counts_of buckets (at_key h)))
        × (count_of (at_key (observe labels v h))
            ≡ (if label_string labels == key then count_of (at_key h) + 1 else count_of (at_key h)))
  step-counts labels v buckets h e =
      subst
        (λ b.
          (counts_of b (at_key (observe labels v h)) ≡ (
            if label_string labels == key
            then count_in b v (counts_of b (at_key h))
            else counts_of b (at_key h)))
          × (count_of (at_key (observe labels v h)) ≡ (
              if label_string labels == key then count_of (at_key h) + 1 else count_of (at_key h))))
        e (observe-counts labels v h)

  all-counts :
      (obs : List (LabelSet × ℕ)) (buckets : List ℕ) (h : Histogram)
      → h.buckets ≡ buckets
      → IsSorted buckets
      → length (counts_of buckets (at_key h)) ≡ length buckets
      → (running 0 (counts_of buckets (at_key (observe_all obs h)))
          ≡ added buckets (values_of key obs) (running 0 (counts_of buckets (at_key h))))
        × (count_of (at_key (observe_all obs h)) ≡ count_of (at_key h) + length (values_of key obs))
  unfolding observe_all values_of
  all-counts [] buckets h e sorted same =
      let len = length-running 0 (counts_of buckets (at_key h)) in
      (
        sym (
            added-nil buckets (running 0 (counts_of buckets (at_key h)))
              (omega (arith, len, same))),
        omega arith,
      )
  all-counts ((labels, v) ∷ obs) buckets h e sorted same =
      let before = counts_of buckets (at_key h) in
      let (counts, count) = step-counts labels v buckets h e in
      let e' = observe-buckets labels v h ∙ e in
      let len = length-count_in buckets v before same in
      let rest = all-counts obs buckets (observe labels v h) e' sorted in
      elim (Bool-cases (label_string labels == key)) [
        | inr other ↦
            let counts' : counts_of buckets (at_key (observe labels v h)) ≡ before =
              rw other at counts in
            let count' : count_of (at_key (observe labels v h)) ≡ count_of (at_key h) =
              rw other at count in
            let (totals, number) = rest (ap length counts' ∙ same) in
            rw other (
              totals ∙ ap (λ c. added buckets (values_of key obs) (running 0 c)) counts',
              omega (arith, number, count'),
            )
        | inl own ↦
            let counts' : counts_of buckets (at_key (observe labels v h))
                ≡ count_in buckets v before =
              rw own at counts in
            let count' : count_of (at_key (observe labels v h)) ≡ count_of (at_key h) + 1 =
              rw own at count in
            let (totals, number) = rest (ap length counts' ∙ len) in
            rw own (
              totals
                  ∙ ap (λ c. added buckets (values_of key obs) (running 0 c)) counts'
                  ∙ ap (added buckets (values_of key obs))
                      (running-count_in 0 buckets v before sorted same)
                  ∙ added-add_at buckets v (values_of key obs) (running 0 before),
              omega (arith, number, count'),
            )
      ]

All-insert_bound :
    (a b : ℕ) (bounds : List ℕ)
    → a ≤ b
    → All (λ c. a ≤ c) bounds
    → All (λ c. a ≤ c) (insert_bound b bounds)
unfolding insert_bound
All-insert_bound a b [] low h = (low, tt)
All-insert_bound a b (c ∷ bounds) low (here, h) = elim (Bool-cases (ltb c b)) [
  | inl before ↦ rw before (here, All-insert_bound a b bounds low h)
  | inr after ↦ rw after (low, (here, h))
]

insert_bound-IsSorted :
    (b : ℕ) (bounds : List ℕ) → IsSorted bounds → IsSorted (insert_bound b bounds)
unfolding insert_bound
insert_bound-IsSorted b [] h = (tt, tt)
insert_bound-IsSorted b (c ∷ bounds) (above, h) = elim (Bool-cases (ltb c b)) [
  | inl before ↦
      rw before (All-insert_bound c b bounds (ground arith) above, insert_bound-IsSorted b bounds h)
  | inr after ↦
      let low : b ≤ c = ground arith in rw after ((low, widened b c bounds low above), (above, h))
]

sort_bounds-IsSorted : (bounds : List ℕ) → IsSorted (sort_bounds bounds)
unfolding sort_bounds
sort_bounds-IsSorted [] = tt
sort_bounds-IsSorted (b ∷ bounds) =
    insert_bound-IsSorted b (sort_bounds bounds) (sort_bounds-IsSorted bounds)

-- The buckets of a series are cumulative: after any observations, under any labels and in any
-- order, the running total that is written for a bound is the number of the values observed under
-- these labels that are at most the bound, and the count, which the bucket +Inf is given, is the
-- number of all of them, also when the histogram was made with bounds out of order.
pub buckets_cumulative :
    (name help key : Bytes) (bounds : List ℕ) (obs : List (LabelSet × ℕ))
    → let series = lookup key (observe_all obs (new_histogram name help bounds)).series in
      (running 0 (counts_of (sort_bounds bounds) series)
        ≡ map (within (values_of key obs)) (sort_bounds bounds))
      × (count_of series ≡ length (values_of key obs))
unfolding new_histogram lookup
buckets_cumulative name help key bounds obs =
    let buckets = sort_bounds bounds in
    let (totals, number) =
      all-counts key obs buckets (new_histogram name help bounds) refl (sort_bounds-IsSorted bounds)
        (length-map (λ b. 0) buckets) in
    (totals ∙ added-zeros buckets (values_of key obs), number ∙ omega arith)
