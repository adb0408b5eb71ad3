-- ===== src/Metrics/Totals.antt =====
-- One value raises the running totals from the first bucket that it fits in.
use loon_site.Prelude.{
  ℕ, suc, ◌+◌, ◌≤◌, ◌≡◌, refl, ap, true, List, [], ◌∷◌, map, leb, if◌then◌else◌, count_if, length,
  arith, Bool-cases, inl, inr, All,
}
use loon_site.Prelude.Bytes.{bytes_eq}
use loon_site.Metrics.{count_in, running}

-- The bounds go up.
abbrev pub IsSorted : List ℕ → Type 0
IsSorted [] = Unit
IsSorted (b ∷ bounds) = All (λ c. b ≤ c) bounds × IsSorted bounds

-- One more at each bucket from the first that the value fits in.
abbrev pub add_at : List ℕ → ℕ → List ℕ → List ℕ
add_at [] v totals = totals
add_at (b ∷ bounds) v [] = []
add_at (b ∷ bounds) v (n ∷ totals) = (n + (if leb v b then 1 else 0)) ∷ add_at bounds v totals

running-raised :
    (t : ℕ) (bounds : List ℕ) (v : ℕ) (counts : List ℕ)
    → All (λ b. v ≤ b) bounds
    → length counts ≡ length bounds
    → running (t + 1) counts ≡ add_at bounds v (running t counts)
unfolding running
running-raised t [] v [] above same = refl
running-raised t [] v (n ∷ counts) above same = absurd (omega arith)
running-raised t (b ∷ bounds) v [] above same = absurd (omega arith)
running-raised t (b ∷ bounds) v (n ∷ counts) (here, above) same =
    let more = running-raised (t + n) bounds v counts above (omega arith) in
    let fits : leb v b ≡ true = ground arith in
    let swap : t + 1 + n ≡ t + n + 1 = omega arith in rw (fits, swap, more) refl

pub widened :
    (v b : ℕ) (bounds : List ℕ) → v ≤ b → All (λ c. b ≤ c) bounds → All (λ c. v ≤ c) bounds
widened v b [] low h = tt
widened v b (c ∷ bounds) low (here, h) = (omega arith, widened v b bounds low h)

pub running-count_in :
    (t : ℕ) (bounds : List ℕ) (v : ℕ) (counts : List ℕ)
    → IsSorted bounds
    → length counts ≡ length bounds
    → running t (count_in bounds v counts) ≡ add_at bounds v (running t counts)
unfolding running count_in
running-count_in t [] v [] sorted same = refl
running-count_in t [] v (n ∷ counts) sorted same = absurd (omega arith)
running-count_in t (b ∷ bounds) v [] sorted same = refl
running-count_in t (b ∷ bounds) v (n ∷ counts) (above, sorted) same = elim (Bool-cases (leb v b)) [
  | inl fits ↦
      let more =
        running-raised (t + n) bounds v counts (widened v b bounds (ground arith) above)
          (omega arith) in
      let swap : t + (n + 1) ≡ t + n + 1 = omega arith in rw (fits, swap, more) refl
  | inr over ↦
      rw (over, running-count_in (t + n) bounds v counts sorted (omega arith))
        (ap (λ m. m ∷ add_at bounds v (running (t + n) counts)) (omega arith))
]

pub length-count_in :
    (bounds : List ℕ) (v : ℕ) (counts : List ℕ)
    → length counts ≡ length bounds
    → length (count_in bounds v counts) ≡ length bounds
unfolding count_in
length-count_in [] v counts same = same
length-count_in (b ∷ bounds) v [] same = same
length-count_in (b ∷ bounds) v (n ∷ counts) same = ground (arith, length-count_in bounds v counts)

-- How many of the values are within a bound.
abbrev pub within : List ℕ → ℕ → ℕ
within vs b = count_if (λ v. leb v b) vs

-- Totals, with what each bound has within it added.
abbrev pub added : List ℕ → List ℕ → List ℕ → List ℕ
added [] vs totals = totals
added (b ∷ bounds) vs [] = []
added (b ∷ bounds) vs (n ∷ totals) = (n + within vs b) ∷ added bounds vs totals

pub added-add_at :
    (bounds : List ℕ) (v : ℕ) (vs totals : List ℕ)
    → added bounds vs (add_at bounds v totals) ≡ added bounds (v ∷ vs) totals
added-add_at [] v vs totals = refl
added-add_at (b ∷ bounds) v vs [] = refl
added-add_at (b ∷ bounds) v vs (n ∷ totals) =
    rw (added-add_at bounds v vs totals) (ap (λ m. m ∷ added bounds (v ∷ vs) totals) (omega arith))

pub added-nil :
    (bounds totals : List ℕ) → length totals ≡ length bounds → added bounds [] totals ≡ totals
added-nil [] totals same = refl
added-nil (b ∷ bounds) [] same = refl
added-nil (b ∷ bounds) (n ∷ totals) same =
    rw (added-nil bounds totals (omega arith)) (ap (λ m. m ∷ totals) (omega arith))

pub length-running : (t : ℕ) (counts : List ℕ) → length (running t counts) ≡ length counts
unfolding running
length-running t [] = refl
length-running t (n ∷ counts) = ap suc (length-running (t + n) counts)

pub added-zeros :
    (bounds vs : List ℕ)
    → added bounds vs (running 0 (map (λ b. 0) bounds)) ≡ map (within vs) bounds
unfolding running
added-zeros [] vs = refl
added-zeros (b ∷ bounds) vs =
    rw (added-zeros bounds vs) (ap (λ m. m ∷ map (within vs) bounds) (omega arith))
