-- ===== src/Prelude/First.antt =====
-- The loop that tries one thing after the other and returns at the first that answers.
use Prim.Native.Nat.{ℕ, zero, suc, ◌+◌, ◌<◌}
use mathlib.Core.Path.{◌≡◌, refl, ap, ◌∙◌}
use mathlib.Core.Logic.{inl, inr}
use mathlib.Core.List.{List, [], ◌∷◌}
use mathlib.Core.Option.{Option, none, some}
use native.Mathlib.Omega.{arith}
use loon_site.Prelude.Tests.{Option-cases}
use loon_site.Prelude.Lists.{length, get_elem?}

module _ {ℓ κ} {A : Type ℓ} {B : Type κ} where
  -- The test sees the position too, counted from `i`.
  unfoldable pub first_some : (ℕ → A → Option B) → ℕ → List A → Option B
  first_some f i [] = none
  first_some f i (x ∷ xs) =
      let rest = first_some f (i + 1) xs in elim (f i x) [ none ↦ rest | some b ↦ some b ]

  -- The answer of the first that answers, with those before it that did not.
  abbrev pub IsFirst : (ℕ → A → Option B) → ℕ → List A → B → Type (ℓ ⊔ κ)
  IsFirst f k xs b =
      (j : ℕ) × (x : A) × (j < length xs)
      × (get_elem? xs j ≡ some x)
      × (f (k + j) x ≡ some b)
      × ((i : ℕ) (y : A) → i < j → get_elem? xs i ≡ some y → f (k + i) y ≡ none)

  pub first_some-IsFirst :
      (f : ℕ → A → Option B) (k : ℕ) (xs : List A) (b : B)
      → first_some f k xs ≡ some b
      → IsFirst f k xs b
  unfolding first_some
  first_some-IsFirst f k [] b h = absurd (cc)
  first_some-IsFirst f k (x ∷ xs) b h = elim (Option-cases (f k x)) [
    | inl missed ↦
        let (j, y, below, at, found, before) =
          first_some-IsFirst f (k + 1) xs b (rw (missed, first_some) at h) in
        (suc j, y, omega arith, at, ap (λ n. f n y) (omega arith) ∙ found, earlier missed before)
    | inr (c, found) ↦ (
      0,
      x,
      omega arith,
      refl,
      ap (λ n. f n x) (omega arith) ∙ found ∙ (rw (found, first_some) at h),
      λ i y lt. absurd (omega arith),
    )
  ]
    where
      earlier :
          {j : ℕ}
          → f k x ≡ none
          → ((i : ℕ) (y : A) → i < j → get_elem? xs i ≡ some y → f (k + 1 + i) y ≡ none)
          → (i : ℕ) (y : A) → i < suc j
          → get_elem? (x ∷ xs) i ≡ some y
          → f (k + i) y ≡ none
      earlier missed before zero y lt at = let e : k + 0 ≡ k = omega arith in cc
      earlier missed before (suc i) y lt at =
          ap (λ n. f n y) (omega arith) ∙ before i y (omega arith) at

  pub first_some-none :
      (f : ℕ → A → Option B) (k : ℕ) (xs : List A)
      → first_some f k xs ≡ none
      → (i : ℕ) (y : A) → get_elem? xs i ≡ some y
      → f (k + i) y ≡ none
  unfolding first_some
  first_some-none f k [] h i y at = absurd (cc)
  first_some-none f k (x ∷ xs) h zero y at =
      let e : k + 0 ≡ k = omega arith in let missed : f k x ≡ none = ground arith in cc
  first_some-none f k (x ∷ xs) h (suc i) y at =
      ap (λ n. f n y) (omega arith) ∙ first_some-none f (k + 1) xs (ground arith) i y at
