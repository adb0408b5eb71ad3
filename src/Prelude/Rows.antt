-- ===== src/Prelude/Rows.antt =====
-- Tables as lists of rows: the `UPDATE` of the rows that pass a test.
use mathlib.Core.Path.{◌≡◌, refl, ap}
use mathlib.Core.Logic.{inl, inr}
use mathlib.Core.Bool.{Bool, true, false}
use mathlib.Core.Option.{Option, none, some}
use mathlib.Core.List.{List, [], ◌∷◌, map}
use native.Mathlib.Omega.{arith}
use loon_site.Prelude.Tests.{if◌then◌else◌, Bool-cases}
use loon_site.Prelude.Lists.{keep, count_if, any, All}

module _ {ℓ} {A : Type ℓ} where
  unfoldable pub update_where : (A → Bool) → (A → A) → List A → List A
  update_where p f rows = map (λ r. if p r then f r else r) rows

  -- `SELECT ... LIMIT 1` in the order of the list.
  unfoldable pub first_where : (A → Bool) → List A → Option A
  first_where p [] = none
  first_where p (r ∷ rows) = let rest = first_where p rows in if p r then some r else rest

  pub All-update_where {κ} :
      (P : A → Type κ) (p : A → Bool) (f : A → A) (rows : List A)
      → ((r : A) → P r → p r ≡ true → P (f r))
      → All P rows
      → All P (update_where p f rows)
  unfolding update_where
  All-update_where P p f [] step h = tt
  All-update_where P p f (r ∷ rows) step (here, h) = elim (Bool-cases (p r)) [
    | inl hit ↦ rw hit (step r here hit, All-update_where P p f rows step h)
    | inr miss ↦ rw miss (here, All-update_where P p f rows step h)
  ]

  -- An update of rows outside a selection, to rows outside it.
  pub keep-update_where :
      (k p : A → Bool) (f : A → A) (rows : List A)
      → ((r : A) → p r ≡ true → (k r ≡ false) × (k (f r) ≡ false))
      → keep k (update_where p f rows) ≡ keep k rows
  unfolding update_where
  keep-update_where k p f [] away = refl
  keep-update_where k p f (r ∷ rows) away =
      let rest = keep-update_where k p f rows away in
      elim (Bool-cases (p r)) [
        | inr left ↦ rw left (ground (arith, rest))
        | inl picked ↦ let (before, after) = away r picked in rw (picked, before, after) rest
      ]

  pub update_where-none :
      (p : A → Bool) (f : A → A) (rows : List A)
      → count_if p rows ≡ 0
      → update_where p f rows ≡ rows
  unfolding update_where
  update_where-none p f [] nothing = refl
  update_where-none p f (r ∷ rows) nothing =
      let miss : p r ≡ false = ground arith in
      rw miss (ap (λ s. r ∷ s) (update_where-none p f rows (ground arith)))

  pub first_where-none :
      (p : A → Bool) (rows : List A) → any p rows ≡ false → first_where p rows ≡ none
  unfolding first_where
  first_where-none p [] absent = refl
  first_where-none p (r ∷ rows) absent = ground (arith, first_where-none p rows)

  pub none-any : (p : A → Bool) (rows : List A) → first_where p rows ≡ none → any p rows ≡ false
  unfolding first_where
  none-any p [] absent = refl
  none-any p (r ∷ rows) absent = ground (arith, none-any p rows)

  pub any-count : (p : A → Bool) (rows : List A) → any p rows ≡ false → count_if p rows ≡ 0
  any-count p [] absent = refl
  any-count p (r ∷ rows) absent = ground (arith, any-count p rows)
