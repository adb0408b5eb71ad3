-- ===== src/Prelude/Members.antt =====
-- What a list holds.
use mathlib.Core.Path.{◌≡◌, refl, sym, ap, ◌∙◌}
use mathlib.Core.Logic.{◌⊎◌, inl, inr}
use mathlib.Core.Bool.{Bool, true}
use mathlib.Core.List.{List, [], ◌∷◌, ◌++◌, map}
use loon_site.Prelude.Tests.{Bool-cases}
use loon_site.Prelude.Lists.{keep, any}
use loon_site.Prelude.Tests.{◌==◌}
use loon_site.Prelude.Bytes.{Bytes, bytes_eq, bytes_beq_iff}
use native.Mathlib.Omega.{arith}
use mathlib.Core.Logic.{◌↔◌}

module _ {A : Type 0} where
  abbrev pub In : A → List A → Type 0
  In x [] = ⊥
  In x (y ∷ ys) = (y ≡ x) ⊎ In x ys

  pub In-append_left : (x : A) (xs ys : List A) → In x xs → In x (xs ++ ys)
  In-append_left x [] ys at = elim at [ ]
  In-append_left x (z ∷ xs) ys (inl here) = inl here
  In-append_left x (z ∷ xs) ys (inr later) = inr (In-append_left x xs ys later)

  pub In-append_right : (x : A) (xs ys : List A) → In x ys → In x (xs ++ ys)
  In-append_right x [] ys at = at
  In-append_right x (z ∷ xs) ys at = inr (In-append_right x xs ys at)

  pub In-append_cases : (x : A) (xs ys : List A) → In x (xs ++ ys) → In x xs ⊎ In x ys
  In-append_cases x [] ys at = inr at
  In-append_cases x (z ∷ xs) ys (inl here) = inl (inl here)
  In-append_cases x (z ∷ xs) ys (inr later) = elim (In-append_cases x xs ys later) [
    | inl left ↦ inl (inr left)
    | inr right ↦ inr right
  ]

  pub In-keep : (p : A → Bool) (x : A) (xs : List A) → In x xs → p x ≡ true → In x (keep p xs)
  In-keep p x [] at good = elim at [ ]
  In-keep p x (y ∷ xs) (inl here) good = rw (here, good) (inl refl)
  In-keep p x (y ∷ xs) (inr later) good = elim (Bool-cases (p y)) [
    | inl kept ↦ rw kept (inr (In-keep p x xs later good))
    | inr left ↦ rw left (In-keep p x xs later good)
  ]

  pub In-of_keep : (p : A → Bool) (x : A) (xs : List A) → In x (keep p xs) → In x xs × (p x ≡ true)
  In-of_keep p x [] at = elim at [ ]
  In-of_keep p x (y ∷ xs) at = elim (Bool-cases (p y)) [
    | inl kept ↦ elim (rw kept at at) [
      | inl here ↦ (inl here, sym (ap p here) ∙ kept)
      | inr later ↦ let (there, good) = In-of_keep p x xs later in (inr there, good)
    ]
    | inr left ↦ let (there, good) = In-of_keep p x xs (rw left at at) in (inr there, good)
  ]

pub In-map : {A B : Type 0} (f : A → B) (x : A) (xs : List A) → In x xs → In (f x) (map f xs)
In-map f x [] at = elim at [ ]
In-map f x (y ∷ xs) (inl here) = inl (ap f here)
In-map f x (y ∷ xs) (inr later) = inr (In-map f x xs later)

pub In-of_map :
    {A B : Type 0} (f : A → B) (y : B) (xs : List A)
    → In y (map f xs)
    → (x : A) × In x xs × (f x ≡ y)
In-of_map f y [] at = elim at [ ]
In-of_map f y (x ∷ xs) (inl here) = (x, inl refl, here)
In-of_map f y (x ∷ xs) (inr later) =
    let (z, there, same) = In-of_map f y xs later in (z, inr there, same)

pub any_equal-In : (x : Bytes) (xs : List Bytes) → (any (λ p. x == p) xs ≡ true) ↔ In x xs
any_equal-In x [] = ground arith
any_equal-In x (y ∷ xs) = ground (arith, bytes_beq_iff x y, any_equal-In x xs)
