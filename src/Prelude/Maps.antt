-- ===== src/Prelude/Maps.antt =====
-- Go's map as an association list: a write replaces the entry of its key or adds one at the end,
-- so a map that starts empty holds one entry for a key and its length is Go's `len`.
use Prim.Native.Nat.{suc, ◌≤◌}
use mathlib.Core.Path.{◌≡◌, refl}
use mathlib.Core.Bool.{Bool}
use mathlib.Core.Logic.{inl, inr}
use mathlib.Core.Option.{Option, none, some}
use mathlib.Core.List.{List, [], ◌∷◌}
use native.Mathlib.Omega.{arith}
use loon_site.Prelude.Tests.{Eq, ◌==◌, if◌then◌else◌, Bool-cases}
use loon_site.Prelude.Lists.{length, keep}

module _ {ℓ} {K : Type 0} {V : Type ℓ} ⦃e : Eq K⦄ where
  -- The value of a key.
  unfoldable pub lookup : K → List (K × V) → Option V
  lookup key [] = none
  lookup key ((other, value) ∷ rest) = if other == key then some value else lookup key rest

  -- `m[key] = value`
  unfoldable pub insert : K → V → List (K × V) → List (K × V)
  insert key value [] = (key, value) ∷ []
  insert key value ((other, old) ∷ rest) =
      if other == key then (other, value) ∷ rest else (other, old) ∷ insert key value rest

  pub lookup-insert :
      (key at : K) (value : V) (table : List (K × V))
      → lookup at (insert key value table) ≡ (if key == at then some value else lookup at table)
  unfolding lookup insert
  lookup-insert key at value [] = refl
  lookup-insert key at value ((other, old) ∷ rest) = ground (
    arith,
    e.equal_iff key at,
    e.equal_iff other key,
    e.equal_iff other at,
    lookup-insert key at value rest,
  )

  pub length-insert-le : (k : K) (v : V) (m : List (K × V)) → length (insert k v m) ≤ suc (length m)
  unfolding insert
  length-insert-le k v [] = omega arith
  length-insert-le k v ((j, w) ∷ m) = ground (arith, length-insert-le k v m)

  -- One entry for a key.
  abbrev pub Distinct : List (K × V) → Type ℓ
  Distinct [] = Unit
  Distinct ((k, v) ∷ m) = (lookup k m ≡ none) × Distinct m

  pub insert-Distinct : (k : K) (v : V) (m : List (K × V)) → Distinct m → Distinct (insert k v m)
  unfolding insert lookup
  insert-Distinct k v [] d = (refl, tt)
  insert-Distinct k v ((j, w) ∷ m) (absent, d) =
      ground
        (arith, e.equal_iff j k, e.equal_iff k j, lookup-insert k j v m, insert-Distinct k v m d)

  lookup-keep-none :
      (k : K) (p : K × V → Bool) (m : List (K × V)) → lookup k m ≡ none → lookup k (keep p m) ≡ none
  unfolding lookup
  lookup-keep-none k p [] h = refl
  lookup-keep-none k p ((j, v) ∷ m) h = ground (arith, lookup-keep-none k p m)

  pub keep-Distinct : (p : K × V → Bool) (m : List (K × V)) → Distinct m → Distinct (keep p m)
  keep-Distinct p [] d = d
  keep-Distinct p ((j, v) ∷ m) (absent, d) =
      ground (arith, keep-Distinct p m d, lookup-keep-none j p m absent)

  -- What a filter leaves of one key's entry.
  abbrev pub keep_value : (K × V → Bool) → K → Option V → Option V
  keep_value p k none = none
  keep_value p k (some v) = if p (k, v) then some v else none

  pub lookup-keep :
      (k : K) (p : K × V → Bool) (m : List (K × V))
      → Distinct m
      → lookup k (keep p m) ≡ keep_value p k (lookup k m)
  unfolding lookup
  lookup-keep k p [] d = refl
  lookup-keep k p ((j, v) ∷ m) (absent, d) = elim (Bool-cases (j == k)) [
    | inl same ↦
        let here : j ≡ k = (e.equal_iff j k).0 same in
        let gone : lookup k m ≡ none = rw here at absent in
        ground (arith, here, lookup-keep-none k p m gone)
    | inr other ↦ ground (arith, lookup-keep k p m d)
  ]
