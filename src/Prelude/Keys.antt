-- ===== src/Prelude/Keys.antt =====
-- Columns that are keys: no two rows of a table have the same value there.
use Prim.Native.Nat.{◌≤◌}
use mathlib.Core.Path.{◌≡◌, refl}
use mathlib.Core.Logic.{inl, inr}
use mathlib.Core.Bool.{Bool, true, false, ◌&&◌, not}
use mathlib.Core.List.{List, [], ◌∷◌, ◌++◌}
use native.Mathlib.Omega.{arith}
use loon_site.Prelude.Tests.{Eq, ◌==◌, Bool-cases}
use loon_site.Prelude.Lists.{keep, count_if, any}
use loon_site.Prelude.Rows.{update_where}

module _ {A : Type 0} {K : Type 0} ⦃e : Eq K⦄ (key : A → K) where
  abbrev pub Absent : K → List A → Type 0
  Absent k rows = any (λ s. key s == k) rows ≡ false

  abbrev pub IsKey : List A → Type 0
  IsKey [] = Unit
  IsKey (r ∷ rows) = Absent (key r) rows × IsKey rows

  pub Absent-append :
      (k : K) (rows : List A) (r : A)
      → Absent k rows
      → (key r == k) ≡ false
      → Absent k (rows ++ r ∷ [])
  Absent-append k [] r absent other = ground (arith, other)
  Absent-append k (s ∷ rows) r absent other = ground (arith, Absent-append k rows r)

  pub IsKey-append :
      (rows : List A) (r : A) → Absent (key r) rows → IsKey rows → IsKey (rows ++ r ∷ [])
  IsKey-append [] r absent h = (refl, tt)
  IsKey-append (s ∷ rows) r absent (here, h) = (
    Absent-append (key s) rows r here
        (ground (arith, e.equal_iff (key r) (key s), e.equal_iff (key s) (key r))),
    IsKey-append rows r (ground arith) h,
  )

  pub Absent-keep : (k : K) (p : A → Bool) (rows : List A) → Absent k rows → Absent k (keep p rows)
  Absent-keep k p [] absent = refl
  Absent-keep k p (r ∷ rows) absent = ground (arith, Absent-keep k p rows)

  pub IsKey-keep : (p : A → Bool) (rows : List A) → IsKey rows → IsKey (keep p rows)
  IsKey-keep p [] h = tt
  IsKey-keep p (r ∷ rows) (here, h) = elim (Bool-cases (p r)) [
    | inl kept ↦ rw kept (Absent-keep (key r) p rows here, IsKey-keep p rows h)
    | inr left ↦ rw left (IsKey-keep p rows h)
  ]

  module _ (p : A → Bool) (f : A → A) where
    pub Absent-update :
        (k : K) (rows : List A)
        → ((r : A) → p r ≡ true → (key (f r) == k) ≡ false)
        → Absent k rows
        → Absent k (update_where p f rows)
    unfolding update_where
    Absent-update k [] other absent = refl
    Absent-update k (r ∷ rows) other absent = elim (Bool-cases (p r)) [
      | inl hit ↦ rw (hit, other r hit) (Absent-update k rows other (ground arith))
      | inr miss ↦
          let rest = Absent-update k rows other (ground arith) in
          let away : (key r == k) ≡ false = ground arith in rw (miss, away) rest
    ]

    pub Absent-update_same :
        (k : K) (rows : List A)
        → ((r : A) → key (f r) ≡ key r)
        → Absent k rows
        → Absent k (update_where p f rows)
    unfolding update_where
    Absent-update_same k [] same absent = refl
    Absent-update_same k (r ∷ rows) same absent =
        let rest = Absent-update_same k rows same (ground arith) in
        let away : (key r == k) ≡ false = ground arith in
        elim (Bool-cases (p r)) [
          | inl hit ↦ rw (hit, same r, away) rest
          | inr miss ↦ rw (miss, away) rest
        ]

    -- An update that leaves the column alone.
    pub IsKey-update_same :
        (rows : List A) → ((r : A) → key (f r) ≡ key r) → IsKey rows → IsKey (update_where p f rows)
    unfolding update_where
    IsKey-update_same [] same h = tt
    IsKey-update_same (r ∷ rows) same (here, h) =
        let rest = IsKey-update_same rows same h in
        let absent = Absent-update_same (key r) rows same here in
        elim (Bool-cases (p r)) [
          | inl hit ↦ rw (hit, same r) (absent, rest)
          | inr miss ↦ rw miss (absent, rest)
        ]

    -- An update of at most one row, to a value that no other row has.
    module _ (k : K) (sets : (r : A) → p r ≡ true → key (f r) ≡ k) where
      Absent-updated :
          (rows : List A)
          → count_if p rows ≡ 0
          → any (λ s. not (p s) && (key s == k)) rows ≡ false
          → Absent k (update_where p f rows)
      unfolding update_where
      Absent-updated [] nothing free = refl
      Absent-updated (r ∷ rows) nothing free =
          let miss : p r ≡ false = ground arith in
          let rest = Absent-updated rows (ground arith) (ground arith) in
          let away : (key r == k) ≡ false = ground arith in rw (miss, away) rest

      pub IsKey-update_one :
          (rows : List A)
          → count_if p rows ≤ 1
          → any (λ s. not (p s) && (key s == k)) rows ≡ false
          → IsKey rows
          → IsKey (update_where p f rows)
      unfolding update_where
      IsKey-update_one [] most free h = tt
      IsKey-update_one (r ∷ rows) most free (here, h) =
          let rest = IsKey-update_one rows (ground arith) (ground arith) h in
          elim (Bool-cases (p r)) [
            | inl hit ↦
                rw (hit, sets r hit) (Absent-updated rows (ground arith) (ground arith), rest)
            | inr miss ↦ rw miss (
              Absent-update (key r) rows
                  (λ s hit.
                    rw (sets s hit) (ground (arith, e.equal_iff (key r) k, e.equal_iff k (key r))))
                  here,
              rest,
            )
          ]

  -- A test that only the rows with one value pass, passes once at most.
  pub Absent-count :
      (k : K) (p : A → Bool) (rows : List A)
      → ((r : A) → p r ≡ true → key r ≡ k)
      → Absent k rows
      → count_if p rows ≡ 0
  Absent-count k p [] only absent = refl
  Absent-count k p (r ∷ rows) only absent = elim (Bool-cases (p r)) [
    | inl hit ↦ absurd (let same = (e.equal_iff (key r) k).1 (only r hit) in ground arith)
    | inr miss ↦ rw miss (omega (arith, Absent-count k p rows only (ground arith)))
  ]

  pub IsKey-count :
      (k : K) (p : A → Bool) (rows : List A)
      → ((r : A) → p r ≡ true → key r ≡ k)
      → IsKey rows
      → count_if p rows ≤ 1
  IsKey-count k p [] only h = omega arith
  IsKey-count k p (r ∷ rows) only (here, h) = elim (Bool-cases (p r)) [
    | inr miss ↦ rw miss (omega (arith, IsKey-count k p rows only h))
    | inl hit ↦ rw hit (omega (arith, Absent-count k p rows only (rw (only r hit) at here)))
  ]
