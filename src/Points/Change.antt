-- ===== src/Points/Change.antt =====
-- pgPoints of web/handlers/points_web.go: the change of a balance that plugins ask for, whose
-- AwardFn and RefundFn are a change by n and DeductFn one by -n. The update and the row of the
-- ledger are two statements outside a transaction, each of which may fail, and so may the read of
-- the balance that an error reports.
use loon_site.Prelude.{
  ℕ, suc, ◌+◌, ◌-◌, ◌≡◌, refl, Bool, true, false, Option, none, some, [], ◌∷◌, ◌++◌, leb, ◌==◌,
  nat_eq, nat_beq_iff, if◌then◌else◌, lookup, insert, lookup-insert, arith, Bool-cases,
  Option-cases, inl, inr,
}
use loon_site.Prelude.Int.{ℤ, pos, negsuc}
use loon_site.Prelude.Bytes.{Bytes}
use loon_site.Points.{PointStore, LedgerRow, other_kind}
use loon_site.Points.Effects.{
  gain, loss, gained, lost, gained-append, lost-append, or_nothing, points_of,
}

pub data ChangeResult : Type 0 where
  changed insufficient unbooked : ℕ → ChangeResult

-- `balance`, which is 0 when it cannot be read.
unfoldable pub read_balance : Bool → ℕ → PointStore → ℕ
read_balance reads user st = if reads then or_nothing (lookup user st.points) else 0

-- `points + $2`, when it is not below zero.
unfoldable pub moved_by : ℤ → ℕ → Option ℕ
moved_by (pos n) b = some (b + n)
moved_by (negsuc n) b = if leb (suc n) b then some (b - suc n) else none

abbrev pub guarded : ℤ → Option ℕ → Option ℕ
guarded delta none = none
guarded delta (some b) = moved_by delta b

-- `if ref != 0 { refp = &ref }`
abbrev pub reference : ℕ → Option ℕ
reference ref = if ref == 0 then none else some ref

module _ (update_goes row_goes reads : Bool) where
  unfoldable pub book_change :
      ℕ → ℤ → Bytes → Bytes → ℕ → Option ℕ → PointStore → PointStore × ChangeResult
  unfolding read_balance
  book_change user delta kind desc ref none st = (st, insufficient (read_balance reads user st))
  book_change user delta kind desc ref (some balance) st =
      let row : LedgerRow = record {
        user_id = user;
        amount = delta;
        balance = balance;
        kind = other_kind kind;
        description = desc;
        reference_id = reference ref;
      } in
      let points = insert user balance st.points in
      if row_goes
      then (record st { points = points; ledger = st.ledger ++ row ∷ [] }, changed balance)
      else (record st { points = points }, unbooked balance)

  -- `change`
  unfoldable pub change : ℕ → ℤ → Bytes → Bytes → ℕ → PointStore → PointStore × ChangeResult
  unfolding book_change read_balance moved_by
  change user delta kind desc ref st =
      if update_goes
      then book_change user delta kind desc ref (guarded delta (lookup user st.points)) st
      else (st, insufficient (read_balance reads user st))

-- What the result says of a change without its row.
abbrev pub is_unbooked : ChangeResult → Bool
is_unbooked (changed balance) = false
is_unbooked (insufficient balance) = false
is_unbooked (unbooked balance) = true

moved_by-sum : (delta : ℤ) (b c : ℕ) → moved_by delta b ≡ some c → c + loss delta ≡ b + gain delta
unfolding moved_by
moved_by-sum (pos n) b c e = ground (arith, e)
moved_by-sum (negsuc n) b c e = elim (Bool-cases (leb (suc n) b)) [
  | inl enough ↦ let w = rw enough at e in ground (arith, w)
  | inr short ↦ absurd (let w = rw short at e in cc)
]

-- What a member gained and lost by a change without a row in the ledger.
abbrev pub hidden_gain : ℕ → ℕ → ℤ → ChangeResult → ℕ
hidden_gain who user delta result =
    if is_unbooked result then (if user == who then gain delta else 0) else 0

abbrev pub hidden_loss : ℕ → ℕ → ℤ → ChangeResult → ℕ
hidden_loss who user delta result =
    if is_unbooked result then (if user == who then loss delta else 0) else 0

module _ (who user : ℕ) (delta : ℤ) (kind desc : Bytes) (ref : ℕ) (st : PointStore) where
  abbrev pub IsAccounted : PointStore × ChangeResult → Type 0
  IsAccounted r =
      points_of who r.0
        + gained who st.ledger
        + lost who r.0.ledger
        + hidden_loss who user delta r.1
      ≡ points_of who st
        + gained who r.0.ledger
        + lost who st.ledger
        + hidden_gain who user delta r.1

  book-account :
      (update_goes row_goes reads : Bool) (b c : ℕ)
      → lookup user st.points ≡ some b
      → c + loss delta ≡ b + gain delta
      → IsAccounted (book_change update_goes row_goes reads user delta kind desc ref (some c) st)
  unfolding book_change gained lost
  book-account update_goes true reads b c found sum = elim (Bool-cases (user == who)) [
    | inl same ↦
        let e = (nat_beq_iff user who).0 same in
        let here : lookup who st.points ≡ some b = rw e at found in
        rw
          (
            gained-append who st.ledger _,
            lost-append who st.ledger _,
            lookup-insert user who c st.points,
            same,
            here,
          )
          (omega (arith, sum))
    | inr other ↦
        rw
          (
            gained-append who st.ledger _,
            lost-append who st.ledger _,
            lookup-insert user who c st.points,
            other,
          )
          (omega arith)
  ]
  book-account update_goes false reads b c found sum = elim (Bool-cases (user == who)) [
    | inl same ↦
        let e = (nat_beq_iff user who).0 same in
        let here : lookup who st.points ≡ some b = rw e at found in
        rw (lookup-insert user who c st.points, same, here) (omega (arith, sum))
    | inr other ↦ rw (lookup-insert user who c st.points, other) (omega arith)
  ]

  pub change-account :
      (update_goes row_goes reads : Bool)
      → IsAccounted (change update_goes row_goes reads user delta kind desc ref st)
  unfolding change
  change-account false row_goes reads = refl
  change-account true row_goes reads = elim (Option-cases (lookup user st.points)) [
    | inl missing ↦ rw (missing, book_change) refl
    | inr (b, found) ↦ elim (Option-cases (moved_by delta b)) [
      | inl below ↦ rw (found, below, book_change) refl
      | inr (c, goes) ↦
          rw (found, goes)
            (book-account true row_goes reads b c found (moved_by-sum delta b c goes))
    ]
  ]
