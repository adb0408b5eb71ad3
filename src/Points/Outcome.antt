-- ===== src/Points/Outcome.antt =====
-- When a transfer is sent.
use loon_site.Prelude.{
  ℕ, ◌-◌, ◌≡◌, ◌≢◌, refl, ◌∙◌, Bool, true, false, ◌&&◌, not, Option, none, some, leb, ltb, ◌==◌,
  nat_eq, nat_beq_iff, beq_ne, lookup, insert, lookup-insert, arith, Bool-cases, Option-cases, inl,
  inr,
}
use loon_site.Prelude.Int.{ℤ, positive?}
use loon_site.Prelude.Bytes.{Bytes}
use loon_site.Prelude.Balances.{Balances}
use loon_site.Points.{
  PointStore, Statement, transfer_points, transfer_amount, send_gift, debit_gift, credit_gift,
  record_gift, gift_max, begin, debit, credit, gift_row, sender_row, receiver_row, commit,
}
use loon_site.Points.Effects.{is_sent}

abbrev pub is_some : Option ℕ → Bool
is_some none = false
is_some (some n) = true

-- The balance is enough.
abbrev pub covers : ℕ → Option ℕ → Bool
covers amount none = false
covers amount (some b) = leb amount b

-- What the code asks of the amount, given as a number above 0 when it is one, and of the balances.
abbrev pub is_covered : ℕ → ℕ → Option ℕ → PointStore → Bool
is_covered from to none st = false
is_covered from to (some amount) st =
    leb amount gift_max && (covers amount (lookup from st.points) && is_some (lookup to st.points))

module _ (goes : Statement → Bool) (all_go : (s : Statement) → goes s ≡ true)
    (username : ℕ → Bytes) where
  credit-sent :
      (from to amount left : ℕ) (note : Bytes) (points : Balances) (o : Option ℕ) (st : PointStore)
      → is_sent (credit_gift goes username from to amount note left points o st).1 ≡ is_some o
  unfolding credit_gift record_gift
  credit-sent from to amount left note points none st = refl
  credit-sent from to amount left note points (some b) st =
      rw
        (
          all_go credit,
          all_go gift_row,
          all_go sender_row,
          all_go receiver_row,
          all_go commit,
          record_gift,
        )
        refl

  debit-sent :
      (from to amount : ℕ) (note : Bytes) (st : PointStore)
      → from ≢ to
      → is_sent (debit_gift goes username from to amount note (lookup from st.points) st).1
        ≡ (covers amount (lookup from st.points) && is_some (lookup to st.points))
  unfolding debit_gift
  debit-sent from to amount note st differ = elim (Option-cases (lookup from st.points)) [
    | inl missing ↦ rw (missing, debit_gift) refl
    | inr (b, found) ↦ elim (Bool-cases (leb amount b)) [
      | inl enough ↦
          rw (found, debit_gift, enough)
            (credit-sent from to amount (b - amount) note (insert from (b - amount) st.points) _ st
              ∙ rw (lookup-insert from to (b - amount) st.points, beq_ne from to differ) refl)
      | inr short ↦ rw (found, debit_gift, short) refl
    ]
  ]

  amount-sent :
      (from to : ℕ) (o : Option ℕ) (note : Bytes) (st : PointStore)
      → from ≢ to
      → is_sent (transfer_amount goes username from to o note st).1 ≡ is_covered from to o st
  unfolding transfer_amount send_gift
  amount-sent from to none note st differ = refl
  amount-sent from to (some amount) note st differ = elim (Bool-cases (ltb gift_max amount)) [
    | inl large ↦ let over : leb amount gift_max ≡ false = ground arith in rw (large, over) refl
    | inr fits ↦
        let within : leb amount gift_max ≡ true = ground arith in
        rw (fits, within, all_go begin, all_go debit) (debit-sent from to amount note st differ)
  ]

  -- When the database does its part, a transfer is sent exactly when it is to another member, of
  -- at least 1 and at most 100000 points, the sender has that many and the receiver exists.
  pub transfer_sent :
      (from to : ℕ) (amount : ℤ) (note : Bytes) (st : PointStore)
      → is_sent (transfer_points goes username from to amount note st).1
        ≡ (not (from == to) && is_covered from to (positive? amount) st)
  unfolding transfer_points
  transfer_sent from to amount note st = elim (Bool-cases (from == to)) [
    | inl self ↦ rw self refl
    | inr other ↦ rw other (
        amount-sent from to (positive? amount) note st
          (λ same. let e = (nat_beq_iff from to).1 same in cc))
  ]
