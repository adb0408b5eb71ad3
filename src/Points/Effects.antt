-- ===== src/Points/Effects.antt =====
-- What a transfer and a payment do to the balances and to the ledger, on every branch.
use loon_site.Prelude.{
  ℕ, zero, suc, ◌+◌, ◌-◌, ◌≡◌, ◌⊎◌, refl, Bool, true, false, ◌&&◌, Option, none, some, List, [],
  ◌∷◌, ◌++◌, ltb, leb, ◌==◌, nat_eq, if◌then◌else◌, lookup, insert, arith, Bool-cases, Option-cases,
  inl, inr,
}
use loon_site.Prelude.Int.{ℤ, pos, negsuc, positive?}
use loon_site.Prelude.Bytes.{Bytes}
use loon_site.Points.{
  PointStore, LedgerRow, Statement, begin, debit, credit, gift_row, sender_row, receiver_row,
  commit, GiftResult, negated, gift_max, record_gift, credit_gift, debit_gift, send_gift,
  transfer_amount, transfer_points, credit_seeder, credit_seed_points, sent, gift_self,
  gift_too_small, gift_too_large, could_not_send, not_enough_points, no_member,
}

-- What a member gained and lost by the ledger.
abbrev pub gain : ℤ → ℕ
gain (pos n) = n
gain (negsuc n) = 0

abbrev pub loss : ℤ → ℕ
loss (pos n) = 0
loss (negsuc n) = suc n

unfoldable pub gained : ℕ → List LedgerRow → ℕ
gained user [] = 0
gained user (r ∷ rows) = (if r.user_id == user then gain r.amount else 0) + gained user rows

unfoldable pub lost : ℕ → List LedgerRow → ℕ
lost user [] = 0
lost user (r ∷ rows) = (if r.user_id == user then loss r.amount else 0) + lost user rows

pub gained-append :
    (user : ℕ) (a b : List LedgerRow) → gained user (a ++ b) ≡ gained user a + gained user b
unfolding gained
gained-append user [] b = omega arith
gained-append user (r ∷ a) b = omega (arith, gained-append user a b)

pub lost-append : (user : ℕ) (a b : List LedgerRow) → lost user (a ++ b) ≡ lost user a + lost user b
unfolding lost
lost-append user [] b = omega arith
lost-append user (r ∷ a) b = omega (arith, lost-append user a b)

pub gain-negated : (n : ℕ) → gain (negated n) ≡ 0
gain-negated zero = refl
gain-negated (suc n) = refl

pub loss-negated : (n : ℕ) → loss (negated n) ≡ n
loss-negated zero = refl
loss-negated (suc n) = refl

abbrev pub or_nothing : Option ℕ → ℕ
or_nothing none = 0
or_nothing (some n) = n

-- A member's points.
abbrev pub points_of : ℕ → PointStore → ℕ
points_of user st = or_nothing (lookup user st.points)

-- The balance is what the ledger adds up to, from the balance and the ledger before.
abbrev pub IsBooked : ℕ → PointStore → PointStore → Type 0
IsBooked user before after =
    points_of user after + gained user before.ledger + lost user after.ledger
    ≡ points_of user before + gained user after.ledger + lost user before.ledger

-- What a call does to balances and ledger: nothing, or a transfer, or a payment.
pub record IsSame (before after : PointStore) : Type 0 where
  pub same_points : after.points ≡ before.points
  pub same_gifts : after.gifts ≡ before.gifts
  pub same_ledger : after.ledger ≡ before.ledger

pub record IsMoved (from to : ℕ) (before after : PointStore) : Type 0 where
  pub amount : ℕ
  pub left : ℕ
  pub had : ℕ
  pub out : LedgerRow
  pub back : LedgerRow
  pub held : lookup from before.points ≡ some (left + amount)
  pub other : lookup to (insert from left before.points) ≡ some had
  pub moved : after.points ≡ insert to (had + amount) (insert from left before.points)
  pub booked : after.ledger ≡ before.ledger ++ out ∷ back ∷ []
  pub out_user : out.user_id ≡ from
  pub back_user : back.user_id ≡ to
  pub out_amount : out.amount ≡ negated amount
  pub back_amount : back.amount ≡ pos amount

pub record IsPaid (user : ℕ) (before after : PointStore) : Type 0 where
  pub amount : ℕ
  pub had : ℕ
  pub row : LedgerRow
  pub held : lookup user before.points ≡ some had
  pub paid : after.points ≡ insert user (had + amount) before.points
  pub booked : after.ledger ≡ before.ledger ++ row ∷ []
  pub row_user : row.user_id ≡ user
  pub row_amount : row.amount ≡ pos amount

abbrev pub is_sent : GiftResult → Bool
is_sent sent = true
is_sent gift_self = false
is_sent gift_too_small = false
is_sent gift_too_large = false
is_sent could_not_send = false
is_sent not_enough_points = false
is_sent no_member = false

-- What a transfer comes to.
abbrev pub Effect : ℕ → ℕ → PointStore → PointStore × GiftResult → Type 0
Effect from to st r =
    (IsSame st r.0 × (is_sent r.1 ≡ false)) ⊎ (IsMoved from to st r.0 × (is_sent r.1 ≡ true))

-- A call that fails moves on the sequence at most.
next_gift-IsSame : (st : PointStore) (n : ℕ) → IsSame st (record st { next_gift = n })
next_gift-IsSame st n = record { same_points = refl; same_gifts = refl; same_ledger = refl }

-- The errors that change nothing at all.
unchanged :
    (from to : ℕ) (st : PointStore) (result : GiftResult)
    → is_sent result ≡ false
    → Effect from to st (st, result)
unchanged from to st result failed = inl (next_gift-IsSame st st.next_gift, failed)

module _ (goes : Statement → Bool) (username : ℕ → Bytes) (from to amount : ℕ) (note : Bytes) where
  record_gift-Effect :
      (left had : ℕ) (st : PointStore)
      → lookup from st.points ≡ some (left + amount)
      → lookup to (insert from left st.points) ≡ some had
      → Effect from to st (
          record_gift goes username from to amount note left
            (had + amount)
            (insert to (had + amount) (insert from left st.points))
            st)
  unfolding record_gift
  record_gift-Effect left had st held other =
      elim (Bool-cases (goes gift_row && (goes sender_row && (goes receiver_row && goes commit)))) [
        | inr fails ↦ rw fails (inl (next_gift-IsSame st (st.next_gift + 1), refl))
        | inl works ↦ rw works (
            inr (
              record {
                amount = amount;
                left = left;
                had = had;
                out = _;
                back = _;
                held = held;
                other = other;
                moved = refl;
                booked = refl;
                out_user = refl;
                back_user = refl;
                out_amount = refl;
                back_amount = refl;
              },
              refl,
            ))
      ]

  credit_gift-Effect :
      (left : ℕ) (o : Option ℕ) (st : PointStore)
      → lookup from st.points ≡ some (left + amount)
      → lookup to (insert from left st.points) ≡ o
      → Effect from to st
          (credit_gift goes username from to amount note left (insert from left st.points) o st)
  unfolding credit_gift
  credit_gift-Effect left none st held other = unchanged from to st no_member refl
  credit_gift-Effect left (some had) st held other = elim (Bool-cases (goes credit)) [
    | inr fails ↦ rw fails (unchanged from to st no_member refl)
    | inl works ↦ rw works (record_gift-Effect left had st held other)
  ]

  debit_gift-Effect :
      (o : Option ℕ) (st : PointStore)
      → lookup from st.points ≡ o
      → Effect from to st (debit_gift goes username from to amount note o st)
  unfolding debit_gift
  debit_gift-Effect none st held = unchanged from to st not_enough_points refl
  debit_gift-Effect (some b) st held = elim (Bool-cases (leb amount b)) [
    | inr short ↦ rw short (unchanged from to st not_enough_points refl)
    | inl enough ↦
        let parts : (b - amount) + amount ≡ b = ground arith in
        rw enough (credit_gift-Effect (b - amount) _ st (rw parts held) refl)
  ]

  send_gift-Effect :
      (st : PointStore) → Effect from to st (send_gift goes username from to amount note st)
  unfolding send_gift
  send_gift-Effect st = elim (Bool-cases (goes begin && goes debit)) [
    | inr fails ↦ rw fails (unchanged from to st could_not_send refl)
    | inl works ↦ rw works (debit_gift-Effect (lookup from st.points) st refl)
  ]

module _ (goes : Statement → Bool) (username : ℕ → Bytes) (from to : ℕ) (note : Bytes) where
  transfer_amount-Effect :
      (o : Option ℕ) (st : PointStore)
      → Effect from to st (transfer_amount goes username from to o note st)
  unfolding transfer_amount
  transfer_amount-Effect none st = unchanged from to st gift_too_small refl
  transfer_amount-Effect (some amount) st = elim (Bool-cases (ltb gift_max amount)) [
    | inl large ↦ rw large (unchanged from to st gift_too_large refl)
    | inr fits ↦ rw fits (send_gift-Effect goes username from to amount note st)
  ]

  pub transfer-Effect :
      (amount : ℤ) (st : PointStore)
      → Effect from to st (transfer_points goes username from to amount note st)
  unfolding transfer_points
  transfer-Effect amount st = elim (Bool-cases (from == to)) [
    | inl self ↦ rw self (unchanged from to st gift_self refl)
    | inr other ↦ rw other (transfer_amount-Effect (positive? amount) st)
  ]

pub credit_seed-effect :
    (goes : Statement → Bool) (user amount : ℕ) (desc : Bytes) (st : PointStore)
    → IsSame st (credit_seed_points goes user amount desc st).0
      ⊎ IsPaid user st (credit_seed_points goes user amount desc st).0
unfolding credit_seed_points credit_seeder
credit_seed-effect goes user amount desc st = elim (Bool-cases (goes begin)) [
  | inr fails ↦ rw fails (inl (next_gift-IsSame st st.next_gift))
  | inl begun ↦ elim (Option-cases (lookup user st.points)) [
    | inl missing ↦ rw (begun, missing, credit_seeder) (inl (next_gift-IsSame st st.next_gift))
    | inr (b, found) ↦ elim (Bool-cases (goes credit && (goes receiver_row && goes commit))) [
      | inr fails ↦ rw (begun, found, credit_seeder, fails) (inl (next_gift-IsSame st st.next_gift))
      | inl works ↦
          rw (begun, found, credit_seeder, works)
            (inr (record {
              amount = amount;
              had = b;
              row = _;
              held = found;
              paid = refl;
              booked = refl;
              row_user = refl;
              row_amount = refl;
            }))
    ]
  ]
]
