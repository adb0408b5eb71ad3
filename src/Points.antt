-- ===== src/Points.antt =====
-- internal/storage/gifts.go and internal/storage/seedpoints.go: points that members send one
-- another, and points paid for seeding. users.points is a table of numbers, which the guard of
-- each debit keeps from going below zero; point_gifts and points_ledger are lists of rows. Each
-- call is one transaction: a statement that fails, as `goes` says, rolls it back, but the sequence
-- of the gifts' ids stays moved on. Names of members are a parameter. Texts are lists of code
-- points. The time of a row is left out.
pub mod Effects
pub mod Change
pub mod Conserved
pub mod Outcome
mod Tests
use loon_site.Prelude.{
  ℕ, zero, suc, ◌+◌, ◌-◌, Bool, true, false, ◌&&◌, Option, none, some, List, [], ◌∷◌, ◌++◌, ltb,
  leb, ◌==◌, nat_eq, if◌then◌else◌, lookup, insert, length,
}
use loon_site.Prelude.Int.{ℤ, pos, negsuc, positive?}
use loon_site.Prelude.Bytes.{Bytes, codes}
use loon_site.Prelude.Balances.{Balances}

-- `GiftMax` and `GiftNoteMax`; `GiftMin` is 1.
abbrev pub gift_max : ℕ
gift_max = 100000

abbrev pub gift_note_max : ℕ
gift_note_max = 200

pub record Gift : Type 0 where
  pub id : ℕ
  pub from_user : ℕ
  pub to_user : ℕ
  pub amount : ℕ
  pub note : Bytes

pub data LedgerKind : Type 0 where
  gift_kind seeding_kind : LedgerKind
  other_kind : Bytes → LedgerKind

pub record LedgerRow : Type 0 where
  pub user_id : ℕ
  pub amount : ℤ
  pub balance : ℕ
  pub kind : LedgerKind
  pub description : Bytes
  pub reference_id : Option ℕ

pub record PointStore : Type 0 where
  pub points : Balances
  pub gifts : List Gift
  pub ledger : List LedgerRow
  pub next_gift : ℕ

-- What a transfer comes to: sent, or one of the errors.
pub data GiftResult : Type 0 where
  sent gift_self gift_too_small gift_too_large could_not_send not_enough_points no_member :
      GiftResult

-- The statements of a transaction, each of which the database may refuse.
pub data Statement : Type 0 where
  begin debit credit gift_row sender_row receiver_row commit : Statement

-- `-amount`
abbrev pub negated : ℕ → ℤ
negated zero = pos 0
negated (suc n) = negsuc n

-- The first characters of a text.
abbrev pub first_chars : ℕ → Bytes → Bytes
first_chars zero s = []
first_chars (suc n) [] = []
first_chars (suc n) (c ∷ s) = c ∷ first_chars n s

unfoldable pub cut_note : Bytes → Bytes
cut_note note = if ltb gift_note_max (length note) then first_chars gift_note_max note else note

module _ (goes : Statement → Bool) where
  -- The rows that record a transfer, and the commit.
  unfoldable pub record_gift :
      (ℕ → Bytes) → ℕ → ℕ → ℕ → Bytes → ℕ → ℕ → Balances → PointStore → PointStore × GiftResult
  record_gift username from to amount note from_balance to_balance points st =
      let out : LedgerRow = record {
        user_id = from;
        amount = negated amount;
        balance = from_balance;
        kind = gift_kind;
        description = codes "Gift to " ++ username to;
        reference_id = some st.next_gift;
      } in
      let back : LedgerRow = record {
        user_id = to;
        amount = pos amount;
        balance = to_balance;
        kind = gift_kind;
        description = codes "Gift from " ++ username from;
        reference_id = some st.next_gift;
      } in
      let gift : Gift = record {
        id = st.next_gift;
        from_user = from;
        to_user = to;
        amount = amount;
        note = cut_note note;
      } in
      if goes gift_row && (goes sender_row && (goes receiver_row && goes commit))
      then (
        record {
          points = points;
          gifts = st.gifts ++ gift ∷ [];
          ledger = st.ledger ++ out ∷ back ∷ [];
          next_gift = st.next_gift + 1;
        },
        sent,
      )
      else (record st { next_gift = st.next_gift + 1 }, could_not_send)

  -- `UPDATE users SET points = points + $2 WHERE id = $1`
  unfoldable pub credit_gift :
      (ℕ → Bytes)
      → ℕ
      → ℕ
      → ℕ
      → Bytes
      → ℕ
      → Balances
      → Option ℕ
      → PointStore
      → PointStore × GiftResult
  unfolding record_gift
  credit_gift username from to amount note left points none st = (st, no_member)
  credit_gift username from to amount note left points (some b) st =
      if goes credit
      then record_gift username from to amount note left (b + amount)
          (insert to (b + amount) points) st
      else (st, no_member)

  -- `UPDATE users SET points = points - $2 WHERE id = $1 AND points - $2 >= 0`
  unfoldable pub debit_gift :
      (ℕ → Bytes) → ℕ → ℕ → ℕ → Bytes → Option ℕ → PointStore → PointStore × GiftResult
  unfolding credit_gift
  debit_gift username from to amount note none st = (st, not_enough_points)
  debit_gift username from to amount note (some b) st =
      if leb amount b
      then (let points = insert from (b - amount) st.points in
          credit_gift username from to amount note (b - amount) points (lookup to points) st)
      else (st, not_enough_points)

  -- The transaction of an amount that is allowed.
  unfoldable pub send_gift : (ℕ → Bytes) → ℕ → ℕ → ℕ → Bytes → PointStore → PointStore × GiftResult
  unfolding debit_gift
  send_gift username from to amount note st =
      if goes begin && goes debit
      then debit_gift username from to amount note (lookup from st.points) st
      else (st, could_not_send)

  unfoldable pub transfer_amount :
      (ℕ → Bytes) → ℕ → ℕ → Option ℕ → Bytes → PointStore → PointStore × GiftResult
  unfolding send_gift
  transfer_amount username from to none note st = (st, gift_too_small)
  transfer_amount username from to (some amount) note st =
      if ltb gift_max amount
      then (st, gift_too_large)
      else send_gift username from to amount note st

  -- `TransferPoints`
  unfoldable pub transfer_points :
      (ℕ → Bytes) → ℕ → ℕ → ℤ → Bytes → PointStore → PointStore × GiftResult
  unfolding transfer_amount
  transfer_points username from to amount note st =
      if from == to
      then (st, gift_self)
      else transfer_amount username from to (positive? amount) note st

  unfoldable pub credit_seeder : ℕ → ℕ → Bytes → Option ℕ → PointStore → PointStore × Bool
  credit_seeder user amount desc none st = (st, false)
  credit_seeder user amount desc (some b) st =
      let row : LedgerRow = record {
        user_id = user;
        amount = pos amount;
        balance = b + amount;
        kind = seeding_kind;
        description = desc;
        reference_id = none;
      } in
      if goes credit && (goes receiver_row && goes commit)
      then (
        record st { points = insert user (b + amount) st.points; ledger = st.ledger ++ row ∷ [] },
        true,
      )
      else (st, false)

  -- `CreditSeedPoints`, and whether it went through.
  unfoldable pub credit_seed_points : ℕ → ℕ → Bytes → PointStore → PointStore × Bool
  unfolding credit_seeder
  credit_seed_points user amount desc st =
      if goes begin then credit_seeder user amount desc (lookup user st.points) st else (st, false)

-- `SetSeedPointsCarry`, of a fraction in whatever numbers.
unfoldable pub set_seed_points_carry : {F : Type 0} → ℕ → F → List (ℕ × F) → List (ℕ × F)
set_seed_points_carry user fraction carry = insert user fraction carry

-- `SeedPointsCarry`, asked for one member.
unfoldable pub seed_points_carry : {F : Type 0} → ℕ → List (ℕ × F) → Option F
seed_points_carry user carry = lookup user carry
