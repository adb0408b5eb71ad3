-- ===== src/Points/Conserved.antt =====
-- No transfer makes or loses a point, and what the ledger says of the balances.
use loon_site.Prelude.{
  ℕ, ◌+◌, ◌≡◌, ◌⊎◌, refl, ap, sym, ◌∙◌, Bool, true, false, some, List, [], ◌∷◌, ◌==◌, nat_eq,
  nat_beq_iff, if◌then◌else◌, lookup, insert, lookup-insert, arith, Bool-cases, inl, inr,
}
use loon_site.Prelude.Int.{ℤ}
use loon_site.Prelude.Bytes.{Bytes}
use loon_site.Prelude.Balances.{Balances, total, total-insert}
use loon_site.Points.{PointStore, Statement, GiftResult, transfer_points, credit_seed_points}
use loon_site.Points.Change.{change, hidden_gain, hidden_loss, change-account}
use loon_site.Points.Effects.{
  gained, lost, gained-append, lost-append, gain-negated, loss-negated, or_nothing, points_of,
  IsBooked, IsSame, IsMoved, IsPaid, is_sent, Effect, transfer-Effect, credit_seed-effect,
}

pub data PointOp : Type 0 where
  transfer_op : (Statement → Bool) → (ℕ → Bytes) → ℕ → ℕ → ℤ → Bytes → PointOp
  payment_op : (Statement → Bool) → ℕ → ℕ → Bytes → PointOp
  change_op : Bool → Bool → Bool → ℕ → ℤ → Bytes → Bytes → ℕ → PointOp

unfoldable pub after_point_op : PointOp → PointStore → PointStore
after_point_op (transfer_op goes username from to amount note) st =
    (transfer_points goes username from to amount note st).0
after_point_op (payment_op goes user amount desc) st =
    (credit_seed_points goes user amount desc st).0
after_point_op (change_op update_goes row_goes reads user delta kind desc ref) st =
    (change update_goes row_goes reads user delta kind desc ref st).0

unfoldable pub after_point_ops : List PointOp → PointStore → PointStore
after_point_ops [] st = st
after_point_ops (op ∷ ops) st = after_point_ops ops (after_point_op op st)

total-IsMoved :
    (from to : ℕ) (before after : PointStore)
    → IsMoved from to before after
    → total after.points ≡ total before.points
total-IsMoved from to before after m =
    let first = total-insert from m.left (m.left + m.amount) before.points m.held in
    let second =
      total-insert to (m.had + m.amount) m.had (insert from m.left before.points) m.other in
    ap total m.moved ∙ omega (arith, first, second)

IsBooked-IsSame :
    (user : ℕ) (before after : PointStore) → IsSame before after → IsBooked user before after
IsBooked-IsSame user before after s = rw (s.same_points, s.same_ledger) refl

-- The numbers of a transfer for one member, who may be the sender, the receiver, both or neither.
moved-numbers :
    (user from to amount left had : ℕ) (points : Balances)
    → lookup from points ≡ some (left + amount)
    → lookup to (insert from left points) ≡ some had
    → or_nothing (lookup user (insert to (had + amount) (insert from left points)))
        + (if from == user then amount else 0)
      ≡ or_nothing (lookup user points) + (if to == user then amount else 0)
moved-numbers user from to amount left had points held other =
    let there : (if from == to then some left else lookup to points) ≡ some had =
      sym (lookup-insert from to left points) ∙ other in
    rw
      (
        lookup-insert to user (had + amount) (insert from left points),
        lookup-insert from user left points,
      )
      (elim (Bool-cases (to == user)) [
        | inl receives ↦
            let e = (nat_beq_iff to user).0 receives in
            elim (Bool-cases (from == user)) [
              | inl sends ↦
                  let e' = (nat_beq_iff from user).0 sends in
                  let held' : lookup user points ≡ some (left + amount) = rw e' at held in
                  let self : (from == to) ≡ true = rw e sends in
                  let same : left ≡ had = (let w = rw self at there in cc) in
                  rw (receives, sends, held') (omega (arith, same))
              | inr gets ↦
                  let apart : (from == to) ≡ false = rw e gets in
                  let before : lookup user points ≡ some had =
                    (let w : lookup to points ≡ some had = (rw apart at there) in rw e at w) in
                  rw (receives, gets, before) (omega arith)
            ]
        | inr away ↦ elim (Bool-cases (from == user)) [
          | inl sends ↦
              let e' = (nat_beq_iff from user).0 sends in
              let held' : lookup user points ≡ some (left + amount) = rw e' at held in
              rw (away, sends, held') (omega arith)
          | inr neither ↦ rw (away, neither) (omega arith)
        ]
      ])

IsBooked-IsMoved :
    (user from to : ℕ) (before after : PointStore)
    → IsMoved from to before after
    → IsBooked user before after
unfolding gained lost
IsBooked-IsMoved user from to before after m =
    let rows = m.out ∷ m.back ∷ [] in
    let numbers = moved-numbers user from to m.amount m.left m.had before.points m.held m.other in
    rw
      (
        m.moved,
        m.booked,
        gained-append user before.ledger rows,
        lost-append user before.ledger rows,
        m.out_user,
        m.back_user,
        m.out_amount,
        m.back_amount,
        gain-negated m.amount,
        loss-negated m.amount,
      )
      (ground (arith, numbers))

IsBooked-IsPaid :
    (user who : ℕ) (before after : PointStore)
    → IsPaid who before after
    → IsBooked user before after
unfolding gained lost
IsBooked-IsPaid user who before after p =
    rw
      (
        p.paid,
        p.booked,
        gained-append user before.ledger (p.row ∷ []),
        lost-append user before.ledger (p.row ∷ []),
        p.row_user,
        p.row_amount,
        lookup-insert who user (p.had + p.amount) before.points,
      )
      (elim (Bool-cases (who == user)) [
        | inl gets ↦
            let e = (nat_beq_iff who user).0 gets in
            let held' : lookup user before.points ≡ some p.had = rw e at p.held in
            rw (gets, held') (omega arith)
        | inr away ↦ rw away (omega arith)
      ])

IsBooked-Effect :
    (user from to : ℕ) (st : PointStore) (r : PointStore × GiftResult)
    → Effect from to st r
    → IsBooked user st r.0
IsBooked-Effect user from to st r (inl (same, failed)) = IsBooked-IsSame user st r.0 same
IsBooked-Effect user from to st r (inr (m, went)) = IsBooked-IsMoved user from to st r.0 m

-- What a member gained and lost by changes whose row of the ledger could not be written.
abbrev pub op_hidden_gain : ℕ → PointOp → PointStore → ℕ
op_hidden_gain who (transfer_op goes username from to amount note) st = 0
op_hidden_gain who (payment_op goes user amount desc) st = 0
op_hidden_gain who (change_op update_goes row_goes reads user delta kind desc ref) st =
    hidden_gain who user delta (change update_goes row_goes reads user delta kind desc ref st).1

abbrev pub op_hidden_loss : ℕ → PointOp → PointStore → ℕ
op_hidden_loss who (transfer_op goes username from to amount note) st = 0
op_hidden_loss who (payment_op goes user amount desc) st = 0
op_hidden_loss who (change_op update_goes row_goes reads user delta kind desc ref) st =
    hidden_loss who user delta (change update_goes row_goes reads user delta kind desc ref st).1

unfoldable pub hidden_gains : ℕ → List PointOp → PointStore → ℕ
hidden_gains who [] st = 0
hidden_gains who (op ∷ ops) st =
    op_hidden_gain who op st + hidden_gains who ops (after_point_op op st)

unfoldable pub hidden_losses : ℕ → List PointOp → PointStore → ℕ
hidden_losses who [] st = 0
hidden_losses who (op ∷ ops) st =
    op_hidden_loss who op st + hidden_losses who ops (after_point_op op st)

-- A balance is what the ledger adds up to, with the changes that have no row.
abbrev pub Accounts : ℕ → PointStore → PointStore → ℕ → ℕ → Type 0
Accounts who before after gains losses =
    points_of who after + gained who before.ledger + lost who after.ledger + losses
    ≡ points_of who before + gained who after.ledger + lost who before.ledger + gains

booked-Accounts :
    (who : ℕ) (before after : PointStore)
    → IsBooked who before after
    → Accounts who before after 0 0
booked-Accounts who before after h = omega (arith, h)

op-Accounts :
    (op : PointOp) (who : ℕ) (st : PointStore)
    → Accounts who st (after_point_op op st) (op_hidden_gain who op st) (op_hidden_loss who op st)
unfolding after_point_op
op-Accounts (transfer_op goes username from to amount note) who st =
    booked-Accounts who st (transfer_points goes username from to amount note st).0
      (IsBooked-Effect who from to st _ (transfer-Effect goes username from to note amount st))
op-Accounts (payment_op goes user amount desc) who st =
    booked-Accounts who st (credit_seed_points goes user amount desc st).0
      (elim (credit_seed-effect goes user amount desc st) [
        | inl same ↦ IsBooked-IsSame who st _ same
        | inr paid ↦ IsBooked-IsPaid who user st _ paid
      ])
op-Accounts (change_op update_goes row_goes reads user delta kind desc ref) who st =
    change-account who user delta kind desc ref st update_goes row_goes reads

-- The ledger accounts for every balance: after any transfers, payments and changes that plugins ask
-- for, those that fail at any statement too, a member's points are those from before with what the
-- ledger has gained and without what it has lost for the member since, but for the changes whose
-- update went through and whose row could not be written: these move points without a row.
pub points-Accounts :
    (ops : List PointOp) (who : ℕ) (st : PointStore)
    → Accounts who st (after_point_ops ops st) (hidden_gains who ops st) (hidden_losses who ops st)
unfolding after_point_ops hidden_gains hidden_losses
points-Accounts [] who st = refl
points-Accounts (op ∷ ops) who st =
    let first = op-Accounts op who st in
    let later = points-Accounts ops who (after_point_op op st) in omega (arith, first, later)

total-Effect :
    (from to : ℕ) (st : PointStore) (r : PointStore × GiftResult)
    → Effect from to st r
    → total r.0.points ≡ total st.points
total-Effect from to st r (inl (same, failed)) = ap total same.same_points
total-Effect from to st r (inr (m, went)) = total-IsMoved from to st r.0 m

-- A transfer makes and loses no point: whatever is asked for and whichever statement fails, all
-- members' points together are as many as before. One that is not reported as sent leaves every
-- balance, the gifts and the ledger as they were.
pub transfer_conserves :
    (goes : Statement → Bool) (username : ℕ → Bytes) (from to : ℕ) (amount : ℤ) (note : Bytes)
    (st : PointStore)
    → let r = transfer_points goes username from to amount note st in
      (total r.0.points ≡ total st.points)
      × ((is_sent r.1 ≡ true)
          ⊎ ((r.0.points ≡ st.points) × (r.0.gifts ≡ st.gifts) × (r.0.ledger ≡ st.ledger)))
transfer_conserves goes username from to amount note st =
    let effect = transfer-Effect goes username from to note amount st in
    (
      total-Effect from to st _ effect,
      elim effect [
        | inl (same, failed) ↦ inr (same.same_points, same.same_gifts, same.same_ledger)
        | inr (m, went) ↦ inl went
      ],
    )
