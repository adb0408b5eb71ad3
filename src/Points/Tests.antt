-- ===== src/Points/Tests.antt =====
-- Tests of the model of points, and its theorems at concrete inputs.
use loon_site.Prelude.{
  ℕ, ◌+◌, ◌≡◌, ◌⊎◌, refl, Bool, true, false, not, ◌&&◌, none, some, List, [], ◌∷◌, ◌==◌, nat_eq,
}
use loon_site.Prelude.Int.{pos, negsuc, positive?}
use loon_site.Prelude.Bytes.{Bytes, codes}
use loon_site.Prelude.Balances.{total}
use loon_site.Points.{
  PointStore, Statement, begin, commit, transfer_points, seed_points_carry, set_seed_points_carry,
  sent, gift_self, could_not_send, gift_too_small,
}
use loon_site.Points.Effects.{is_sent}
use loon_site.Points.Conserved.{
  PointOp, transfer_op, payment_op, change_op, after_point_ops, Accounts, hidden_gains,
  hidden_losses, points-Accounts, transfer_conserves,
}
use loon_site.Points.Outcome.{is_covered, transfer_sent}

abbrev all_well : Statement → Bool
all_well s = true

-- A database that loses the connection at the commit.
abbrev cut_off : Statement → Bool
cut_off commit = false
cut_off _ = true

abbrev names : ℕ → Bytes
names user = codes "member"

abbrev two_members : PointStore
two_members = record { points = (7, 50) ∷ (8, 5) ∷ []; gifts = []; ledger = []; next_gift = 1 }

abbrev day : List PointOp
day =
    transfer_op all_well names 7 8 (pos 30) (codes "thanks")
    ∷ transfer_op cut_off names 8 7 (pos 1) []
    ∷ payment_op all_well 8 4 (codes "Seeding")
    ∷ transfer_op all_well names 8 7 (pos 39) []
    ∷ change_op true false true 8 (pos 6) (codes "bonus") [] 0
    ∷ change_op true true true 8 (negsuc 1) (codes "store") [] 0
    ∷ change_op true true true 8 (negsuc 99) (codes "store") [] 0
    ∷ []

points-Accounts_example :
    Accounts 8 two_members
      (after_point_ops day two_members)
      (hidden_gains 8 day two_members)
      (hidden_losses 8 day two_members)
points-Accounts_example = points-Accounts day 8 two_members

transfer_conserves_example :
    let r = transfer_points cut_off names 7 8 (pos 30) [] two_members in
    (total r.0.points ≡ total two_members.points)
    × ((is_sent r.1 ≡ true)
        ⊎ ((r.0.points ≡ two_members.points)
            × (r.0.gifts ≡ two_members.gifts)
            × (r.0.ledger ≡ two_members.ledger)))
transfer_conserves_example = transfer_conserves cut_off names 7 8 (pos 30) [] two_members

transfer_sent_example :
    is_sent (transfer_points all_well names 7 8 (pos 30) [] two_members).1
    ≡ (not (◌==◌ {A = ℕ} 7 8) && is_covered 7 8 (positive? (pos 30)) two_members)
transfer_sent_example = transfer_sent all_well (λ s. refl) names 7 8 (pos 30) [] two_members

balances_after : (after_point_ops day two_members).points ≡ (7, 59) ∷ (8, 4) ∷ []
unfolding after_point_ops loon_site.Points.Conserved.after_point_op transfer_points
    loon_site.Prelude.lookup loon_site.Points.credit_seed_points loon_site.Prelude.insert
    loon_site.Points.Change.change
balances_after = refl

without_a_row : hidden_gains 8 day two_members ≡ 6
unfolding hidden_gains loon_site.Points.Change.change loon_site.Prelude.lookup
    loon_site.Points.Conserved.after_point_op transfer_points loon_site.Points.credit_seed_points
    loon_site.Prelude.insert
without_a_row = refl

to_oneself : (transfer_points all_well names 7 7 (pos 30) [] two_members).1 ≡ gift_self
unfolding transfer_points
to_oneself = refl

a_negative_gift : (transfer_points all_well names 8 7 (negsuc 30) [] two_members).1 ≡ gift_too_small
unfolding transfer_points
a_negative_gift = refl

at_the_commit : (transfer_points cut_off names 7 8 (pos 30) [] two_members).1 ≡ could_not_send
unfolding transfer_points loon_site.Prelude.lookup loon_site.Prelude.insert
at_the_commit = refl

carried : seed_points_carry {F = ℕ} 7 (set_seed_points_carry 7 3 ((7, 9) ∷ [])) ≡ some 3
unfolding seed_points_carry loon_site.Prelude.lookup set_seed_points_carry loon_site.Prelude.insert
carried = refl
