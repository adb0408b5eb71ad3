-- ===== src/Invites/Tests.antt =====
-- Tests of the model of invites, and its theorems at concrete inputs.
use loon_site.Prelude.{
  ◌≤◌, ◌⊎◌, length, ℕ, ◌+◌, ◌-◌, ◌<◌, ◌≡◌, ◌≢◌, ◌↔◌, refl, Bool, true, false, Option, none, some,
  List, [], ◌∷◌, ◌&&◌, map, keep, ltb, leb, ◌==◌, nat_eq, if◌then◌else◌, arith, lookup, count_if,
}
use loon_site.Prelude.Int.{pos}
use loon_site.Prelude.Bytes.{Bytes, codes}
use loon_site.Prelude.Members.{In}
use loon_site.Prelude.Rows.{
  update_where, first_where, All-update_where, keep-update_where, update_where-none,
}
use loon_site.Invites.{
  InviteCode, Codes, InviteStore, Alphabet, redeem_invite_code, revoke_invite_code,
  invite_code_valid, is_code, soft_delete_invite_code, normalise_invite_code, lookup_invite_code,
  revoked, issued, mint_invite_code, listed, is_pending, invite_email_pending, pending_invite_count,
}
use loon_site.Invites.Calls.{
  InviteOp, mint_op, redeem_op, revoke_op, hide_op, sent_op, refund_op, store_op, after_invite_ops,
}
use loon_site.Invites.Once.{rows_after, redeem_once}
use loon_site.Invites.Valid.{valid-redeem}
use loon_site.Invites.Budget.{balance, ops_spent, ops_credited, invites_conserved}
use loon_site.Invites.Chain.{
  InviteTree, invite_tree, invite_tree_depth, invite_upline, invited, edges_of, recruit_counts,
  top_recruiters, ranking_limit, count_distinct,
}
use loon_site.Invites.Chain.Ranking.{top_recruiters-counts}
use loon_site.Invites.Chain.Laws.{IsBelow, invite_tree_ends, upline-tree}

abbrev ascii : Alphabet
ascii = record {
  is_space = λ c. c == 32;
  to_upper = λ c. if leb 97 c && leb c 122 then c - 32 else c;
  to_lower = λ c. if leb 65 c && leb c 90 then c + 32 else c;
  sql_upper = λ c. if leb 97 c && leb c 122 then c - 32 else c;
}

abbrev code_row : Bytes → ℕ → Option ℕ → InviteCode
code_row code creator user = record {
  code = code;
  created_by = creator;
  expires_at = 1000;
  email = [];
  message = [];
  used_by = user;
  used_at = user;
  revoked_by = none;
  sent = false;
  is_deleted = false;
}

abbrev two_codes : InviteStore
two_codes = record {
  rows = code_row (codes "AB-12") 7 none ∷ code_row (codes "CD-34") 8 none ∷ [];
  invites = (7, 2) ∷ (8, 0) ∷ [];
}

abbrev typed : Bytes
typed = codes " ab12"

abbrev later_calls : List InviteOp
later_calls =
    revoke_op (codes "cd34") 8 false
    ∷ mint_op 20 7 (codes "EF-56") 500 [] []
    ∷ redeem_op 30 (codes "ef-56") 9
    ∷ sent_op (codes "EF56")
    ∷ hide_op (codes "AB12") 7
    ∷ refund_op 7
    ∷ store_op 7 (pos 3)
    ∷ []

redeem_once_example :
    let rows =
      rows_after ascii typed later_calls
        (redeem_invite_code ascii 10 typed 9 two_codes.rows).0
        two_codes in
    redeem_invite_code ascii 40 typed 10 rows ≡ (rows, false)
unfolding loon_site.Invites.is_code loon_site.Invites.sql_key normalise_invite_code
    loon_site.Prelude.Text.trim_space redeem_invite_code loon_site.Invites.update_one
    loon_site.Invites.is_open
redeem_once_example =
    redeem_once ascii typed 10 40 9 10 later_calls two_codes (omega arith)
      (tt, (refl, (tt, (tt, (tt, (tt, (tt, tt))))))) refl

not_zero : ◌≢◌ {A = ℕ} 9 0
not_zero same = omega arith

one_row : count_if (is_code ascii typed) two_codes.rows ≡ 1
unfolding is_code loon_site.Invites.sql_key normalise_invite_code loon_site.Prelude.Text.trim_space
one_row = refl

valid-redeem_example :
    invite_code_valid ascii 10 typed two_codes.rows
    ≡ (redeem_invite_code ascii 10 typed 9 two_codes.rows).1
valid-redeem_example =
    valid-redeem ascii 10 typed 9 two_codes.rows (omega (arith, one_row)) not_zero

seven : ◌≢◌ {A = ℕ} 7 0
seven same = omega arith

invites_conserved_example :
    balance 7 (after_invite_ops ascii later_calls two_codes)
      + ops_spent ascii 7 later_calls two_codes
    ≡ balance 7 two_codes + ops_credited ascii 7 later_calls
unfolding lookup
invites_conserved_example = invites_conserved ascii 7 later_calls two_codes seven refl

-- 7 invited 8, 8 invited 9, and 9 invited 7 again.
abbrev circle : Codes
circle =
    code_row (codes "A") 7 (some 8)
    ∷ code_row (codes "B") 8 (some 9)
    ∷ code_row (codes "C") 9 (some 7)
    ∷ []

abbrev everybody : ℕ → Bool
everybody m = true

invite_tree_ends_example :
    (tree : InviteTree) × (invite_tree invite_tree_depth everybody 7 circle ≡ some tree)
    × ((m d n : ℕ) → In (m, (d, n)) tree ↔ IsBelow everybody circle (edges_of circle) 7 (m, (d, n)))
invite_tree_ends_example = invite_tree_ends everybody circle 7 seven

upline-tree_example :
    (tree : InviteTree) × (up : InviteTree) × (invite_tree invite_tree_depth everybody 7 circle
      ≡ some tree)
    × (invite_upline invite_tree_depth everybody 9 circle ≡ some up)
    × (In (9, (2, invited 9 circle)) tree ↔ In (7, (2, invited 7 circle)) up)
upline-tree_example = upline-tree everybody circle 7 9 2 seven not_zero refl refl

circle_counts : recruit_counts invite_tree_depth 7 circle ≡ some (1, 3)
unfolding recruit_counts loon_site.Invites.Chain.counted loon_site.Invites.Chain.query
    loon_site.Invites.Chain.rows_from edges_of loon_site.Invites.Chain.next_round count_distinct
circle_counts = refl

revoked_is_told :
    (lookup_invite_code ascii 40 typed
      (revoke_invite_code ascii typed 7 false two_codes.rows).0).reason
    ≡ revoked
unfolding lookup_invite_code loon_site.Prelude.Rows.first_where revoke_invite_code
    loon_site.Invites.update_one loon_site.Invites.is_code loon_site.Invites.sql_key
    normalise_invite_code loon_site.Prelude.Text.trim_space loon_site.Invites.reason_of
revoked_is_told = refl

pending_of_seven : pending_invite_count 10 7 two_codes.rows ≡ 1
unfolding pending_invite_count loon_site.Invites.is_open
pending_of_seven = refl

mint_takes_one : (mint_invite_code ascii 10 7 (codes "XY") 5 [] [] two_codes).1 ≡ issued
unfolding mint_invite_code lookup
mint_takes_one = refl

abbrev by_id : ℕ → ℕ → Bool
by_id a b = ltb a b

circle_ranking :
    top_recruiters invite_tree_depth by_id (7 ∷ (8 ∷ [])) 1 circle ≡ some ((7, (1, 3)) ∷ [])
unfolding top_recruiters loon_site.Invites.Chain.ranked loon_site.Invites.Chain.rank_query
    loon_site.Invites.Chain.rank_first edges_of loon_site.Invites.Chain.rank_next
    loon_site.Invites.Chain.rows_from loon_site.Invites.Chain.limited
    loon_site.Invites.Chain.ordered loon_site.Invites.Chain.grouped
    loon_site.Invites.Chain.put_ranked loon_site.Invites.Chain.outranks count_distinct ranking_limit
circle_ranking = refl

top_recruiters-counts_example :
    (ranking : InviteTree) × (top_recruiters invite_tree_depth by_id (7 ∷ (8 ∷ [])) 1 circle
      ≡ some ranking)
    × (length ranking ≤ 200)
    × ((user : ℕ) (counts : ℕ × ℕ)
        → user ≢ 0
        → (In (user, counts) ranking → recruit_counts invite_tree_depth user circle ≡ some counts)
          × (In user (7 ∷ (8 ∷ []))
              → 0 < counts.1
              → recruit_counts invite_tree_depth user circle ≡ some counts
              → (length ranking ≡ ranking_limit 1) ⊎ In (user, counts) ranking))
top_recruiters-counts_example = top_recruiters-counts by_id (7 ∷ (8 ∷ [])) 1 circle
