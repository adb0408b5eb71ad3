-- ===== src/Invites/Valid.antt =====
-- What the sign-up form is told about a code, and who may touch a row.
use loon_site.Prelude.{
  ℕ, ◌≤◌, ◌≡◌, ◌≢◌, refl, Bool, true, false, Option, [], ◌∷◌, ◌&&◌, not, if◌then◌else◌, keep, ◌==◌,
  nat_eq, beq_ne, Bool-cases, inl, inr, arith, count_if,
}
use loon_site.Prelude.Bytes.{Bytes, bytes_eq}
use loon_site.Prelude.Rows.{first_where, keep-update_where}
use loon_site.Invites.{
  InviteCode, Codes, Alphabet, is_open, reason_of, lookup_of, has_no_reason, update_one, is_code,
  lookup_invite_code, invite_code_valid, redeem_invite_code, redeemable, revoke_invite_code,
  revocable, revoked_row, soft_delete_invite_code, deletable,
}

module _ (text : Alphabet) where
  -- A row without a reason against it is a row that can be redeemed.
  reason_of-is_open : (now : ℕ) (r : InviteCode) → has_no_reason (reason_of now r) ≡ is_open now r
  unfolding reason_of is_open
  reason_of-is_open now r = ground arith

  told : ℕ → Option InviteCode → Bool
  told now o = (lookup_of now o).found && has_no_reason (lookup_of now o).reason

  redeemable-le :
      (now : ℕ) (code : Bytes) (rows : Codes)
      → count_if (redeemable text now code) rows ≤ count_if (is_code text code) rows
  redeemable-le now code [] = omega arith
  redeemable-le now code (r ∷ rows) = ground (arith, redeemable-le now code rows)

  valid-count :
      (now : ℕ) (code : Bytes) (rows : Codes)
      → count_if (is_code text code) rows ≤ 1
      → told now (first_where (is_code text code) rows)
        ≡ (count_if (redeemable text now code) rows == 1)
  unfolding told first_where
  valid-count now code [] most = refl
  valid-count now code (r ∷ rows) most = elim (Bool-cases (is_code text code r)) [
    | inl here ↦
        let nothing : count_if (redeemable text now code) rows ≡ 0 =
          (let below = redeemable-le now code rows in ground arith) in
        rw (here, nothing, reason_of-is_open now r) (ground arith)
    | inr away ↦
        let rest = valid-count now code rows (ground arith) in
        let miss : redeemable text now code r ≡ false = rw away refl in
        rw (away, rest) (ground arith)
  ]

  -- The form's answer is the truth at that moment: a code the store has at most once is called
  -- valid exactly when an account, at the same moment, can redeem it.
  pub valid-redeem :
      (now : ℕ) (code : Bytes) (user : ℕ) (rows : Codes)
      → count_if (is_code text code) rows ≤ 1
      → user ≢ 0
      → invite_code_valid text now code rows ≡ (redeem_invite_code text now code user rows).1
  unfolding invite_code_valid lookup_invite_code redeem_invite_code update_one told
  valid-redeem now code user rows most member = elim (Bool-cases (code == [])) [
    | inl empty ↦ rw empty refl
    | inr typed ↦ rw (typed, beq_ne user 0 member) (valid-count now code rows most)
  ]

  -- The rows that other members issued.
  abbrev pub others_of : ℕ → Codes → Codes
  others_of user rows = keep (λ r. not (r.created_by == user)) rows

  update_one-others :
      (t : Bool) (p : InviteCode → Bool) (f : InviteCode → InviteCode) (user : ℕ) (rows : Codes)
      → ((r : InviteCode) → p r ≡ true → (r.created_by ≡ user) × ((f r).created_by ≡ user))
      → keep (λ r. not (r.created_by == user)) (if t then (rows, false) else update_one p f rows).0
        ≡ keep (λ r. not (r.created_by == user)) rows
  unfolding update_one
  update_one-others true p f user rows own = refl
  update_one-others false p f user rows own =
      keep-update_where (λ r. not (r.created_by == user)) p f rows
        (λ r picked.
          let (mine, still) = own r picked in (ground (arith, mine), ground (arith, still)))

  -- Without the rights of staff nobody touches the row of another member: a revoke and a delete
  -- from the list leave all the rows that the caller did not issue as they were.
  pub others_stay :
      (code : Bytes) (user : ℕ) (rows : Codes)
      → user ≢ 0
      → (others_of user (revoke_invite_code text code user false rows).0 ≡ others_of user rows)
        × (others_of user (soft_delete_invite_code text code user rows).0 ≡ others_of user rows)
  unfolding revoke_invite_code soft_delete_invite_code
  others_stay code user rows member = (
    update_one-others _ (revocable text code user) (revoked_row text user) user rows
        (λ r picked. let mine : r.created_by ≡ user = ground arith in (mine, mine)),
    update_one-others _ (deletable text code user) (λ r. record r { is_deleted = true }) user rows
        (λ r picked. let mine : r.created_by ≡ user = ground arith in (mine, mine)),
  )
