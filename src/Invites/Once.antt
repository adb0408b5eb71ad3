-- ===== src/Invites/Once.antt =====
-- A code is spent at most once, and a revoked code stays revoked.
use loon_site.Prelude.{
  ℕ, ◌+◌, ◌≤◌, ◌≡◌, refl, ap, Bool, true, false, Option, none, some, List, [], ◌∷◌, ◌||◌,
  if◌then◌else◌, All, ◌==◌, nat_eq, nat_beq_iff, Bool-cases, Option-cases, inl, inr, arith, lookup,
  ltb, count_if,
}
use loon_site.Prelude.Bytes.{Bytes, bytes_eq}
use loon_site.Prelude.Rows.{update_where, update_where-none}
use loon_site.Invites.{
  InviteCode, Codes, InviteStore, Alphabet, update_one, is_code, redeem_invite_code, redeemed,
  revoke_invite_code, revoked_row, soft_delete_invite_code, mark_invite_sent, mint_invite_code,
  mint_invite_uncharged, minted, insert_code, charge, charge_if, mint_free, is_open,
  normalise_invite_code, redeemable, revocable, sql_key,
}
use loon_site.Invites.Calls.{
  InviteOp, mint_op, grant_op, redeem_op, revoke_op, hide_op, sent_op, refund_op, store_op,
  after_invite_op, after_invite_ops, MintsOther, RowDead, update_dead, insert_dead,
}

module _ (text : Alphabet) (code : Bytes) where
  abbrev IsDead : Codes → Type 0
  IsDead rows = All (RowDead text code) rows

  charge-IsDead :
      (user balance : ℕ) (new : InviteCode) (st : InviteStore)
      → is_code text code new ≡ false
      → IsDead st.rows
      → IsDead (charge user balance new st).0.rows
  unfolding charge
  charge-IsDead user balance new st other h = elim (Option-cases (insert_code new st.rows)) [
    | inl taken ↦ rw (taken, charge) h
    | inr (rows, went) ↦ rw (went, charge) (insert_dead text code new st.rows rows other went h)
  ]

  charge_if-IsDead :
      (user : ℕ) (balance : Option ℕ) (new : InviteCode) (st : InviteStore)
      → is_code text code new ≡ false
      → IsDead st.rows
      → IsDead (charge_if user balance new st).0.rows
  unfolding charge_if
  charge_if-IsDead user none new st other h = h
  charge_if-IsDead user (some balance) new st other h = elim (Bool-cases (ltb 0 balance)) [
    | inr broke ↦ rw broke h
    | inl pays ↦ rw pays (charge-IsDead user balance new st other h)
  ]

  mint_free-IsDead :
      (new : InviteCode) (rows : Codes)
      → is_code text code new ≡ false
      → IsDead rows
      → IsDead (mint_free new rows).0
  unfolding mint_free
  mint_free-IsDead new rows other h = elim (Option-cases (insert_code new rows)) [
    | inl taken ↦ rw (taken, mint_free) h
    | inr (grown, went) ↦ rw (went, mint_free) (insert_dead text code new rows grown other went h)
  ]

  grant-IsDead :
      (now user : ℕ) (new : Bytes) (ttl : ℕ) (email message : Bytes) (rows : Codes)
      → (sql_key text new == normalise_invite_code text code) ≡ false
      → IsDead rows
      → IsDead (mint_invite_uncharged text now user new ttl email message rows).0
  unfolding mint_invite_uncharged is_code
  grant-IsDead now user new ttl email message rows other h = elim (Bool-cases (new == [])) [
    | inl nameless ↦ rw nameless h
    | inr named ↦ rw named (mint_free-IsDead _ rows other h)
  ]

  guarded_update-IsDead :
      (t : Bool) (p : InviteCode → Bool) (f : InviteCode → InviteCode) (rows : Codes)
      → ((r : InviteCode) → RowDead text code r → RowDead text code (f r))
      → IsDead rows
      → IsDead (if t then (rows, false) else update_one p f rows).0
  unfolding update_one
  guarded_update-IsDead true p f rows step h = h
  guarded_update-IsDead false p f rows step h = update_dead text code p f rows step h

  after_invite_op-IsDead :
      (op : InviteOp) (st : InviteStore)
      → MintsOther text code op
      → IsDead st.rows
      → IsDead (after_invite_op text op st).rows
  unfolding after_invite_op redeem_invite_code revoke_invite_code soft_delete_invite_code
      mark_invite_sent is_code mint_invite_code
  after_invite_op-IsDead (mint_op now user new ttl email message) st other h =
      charge_if-IsDead user (lookup user st.invites)
        (minted text new user (now + ttl) email message) st other h
  after_invite_op-IsDead (grant_op now user new ttl email message) st other h =
      grant-IsDead now user new ttl email message st.rows other h
  after_invite_op-IsDead (redeem_op now c user) st other h =
      guarded_update-IsDead _ _ _ st.rows (λ r d same. refl) h
  after_invite_op-IsDead (revoke_op c user staff) st other h =
      guarded_update-IsDead _ _ _ st.rows (λ r d same. ground arith) h
  after_invite_op-IsDead (hide_op c owner) st other h =
      guarded_update-IsDead _ _ _ st.rows (λ r d same. d same) h
  after_invite_op-IsDead (sent_op c) st other h =
      update_dead text code _ _ st.rows (λ r d same. d same) h
  after_invite_op-IsDead (refund_op user) st other h = h
  after_invite_op-IsDead (store_op user n) st other h = h

  after_invite_ops-IsDead :
      (ops : List InviteOp) (st : InviteStore)
      → All (MintsOther text code) ops
      → IsDead st.rows
      → IsDead (after_invite_ops text ops st).rows
  unfolding after_invite_ops
  after_invite_ops-IsDead [] st others h = h
  after_invite_ops-IsDead (op ∷ ops) st (other, others) h =
      after_invite_ops-IsDead ops (after_invite_op text op st) others
        (after_invite_op-IsDead op st other h)

  dead_redeems_nothing :
      (now : ℕ) (rows : Codes) → IsDead rows → count_if (redeemable text now code) rows ≡ 0
  unfolding is_open
  dead_redeems_nothing now [] h = refl
  dead_redeems_nothing now (r ∷ rows) (d, h) = ground (arith, d, dead_redeems_nothing now rows h)

  -- The one row with the code, once it is closed.
  module _ (p : InviteCode → Bool) (f : InviteCode → InviteCode)
      (dead : (r : InviteCode) → p r ≡ true → RowDead text code (f r))
      (hit : (r : InviteCode) → p r ≡ true → is_code text code r ≡ true) where
    absent_closes :
        (rows : Codes) → count_if (is_code text code) rows ≡ 0 → IsDead (update_where p f rows)
    unfolding update_where
    absent_closes [] none_there = tt
    absent_closes (r ∷ rows) none_there =
        let away : is_code text code r ≡ false = ground arith in
        elim (Bool-cases (p r)) [
          | inl picked ↦ absurd (let c = hit r picked in cc)
          | inr left ↦ rw left ((λ same. absurd (cc)), absent_closes rows (ground arith))
        ]

    update_closes :
        (rows : Codes)
        → count_if (is_code text code) rows ≤ 1
        → count_if p rows ≡ 1
        → IsDead (update_where p f rows)
    unfolding update_where
    update_closes [] most one = tt
    update_closes (r ∷ rows) most one = elim (Bool-cases (p r)) [
      | inl picked ↦
          rw picked (dead r picked, absent_closes rows (let c = hit r picked in ground arith))
      | inr left ↦
          let more : count_if p rows ≡ 1 = ground arith in
          let some_code = counted rows more in
          let away : is_code text code r ≡ false = ground arith in
          rw left ((λ same. absurd (cc)), update_closes rows (ground arith) more)
    ]
      where
        counted : (rows : Codes) → count_if p rows ≡ 1 → 1 ≤ count_if (is_code text code) rows
        counted [] one = absurd (omega arith)
        counted (r ∷ rows) one = ground (arith, hit r, counted rows)

  redeem-IsDead :
      (now user : ℕ) (rows : Codes)
      → count_if (is_code text code) rows ≤ 1
      → (redeem_invite_code text now code user rows).1 ≡ true
      → IsDead (redeem_invite_code text now code user rows).0
  unfolding redeem_invite_code update_one
  redeem-IsDead now user rows most went = elim (Bool-cases (code == [] || user == 0)) [
    | inl refused ↦ absurd (let w = rw refused at went in cc)
    | inr tried ↦ rw tried (
        update_closes (redeemable text now code) (redeemed text now user) (λ r p same. refl)
          (λ r p. ground arith) rows most ((nat_beq_iff _ _).0 (rw tried at went)))
  ]

  revoke-IsDead :
      (user : ℕ) (staff : Bool) (rows : Codes)
      → count_if (is_code text code) rows ≤ 1
      → (revoke_invite_code text code user staff rows).1 ≡ true
      → IsDead (revoke_invite_code text code user staff rows).0
  unfolding revoke_invite_code update_one
  revoke-IsDead user staff rows most went = elim (Bool-cases (code == [] || user == 0)) [
    | inl refused ↦ absurd (let w = rw refused at went in cc)
    | inr tried ↦ rw tried (
        update_closes (revocable text code (if staff then 0 else user)) (revoked_row text user)
          (λ r p same. ground arith) (λ r p. ground arith) rows most
          ((nat_beq_iff _ _).0 (rw tried at went)))
  ]

  dead-redeem :
      (now user : ℕ) (rows : Codes)
      → IsDead rows
      → redeem_invite_code text now code user rows ≡ (rows, false)
  unfolding redeem_invite_code update_one
  dead-redeem now user rows h = elim (Bool-cases (code == [] || user == 0)) [
    | inl refused ↦ rw refused refl
    | inr tried ↦
        rw (tried, dead_redeems_nothing now rows h)
          (ap (λ s. (s, false)) (update_where-none _ _ rows (dead_redeems_nothing now rows h)))
  ]

  -- The rows after calls that begin with these.
  abbrev pub rows_after : List InviteOp → Codes → InviteStore → Codes
  rows_after ops rows st = (after_invite_ops text ops (record st { rows = rows })).rows

  -- A code that the store has at most once, up to case and dashes, is redeemed at most once: after
  -- a redemption that succeeded every later one fails and changes no row, whoever tries and
  -- whatever is called in between, as long as no later mint makes the same code.
  pub redeem_once :
      (now later user user' : ℕ) (ops : List InviteOp) (st : InviteStore)
      → count_if (is_code text code) st.rows ≤ 1
      → All (MintsOther text code) ops
      → (redeem_invite_code text now code user st.rows).1 ≡ true
      → let rows = rows_after ops (redeem_invite_code text now code user st.rows).0 st in
        redeem_invite_code text later code user' rows ≡ (rows, false)
  redeem_once now later user user' ops st most others went =
      dead-redeem later user' _
        (after_invite_ops-IsDead ops _ others (redeem-IsDead now user st.rows most went))

  -- A revoked code stays revoked: after a revocation that succeeded, of a code that the store has
  -- at most once, up to case and dashes, no redemption succeeds or changes a row, whoever tries
  -- and whatever is called in between, as long as no later mint makes the same code.
  pub revoke_stays :
      (later user user' : ℕ) (staff : Bool) (ops : List InviteOp) (st : InviteStore)
      → count_if (is_code text code) st.rows ≤ 1
      → All (MintsOther text code) ops
      → (revoke_invite_code text code user staff st.rows).1 ≡ true
      → let rows = rows_after ops (revoke_invite_code text code user staff st.rows).0 st in
        redeem_invite_code text later code user' rows ≡ (rows, false)
  revoke_stays later user user' staff ops st most others went =
      dead-redeem later user' _
        (after_invite_ops-IsDead ops _ others (revoke-IsDead user staff st.rows most went))
