-- ===== src/Invites/Budget.antt =====
-- The invites a member has: each one buys one code, and refunds and purchases are what adds more.
use loon_site.Prelude.{
  ◌&&◌, ℕ, ◌+◌, ◌-◌, ◌≡◌, ◌≢◌, refl, ◌∙◌, Bool, true, false, Option, none, some, List, [], ◌∷◌,
  if◌then◌else◌, ◌==◌, nat_eq, nat_beq_iff, beq_ne, Bool-cases, Option-cases, inl, inr, arith, ltb,
  lookup, insert, lookup-insert,
}
use loon_site.Prelude.Int.{ℤ, positive?}
use loon_site.Invites.Granter.{grant_invites, grant_amount, grant_to}
use loon_site.Prelude.Bytes.{Bytes, bytes_eq}
use loon_site.Prelude.Balances.{Balances}
use loon_site.Invites.{
  InviteCode, InviteStore, Alphabet, Mint, issued, none_left, failed, insert_code, charge,
  charge_if, mint_invite_code, minted, refund_invite, refund_to,
}
use loon_site.Invites.Calls.{
  InviteOp, mint_op, grant_op, redeem_op, revoke_op, hide_op, sent_op, refund_op, store_op,
  after_invite_op, after_invite_ops,
}

abbrev pub is_issued : Mint → Bool
is_issued issued = true
is_issued none_left = false
is_issued failed = false

abbrev pub or_zero : Option ℕ → ℕ
or_zero none = 0
or_zero (some n) = n

-- `users.invites` of a member.
abbrev pub balance : ℕ → InviteStore → ℕ
balance user st = or_zero (lookup user st.invites)

-- What a mint of `user` takes from the balance of `who`.
abbrev pub spent_by : ℕ → ℕ → Mint → ℕ
spent_by who user m = if (user == who) && is_issued m then 1 else 0

charge-balance :
    (who user n : ℕ) (r : InviteCode) (st : InviteStore)
    → lookup user st.invites ≡ some n
    → ltb 0 n ≡ true
    → balance who (charge user n r st).0 + spent_by who user (charge user n r st).1 ≡ balance who st
unfolding charge
charge-balance who user n r st found pays = elim (Option-cases (insert_code r st.rows)) [
  | inl taken ↦ rw (taken, charge) (ground arith)
  | inr (rows, went) ↦ elim (Bool-cases (user == who)) [
    | inl same ↦
        let e = (nat_beq_iff user who).0 same in
        let here : lookup who st.invites ≡ some n = rw e at found in
        rw (went, charge, same, lookup-insert user who (n - 1) st.invites, here) (ground arith)
    | inr other ↦ rw (went, charge, other, lookup-insert user who (n - 1) st.invites) (ground arith)
  ]
]

-- The member has an account.
abbrev pub HasAccount : ℕ → InviteStore → Type 0
HasAccount who st = lookup who st.invites ≡ some (balance who st)

insert-account :
    (who user n : ℕ) (invites : Balances)
    → lookup who invites ≡ some (or_zero (lookup who invites))
    → lookup who (insert user n invites) ≡ some (or_zero (lookup who (insert user n invites)))
insert-account who user n invites h = elim (Bool-cases (user == who)) [
  | inl same ↦ rw (lookup-insert user who n invites, same) refl
  | inr other ↦ rw (lookup-insert user who n invites, other) h
]

module _ (text : Alphabet) (who : ℕ) where
  mint-balance :
      (now user : ℕ) (code : Bytes) (ttl : ℕ) (email message : Bytes) (st : InviteStore)
      → balance who (mint_invite_code text now user code ttl email message st).0
          + spent_by who user (mint_invite_code text now user code ttl email message st).1
        ≡ balance who st
  unfolding mint_invite_code charge_if
  mint-balance now user code ttl email message st = elim (Option-cases (lookup user st.invites)) [
    | inl missing ↦ rw (missing, charge_if) (ground arith)
    | inr (n, found) ↦ elim (Bool-cases (ltb 0 n)) [
      | inr broke ↦ rw (found, charge_if, broke) (ground arith)
      | inl pays ↦ rw (found, charge_if, pays) (charge-balance who user n _ st found pays)
    ]
  ]

  -- What a call takes from the member's balance, and what it gives back.
  abbrev pub op_spent : InviteOp → InviteStore → ℕ
  op_spent (mint_op now user code ttl email message) st =
      spent_by who user (mint_invite_code text now user code ttl email message st).1
  op_spent (grant_op now user code ttl email message) st = 0
  op_spent (redeem_op now code user) st = 0
  op_spent (revoke_op code user staff) st = 0
  op_spent (hide_op code owner) st = 0
  op_spent (sent_op code) st = 0
  op_spent (refund_op user) st = 0
  op_spent (store_op user n) st = 0

  abbrev pub op_credited : InviteOp → ℕ
  op_credited (mint_op now user code ttl email message) = 0
  op_credited (grant_op now user code ttl email message) = 0
  op_credited (redeem_op now code user) = 0
  op_credited (revoke_op code user staff) = 0
  op_credited (hide_op code owner) = 0
  op_credited (sent_op code) = 0
  op_credited (refund_op user) = if user == who then 1 else 0
  op_credited (store_op user n) = if user == who then or_zero (positive? n) else 0

  unfoldable pub ops_spent : List InviteOp → InviteStore → ℕ
  ops_spent [] st = 0
  ops_spent (op ∷ ops) st = op_spent op st + ops_spent ops (after_invite_op text op st)

  unfoldable pub ops_credited : List InviteOp → ℕ
  ops_credited [] = 0
  ops_credited (op ∷ ops) = op_credited op + ops_credited ops

  mint-account :
      (now user : ℕ) (code : Bytes) (ttl : ℕ) (email message : Bytes) (st : InviteStore)
      → HasAccount who st
      → HasAccount who (mint_invite_code text now user code ttl email message st).0
  unfolding mint_invite_code charge_if charge
  mint-account now user code ttl email message st h =
      let new = minted text code user (now + ttl) email message in
      elim (Option-cases (lookup user st.invites)) [
        | inl missing ↦ rw (missing, charge_if) h
        | inr (n, found) ↦ elim (Bool-cases (ltb 0 n)) [
          | inr broke ↦ rw (found, charge_if, broke) h
          | inl pays ↦ elim (Option-cases (insert_code new st.rows)) [
            | inl taken ↦ rw (found, charge_if, pays, charge, taken) h
            | inr (rows, went) ↦
                rw (found, charge_if, pays, charge, went)
                  (insert-account who user (n - 1) st.invites h)
          ]
        ]
      ]

  refund-account :
      (user : ℕ) (st : InviteStore)
      → HasAccount who st
      → HasAccount who (after_invite_op text (refund_op user) st)
  unfolding after_invite_op refund_invite refund_to
  refund-account user st h = elim (Bool-cases (user == 0)) [
    | inl nobody ↦ rw nobody h
    | inr someone ↦ elim (Option-cases (lookup user st.invites)) [
      | inl missing ↦ rw (someone, missing, refund_to) h
      | inr (n, found) ↦
          rw (someone, found, refund_to) (insert-account who user (n + 1) st.invites h)
    ]
  ]

  refund-balance :
      (user : ℕ) (st : InviteStore)
      → who ≢ 0
      → HasAccount who st
      → balance who (after_invite_op text (refund_op user) st)
        ≡ balance who st + op_credited (refund_op user)
  unfolding after_invite_op refund_invite refund_to
  refund-balance user st member h = elim (Bool-cases (user == who)) [
    | inl same ↦
        let e = (nat_beq_iff user who).0 same in
        let someone : (user == 0) ≡ false = rw e (beq_ne who 0 member) in
        let here : lookup user st.invites ≡ some (balance who st) = rw e h in
        let now_more = lookup-insert user who (balance who st + 1) st.invites in
        rw (someone, here, refund_to, now_more, same) refl
    | inr other ↦ elim (Bool-cases (user == 0)) [
      | inl nobody ↦ rw (nobody, other) (omega arith)
      | inr someone ↦ elim (Option-cases (lookup user st.invites)) [
        | inl missing ↦ rw (someone, missing, refund_to, other) (omega arith)
        | inr (n, found) ↦
            rw (someone, found, refund_to, lookup-insert user who (n + 1) st.invites, other)
              (omega arith)
      ]
    ]
  ]

  store-step :
      (user : ℕ) (n : ℤ) (st : InviteStore)
      → HasAccount who st
      → HasAccount who (after_invite_op text (store_op user n) st)
        × (balance who (after_invite_op text (store_op user n) st)
            ≡ balance who st + op_credited (store_op user n))
  unfolding after_invite_op grant_invites
  store-step user n st h = elim (Option-cases (positive? n)) [
    | inl rejected ↦ rw (rejected, grant_amount) (h, ground arith)
    | inr (bought, positive) ↦ elim (Option-cases (lookup user st.invites)) [
      | inl missing ↦ elim (Bool-cases (user == who)) [
        | inl same ↦
            let e = (nat_beq_iff user who).0 same in
            absurd (let there : lookup user st.invites ≡ some (balance who st) = rw e h in cc)
        | inr other ↦ rw (positive, grant_amount, missing, grant_to, other) (h, omega arith)
      ]
      | inr (b, found) ↦
          let there = lookup-insert user who (b + bought) st.invites in
          rw (positive, grant_amount, found, grant_to)
            (
              insert-account who user (b + bought) st.invites h,
              (elim (Bool-cases (user == who)) [
                | inl same ↦
                    let e = (nat_beq_iff user who).0 same in
                    let here : lookup who st.invites ≡ some b = rw e at found in
                    rw (there, same, here) refl
                | inr other ↦ rw (there, other) (omega arith)
              ]),
            )
    ]
  ]

  op-balance :
      (op : InviteOp) (st : InviteStore)
      → who ≢ 0
      → HasAccount who st
      → HasAccount who (after_invite_op text op st)
        × (balance who (after_invite_op text op st) + op_spent op st
            ≡ balance who st + op_credited op)
  unfolding after_invite_op
  op-balance (mint_op now user code ttl email message) st member h = (
    mint-account now user code ttl email message st h,
    mint-balance now user code ttl email message st ∙ omega arith,
  )
  op-balance (grant_op now user code ttl email message) st member h = (h, refl)
  op-balance (redeem_op now code user) st member h = (h, refl)
  op-balance (revoke_op code user staff) st member h = (h, refl)
  op-balance (hide_op code owner) st member h = (h, refl)
  op-balance (sent_op code) st member h = (h, refl)
  op-balance (refund_op user) st member h =
      (refund-account user st h, omega (arith, refund-balance user st member h))
  op-balance (store_op user n) st member h =
      let (account, credited) = store-step user n st h in (account, omega (arith, credited))

  -- A member's invites are conserved by any calls: what a member has left and the codes bought
  -- come to what the member had, the refunds, and what was bought in the store. Only the member's
  -- own mints that issue a code take from the balance; a mint that fails, also because the code is
  -- taken, takes nothing, and a purchase of an amount that is not positive gives nothing.
  pub invites_conserved :
      (ops : List InviteOp) (st : InviteStore)
      → who ≢ 0
      → HasAccount who st
      → balance who (after_invite_ops text ops st) + ops_spent ops st
        ≡ balance who st + ops_credited ops
  unfolding after_invite_ops ops_spent ops_credited
  invites_conserved [] st member h = refl
  invites_conserved (op ∷ ops) st member h =
      let (h', step) = op-balance op st member h in
      omega (arith, step, invites_conserved ops (after_invite_op text op st) member h')
