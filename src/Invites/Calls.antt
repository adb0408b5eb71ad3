-- ===== src/Invites/Calls.antt =====
-- The calls on invites, in any order, and what each of them does to the rows.
use loon_site.Prelude.{
  ℕ, ◌≡◌, Bool, true, false, some, List, [], ◌∷◌, ◌++◌, ◌&&◌, not, any, All, All-append, ◌==◌,
  nat_eq, Bool-cases, inl, inr, arith,
}
use loon_site.Prelude.Int.{ℤ}
use loon_site.Invites.Granter.{grant_invites}
use loon_site.Prelude.Bytes.{Bytes, bytes_eq}
use loon_site.Prelude.Rows.{update_where, All-update_where}
use loon_site.Invites.{
  InviteCode, Codes, InviteStore, Alphabet, is_code, redeem_invite_code, revoke_invite_code,
  soft_delete_invite_code, mark_invite_sent, mint_invite_code, mint_invite_uncharged, refund_invite,
  insert_code, sql_key, normalise_invite_code, is_set,
}

pub data InviteOp : Type 0 where
  mint_op : ℕ → ℕ → Bytes → ℕ → Bytes → Bytes → InviteOp
  grant_op : ℕ → ℕ → Bytes → ℕ → Bytes → Bytes → InviteOp
  redeem_op : ℕ → Bytes → ℕ → InviteOp
  revoke_op : Bytes → ℕ → Bool → InviteOp
  hide_op : Bytes → ℕ → InviteOp
  sent_op : Bytes → InviteOp
  refund_op : ℕ → InviteOp
  store_op : ℕ → ℤ → InviteOp

module _ (text : Alphabet) where
  unfoldable pub after_invite_op : InviteOp → InviteStore → InviteStore
  after_invite_op (mint_op now user code ttl email message) st =
      (mint_invite_code text now user code ttl email message st).0
  after_invite_op (grant_op now user code ttl email message) st = record st {
    rows = (mint_invite_uncharged text now user code ttl email message st.rows).0;
  }
  after_invite_op (redeem_op now code user) st = record st {
    rows = (redeem_invite_code text now code user st.rows).0;
  }
  after_invite_op (revoke_op code user staff) st = record st {
    rows = (revoke_invite_code text code user staff st.rows).0;
  }
  after_invite_op (hide_op code owner) st = record st {
    rows = (soft_delete_invite_code text code owner st.rows).0;
  }
  after_invite_op (sent_op code) st = record st { rows = mark_invite_sent text code st.rows }
  after_invite_op (refund_op user) st = record st { invites = refund_invite user st.invites }
  after_invite_op (store_op user n) st = record st { invites = (grant_invites user n st.invites).0 }

  unfoldable pub after_invite_ops : List InviteOp → InviteStore → InviteStore
  after_invite_ops [] st = st
  after_invite_ops (op ∷ ops) st = after_invite_ops ops (after_invite_op op st)

  -- The call adds no row that the typed code names.
  abbrev pub MintsOther : Bytes → InviteOp → Type 0
  MintsOther code (mint_op now user new ttl email message) =
      (sql_key text new == normalise_invite_code text code) ≡ false
  MintsOther code (grant_op now user new ttl email message) =
      (sql_key text new == normalise_invite_code text code) ≡ false
  MintsOther code (redeem_op now c user) = Unit
  MintsOther code (revoke_op c user staff) = Unit
  MintsOther code (hide_op c owner) = Unit
  MintsOther code (sent_op c) = Unit
  MintsOther code (refund_op user) = Unit
  MintsOther code (store_op user n) = Unit

  -- What the code names is used or revoked.
  abbrev pub RowDead : Bytes → InviteCode → Type 0
  RowDead code r =
      is_code text code r ≡ true → (not (is_set r.used_by) && not (is_set r.revoked_by)) ≡ false

  module _ (code : Bytes) where
    pub update_dead :
        (p : InviteCode → Bool) (f : InviteCode → InviteCode) (rows : Codes)
        → ((r : InviteCode) → RowDead code r → RowDead code (f r))
        → All (RowDead code) rows
        → All (RowDead code) (update_where p f rows)
    update_dead p f rows step h = All-update_where (RowDead code) p f rows (λ r d hit. step r d) h

    pub insert_dead :
        (new : InviteCode) (rows grown : Codes)
        → is_code text code new ≡ false
        → insert_code new rows ≡ some grown
        → All (RowDead code) rows
        → All (RowDead code) grown
    unfolding insert_code
    insert_dead new rows grown other went h =
        elim (Bool-cases (any (λ s. s.code == new.code) rows)) [
          | inl taken ↦ absurd (let w = rw taken at went in cc)
          | inr free ↦
              let e : rows ++ new ∷ [] ≡ grown = (let w = rw free at went in ground arith) in
              rw e at (All-append (RowDead code) rows (new ∷ []) h ((λ same. absurd (cc)), tt))
        ]
