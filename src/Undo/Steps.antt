-- ===== src/Undo/Steps.antt =====
-- Calls on the table of undo actions, and what each does to a token that is used up.
use loon_site.Prelude.{
  ℕ, ◌≡◌, ◌≢◌, ◌⊎◌, refl, ap, Bool, true, false, ◌&&◌, not, Option, none, some, List, [], ◌∷◌,
  String, arith, ◌==◌, nat_eq, string_eq, eq_iff, lookup, insert, lookup-insert, insert-Distinct,
  Distinct, keep-Distinct, lookup-keep, Bool-cases, Option-cases, inl, inr, beq_refl, beq_ne,
}
use loon_site.Prelude.Int.{ℤ, positive?}
use loon_site.Undo.{
  UndoAction, UndoTable, Link, record_undo, claim, Reversal, perform_undo, purge_undo, is_outdated,
  reverse, settle,
}

pub data UndoOp (P : Type 0) : Type 0 where
  record_op : Link → ℕ → ℤ → String → Option P → Option String → UndoOp P
  perform_op : Link → ℕ → ℤ → String → UndoOp P
  purge_op : Link → ℕ → UndoOp P

-- An operation does not draw a token.
abbrev pub DrawsOther : {P : Type 0} → String → UndoOp P → Type 0
DrawsOther token (record_op link now user kind payload drawn) = drawn ≢ some token
DrawsOther token (perform_op link now user t) = Unit
DrawsOther token (purge_op link now) = Unit

-- A token whose row is used or gone.
abbrev pub is_spent : {P : Type 0} → Option (UndoAction P) → Bool
is_spent none = true
is_spent (some a) = a.used

abbrev pub IsSpent : {P : Type 0} → String → UndoTable P → Type 0
IsSpent token rows = is_spent (lookup token rows) ≡ true

module _ {P D : Type 0} (kinds : List (String × Reversal P D)) where
  unfoldable pub after_undo_op : UndoOp P → UndoTable P × D → UndoTable P × D
  after_undo_op (record_op link now user kind payload token) (rows, d) =
      ((record_undo link now user kind payload token rows).0, d)
  after_undo_op (perform_op link now user token) s = (perform_undo link kinds now user token s).0
  after_undo_op (purge_op link now) (rows, d) = (purge_undo link now rows, d)

  unfoldable pub after_undo_ops : List (UndoOp P) → UndoTable P × D → UndoTable P × D
  after_undo_ops [] s = s
  after_undo_ops (op ∷ ops) s = after_undo_ops ops (after_undo_op op s)

  pub claim-IsSpent :
      (now user : ℕ) (token : String) (rows : UndoTable P)
      → IsSpent token rows
      → claim now user token rows ≡ none
  unfolding claim
  claim-IsSpent now user token rows spent = elim (Option-cases (lookup token rows)) [
    | inl missing ↦ ground arith
    | inr (a, found) ↦ ground arith
  ]

  insert-IsSpent :
      (token t : String) (a : UndoAction P) (rows : UndoTable P)
      → (t == token) ≡ false
      → IsSpent token rows
      → IsSpent token (insert t a rows)
  insert-IsSpent token t a rows other spent = rw (lookup-insert t token a rows, other) spent

  pub used-IsSpent :
      (token : String) (a : UndoAction P) (rows : UndoTable P)
      → a.used ≡ true
      → IsSpent token (insert token a rows)
  used-IsSpent token a rows used = rw (lookup-insert token token a rows, beq_refl token) used

  -- What an undo of a token does to the rows: nothing, or a new value in its row, which was there
  -- to be claimed.
  abbrev Touches : ℕ → String → UndoTable P → UndoTable P → Type 0
  Touches now token rows rows' =
      (rows' ≡ rows)
      ⊎ ((user : ℕ) × (old a : UndoAction P) × (claim now user token rows ≡ some old)
          × (rows' ≡ insert token a rows))

  settle_rows :
      (link : Link) (token : String) (a : UndoAction P) (result : D × Bool) (rows : UndoTable P)
      → (b : UndoAction P) × ((settle link token a result rows).0.0 ≡ insert token b rows)
  unfolding settle
  settle_rows link token a (d, true) rows = (record a { used = true }, refl)
  settle_rows link token a (d, false) rows = (record a { used = not link.hands_back }, refl)

  claimed-Touches :
      (link : Link) (now user : ℕ) (token : String) (rows : UndoTable P) (d : D) (a : UndoAction P)
      (handler : Option (Reversal P D))
      → claim now user token rows ≡ some a
      → Touches now token rows (reverse link token user a handler (rows, d)).0.0
  unfolding reverse
  claimed-Touches link now user token rows d a none found =
      inr (user, a, record a { used = true }, found, refl)
  claimed-Touches link now user token rows d a (some handler) found =
      let (b, changed) = settle_rows link token a (handler user a.payload d) rows in
      inr (user, a, b, found, changed)

  perform_undo-Touches :
      (link : Link) (now : ℕ) (user : ℤ) (token : String) (rows : UndoTable P) (d : D)
      → Touches now token rows (perform_undo link kinds now user token (rows, d)).0.0
  unfolding perform_undo
  perform_undo-Touches link now user token rows d = elim (Option-cases (positive? user)) [
    | inl nobody ↦ inl (ground arith)
    | inr (u, member) ↦ elim (Bool-cases (link.connected && not (token == ""))) [
      | inr offline ↦ rw (member, offline) (inl refl)
      | inl online ↦ elim (Option-cases (claim now u token rows)) [
        | inl missing ↦ rw (member, online, missing) (inl refl)
        | inr (a, found) ↦ elim (Bool-cases link.runs) [
          | inr fails ↦ rw (member, online, found, fails) (inl refl)
          | inl runs ↦
              rw (member, online, found, runs)
                (claimed-Touches link now u token rows d a (lookup a.kind kinds) found)
        ]
      ]
    ]
  ]

  pub perform_undo-IsSpent :
      (link : Link) (now : ℕ) (user : ℤ) (token t : String) (rows : UndoTable P) (d : D)
      → IsSpent token rows
      → IsSpent token (perform_undo link kinds now user t (rows, d)).0.0
  perform_undo-IsSpent link now user token t rows d spent =
      elim (perform_undo-Touches link now user t rows d) [
        | inl same ↦ rw same spent
        | inr (u, old, a, found, changed) ↦ elim (Bool-cases (t == token)) [
          | inr other ↦ rw changed (insert-IsSpent token t a rows other spent)
          | inl same ↦
              let e : t ≡ token = (eq_iff t token).0 same in
              absurd (let c = claim-IsSpent now u token rows spent in let f = rw e at found in cc)
        ]
      ]

  pub record_undo-IsSpent :
      (link : Link) (now : ℕ) (user : ℤ) (kind : String) (payload : Option P)
      (drawn : Option String) (token : String) (rows : UndoTable P)
      → drawn ≢ some token
      → IsSpent token rows
      → IsSpent token (record_undo link now user kind payload drawn rows).0
  unfolding record_undo
  record_undo-IsSpent link now user kind payload none token rows other spent = ground arith
  record_undo-IsSpent link now user kind none (some t) token rows other spent = ground arith
  record_undo-IsSpent link now user kind (some payload) (some t) token rows other spent =
      let differ : (t == token) ≡ false = beq_ne t token (λ e. other (ap some e)) in
      elim (Option-cases (positive? user)) [
        | inl nobody ↦ rw nobody spent
        | inr (u, member) ↦ elim (Bool-cases (link.connected && link.runs)) [
          | inr offline ↦ rw (member, offline) spent
          | inl online ↦ elim (Option-cases (lookup t rows)) [
            | inr (a, taken) ↦ rw (member, online, taken) spent
            | inl free ↦ rw (member, online, free) (insert-IsSpent token t _ rows differ spent)
          ]
        ]
      ]

  pub purge_undo-IsSpent :
      (link : Link) (now : ℕ) (token : String) (rows : UndoTable P)
      → Distinct rows
      → IsSpent token rows
      → IsSpent token (purge_undo link now rows)
  unfolding purge_undo
  purge_undo-IsSpent link now token rows d spent = elim (Bool-cases (link.connected && link.runs)) [
    | inr offline ↦ rw offline spent
    | inl online ↦ elim (Option-cases (lookup token rows)) [
      | inl missing ↦
          rw (online, lookup-keep token (λ e. not (is_outdated now e)) rows d, missing) refl
      | inr (a, found) ↦
          rw (online, lookup-keep token (λ e. not (is_outdated now e)) rows d, found)
            (let used : a.used ≡ true = (rw found at spent) in ground arith)
    ]
  ]

  pub record_undo-Distinct :
      (link : Link) (now : ℕ) (user : ℤ) (kind : String) (payload : Option P)
      (drawn : Option String) (rows : UndoTable P)
      → Distinct rows
      → Distinct (record_undo link now user kind payload drawn rows).0
  unfolding record_undo
  record_undo-Distinct link now user kind payload none rows d = ground arith
  record_undo-Distinct link now user kind none (some t) rows d = ground arith
  record_undo-Distinct link now user kind (some payload) (some t) rows d =
      elim (Option-cases (positive? user)) [
        | inl nobody ↦ rw nobody d
        | inr (u, member) ↦ elim (Bool-cases (link.connected && link.runs)) [
          | inr offline ↦ rw (member, offline) d
          | inl online ↦ elim (Option-cases (lookup t rows)) [
            | inr (a, taken) ↦ rw (member, online, taken) d
            | inl free ↦ rw (member, online, free) (insert-Distinct t _ rows d)
          ]
        ]
      ]

  pub perform_undo-Distinct :
      (link : Link) (now : ℕ) (user : ℤ) (token : String) (rows : UndoTable P) (d : D)
      → Distinct rows
      → Distinct (perform_undo link kinds now user token (rows, d)).0.0
  perform_undo-Distinct link now user token rows d one =
      elim (perform_undo-Touches link now user token rows d) [
        | inl same ↦ rw same one
        | inr (u, old, a, found, changed) ↦ rw changed (insert-Distinct token a rows one)
      ]

  pub purge_undo-Distinct :
      (link : Link) (now : ℕ) (rows : UndoTable P)
      → Distinct rows
      → Distinct (purge_undo link now rows)
  unfolding purge_undo
  purge_undo-Distinct link now rows d = elim (Bool-cases (link.connected && link.runs)) [
    | inr offline ↦ rw offline d
    | inl online ↦ rw online (keep-Distinct _ rows d)
  ]
