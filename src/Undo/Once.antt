-- ===== src/Undo/Once.antt =====
-- A token undoes at most once, whatever runs in between.
use loon_site.Prelude.{
  ℕ, ◌≡◌, refl, Bool, true, false, ◌&&◌, not, List, [], ◌∷◌, String, All, ◌==◌, nat_eq, string_eq,
  lookup, Distinct, Bool-cases, Option-cases, inl, inr,
}
use loon_site.Prelude.Int.{ℤ, positive?}
use loon_site.Undo.{
  UndoAction, UndoTable, Link, gone, undone, claim, Reversal, perform_undo, reverse, settle,
}
use loon_site.Undo.Steps.{
  UndoOp, record_op, perform_op, purge_op, DrawsOther, IsSpent, after_undo_op, after_undo_ops,
  record_undo-Distinct, record_undo-IsSpent, perform_undo-Distinct, perform_undo-IsSpent,
  purge_undo-Distinct, purge_undo-IsSpent, used-IsSpent, claim-IsSpent,
}

module _ {P D : Type 0} (kinds : List (String × Reversal P D)) where
  after_undo_op-IsSpent :
      (op : UndoOp P) (token : String) (rows : UndoTable P) (d : D)
      → DrawsOther token op
      → Distinct rows
      → IsSpent token rows
      → Distinct (after_undo_op kinds op (rows, d)).0
        × IsSpent token (after_undo_op kinds op (rows, d)).0
  unfolding after_undo_op
  after_undo_op-IsSpent (record_op link now user kind payload drawn) token rows d other one spent =
      (
        record_undo-Distinct kinds link now user kind payload drawn rows one,
        record_undo-IsSpent kinds link now user kind payload drawn token rows other spent,
      )
  after_undo_op-IsSpent (perform_op link now user t) token rows d other one spent = (
    perform_undo-Distinct kinds link now user t rows d one,
    perform_undo-IsSpent kinds link now user token t rows d spent,
  )
  after_undo_op-IsSpent (purge_op link now) token rows d other one spent = (
    purge_undo-Distinct kinds link now rows one,
    purge_undo-IsSpent kinds link now token rows one spent,
  )

  after_undo_ops-IsSpent :
      (ops : List (UndoOp P)) (token : String) (rows : UndoTable P) (d : D)
      → All (DrawsOther token) ops
      → Distinct rows
      → IsSpent token rows
      → IsSpent token (after_undo_ops kinds ops (rows, d)).0
  unfolding after_undo_ops
  after_undo_ops-IsSpent [] token rows d others one spent = spent
  after_undo_ops-IsSpent (op ∷ ops) token rows d (other, others) one spent =
      let (one', spent') = after_undo_op-IsSpent op token rows d other one spent in
      let s = after_undo_op kinds op (rows, d) in
      after_undo_ops-IsSpent ops token s.0 s.1 others one' spent'

  settle-IsSpent :
      (link : Link) (token kind : String) (a : UndoAction P) (result : D × Bool)
      (rows : UndoTable P)
      → (settle link token a result rows).1 ≡ undone kind
      → IsSpent token (settle link token a result rows).0.0
  unfolding settle
  settle-IsSpent link token kind a (d, true) rows went = used-IsSpent kinds token _ rows refl
  settle-IsSpent link token kind a (d, false) rows went = absurd (cc)

  -- What a successful undo claimed.
  undone-claimed :
      (link : Link) (now : ℕ) (user : ℤ) (token kind : String) (rows : UndoTable P) (d : D)
      → (perform_undo link kinds now user token (rows, d)).1 ≡ undone kind
      → IsSpent token (perform_undo link kinds now user token (rows, d)).0.0
  unfolding perform_undo reverse
  undone-claimed link now user token kind rows d went = elim (Option-cases (positive? user)) [
    | inl nobody ↦ absurd (let w = rw nobody at went in cc)
    | inr (u, member) ↦ elim (Bool-cases (link.connected && not (token == ""))) [
      | inr offline ↦ absurd (let w = rw (member, offline) at went in cc)
      | inl online ↦ elim (Option-cases (claim now u token rows)) [
        | inl missing ↦ absurd (let w = rw (member, online, missing) at went in cc)
        | inr (a, found) ↦ elim (Bool-cases link.runs) [
          | inr fails ↦ absurd (let w = rw (member, online, found, fails) at went in cc)
          | inl runs ↦ elim (Option-cases (lookup a.kind kinds)) [
            | inl unknown ↦ absurd (let w = rw (member, online, found, runs, unknown) at went in cc)
            | inr (handler, known) ↦
                rw (member, online, found, runs, known)
                  (settle-IsSpent link token kind a (handler u a.payload d) rows
                    (rw (member, online, found, runs, known) at went))
          ]
        ]
      ]
    ]
  ]

  spent-gone :
      (link : Link) (now : ℕ) (user : ℤ) (token : String) (s : UndoTable P × D)
      → IsSpent token s.0
      → perform_undo link kinds now user token s ≡ (s, gone)
  unfolding perform_undo
  spent-gone link now user token s spent = elim (Option-cases (positive? user)) [
    | inl nobody ↦ rw nobody refl
    | inr (u, member) ↦ elim (Bool-cases (link.connected && not (token == ""))) [
      | inr offline ↦ rw (member, offline) refl
      | inl online ↦ rw (member, online, claim-IsSpent kinds now u token s.0 spent) refl
    ]
  ]

  -- A token that undid something once never undoes anything again and changes nothing more, whoever
  -- sends it and whatever is recorded, undone and purged in between, as long as no later record
  -- draws the same token. (No token is in the table twice, as it is the primary key.)
  pub undo_once :
      (link link' : Link) (now later : ℕ) (user user' : ℤ) (token kind : String)
      (ops : List (UndoOp P)) (rows : UndoTable P) (d : D)
      → Distinct rows
      → All (DrawsOther token) ops
      → (perform_undo link kinds now user token (rows, d)).1 ≡ undone kind
      → let between =
          after_undo_ops kinds ops (perform_undo link kinds now user token (rows, d)).0 in
        perform_undo link' kinds later user' token between ≡ (between, gone)
  undo_once link link' now later user user' token kind ops rows d one others went =
      let s = (perform_undo link kinds now user token (rows, d)).0 in
      let spent =
        after_undo_ops-IsSpent ops token s.0 s.1 others
          (perform_undo-Distinct kinds link now user token rows d one)
          (undone-claimed link now user token kind rows d went) in
      spent-gone link' later user' token _ spent
