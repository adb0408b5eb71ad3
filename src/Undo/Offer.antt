-- ===== src/Undo/Offer.antt =====
-- What an undo needs, what it does, and that one that failed may be tried again.
use loon_site.Prelude.{
  ℕ, zero, suc, ◌+◌, ◌<◌, ◌≡◌, ◌≢◌, ◌⊎◌, refl, sym, ap, ◌∙◌, Bool, true, false, ◌&&◌, not, none,
  some, List, String, arith, ◌==◌, nat_eq, nat_beq_iff, string_eq, eq_iff, lookup, lookup-insert,
  Bool-cases, Option-cases, inl, inr, beq_refl, beq_ne,
}
use loon_site.Prelude.Int.{ℤ, pos, positive?}
use loon_site.Undo.{
  UndoAction, UndoTable, Link, gone, refused, undone, record_undo, claim, claimable, Reversal,
  perform_undo, reverse, settle, undo_window,
}

positive-pos : (n : ℕ) → 0 < n → positive? (pos n) ≡ some n
positive-pos zero h = absurd (omega arith)
positive-pos (suc n) h = refl

module _ {P D : Type 0} (kinds : List (String × Reversal P D)) where
  -- A row that the member may still undo.
  abbrev pub IsOpen : ℕ → ℕ → String → UndoTable P → UndoAction P → Type 0
  IsOpen now user token rows a =
      (lookup token rows ≡ some a) × (a.user_id ≡ user) × (a.used ≡ false) × (now < a.expires_at)

  claim-IsOpen :
      (now user : ℕ) (token : String) (rows : UndoTable P) (a : UndoAction P)
      → claim now user token rows ≡ some a
      → IsOpen now user token rows a
  unfolding claim
  claim-IsOpen now user token rows a found = elim (Option-cases (lookup token rows)) [
    | inl missing ↦ absurd (ground arith)
    | inr (b, there) ↦ elim (Bool-cases (claimable now user b)) [
      | inr fails ↦ absurd (ground arith)
      | inl passes ↦
          let same : b ≡ a = ground arith in
          rw (← same)
            (there, ground (arith, nat_beq_iff b.user_id user), ground arith, ground arith)
    ]
  ]

  perform_cases :
      (link : Link) (now : ℕ) (user : ℤ) (token : String) (s : UndoTable P × D)
      → (perform_undo link kinds now user token s ≡ (s, gone))
        ⊎ ((u : ℕ) × (a : UndoAction P) × (positive? user ≡ some u)
            × IsOpen now u token s.0 a
            × (perform_undo link kinds now user token s
                ≡ reverse link token u a (lookup a.kind kinds) s))
  unfolding perform_undo
  perform_cases link now user token s = elim (Option-cases (positive? user)) [
    | inl nobody ↦ inl (rw nobody refl)
    | inr (u, member) ↦ elim (Bool-cases (link.connected && not (token == ""))) [
      | inr offline ↦ inl (rw (member, offline) refl)
      | inl online ↦ elim (Option-cases (claim now u token s.0)) [
        | inl missing ↦ inl (rw (member, online, missing) refl)
        | inr (a, found) ↦ elim (Bool-cases link.runs) [
          | inr fails ↦ inl (rw (member, online, found, fails) refl)
          | inl runs ↦ inr (
            u,
            a,
            member,
            claim-IsOpen now u token s.0 a found,
            rw (member, online, found, runs) refl,
          )
        ]
      ]
    ]
  ]

  settled :
      (link : Link) (token kind : String) (a : UndoAction P) (result : D × Bool)
      (rows : UndoTable P)
      → (settle link token a result rows).1 ≡ undone kind
      → (result ≡ ((settle link token a result rows).0.1, true)) × (a.kind ≡ kind)
  unfolding settle
  settled link token kind a (d, true) rows went = (refl, cc)
  settled link token kind a (d, false) rows went = absurd (cc)

  handed_back :
      (link : Link) (token other : String) (a : UndoAction P) (result : D × Bool)
      (rows : UndoTable P)
      → link.hands_back ≡ true
      → lookup token rows ≡ some a
      → a.used ≡ false
      → (settle link token a result rows).1 ≡ refused
      → lookup other (settle link token a result rows).0.0 ≡ lookup other rows
  unfolding settle
  handed_back link token other a (d, true) rows back there unused failed = absurd (cc)
  handed_back link token other a (d, false) rows back there unused failed =
      elim (Bool-cases (token == other)) [
        | inr differs ↦
            rw (lookup-insert token other (record a { used = not link.hands_back }) rows, differs)
              refl
        | inl same ↦
            let e : token ≡ other = (eq_iff token other).0 same in
            let whole : ◌≡◌ {A = UndoAction P} (record a { used = not link.hands_back }) a =
              ground arith in
            rw
              (
                lookup-insert token other (record a { used = not link.hands_back }) rows,
                same,
                whole,
              )
              (sym there ∙ ap (λ t. lookup t rows) e)
      ]

  -- An undo that reports success was asked for by the member to whom the token was given, before it
  -- expired and before any other; its kind's handler ran on the stored payload and went through,
  -- and left the database as it now is.
  pub undone_sound :
      (link : Link) (now : ℕ) (user : ℤ) (token kind : String) (rows : UndoTable P) (d : D)
      → (perform_undo link kinds now user token (rows, d)).1 ≡ undone kind
      → (u : ℕ) × (a : UndoAction P) × (handler : Reversal P D) × (positive? user ≡ some u)
        × IsOpen now u token rows a
        × (a.kind ≡ kind)
        × (lookup kind kinds ≡ some handler)
        × (handler u a.payload d ≡ ((perform_undo link kinds now user token (rows, d)).0.1, true))
  unfolding reverse
  undone_sound link now user token kind rows d went =
      elim (perform_cases link now user token (rows, d)) [
        | inl nothing ↦ absurd (let w = rw nothing at went in cc)
        | inr (u, a, member, open_row, result) ↦ elim (Option-cases (lookup a.kind kinds)) [
          | inl unknown ↦ absurd (let w = rw (result, unknown) at went in cc)
          | inr (handler, known) ↦
              let w = rw (result, known) at went in
              let (ran, same) = settled link token kind a (handler u a.payload d) rows w in
              (u, a, handler, member, open_row, same, rw (← same) known, rw (result, known) ran)
        ]
      ]

  -- An undo whose handler fails leaves every row as it was, so the offer still stands, when the
  -- statement that hands the token back goes through.
  pub refused_stands :
      (link : Link) (now : ℕ) (user : ℤ) (token other : String) (rows : UndoTable P) (d : D)
      → link.hands_back ≡ true
      → (perform_undo link kinds now user token (rows, d)).1 ≡ refused
      → lookup other (perform_undo link kinds now user token (rows, d)).0.0 ≡ lookup other rows
  unfolding reverse
  refused_stands link now user token other rows d back failed =
      elim (perform_cases link now user token (rows, d)) [
        | inl nothing ↦ rw nothing refl
        | inr (u, a, member, open_row, result) ↦ elim (Option-cases (lookup a.kind kinds)) [
          | inl unknown ↦ absurd (let w = rw (result, unknown) at failed in cc)
          | inr (handler, known) ↦
              let w = rw (result, known) at failed in
              rw (result, known)
                (handed_back link token other a (handler u a.payload d) rows back open_row.0
                  open_row.2 w)
        ]
      ]

  -- A token that was just offered undoes: within the window the member's undo runs the kind's
  -- handler on the payload that was recorded. (The token is new to the table, as a drawn one is,
  -- and the statements go through.)
  pub perform-record :
      (link : Link) (now later user : ℕ) (kind : String) (payload : P) (token : String)
      (handler : Reversal P D) (rows : UndoTable P) (d d' : D)
      → link.connected ≡ true
      → link.runs ≡ true
      → token ≢ ""
      → lookup token rows ≡ none
      → 0 < user
      → later < now + undo_window
      → lookup kind kinds ≡ some handler
      → handler user payload d ≡ (d', true)
      → let offered = record_undo link now (pos user) kind (some payload) (some token) rows in
        let after = perform_undo link kinds later (pos user) token (offered.0, d) in
        (offered.1 ≡ token) × (after.1 ≡ undone kind) × (after.0.1 ≡ d')
  unfolding record_undo perform_undo claim reverse settle
  perform-record link now later user kind payload token handler rows d d' on runs filled new member
        in_time known went =
      let m = positive-pos user member in
      let action : UndoAction P = record {
        user_id = user;
        kind = kind;
        payload = payload;
        expires_at = now + undo_window;
        used = false;
      } in
      let open_now : claimable later user action ≡ true = ground (arith, beq_refl user) in
      rw
        (
          m,
          on,
          runs,
          new,
          beq_ne token "" filled,
          lookup-insert token token action rows,
          beq_refl token,
          open_now,
          known,
          went,
        )
        (refl, refl, refl)
