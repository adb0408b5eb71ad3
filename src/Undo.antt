-- ===== src/Undo.antt =====
-- web/handlers/undo_web.go: destructive actions that can be taken back once, for a while. The
-- table undo_actions is a map from tokens to its rows; each statement on it runs in one piece. The
-- rest of the database, the payloads and the code that reverses a kind are parameters: a reversal
-- returns the database and whether it went through. Times are in seconds.
pub mod Steps
pub mod Once
pub mod Offer
mod Tests
use loon_site.Prelude.{
  ℕ, ◌+◌, ◌*◌, ◌≡◌, Bool, true, false, ◌&&◌, ◌||◌, not, Option, none, some, List, [], ◌∷◌, ◌++◌,
  String, ltb, leb, ◌==◌, nat_eq, string_eq, if◌then◌else◌, lookup, insert, keep, any, length,
}
use loon_site.Prelude.Int.{ℤ, pos, positive?}
use loon_site.Prelude.Bytes.{Bytes}

-- A row: `used` is whether `used_at` is set.
pub record UndoAction (P : Type 0) : Type 0 where
  pub user_id : ℕ
  pub kind : String
  pub payload : P
  pub expires_at : ℕ
  pub used : Bool

abbrev pub UndoTable : Type 0 → Type 0
UndoTable P = List (String × UndoAction P)

-- `undoWindow`
abbrev pub undo_window : ℕ
undo_window = 900

-- What a call meets: whether there is a database, whether its first statement goes through, and
-- whether the one that hands a token back does.
pub record Link : Type 0 where
  pub connected : Bool
  pub runs : Bool
  pub hands_back : Bool

pub data Undone : Type 0 where
  gone unknown_kind refused : Undone
  undone : String → Undone

module _ {P : Type 0} where
  -- The row that `INSERT` adds, none on a conflict of tokens.
  add_action : String → UndoAction P → Option (UndoAction P) → UndoTable P → UndoTable P × String
  add_action token a (some taken) rows = (rows, "")
  add_action token a none rows = (insert token a rows, token)

  offer :
      Link → ℕ → Option ℕ → String → Option P → Option String → UndoTable P → UndoTable P × String
  unfolding add_action
  offer link now (some user) kind (some payload) (some token) rows =
      if link.connected && link.runs
      then add_action token
          (record {
            user_id = user;
            kind = kind;
            payload = payload;
            expires_at = now + undo_window;
            used = false;
          })
          (lookup token rows) rows
      else (rows, "")
  offer link now (some user) kind (some payload) none rows = (rows, "")
  offer link now (some user) kind none token rows = (rows, "")
  offer link now none kind payload token rows = (rows, "")

  -- `recordUndo`: the token to offer, empty when there is none. The payload is none when it cannot
  -- be encoded, the drawn token when there is no randomness.
  unfoldable pub record_undo :
      Link → ℕ → ℤ → String → Option P → Option String → UndoTable P → UndoTable P × String
  unfolding offer
  record_undo link now user kind payload token rows =
      offer link now (positive? user) kind payload token rows

  -- `token = $1 AND user_id = $2 AND used_at IS NULL AND expires_at > now()`
  abbrev pub claimable : ℕ → ℕ → UndoAction P → Bool
  claimable now user a = (a.user_id == user) && (not a.used && ltb now a.expires_at)

  claim_row : ℕ → ℕ → Option (UndoAction P) → Option (UndoAction P)
  claim_row now user none = none
  claim_row now user (some a) = if claimable now user a then some a else none

  -- The row that the claim returns.
  unfoldable pub claim : ℕ → ℕ → String → UndoTable P → Option (UndoAction P)
  unfolding claim_row
  claim now user token rows = claim_row now user (lookup token rows)

  -- `expires_at < now() - interval '1 day'`
  abbrev pub is_outdated : ℕ → String × UndoAction P → Bool
  is_outdated now (token, a) = ltb (a.expires_at + 86400) now

  -- `purgeUndo`: the rows that are left.
  unfoldable pub purge_undo : Link → ℕ → UndoTable P → UndoTable P
  purge_undo link now rows =
      if link.connected && link.runs then keep (λ e. not (is_outdated now e)) rows else rows

-- The code that reverses a kind.
abbrev pub Reversal : Type 0 → Type 0 → Type 0
Reversal P D = ℕ → P → D → D × Bool

module _ {P D : Type 0} where
  -- After the handler: a token that was not used up is handed back.
  unfoldable pub settle :
      Link → String → UndoAction P → D × Bool → UndoTable P → (UndoTable P × D) × Undone
  settle link token a (d, true) rows =
      ((insert token (record a { used = true }) rows, d), undone a.kind)
  settle link token a (d, false) rows =
      ((insert token (record a { used = not link.hands_back }) rows, d), refused)

  unfoldable pub reverse :
      Link
      → String
      → ℕ
      → UndoAction P
      → Option (Reversal P D)
      → UndoTable P × D
      → (UndoTable P × D) × Undone
  unfolding settle
  reverse link token user a none (rows, d) =
      ((insert token (record a { used = true }) rows, d), unknown_kind)
  reverse link token user a (some handler) (rows, d) =
      settle link token a (handler user a.payload d) rows

  perform :
      Link
      → List (String × Reversal P D)
      → ℕ
      → String
      → Option (UndoAction P)
      → UndoTable P × D
      → (UndoTable P × D) × Undone
  unfolding reverse
  perform link kinds user token none s = (s, gone)
  perform link kinds user token (some a) s =
      if link.runs then reverse link token user a (lookup a.kind kinds) s else (s, gone)

  perform_as :
      Link
      → List (String × Reversal P D)
      → ℕ
      → Option ℕ
      → String
      → UndoTable P × D
      → (UndoTable P × D) × Undone
  unfolding perform
  perform_as link kinds now none token s = (s, gone)
  perform_as link kinds now (some user) token s =
      if link.connected && not (token == "")
      then perform link kinds user token (claim now user token s.0) s
      else (s, gone)

  -- `performUndo`
  unfoldable pub perform_undo :
      Link
      → List (String × Reversal P D)
      → ℕ
      → ℤ
      → String
      → UndoTable P × D
      → (UndoTable P × D) × Undone
  unfolding perform_as
  perform_undo link kinds now user token s = perform_as link kinds now (positive? user) token s

-- `containsByte`
abbrev pub contains_byte : ℕ → Bytes → Bool
contains_byte b [] = false
contains_byte b (c ∷ s) = if c == b then true else contains_byte b s

-- Where a page is left for: `back` in `undoPost`, a path of this site.
abbrev pub back_to : Bytes → Bytes
back_to [] = b'/' ∷ []
back_to (c ∷ []) = b'/' ∷ []
back_to (c ∷ d ∷ s) = if not (c == b'/') || d == b'/' then b'/' ∷ [] else c ∷ d ∷ s

-- The separator and the answer that are put behind it.
unfoldable pub undone_url : Bytes → Bytes → Bytes
undone_url next answer =
    back_to next ++ (if contains_byte b'?' (back_to next) then b'&' else b'?') ∷ answer
