-- ===== src/Invites.antt =====
-- internal/storage/invites.go: invite codes. The table invite_codes is the list of its rows in the
-- order of insertion, and the column users.invites a number for each member; each SQL statement
-- and the transaction of MintInviteCode runs in one piece. Texts are lists of code points. The
-- spaces of Unicode, `unicode.ToUpper`, `unicode.ToLower` and SQL's `upper` are parameters. A
-- member's id that the code tests with `<= 0` is 0. Times are in seconds.
pub mod Granter
pub mod Calls
pub mod Once
pub mod Valid
pub mod Budget
pub mod Chain
mod Tests
use loon_site.Prelude.{
  ℕ, suc, ◌+◌, ◌-◌, Bool, true, false, ◌&&◌, ◌||◌, not, Option, none, some, List, [], ◌∷◌, ◌++◌,
  map, ltb, leb, ◌==◌, nat_eq, if◌then◌else◌, lookup, insert, keep, any, count_if, length,
}
use loon_site.Prelude.Bytes.{Bytes, bytes_eq}
use loon_site.Prelude.Text.{trim_space}
use loon_site.Prelude.Rows.{update_where, first_where}
use loon_site.Prelude.Balances.{Balances}

pub record InviteCode : Type 0 where
  pub code : Bytes
  pub created_by : ℕ
  pub expires_at : ℕ
  pub email : Bytes
  pub message : Bytes
  pub used_by : Option ℕ
  pub used_at : Option ℕ
  pub revoked_by : Option ℕ
  pub sent : Bool
  pub is_deleted : Bool

abbrev pub Codes : Type 0
Codes = List InviteCode

pub record InviteStore : Type 0 where
  pub rows : Codes
  pub invites : Balances

-- What the code folds and tests characters with.
pub record Alphabet : Type 0 where
  pub is_space : ℕ → Bool
  pub to_upper : ℕ → ℕ
  pub to_lower : ℕ → ℕ
  pub sql_upper : ℕ → ℕ

abbrev pub is_set : {A : Type 0} → Option A → Bool
is_set none = false
is_set (some a) = true

abbrev pub not_dash : ℕ → Bool
not_dash c = not (c == b'-')

pub data Reason : Type 0 where
  no_reason used revoked expired : Reason

pub record InviteLookup : Type 0 where
  pub found : Bool
  pub email : Bytes
  pub reason : Reason

abbrev pub not_found : InviteLookup
not_found = record { found = false; email = []; reason = no_reason }

-- `used_by IS NULL AND revoked_at IS NULL AND expires_at > now()`
unfoldable pub is_open : ℕ → InviteCode → Bool
is_open now r = not (is_set r.used_by) && (not (is_set r.revoked_by) && ltb now r.expires_at)

-- The switch of `LookupInviteCode`.
unfoldable pub reason_of : ℕ → InviteCode → Reason
reason_of now r =
    if is_set r.used_by
    then used
    else if is_set r.revoked_by
    then revoked
    else if leb r.expires_at now
    then expired
    else no_reason

abbrev pub lookup_of : ℕ → Option InviteCode → InviteLookup
lookup_of now none = not_found
lookup_of now (some r) = record { found = true; email = r.email; reason = reason_of now r }

abbrev pub has_no_reason : Reason → Bool
has_no_reason no_reason = true
has_no_reason used = false
has_no_reason revoked = false
has_no_reason expired = false

-- An update that reports whether it changed exactly one row.
unfoldable pub update_one : (InviteCode → Bool) → (InviteCode → InviteCode) → Codes → Codes × Bool
unfolding update_where
update_one p f rows = (update_where p f rows, count_if p rows == 1)

unfoldable pub insert_code : InviteCode → Codes → Option Codes
insert_code r rows = if any (λ s. s.code == r.code) rows then none else some (rows ++ r ∷ [])

-- What a mint comes to: `(true, nil)`, `(false, nil)` and an error.
pub data Mint : Type 0 where
  issued none_left failed : Mint

charge : ℕ → ℕ → InviteCode → InviteStore → InviteStore × Mint
charge user balance r st = elim (insert_code r st.rows) [
  | none ↦ (st, failed)
  | some rows ↦ (record { rows = rows; invites = insert user (balance - 1) st.invites }, issued)
]

charge_if : ℕ → Option ℕ → InviteCode → InviteStore → InviteStore × Mint
unfolding charge
charge_if user none r st = (st, none_left)
charge_if user (some balance) r st =
    if ltb 0 balance then charge user balance r st else (st, none_left)

mint_free : InviteCode → Codes → Codes × Bool
mint_free r rows = elim (insert_code r rows) [ none ↦ (rows, false) | some rows' ↦ (rows', true) ]

module _ (text : Alphabet) where
  -- `NormaliseInviteCode`
  unfoldable pub normalise_invite_code : Bytes → Bytes
  normalise_invite_code s = map text.to_upper (keep not_dash (trim_space text.is_space s))

  -- `NormaliseEmail`
  unfoldable pub normalise_email : Bytes → Bytes
  normalise_email s = map text.to_lower (trim_space text.is_space s)

  -- `replace(upper(code), '-', '')`
  unfoldable pub sql_key : Bytes → Bytes
  sql_key code = keep not_dash (map text.sql_upper code)

  -- `WHERE replace(upper(code), '-', '') = $1`
  unfoldable pub is_code : Bytes → InviteCode → Bool
  is_code code r = sql_key r.code == normalise_invite_code code

  unfoldable pub lookup_invite_code : ℕ → Bytes → Codes → InviteLookup
  lookup_invite_code now code rows =
      if code == [] then not_found else lookup_of now (first_where (is_code code) rows)

  unfoldable pub invite_code_valid : ℕ → Bytes → Codes → Bool
  unfolding lookup_invite_code
  invite_code_valid now code rows =
      let l = lookup_invite_code now code rows in l.found && has_no_reason l.reason

  abbrev pub redeemable : ℕ → Bytes → InviteCode → Bool
  redeemable now code r = is_code code r && is_open now r

  abbrev pub redeemed : ℕ → ℕ → InviteCode → InviteCode
  redeemed now user r = record r { used_by = some user; used_at = some now }

  -- `RedeemInviteCode`
  unfoldable pub redeem_invite_code : ℕ → Bytes → ℕ → Codes → Codes × Bool
  redeem_invite_code now code user rows =
      if code == [] || user == 0
      then (rows, false)
      else update_one (redeemable now code) (redeemed now user) rows

  -- `AND ($3 = 0 OR created_by = $3)`, with 0 for staff.
  abbrev pub revocable : Bytes → ℕ → InviteCode → Bool
  revocable code owner r =
      is_code code r
      && (not (is_set r.used_by)
          && (not (is_set r.revoked_by) && (owner == 0 || r.created_by == owner)))

  abbrev pub revoked_row : ℕ → InviteCode → InviteCode
  revoked_row user r = record r { revoked_by = some user }

  -- `RevokeInviteCode`
  unfoldable pub revoke_invite_code : Bytes → ℕ → Bool → Codes → Codes × Bool
  revoke_invite_code code user staff_override rows =
      if code == [] || user == 0
      then (rows, false)
      else update_one (revocable code (if staff_override then 0 else user)) (revoked_row user) rows

  abbrev pub deletable : Bytes → ℕ → InviteCode → Bool
  deletable code owner r = is_code code r && (r.created_by == owner && not r.is_deleted)

  -- `SoftDeleteInviteCode`
  unfoldable pub soft_delete_invite_code : Bytes → ℕ → Codes → Codes × Bool
  soft_delete_invite_code code owner rows =
      if code == [] || owner == 0
      then (rows, false)
      else update_one (deletable code owner) (λ r. record r { is_deleted = true }) rows

  -- `MarkInviteSent`
  unfoldable pub mark_invite_sent : Bytes → Codes → Codes
  unfolding update_where
  mark_invite_sent code rows = update_where (is_code code) (λ r. record r { sent = true }) rows

  -- `INSERT INTO invite_codes`, which fails when the primary key is taken.
  abbrev pub minted : Bytes → ℕ → ℕ → Bytes → Bytes → InviteCode
  minted code user expires email message = record {
    code = code;
    created_by = user;
    expires_at = expires;
    email = normalise_email email;
    message = trim_space text.is_space message;
    used_by = none;
    used_at = none;
    revoked_by = none;
    sent = false;
    is_deleted = false;
  }

  -- `MintInviteCode`: the transaction is rolled back when a part fails.
  unfoldable pub mint_invite_code :
      ℕ → ℕ → Bytes → ℕ → Bytes → Bytes → InviteStore → InviteStore × Mint
  unfolding charge_if insert_code
  mint_invite_code now user code ttl email message st =
      charge_if user (lookup user st.invites) (minted code user (now + ttl) email message) st

  -- `MintInviteUncharged`, and whether it went through.
  unfoldable pub mint_invite_uncharged : ℕ → ℕ → Bytes → ℕ → Bytes → Bytes → Codes → Codes × Bool
  unfolding mint_free insert_code
  mint_invite_uncharged now created_by code ttl email message rows =
      if code == []
      then (rows, false)
      else mint_free (minted code created_by (now + ttl) email message) rows

  -- `InviteEmailPending`
  unfoldable pub invite_email_pending : ℕ → Bytes → Codes → Bool
  invite_email_pending now email rows =
      if normalise_email email == []
      then false
      else ltb 0 (count_if (λ r. r.email == normalise_email email && is_open now r) rows)

refund_to : ℕ → Option ℕ → Balances → Balances
refund_to user none invites = invites
refund_to user (some n) invites = insert user (n + 1) invites

-- `RefundInvite`
unfoldable pub refund_invite : ℕ → Balances → Balances
unfolding refund_to
refund_invite user invites =
    if user == 0 then invites else refund_to user (lookup user invites) invites

-- `PendingInviteCount`
unfoldable pub pending_invite_count : ℕ → ℕ → Codes → ℕ
pending_invite_count now user rows = count_if (λ r. r.created_by == user && is_open now r) rows

-- The rows that `ListInviteCodes` shows, before its limit of 50.
unfoldable pub listed : ℕ → Codes → Codes
listed user rows = keep (λ r. r.created_by == user && not r.is_deleted) rows

-- `InviteCodeRow.Pending`, of the flags that `ListInviteCodes` reads.
unfoldable pub is_pending : ℕ → InviteCode → Bool
is_pending now r =
    not (is_set r.used_by)
    && (not (is_set r.revoked_by)
        && not (not (is_set r.used_by) && (not (is_set r.revoked_by) && leb r.expires_at now)))
