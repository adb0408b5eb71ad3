-- ===== src/Invites/Granter.antt =====
-- GrantInvites of web/handlers/invites_web.go: the invites that a member buys in the store. The
-- amount is an int; a database error is left out.
use loon_site.Prelude.{
  ℕ, ◌+◌, Option, none, some, ◌++◌, ◌==◌, nat_eq, if◌then◌else◌, lookup, insert,
}
use loon_site.Prelude.Int.{ℤ, positive?}
use loon_site.Prelude.Bytes.{Bytes, codes}
use loon_site.Prelude.Balances.{Balances}
use loon_site.Prelude.Decimal.{format}

-- The receipt.
unfoldable pub granted_label : ℕ → Bytes
granted_label n = if n == 1 then codes "1 invite" else format n ++ codes " invites"

-- `UPDATE users SET invites = invites + $2 WHERE id = $1`; no row is an error.
unfoldable pub grant_to : ℕ → ℕ → Option ℕ → Balances → Balances × Option Bytes
unfolding granted_label
grant_to user n none invites = (invites, none)
grant_to user n (some b) invites = (insert user (b + n) invites, some (granted_label n))

unfoldable pub grant_amount : ℕ → Option ℕ → Balances → Balances × Option Bytes
unfolding grant_to
grant_amount user none invites = (invites, none)
grant_amount user (some n) invites = grant_to user n (lookup user invites) invites

-- `GrantInvites`: the receipt, or none for an error.
unfoldable pub grant_invites : ℕ → ℤ → Balances → Balances × Option Bytes
unfolding grant_amount
grant_invites user n invites = grant_amount user (positive? n) invites
