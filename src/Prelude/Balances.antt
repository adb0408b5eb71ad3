-- ===== src/Prelude/Balances.antt =====
-- Tables of one number for each key, such as a column of `users`, and the sum of the column.
use Prim.Native.Nat.{ℕ, ◌+◌}
use mathlib.Core.Path.{◌≡◌}
use mathlib.Core.Option.{some}
use mathlib.Core.List.{List, [], ◌∷◌}
use native.Mathlib.Omega.{arith}
use loon_site.Prelude.Tests.{nat_eq}
use loon_site.Prelude.Maps.{lookup, insert}

abbrev pub Balances : Type 0
Balances = List (ℕ × ℕ)

abbrev pub total : Balances → ℕ
total [] = 0
total ((k, v) ∷ b) = v + total b

pub total-insert :
    (k v old : ℕ) (b : Balances) → lookup k b ≡ some old → total (insert k v b) + old ≡ total b + v
unfolding lookup insert
total-insert k v old [] e = cc
total-insert k v old ((j, w) ∷ b) e = ground (arith, total-insert k v old b)
