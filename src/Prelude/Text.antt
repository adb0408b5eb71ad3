-- ===== src/Prelude/Text.antt =====
-- What Go's package strings does to a list of code points.
use Prim.Native.Nat.{ℕ}
use mathlib.Core.Bool.{Bool, true, false, ◌&&◌}
use mathlib.Core.List.{[], ◌∷◌}
use loon_site.Prelude.Tests.{if◌then◌else◌, ◌==◌, nat_eq, ltb}
use loon_site.Prelude.Bytes.{Bytes}

-- A text without the spaces at its front, and at its end.
abbrev pub trim_left : (ℕ → Bool) → Bytes → Bytes
trim_left space [] = []
trim_left space (c ∷ s) = let rest = trim_left space s in if space c then rest else c ∷ s

abbrev pub push_left : (ℕ → Bool) → ℕ → Bytes → Bytes
push_left space c [] = if space c then [] else c ∷ []
push_left space c (d ∷ s) = c ∷ d ∷ s

abbrev pub trim_right : (ℕ → Bool) → Bytes → Bytes
trim_right space [] = []
trim_right space (c ∷ s) = push_left space c (trim_right space s)

-- `strings.TrimSpace`, at the spaces of Unicode.
unfoldable pub trim_space : (ℕ → Bool) → Bytes → Bytes
trim_space space s = trim_right space (trim_left space s)

-- `strings.HasPrefix`
abbrev pub starts_with : Bytes → Bytes → Bool
starts_with [] s = true
starts_with (p ∷ prefix) [] = false
starts_with (p ∷ prefix) (c ∷ s) = c == p && starts_with prefix s

-- `a < b` on strings.
unfoldable pub bytes_lt : Bytes → Bytes → Bool
bytes_lt a [] = false
bytes_lt [] (d ∷ b) = true
bytes_lt (c ∷ a) (d ∷ b) = let rest = bytes_lt a b in if c == d then rest else ltb c d
