-- ===== src/Prelude/Decimal.antt =====
-- Decimal printing of a number, as strconv.FormatInt and fmt's %d do it.
use Prim.Native.Nat.{ℕ, zero, suc, ◌+◌, ◌-◌, ◌*◌, ◌/◌, ◌%◌, ◌≤◌}
use mathlib.Core.Path.{◌≡◌, refl, sym, ap, ◌∙◌}
use mathlib.Core.Logic.{inl, inr}
use mathlib.Core.List.{[], ◌∷◌}
use native.Mathlib.Omega.{arith}
use loon_site.Prelude.Tests.{nat_beq, if◌then◌else◌, Bool-cases}
use loon_site.Prelude.Bytes.{Bytes}

-- The digits of a positive number in front of `out`; the fuel is at least the number.
digits : ℕ → ℕ → Bytes → Bytes
digits zero n out = out
digits (suc fuel) n out =
    let rest = digits fuel (n / 10) ((b'0' + n % 10) ∷ out) in if nat_beq n 0 then out else rest

unfoldable pub format : ℕ → Bytes
unfolding digits
format n = if nat_beq n 0 then b'0' ∷ [] else digits n n []

-- The number that digits spell behind `n`.
pub value : ℕ → Bytes → ℕ
value n [] = n
value n (c ∷ s) = value (n * 10 + (c - b'0')) s

value-digits : (fuel n : ℕ) (out : Bytes) → n ≤ fuel → value 0 (digits fuel n out) ≡ value n out
unfolding digits value
value-digits zero n out h = ap (λ k. value k out) (omega arith)
value-digits (suc fuel) n out h = elim (Bool-cases (nat_beq n 0)) [
  | inl nil ↦ rw nil (ap (λ k. value k out) (ground arith))
  | inr more ↦ rw more (
      value-digits fuel (n / 10) ((b'0' + n % 10) ∷ out) (ground arith)
      ∙ ap (λ k. value k out) (omega arith))
]

pub value-format : (n : ℕ) → value 0 (format n) ≡ n
unfolding format
value-format n = elim (Bool-cases (nat_beq n 0)) [
  | inl nil ↦ rw nil (unfold value in ground arith)
  | inr more ↦ rw more (value-digits n n [] (omega arith) ∙ unfold value in refl)
]

-- Two numbers that are printed alike are one.
pub format_injective : (m n : ℕ) → format m ≡ format n → m ≡ n
format_injective m n e = sym (value-format m) ∙ ap (value 0) e ∙ value-format n
