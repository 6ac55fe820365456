-- ===== src/Prelude/Integers.antt =====
-- Integers over the native numbers: pos n is n, and negsuc n is -(n + 1).
use Prim.Native.Nat.{ℕ, zero, suc, ◌-◌}
use mathlib.Core.Path.{◌≡◌}
use native.Mathlib.Omega.{arith}
use ancestral_property_serve.Prelude.Tests.{leb, if◌then◌else◌}

pub data ℤ : Type 0 where
  pos negsuc : ℕ → ℤ

unfoldable pub sucℤ : ℤ → ℤ
sucℤ (ℤ.pos n) = ℤ.pos (suc n)
sucℤ (ℤ.negsuc zero) = ℤ.pos 0
sucℤ (ℤ.negsuc (suc n)) = ℤ.negsuc n

unfoldable pub predℤ : ℤ → ℤ
predℤ (ℤ.pos zero) = ℤ.negsuc 0
predℤ (ℤ.pos (suc n)) = ℤ.pos n
predℤ (ℤ.negsuc n) = ℤ.negsuc (suc n)

-- The difference of two natural numbers.
infix 60 ◌⊖◌
unfoldable pub ◌⊖◌ : ℕ → ℕ → ℤ
a ⊖ b = if leb b a then ℤ.pos (a - b) else ℤ.negsuc (b - a - 1)

pub sucℤ-⊖ : (a b : ℕ) → sucℤ (a ⊖ b) ≡ suc a ⊖ b
unfolding sucℤ ◌⊖◌
sucℤ-⊖ a b = ground arith

pub predℤ-⊖ : (a b : ℕ) → predℤ (a ⊖ b) ≡ a ⊖ suc b
unfolding predℤ ◌⊖◌
predℤ-⊖ a b = ground arith

pub suc⊖suc : (a b : ℕ) → suc a ⊖ suc b ≡ a ⊖ b
unfolding ◌⊖◌
suc⊖suc a b = ground arith

pub ⊖-zero : (a : ℕ) → a ⊖ 0 ≡ ℤ.pos a
unfolding ◌⊖◌
⊖-zero a = ground arith
