-- ===== src/Prelude/Int.antt =====
-- Integers over the native numbers, for the numbers in a token's claims.
use Prim.Native.Nat.{ℕ, suc, ◌+◌, ◌≤◌, ◌<◌}
use mathlib.Core.Path.{◌≡◌}
use mathlib.Core.Bool.{Bool, true}
use native.Mathlib.Omega.{arith}
use mathlib.Core.Logic.{◌↔◌}
use user_service_platform.Prelude.Tests.{leb}

-- `negsuc n` is -(n + 1).
pub data ℤ : Type 0 where
  pos : ℕ → ℤ
  negsuc : ℕ → ℤ

abbrev pub pos_part : ℤ → ℕ
pos_part (pos n) = n
pos_part (negsuc n) = 0

abbrev pub neg_part : ℤ → ℕ
neg_part (pos n) = 0
neg_part (negsuc n) = suc n

infix 50 ◌≤ℤ◌
abbrev pub ◌≤ℤ◌ : ℤ → ℤ → Type 0
a ≤ℤ b = pos_part a + neg_part b ≤ pos_part b + neg_part a

infix 50 ◌<ℤ◌
abbrev pub ◌<ℤ◌ : ℤ → ℤ → Type 0
a <ℤ b = pos_part a + neg_part b < pos_part b + neg_part a

-- a + x ≤ b + y, for x and y natural: the comparisons with a tolerance, kept on one side each.
abbrev pub le_shifted : ℤ → ℕ → ℤ → ℕ → Bool
le_shifted a x b y = leb (pos_part a + x + neg_part b) (pos_part b + y + neg_part a)

pub le_shifted_iff : (a b : ℤ) → (le_shifted a 0 b 0 ≡ true) ↔ (a ≤ℤ b)
le_shifted_iff a b = ground arith
