-- ===== src/Prelude/Int.antt =====
-- Signed integers over the native numbers: balances and amounts may be negative in the program.
use Prim.Native.Nat.{ℕ, suc, ◌+◌, ◌-◌}
use mathlib.Core.Path.{◌≡◌}
use mathlib.Core.Bool.{Bool, false, ◌&&◌}
use native.Mathlib.Omega.{arith}
use cashblocks.Prelude.Tests.{ltb, leb, if◌then◌else◌}

-- `negsuc n` stands for -(n + 1).
pub data ℤ : Type 0 where
  pos : ℕ → ℤ
  negsuc : ℕ → ℤ

abbrev pub pos_part : ℤ → ℕ
pos_part (pos n) = n
pos_part (negsuc n) = 0

abbrev pub neg_part : ℤ → ℕ
neg_part (pos n) = 0
neg_part (negsuc n) = suc n

-- The integer that is `m - n`.
abbrev pub sub_ℕ : ℕ → ℕ → ℤ
sub_ℕ m n = if leb n m then pos (m - n) else negsuc (n - m - 1)

infixl 65 ◌+ℤ◌ ◌-ℤ◌
unfoldable pub ◌+ℤ◌ : ℤ → ℤ → ℤ
x +ℤ y = sub_ℕ (pos_part x + pos_part y) (neg_part x + neg_part y)

unfoldable pub ◌-ℤ◌ : ℤ → ℤ → ℤ
x -ℤ y = sub_ℕ (pos_part x + neg_part y) (neg_part x + pos_part y)

abbrev pub ltb_ℤ : ℤ → ℤ → Bool
ltb_ℤ x y = ltb (pos_part x + neg_part y) (pos_part y + neg_part x)

abbrev pub eqb_ℤ : ℤ → ℤ → Bool
eqb_ℤ (pos m) (pos n) = leb m n && leb n m
eqb_ℤ (negsuc m) (negsuc n) = leb m n && leb n m
eqb_ℤ _ _ = false

pub sub_add_cancel : (x y : ℤ) → x -ℤ y +ℤ y ≡ x
unfolding ◌+ℤ◌ ◌-ℤ◌
sub_add_cancel x y = ground arith

pub add_sub_cancel : (x y : ℤ) → x +ℤ y -ℤ y ≡ x
unfolding ◌+ℤ◌ ◌-ℤ◌
add_sub_cancel x y = ground arith
