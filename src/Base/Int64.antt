-- ===== src/Base/Int64.antt =====
-- Go's `int64`: two's complement values as integers, with the wrap-around of its arithmetic.
use Prim.Native.Nat.{ℕ, ◌-◌, ◌%◌, ◌^◌, ◌≤◌, ◌<◌}
use mathlib.Core.Path.{◌≡◌, refl}
use native.Mathlib.Omega.{arith}
use textile_erp_cloud.Base.Tests.{ltb, if◌then◌else◌}
use textile_erp_cloud.Base.Int.{ℤ, pos, negsuc, pos_part, neg_part, ◌+ℤ◌, ◌-ℤ◌, ◌≤ℤ◌, neg}

-- The values of an `int64`.
abbrev pub InInt64 : ℤ → Type 0
InInt64 a = (pos_part a < 2 ^ 63) × (neg_part a ≤ 2 ^ 63)

-- The integer that a 64-bit pattern stands for.
signed64 : ℕ → ℤ
signed64 m = if ltb m (2 ^ 63) then pos m else negsuc (2 ^ 64 - 1 - m)

-- The value modulo 2^64 in the range of an `int64`.
unfoldable pub wrap64 : ℤ → ℤ
unfolding signed64
wrap64 (pos n) = signed64 (n % 2 ^ 64)
wrap64 (negsuc n) = signed64 (2 ^ 64 - 1 - n % 2 ^ 64)

infixl 65 ◌+₆₄◌ ◌-₆₄◌
abbrev pub ◌+₆₄◌ : ℤ → ℤ → ℤ
a +₆₄ b = wrap64 (a +ℤ b)

abbrev pub ◌-₆₄◌ : ℤ → ℤ → ℤ
a -₆₄ b = wrap64 (a -ℤ b)

abbrev pub neg64 : ℤ → ℤ
neg64 a = wrap64 (neg a)

pub wrap64-InInt64 : (a : ℤ) → InInt64 (wrap64 a)
unfolding wrap64
wrap64-InInt64 (pos n) = ground arith
wrap64-InInt64 (negsuc n) = ground arith

-- In range nothing wraps.
pub wrap64-eq : (a : ℤ) → InInt64 a → wrap64 a ≡ a
unfolding wrap64
wrap64-eq (pos n) h = ground arith
wrap64-eq (negsuc n) h = ground arith

pub sub-InInt64 : (a b : ℤ) → InInt64 a → pos 0 ≤ℤ b → b ≤ℤ a → InInt64 (a -ℤ b)
unfolding ◌-ℤ◌
sub-InInt64 a b r h k = ground arith

pub InInt64-below : (a b : ℤ) → pos 0 ≤ℤ a → a ≤ℤ b → InInt64 b → InInt64 a
InInt64-below a b h k r = ground arith

pub neg-InInt64 : (a : ℤ) → InInt64 a → pos 0 ≤ℤ a → InInt64 (neg a)
unfolding neg
neg-InInt64 a r h = ground arith

wraps : wrap64 (pos (2 ^ 63)) ≡ negsuc (2 ^ 63 - 1)
unfolding wrap64
wraps = refl
