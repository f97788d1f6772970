-- ===== src/Base/Int.antt =====
-- Signed integers over the native numbers, and the conversions between the C++ integer types.
use Prim.Native.Nat.{ℕ, zero, suc, ◌+◌, ◌-◌, ◌%◌, ◌^◌, ◌≤◌, ◌<◌}
use mathlib.Core.Path.{◌≡◌}
use mathlib.Core.Bool.{Bool, false, ◌&&◌}
use native.Mathlib.Omega.{arith}
use mtdd_server.Base.Tests.{ltb, leb, if◌then◌else◌}

-- `negsuc n` is -(n + 1).
pub data ℤ : Type 0 where
  pos : ℕ → ℤ
  negsuc : ℕ → ℤ

-- -n
abbrev pub neg : ℕ → ℤ
neg n = if ltb 0 n then negsuc (n - 1) else pos 0

abbrev pub pos_part : ℤ → ℕ
pos_part (pos n) = n
pos_part (negsuc n) = 0

abbrev pub neg_part : ℤ → ℕ
neg_part (pos n) = 0
neg_part (negsuc n) = suc n

infix 50 ◌≤ℤ◌
abbrev pub ◌≤ℤ◌ : ℤ → ℤ → Type 0
a ≤ℤ b = pos_part a + neg_part b ≤ pos_part b + neg_part a

abbrev pub ltb_ℤ : ℤ → ℤ → Bool
ltb_ℤ a b = ltb (pos_part a + neg_part b) (pos_part b + neg_part a)

abbrev pub equal_ℤ : ℤ → ℤ → Bool
equal_ℤ (pos a) (pos b) = leb a b && leb b a
equal_ℤ (negsuc a) (negsuc b) = leb a b && leb b a
equal_ℤ _ _ = false

-- 0 < a
abbrev pub is_positive : ℤ → Bool
is_positive (pos n) = ltb 0 n
is_positive (negsuc n) = false

-- The number that a pattern of 32 bits stands for as an `int`.
abbrev pub signed32 : ℕ → ℤ
signed32 w = if ltb w (2 ^ 31) then pos w else negsuc (2 ^ 32 - w - 1)

-- static_cast<int>(x) of a wider integer: its low 32 bits, read as an `int`.
unfoldable pub int_cast : ℤ → ℤ
int_cast (pos n) = signed32 (n % 2 ^ 32)
int_cast (negsuc n) = signed32 (2 ^ 32 - 1 - n % 2 ^ 32)

-- static_cast<uint32_t>(x) of an `int`.
abbrev pub uint32_cast : ℤ → ℕ
uint32_cast (pos n) = n % 2 ^ 32
uint32_cast (negsuc n) = 2 ^ 32 - 1 - n % 2 ^ 32

-- A value that an `int` can hold is kept.
pub int_cast_small : (n : ℕ) → n < 2 ^ 31 → int_cast (pos n) ≡ pos n
unfolding int_cast
int_cast_small n h = ground arith

-- n + 1 and n - 1.
abbrev pub increment : ℤ → ℤ
increment (pos n) = pos (suc n)
increment (negsuc zero) = pos 0
increment (negsuc (suc n)) = negsuc n

abbrev pub decrement : ℤ → ℤ
decrement (pos zero) = negsuc 0
decrement (pos (suc n)) = pos n
decrement (negsuc n) = negsuc (suc n)
