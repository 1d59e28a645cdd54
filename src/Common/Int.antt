-- ===== src/Common/Int.antt =====
-- Signed integers over the native numbers: `negsuc n` is -(n + 1).
use Prim.Native.Nat.{ℕ, suc, ◌+◌, ◌-◌, ◌%◌, ◌^◌}
use hyperliquid_sdk_cpp.Common.Tests.{leb, if◌then◌else◌}

pub data ℤ : Type 0 where
  pos : ℕ → ℤ
  negsuc : ℕ → ℤ

abbrev pub pos_part : ℤ → ℕ
pos_part (pos n) = n
pos_part (negsuc n) = 0

abbrev pub neg_part : ℤ → ℕ
neg_part (pos n) = 0
neg_part (negsuc n) = suc n

abbrev pub sub_ℕ : ℕ → ℕ → ℤ
sub_ℕ a b = if leb b a then pos (a - b) else negsuc (b - a - 1)

infixl 65 ◌+ℤ◌
unfoldable pub ◌+ℤ◌ : ℤ → ℤ → ℤ
a +ℤ b = sub_ℕ (pos_part a + pos_part b) (neg_part a + neg_part b)

-- `static_cast<uint64_t>` of a `long long`: the value modulo 2^64.
unfoldable pub to_u64 : ℤ → ℕ
to_u64 (pos n) = n % 2 ^ 64
to_u64 (negsuc n) = (2 ^ 64 - 1) - n % 2 ^ 64

-- The low 32 bits, in two's complement.
bits32 : ℤ → ℕ
bits32 (pos n) = n % 2 ^ 32
bits32 (negsuc n) = (2 ^ 32 - 1) - n % 2 ^ 32

-- `static_cast<int>` of an `int64_t`: the value modulo 2^32, from -2^31 on.
unfoldable pub to_i32 : ℤ → ℤ
unfolding bits32
to_i32 z = if leb (2 ^ 31) (bits32 z) then negsuc (2 ^ 32 - 1 - bits32 z) else pos (bits32 z)
