-- ===== src/Signing/Encoding/Laws.antt =====
-- The value that `encodeUint256` writes, and the length of both encodings.
use hyperliquid_sdk_cpp.Common.{
  ℕ, ◌^◌, ◌<◌, List, ◌++◌, ◌≡◌, refl, arith, All, All-append, length, length-append, replicate,
  ◌==◌, Bool-cases, inl, inr, if◌then◌else◌,
}
use hyperliquid_sdk_cpp.Signing.Hex.Value.{be_from}
use hyperliquid_sdk_cpp.Signing.Hex.RoundTrip.{IsByte}
use hyperliquid_sdk_cpp.Signing.Encoding.{encode_uint256, encode_address, push_be}

pub push_be_value : (n : ℕ) → n < 2 ^ 64 → be_from 0 (push_be 8 n) ≡ n
unfolding push_be
push_be_value n h = omega arith

pub push_be-IsByte : (n : ℕ) → All IsByte (push_be 8 n)
unfolding push_be
push_be-IsByte n = omega arith

pub push_be-length : (n : ℕ) → length (push_be 8 n) ≡ 8
unfolding push_be
push_be-length n = refl

encode_uint256_lem : (n : ℕ) → encode_uint256 n ≡ replicate 24 0 ++ push_be 8 n
unfolding encode_uint256 push_be
encode_uint256_lem n = refl

-- A 64-bit number is written as 32 bytes, big-endian.
pub encode_uint256_value :
    (n : ℕ)
    → n < 2 ^ 64
    → (be_from 0 (encode_uint256 n) ≡ n)
      × (length (encode_uint256 n) ≡ 32)
      × All IsByte (encode_uint256 n)
encode_uint256_value n h = rw encode_uint256_lem (
  push_be_value n h,
  omega (arith, push_be-length n),
  All-append IsByte (replicate 24 0) (push_be 8 n) (omega arith) (push_be-IsByte n),
)

-- `encodeAddress` writes 32 bytes whatever it is given. They make the number of a 20-byte address,
-- and the number 0 of bytes of any other length, without an error.
pub encode_address_value :
    (a : List ℕ)
    → (length (encode_address a) ≡ 32)
      × (be_from 0 (encode_address a) ≡ (if length a == 20 then be_from 0 a else 0))
unfolding encode_address
encode_address_value a = elim (Bool-cases (length a == 20)) [
  | inl e ↦ rw e (ground (arith, length-append (replicate 12 0) a), refl)
  | inr e ↦ rw e (refl, refl)
]
