-- ===== src/Signing/Encoding.antt =====
-- src/signing/SigningHelpers.cpp: `encodeUint256`, `encodeAddress`, and the bytes that `actionHash`
-- feeds to keccak256. Hashing and MessagePack are not in this repository's own code.
pub mod Laws
pub mod Injective
use hyperliquid_sdk_cpp.Common.{
  ℕ, zero, suc, ◌-◌, ◌*◌, ◌/◌, ◌%◌, ◌^◌, String, List, [], ◌∷◌, ◌++◌, Option, none, some, Result,
  ok, ◌>>=◌, ◌==◌, if◌then◌else◌, length, replicate,
}
use hyperliquid_sdk_cpp.Signing.Hex.{hex_to_bytes}

-- `result[i] = v`; every index of the callers is in range.
abbrev set : List ℕ → ℕ → ℕ → List ℕ
set [] i v = []
set (x ∷ xs) zero v = v ∷ xs
set (x ∷ xs) (suc i) v = x ∷ set xs i v

-- `static_cast<uint8_t>((value >> (idx * 8)) & 0xFF)`
abbrev pub byte_at : ℕ → ℕ → ℕ
byte_at value idx = value / 2 ^ (idx * 8) % 256

-- The loop of `encodeUint256` after `n` rounds: round `idx` writes `result[31 - idx]`.
fill : ℕ → ℕ → List ℕ → List ℕ
fill zero value result = result
fill (suc idx) value result = set (fill idx value result) (31 - idx) (byte_at value idx)

unfoldable pub encode_uint256 : ℕ → List ℕ
unfolding fill
encode_uint256 value = fill 8 value (replicate 32 0)

-- Any length but 20 leaves the array zero.
unfoldable pub encode_address : List ℕ → List ℕ
encode_address address = if length address == 20 then replicate 12 0 ++ address else replicate 32 0

-- `for (idx = n - 1; idx >= 0; idx--) data.push_back(...)`
pub push_be : ℕ → ℕ → List ℕ
push_be zero value = []
push_be (suc idx) value = byte_at value idx ∷ push_be idx value

vault_part : Option String → Result (List ℕ)
vault_part none = ok (0x00 ∷ [])
vault_part (some vault_address) = do address ← hex_to_bytes vault_address; ok (0x01 ∷ address)

expires_part : Option ℕ → List ℕ
expires_part none = []
expires_part (some expires) = 0x00 ∷ push_be 8 expires

-- The argument of the last call of `actionHash`, behind the action's MessagePack bytes.
unfoldable pub action_data : List ℕ → Option String → ℕ → Option ℕ → Result (List ℕ)
unfolding push_be vault_part expires_part
action_data packed vault_address nonce expires_after = do
  vault ← vault_part vault_address
  ok (packed ++ (push_be 8 nonce ++ (vault ++ expires_part expires_after)))

unfoldable pub action_hash :
    (List ℕ → List ℕ) → List ℕ → Option String → ℕ → Option ℕ → Result (List ℕ)
unfolding action_data
action_hash keccak256 packed vault_address nonce expires_after = do
  encoded ← action_data packed vault_address nonce expires_after
  ok (keccak256 encoded)
