-- ===== src/Signing/Examples.antt =====
-- Runs of the signing code.
use hyperliquid_sdk_cpp.Common.{
  ℕ, ◌+◌, ◌/◌, String, List, [], ◌∷◌, ◌≡◌, refl, some, ok, All, length, ◌==◌, arith, if◌then◌else◌,
  ◌↔◌, inr,
}
use hyperliquid_sdk_cpp.Signing.Hex.{hex_to_bytes, to_hex_padded, to_hex, size}
use hyperliquid_sdk_cpp.Signing.Hex.RoundTrip.{IsByte, hex_to_bytes-to_hex_padded}
use hyperliquid_sdk_cpp.Signing.Hex.Digits.{IsHex, IsPrefixed, text_from}
use hyperliquid_sdk_cpp.Signing.Hex.Value.{
  be_from, IsShortest, hex_to_bytes_iff, hex_to_bytes_value, to_hex_value,
}
use hyperliquid_sdk_cpp.Signing.Encoding.{encode_address, action_data}
use hyperliquid_sdk_cpp.Signing.Encoding.Laws.{encode_address_value}
use hyperliquid_sdk_cpp.Signing.Encoding.Injective.{IsPrefixFree, action_data_inj, vault_bytes}
use hyperliquid_sdk_cpp.Signing.Nonce.{
  update, next_value, Shared, read_clock, load, retry, exchange, Run, init, after,
}
use hyperliquid_sdk_cpp.Signing.Nonce.Order.{IsDescending, IsTimely, nonces_ordered}
use hyperliquid_sdk_cpp.Signing.Bodies.Complete.{ok_of}

abbrev some_bytes : List ℕ
some_bytes = 0 ∷ 18 ∷ 255 ∷ []

bytes_are_bytes : All IsByte some_bytes
bytes_are_bytes = omega arith

hex_to_bytes-to_hex_padded_example : hex_to_bytes (to_hex_padded some_bytes) ≡ ok some_bytes
hex_to_bytes-to_hex_padded_example = hex_to_bytes-to_hex_padded some_bytes bytes_are_bytes

hex_to_bytes_iff_example :
    ((bs : List ℕ) × (hex_to_bytes "0X1fF" ≡ ok bs))
    ↔ ((d : String) × IsHex d × IsPrefixed d "0X1fF")
hex_to_bytes_iff_example = hex_to_bytes_iff "0X1fF"

three_digits : IsHex "1fF"
three_digits = ((1, refl), ((15, refl), ((15, refl), tt)))

hex_to_bytes_value_example :
    (bs : List ℕ) × (hex_to_bytes "0X1fF" ≡ ok bs)
    × All IsByte bs
    × (length bs ≡ (size "1fF" + 1) / 2)
    × (be_from 0 bs ≡ text_from 0 "1fF")
hex_to_bytes_value_example =
    hex_to_bytes_value "1fF" "0X1fF" three_digits (inr ("0", "X", refl, inr refl, refl))

to_hex_value_example :
    (d : String) × (cs : List ℕ) × (to_hex some_bytes ≡ String.◌∷◌ "0" (String.◌∷◌ "x" d))
    × IsHex d
    × IsShortest d
    × (text_from 0 d ≡ be_from 0 some_bytes)
    × (hex_to_bytes (to_hex some_bytes) ≡ ok cs)
    × (be_from 0 cs ≡ be_from 0 some_bytes)
to_hex_value_example = to_hex_value some_bytes bytes_are_bytes

encode_address_value_example :
    (length (encode_address some_bytes) ≡ 32)
    × (be_from 0 (encode_address some_bytes)
        ≡ (if length some_bytes == 20 then be_from 0 some_bytes else 0))
encode_address_value_example = encode_address_value some_bytes

abbrev IsOneByte : List ℕ → Type 0
IsOneByte p = length p ≡ 1

IsOneByte-IsPrefixFree : IsPrefixFree IsOneByte
IsOneByte-IsPrefixFree (x ∷ []) (y ∷ []) r s h k e = cc
IsOneByte-IsPrefixFree [] q r s h k e = absurd (omega arith)
IsOneByte-IsPrefixFree p [] r s h k e = absurd (omega arith)
IsOneByte-IsPrefixFree (x ∷ y ∷ p) q r s h k e = absurd (omega arith)
IsOneByte-IsPrefixFree p (x ∷ y ∷ q) r s h k e = absurd (omega arith)

abbrev vault : String
vault = "0x00000000000000000000000000000000000000ff"

abbrev address : List ℕ
address = 0 ∷ 0 ∷ 0 ∷ 0 ∷ 0 ∷ 0 ∷ 0 ∷ 0 ∷ 0 ∷ 0 ∷ 0 ∷ 0 ∷ 0 ∷ 0 ∷ 0 ∷ 0 ∷ 0 ∷ 0 ∷ 0 ∷ 255 ∷ []

vault_is : hex_to_bytes vault ≡ ok address
unfolding hex_to_bytes
vault_is = refl

abbrev one_byte : List ℕ
one_byte = 129 ∷ []

abbrev nonce : ℕ
nonce = 1700000000000

hashed : (d : List ℕ) × (action_data one_byte (some vault) nonce (some nonce) ≡ ok d)
unfolding action_data
hashed = ok_of _ (rw vault_is refl)

action_data_inj_example :
    (one_byte ≡ one_byte)
    × (nonce ≡ nonce)
    × (vault_bytes (some vault) ≡ vault_bytes (some vault))
    × (some nonce ≡ some nonce)
action_data_inj_example =
    action_data_inj IsOneByte IsOneByte-IsPrefixFree one_byte one_byte (some vault) (some vault)
      nonce nonce (some nonce) (some nonce) hashed.0 refl refl (address, vault_is, refl)
      (address, vault_is, refl) (omega arith) (omega arith) (omega arith) (omega arith) hashed.1
      hashed.1

-- Two threads: the second reads an earlier time, and its first exchange fails.
two_calls : (s : Shared) × Run 7 s
unfolding update next_value
two_calls = (
  _,
  after
      (after
        (after
          (after
            (after
              (after
                (after (after init (read_clock 0 7 (omega arith) refl refl))
                  (read_clock 1 4 (omega arith) refl refl))
                (load 0 7 refl refl))
              (load 1 4 refl refl))
            (exchange 0 7 0 refl refl refl))
          (retry 1 4 0 refl refl))
        (exchange 1 4 7 refl refl refl))
      (read_clock 0 2 (omega arith) refl refl),
)

two_nonces : length two_calls.0.issued ≡ 2
unfolding two_calls
two_nonces = refl

nonces_ordered_example : IsDescending two_calls.0.issued × IsTimely two_calls.0.issued
nonces_ordered_example = nonces_ordered two_calls.1 (omega (arith, two_nonces))
