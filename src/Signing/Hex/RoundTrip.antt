-- ===== src/Signing/Hex/RoundTrip.antt =====
-- Reading back what `toHexPadded` writes.
use hyperliquid_sdk_cpp.Common.{ℕ, suc, ◌/◌, ◌%◌, ◌<◌, List, [], ◌∷◌, ◌≡◌, refl, ap, ok, arith, All}
use hyperliquid_sdk_cpp.Signing.Hex.{
  hex_char_to_nibble, size, decode_pairs, hex_to_bytes, hex_digit, hex_digits, to_hex_padded,
}

abbrev pub IsByte : ℕ → Type 0
IsByte b = b < 256

pub nibble-digit : (n : ℕ) → n < 16 → hex_char_to_nibble (hex_digit n) ≡ ok n
unfolding hex_char_to_nibble hex_digit
nibble-digit
      (suc
        (suc (suc (suc (suc (suc (suc (suc (suc (suc (suc (suc (suc (suc (suc (suc n))))))))))))))))
      h =
    absurd (omega arith)
nibble-digit _ h = refl

pub decode-digits : (bs : List ℕ) → All IsByte bs → decode_pairs (hex_digits bs) ≡ ok bs
unfolding decode_pairs hex_digits
decode-digits [] h = refl
decode-digits (b ∷ bs) (p, h) =
    rw
      (nibble-digit (b / 16) (omega arith), nibble-digit (b % 16) (omega arith), decode-digits bs h)
      (ap (λ c. ok (c ∷ bs)) (omega arith))

pub size-digits : (bs : List ℕ) → size (hex_digits bs) % 2 ≡ 0
unfolding hex_digits
size-digits [] = refl
size-digits (b ∷ bs) = omega (arith, size-digits bs)

-- Bytes printed by `toHexPadded` are read back by `hexToBytes`, whatever their number.
pub hex_to_bytes-to_hex_padded :
    (bs : List ℕ) → All IsByte bs → hex_to_bytes (to_hex_padded bs) ≡ ok bs
unfolding hex_to_bytes to_hex_padded
hex_to_bytes-to_hex_padded bs h = ground (arith, size-digits bs, decode-digits bs h)
