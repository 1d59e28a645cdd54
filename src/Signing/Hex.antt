-- ===== src/Signing/Hex.antt =====
-- src/signing/SigningHelpers.cpp: `hexToBytes`, `toHex`, `toHexPadded`. A `std::string` is a
-- `String`, and its characters are ASCII; a byte is a number below 256.
pub mod Digits
pub mod RoundTrip
pub mod Value
use Prim.Native.String
use hyperliquid_sdk_cpp.Common.{
  ℕ, zero, suc, ◌+◌, ◌-◌, ◌*◌, ◌/◌, ◌%◌, ◌^◌, Char, code, String, List, [], ◌∷◌, Bool, true, false,
  not, ◌&&◌, ◌||◌, Result, ok, err, invalid_argument, ◌>>=◌, leb, ◌==◌, if◌then◌else◌,
}

-- The lambda `hexCharToNibble`.
unfoldable pub hex_char_to_nibble : Char → Result ℕ
hex_char_to_nibble ch =
    if leb b'0' (code ch) && leb (code ch) b'9'
    then ok (code ch - b'0')
    else if leb b'a' (code ch) && leb (code ch) b'f'
    then ok (code ch - b'a' + 10)
    else if leb b'A' (code ch) && leb (code ch) b'F'
    then ok (code ch - b'A' + 10)
    else err (invalid_argument (String.◌++◌ "Invalid hex character: " (String.◌∷◌ ch String.[])))

abbrev pub size : String → ℕ
size String.[] = 0
size (String.◌∷◌ c s) = suc (size s)

-- `0x` or `0X` in front is dropped.
pub drop_0x : String → String
drop_0x String.[] = String.[]
drop_0x (String.◌∷◌ c String.[]) = String.◌∷◌ c String.[]
drop_0x (String.◌∷◌ c (String.◌∷◌ d s)) =
    if code c == b'0' && (code d == b'x' || code d == b'X')
    then s
    else String.◌∷◌ c (String.◌∷◌ d s)

pub pad_even : String → String
pad_even clean = if not (size clean % 2 == 0) then String.◌∷◌ "0" clean else clean

-- The loop over the pairs; the low four bits of `hi << 4` are clear, so `|` is `+`.
pub decode_pairs : String → Result (List ℕ)
decode_pairs String.[] = ok []
decode_pairs (String.◌∷◌ c String.[]) = ok []
decode_pairs (String.◌∷◌ c (String.◌∷◌ d s)) = do
  hi ← hex_char_to_nibble c
  lo ← hex_char_to_nibble d
  rest ← decode_pairs s
  ok ((hi * 2 ^ 4 + lo) ∷ rest)

unfoldable pub hex_to_bytes : String → Result (List ℕ)
unfolding drop_0x pad_even decode_pairs hex_char_to_nibble
hex_to_bytes hex = decode_pairs (pad_even (drop_0x hex))

abbrev char_at : String → ℕ → Char → Char
char_at String.[] n other = other
char_at (String.◌∷◌ c s) zero other = c
char_at (String.◌∷◌ c s) (suc n) other = char_at s n other

-- `std::hex` of a number below 16.
pub hex_digit : ℕ → Char
hex_digit n = char_at "0123456789abcdef" n "0"

-- `std::hex << std::setfill('0') << std::setw(2)` of each byte.
pub hex_digits : List ℕ → String
hex_digits [] = String.[]
hex_digits (b ∷ bs) =
    String.◌∷◌ (hex_digit (b / 16)) (String.◌∷◌ (hex_digit (b % 16)) (hex_digits bs))

unfoldable pub to_hex_padded : List ℕ → String
unfolding hex_digits hex_digit
to_hex_padded bytes = String.◌∷◌ "0" (String.◌∷◌ "x" (hex_digits bytes))

-- `find_first_not_of('0', 2)`, and what stands from there on.
pub drop_zeros : String → String
drop_zeros String.[] = String.[]
drop_zeros (String.◌∷◌ c s) = if code c == b'0' then drop_zeros s else String.◌∷◌ c s

abbrev or_zero : String → String
or_zero String.[] = "0x0"
or_zero (String.◌∷◌ c s) = String.◌∷◌ "0" (String.◌∷◌ "x" (String.◌∷◌ c s))

unfoldable pub to_hex : List ℕ → String
unfolding drop_zeros hex_digits hex_digit
to_hex bytes = or_zero (drop_zeros (hex_digits bytes))
