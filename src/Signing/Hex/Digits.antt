-- ===== src/Signing/Hex/Digits.antt =====
-- Hexadecimal texts, described without the code: a table of digits, and the texts that have a prefix.
use hyperliquid_sdk_cpp.Common.{
  ℕ, suc, ◌+◌, ◌*◌, ◌<◌, Char, code, String, ◌≡◌, ◌⊎◌, inl, inr, refl, sym, ap, ◌∙◌, ok, err,
  Result, Option, none, some, arith, ◌==◌, ◌&&◌, ◌||◌, if◌then◌else◌, Bool-cases, or_else,
}
use hyperliquid_sdk_cpp.Signing.Hex.{hex_char_to_nibble, drop_0x}

-- The place of a character in a text, from `n` on.
abbrev pub place : Char → ℕ → String → Option ℕ
place c n String.[] = none
place c n (String.◌∷◌ d s) = if code c == code d then some n else place c (suc n) s

abbrev pub digit_of : Char → Option ℕ
digit_of c = or_else (place c 0 "0123456789abcdef") (place c 0 "0123456789ABCDEF")

abbrev pub reading : Result ℕ → Option ℕ
reading (ok n) = some n
reading (err e) = none

pub nibble-digit_of : (c : Char) → reading (hex_char_to_nibble c) ≡ digit_of c
unfolding hex_char_to_nibble
nibble-digit_of c = ground arith

pub nibble-eq-ok : (c : Char) (n : ℕ) → hex_char_to_nibble c ≡ ok n → digit_of c ≡ some n
nibble-eq-ok c n e = sym (nibble-digit_of c) ∙ ap reading e

pub nibble_lt : (c : Char) (n : ℕ) → hex_char_to_nibble c ≡ ok n → n < 16
unfolding hex_char_to_nibble
nibble_lt c n e = ground arith

reading-eq-some : (r : Result ℕ) (n : ℕ) → reading r ≡ some n → r ≡ ok n
reading-eq-some (ok m) n h = cc
reading-eq-some (err e) n h = cc

pub digit_of-eq-some : (c : Char) (n : ℕ) → digit_of c ≡ some n → hex_char_to_nibble c ≡ ok n
digit_of-eq-some c n e = reading-eq-some (hex_char_to_nibble c) n (nibble-digit_of c ∙ e)

abbrev pub digit : Char → ℕ
digit c = elim (digit_of c) [ none ↦ 0 | some n ↦ n ]

-- A text of hexadecimal digits as a number behind `acc`.
abbrev pub text_from : ℕ → String → ℕ
text_from acc String.[] = acc
text_from acc (String.◌∷◌ c s) = text_from (acc * 16 + digit c) s

abbrev pub IsHexDigit : Char → Type 0
IsHexDigit c = (n : ℕ) × (digit_of c ≡ some n)

abbrev pub IsHex : String → Type 0
IsHex String.[] = Unit
IsHex (String.◌∷◌ c s) = IsHexDigit c × IsHex s

-- `s` is `d`, or `d` behind "0x" or "0X".
abbrev pub IsPrefixed : String → String → Type 0
IsPrefixed d s =
    (s ≡ d)
    ⊎ ((z : Char) × (x : Char) × (code z ≡ b'0')
        × ((code x ≡ b'x') ⊎ (code x ≡ b'X'))
        × (s ≡ String.◌∷◌ z (String.◌∷◌ x d)))

pub drop_0x-IsPrefixed : (s : String) → IsPrefixed (drop_0x s) s
unfolding drop_0x
drop_0x-IsPrefixed String.[] = inl refl
drop_0x-IsPrefixed (String.◌∷◌ c String.[]) = inl refl
drop_0x-IsPrefixed (String.◌∷◌ c (String.◌∷◌ d s)) =
    elim (Bool-cases (code c == b'0' && (code d == b'x' || code d == b'X'))) [
      | inl e ↦ rw e (inr (c, d, ground arith, ground arith, refl))
      | inr e ↦ rw e (inl refl)
    ]

-- An x is no digit, so that digits by themselves have no prefix.
drop_0x-digits : (d : String) → IsHex d → drop_0x d ≡ d
unfolding drop_0x
drop_0x-digits String.[] h = refl
drop_0x-digits (String.◌∷◌ c String.[]) h = refl
drop_0x-digits (String.◌∷◌ c (String.◌∷◌ x d)) (hc, ((n, e), h)) = ground arith

pub drop_0x-prefix : (d s : String) → IsHex d → IsPrefixed d s → drop_0x s ≡ d
unfolding drop_0x
drop_0x-prefix d s h (inl e) = rw e (drop_0x-digits d h)
drop_0x-prefix d s h (inr (z, x, ez, ex, e)) = rw e (ground (arith, ez, ex))
