-- ===== src/Signing/Hex/Value.antt =====
-- What number a hexadecimal text stands for.
use hyperliquid_sdk_cpp.Common.{
  ℕ, ◌+◌, ◌*◌, ◌/◌, ◌%◌, Char, code, String, List, [], ◌∷◌, ◌≡◌, ◌≢◌, ◌↔◌, refl, ap, ◌∙◌, ok, arith,
  All, inl, inr, ◌==◌, length, Bool-cases, >>=-eq-ok,
}
use hyperliquid_sdk_cpp.Signing.Hex.{
  hex_char_to_nibble, size, drop_0x, pad_even, decode_pairs, hex_to_bytes, hex_digits, drop_zeros,
  or_zero, to_hex,
}
use hyperliquid_sdk_cpp.Signing.Hex.Digits.{
  digit, text_from, IsHexDigit, IsHex, IsPrefixed, nibble-eq-ok, nibble_lt, digit_of-eq-some,
  drop_0x-IsPrefixed, drop_0x-prefix,
}
use hyperliquid_sdk_cpp.Signing.Hex.RoundTrip.{IsByte, nibble-digit}

-- Bytes as a big-endian number behind `acc`.
abbrev pub be_from : ℕ → List ℕ → ℕ
be_from acc [] = acc
be_from acc (b ∷ bs) = be_from (acc * 256 + b) bs

-- What a reading of `s` returns: bytes, two digits to each, of the same value.
abbrev pub IsDecoded : String → List ℕ → Type 0
IsDecoded s bs =
    All IsByte bs × (length bs * 2 ≡ size s) × ((acc : ℕ) → be_from acc bs ≡ text_from acc s)

digit_lem : (c : Char) (n : ℕ) → hex_char_to_nibble c ≡ ok n → digit c ≡ n
digit_lem c n e = rw (nibble-eq-ok c n e, digit) refl

decode_total :
    (s : String)
    → size s % 2 ≡ 0
    → IsHex s
    → (bs : List ℕ) × (decode_pairs s ≡ ok bs) × IsDecoded s bs
unfolding decode_pairs
decode_total String.[] e h = ([], refl, (tt, refl, λ acc. refl))
decode_total (String.◌∷◌ c String.[]) e h = absurd (omega arith)
decode_total (String.◌∷◌ c (String.◌∷◌ d s)) e ((m, dm), ((n, dn), h)) =
    let em = digit_of-eq-some c m dm in
    let en = digit_of-eq-some d n dn in
    let hm = nibble_lt c m em in
    let hn = nibble_lt d n en in
    let (bs, ebs, (inside, len, same)) = decode_total s (omega arith) h in
    (
      (m * 16 + n) ∷ bs,
      rw (em, en, ebs),
      (
        (omega arith, inside),
        omega arith,
        λ acc.
            same (acc * 256 + (m * 16 + n))
            ∙ ap (λ a. text_from a s) (omega (arith, digit_lem c m em, digit_lem d n en)),
      ),
    )

decode_sound : (s : String) {bs : List ℕ} → size s % 2 ≡ 0 → decode_pairs s ≡ ok bs → IsHex s
unfolding decode_pairs
decode_sound String.[] e h = tt
decode_sound (String.◌∷◌ c String.[]) e h = absurd (omega arith)
decode_sound (String.◌∷◌ c (String.◌∷◌ d s)) e h =
    let (m, em, h1) = >>=-eq-ok (hex_char_to_nibble c) _ h in
    let (n, en, h2) = >>=-eq-ok (hex_char_to_nibble d) _ h1 in
    let (rest, er, h3) = >>=-eq-ok (decode_pairs s) _ h2 in
    ((m, nibble-eq-ok c m em), ((n, nibble-eq-ok d n en), decode_sound s (omega arith) er))

zero_digit : IsHexDigit "0"
zero_digit = (0, refl)

pad_even-IsHex : (s : String) → IsHex s → IsHex (pad_even s)
unfolding pad_even
pad_even-IsHex s h = elim (Bool-cases (size s % 2 == 0)) [
  | inl e ↦ rw e h
  | inr e ↦ rw e (zero_digit, h)
]

pad_even-text_from : (s : String) → text_from 0 (pad_even s) ≡ text_from 0 s
unfolding pad_even
pad_even-text_from s = elim (Bool-cases (size s % 2 == 0)) [ inl e ↦ rw e | inr e ↦ rw e ]

pad_even-size :
    (s : String) → (size (pad_even s) % 2 ≡ 0) × (size (pad_even s) ≡ (size s + 1) / 2 * 2)
unfolding pad_even
pad_even-size s = elim (Bool-cases (size s % 2 == 0)) [
  | inl e ↦ rw e (ground arith, ground arith)
  | inr e ↦ rw e (ground arith, ground arith)
]

IsHex-pad_even : (s : String) → IsHex (pad_even s) → IsHex s
unfolding pad_even
IsHex-pad_even s h = elim (Bool-cases (size s % 2 == 0)) [
  | inl e ↦ rw e at h
  | inr e ↦ (rw e at h).1
]

-- The texts that `hexToBytes` accepts are those of the digits 0 to 9, a to f and A to F, by
-- themselves or behind one "0x" or "0X": an odd number of digits is accepted, and so is none.
pub hex_to_bytes_iff :
    (s : String)
    → ((bs : List ℕ) × (hex_to_bytes s ≡ ok bs)) ↔ ((d : String) × IsHex d × IsPrefixed d s)
unfolding hex_to_bytes
hex_to_bytes_iff s = (
  λ h.
      let d = drop_0x s in
      (
        d,
        IsHex-pad_even d (decode_sound (pad_even d) (pad_even-size d).0 h.1),
        drop_0x-IsPrefixed s,
      ),
  λ (d, h, p).
      let (bs, e, _) = decode_total (pad_even d) (pad_even-size d).0 (pad_even-IsHex d h) in
      (bs, rw (drop_0x-prefix d s h p) e),
)

-- Hexadecimal digits, by themselves or behind one "0x" or "0X", are read by `hexToBytes`: to bytes,
-- one for every two digits, rounded up, which make the number that the digits make.
pub hex_to_bytes_value :
    (d s : String)
    → IsHex d
    → IsPrefixed d s
    → (bs : List ℕ) × (hex_to_bytes s ≡ ok bs)
      × All IsByte bs
      × (length bs ≡ (size d + 1) / 2)
      × (be_from 0 bs ≡ text_from 0 d)
unfolding hex_to_bytes
hex_to_bytes_value d s h p =
    let (even, len) = pad_even-size d in
    let (bs, e, (inside, twice, same)) = decode_total (pad_even d) even (pad_even-IsHex d h) in
    (
      bs,
      rw (drop_0x-prefix d s h p) e,
      inside,
      omega (arith, len, twice),
      same 0 ∙ pad_even-text_from d,
    )

hex_digits-IsHex : (bs : List ℕ) → All IsByte bs → IsHex (hex_digits bs)
unfolding hex_digits
hex_digits-IsHex [] h = tt
hex_digits-IsHex (b ∷ bs) (p, h) = (
  (b / 16, nibble-eq-ok _ _ (nibble-digit (b / 16) (omega arith))),
  ((b % 16, nibble-eq-ok _ _ (nibble-digit (b % 16) (omega arith))), hex_digits-IsHex bs h),
)

hex_digits-text_from :
    (bs : List ℕ) (acc : ℕ) → All IsByte bs → text_from acc (hex_digits bs) ≡ be_from acc bs
unfolding hex_digits
hex_digits-text_from [] acc h = refl
hex_digits-text_from (b ∷ bs) acc (p, h) =
    let hi = digit_lem _ _ (nibble-digit (b / 16) (omega arith)) in
    let lo = digit_lem _ _ (nibble-digit (b % 16) (omega arith)) in
    ap (λ a. text_from a (hex_digits bs)) (omega (arith, hi, lo))
    ∙ hex_digits-text_from bs (acc * 256 + b) h

zero_char : (c : Char) → code c ≡ b'0' → digit c ≡ 0
zero_char c e = ground arith

drop_zeros-text_from : (s : String) → text_from 0 (drop_zeros s) ≡ text_from 0 s
unfolding drop_zeros
drop_zeros-text_from String.[] = refl
drop_zeros-text_from (String.◌∷◌ c s) = elim (Bool-cases (code c == b'0')) [
  | inl e ↦ rw (e, zero_char c (ground arith)) (drop_zeros-text_from s)
  | inr e ↦ rw e
]

drop_zeros-IsHex : (s : String) → IsHex s → IsHex (drop_zeros s)
unfolding drop_zeros
drop_zeros-IsHex String.[] h = tt
drop_zeros-IsHex (String.◌∷◌ c s) h = elim (Bool-cases (code c == b'0')) [
  | inl e ↦ rw e (drop_zeros-IsHex s h.1)
  | inr e ↦ rw e h
]

-- There is a digit, and the first of several is not a zero.
abbrev pub IsShortest : String → Type 0
IsShortest String.[] = ⊥
IsShortest (String.◌∷◌ c String.[]) = Unit
IsShortest (String.◌∷◌ c (String.◌∷◌ d s)) = code c ≢ b'0'

-- The digits behind the "0x" of `or_zero`.
shown : String → String
shown String.[] = "0"
shown (String.◌∷◌ c s) = String.◌∷◌ c s

or_zero-shown : (s : String) → or_zero s ≡ String.◌∷◌ "0" (String.◌∷◌ "x" (shown s))
unfolding shown
or_zero-shown String.[] = refl
or_zero-shown (String.◌∷◌ c s) = refl

shown_lem : (s : String) → IsHex s → IsHex (shown s) × (text_from 0 (shown s) ≡ text_from 0 s)
unfolding shown
shown_lem String.[] h = ((zero_digit, tt), refl)
shown_lem (String.◌∷◌ c s) h = (h, refl)

first-IsShortest : (c : Char) (s : String) → code c ≢ b'0' → IsShortest (String.◌∷◌ c s)
first-IsShortest c String.[] h = tt
first-IsShortest c (String.◌∷◌ d s) h = h

drop_zeros-IsShortest : (s : String) → IsShortest (shown (drop_zeros s))
unfolding drop_zeros shown
drop_zeros-IsShortest String.[] = tt
drop_zeros-IsShortest (String.◌∷◌ c s) = elim (Bool-cases (code c == b'0')) [
  | inl e ↦ rw e (drop_zeros-IsShortest s)
  | inr e ↦ rw e (first-IsShortest c s (ground arith))
]

-- `toHex` writes "0x" and the shortest text of digits that makes the number of the bytes, and
-- `hexToBytes` reads it back to bytes that make the same number.
pub to_hex_value :
    (bs : List ℕ)
    → All IsByte bs
    → (d : String) × (cs : List ℕ) × (to_hex bs ≡ String.◌∷◌ "0" (String.◌∷◌ "x" d))
      × IsHex d
      × IsShortest d
      × (text_from 0 d ≡ be_from 0 bs)
      × (hex_to_bytes (to_hex bs) ≡ ok cs)
      × (be_from 0 cs ≡ be_from 0 bs)
unfolding to_hex
to_hex_value bs h =
    let digits = drop_zeros (hex_digits bs) in
    let (good, same) =
      shown_lem digits (drop_zeros-IsHex (hex_digits bs) (hex_digits-IsHex bs h)) in
    let number = same ∙ drop_zeros-text_from (hex_digits bs) ∙ hex_digits-text_from bs 0 h in
    let (cs, e, inside, len, value) =
      hex_to_bytes_value (shown digits) (to_hex bs) good
        (inr ("0", "x", refl, inl refl, or_zero-shown digits)) in
    (
      shown digits,
      cs,
      or_zero-shown digits,
      good,
      drop_zeros-IsShortest (hex_digits bs),
      number,
      e,
      value ∙ number,
    )

pub be_from_inj :
    (xs ys : List ℕ) {a b : ℕ}
    → All IsByte xs
    → All IsByte ys
    → length xs ≡ length ys
    → be_from a xs ≡ be_from b ys
    → (a ≡ b) × (xs ≡ ys)
be_from_inj [] [] h k e p = (p, refl)
be_from_inj [] (y ∷ ys) h k e p = absurd (omega arith)
be_from_inj (x ∷ xs) [] h k e p = absurd (omega arith)
be_from_inj (x ∷ xs) (y ∷ ys) {a} {b} (hx, h) (hy, k) e p =
    let (heads, tails) =
      be_from_inj xs ys {a = a * 256 + x} {b = b * 256 + y} h k (omega arith) p in
    let same : x ≡ y = omega arith in (omega arith, cc)

-- Two byte strings of one length, such as the two halves of a signature, have one `toHex` text only
-- if they are equal.
pub to_hex_inj :
    (xs ys : List ℕ)
    → All IsByte xs
    → All IsByte ys
    → length xs ≡ length ys
    → to_hex xs ≡ to_hex ys
    → xs ≡ ys
to_hex_inj xs ys h k e p =
    let (_, cs, _, _, _, _, ec, vc) = to_hex_value xs h in
    let (_, ds, _, _, _, _, ed, vd) = to_hex_value ys k in
    let same : cs ≡ ds = cc in (be_from_inj xs ys {a = 0} {b = 0} h k e (cc)).1
