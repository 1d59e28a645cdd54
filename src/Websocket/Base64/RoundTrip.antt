-- ===== src/Websocket/Base64/RoundTrip.antt =====
-- Decoding what an RFC 4648 encoder writes.
use native.Mathlib.Nat.{add-zero}
use hyperliquid_sdk_cpp.Common.{
  ℕ, zero, suc, ◌+◌, ◌-◌, ◌*◌, ◌/◌, ◌%◌, ◌^◌, ◌<◌, List, [], ◌∷◌, ◌≡◌, refl, ◌∙◌, ap, Option, none,
  some, Bool, true, false, ◌&&◌, arith, All, ◌==◌, get_elem?, leb, replicate, Bool-cases, inl, inr,
}
use hyperliquid_sdk_cpp.Websocket.Base64.{alphabet, table, decode_from, base64_decode}

-- The independent description: RFC 4648, section 4.
abbrev or_pad : Option ℕ → ℕ
or_pad none = b'='
or_pad (some c) = c

symbol : ℕ → ℕ
symbol n = or_pad (get_elem? alphabet n)

pub encode : List ℕ → List ℕ
encode [] = []
encode (x ∷ []) = symbol (x / 4) ∷ symbol (x % 4 * 16) ∷ b'=' ∷ b'=' ∷ []
encode (x ∷ y ∷ []) =
    symbol (x / 4) ∷ symbol (x % 4 * 16 + y / 16) ∷ symbol (y % 16 * 4) ∷ b'=' ∷ []
encode (x ∷ y ∷ z ∷ rest) =
    symbol (x / 4)
    ∷ symbol (x % 4 * 16 + y / 16)
    ∷ symbol (y % 16 * 4 + z / 64)
    ∷ symbol (z % 64)
    ∷ encode rest

is_some_of : Option ℕ → ℕ → Bool
is_some_of none n = false
is_some_of (some m) n = m == n

-- The test passes at each of the `count` numbers from 0 on.
passes : (ℕ → Bool) → ℕ → Bool
passes test zero = true
passes test (suc last) = passes test last && test last

passes_at :
    (test : ℕ → Bool) (count : ℕ) → passes test count ≡ true → (k : ℕ) → k < count → test k ≡ true
unfolding passes
passes_at test zero e k below = absurd (omega arith)
passes_at test (suc last) e k below =
    let earlier = passes_at test last in
    elim (Bool-cases (k == last)) [
      | inl same ↦ ground (arith, same)
      | inr other ↦ ground (arith, other, earlier (ground arith) k (ground (arith, other)))
    ]

is_some_of_lem : (o : Option ℕ) (n : ℕ) → is_some_of o n ≡ true → o ≡ some n
unfolding is_some_of
is_some_of_lem o n h = ground arith

table_all : passes (λ n. is_some_of (table (symbol n)) n) 64 ≡ true
unfolding passes is_some_of table symbol
table_all = refl

table-symbol : (n : ℕ) → n < 64 → table (symbol n) ≡ some n
table-symbol n h = is_some_of_lem _ n (passes_at _ 64 table_all n h)

table_pad : table b'=' ≡ none
unfolding table
table_pad = refl

abbrev IsByte : ℕ → Type 0
IsByte b = b < 256

-- One round of the loop.
module _ (c : ℕ) (input : List ℕ) (val held : ℕ) where
  skip_round : table c ≡ none → decode_from val held (c ∷ input) ≡ decode_from val held input
  unfolding decode_from
  skip_round e = rw (e, decode_from)

  wait_round :
      {t : ℕ}
      → table c ≡ some t
      → held < 2
      → decode_from val held (c ∷ input) ≡ decode_from ((val * 2 ^ 6 + t) % 2 ^ 32) (held + 6) input
  unfolding decode_from
  wait_round e h = rw (e, decode_from) (ground arith)

  push_round :
      {t : ℕ} (k b : ℕ)
      → table c ≡ some t
      → held ≡ suc (suc k)
      → (val * 2 ^ 6 + t) % 2 ^ 32 / 2 ^ k % 256 ≡ b
      → decode_from val held (c ∷ input) ≡ b ∷ decode_from ((val * 2 ^ 6 + t) % 2 ^ 32) k input
  unfolding decode_from
  push_round k b e h p =
      let shift : held + 6 - 8 ≡ k = omega arith in
      let full : leb 8 (held + 6) ≡ true = ground arith in rw (e, decode_from) (rw (full, shift, p))

-- The pattern after one more symbol.
abbrev after : ℕ → ℕ → ℕ
after val t = (val * 2 ^ 6 + t) % 2 ^ 32

module _ (x val : ℕ) (input : List ℕ) (hx : x < 256) where
  -- The first two symbols of a group give its first byte, if `hi` is the second byte's upper half.
  first_byte :
      (hi : ℕ)
      → hi < 16
      → decode_from val 0 (symbol (x / 4) ∷ symbol (x % 4 * 16 + hi) ∷ input)
        ≡ x ∷ decode_from (after (after val (x / 4)) (x % 4 * 16 + hi)) 4 input
  first_byte hi h =
      wait_round _ _ val 0 (table-symbol (x / 4) (omega arith)) (omega arith)
      ∙ push_round _ _ _ 6 4 x (table-symbol (x % 4 * 16 + hi) (omega arith)) refl (omega arith)

  -- The third symbol completes the second byte, if `hi` is the third byte's upper part.
  second_byte :
      (t hi : ℕ)
      → t % 16 ≡ x / 16
      → hi < 4
      → decode_from (after val t) 4 (symbol (x % 16 * 4 + hi) ∷ input)
        ≡ x ∷ decode_from (after (after val t) (x % 16 * 4 + hi)) 2 input
  second_byte t hi e h =
      push_round _ _ _ 4 2 x (table-symbol (x % 16 * 4 + hi) (omega arith)) refl (omega arith)

  third_byte :
      (t : ℕ)
      → t % 4 ≡ x / 64
      → decode_from (after val t) 2 (symbol (x % 64) ∷ input)
        ≡ x ∷ decode_from (after (after val t) (x % 64)) 0 input
  third_byte t e = push_round _ _ _ 2 0 x (table-symbol (x % 64) (omega arith)) refl (omega arith)

pads : (n val held : ℕ) → decode_from val held (replicate n b'=') ≡ []
unfolding decode_from
pads zero val held = refl
pads (suc n) val held = skip_round b'=' _ val held table_pad ∙ pads n val held

decode_from-encode : (bs : List ℕ) (val : ℕ) → All IsByte bs → decode_from val 0 (encode bs) ≡ bs
unfolding encode
decode_from-encode [] val h = pads 0 val 0
decode_from-encode (x ∷ []) val (hx, h) =
    rw (← add-zero (x % 4 * 16))
      (first_byte x val _ hx 0 (omega arith) ∙ ap (λ r. x ∷ r) (pads 2 _ 4))
decode_from-encode (x ∷ y ∷ []) val (hx, (hy, h)) = rw (← add-zero (y % 16 * 4)) (
    first_byte x val _ hx (y / 16) (omega arith)
    ∙ ap (λ r. x ∷ r)
        (second_byte y _ _ hy _ 0 (omega arith) (omega arith) ∙ ap (λ r. y ∷ r) (pads 1 _ 2)))
decode_from-encode (x ∷ y ∷ z ∷ rest) val (hx, (hy, (hz, h))) =
    first_byte x val _ hx (y / 16) (omega arith)
    ∙ ap (λ r. x ∷ r)
        (second_byte y _ _ hy _ (z / 64) (omega arith) (omega arith)
          ∙ ap (λ r. y ∷ r)
              (third_byte z _ _ hz _ (omega arith) ∙ ap (λ r. z ∷ r) (decode_from-encode rest _ h)))

-- Every byte string comes back from its base64 text, padding included.
pub base64_decode-encode : (bs : List ℕ) → All IsByte bs → base64_decode (encode bs) ≡ bs
unfolding base64_decode
base64_decode-encode bs h = decode_from-encode bs 0 h
