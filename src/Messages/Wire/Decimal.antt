-- ===== src/Messages/Wire/Decimal.antt =====
-- What the normalisation in `floatToWire` makes of a decimal text.
use hyperliquid_sdk_cpp.Common.{
  ℕ, zero, suc, ◌+◌, ◌==◌, code, Char, String, Bool, true, false, ◌≡◌, refl, ap, ◌∙◌, none, some,
  arith,
}
use hyperliquid_sdk_cpp.Signing.Hex.{size}
use hyperliquid_sdk_cpp.Messages.Wire.{find_dot, find_last_not_zero, substr, normalize}

abbrev pub zeros : ℕ → String
zeros zero = String.[]
zeros (suc n) = String.◌∷◌ "0" (zeros n)

abbrev pub append : String → String → String
append String.[] t = t
append (String.◌∷◌ c s) t = String.◌∷◌ c (append s t)

-- No character is a dot.
abbrev pub IsWhole : String → Type 0
IsWhole String.[] = Unit
IsWhole (String.◌∷◌ c s) = ((code c == b'.') ≡ false) × IsWhole s

-- The digits behind the dot, of which the last is no zero.
abbrev pub ends_in_zero : String → Bool
ends_in_zero String.[] = false
ends_in_zero (String.◌∷◌ c String.[]) = code c == b'0'
ends_in_zero (String.◌∷◌ c (String.◌∷◌ d s)) = ends_in_zero (String.◌∷◌ d s)

abbrev pub with_fraction : String → String → String
with_fraction whole String.[] = whole
with_fraction whole (String.◌∷◌ c s) = append whole (String.◌∷◌ "." (String.◌∷◌ c s))

find_dot-append :
    (w r : String) → IsWhole w → find_dot (append w (String.◌∷◌ "." r)) ≡ some (size w)
unfolding find_dot
find_dot-append String.[] r h = refl
find_dot-append (String.◌∷◌ c w) r (h, hs) = rw (h, find_dot-append w r hs) refl

find_last_not_zero-zeros : (n : ℕ) → find_last_not_zero (zeros n) ≡ none
unfolding find_last_not_zero
find_last_not_zero-zeros zero = refl
find_last_not_zero-zeros (suc n) = rw (find_last_not_zero-zeros n) refl

-- `size w + i`
abbrev behind : String → ℕ → ℕ
behind String.[] i = i
behind (String.◌∷◌ c w) i = suc (behind w i)

behind_lem : (w : String) (i : ℕ) → behind w i ≡ size w + i
behind_lem String.[] i = omega arith
behind_lem (String.◌∷◌ c w) i = omega (arith, behind_lem w i)

find_last_not_zero-append :
    (w r : String) (i : ℕ)
    → find_last_not_zero r ≡ some i
    → find_last_not_zero (append w r) ≡ some (behind w i)
unfolding find_last_not_zero
find_last_not_zero-append String.[] r i h = h
find_last_not_zero-append (String.◌∷◌ c w) r i h = rw (find_last_not_zero-append w r i h) refl

find_last_not_zero-last :
    (c : Char) (n : ℕ)
    → (code c == b'0') ≡ false
    → find_last_not_zero (String.◌∷◌ c (zeros n)) ≡ some 0
unfolding find_last_not_zero
find_last_not_zero-last c n h = rw (find_last_not_zero, find_last_not_zero-zeros n, h) refl

find_last_not_zero-fraction :
    (c : Char) (t : String) (n : ℕ)
    → ends_in_zero (String.◌∷◌ c t) ≡ false
    → find_last_not_zero (String.◌∷◌ c (append t (zeros n))) ≡ some (size t)
unfolding find_last_not_zero
find_last_not_zero-fraction c String.[] n h = find_last_not_zero-last c n h
find_last_not_zero-fraction c (String.◌∷◌ d t) n h = rw (find_last_not_zero-fraction d t n h) refl

substr-append : (w r : String) (n : ℕ) → substr (behind w n) (append w r) ≡ append w (substr n r)
unfolding substr
substr-append String.[] r n = refl
substr-append (String.◌∷◌ c w) r n = ap (String.◌∷◌ c) (substr-append w r n)

substr-size : (w r : String) → substr (size w) (append w r) ≡ w
unfolding substr
substr-size String.[] r = refl
substr-size (String.◌∷◌ c w) r = ap (String.◌∷◌ c) (substr-size w r)

find_last_not_zero-dot :
    (c : Char) (t : String) (n : ℕ)
    → ends_in_zero (String.◌∷◌ c t) ≡ false
    → find_last_not_zero (String.◌∷◌ "." (String.◌∷◌ c (append t (zeros n)))) ≡ some (suc (size t))
find_last_not_zero-dot c t n h =
    find_last_not_zero-append (String.◌∷◌ "." String.[]) (String.◌∷◌ c (append t (zeros n)))
      (size t) (find_last_not_zero-fraction c t n h)

suc-behind : (w : String) (i : ℕ) → suc (behind w i) ≡ behind w (suc i)
suc-behind String.[] i = refl
suc-behind (String.◌∷◌ c w) i = ap suc (suc-behind w i)

-- A decimal text with zeros behind its last other digit loses just these zeros, and the dot with
-- them where no digit is left behind it.
pub normalize-zeros :
    (whole fraction : String) (n : ℕ)
    → IsWhole whole
    → ends_in_zero fraction ≡ false
    → normalize (append whole (String.◌∷◌ "." (append fraction (zeros n))))
      ≡ with_fraction whole fraction
unfolding normalize substr
normalize-zeros whole String.[] n w f =
    let dot = find_dot-append whole (zeros n) w in
    let last =
      find_last_not_zero-append whole (String.◌∷◌ "." (zeros n)) 0
        (find_last_not_zero-last "." n refl) in
    let same : (behind whole 0 == size whole) ≡ true = ground (arith, behind_lem whole 0) in
    rw (normalize, dot, last, same) (substr-size whole (String.◌∷◌ "." (zeros n)))
normalize-zeros whole (String.◌∷◌ c t) n w f =
    let rest = String.◌∷◌ c (append t (zeros n)) in
    let dot = find_dot-append whole rest w in
    let last =
      find_last_not_zero-append whole (String.◌∷◌ "." rest) (suc (size t))
        (find_last_not_zero-dot c t n f) in
    let other : (behind whole (suc (size t)) == size whole) ≡ false =
      ground (arith, behind_lem whole (suc (size t))) in
    rw (normalize, dot, last, other, suc-behind whole (suc (size t)))
      (substr-append whole (String.◌∷◌ "." rest) (suc (suc (size t)))
        ∙ ap (λ r. append whole (String.◌∷◌ "." (String.◌∷◌ c r))) (substr-size t (zeros n)))
