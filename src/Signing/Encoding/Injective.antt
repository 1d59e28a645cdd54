-- ===== src/Signing/Encoding/Injective.antt =====
-- The bytes that `actionHash` hashes determine the action's encoding, the nonce, the vault address
-- and the expiry: no two requests share them by the way that the parts are joined.
use hyperliquid_sdk_cpp.Common.{
  ℕ, ◌^◌, ◌<◌, String, List, [], ◌∷◌, ◌++◌, ◌≡◌, refl, ap, sym, ◌∙◌, Option, none, some, Result, ok,
  >>=-eq-ok, arith, length,
}
use hyperliquid_sdk_cpp.Signing.Hex.{hex_to_bytes}
use hyperliquid_sdk_cpp.Signing.Hex.Value.{be_from}
use hyperliquid_sdk_cpp.Signing.Encoding.{push_be, vault_part, expires_part, action_data}
use hyperliquid_sdk_cpp.Signing.Encoding.Laws.{push_be_value, push_be-length}

append_inj :
    (xs ys : List ℕ) {zs ws : List ℕ}
    → length xs ≡ length ys
    → xs ++ zs ≡ ys ++ ws
    → (xs ≡ ys) × (zs ≡ ws)
append_inj [] [] e p = (refl, p)
append_inj [] (y ∷ ys) e p = absurd (omega arith)
append_inj (x ∷ xs) [] e p = absurd (omega arith)
append_inj (x ∷ xs) (y ∷ ys) {zs} {ws} e p =
    let tails : xs ++ zs ≡ ys ++ ws = cc in
    let heads : x ≡ y = cc in
    let (a, b) = append_inj xs ys {zs = zs} {ws = ws} (omega arith) tails in (cc, b)

append_cancel_left : (xs : List ℕ) {ys zs : List ℕ} → xs ++ ys ≡ xs ++ zs → ys ≡ zs
append_cancel_left xs p = (append_inj xs xs refl p).1

push_be_inj : (m n : ℕ) → m < 2 ^ 64 → n < 2 ^ 64 → push_be 8 m ≡ push_be 8 n → m ≡ n
push_be_inj m n h k p = sym (push_be_value m h) ∙ ap (be_from 0) p ∙ push_be_value n k

-- A 64-bit time, if there is one.
abbrev pub IsTime : Option ℕ → Type 0
IsTime none = Unit
IsTime (some t) = t < 2 ^ 64

-- An address of 20 bytes, if there is one.
abbrev pub IsVault : Option String → Type 0
IsVault none = Unit
IsVault (some s) = (a : List ℕ) × (hex_to_bytes s ≡ ok a) × (length a ≡ 20)

abbrev pub vault_bytes : Option String → Option (Result (List ℕ))
vault_bytes none = none
vault_bytes (some s) = some (hex_to_bytes s)

expires_inj : (e f : Option ℕ) → IsTime e → IsTime f → expires_part e ≡ expires_part f → e ≡ f
unfolding expires_part
expires_inj none none h k p = refl
expires_inj none (some f) h k p = cc
expires_inj (some e) none h k p = cc
expires_inj (some e) (some f) h k p =
    let rest : push_be 8 e ≡ push_be 8 f = cc in ap some (push_be_inj e f h k rest)

ok_inj : {a b : List ℕ} → ok a ≡ ok b → a ≡ b
ok_inj h = cc

vault_inj :
    (v w : Option String) (e f : Option ℕ) {a b : List ℕ}
    → IsVault v
    → IsVault w
    → IsTime e
    → IsTime f
    → vault_part v ≡ ok a
    → vault_part w ≡ ok b
    → a ++ expires_part e ≡ b ++ expires_part f
    → (vault_bytes v ≡ vault_bytes w) × (e ≡ f)
unfolding vault_part
vault_inj none none e f {a} {b} hv hw he hf pa pb p =
    let za : a ≡ 0x00 ∷ [] = cc in
    let zb : b ≡ 0x00 ∷ [] = cc in
    (refl, expires_inj e f he hf (append_cancel_left (0x00 ∷ []) (rw (za, zb) at p)))
vault_inj none (some t) e f {a} {b} hv (y, ey, ly) he hf pa pb p =
    let za : a ≡ 0x00 ∷ [] = cc in
    let zb : b ≡ 0x01 ∷ y = ok_inj (sym pb ∙ (rw ey)) in cc (rw (za, zb) at p)
vault_inj (some s) none e f {a} {b} (x, ex, lx) hw he hf pa pb p =
    let zb : b ≡ 0x00 ∷ [] = cc in
    let za : a ≡ 0x01 ∷ x = ok_inj (sym pa ∙ (rw ex)) in cc (rw (za, zb) at p)
vault_inj (some s) (some t) e f {a} {b} (x, ex, lx) (y, ey, ly) he hf pa pb p =
    let za : a ≡ 0x01 ∷ x = ok_inj (sym pa ∙ (rw ex)) in
    let zb : b ≡ 0x01 ∷ y = ok_inj (sym pb ∙ (rw ey)) in
    let (heads, tails) = append_inj (0x01 ∷ x) (0x01 ∷ y) (omega arith) (rw (za, zb) at p) in
    let same : x ≡ y = cc in (ap some (ex ∙ ap ok same ∙ sym ey), expires_inj e f he hf tails)

-- A format in which no value's encoding is the beginning of another's.
abbrev pub IsPrefixFree : (List ℕ → Type 0) → Type 0
IsPrefixFree IsPacked = (p q r s : List ℕ) → IsPacked p → IsPacked q → p ++ r ≡ q ++ s → p ≡ q

-- If the packed actions are prefix-free, as MessagePack values are, the vault addresses have 20
-- bytes, and nonces and times are below 2^64, then equal hashed bytes come from equal parts.
pub action_data_inj :
    (IsPacked : List ℕ → Type 0)
    → IsPrefixFree IsPacked
    → (p q : List ℕ) (v w : Option String) (m n : ℕ) (e f : Option ℕ) (d : List ℕ) → IsPacked p
    → IsPacked q
    → IsVault v
    → IsVault w
    → m < 2 ^ 64
    → n < 2 ^ 64
    → IsTime e
    → IsTime f
    → action_data p v m e ≡ ok d
    → action_data q w n f ≡ ok d
    → (p ≡ q) × (m ≡ n) × (vault_bytes v ≡ vault_bytes w) × (e ≡ f)
unfolding action_data
action_data_inj IsPacked free p q v w m n e f d hp hq hv hw hm hn he hf dp dq =
    let (a, pa, ra) = >>=-eq-ok (vault_part v) _ dp in
    let (b, pb, rb) = >>=-eq-ok (vault_part w) _ dq in
    let whole = ok_inj (ra ∙ sym rb) in
    let packed = free p q _ _ hp hq whole in
    let (nonces, rest) =
      append_inj (push_be 8 m) (push_be 8 n) (omega (arith, push_be-length m, push_be-length n))
        (append_cancel_left q (rw packed at whole)) in
    let (vaults, times) = vault_inj v w e f hv hw he hf pa pb rest in
    (packed, push_be_inj m n hm hn nonces, vaults, times)
