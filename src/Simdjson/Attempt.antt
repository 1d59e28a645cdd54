-- ===== src/Simdjson/Attempt.antt =====
-- A `try` block that fills a response field by field, and a `catch` that only logs: what was filled
-- before an error stays.
use hyperliquid_sdk_cpp.Common.{List, [], ◌∷◌, Option, none, some}

abbrev pub Attempt {ℓ κ} : Type ℓ → Type κ → Type (ℓ ⊔ κ)
Attempt S A = S → S × Option A

module _ {ℓ κ} {S : Type ℓ} {A : Type κ} where
  abbrev continue_with {μ} : {B : Type μ} → (A → Attempt S B) → S × Option A → S × Option B
  continue_with f (s, none) = (s, none)
  continue_with f (s, some a) = f a s

  infixl 5 ◌>>=◌
  abbrev pub ◌>>=◌ {μ} : {B : Type μ} → Attempt S A → (A → Attempt S B) → Attempt S B
  ◌>>=◌ m f s = continue_with f (m s)

  -- An error ends the block.
  abbrev pub read : Option A → Attempt S A
  read o s = (s, o)

module _ {ℓ} {S : Type ℓ} where
  infixl 5 ◌>>◌
  abbrev pub ◌>>◌ {μ} : {B : Type μ} → Attempt S (Unit {0}) → Attempt S B → Attempt S B
  m >> k = m >>= λ _. k

  abbrev pub write : (S → S) → Attempt S (Unit {0})
  write f s = (f s, some tt)

  -- `return response;`
  abbrev pub stop : Attempt S (Unit {0})
  stop s = (s, some tt)

-- A loop that reads an element and adds it to the response.
unfoldable pub each {ℓ κ μ} :
    {S : Type ℓ} {V : Type κ} {E : Type μ}
    → (V → Option E)
    → (E → S → S)
    → List V
    → Attempt S (Unit {0})
each entry add [] = stop
each entry add (v ∷ vs) = do e ← read (entry v); write (add e); each entry add vs
