-- ===== src/Rest/Parser/Metadata/Positions.antt =====
-- An asset or a dex stands in the response where it stands in the message.
use hyperliquid_sdk_cpp.Common.{
  ℕ, zero, suc, String, List, [], ◌∷◌, ◌++◌, ◌≡◌, refl, ap, sym, ◌∙◌, append-nil, append_assoc,
  get_elem?, arith, Option, none, some, Option-cases, inl, inr,
}
use hyperliquid_sdk_cpp.Simdjson
use hyperliquid_sdk_cpp.Simdjson.{SimdLib, >>=-eq-some}
use hyperliquid_sdk_cpp.Simdjson.Attempt.{each}
use hyperliquid_sdk_cpp.Rest.Parser.Metadata.{
  MetaResponse, PerpDexsResponse, parse_meta, parse_perp_dexs,
}
use hyperliquid_sdk_cpp.Rest.Parser.Metadata.Entries.{asset_meta, perp_dex}

from_first {ℓ} : {E : Type ℓ} → Option E → List E → List E
from_first none later = []
from_first (some e) later = e ∷ later

-- What can be read before the first element that cannot.
unfoldable pub readable {ℓ κ} : {V : Type ℓ} {E : Type κ} → (V → Option E) → List V → List E
unfolding from_first
readable entry [] = []
readable entry (v ∷ vs) = from_first (entry v) (readable entry vs)

each-readable {ℓ κ μ} :
    {S : Type ℓ} {V : Type κ} {E : Type μ} (entry : V → Option E) (list : S → List E)
    (add : E → S → S) (vs : List V) (r : S)
    → ((e : E) (s : S) → list (add e s) ≡ list s ++ e ∷ [])
    → list (each entry add vs r).0 ≡ list r ++ readable entry vs
unfolding each readable
each-readable entry list add [] r h = sym (append-nil (list r))
each-readable entry list add (v ∷ vs) r h = elim (Option-cases (entry v)) [
  | inl x ↦ rw x (sym (append-nil (list r)))
  | inr (e, x) ↦ rw x (
      each-readable entry list add vs (add e r) h
      ∙ (ap (λ l. l ++ readable entry vs) (h e r)
          ∙ append_assoc (list r) (e ∷ []) (readable entry vs)))
]

-- Nothing is passed over, so nothing moves.
pub readable-get_elem? {ℓ κ} :
    {V : Type ℓ} {E : Type κ} (entry : V → Option E) (vs : List V) (i : ℕ) (e : E)
    → get_elem? (readable entry vs) i ≡ some e
    → (v : V) × (get_elem? vs i ≡ some v) × (entry v ≡ some e)
unfolding readable
readable-get_elem? entry [] i e h = cc
readable-get_elem? entry (v ∷ vs) zero e h = (v, refl, ground arith)
readable-get_elem? entry (v ∷ vs) (suc i) e h = readable-get_elem? entry vs i e (ground arith)

module _ (S : SimdLib) where
  open S use {Value, document, member, get_array}

  -- The raw arrays.
  abbrev pub universe_in : String → Option (List Value)
  universe_in message =
      Simdjson.◌>>=◌ (Simdjson.◌>>=◌ (document message) (member "universe")) get_array

  abbrev pub dexes_in : String → Option (List Value)
  dexes_in message = Simdjson.◌>>=◌ (document message) get_array

  pub parse_meta-universe :
      (message : String) (vs : List Value)
      → universe_in message ≡ some vs
      → (parse_meta S message).universe ≡ readable (asset_meta S) vs
  unfolding parse_meta
  parse_meta-universe message vs h =
      let (universe, du, u) =
        >>=-eq-some (Simdjson.◌>>=◌ (document message) (member "universe")) get_array h in
      let (doc, d, m) = >>=-eq-some (document message) (member "universe") du in
      rw (d, m, u)
        (each-readable (asset_meta S) (λ (r : MetaResponse). r.universe) _ vs
          (record { universe = [] }) (λ e r. refl))

  pub parse_perp_dexs-dexes :
      (message : String) (first : Value) (vs : List Value)
      → dexes_in message ≡ some (first ∷ vs)
      → (parse_perp_dexs S message).dexes ≡ readable (perp_dex S) vs
  unfolding parse_perp_dexs
  parse_perp_dexs-dexes message first vs h =
      let (doc, d, u) = >>=-eq-some (document message) get_array h in
      rw (d, u)
        (each-readable (perp_dex S) (λ (r : PerpDexsResponse). r.dexes) _ vs (record { dexes = [] })
          (λ e r. refl))
