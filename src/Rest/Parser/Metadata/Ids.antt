-- ===== src/Rest/Parser/Metadata/Ids.antt =====
-- From the exchange's answers to asset ids: `parseMeta` and `parsePerpDexs`, and the loops of
-- `initializeMapping` in src/messages/ExchangeRequestBuilder.cpp.
use text.Mathlib.Text.{◌==◌ as str_eq}
use text.Mathlib.TextEquality.{eq_iff}
use hyperliquid_sdk_cpp.Common.{
  ℕ, zero, suc, ◌+◌, ◌*◌, String, ℤ, pos, true, List, [], ◌∷◌, map, ◌≡◌, refl, ap, get_elem?, arith,
  Option, none, some, Option-cases, Bool-cases, inl, inr,
}
use hyperliquid_sdk_cpp.Messages.Mapping.{contains}
use hyperliquid_sdk_cpp.Messages.Mapping.Priority.{last_perp, last_dex}
use hyperliquid_sdk_cpp.Simdjson.{SimdLib}
use hyperliquid_sdk_cpp.Rest.Parser.Metadata.{parse_meta, parse_perp_dexs}
use hyperliquid_sdk_cpp.Rest.Parser.Metadata.Entries.{AssetMeta, PerpDex, asset_meta, perp_dex}
use hyperliquid_sdk_cpp.Rest.Parser.Metadata.Positions.{
  readable-get_elem?, universe_in, dexes_in, parse_meta-universe, parse_perp_dexs-dexes,
}

last_perp-position :
    (k : String) (id : ℕ) (names : List String) (z : ℤ)
    → last_perp k id names ≡ some z
    → (j : ℕ) × (get_elem? names j ≡ some k) × (z ≡ pos (id + j))
unfolding last_perp
last_perp-position k id [] z h = cc
last_perp-position k id (name ∷ names) z h = elim (Option-cases (last_perp k (suc id) names)) [
  | inr (y, e) ↦
      let (j, at, eq) = last_perp-position k (suc id) names y e in (suc j, at, ground (arith, eq))
  | inl e ↦ elim (Bool-cases (str_eq name k)) [
    | inl b ↦ (zero, ap some ((eq_iff name k).0 b), ground arith)
    | inr b ↦ let none_is : ◌≡◌ {A = Option ℤ} none (some z) = rw (e, b) at h in cc
  ]
]

last_dex-position :
    (wanted : List String) (universe : String → List String) (k : String) (idx : ℕ)
    (dexes : List String) (z : ℤ)
    → last_dex wanted universe k idx dexes ≡ some z
    → (i : ℕ) × (dex : String) × (j : ℕ) × (get_elem? dexes i ≡ some dex)
      × (contains dex wanted ≡ true)
      × (get_elem? (universe dex) j ≡ some k)
      × (z ≡ pos (100000 + (idx + i) * 10000 + j))
unfolding last_dex
last_dex-position wanted universe k idx [] z h = cc
last_dex-position wanted universe k idx (dex ∷ dexes) z h =
    elim (Option-cases (last_dex wanted universe k (idx + 1) dexes)) [
      | inr (y, e) ↦
          let (i, d, j, at, c, u, eq) = last_dex-position wanted universe k (idx + 1) dexes y e in
          let same : y ≡ z = ground arith in
          (suc i, d, j, at, c, u, rw (← same) (rw eq (ground arith)))
      | inl e ↦ elim (Bool-cases (contains dex wanted)) [
        | inl c ↦
            let perp : last_perp k (100000 + idx * 10000) (universe dex) ≡ some z =
              rw (e, c) at h in
            let (j, u, eq) = last_perp-position k _ (universe dex) z perp in
            (zero, dex, j, refl, c, u, rw eq (ground arith))
        | inr c ↦ let none_is : ◌≡◌ {A = Option ℤ} none (some z) = rw (e, c) at h in cc
      ]
    ]

get_elem?-map {ℓ κ} :
    {A : Type ℓ} {B : Type κ} (f : A → B) (xs : List A) (i : ℕ) (b : B)
    → get_elem? (map f xs) i ≡ some b
    → (a : A) × (get_elem? xs i ≡ some a) × (f a ≡ b)
get_elem?-map f [] i b h = cc
get_elem?-map f (x ∷ xs) zero b h = (x, refl, cc)
get_elem?-map f (x ∷ xs) (suc i) b h = get_elem?-map f xs i b h

module _ (S : SimdLib) where
  open S use {Value}

  -- What `initializeMapping` keeps of an answer to `meta` and to `perpDexs`.
  abbrev pub universe_of : String → List String
  universe_of message = map (λ (a : AssetMeta). a.name) (parse_meta S message).universe

  abbrev pub dexes_of : String → List String
  dexes_of message = map (λ (d : PerpDex). d.name) (parse_perp_dexs S message).dexes

  -- A name in the universe, and where it stands in the message.
  abbrev pub StandsAt : List Value → ℕ → String → Type 0
  StandsAt universe j name =
      (v : Value) × (a : AssetMeta) × (get_elem? universe j ≡ some v)
      × (asset_meta S v ≡ some a)
      × (a.name ≡ name)

  universe_of-StandsAt :
      (message : String) (universe : List Value) (j : ℕ) (k : String)
      → universe_in S message ≡ some universe
      → get_elem? (universe_of message) j ≡ some k
      → StandsAt universe j k
  universe_of-StandsAt message universe j k u h =
      let (a, at, name) = get_elem?-map _ (parse_meta S message).universe j k h in
      let (v, found, entry) =
        readable-get_elem? (asset_meta S) universe j a
          (rw (parse_meta-universe S message universe u) at at) in
      (v, a, found, entry, name)

  -- The id that a perp's name gets, if none of the later rules gives it another, is its position in
  -- the universe of the message, also where an entry of the universe cannot be read: then the
  -- entries from there on have no id.
  pub perp_ids_are_positions :
      (message : String) (universe : List Value) (k : String) (id : ℤ)
      → universe_in S message ≡ some universe
      → last_perp k 0 (universe_of message) ≡ some id
      → (j : ℕ) × (id ≡ pos j) × StandsAt universe j k
  perp_ids_are_positions message universe k id u h =
      let (j, at, eq) = last_perp-position k 0 (universe_of message) id h in
      (j, rw eq (ground arith), universe_of-StandsAt message universe j k u at)

  -- The id that an asset of a configured dex gets is 100000, and 10000 for each place of the dex in
  -- the answer to `perpDexs`, whose first element is skipped, and the asset's place in the dex's
  -- universe. Damaged entries move nothing.
  pub dex_ids_are_positions :
      (wanted : List String) (message : String) (first : Value) (later : List Value)
      (reply : String → String) (universe : String → List Value) (k : String) (id : ℤ)
      → dexes_in S message ≡ some (first ∷ later)
      → ((dex : String) → universe_in S (reply dex) ≡ some (universe dex))
      → last_dex wanted (λ dex. universe_of (reply dex)) k 1 (dexes_of message) ≡ some id
      → (i : ℕ) × (v : Value) × (d : PerpDex) × (j : ℕ) × (get_elem? (first ∷ later) i ≡ some v)
        × (perp_dex S v ≡ some d)
        × (contains d.name wanted ≡ true)
        × StandsAt (universe d.name) j k
        × (id ≡ pos (100000 + i * 10000 + j))
  dex_ids_are_positions wanted message first later reply universe k id ds us h =
      let (i, name, j, at, wants, lists, eq) =
        last_dex-position wanted (λ dex. universe_of (reply dex)) k 1 (dexes_of message) id h in
      let (d, stands, named) = get_elem?-map _ (parse_perp_dexs S message).dexes i name at in
      let (v, found, entry) =
        readable-get_elem? (perp_dex S) later i d
          (rw (parse_perp_dexs-dexes S message first later ds) at stands) in
      (
        suc i,
        v,
        d,
        j,
        found,
        entry,
        rw named wants,
        universe_of-StandsAt (reply d.name) (universe d.name) j k (us d.name) (rw named lists),
        rw eq (ground arith),
      )
