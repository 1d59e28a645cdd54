-- ===== src/Messages/Mapping/Priority.antt =====
-- Which of the entries for one symbol wins.
use text.Mathlib.Text.{◌==◌ as str_eq}
use hyperliquid_sdk_cpp.Common.{
  ℕ, suc, ◌+◌, ◌*◌, String, ℤ, pos, Bool, false, List, [], ◌∷◌, ◌≡◌, refl, sym, ◌∙◌, Option, none,
  some, Result, ok, err, >>=-eq-ok, if◌then◌else◌, or_else, or_else_assoc, or_else-none, Bool-cases,
  inl, inr,
}
use hyperliquid_sdk_cpp.Config.{ApiConfig, Wallet}
use hyperliquid_sdk_cpp.Rest.SymbolMap
use hyperliquid_sdk_cpp.Rest.SymbolMap.{SymbolMap}
use hyperliquid_sdk_cpp.Rest.SymbolMap.Laws.{find-set, find-add}
use hyperliquid_sdk_cpp.Messages.Mapping.{
  SpotUniversePair, Answers, TokenMap, token_by_index, set_perps, alias_of, add_alias, spot_id,
  set_spot, contains, set_dexes, dexes_asked, no_tokens, initialize_mapping,
}

abbrev pub when : Bool → ℤ → Option ℤ
when b id = if b then some id else none

-- The id of the last perp of that name, the ids counted from `id`.
unfoldable pub last_perp : String → ℕ → List String → Option ℤ
last_perp k id [] = none
last_perp k id (name ∷ names) = or_else (last_perp k (suc id) names) (when (str_eq name k) (pos id))

-- The id of the last spot pair of that name.
pub last_spot : String → List SpotUniversePair → Option ℤ
last_spot k [] = none
last_spot k (p ∷ ps) = or_else (last_spot k ps) (when (str_eq p.name k) (spot_id p))

abbrev is_alias : String → Result (Option String) → Bool
is_alias k (ok (some a)) = str_eq a k
is_alias k (ok none) = false
is_alias k (err e) = false

-- The id of the first spot pair whose "BASE/QUOTE" alias it is.
pub first_alias : TokenMap → String → List SpotUniversePair → Option ℤ
first_alias at k [] = none
first_alias at k (p ∷ ps) =
    or_else (when (is_alias k (alias_of at p.tokens)) (spot_id p)) (first_alias at k ps)

-- The id in the last configured dex that lists the name; dexes are counted from `perp_idx`.
unfoldable pub last_dex : List String → (String → List String) → String → ℕ → List String → Option ℤ
last_dex wanted dex_universe k perp_idx [] = none
last_dex wanted dex_universe k perp_idx (dex ∷ dexes) =
    or_else (last_dex wanted dex_universe k (perp_idx + 1) dexes) (
      if contains dex wanted
      then last_perp k (100000 + perp_idx * 10000) (dex_universe dex)
      else none)

set_perps-find :
    (k : String) (id : ℕ) (names : List String) (m : SymbolMap)
    → SymbolMap.find k (set_perps id names m) ≡ or_else (last_perp k id names) (SymbolMap.find k m)
unfolding set_perps last_perp
set_perps-find k id [] m = refl
set_perps-find k id (name ∷ names) m =
    simp (set_perps-find k (suc id) names, find-set, or_else_assoc)

add_alias-find :
    (k : String) (a : Option String) (id : ℤ) (m : SymbolMap)
    → SymbolMap.find k (add_alias a id m)
      ≡ or_else (SymbolMap.find k m) (when (is_alias k (ok a)) id)
unfolding add_alias
add_alias-find k none id m = sym (or_else-none _)
add_alias-find k (some a) id m = find-add a k id m

set_spot-find :
    (at : TokenMap) (k : String) (ps : List SpotUniversePair) (m : SymbolMap) {m' : SymbolMap}
    → set_spot at ps m ≡ ok m'
    → SymbolMap.find k m'
      ≡ or_else (last_spot k ps) (or_else (SymbolMap.find k m) (first_alias at k ps))
unfolding set_spot last_spot first_alias
set_spot-find at k [] m h = rw or_else-none (cc)
set_spot-find at k (p ∷ ps) m h =
    let (a, ea, rest) = >>=-eq-ok (alias_of at p.tokens) _ h in
    set_spot-find at k ps _ rest ∙ simp (add_alias-find, find-set, or_else_assoc, ea)

set_dexes-find :
    (wanted : List String) (dex_universe : String → List String) (k : String) (perp_idx : ℕ)
    (dexes : List String) (m : SymbolMap)
    → SymbolMap.find k (set_dexes wanted dex_universe perp_idx dexes m)
      ≡ or_else (last_dex wanted dex_universe k perp_idx dexes) (SymbolMap.find k m)
unfolding set_dexes last_dex
set_dexes-find wanted du k i [] m = refl
set_dexes-find wanted du k i (dex ∷ dexes) m = elim (Bool-cases (contains dex wanted)) [
  | inl e ↦ rw e (simp (set_dexes-find wanted du k (i + 1) dexes, set_perps-find, or_else_assoc))
  | inr e ↦ rw e (simp (set_dexes-find wanted du k (i + 1) dexes, set_perps-find, or_else_assoc))
]

-- With a wallet, the finished map answers for each symbol: the last configured dex that lists it;
-- else the last spot pair of that very name; else the last perp; else the first spot pair that has
-- it for an alias. So a real name wins over an alias, whichever came first.
pub mapping_priority :
    (config : ApiConfig) (wallet : Wallet) (answers : Answers) (k : String) {m : SymbolMap}
    → config.wallet ≡ some wallet
    → initialize_mapping config answers [] ≡ ok m
    → SymbolMap.find k m
      ≡ or_else
          (last_dex config.dexes answers.dex_universe k 1 (dexes_asked config.dexes answers.dexes))
          (or_else (last_spot k answers.spot_universe) (
            or_else
              (last_perp k 0 answers.universe)
              (first_alias (token_by_index answers.spot_tokens no_tokens) k answers.spot_universe)))
unfolding initialize_mapping SymbolMap.find
mapping_priority config wallet answers k {m} w h =
    let at = token_by_index answers.spot_tokens no_tokens in
    let perps = set_perps 0 answers.universe [] in
    let (m', spots, e) =
      >>=-eq-ok (set_spot at answers.spot_universe perps) _ (rw (w, initialize_mapping) at h) in
    let rest : m
        ≡ set_dexes config.dexes answers.dex_universe 1 (dexes_asked config.dexes answers.dexes)
            m' =
      cc in
    rw rest (
      simp (
        set_dexes-find,
        set_spot-find at k answers.spot_universe perps spots,
        set_perps-find,
        or_else-none,
      ))
