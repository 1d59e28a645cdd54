-- ===== src/Messages/Mapping.antt =====
-- src/messages/ExchangeRequestBuilder.cpp: `initializeMapping`. What the exchange answers is an
-- argument. An `int` is a ℤ, so that nothing overflows.
pub mod Priority
use Prim.Native.String
use text.Mathlib.Text.{◌==◌ as str_eq}
use hyperliquid_sdk_cpp.Common.{
  ℕ, suc, ◌+◌, ◌*◌, String, ℤ, pos, negsuc, ◌+ℤ◌, Bool, true, false, ◌||◌, List, [], ◌∷◌, Option,
  none, some, Result, ok, err, out_of_range, ◌>>=◌, ◌==◌, if◌then◌else◌,
}
use hyperliquid_sdk_cpp.Config.{ApiConfig}
use hyperliquid_sdk_cpp.Rest.SymbolMap
use hyperliquid_sdk_cpp.Rest.SymbolMap.{SymbolMap}

pub record SpotAssetMeta : Type 0 where
  pub name : String
  pub index : ℤ

pub record SpotUniversePair : Type 0 where
  pub name : String
  pub tokens : List ℤ
  pub index : ℤ

-- The answers of `meta()`, `spotMetaAndAssetCtxs()`, `perpDexs()` and `meta(dex)`: of each asset
-- and dex, its name.
pub record Answers : Type 0 where
  pub universe : List String
  pub spot_tokens : List SpotAssetMeta
  pub spot_universe : List SpotUniversePair
  pub dexes : List String
  pub dex_universe : String → List String

eq_ℤ : ℤ → ℤ → Bool
eq_ℤ (pos m) (pos n) = m == n
eq_ℤ (negsuc m) (negsuc n) = m == n
eq_ℤ _ _ = false

-- `tokenByIndex`, as its `at`: of two tokens with one index the later stays.
pub TokenMap : Type 0
TokenMap = ℤ → Option SpotAssetMeta

pub token_by_index : List SpotAssetMeta → TokenMap → TokenMap
unfolding TokenMap
token_by_index [] at = at
token_by_index (t ∷ tokens) at =
    token_by_index tokens (λ i. if eq_ℤ t.index i then some t else at i)

at_or_throw : Option SpotAssetMeta → Result SpotAssetMeta
at_or_throw none = err out_of_range
at_or_throw (some t) = ok t

-- The first loop, and the inner loop over a dex: the ids go on from `id`.
pub set_perps : ℕ → List String → SymbolMap → SymbolMap
set_perps id [] m = m
set_perps id (name ∷ names) m = set_perps (suc id) names (SymbolMap.set name (pos id) m)

pub alias_of : TokenMap → List ℤ → Result (Option String)
unfolding TokenMap at_or_throw
alias_of at (base ∷ quote ∷ []) = do
  base_token ← at_or_throw (at base)
  quote_token ← at_or_throw (at quote)
  ok (some (String.◌++◌ base_token.name (String.◌++◌ "/" quote_token.name)))
alias_of at _ = ok none

pub add_alias : Option String → ℤ → SymbolMap → SymbolMap
add_alias none asset_id m = m
add_alias (some alias) asset_id m = SymbolMap.add alias asset_id m

abbrev pub spot_id : SpotUniversePair → ℤ
spot_id pair = pair.index +ℤ pos 10000

pub set_spot : TokenMap → List SpotUniversePair → SymbolMap → Result SymbolMap
set_spot at [] m = ok m
set_spot at (pair ∷ pairs) m = do
  alias ← alias_of at pair.tokens
  set_spot at pairs (add_alias alias (spot_id pair) (SymbolMap.set pair.name (spot_id pair) m))

unfoldable pub contains : String → List String → Bool
contains name [] = false
contains name (d ∷ dexes) = str_eq d name || contains name dexes

pub set_dexes : List String → (String → List String) → ℕ → List String → SymbolMap → SymbolMap
set_dexes wanted dex_universe perp_idx [] m = m
set_dexes wanted dex_universe perp_idx (dex ∷ dexes) m =
    set_dexes wanted dex_universe (perp_idx + 1) dexes (
      if contains dex wanted then set_perps (100000 + perp_idx * 10000) (dex_universe dex) m else m)

-- With no dex configured `perpDexs` is not asked.
abbrev pub dexes_asked : List String → List String → List String
dexes_asked [] dexes = []
dexes_asked (d ∷ wanted) dexes = dexes

pub no_tokens : TokenMap
unfolding TokenMap
no_tokens i = none

unfoldable pub initialize_mapping : ApiConfig → Answers → SymbolMap → Result SymbolMap
unfolding set_perps set_spot alias_of add_alias set_dexes contains token_by_index eq_ℤ no_tokens
initialize_mapping config answers m = elim config.wallet [
  | none ↦ ok m
  | some wallet ↦ do
    m' ← set_spot (token_by_index spot_tokens no_tokens) spot_universe (set_perps 0 universe m)
    ok (set_dexes config.dexes dex_universe 1 (dexes_asked config.dexes dexes) m')
]
  where
    open answers use {universe, spot_tokens, spot_universe, dexes, dex_universe}
