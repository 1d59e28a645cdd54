-- ===== src/Rest/Parser/Metadata.antt =====
-- src/rest/RestApiMessageParser.cpp: `parseMeta` and `parsePerpDexs`, whose lists give assets their
-- ids by position.
pub mod Entries
pub mod Positions
pub mod Ids
use hyperliquid_sdk_cpp.Common.{String, List, [], ◌∷◌, ◌++◌}
use hyperliquid_sdk_cpp.Simdjson
use hyperliquid_sdk_cpp.Simdjson.{SimdLib}
use hyperliquid_sdk_cpp.Simdjson.Attempt.{◌>>=◌, read, each}
use Entries.{AssetMeta, PerpDex, asset_meta, perp_dex}

pub record MetaResponse : Type 0 where
  pub universe : List AssetMeta

pub record PerpDexsResponse : Type 0 where
  pub dexes : List PerpDex

-- The first element is always null.
unfoldable pub skip_first {ℓ} : {A : Type ℓ} → List A → List A
skip_first [] = []
skip_first (x ∷ xs) = xs

module _ (S : SimdLib) where
  open S use {document, member, get_array}

  unfoldable pub parse_meta : String → MetaResponse
  parse_meta message =
      ((do
        doc ← read (document message)
        universe ← read (Simdjson.◌>>=◌ (member "universe" doc) get_array)
        each (asset_meta S) (λ asset r. record r { universe = r.universe ++ asset ∷ [] }) universe)
        (record { universe = [] })).0

  unfoldable pub parse_perp_dexs : String → PerpDexsResponse
  unfolding skip_first
  parse_perp_dexs message =
      ((do
        doc ← read (document message)
        arr ← read (get_array doc)
        each (perp_dex S) (λ dex r. record r { dexes = r.dexes ++ dex ∷ [] }) (skip_first arr))
        (record { dexes = [] })).0
