-- ===== src/Rest/Parser/Metadata/Entries.antt =====
-- src/rest/RestApiMessageParser.cpp: one asset, one dex. The structs are of
-- include/hyperliquid/types/ResponseTypes.h.
use hyperliquid_sdk_cpp.Common.{ℤ, to_i32, String, List, [], ◌∷◌, Option, some}
use hyperliquid_sdk_cpp.Simdjson.{SimdLib, ◌>>=◌, get_object, string_at, when_found, unless_null}

pub record AssetMeta : Type 0 where
  pub name : String
  pub sz_decimals : ℤ
  pub max_leverage : ℤ

pub record PerpDex : Type 0 where
  pub name : String
  pub full_name : String
  pub deployer : String
  pub oracle_updater : Option String
  pub fee_recipient : Option String
  pub asset_to_streaming_oi_cap : List (String × String)
  pub asset_to_funding_multiplier : List (String × String)

module _ (S : SimdLib) where
  open S use {Value, member, get_string, get_int64, get_array}

  -- `static_cast<int>(obj[key].get_int64().value())`
  int_at : String → Value → Option ℤ
  int_at key obj = do n ← member key obj >>= get_int64; some (to_i32 n)

  unfoldable pub asset_meta : Value → Option AssetMeta
  unfolding int_at
  asset_meta v = do
    obj ← get_object S v
    name ← string_at S "name" obj
    sz_decimals ← int_at "szDecimals" obj
    max_leverage ← int_at "maxLeverage" obj
    some (record { name = name; sz_decimals = sz_decimals; max_leverage = max_leverage })

  -- The first two elements; a shorter array is passed over, though its first element is read.
  pair_of : List Value → Option (List (String × String))
  pair_of [] = some []
  pair_of (asset ∷ []) = do name ← get_string asset; some []
  pair_of (asset ∷ value ∷ more) = do
    name ← get_string asset
    text ← get_string value
    some ((name, text) ∷ [])

  prepend : List (String × String) → List (String × String) → List (String × String)
  prepend [] pairs = pairs
  prepend (p ∷ ps) pairs = p ∷ prepend ps pairs

  pairs_of : List Value → Option (List (String × String))
  unfolding pair_of prepend
  pairs_of [] = some []
  pairs_of (v ∷ vs) = do
    arr ← get_array v
    pair ← pair_of arr
    later ← pairs_of vs
    some (prepend pair later)

  text_unless_null : String → Value → Option (Option String)
  text_unless_null key obj = when_found S get_string (unless_null S (member key obj))

  unfoldable pub perp_dex : Value → Option PerpDex
  unfolding pairs_of text_unless_null
  perp_dex v = do
    obj ← get_object S v
    name ← string_at S "name" obj
    full_name ← string_at S "fullName" obj
    deployer ← string_at S "deployer" obj
    oracle_updater ← text_unless_null "oracleUpdater" obj
    fee_recipient ← text_unless_null "feeRecipient" obj
    caps ← member "assetToStreamingOiCap" obj >>= get_array
    oi_caps ← pairs_of caps
    multipliers ← member "assetToFundingMultiplier" obj >>= get_array
    funding ← pairs_of multipliers
    some (record {
      name = name;
      full_name = full_name;
      deployer = deployer;
      oracle_updater = oracle_updater;
      fee_recipient = fee_recipient;
      asset_to_streaming_oi_cap = oi_caps;
      asset_to_funding_multiplier = funding;
    })
