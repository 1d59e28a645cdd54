-- ===== src/Messages/Examples.antt =====
-- Runs of the mapping and of the builders.
use hyperliquid_sdk_cpp.Common.{
  String, ◌+ℤ◌, pos, [], ◌∷◌, ◌≡◌, refl, none, some, false, ok, or_else,
}
use hyperliquid_sdk_cpp.Config.{mainnet, Wallet, ApiConfig}
use hyperliquid_sdk_cpp.Rest.SymbolMap
use hyperliquid_sdk_cpp.Json.Instance.{tree_json, tree_json-IsLawful}
use hyperliquid_sdk_cpp.Doubles.Instance.{text_doubles}
use hyperliquid_sdk_cpp.Types.Endpoint.{to_string}
use hyperliquid_sdk_cpp.Messages.Mapping.{
  Answers, token_by_index, no_tokens, dexes_asked, initialize_mapping,
}
use hyperliquid_sdk_cpp.Messages.Mapping.Priority.{
  last_perp, last_spot, first_alias, last_dex, mapping_priority,
}
use hyperliquid_sdk_cpp.Messages.Wire.{normalize}
use hyperliquid_sdk_cpp.Messages.Wire.Decimal.{append, zeros, with_fraction, normalize-zeros}
use hyperliquid_sdk_cpp.Messages.Exchange.{ExchangeRequest, usd_send, endpoint_of, build}
use hyperliquid_sdk_cpp.Messages.Exchange.Shape.{Ensures, IsBodyOf, build-IsBodyOf}

abbrev some_wallet : Wallet
some_wallet = record { account_address = "0xaa"; private_key = "0x0b" }

abbrev with_dex : ApiConfig
with_dex = record {
  env = mainnet;
  wallet = some some_wallet;
  dexes = "unit" ∷ [];
  skip_building_symbol_map = false;
  vault_address = none;
  validate_json = false;
}

-- The perp "PURR/USDC" is shadowed by the spot pair of that name; the alias of pair 1 loses to it.
abbrev answers : Answers
answers = record {
  universe = "BTC" ∷ "PURR/USDC" ∷ [];
  spot_tokens =
      record { name = "USDC"; index = pos 0 } ∷ record { name = "PURR"; index = pos 1 } ∷ [];
  spot_universe =
      record { name = "PURR/USDC"; tokens = pos 1 ∷ pos 0 ∷ []; index = pos 0 }
      ∷ record { name = "@1"; tokens = pos 1 ∷ pos 0 ∷ []; index = pos 1 }
      ∷ [];
  dexes = "" ∷ "unit" ∷ [];
  dex_universe = λ dex. "unit:GOLD" ∷ [];
}

mapped : (m : SymbolMap.SymbolMap) × (initialize_mapping with_dex answers [] ≡ ok m)
unfolding initialize_mapping
mapped = (_, refl)

purr_is_spot : SymbolMap.find "PURR/USDC" mapped.0 ≡ some (pos 10000)
unfolding SymbolMap.find SymbolMap.set SymbolMap.add ◌+ℤ◌ mapped
purr_is_spot = refl

mapping_priority_example :
    SymbolMap.find "PURR/USDC" mapped.0
    ≡ or_else
        (last_dex with_dex.dexes answers.dex_universe "PURR/USDC" 1
          (dexes_asked with_dex.dexes answers.dexes))
        (or_else (last_spot "PURR/USDC" answers.spot_universe) (
          or_else (last_perp "PURR/USDC" 0 answers.universe) (
            first_alias
              (token_by_index answers.spot_tokens no_tokens)
              "PURR/USDC"
              answers.spot_universe)))
mapping_priority_example = mapping_priority with_dex some_wallet answers "PURR/USDC" refl mapped.1

normal_zeros : normalize "1.50000000" ≡ "1.5"
unfolding normalize
normal_zeros = refl

normal_whole : normalize "100.00000000" ≡ "100"
unfolding normalize
normal_whole = refl

normalize-zeros_example :
    normalize (append "12" (String.◌∷◌ "." (append "34" (zeros 6)))) ≡ with_fraction "12" "34"
normalize-zeros_example = normalize-zeros "12" "34" 6 (refl, (refl, tt)) refl

abbrev transfer : ExchangeRequest String
transfer = usd_send "0xaa" "2.50000000"

build-IsBodyOf_example :
    Ensures
      (IsBodyOf tree_json tree_json-IsLawful (to_string (endpoint_of transfer)))
      (build tree_json text_doubles [] transfer)
build-IsBodyOf_example = build-IsBodyOf tree_json tree_json-IsLawful text_doubles [] transfer
