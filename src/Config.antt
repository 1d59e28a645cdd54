-- ===== src/Config.antt =====
-- include/hyperliquid/config/Config.h, and the environments of
-- include/hyperliquid/types/RequestTypes.h.
use hyperliquid_sdk_cpp.Common.{String, Bool, List, Option}

pub data Environment : Type 0 where
  mainnet testnet : Environment

pub record Endpoint : Type 0 where
  pub host : String
  pub port : String
  pub path : String

unfoldable pub to_ws_endpoint : Environment → Endpoint
to_ws_endpoint mainnet = record { host = "api.hyperliquid.xyz"; port = "443"; path = "/ws" }
to_ws_endpoint testnet = record { host = "api.hyperliquid-testnet.xyz"; port = "443"; path = "/ws" }

unfoldable pub to_info_endpoint : Environment → Endpoint
to_info_endpoint mainnet = record { host = "api.hyperliquid.xyz"; port = "443"; path = "/info" }
to_info_endpoint testnet = record {
  host = "api.hyperliquid-testnet.xyz";
  port = "443";
  path = "/info";
}

pub record Wallet : Type 0 where
  pub account_address : String
  pub private_key : String

-- `dexes` is a `std::set`: only membership is asked.
pub record ApiConfig : Type 0 where
  pub env : Environment
  pub wallet : Option Wallet
  pub dexes : List String
  pub skip_building_symbol_map : Bool
  pub vault_address : Option String
  pub validate_json : Bool
