-- ===== src/Messages/Info/Trading.antt =====
-- src/messages/InfoRequestBuilder.cpp: a user's orders, fills, funding and positions.
use mathlib.Core.Option
use hyperliquid_sdk_cpp.Common.{ℕ, String, Bool, Option}
use hyperliquid_sdk_cpp.Json.{JsonLib}
use hyperliquid_sdk_cpp.Types.Endpoint.{RestEndpointType, to_string}
use hyperliquid_sdk_cpp.Messages.Wire.{◌▷◌, unsigned, assign_some}

-- `std::variant<uint64_t, std::string>`
pub data OrderId : Type 0 where
  by_oid : ℕ → OrderId
  by_cloid : String → OrderId

module _ (J : JsonLib) where
  open J use {Json, Object, string, number, boolean, object, empty, assign}

  -- The visitor's `body["oid"] = value`.
  order_id_json : OrderId → Json
  order_id_json (by_oid n) = unsigned J n
  order_id_json (by_cloid s) = string s

  unfoldable pub user_funding : String → ℕ → Option ℕ → Object
  user_funding user start_time end_time =
      empty
      ▷ assign "type" (string (to_string RestEndpointType.user_funding))
      ▷ assign "user" (string user)
      ▷ assign "startTime" (unsigned J start_time)
      ▷ assign_some J "endTime" (Option.map (unsigned J) end_time)

  unfoldable pub user_non_funding_ledger_updates : String → ℕ → Option ℕ → Object
  user_non_funding_ledger_updates user start_time end_time =
      empty
      ▷ assign "type" (string (to_string RestEndpointType.user_non_funding_ledger_updates))
      ▷ assign "user" (string user)
      ▷ assign "startTime" (unsigned J start_time)
      ▷ assign_some J "endTime" (Option.map (unsigned J) end_time)

  unfoldable pub open_orders : String → Option String → Object
  open_orders user dex =
      empty
      ▷ assign "type" (string (to_string RestEndpointType.open_orders))
      ▷ assign "user" (string user)
      ▷ assign_some J "dex" (Option.map string dex)

  unfoldable pub order_status : String → OrderId → Object
  unfolding order_id_json
  order_status user oid =
      empty
      ▷ assign "type" (string (to_string RestEndpointType.order_status))
      ▷ assign "user" (string user)
      ▷ assign "oid" (order_id_json oid)

  unfoldable pub user_fills : String → Option Bool → Option String → Object
  user_fills user aggregate_by_time dex =
      empty
      ▷ assign "type" (string (to_string RestEndpointType.user_fills))
      ▷ assign "user" (string user)
      ▷ assign_some J "aggregateByTime" (Option.map boolean aggregate_by_time)
      ▷ assign_some J "dex" (Option.map string dex)

  unfoldable pub user_fills_by_time : String → ℕ → Option ℕ → Option Bool → Option String → Object
  user_fills_by_time user start_time end_time aggregate_by_time dex =
      empty
      ▷ assign "type" (string (to_string RestEndpointType.user_fills_by_time))
      ▷ assign "user" (string user)
      ▷ assign "startTime" (unsigned J start_time)
      ▷ assign_some J "endTime" (Option.map (unsigned J) end_time)
      ▷ assign_some J "aggregateByTime" (Option.map boolean aggregate_by_time)
      ▷ assign_some J "dex" (Option.map string dex)

  unfoldable pub clearinghouse_state : String → Option String → Object
  clearinghouse_state user dex =
      empty
      ▷ assign "type" (string (to_string RestEndpointType.clearinghouse_state))
      ▷ assign "user" (string user)
      ▷ assign_some J "dex" (Option.map string dex)

  unfoldable pub spot_clearinghouse_state : String → Option String → Object
  spot_clearinghouse_state user dex =
      empty
      ▷ assign "type" (string (to_string RestEndpointType.spot_clearinghouse_state))
      ▷ assign "user" (string user)
      ▷ assign_some J "dex" (Option.map string dex)

  unfoldable pub frontend_open_orders : String → Option String → Object
  frontend_open_orders user dex =
      empty
      ▷ assign "type" (string (to_string RestEndpointType.frontend_open_orders))
      ▷ assign "user" (string user)
      ▷ assign_some J "dex" (Option.map string dex)

  unfoldable pub historical_orders : String → Object
  historical_orders user =
      empty
      ▷ assign "type" (string (to_string RestEndpointType.historical_orders))
      ▷ assign "user" (string user)

  unfoldable pub user_twap_slice_fills : String → Object
  user_twap_slice_fills user =
      empty
      ▷ assign "type" (string (to_string RestEndpointType.user_twap_slice_fills))
      ▷ assign "user" (string user)

  unfoldable pub user_twap_slice_fills_by_time : String → ℕ → Option ℕ → Option Bool → Object
  user_twap_slice_fills_by_time user start_time end_time aggregate_by_time =
      empty
      ▷ assign "type" (string (to_string RestEndpointType.user_twap_slice_fills_by_time))
      ▷ assign "user" (string user)
      ▷ assign "startTime" (unsigned J start_time)
      ▷ assign_some J "endTime" (Option.map (unsigned J) end_time)
      ▷ assign_some J "aggregateByTime" (Option.map boolean aggregate_by_time)

  unfoldable pub twap_history : String → Object
  twap_history user =
      empty
      ▷ assign "type" (string (to_string RestEndpointType.twap_history))
      ▷ assign "user" (string user)

  unfoldable pub active_asset_data : String → String → Object
  active_asset_data user coin =
      empty
      ▷ assign "type" (string (to_string RestEndpointType.active_asset_data))
      ▷ assign "user" (string user)
      ▷ assign "coin" (string coin)
