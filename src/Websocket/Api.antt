-- ===== src/Websocket/Api.antt =====
-- src/websocket/WebsocketApi.cpp: the methods that post a request, and `subscribe` and
-- `unsubscribe`. The methods are those of src/rest/RestApi.cpp, with a correlation id.
pub mod InfoCalls
pub mod ExchangeCalls
pub mod Transports
pub mod Filters
mod Examples
use hyperliquid_sdk_cpp.Common.{
  ℕ, String, Bool, true, false, List, [], ◌∷◌, Option, none, some, Result, ok, err, ◌>>=◌,
  if◌then◌else◌,
}
use hyperliquid_sdk_cpp.Config.{ApiConfig, Wallet}
use hyperliquid_sdk_cpp.Json.{JsonLib, lookup}
use hyperliquid_sdk_cpp.Doubles.{Doubles}
use hyperliquid_sdk_cpp.Types.Endpoint.{RestEndpointType}
use hyperliquid_sdk_cpp.Types.Subscription.{
  SubscriptionType, order_updates, user_events, user_fills, user_fundings,
  user_non_funding_ledger_updates, notification, web_data3, twap_states, clearing_house_state,
  open_orders, active_asset_data, user_twap_slice_fills, user_twap_history, spot_state,
  all_dexs_clearinghouse_state, to_string,
}
use hyperliquid_sdk_cpp.Messages.Wire.{◌▷◌}
use hyperliquid_sdk_cpp.Rest.SymbolMap.{SymbolMap}
use hyperliquid_sdk_cpp.Rest.Api.{Request, info, exchange}
use hyperliquid_sdk_cpp.Signing.Eip712.{Crypto}
use hyperliquid_sdk_cpp.Websocket.Posts.{Posts, sign_and_send}
use InfoCalls.{info_call}
use ExchangeCalls.{exchange_call}

module _ (C : Crypto) (J : JsonLib) (D : Doubles) where
  open J use {Object}
  open D use {Double}

  pub post_built :
      (now : ℕ)
      → ApiConfig
      → RestEndpointType
      → Result Object
      → Option String
      → Option ℕ
      → ℕ
      → Posts
      → Result Object × ℕ × Posts
  post_built now config type (err e) vault_address correlation_id last posts = (err e, last, posts)
  post_built now config type (ok body) vault_address correlation_id last posts =
      sign_and_send C J now config type body vault_address none correlation_id last posts

  -- The message that goes to the runner, `lastNonce` and the table of posts.
  unfoldable pub post :
      (now : ℕ)
      → ApiConfig
      → SymbolMap
      → Request Double
      → Option ℕ
      → ℕ
      → Posts
      → Result Object × ℕ × Posts
  unfolding post_built info_call exchange_call
  post now config symbols (info request) correlation_id last posts =
      let call = info_call J request in
      sign_and_send C J now config call.0 call.1 none none correlation_id last posts
  post now config symbols (exchange request vault_address) correlation_id last posts =
      let call = exchange_call J D symbols vault_address request in
      post_built now config call.0 call.1 call.2 correlation_id last posts

unfoldable pub is_user_subscription : SubscriptionType → Bool
is_user_subscription order_updates = true
is_user_subscription user_events = true
is_user_subscription user_fills = true
is_user_subscription user_fundings = true
is_user_subscription user_non_funding_ledger_updates = true
is_user_subscription notification = true
is_user_subscription web_data3 = true
is_user_subscription twap_states = true
is_user_subscription clearing_house_state = true
is_user_subscription open_orders = true
is_user_subscription active_asset_data = true
is_user_subscription user_twap_slice_fills = true
is_user_subscription user_twap_history = true
is_user_subscription spot_state = true
is_user_subscription all_dexs_clearinghouse_state = true
is_user_subscription _ = false

-- The address that is added; `filters` is a `std::map`, here a list without double keys.
unfoldable pub default_user : SubscriptionType → Option Wallet → Option String → Option String
default_user type none filtered = none
default_user type (some wallet) (some user) = none
default_user type (some wallet) none =
    if is_user_subscription type then some wallet.account_address else none

-- `J` is here `nlohmann::json`, whose objects keep their members sorted by key.
module _ (J : JsonLib) where
  open J use {Object, string, object, empty, assign}

  -- The loop over the filters.
  pub assign_filters : List (String × String) → Object → Object
  assign_filters [] o = o
  assign_filters ((key, value) ∷ filters) o = assign_filters filters (assign key (string value) o)

  pub assign_user : Option String → Object → Object
  assign_user none o = o
  assign_user (some user) o = assign "user" (string user) o

  unfoldable pub subscribe : ApiConfig → SubscriptionType → List (String × String) → Result Object
  unfolding assign_filters assign_user default_user
  subscribe config type filters = do
    name ← to_string type
    let subscription =
        empty
        ▷ assign "type" (string name)
        ▷ assign_user (default_user type config.wallet (lookup "user" filters))
        ▷ assign_filters filters
    ok (empty ▷ assign "method" (string "subscribe") ▷ assign "subscription" (object subscription))

  unfoldable pub unsubscribe : ApiConfig → SubscriptionType → List (String × String) → Result Object
  unfolding assign_filters assign_user default_user
  unsubscribe config type filters = do
    name ← to_string type
    let subscription =
        empty
        ▷ assign "type" (string name)
        ▷ assign_user (default_user type config.wallet (lookup "user" filters))
        ▷ assign_filters filters
    ok (
        empty
        ▷ assign "method" (string "unsubscribe")
        ▷ assign "subscription" (object subscription))
