-- ===== src/Types/Subscription.antt =====
-- include/hyperliquid/types/RequestTypes.h: the subscription channels and their wire names.
pub mod Laws
use text.Mathlib.Text.{◌==◌ as str_eq}
use hyperliquid_sdk_cpp.Common.{String, if◌then◌else◌, Result, ok, err, invalid_argument}

pub data SubscriptionType : Type 0 where
  l2_book bbo trades candle all_mids : SubscriptionType
  notification web_data3 twap_states clearing_house_state open_orders : SubscriptionType
  order_updates user_events user_fills user_fundings user_non_funding_ledger_updates :
      SubscriptionType
  active_asset_ctx active_asset_data user_twap_slice_fills user_twap_history spot_state :
      SubscriptionType
  all_dexs_clearinghouse_state all_dexs_asset_ctxs fast_asset_ctxs outcome_meta_updates unknown :
      SubscriptionType

-- `default:` throws; only `Unknown` reaches it.
unfoldable pub to_string : SubscriptionType → Result String
to_string l2_book = ok "l2Book"
to_string bbo = ok "bbo"
to_string trades = ok "trades"
to_string candle = ok "candle"
to_string all_mids = ok "allMids"
to_string notification = ok "notification"
to_string web_data3 = ok "webData3"
to_string twap_states = ok "twapStates"
to_string clearing_house_state = ok "clearinghouseState"
to_string open_orders = ok "openOrders"
to_string order_updates = ok "orderUpdates"
to_string user_events = ok "userEvents"
to_string user_fills = ok "userFills"
to_string user_fundings = ok "userFundings"
to_string user_non_funding_ledger_updates = ok "userNonFundingLedgerUpdates"
to_string active_asset_ctx = ok "activeAssetCtx"
to_string active_asset_data = ok "activeAssetData"
to_string user_twap_slice_fills = ok "userTwapSliceFills"
to_string user_twap_history = ok "userTwapHistory"
to_string spot_state = ok "spotState"
to_string all_dexs_clearinghouse_state = ok "allDexsClearinghouseState"
to_string all_dexs_asset_ctxs = ok "allDexsAssetCtxs"
to_string fast_asset_ctxs = ok "fastAssetCtxs"
to_string outcome_meta_updates = ok "outcomeMetaUpdates"
to_string unknown = err (invalid_argument "Unknown SubscriptionType")

unfoldable pub string_to_subscription_type : String → SubscriptionType
string_to_subscription_type s =
    if str_eq s "l2Book"
    then l2_book
    else if str_eq s "bbo"
    then bbo
    else if str_eq s "trades"
    then trades
    else if str_eq s "candle"
    then candle
    else if str_eq s "allMids"
    then all_mids
    else if str_eq s "notification"
    then notification
    else if str_eq s "webData3"
    then web_data3
    else if str_eq s "twapStates"
    then twap_states
    else if str_eq s "clearinghouseState"
    then clearing_house_state
    else if str_eq s "openOrders"
    then open_orders
    else if str_eq s "orderUpdates"
    then order_updates
    else if str_eq s "userEvents"
    then user_events
    else if str_eq s "userFills"
    then user_fills
    else if str_eq s "userFundings"
    then user_fundings
    else if str_eq s "userNonFundingLedgerUpdates"
    then user_non_funding_ledger_updates
    else if str_eq s "activeAssetCtx"
    then active_asset_ctx
    else if str_eq s "activeAssetData"
    then active_asset_data
    else if str_eq s "userTwapSliceFills"
    then user_twap_slice_fills
    else if str_eq s "userTwapHistory"
    then user_twap_history
    else if str_eq s "spotState"
    then spot_state
    else if str_eq s "allDexsClearinghouseState"
    then all_dexs_clearinghouse_state
    else if str_eq s "allDexsAssetCtxs"
    then all_dexs_asset_ctxs
    else if str_eq s "fastAssetCtxs"
    then fast_asset_ctxs
    else if str_eq s "outcomeMetaUpdates"
    then outcome_meta_updates
    else unknown
