-- ===== src/Websocket/Parser.antt =====
-- src/websocket/WebsocketMessageParser.cpp: which parser a message is handed to (`crack`), and the
-- parsers of books and trades. The structs are of include/hyperliquid/types/ResponseTypes.h.
pub mod Channels
pub mod Book
pub mod Trades
pub mod Candles
pub mod Subscriptions
pub mod User
mod Examples
use text.Mathlib.Text.{◌==◌ as str_eq}
use hyperliquid_sdk_cpp.Common.{String, List, Option, none, some, if◌then◌else◌}
use hyperliquid_sdk_cpp.Simdjson.{SimdLib, ◌>>=◌, get_object, string_at}

-- The functions that `crack` calls: by the type of the data that they are given.
pub data ObjectParser : Type 0 where
  crack_l2_book crack_bbo crack_all_mids crack_active_asset_ctx : ObjectParser
  crack_user_fills crack_user_events crack_subscription_response : ObjectParser
  crack_user_fundings crack_user_non_funding_ledger_updates crack_web_data3 : ObjectParser
  crack_clearinghouse_state crack_open_orders crack_twap_states crack_notification : ObjectParser
  crack_user_twap_slice_fills crack_user_twap_history crack_active_asset_data : ObjectParser
  crack_spot_state crack_all_dexs_clearinghouse_state crack_all_dexs_asset_ctxs : ObjectParser

pub data ArrayParser : Type 0 where
  crack_trades crack_candles crack_order_updates crack_outcome_meta_updates : ArrayParser

-- The one that is given a string is `crackFastAssetCtxs`.
pub data ChannelParser : Type 0 where
  of_object : ObjectParser → ChannelParser
  of_array : ArrayParser → ChannelParser
  crack_fast_asset_ctxs : ChannelParser

-- "error" and other channels are only logged.
unfoldable pub parser_of : String → Option ChannelParser
parser_of channel =
    if str_eq channel "l2Book"
    then some (of_object crack_l2_book)
    else if str_eq channel "bbo"
    then some (of_object crack_bbo)
    else if str_eq channel "trades"
    then some (of_array crack_trades)
    else if str_eq channel "candle"
    then some (of_array crack_candles)
    else if str_eq channel "allMids"
    then some (of_object crack_all_mids)
    else if str_eq channel "activeAssetCtx"
    then some (of_object crack_active_asset_ctx)
    else if str_eq channel "activeSpotAssetCtx"
    then some (of_object crack_active_asset_ctx)
    else if str_eq channel "orderUpdates"
    then some (of_array crack_order_updates)
    else if str_eq channel "userFills"
    then some (of_object crack_user_fills)
    else if str_eq channel "userEvents"
    then some (of_object crack_user_events)
    else if str_eq channel "subscriptionResponse"
    then some (of_object crack_subscription_response)
    else if str_eq channel "userFundings"
    then some (of_object crack_user_fundings)
    else if str_eq channel "userNonFundingLedgerUpdates"
    then some (of_object crack_user_non_funding_ledger_updates)
    else if str_eq channel "webData3"
    then some (of_object crack_web_data3)
    else if str_eq channel "clearinghouseState"
    then some (of_object crack_clearinghouse_state)
    else if str_eq channel "openOrders"
    then some (of_object crack_open_orders)
    else if str_eq channel "twapStates"
    then some (of_object crack_twap_states)
    else if str_eq channel "notification"
    then some (of_object crack_notification)
    else if str_eq channel "userTwapSliceFills"
    then some (of_object crack_user_twap_slice_fills)
    else if str_eq channel "userTwapHistory"
    then some (of_object crack_user_twap_history)
    else if str_eq channel "activeAssetData"
    then some (of_object crack_active_asset_data)
    else if str_eq channel "spotState"
    then some (of_object crack_spot_state)
    else if str_eq channel "allDexsClearinghouseState"
    then some (of_object crack_all_dexs_clearinghouse_state)
    else if str_eq channel "allDexsAssetCtxs"
    then some (of_object crack_all_dexs_asset_ctxs)
    else if str_eq channel "fastAssetCtxs"
    then some crack_fast_asset_ctxs
    else if str_eq channel "outcomeMetaUpdates"
    then some (of_array crack_outcome_meta_updates)
    else none

-- The call that `crack` makes.
pub data CrackCall (Value : Type 0) : Type 0 where
  on_object : ObjectParser → Value → CrackCall Value
  on_array : ArrayParser → List Value → CrackCall Value
  on_string : String → CrackCall Value

module _ (S : SimdLib) where
  open S use {Value, document, member, is_string, is_object, get_string, get_array}

  -- The channel is a string, or the type of an object.
  pub channel_of : Value → Option String
  channel_of channel =
      if is_string channel
      then get_string channel
      else if is_object channel
      then string_at S "type" channel
      else none

  -- `doc["data"]` with the type that the parser is given.
  unfoldable pub call_of : ChannelParser → Value → Option (CrackCall Value)
  call_of (of_object parser) value = get_object S value >>= λ d. some (on_object parser d)
  call_of (of_array parser) value = get_array value >>= λ d. some (on_array parser d)
  call_of crack_fast_asset_ctxs value = get_string value >>= λ d. some (on_string d)

  unfoldable pub crack_call : String → Option (CrackCall Value)
  unfolding channel_of
  crack_call message = do
    doc ← document message
    channel ← member "channel" doc >>= channel_of
    parser ← parser_of channel
    value ← member "data" doc
    call_of parser value
