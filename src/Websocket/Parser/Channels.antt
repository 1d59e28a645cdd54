-- ===== src/Websocket/Parser/Channels.antt =====
-- A message of a channel that the SDK can subscribe to is handed to the parser of that channel.
use hyperliquid_sdk_cpp.Common.{
  String, [], ◌∷◌, ◌≡◌, refl, ◌≢◌, ◌⊎◌, inl, inr, none, some, Option, ok, arith,
}
use hyperliquid_sdk_cpp.Json.{lookup}
use hyperliquid_sdk_cpp.Simdjson.{SimdLib, Writer, ◌>>=◌}
use hyperliquid_sdk_cpp.Types.Subscription.{
  SubscriptionType, l2_book, bbo, trades, candle, all_mids, notification, web_data3, twap_states,
  clearing_house_state, open_orders, order_updates, user_events, user_fills, user_fundings,
  user_non_funding_ledger_updates, active_asset_ctx, active_asset_data, user_twap_slice_fills,
  user_twap_history, spot_state, all_dexs_clearinghouse_state, all_dexs_asset_ctxs, fast_asset_ctxs,
  outcome_meta_updates, unknown, to_string,
}
use hyperliquid_sdk_cpp.Websocket.Parser.{
  ChannelParser, of_object, of_array, crack_fast_asset_ctxs, crack_l2_book, crack_bbo,
  crack_all_mids, crack_active_asset_ctx, crack_user_fills, crack_user_events, crack_user_fundings,
  crack_user_non_funding_ledger_updates, crack_web_data3, crack_clearinghouse_state,
  crack_open_orders, crack_twap_states, crack_notification, crack_user_twap_slice_fills,
  crack_user_twap_history, crack_active_asset_data, crack_spot_state,
  crack_all_dexs_clearinghouse_state, crack_all_dexs_asset_ctxs, crack_trades, crack_candles,
  crack_order_updates, crack_outcome_meta_updates, parser_of, channel_of, call_of, crack_call,
}

-- The parser that is meant for a channel.
abbrev pub parser_for : SubscriptionType → Option ChannelParser
parser_for l2_book = some (of_object crack_l2_book)
parser_for bbo = some (of_object crack_bbo)
parser_for trades = some (of_array crack_trades)
parser_for candle = some (of_array crack_candles)
parser_for all_mids = some (of_object crack_all_mids)
parser_for notification = some (of_object crack_notification)
parser_for web_data3 = some (of_object crack_web_data3)
parser_for twap_states = some (of_object crack_twap_states)
parser_for clearing_house_state = some (of_object crack_clearinghouse_state)
parser_for open_orders = some (of_object crack_open_orders)
parser_for order_updates = some (of_array crack_order_updates)
parser_for user_events = some (of_object crack_user_events)
parser_for user_fills = some (of_object crack_user_fills)
parser_for user_fundings = some (of_object crack_user_fundings)
parser_for user_non_funding_ledger_updates = some (of_object crack_user_non_funding_ledger_updates)
parser_for active_asset_ctx = some (of_object crack_active_asset_ctx)
parser_for active_asset_data = some (of_object crack_active_asset_data)
parser_for user_twap_slice_fills = some (of_object crack_user_twap_slice_fills)
parser_for user_twap_history = some (of_object crack_user_twap_history)
parser_for spot_state = some (of_object crack_spot_state)
parser_for all_dexs_clearinghouse_state = some (of_object crack_all_dexs_clearinghouse_state)
parser_for all_dexs_asset_ctxs = some (of_object crack_all_dexs_asset_ctxs)
parser_for fast_asset_ctxs = some crack_fast_asset_ctxs
parser_for outcome_meta_updates = some (of_array crack_outcome_meta_updates)
parser_for unknown = none

printed_parser :
    (type : SubscriptionType)
    → type ≢ unknown
    → (name : String) × (to_string type ≡ ok name) × (parser_of name ≡ parser_for type)
unfolding to_string parser_of
printed_parser l2_book h = ("l2Book", refl, refl)
printed_parser unknown h = absurd (h refl)
printed_parser _ h = (_, refl, refl)

printed-ne-unknown :
    (type : SubscriptionType) {name : String} → to_string type ≡ ok name → type ≢ unknown
unfolding to_string
printed-ne-unknown type h = ground arith

parser_of-to_string :
    (type : SubscriptionType) (name : String)
    → to_string type ≡ ok name
    → parser_of name ≡ parser_for type
parser_of-to_string type name h =
    let (printed, e, r) = printed_parser type (printed-ne-unknown type h) in
    let same : name ≡ printed = cc in rw same r

module _ (S : SimdLib) (W : Writer S) where
  open S use {Value, document}
  open W use {object, string}

  channel_of-named :
      (name : String) (channel : Value)
      → (channel ≡ string name) ⊎ (channel ≡ object (("type", string name) ∷ []))
      → channel_of S channel ≡ some name
  unfolding channel_of lookup
  channel_of-named name channel (inl e) = simp (e, W.is_string-string, W.get_string-string)
  channel_of-named name channel (inr e) =
      simp (e, W.is_string-object, W.is_object-object, W.member-object, W.get_string-string)

  -- A message that names a channel as a subscription to it does, as a text or as the type of an
  -- object, has its data handed to the parser of that channel, if they are what it is given.
  pub crack_call-subscribed :
      (type : SubscriptionType) (name message : String) (channel payload : Value)
      → to_string type ≡ ok name
      → (channel ≡ string name) ⊎ (channel ≡ object (("type", string name) ∷ []))
      → document message ≡ some (object (("channel", channel) ∷ ("data", payload) ∷ []))
      → crack_call S message ≡ (parser_for type >>= λ parser. call_of S parser payload)
  unfolding crack_call lookup
  crack_call-subscribed type name message channel payload printed named h = simp (
    h,
    W.member-object,
    channel_of-named name channel named,
    parser_of-to_string type name printed,
  )
