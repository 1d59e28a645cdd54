-- ===== src/Websocket/Posts.antt =====
-- src/websocket/WebsocketApi.cpp: `signAndSend` and `onWsMessage`, and the post channel of
-- src/websocket/PostResponseDispatch.cpp. What simdjson and the parsers find in a message is an
-- argument. `postRequestInfo` is a function from ids; each function is one critical section.
pub mod Traffic
pub mod Correlation
pub mod Typed
use text.Mathlib.Text.{◌==◌ as str_eq}
use hyperliquid_sdk_cpp.Common.{
  ℕ, ◌+◌, ◌-◌, ◌%◌, ◌^◌, String, ℤ, pos, negsuc, to_u64, Bool, true, false, List, [], ◌∷◌, Option,
  none, some, Result, ok, err, ltb, ◌==◌, if◌then◌else◌,
}
use hyperliquid_sdk_cpp.Config.{ApiConfig}
use hyperliquid_sdk_cpp.Json.{JsonLib}
use hyperliquid_sdk_cpp.Types.Endpoint.{RestEndpointType, is_authenticated}
use hyperliquid_sdk_cpp.Messages.Wire.{◌▷◌}
use hyperliquid_sdk_cpp.Signing.Eip712.{Crypto}
use hyperliquid_sdk_cpp.Signing.Bodies.{prepare_body_for_type}

pub record PostRequestInfo : Type 0 where
  pub type : RestEndpointType
  pub correlation_id : Option ℕ

-- `postRequestCounter`, as its 32 bits, and `postRequestInfo`.
pub record Posts : Type 0 where
  pub post_request_counter : ℕ
  pub post_request_info : ℕ → Option PostRequestInfo

abbrev pub no_posts : Posts
no_posts = record { post_request_counter = 0; post_request_info = λ id. none }

-- The counter's bits as an `int`.
unfoldable pub int_of : ℕ → ℤ
int_of bits = if ltb bits (2 ^ 31) then pos bits else negsuc (2 ^ 32 - 1 - bits)

-- `fetch_add`, and `postRequestInfo[postRequestId] = info`; the key is a uint64_t.
unfoldable pub add_post : PostRequestInfo → Posts → Posts
unfolding int_of to_u64
add_post info posts =
    let key = to_u64 (int_of posts.post_request_counter) in
    record {
      post_request_counter = (posts.post_request_counter + 1) % 2 ^ 32;
      post_request_info = λ id. if id == key then some info else posts.post_request_info id;
    }

-- `find` and `erase`.
unfoldable pub erase_post : ℕ → Posts → Posts
erase_post id posts = record posts {
  post_request_info = λ k. if k == id then none else posts.post_request_info k;
}

module _ (C : Crypto) (J : JsonLib) where
  open J use {Object, string, number, object, empty, assign}

  unfoldable pub wrap : ℤ → RestEndpointType → Object → Object
  wrap id type payload =
      let request =
        empty
        ▷ assign "type" (string (if is_authenticated type then "action" else "info"))
        ▷ assign "payload" (object payload) in
      empty
      ▷ assign "method" (string "post")
      ▷ assign "id" (number id)
      ▷ assign "request" (object request)

  -- The rest of `signAndSend`, behind the signing.
  unfoldable pub post_signed :
      RestEndpointType → Option ℕ → Posts → Result Object × ℕ → Result Object × ℕ × Posts
  post_signed type correlation_id posts (err e, last) = (err e, last, posts)
  post_signed type correlation_id posts (ok payload, last) = (
    ok (wrap (int_of posts.post_request_counter) type payload),
    last,
    add_post (record { type = type; correlation_id = correlation_id }) posts,
  )

  -- The message for the runner, `lastNonce` and the table.
  unfoldable pub sign_and_send :
      (now : ℕ)
      → ApiConfig
      → RestEndpointType
      → Object
      → Option String
      → Option ℕ
      → Option ℕ
      → ℕ
      → Posts
      → Result Object × ℕ × Posts
  unfolding post_signed wrap
  sign_and_send now config type body vault_address expires_after correlation_id last posts =
      post_signed type correlation_id posts
        (prepare_body_for_type C J now config type body vault_address expires_after last)

-- What the listener and the runner are told.
pub data Call : Type 0 where
  on_message : String → Call
  on_pong_received : Call
  on_post_response : String → RestEndpointType → Option ℕ → Call
  on_exchange_response on_info_response : RestEndpointType → String → Option ℕ → Call

-- The fields that are read; `none` where simdjson throws.
pub record Message : Type 0 where
  pub raw : String
  pub channel : Option String
  pub id : Option ℕ
  pub payload : Option String

-- The info endpoints whose responses have a typed callback.
unfoldable pub has_typed_response : RestEndpointType → Bool
has_typed_response RestEndpointType.spot_meta = true
has_typed_response RestEndpointType.meta = true
has_typed_response RestEndpointType.outcome_meta = true
has_typed_response RestEndpointType.perp_dexs = true
has_typed_response RestEndpointType.perp_annotation = true
has_typed_response RestEndpointType.perp_categories = true
has_typed_response RestEndpointType.perp_concise_annotations = true
has_typed_response RestEndpointType.all_perp_metas = true
has_typed_response RestEndpointType.perps_at_open_interest_cap = true
has_typed_response RestEndpointType.predicted_fundings = true
has_typed_response RestEndpointType.meta_and_asset_ctxs = true
has_typed_response RestEndpointType.spot_meta_and_asset_ctxs = true
has_typed_response RestEndpointType.spot_clearinghouse_state = true
has_typed_response RestEndpointType.frontend_open_orders = true
has_typed_response RestEndpointType.historical_orders = true
has_typed_response RestEndpointType.user_twap_slice_fills = true
has_typed_response RestEndpointType.user_twap_slice_fills_by_time = true
has_typed_response RestEndpointType.twap_history = true
has_typed_response RestEndpointType.active_asset_data = true
has_typed_response RestEndpointType.sub_accounts = true
has_typed_response RestEndpointType.user_fees = true
has_typed_response RestEndpointType.max_builder_fee = true
has_typed_response RestEndpointType.approved_builders = true
has_typed_response RestEndpointType.l2_book = true
has_typed_response RestEndpointType.candle_snapshot = true
has_typed_response RestEndpointType.all_mids = true
has_typed_response RestEndpointType.open_orders = true
has_typed_response RestEndpointType.order_status = true
has_typed_response RestEndpointType.user_fills = true
has_typed_response RestEndpointType.user_fills_by_time = true
has_typed_response RestEndpointType.clearinghouse_state = true
has_typed_response RestEndpointType.vault_details = true
has_typed_response RestEndpointType.user_vault_equities = true
has_typed_response RestEndpointType.portfolio = true
has_typed_response RestEndpointType.referral = true
has_typed_response RestEndpointType.user_role = true
has_typed_response RestEndpointType.user_rate_limit = true
has_typed_response RestEndpointType.perp_dex_limits = true
has_typed_response RestEndpointType.perp_dex_status = true
has_typed_response RestEndpointType.perp_deploy_auction_status = true
has_typed_response RestEndpointType.settled_outcome = true
has_typed_response RestEndpointType.borrow_lend_user_state = true
has_typed_response RestEndpointType.borrow_lend_reserve_state = true
has_typed_response RestEndpointType.all_borrow_lend_reserve_states = true
has_typed_response RestEndpointType.spot_deploy_state = true
has_typed_response RestEndpointType.spot_pair_deploy_auction_status = true
has_typed_response RestEndpointType.user_dex_abstraction_state = true
has_typed_response RestEndpointType.user_abstraction = true
has_typed_response RestEndpointType.delegations = true
has_typed_response RestEndpointType.delegator_summary = true
has_typed_response RestEndpointType.delegator_history = true
has_typed_response RestEndpointType.delegator_rewards = true
has_typed_response RestEndpointType.exchange_status = true
has_typed_response _ = false

module _ (parses : RestEndpointType → String → Bool) (data_of : String → Option String) where
  -- `parses` says whether the endpoint's parser returns; `data_of` is the text of "data".
  dispatch_exchange : RestEndpointType → String → Option ℕ → String → List Call
  dispatch_exchange type payload correlation_id raw =
      if parses type payload
      then on_exchange_response type payload correlation_id ∷ []
      else on_message raw ∷ []

  dispatch_info : RestEndpointType → Option String → Option ℕ → String → List Call
  dispatch_info type none correlation_id raw = []
  dispatch_info type (some data_json) correlation_id raw =
      if has_typed_response type
      then (if parses type data_json
          then on_info_response type data_json correlation_id ∷ []
          else on_message raw ∷ [])
      else []

  -- `payload.value()` throws only behind the lookup.
  respond : Option PostRequestInfo → Option String → String → List Call
  unfolding dispatch_exchange dispatch_info
  respond none payload raw = on_message raw ∷ []
  respond (some info) none raw = on_message raw ∷ []
  respond (some info) (some payload) raw =
      on_post_response payload info.type info.correlation_id
      ∷ (if is_authenticated info.type
          then dispatch_exchange info.type payload info.correlation_id raw
          else dispatch_info info.type (data_of payload) info.correlation_id raw)

  -- `handlePostChannelMessage`, under the `catch` of `onWsMessage`.
  unfoldable pub handle_post_channel_message : Message → Option ℕ → Posts → List Call × Posts
  unfolding respond
  handle_post_channel_message message none posts = (on_message message.raw ∷ [], posts)
  handle_post_channel_message message (some id) posts =
      (respond (posts.post_request_info id) message.payload message.raw, erase_post id posts)

  unfoldable pub on_ws_message : Bool → Message → Posts → List Call × Posts
  unfolding handle_post_channel_message
  on_ws_message true message posts = ([], posts)
  on_ws_message false message posts = by_channel message.channel
    where
      by_channel : Option String → List Call × Posts
      by_channel none = (on_message message.raw ∷ [], posts)
      by_channel (some channel) =
          if str_eq channel "pong"
          then (on_pong_received ∷ [], posts)
          else if str_eq channel "post"
          then handle_post_channel_message message message.id posts
          else (on_message message.raw ∷ [], posts)
