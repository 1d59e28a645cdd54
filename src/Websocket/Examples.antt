-- ===== src/Websocket/Examples.antt =====
-- Runs of the WebSocket runner and of the base64 decoder.
use hyperliquid_sdk_cpp.Common.{
  ◌^◌, ◌≤◌, [], ◌∷◌, ◌≡◌, refl, true, false, Bool, String, pos, ok, Option, none, some, arith, leb,
  if◌then◌else◌, ℕ, List, ◌≢◌, ◌<◌,
}
use hyperliquid_sdk_cpp.Types.Endpoint.{RestEndpointType, is_user_signed_action, is_authenticated}
use hyperliquid_sdk_cpp.Config.{mainnet, ApiConfig}
use hyperliquid_sdk_cpp.Json.{lookup, insert}
use hyperliquid_sdk_cpp.Json.Instance.{Value, number, tree_json, tree_json-IsLawful}
use hyperliquid_sdk_cpp.Signing.Eip712.{Crypto}
use hyperliquid_sdk_cpp.Signing.Bodies.{
  prepare_body_for_type, is_approve_agent, allow_config_vault_fallback,
}
use hyperliquid_sdk_cpp.Websocket.Posts.{
  int_of, add_post, wrap, sign_and_send, Call, on_message, on_post_response, Message, on_ws_message,
}
use hyperliquid_sdk_cpp.Websocket.Posts.Traffic.{
  Posting, Traffic, posted, received, send_posting, apply, table_of,
}
use hyperliquid_sdk_cpp.Websocket.Posts.Correlation.{response_is_matched, second_response_is_plain}
use hyperliquid_sdk_cpp.Websocket.Base64.{base64_decode}
use hyperliquid_sdk_cpp.Websocket.Base64.RoundTrip.{encode, base64_decode-encode}
use hyperliquid_sdk_cpp.Websocket.Runner.{Runner, start, quiet, reading, resolving}
use hyperliquid_sdk_cpp.Websocket.Runner.Events.{
  send, resolved, connected_, ssl_shaken, ws_shaken, read_failed, closed, close_runs, stop_call,
  handle, Run, init, step,
}
use hyperliquid_sdk_cpp.Websocket.Runner.Invariant.{Inv, Run-Inv}
use hyperliquid_sdk_cpp.Websocket.Runner.Backoff.{attempts, Run-delay}
use hyperliquid_sdk_cpp.Websocket.Runner.Stop.{
  handle_all, here, next, stop_closes, stop_while_opening_is_lost,
}

base64_decode-encode_example :
    base64_decode (encode (0 ∷ 255 ∷ 7 ∷ 16 ∷ [])) ≡ 0 ∷ 255 ∷ 7 ∷ 16 ∷ []
base64_decode-encode_example = base64_decode-encode (0 ∷ 255 ∷ 7 ∷ 16 ∷ []) (omega arith)

-- "TWE="
decode_padded : base64_decode (84 ∷ 87 ∷ 69 ∷ 61 ∷ []) ≡ 77 ∷ 97 ∷ []
unfolding base64_decode
decode_padded = refl

abbrev opened : Runner
opened =
    handle (ws_shaken false 3)
      (handle (ssl_shaken false) (handle (connected_ false) (handle (resolved false) start)))

opened_run : Run opened
unfolding handle start
opened_run =
    step (ws_shaken false 3)
      (step (ssl_shaken false) (step (connected_ false) (step (resolved false) init refl) refl)
        refl)
      refl

Run-Inv_example : Inv (handle (send "{}") opened)
Run-Inv_example = Run-Inv (step (send "{}") opened_run tt)

abbrev refused : Runner
refused = handle (resolved true) start

refused_run : Run refused
unfolding handle start
refused_run = step (resolved true) init refl

refused_waits : refused.timer_waits ≡ true
unfolding handle start
refused_waits = refl

Run-delay_example :
    (refused.reconnect_timer
      ≡ some (if leb (attempts refused_run) 5 then 2 ^ attempts refused_run else 60))
    × (1 ≤ attempts refused_run)
Run-delay_example = Run-delay refused_run refused_waits

opened_connected : opened.connected ≡ true
unfolding handle start
opened_connected = refl

opened_not_stopping : opened.stopping ≡ false
unfolding handle start
opened_not_stopping = refl

abbrev stopped : Runner
stopped = handle_all (stop_call false ∷ close_runs ∷ read_failed ∷ closed ∷ []) opened

-- A message is sent to the runner that was stopped.
stop_closes_example :
    let s = handle (send "{}") stopped in
    (s.connected ≡ false) × (s.chain ≡ quiet) × (s.timer_waits ≡ false) × (s.ping_waits ≡ false)
stop_closes_example =
    stop_closes opened (handle (send "{}") stopped) opened_connected opened_not_stopping
      (next (send "{}") here tt)

start_resolves : start.chain ≡ resolving
unfolding start
start_resolves = refl

start_disconnected : start.connected ≡ false
unfolding start
start_disconnected = refl

start_not_stopping : start.stopping ≡ false
unfolding start
start_not_stopping = refl

stop_while_opening_is_lost_example :
    let s =
      handle_all
        (stop_call false
          ∷ close_runs
          ∷ resolved false
          ∷ connected_ false
          ∷ ssl_shaken false
          ∷ ws_shaken false 3
          ∷ [])
        start in
    (s.connected ≡ true) × (s.stopping ≡ false) × (s.chain ≡ reading) × (s.close_posted ≡ false)
stop_while_opening_is_lost_example =
    stop_while_opening_is_lost start 3 start_disconnected start_not_stopping start_resolves

abbrev no_crypto : Crypto
no_crypto = record {
  keccak256 = λ bytes. bytes;
  has_context = true;
  sign = λ hash key. some (hash, key, 0);
  print_id = λ id. "?";
}

abbrev config : ApiConfig
config = record {
  env = mainnet;
  wallet = none;
  dexes = [];
  skip_building_symbol_map = false;
  vault_address = none;
  validate_json = false;
}

-- A request for information, with a correlation id.
abbrev asking : Posting (List (String × Value))
asking = record {
  now = 9;
  config = config;
  type = RestEndpointType.l2_book;
  body = [];
  vault_address = none;
  expires_after = none;
  correlation_id = some 77;
  last = 4;
}

abbrev answer : ℕ → Message
answer id = record {
  raw = "{\"channel\":\"post\"}";
  channel = some "post";
  id = some id;
  payload = some "{\"type\":\"l2Book\"}";
}

abbrev parses : RestEndpointType → String → Bool
parses type text = true

abbrev before : List (Traffic (List (String × Value)))
before = posted asking ∷ []

-- The message of the second request.
abbrev second_message : List (String × Value)
second_message = wrap no_crypto tree_json (pos 1) RestEndpointType.l2_book []

second_is_sent :
    (send_posting no_crypto tree_json asking (table_of no_crypto tree_json parses some before)).0
    ≡ ok second_message
unfolding sign_and_send prepare_body_for_type table_of apply is_approve_agent is_user_signed_action
    is_authenticated add_post int_of allow_config_vault_fallback
second_is_sent = refl

second_names_its_id : lookup "id" (tree_json.members second_message) ≡ some (number (pos 1))
unfolding wrap lookup insert
second_names_its_id = refl

one_given : 0 < (table_of no_crypto tree_json parses some before).post_request_counter
unfolding sign_and_send prepare_body_for_type table_of apply is_approve_agent is_user_signed_action
    is_authenticated add_post
one_given = omega arith

not_second : ◌≢◌ {A = Option ℕ} (some 0) (some 1)
not_second h = cc

-- The second of three requests is answered, behind an answer to the first.
response_is_matched_example :
    (rest : List Call) × ((on_ws_message parses some false (answer 1) (
        table_of no_crypto tree_json parses some
          (posted asking ∷ received false (answer 0) ∷ posted asking ∷ before))).0
      ≡ on_post_response "{\"type\":\"l2Book\"}" RestEndpointType.l2_book (some 77) ∷ rest)
response_is_matched_example =
    response_is_matched no_crypto tree_json tree_json-IsLawful parses some
      (posted asking ∷ received false (answer 0) ∷ []) before asking second_message 1 (answer 1)
      "{\"type\":\"l2Book\"}" (omega arith) second_is_sent second_names_its_id
      (tt, (not_second, tt)) refl refl refl

second_response_is_plain_example :
    (on_ws_message parses some false (answer 0) (
      table_of no_crypto tree_json parses some
        (posted asking ∷ received false (answer 0) ∷ before))).0
    ≡ on_message "{\"channel\":\"post\"}" ∷ []
second_response_is_plain_example =
    second_response_is_plain no_crypto tree_json tree_json-IsLawful parses some (posted asking ∷ [])
      before (answer 0) (answer 0) 0 (omega arith) one_given refl refl refl refl
