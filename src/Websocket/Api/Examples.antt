-- ===== src/Websocket/Api/Examples.antt =====
-- Runs of the methods and of subscriptions.
use text.Mathlib.Text.{◌==◌ as str_eq}
use mathlib.Core.Option
use hyperliquid_sdk_cpp.Common.{
  String, [], ◌∷◌, ◌≡◌, refl, true, false, not, none, some, ok, arith, or_else, if◌then◌else◌,
}
use hyperliquid_sdk_cpp.Config.{mainnet, ApiConfig}
use hyperliquid_sdk_cpp.Json.{lookup}
use hyperliquid_sdk_cpp.Json.Instance.{string, tree_json, tree_json-IsLawful}
use hyperliquid_sdk_cpp.Json.Laws.{IsLawful-IsMapLike}
use hyperliquid_sdk_cpp.Doubles.Instance.{text_doubles}
use hyperliquid_sdk_cpp.Types.Subscription.{SubscriptionType, to_string}
use hyperliquid_sdk_cpp.Messages.Info.{recent_trades, endpoint_of}
use hyperliquid_sdk_cpp.Messages.Exchange.{noop}
use hyperliquid_sdk_cpp.Rest.Api.{Request, exchange, prepare}
use hyperliquid_sdk_cpp.Signing.Eip712.{Crypto}
use hyperliquid_sdk_cpp.Websocket.Posts.{no_posts, has_typed_response}
use hyperliquid_sdk_cpp.Websocket.Posts.Typed.{is_dropped, has_typed_response-endpoint_of}
use hyperliquid_sdk_cpp.Websocket.Api.{post, subscribe, unsubscribe}
use hyperliquid_sdk_cpp.Websocket.Api.Transports.{IsPosted, transports_agree}
use hyperliquid_sdk_cpp.Websocket.Api.Filters.{
  IsMap, account_of, subscription_of, message, subscribe_asks,
}

abbrev no_crypto : Crypto
no_crypto = record {
  keccak256 = λ bytes. bytes;
  has_context = true;
  sign = λ hash key. some (hash, key, 0);
  print_id = λ id. "?";
}

abbrev with_account : ApiConfig
with_account = record {
  env = mainnet;
  wallet = some (record { account_address = "0xaa"; private_key = "0x0b" });
  dexes = [];
  skip_building_symbol_map = false;
  vault_address = none;
  validate_json = false;
}

abbrev nothing : Request String
nothing = exchange noop (some "0xcc")

transports_agree_example :
    let posted =
      post no_crypto tree_json text_doubles 9 with_account [] nothing (some 7) 4 no_posts in
    let prepared = prepare no_crypto tree_json text_doubles 9 with_account [] nothing 4 in
    IsPosted no_crypto tree_json text_doubles nothing (some 7) no_posts prepared.0 posted.0 posted.2
    × (posted.1 ≡ prepared.1)
transports_agree_example =
    transports_agree no_crypto tree_json text_doubles tree_json-IsLawful 9 with_account [] nothing
      (some 7) 4 no_posts (omega arith)

named : to_string SubscriptionType.user_fills ≡ ok "userFills"
unfolding to_string
named = refl

one_filter : IsMap (("aggregateByTime", "true") ∷ [])
unfolding lookup
one_filter = (refl, tt)

subscribe_asks_example :
    let subscription =
      subscription_of tree_json with_account SubscriptionType.user_fills "userFills"
        (("aggregateByTime", "true") ∷ []) in
    (subscribe tree_json with_account SubscriptionType.user_fills (("aggregateByTime", "true") ∷ [])
      ≡ ok (message tree_json "subscribe" subscription))
    × (unsubscribe tree_json with_account SubscriptionType.user_fills
          (("aggregateByTime", "true") ∷ [])
        ≡ ok (message tree_json "unsubscribe" subscription))
    × (lookup "user" subscription
        ≡ or_else (Option.map string (lookup "user" (("aggregateByTime", "true") ∷ []))) (
            or_else
              (if str_eq "user" "user"
                then Option.map string (
                    account_of tree_json
                      (IsLawful-IsMapLike tree_json tree_json-IsLawful)
                      with_account
                      SubscriptionType.user_fills)
                else none)
              (if str_eq "type" "user" then some (string "userFills") else none)))
subscribe_asks_example =
    subscribe_asks tree_json (IsLawful-IsMapLike tree_json tree_json-IsLawful) with_account
      SubscriptionType.user_fills "userFills" (("aggregateByTime", "true") ∷ []) "user" named
      one_filter

has_typed_response-endpoint_of_example :
    has_typed_response (endpoint_of (recent_trades "BTC")) ≡ not (is_dropped (recent_trades "BTC"))
has_typed_response-endpoint_of_example = has_typed_response-endpoint_of (recent_trades "BTC")
