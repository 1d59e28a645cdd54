-- ===== src/Websocket/Parser/Subscriptions.antt =====
-- src/websocket/WebsocketMessageParser.cpp: `crackSubscriptionResponse` and `crackNotification`.
use text.Mathlib.Text.{◌==◌ as str_eq}
use hyperliquid_sdk_cpp.Common.{String, [], ◌∷◌, ◌≡◌, Option, some, ok, if◌then◌else◌}
use hyperliquid_sdk_cpp.Json.{lookup}
use hyperliquid_sdk_cpp.Simdjson.{SimdLib, Writer, ◌>>=◌, get_object, string_at}
use hyperliquid_sdk_cpp.Types.Subscription.{
  SubscriptionType, to_string, string_to_subscription_type,
}
use hyperliquid_sdk_cpp.Types.Subscription.Laws.{read_iff}

pub data SubscriptionMethod : Type 0 where
  subscribe unsubscribe : SubscriptionMethod

-- With the type of its `Subscription`.
pub record SubscriptionResponse : Type 0 where
  pub method : SubscriptionMethod
  pub subscription : SubscriptionType

module _ (S : SimdLib) where
  open S use {Value, member}

  unfoldable pub crack_subscription_response : Value → Option SubscriptionResponse
  crack_subscription_response d = do
    method ← string_at S "method" d
    subscription ← member "subscription" d >>= get_object S
    type ← string_at S "type" subscription
    some (record {
      method = if str_eq method "subscribe" then subscribe else unsubscribe;
      subscription = string_to_subscription_type type;
    })

  -- What `onNotification` is called with.
  unfoldable pub crack_notification : Value → Option String
  crack_notification d = string_at S "notification" d

-- The names that `subscribe` and `unsubscribe` send.
abbrev method_name : SubscriptionMethod → String
method_name subscribe = "subscribe"
method_name unsubscribe = "unsubscribe"

module _ (S : SimdLib) (W : Writer S) where
  open W use {object, string}

  -- The confirmation of a request for a channel, which repeats the request, is read back.
  pub crack_subscription_response-written :
      (method : SubscriptionMethod) (type : SubscriptionType) (name : String)
      → to_string type ≡ ok name
      → crack_subscription_response S (
          object (
            ("method", string (method_name method))
            ∷ ("subscription", object (("type", string name) ∷ []))
            ∷ []))
        ≡ some (record { method = method; subscription = type })
  unfolding crack_subscription_response lookup
  crack_subscription_response-written subscribe type name h =
      simp (W.member-object, W.get_string-string, W.is_object-object, ((read_iff name type).1 h).0)
  crack_subscription_response-written unsubscribe type name h =
      simp (W.member-object, W.get_string-string, W.is_object-object, ((read_iff name type).1 h).0)
