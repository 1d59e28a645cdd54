-- ===== src/Websocket/Api/Filters.antt =====
-- src/websocket/WebsocketApi.cpp: what a subscription asks for.
use text.Mathlib.Text.{◌==◌ as str_eq}
use text.Mathlib.TextEquality.{eq_iff}
use mathlib.Core.Option
use hyperliquid_sdk_cpp.Common.{
  String, List, [], ◌∷◌, ◌≡◌, refl, ◌∙◌, ap, Option, none, some, ok, if◌then◌else◌, or_else,
  Bool-cases, Option-cases, inl, inr,
}
use hyperliquid_sdk_cpp.Config.{ApiConfig, Wallet}
use hyperliquid_sdk_cpp.Json.{JsonLib, IsMapLike, lookup}
use hyperliquid_sdk_cpp.Messages.Wire.{◌▷◌}
use hyperliquid_sdk_cpp.Types.Subscription.{SubscriptionType, to_string}
use hyperliquid_sdk_cpp.Websocket.Api.{
  is_user_subscription, default_user, assign_filters, assign_user, subscribe, unsubscribe,
}

-- No key stands twice.
abbrev pub IsMap : List (String × String) → Type 0
IsMap [] = Unit {0}
IsMap ((key, value) ∷ filters) = (lookup key filters ≡ none) × IsMap filters

-- What the two methods ask for.
module _ (J : JsonLib) where
  open J use {Object, string, object, empty, assign}

  unfoldable pub subscription_of :
      ApiConfig → SubscriptionType → String → List (String × String) → Object
  unfolding assign_filters assign_user default_user
  subscription_of config type name filters =
      empty
      ▷ assign "type" (string name)
      ▷ assign_user J (default_user type config.wallet (lookup "user" filters))
      ▷ assign_filters J filters

  abbrev pub message : String → Object → Object
  message method subscription =
      empty ▷ assign "method" (string method) ▷ assign "subscription" (object subscription)

module _ (J : JsonLib) (M : IsMapLike J) where
  open J use {Json, Object, string, members}

  lookup-assign_filters :
      (k : String) (filters : List (String × String)) (o : Object)
      → IsMap filters
      → lookup k (members (assign_filters J filters o))
        ≡ or_else (Option.map string (lookup k filters)) (lookup k (members o))
  unfolding assign_filters lookup
  lookup-assign_filters k [] o h = refl
  lookup-assign_filters k ((key, value) ∷ filters) o h =
      let rest = lookup-assign_filters k filters (J.assign key (string value) o) h.1 in
      elim (Bool-cases (str_eq key k)) [
        | inl e ↦
            let same : lookup k filters ≡ none = rw (← (eq_iff key k).0 e) h.0 in
            rw (rest, M.lookup-set, e, same) refl
        | inr e ↦ rw (rest, M.lookup-set, e) refl
      ]

  lookup-assign_user :
      (k : String) (user : Option String) (o : Object)
      → lookup k (members (assign_user J user o))
        ≡ or_else (if str_eq "user" k then Option.map string user else none) (lookup k (members o))
  unfolding assign_user
  lookup-assign_user k none o = elim (Bool-cases (str_eq "user" k)) [
    | inl e ↦ rw e refl
    | inr e ↦ rw e refl
  ]
  lookup-assign_user k (some user) o = elim (Bool-cases (str_eq "user" k)) [
    | inl e ↦ rw (M.lookup-set, e) refl
    | inr e ↦ rw (M.lookup-set, e) refl
  ]

  -- The user that a subscription is for, where its filters name none.
  abbrev pub account_of : ApiConfig → SubscriptionType → Option String
  account_of config type =
      if is_user_subscription type
      then Option.map (λ (wallet : Wallet). wallet.account_address) config.wallet
      else none

  default_user-or_else :
      (config : ApiConfig) (type : SubscriptionType) (filtered : Option String) (rest : Option Json)
      → or_else
          (Option.map string filtered)
          (or_else (Option.map string (default_user type config.wallet filtered)) rest)
        ≡ or_else
            (Option.map string filtered)
            (or_else (Option.map string (account_of config type)) rest)
  unfolding default_user
  default_user-or_else config type (some user) rest = refl
  default_user-or_else config type none rest = elim (Option-cases config.wallet) [
    | inl e ↦ elim (Bool-cases (is_user_subscription type)) [
      | inl u ↦ rw (e, u) refl
      | inr u ↦ rw (e, u) refl
    ]
    | inr (wallet, e) ↦ rw e refl
  ]

  lookup-subscription_of :
      (config : ApiConfig) (type : SubscriptionType) (name : String)
      (filters : List (String × String)) (k : String)
      → IsMap filters
      → lookup k (members (subscription_of J config type name filters))
        ≡ or_else (Option.map string (lookup k filters)) (
            or_else
              (if str_eq "user" k then Option.map string (account_of config type) else none)
              (if str_eq "type" k then some (string name) else none))
  unfolding subscription_of
  lookup-subscription_of config type name filters k distinct =
      lookup-assign_filters k filters _ distinct
      ∙ ap (or_else (Option.map string (lookup k filters)))
          (lookup-assign_user k (default_user type config.wallet (lookup "user" filters)) _)
      ∙ elim (Bool-cases (str_eq "user" k)) [
        | inl e ↦
            let same : lookup "user" filters ≡ lookup k filters =
              ap (λ j. lookup j filters) ((eq_iff "user" k).0 e) in
            rw (M.lookup-set, M.lookup-empty, e, same)
              (default_user-or_else config type (lookup k filters) _)
        | inr e ↦ rw (M.lookup-set, M.lookup-empty, e) refl
      ]

  -- Unless the channel is `unknown`, `subscribe` and `unsubscribe` name one and the same
  -- subscription. A filter's value stands under its key, also under "user" and "type"; where no
  -- filter names a user, a channel of a user is asked for the wallet's account, if there is a
  -- wallet; where no filter names a type, the type is the channel's name; there is nothing else.
  pub subscribe_asks :
      (config : ApiConfig) (type : SubscriptionType) (name : String)
      (filters : List (String × String)) (k : String)
      → to_string type ≡ ok name
      → IsMap filters
      → let subscription = subscription_of J config type name filters in
        (subscribe J config type filters ≡ ok (message J "subscribe" subscription))
        × (unsubscribe J config type filters ≡ ok (message J "unsubscribe" subscription))
        × (lookup k (members subscription)
            ≡ or_else (Option.map string (lookup k filters)) (
                or_else
                  (if str_eq "user" k then Option.map string (account_of config type) else none)
                  (if str_eq "type" k then some (string name) else none)))
  unfolding subscribe unsubscribe subscription_of
  subscribe_asks config type name filters k named distinct =
      (rw named refl, rw named refl, lookup-subscription_of config type name filters k distinct)
