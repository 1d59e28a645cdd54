-- ===== src/Rest/Api.antt =====
-- src/rest/RestApi.cpp: how a request is sent and how its answer comes back, from the methods that
-- wait (`signAndSendSync`) and from the others, named `...Async` (`signAndSend`).
pub mod Answers
use Prim.Native.String
use hyperliquid_sdk_cpp.Common.{
  ℕ, String, Bool, true, false, List, [], ◌∷◌, Option, none, some, Result, ok, err, transport_error,
  rate_limit_error, ◌==◌, if◌then◌else◌,
}
use hyperliquid_sdk_cpp.Config.{ApiConfig, to_info_endpoint}
use hyperliquid_sdk_cpp.Json.{JsonLib}
use hyperliquid_sdk_cpp.Doubles.{Doubles}
use hyperliquid_sdk_cpp.Types.Endpoint.{RestEndpointType, to_path}
use hyperliquid_sdk_cpp.Messages.Info
use hyperliquid_sdk_cpp.Messages.Info.{InfoRequest}
use hyperliquid_sdk_cpp.Messages.Exchange
use hyperliquid_sdk_cpp.Messages.Exchange.{
  ExchangeRequest, place_order, cancel_order, cancel_order_by_cloid, schedule_cancel, modify_order,
  batch_modify_order, update_leverage, update_isolated_margin, agent_set_abstraction, twap_order,
  twap_cancel, agent_send_asset, reserve_request_weight, noop,
}
use hyperliquid_sdk_cpp.Rest.SymbolMap.{SymbolMap}
use hyperliquid_sdk_cpp.Rest.HttpSession.{Outcome, Completion, on_resolve, run}
use hyperliquid_sdk_cpp.Signing.Eip712.{Crypto}
use hyperliquid_sdk_cpp.Signing.Bodies.{prepare_body_for_type}

-- A call of a method; an exchange request with the vault that the caller passes.
pub data Request (Double : Type 0) : Type 0 where
  info : InfoRequest → Request Double
  exchange : ExchangeRequest Double → Option String → Request Double

unfoldable pub type_of : {Double : Type 0} → Request Double → RestEndpointType
unfolding Info.endpoint_of Exchange.endpoint_of
type_of (info request) = Info.endpoint_of request
type_of (exchange request vault_address) = Exchange.endpoint_of request

-- Whether the method has a parameter `vaultAddress`, which it passes on.
unfoldable pub takes_vault : {Double : Type 0} → ExchangeRequest Double → Bool
takes_vault (place_order _ _ _) = true
takes_vault (cancel_order _) = true
takes_vault (cancel_order_by_cloid _) = true
takes_vault (schedule_cancel _) = true
takes_vault (modify_order _) = true
takes_vault (batch_modify_order _) = true
takes_vault (update_leverage _) = true
takes_vault (update_isolated_margin _) = true
takes_vault (agent_set_abstraction _) = true
takes_vault (twap_order _) = true
takes_vault (twap_cancel _) = true
takes_vault (agent_send_asset _) = true
takes_vault (reserve_request_weight _ _) = true
takes_vault noop = true
takes_vault _ = false

abbrev pub vault_argument :
    {Double : Type 0} → ExchangeRequest Double → Option String → Option String
vault_argument request vault_address = if takes_vault request then vault_address else none

module _ (C : Crypto) (J : JsonLib) (D : Doubles) where
  open J use {Object}
  open D use {Double}

  -- The builder's body, if it does not throw.
  unfoldable pub prepare_built :
      (now : ℕ)
      → ApiConfig
      → RestEndpointType
      → Result Object
      → Option String
      → ℕ
      → Result Object × ℕ
  prepare_built now config type (err e) vault_address last = (err e, last)
  prepare_built now config type (ok body) vault_address last =
      prepare_body_for_type C J now config type body vault_address none last

  -- The body that is sent, and `lastNonce`. No method passes an expiry.
  unfoldable pub prepare :
      (now : ℕ) → ApiConfig → SymbolMap → Request Double → ℕ → Result Object × ℕ
  unfolding prepare_built Info.endpoint_of Exchange.endpoint_of
  prepare now config symbols (info request) last =
      prepare_body_for_type C J now config (Info.endpoint_of request) (Info.build J request) none
        none last
  prepare now config symbols (exchange request vault_address) last =
      prepare_built now config (Exchange.endpoint_of request) (Exchange.build J D symbols request)
        (vault_argument request vault_address) last

-- The session that is started.
pub record HttpRequest (Body : Type 0) : Type 0 where
  pub host : String
  pub port : String
  pub path : String
  pub body : Body

unfoldable pub http_request :
    {Body : Type 0} → ApiConfig → RestEndpointType → Body → HttpRequest Body
http_request config type body = record {
  host = (to_info_endpoint config.env).host;
  port = (to_info_endpoint config.env).port;
  path = to_path type;
  body = body;
}

-- The callbacks of `RestApiListener`.
pub data Call : Type 0 where
  on_message : String → RestEndpointType → Call
  on_error on_rate_limit_exceeded : RestEndpointType → String → Call

-- The functions that are passed as `onComplete`, by the error code.
async_completion : Option String → RestEndpointType → Completion → Call
async_completion (some message) type done = on_error type message
async_completion none type done =
    if done.status_code == 429
    then on_rate_limit_exceeded type done.body
    else on_message done.body type

sync_completion : Option String → Completion → Result String
sync_completion (some message) done = err (transport_error (String.◌++◌ "RestApi: " message))
sync_completion none done =
    if done.status_code == 429
    then err (rate_limit_error (String.◌++◌ "RestApi: HTTP 429 rate limited: " done.body))
    else ok done.body

-- `future.get()`; `none` while it waits.
future_get : List Completion → Option (Result String)
future_get [] = none
future_get (done ∷ later) = some (sync_completion done.ec done)

async_completions : RestEndpointType → List Completion → List Call
async_completions type [] = []
async_completions type (done ∷ later) =
    async_completion done.ec type done ∷ async_completions type later

-- What comes of a prepared body, with the handlers of its session that have run: the value or the
-- exception of a method that waits, and the exception or the callbacks of one that does not.
unfoldable pub sign_and_send_sync :
    {Body : Type 0} → Result Body → List Outcome → Option (Result String)
unfolding future_get sync_completion
sign_and_send_sync (err e) outcomes = some (err e)
sign_and_send_sync (ok body) outcomes = future_get (run on_resolve outcomes).1

unfoldable pub sign_and_send :
    {Body : Type 0} → RestEndpointType → Result Body → List Outcome → Result (List Call)
unfolding async_completions async_completion
sign_and_send type (err e) outcomes = err e
sign_and_send type (ok body) outcomes = ok (async_completions type (run on_resolve outcomes).1)
