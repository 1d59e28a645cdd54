-- ===== src/Rest/Api/Answers.antt =====
-- What the caller of a method is told, and where requests go.
use Prim.Native.String
use hyperliquid_sdk_cpp.Common.{
  String, Bool, true, false, List, [], ◌∷◌, ◌≡◌, refl, Option, none, some, Bool-cases, inl, inr,
  Result, ok, err, transport_error, rate_limit_error, ◌==◌, if◌then◌else◌,
}
use hyperliquid_sdk_cpp.Config.{ApiConfig}
use hyperliquid_sdk_cpp.Types.Endpoint.{RestEndpointType, is_authenticated, to_path}
use hyperliquid_sdk_cpp.Messages.Info
use hyperliquid_sdk_cpp.Messages.Info.{spot_meta}
use hyperliquid_sdk_cpp.Messages.Exchange
use hyperliquid_sdk_cpp.Messages.Exchange.{place_order}
use hyperliquid_sdk_cpp.Rest.HttpSession.{Outcome, Completion}
use hyperliquid_sdk_cpp.Rest.HttpSession.Once.{completion_of, first_error, run_once}
use hyperliquid_sdk_cpp.Rest.Api.{
  Request, info, exchange, type_of, http_request, Call, on_message, on_error,
  on_rate_limit_exceeded, async_completion, sync_completion, sign_and_send_sync, sign_and_send,
}

-- One answer as a value or an exception, and as a callback.
pub data Agrees (type : RestEndpointType) : Result String → Call → Type 0 where
  received : (body : String) → Agrees type (ok body) (on_message body type)
  failed :
      (message : String)
      → Agrees type
          (err (transport_error (String.◌++◌ "RestApi: " message)))
          (on_error type message)
  limited :
      (body : String)
      → Agrees type
          (err (rate_limit_error (String.◌++◌ "RestApi: HTTP 429 rate limited: " body)))
          (on_rate_limit_exceeded type body)

completions-Agree :
    (type : RestEndpointType) (ec : Option String) (done : Completion)
    → Agrees type (sync_completion ec done) (async_completion ec type done)
unfolding sync_completion async_completion
completions-Agree type (some message) done = failed message
completions-Agree type none done = elim (Bool-cases (done.status_code == 429)) [
  | inl e ↦ rw e (limited done.body)
  | inr e ↦ rw e (received done.body)
]

-- A body that was prepared is answered once both ways, as soon as six handlers may run: the method
-- that waits returns or throws, the other one makes one callback with the endpoint of the request,
-- and both say the same: the response, the transport's error, or the rate limit.
pub sync_async_agree :
    {Body : Type 0} (type : RestEndpointType) (body : Body)
    (resolved connected shaken written response closed : Outcome) (os : List Outcome)
    → let outcomes = resolved ∷ connected ∷ shaken ∷ written ∷ response ∷ closed ∷ os in
      (result : Result String) × (call : Call) × (sign_and_send_sync (ok body) outcomes
        ≡ some result)
      × (sign_and_send type (ok body) outcomes ≡ ok (call ∷ []))
      × Agrees type result call
unfolding sign_and_send_sync sign_and_send
sync_async_agree type body a b c d e f os =
    let done =
      completion_of (first_error (a.ec ∷ a.host_name_ec ∷ b.ec ∷ c.ec ∷ d.ec ∷ e.ec ∷ [])) e in
    (
      sync_completion done.ec done,
      async_completion done.ec type done,
      rw (run_once a b c d e f os) refl,
      rw (run_once a b c d e f os) refl,
      completions-Agree type done.ec done,
    )

abbrev pub is_exchange : {Double : Type 0} → Request Double → Bool
is_exchange (info request) = false
is_exchange (exchange request vault_address) = true

-- Every exchange method sends to an endpoint that is signed and under `/exchange`, every
-- information method to one that is neither.
pub type_of-is_exchange :
    {Double Body : Type 0} (config : ApiConfig) (request : Request Double) (body : Body)
    → (is_authenticated (type_of request) ≡ is_exchange request)
      × ((http_request config (type_of request) body).path
          ≡ (if is_exchange request then "/exchange" else "/info"))
unfolding type_of Info.endpoint_of Exchange.endpoint_of is_authenticated http_request to_path
type_of-is_exchange config (info spot_meta) body = (refl, refl)
type_of-is_exchange config (info _) body = (refl, refl)
type_of-is_exchange config (exchange (place_order _ _ _) v) body = (refl, refl)
type_of-is_exchange config (exchange _ v) body = (refl, refl)
