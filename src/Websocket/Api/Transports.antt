-- ===== src/Websocket/Api/Transports.antt =====
-- src/websocket/WebsocketApi.cpp: the bodies that it posts are those of src/rest/RestApi.cpp.
use hyperliquid_sdk_cpp.Common.{
  ℕ, ◌^◌, ◌<◌, String, true, false, ◌≡◌, refl, ap, Option, some, Result, ok, err, pos, ◌==◌,
  if◌then◌else◌,
}
use hyperliquid_sdk_cpp.Config.{ApiConfig}
use hyperliquid_sdk_cpp.Json.{JsonLib, IsLawful, lookup}
use hyperliquid_sdk_cpp.Json.Laws.{lookup-assign}
use hyperliquid_sdk_cpp.Doubles.{Doubles}
use hyperliquid_sdk_cpp.Types.Endpoint.{RestEndpointType, is_authenticated}
use hyperliquid_sdk_cpp.Messages.Wire.{◌▷◌}
use hyperliquid_sdk_cpp.Messages.Info
use hyperliquid_sdk_cpp.Messages.Info.{InfoRequest, spot_meta}
use hyperliquid_sdk_cpp.Messages.Exchange
use hyperliquid_sdk_cpp.Messages.Exchange.{ExchangeRequest, place_order}
use hyperliquid_sdk_cpp.Rest.SymbolMap.{SymbolMap}
use hyperliquid_sdk_cpp.Rest.Api.{
  Request, info, exchange, type_of, takes_vault, vault_argument, prepare, prepare_built,
}
use hyperliquid_sdk_cpp.Signing.Eip712.{Crypto}
use hyperliquid_sdk_cpp.Websocket.Posts.{PostRequestInfo, Posts, wrap, post_signed, sign_and_send}
use hyperliquid_sdk_cpp.Websocket.Posts.Traffic.{add_post-find}
use hyperliquid_sdk_cpp.Websocket.Posts.Correlation.{int_of-pos, added_entry}
use hyperliquid_sdk_cpp.Websocket.Api.{post, post_built}
use hyperliquid_sdk_cpp.Websocket.Api.InfoCalls.{info_call}
use hyperliquid_sdk_cpp.Websocket.Api.ExchangeCalls.{exchange_call}

-- The kind of payload that the exchange is told.
abbrev pub kind_of : {Double : Type 0} → Request Double → String
kind_of (info request) = "info"
kind_of (exchange request vault_address) = "action"

info_call-eq :
    (J : JsonLib) (request : InfoRequest)
    → info_call J request ≡ (Info.endpoint_of request, Info.build J request)
unfolding info_call Info.endpoint_of Info.build
info_call-eq J spot_meta = refl
info_call-eq J _ = refl

exchange_call-eq :
    (J : JsonLib) (D : Doubles) (symbols : SymbolMap) (vault : Option String)
    (request : ExchangeRequest D.Double)
    → exchange_call J D symbols vault request ≡ (
      Exchange.endpoint_of request,
      Exchange.build J D symbols request,
      vault_argument request vault,
    )
unfolding exchange_call Exchange.endpoint_of Exchange.build takes_vault
exchange_call-eq J D symbols vault (place_order _ _ _) = refl
exchange_call-eq J D symbols vault _ = refl

info-kind : (request : InfoRequest) → is_authenticated (Info.endpoint_of request) ≡ false
unfolding is_authenticated Info.endpoint_of
info-kind spot_meta = refl
info-kind _ = refl

exchange-kind :
    {Double : Type 0} (request : ExchangeRequest Double)
    → is_authenticated (Exchange.endpoint_of request) ≡ true
unfolding is_authenticated Exchange.endpoint_of
exchange-kind (place_order _ _ _) = refl
exchange-kind _ = refl

kind_of-type_of :
    {Double : Type 0} (request : Request Double)
    → (if is_authenticated (type_of request) then "action" else "info") ≡ kind_of request
unfolding type_of
kind_of-type_of (info request) = rw (info-kind request) refl
kind_of-type_of (exchange request vault) = rw (exchange-kind request) refl

module _ (C : Crypto) (J : JsonLib) (D : Doubles) where
  open J use {Object, string, number, object, members}
  open D use {Double}

  post_built-eq :
      (now : ℕ) (config : ApiConfig) (type : RestEndpointType) (body : Result Object)
      (vault_address : Option String) (correlation_id : Option ℕ) (last : ℕ) (posts : Posts)
      → post_built C J D now config type body vault_address correlation_id last posts
        ≡ post_signed C J type correlation_id posts
            (prepare_built C J D now config type body vault_address last)
  unfolding post_built prepare_built sign_and_send post_signed
  post_built-eq now config type (err e) v c last posts = refl
  post_built-eq now config type (ok body) v c last posts = refl

  post-eq :
      (now : ℕ) (config : ApiConfig) (symbols : SymbolMap) (request : Request Double)
      (correlation_id : Option ℕ) (last : ℕ) (posts : Posts)
      → post C J D now config symbols request correlation_id last posts
        ≡ post_signed C J
            (type_of request)
            correlation_id
            posts
            (prepare C J D now config symbols request last)
  unfolding post prepare type_of sign_and_send
  post-eq now config symbols (info request) c last posts = rw (info_call-eq J request) refl
  post-eq now config symbols (exchange request v) c last posts =
      rw (exchange_call-eq J D symbols v request) (
        post_built-eq now config (Exchange.endpoint_of request) (Exchange.build J D symbols request)
          (vault_argument request v) c last posts)

  -- The message with that number, of that kind, around that payload.
  pub record IsPost (kind : String) (id : ℕ) (payload message : Object) : Type 0 where
    pub request : Object
    pub method : lookup "method" (members message) ≡ some (string "post")
    pub numbered : lookup "id" (members message) ≡ some (number (pos id))
    pub requested : lookup "request" (members message) ≡ some (object request)
    pub typed : lookup "type" (members request) ≡ some (string kind)
    pub carried : lookup "payload" (members request) ≡ some (object payload)

  -- What is posted for a body that was prepared, or for an exception, and the table behind it.
  abbrev pub IsPosted :
      Request Double → Option ℕ → Posts → Result Object → Result Object → Posts → Type 0
  IsPosted request correlation_id posts (err e) posted after = (posted ≡ err e) × (after ≡ posts)
  IsPosted request correlation_id posts (ok body) posted after =
      (message : Object) × (posted ≡ ok message)
      × IsPost (kind_of request) posts.post_request_counter body message
      × (posts.post_request_counter < after.post_request_counter)
      × ((id : ℕ)
          → after.post_request_info id ≡ (
              if id == posts.post_request_counter
              then some (record { type = type_of request; correlation_id = correlation_id })
              else posts.post_request_info id))

  module _ (L : IsLawful J) where
    wrap-IsPost :
        (type : RestEndpointType) (kind : String) (id : ℕ) (payload : Object)
        → (if is_authenticated type then "action" else "info") ≡ kind
        → IsPost kind id payload (wrap C J (pos id) type payload)
    unfolding wrap
    wrap-IsPost type kind id payload k = record {
      request =
          J.empty
          ▷ J.assign "type" (string (if is_authenticated type then "action" else "info"))
          ▷ J.assign "payload" (object payload);
      method = simp (lookup-assign J L);
      numbered = simp (lookup-assign J L);
      requested = simp (lookup-assign J L);
      typed = simp (lookup-assign J L, k);
      carried = simp (lookup-assign J L);
    }

    post_signed-IsPosted :
        (request : Request Double) (c : Option ℕ) (posts : Posts) (prepared : Result Object × ℕ)
        → posts.post_request_counter < 2 ^ 31
        → let posted = post_signed C J (type_of request) c posts prepared in
          IsPosted request c posts prepared.0 posted.0 posted.2 × (posted.1 ≡ prepared.1)
    unfolding post_signed
    post_signed-IsPosted request c posts (err e, last) h = ((refl, refl), refl)
    post_signed-IsPosted request c posts (ok body, last) h =
        let entry : PostRequestInfo = record { type = type_of request; correlation_id = c } in
        let id = posts.post_request_counter in
        (
          (
            wrap C J (pos id) (type_of request) body,
            ap (λ n. ok (wrap C J n (type_of request) body)) (int_of-pos id h),
            wrap-IsPost (type_of request) (kind_of request) id body (kind_of-type_of request),
            (added_entry entry posts h).1,
            λ k. add_post-find entry posts k h,
          ),
          refl,
        )

    -- Both transports treat a request alike, as long as fewer than 2^31 messages were posted. An
    -- exception is the same one, and leaves the table of posts; otherwise the message that is posted
    -- carries the body that the REST methods send, as "action" or as "info", under the next number,
    -- and under this number, and no other, the table has a new entry, with the endpoint that the
    -- REST methods send the request to and the correlation id. The same nonces are consumed.
    pub transports_agree :
        (now : ℕ) (config : ApiConfig) (symbols : SymbolMap) (request : Request Double)
        (correlation_id : Option ℕ) (last : ℕ) (posts : Posts)
        → posts.post_request_counter < 2 ^ 31
        → let posted = post C J D now config symbols request correlation_id last posts in
          let prepared = prepare C J D now config symbols request last in
          IsPosted request correlation_id posts prepared.0 posted.0 posted.2
          × (posted.1 ≡ prepared.1)
    transports_agree now config symbols request c last posts h =
        rw (post-eq now config symbols request c last posts)
          (post_signed-IsPosted request c posts (prepare C J D now config symbols request last) h)
