-- ===== src/Websocket/Posts/Correlation.antt =====
-- A response reaches the request that it answers, once.
use hyperliquid_sdk_cpp.Common.{
  ℕ, ◌^◌, ◌≤◌, ◌<◌, List, [], ◌∷◌, ◌++◌, ◌≡◌, refl, sym, ap, ◌∙◌, Option, none, some, arith, All,
  length, length-append, pos, to_u64, ok, String, Bool, false, inl, inr, ℤ,
}
use hyperliquid_sdk_cpp.Json.{JsonLib, IsLawful, lookup}
use hyperliquid_sdk_cpp.Json.Laws.{lookup-assign}
use hyperliquid_sdk_cpp.Types.Endpoint.{RestEndpointType}
use hyperliquid_sdk_cpp.Signing.Eip712.{Crypto}
use hyperliquid_sdk_cpp.Websocket.Posts.{
  PostRequestInfo, Posts, int_of, add_post, erase_post, wrap, Call, on_message, on_post_response,
  Message, handle_post_channel_message, on_ws_message,
}
use hyperliquid_sdk_cpp.Websocket.Posts.Traffic.{
  Posting, Traffic, posted, received, IsNotAnswer, send_posting, info_of, posted_table,
  received_table, apply, table_of, table_of-counter, entry_is_kept, absence_is_kept,
}

pub int_of-pos : (n : ℕ) → n < 2 ^ 31 → int_of n ≡ pos n
unfolding int_of
int_of-pos n h = ground arith

pos-inj : (m n : ℕ) → pos m ≡ pos n → m ≡ n
pos-inj m n h = cc

some-inj {ℓ} : {A : Type ℓ} {x y : A} → some x ≡ some y → x ≡ y
some-inj h = cc

pub added_entry :
    (info : PostRequestInfo) (posts : Posts)
    → posts.post_request_counter < 2 ^ 31
    → ((add_post info posts).post_request_info posts.post_request_counter ≡ some info)
      × (posts.post_request_counter < (add_post info posts).post_request_counter)
unfolding add_post int_of to_u64
added_entry info posts h = ground arith

module _ (C : Crypto) (J : JsonLib) (L : IsLawful J) (parses : RestEndpointType → String → Bool)
    (data_of : String → Option String) where
  open J use {Object, number, members}

  number-inj : (x y : ℤ) → number x ≡ number y → x ≡ y
  number-inj x y h =
      let same : some x ≡ some y =
        sym (L.as_number-number x) ∙ ap J.as_number h ∙ L.as_number-number y in
      cc

  wrap-id :
      (id : ℤ) (type : RestEndpointType) (payload : Object)
      → lookup "id" (members (wrap C J id type payload)) ≡ some (number id)
  unfolding wrap
  wrap-id id type payload = simp (lookup-assign J L)

  -- The id in the message is the number under which the table has the request.
  posting_is_found :
      (before : List (Traffic Object)) (p : Posting Object) (sent : Object) (id : ℕ)
      → length before < 2 ^ 31
      → (send_posting C J p (table_of C J parses data_of before)).0 ≡ ok sent
      → lookup "id" (members sent) ≡ some (number (pos id))
      → let after = table_of C J parses data_of (posted p ∷ before) in
        (after.post_request_info id ≡ some (info_of p)) × (id < after.post_request_counter)
  unfolding table_of
  posting_is_found before p sent id h out told =
      let posts = table_of C J parses data_of before in
      let few = table_of-counter C J parses data_of before (omega arith) in
      let small : posts.post_request_counter < 2 ^ 31 = omega (arith, few) in
      elim (posted_table C J parses data_of p posts) [
        | inl (same, e, thrown) ↦ cc
        | inr (payload, made, more) ↦
            let counter = posts.post_request_counter in
            let is_wrap : sent ≡ wrap C J (int_of counter) p.type payload = cc in
            let numbers : some (number (pos id)) ≡ some (number (int_of counter)) =
              sym told
              ∙ ap (λ o. lookup "id" (members o)) is_wrap
              ∙ wrap-id (int_of counter) p.type payload in
            let same : id ≡ counter = pos-inj id counter (
              number-inj (pos id) (int_of counter) (some-inj numbers) ∙ int_of-pos counter small) in
            rw (more, same) (added_entry (info_of p) posts small)
      ]

  -- As long as there were at most 2^31 calls, and the API is not being stopped, the response to a
  -- request, told by the id in the request's message, reaches the listener with the endpoint and the
  -- correlation id that the request was sent with, whatever else was sent in between and whatever
  -- came in with other ids.
  pub response_is_matched :
      (later before : List (Traffic Object)) (p : Posting Object) (sent : Object) (id : ℕ)
      (message : Message) (payload : String)
      → length (later ++ (posted p ∷ before)) ≤ 2 ^ 31
      → (send_posting C J p (table_of C J parses data_of before)).0 ≡ ok sent
      → lookup "id" (members sent) ≡ some (number (pos id))
      → All (IsNotAnswer id) later
      → message.channel ≡ some "post"
      → message.id ≡ some id
      → message.payload ≡ some payload
      → (rest : List Call) × ((on_ws_message parses data_of false message
            (table_of C J parses data_of (later ++ (posted p ∷ before)))).0
          ≡ on_post_response payload p.type p.correlation_id ∷ rest)
  unfolding on_ws_message handle_post_channel_message
  response_is_matched later before p sent id message payload h out told a channel is has =
      let few = length-append later (posted p ∷ before) in
      let (entry, given) = posting_is_found before p sent id (omega (arith, few)) out told in
      let found = entry_is_kept C J parses data_of later (posted p ∷ before) id h given a ∙ entry in
      rw (channel, is, has, found) (_, refl)

  answered_is_absent :
      (before : List (Traffic Object)) (answer : Message) (id : ℕ)
      → answer.channel ≡ some "post"
      → answer.id ≡ some id
      → (table_of C J parses data_of (received false answer ∷ before)).post_request_info id ≡ none
  unfolding table_of apply on_ws_message handle_post_channel_message erase_post
  answered_is_absent before answer id channel is = rw (channel, is) (ground arith)

  received-counter :
      (before : List (Traffic Object)) (answer : Message)
      → (table_of C J parses data_of (received false answer ∷ before)).post_request_counter
        ≡ (table_of C J parses data_of before).post_request_counter
  unfolding table_of apply erase_post
  received-counter before answer =
      elim (received_table C J parses data_of false answer (table_of C J parses data_of before)) [
        | inl same ↦ rw same refl
        | inr (id, is, less) ↦ rw less refl
      ]

  -- As long as there were at most 2^31 calls, and the API was not being stopped when the first
  -- response with an id came in, nor is now, another response with that id reaches the listener as a
  -- plain message only, if the id had been given out before the first one came in.
  pub second_response_is_plain :
      (later before : List (Traffic Object)) (answer message : Message) (id : ℕ)
      → length (later ++ (received false answer ∷ before)) ≤ 2 ^ 31
      → id < (table_of C J parses data_of before).post_request_counter
      → answer.channel ≡ some "post"
      → answer.id ≡ some id
      → message.channel ≡ some "post"
      → message.id ≡ some id
      → (on_ws_message parses data_of false message
          (table_of C J parses data_of (later ++ (received false answer ∷ before)))).0
        ≡ on_message message.raw ∷ []
  unfolding on_ws_message handle_post_channel_message
  second_response_is_plain later before answer message id h b channel_a is_a channel is =
      let kept = received-counter before answer in
      let gone =
        absence_is_kept C J parses data_of later (received false answer ∷ before) id h
          (omega (arith, kept)) (answered_is_absent before answer id channel_a is_a) in
      rw (channel, is, gone) refl
