-- ===== src/Websocket/Posts/Traffic.antt =====
-- The history of the table of posts: calls of `signAndSend` and `onWsMessage`.
use hyperliquid_sdk_cpp.Common.{
  ℕ, ◌+◌, ◌^◌, ◌≤◌, ◌<◌, List, [], ◌∷◌, ◌++◌, ◌≡◌, ◌≢◌, ◌⊎◌, refl, ◌∙◌, Option, none, some,
  Option-cases, Bool-cases, inl, inr, arith, All, length, ◌==◌, to_u64, Result, ok, err,
  if◌then◌else◌, String, Bool, true, false,
}
use text.Mathlib.Text.{◌==◌ as str_eq}
use hyperliquid_sdk_cpp.Config.{ApiConfig}
use hyperliquid_sdk_cpp.Json.{JsonLib}
use hyperliquid_sdk_cpp.Types.Endpoint.{RestEndpointType}
use hyperliquid_sdk_cpp.Signing.Eip712.{Crypto}
use hyperliquid_sdk_cpp.Signing.Bodies.{prepare_body_for_type}
use hyperliquid_sdk_cpp.Websocket.Posts.{
  PostRequestInfo, Posts, no_posts, int_of, add_post, erase_post, wrap, post_signed, sign_and_send,
  Message, handle_post_channel_message, on_ws_message,
}

-- The arguments of `signAndSend`, with the clock and `lastNonce`.
pub record Posting (Object : Type 0) : Type 0 where
  pub now : ℕ
  pub config : ApiConfig
  pub type : RestEndpointType
  pub body : Object
  pub vault_address : Option String
  pub expires_after : Option ℕ
  pub correlation_id : Option ℕ
  pub last : ℕ

abbrev pub info_of : {Object : Type 0} → Posting Object → PostRequestInfo
info_of p = record { type = p.type; correlation_id = p.correlation_id }

-- What happens: a request is posted, or a message comes in, before the API is stopped or after.
pub data Traffic (Object : Type 0) : Type 0 where
  posted : Posting Object → Traffic Object
  received : Bool → Message → Traffic Object

-- No message that came in has this id.
abbrev pub IsNotAnswer : {Object : Type 0} → ℕ → Traffic Object → Type 0
IsNotAnswer id (posted p) = Unit
IsNotAnswer id (received stopping m) = m.id ≢ some id

pub add_post-find :
    (info : PostRequestInfo) (posts : Posts) (k : ℕ)
    → posts.post_request_counter < 2 ^ 31
    → (add_post info posts).post_request_info k
      ≡ (if k == posts.post_request_counter then some info else posts.post_request_info k)
unfolding add_post int_of to_u64
add_post-find info posts k h = ground arith

module _ (C : Crypto) (J : JsonLib) where
  open J use {Object}

  abbrev pub send_posting : Posting Object → Posts → Result Object × ℕ × Posts
  send_posting p posts =
      sign_and_send C J p.now p.config p.type p.body p.vault_address p.expires_after
        p.correlation_id p.last posts

module _ (C : Crypto) (J : JsonLib) (parses : RestEndpointType → String → Bool)
    (data_of : String → Option String) where
  open J use {Json, Object, number, members}

  unfoldable pub apply : Traffic Object → Posts → Posts
  apply (posted p) posts = (send_posting C J p posts).2
  apply (received stopping m) posts = (on_ws_message parses data_of stopping m posts).1

  -- The table behind some traffic, the latest first.
  unfoldable pub table_of : List (Traffic Object) → Posts
  table_of [] = no_posts
  table_of (t ∷ before) = apply t (table_of before)

  handled_table :
      (m : Message) (posts : Posts)
      → let after = (handle_post_channel_message parses data_of m m.id posts).1 in
        (after ≡ posts) ⊎ ((id : ℕ) × (m.id ≡ some id) × (after ≡ erase_post id posts))
  unfolding handle_post_channel_message
  handled_table m posts = elim (Option-cases m.id) [
    | inl e ↦ inl (rw e refl)
    | inr (id, e) ↦ inr (id, e, rw e refl)
  ]

  -- A message takes one entry at most out of the table, the one of its id.
  pub received_table :
      (stopping : Bool) (m : Message) (posts : Posts)
      → let after = (on_ws_message parses data_of stopping m posts).1 in
        (after ≡ posts) ⊎ ((id : ℕ) × (m.id ≡ some id) × (after ≡ erase_post id posts))
  unfolding on_ws_message
  received_table true m posts = inl refl
  received_table false m posts = elim (Option-cases m.channel) [
    | inl e ↦ rw e (inl refl)
    | inr (channel, e) ↦ rw e elim (Bool-cases (str_eq channel "pong")) [
      | inl pong ↦ rw pong (inl refl)
      | inr other ↦ rw other elim (Bool-cases (str_eq channel "post")) [
        | inl post ↦ rw post (handled_table m posts)
        | inr plain ↦ rw plain (inl refl)
      ]
    ]
  ]

  signed_table :
      (p : Posting Object) (posts : Posts) (r : Result Object × ℕ)
      → let out = post_signed C J p.type p.correlation_id posts r in
        ((out.2 ≡ posts) × (e : _) × (out.0 ≡ err e))
        ⊎ ((payload : Object) × (out.0
              ≡ ok (wrap C J (int_of posts.post_request_counter) p.type payload))
            × (out.2 ≡ add_post (info_of p) posts))
  unfolding post_signed
  signed_table p posts (err e, last) = inl (refl, e, refl)
  signed_table p posts (ok payload, last) = inr (payload, refl, refl)

  -- A request whose body could be made puts one entry into the table.
  pub posted_table :
      (p : Posting Object) (posts : Posts)
      → ((apply (posted p) posts ≡ posts) × (e : _) × ((send_posting C J p posts).0 ≡ err e))
        ⊎ ((payload : Object) × ((send_posting C J p posts).0
              ≡ ok (wrap C J (int_of posts.post_request_counter) p.type payload))
            × (apply (posted p) posts ≡ add_post (info_of p) posts))
  unfolding sign_and_send apply
  posted_table p posts = signed_table p posts (
      prepare_body_for_type C J p.now p.config p.type p.body p.vault_address p.expires_after p.last)

  -- A step leaves the counter or takes the next number.
  pub apply-counter :
      (t : Traffic Object) (posts : Posts)
      → posts.post_request_counter < 2 ^ 31
      → (posts.post_request_counter ≤ (apply t posts).post_request_counter)
        × ((apply t posts).post_request_counter ≤ posts.post_request_counter + 1)
  unfolding apply add_post erase_post
  apply-counter (posted p) posts h = elim (posted_table p posts) [
    | inl (same, e, thrown) ↦ rw same (omega arith)
    | inr (_, _, more) ↦ rw more (omega arith)
  ]
  apply-counter (received stopping m) posts h = elim (received_table stopping m posts) [
    | inl same ↦ rw same (omega arith)
    | inr (_, _, less) ↦ rw less (omega arith)
  ]

  -- What a step does to the entry of a number that was given out.
  apply-keeps :
      (t : Traffic Object) (posts : Posts) (id : ℕ)
      → posts.post_request_counter < 2 ^ 31
      → id < posts.post_request_counter
      → IsNotAnswer id t
      → (apply t posts).post_request_info id ≡ posts.post_request_info id
  unfolding apply erase_post
  apply-keeps (posted p) posts id h b a = elim (posted_table p posts) [
    | inl (same, e, thrown) ↦ rw same refl
    | inr (_, _, more) ↦ rw more (add_post-find (info_of p) posts id h ∙ ground arith)
  ]
  apply-keeps (received stopping m) posts id h b a = elim (received_table stopping m posts) [
    | inl same ↦ rw same refl
    | inr (k, is, less) ↦ rw less (ground (arith, is, a))
  ]

  apply-absent :
      (t : Traffic Object) (posts : Posts) (id : ℕ)
      → posts.post_request_counter < 2 ^ 31
      → id < posts.post_request_counter
      → posts.post_request_info id ≡ none
      → (apply t posts).post_request_info id ≡ none
  unfolding apply erase_post
  apply-absent (posted p) posts id h b n = apply-keeps (posted p) posts id h b tt ∙ n
  apply-absent (received stopping m) posts id h b n = elim (received_table stopping m posts) [
    | inl same ↦ rw same n
    | inr (k, is, less) ↦ rw less (ground (arith, n))
  ]

  pub table_of-counter :
      (ts : List (Traffic Object))
      → length ts ≤ 2 ^ 31
      → (table_of ts).post_request_counter ≤ length ts
  unfolding table_of
  table_of-counter [] h = omega arith
  table_of-counter (t ∷ ts) h =
      let c = table_of-counter ts (omega arith) in
      omega (arith, c, apply-counter t (table_of ts) (omega (arith, c)))

  -- The numbers that were given out stay given out.
  pub grown :
      (later before : List (Traffic Object))
      → length (later ++ before) ≤ 2 ^ 31
      → (table_of before).post_request_counter ≤ (table_of (later ++ before)).post_request_counter
  unfolding table_of
  grown [] before h = omega arith
  grown (t ∷ later) before h =
      let c = table_of-counter (later ++ before) (omega arith) in
      omega (
        arith,
        grown later before (omega arith),
        apply-counter t (table_of (later ++ before)) (omega (arith, c)),
      )

  pub entry_is_kept :
      (later before : List (Traffic Object)) (id : ℕ)
      → length (later ++ before) ≤ 2 ^ 31
      → id < (table_of before).post_request_counter
      → All (IsNotAnswer id) later
      → (table_of (later ++ before)).post_request_info id ≡ (table_of before).post_request_info id
  unfolding table_of
  entry_is_kept [] before id h b a = refl
  entry_is_kept (t ∷ later) before id h b a =
      let c = table_of-counter (later ++ before) (omega arith) in
      let g = grown later before (omega arith) in
      apply-keeps t (table_of (later ++ before)) id (omega (arith, c)) (omega (arith, g)) a.0
      ∙ entry_is_kept later before id (omega arith) b a.1

  pub absence_is_kept :
      (later before : List (Traffic Object)) (id : ℕ)
      → length (later ++ before) ≤ 2 ^ 31
      → id < (table_of before).post_request_counter
      → (table_of before).post_request_info id ≡ none
      → (table_of (later ++ before)).post_request_info id ≡ none
  unfolding table_of
  absence_is_kept [] before id h b n = n
  absence_is_kept (t ∷ later) before id h b n =
      let c = table_of-counter (later ++ before) (omega arith) in
      let g = grown later before (omega arith) in
      apply-absent t (table_of (later ++ before)) id (omega (arith, c)) (omega (arith, g))
        (absence_is_kept later before id (omega arith) b n)
