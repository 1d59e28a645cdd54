-- ===== src/Rest/Parser/Statuses/Damaged.antt =====
-- What is left of an answer that is not as the code expects it.
use text.Mathlib.Text.{◌==◌ as str_eq}
use hyperliquid_sdk_cpp.Common.{
  String, false, List, [], ◌∷◌, ◌++◌, map, ◌≡◌, refl, ap, ◌∙◌, All, Option, none, some,
  Option-cases, Bool-cases, inl, inr,
}
use hyperliquid_sdk_cpp.Simdjson
use hyperliquid_sdk_cpp.Simdjson.{SimdLib, Writer, get_object, string_at, text_or_empty}
use hyperliquid_sdk_cpp.Rest.Parser.Statuses.{
  StatusesResponse, no_response, accepted, fill_statuses, fill_response, parse_statuses,
  parse_place_order, parse_modify_order, parse_cancel_order,
}
use hyperliquid_sdk_cpp.Rest.Parser.Statuses.Entries.{
  OrderStatusResult, order_status, cancel_status,
}
use hyperliquid_sdk_cpp.Rest.Parser.Statuses.Written.{
  InRange, order_status_written, All-order_status,
}
use hyperliquid_sdk_cpp.Rest.Parser.Statuses.RoundTrip.{
  answer, fill_statuses-append, parse_statuses-answer,
}

module _ (S : SimdLib) (W : Writer S) where
  open S use {Value, document}

  -- A status that cannot be read hides itself and all later ones: the answer is, field by field,
  -- the one of a message that had no status behind the readable ones.
  pub parse_place_order-damaged :
      (message type : String) (statuses : List OrderStatusResult) (bad : Value) (later : List Value)
      → document message
        ≡ some (answer S W type (map (order_status_written S W) statuses ++ bad ∷ later))
      → str_eq type "default" ≡ false
      → All (InRange S W) statuses
      → order_status S bad ≡ none
      → (parse_place_order S message ≡ accepted type statuses)
        × (parse_modify_order S message ≡ accepted type statuses)
  unfolding parse_place_order parse_modify_order fill_statuses
  parse_place_order-damaged message type statuses bad later h t all e =
      let written = map (order_status_written S W) statuses ++ bad ∷ later in
      let read =
        parse_statuses-answer S W (order_status S) (order_status_written S W) message type written h
          t
        ∙ ap (λ (x : StatusesResponse OrderStatusResult × Option (Unit {0})). x.0)
            (fill_statuses-append S W (order_status S) (order_status_written S W) statuses
              (bad ∷ later) (accepted type []) (All-order_status S W statuses all))
        ∙ rw e refl in
      (read, read)

module _ (S : SimdLib) where
  open S use {Value, document, member, get_array}

  -- The text of the member "status", or the empty text where there is none.
  abbrev pub own_status : String → String
  own_status message = text_or_empty (Simdjson.◌>>=◌ (document message) (string_at S "status"))

  module _ {Entry : Type 0} (entry : Value → Option Entry) where
    fill_statuses-status :
        (vs : List Value) (r : StatusesResponse Entry)
        → (fill_statuses S entry vs r).0.status ≡ r.status
    unfolding fill_statuses
    fill_statuses-status [] r = refl
    fill_statuses-status (v ∷ vs) r = elim (Option-cases (entry v)) [
      | inl e ↦ rw e refl
      | inr (s, e) ↦ rw e (fill_statuses-status vs (record r { statuses = r.statuses ++ s ∷ [] }))
    ]

    statuses_of : Value → Option (List Value)
    statuses_of resp =
        Simdjson.◌>>=◌ (Simdjson.◌>>=◌ (member "data" resp) (member "statuses")) get_array

    fill_response-status :
        (doc : Value) (r : StatusesResponse Entry)
        → (fill_response S entry doc r).0.status ≡ r.status
    unfolding fill_response statuses_of
    fill_response-status doc r =
        elim (Option-cases (Simdjson.◌>>=◌ (member "response" doc) (get_object S))) [
          | inl e ↦ rw e refl
          | inr (resp, e) ↦ elim (Option-cases (string_at S "type" resp)) [
            | inl t ↦ rw (e, t) refl
            | inr (type, t) ↦ elim (Bool-cases (str_eq type "default")) [
              | inl b ↦ rw (e, t, b) refl
              | inr b ↦ elim (Option-cases (statuses_of resp)) [
                | inl x ↦ rw (e, t, b, x) refl
                | inr (vs, x) ↦ rw (e, t, b, x) (fill_statuses-status vs _)
              ]
            ]
          ]
        ]

    parse_statuses-status :
        (message : String) → (parse_statuses S entry message).status ≡ own_status message
    unfolding parse_statuses
    parse_statuses-status message = elim (Option-cases (document message)) [
      | inl d ↦ rw d refl
      | inr (doc, d) ↦ elim (Option-cases (string_at S "status" doc)) [
        | inl e ↦ rw (d, e) refl
        | inr (status, e) ↦ elim (Bool-cases (str_eq status "ok")) [
          | inl b ↦ rw (d, e, b) (fill_response-status doc (record no_response { status = status }))
          | inr b ↦ rw (d, e, b) refl
        ]
      ]
    ]

  -- The status that these parsers report is the message's own: nothing behind it changes it, also
  -- where the rest cannot be read. It is empty where the text is no document, or has no text for a
  -- status.
  pub parse-own_status :
      (message : String)
      → ((parse_place_order S message).status ≡ own_status message)
        × ((parse_modify_order S message).status ≡ own_status message)
        × ((parse_cancel_order S message).status ≡ own_status message)
  unfolding parse_place_order parse_modify_order parse_cancel_order
  parse-own_status message = (
    parse_statuses-status (order_status S) message,
    parse_statuses-status (order_status S) message,
    parse_statuses-status (cancel_status S) message,
  )
