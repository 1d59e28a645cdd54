-- ===== src/Rest/Parser/Statuses/RoundTrip.antt =====
-- The answers as the exchange writes them are read back.
use text.Mathlib.Text.{◌==◌ as str_eq}
use hyperliquid_sdk_cpp.Common.{
  String, false, List, [], ◌∷◌, ◌++◌, map, append-nil, append_assoc, ◌≡◌, refl, sym, ap, ◌∙◌, All,
  Option, some,
}
use hyperliquid_sdk_cpp.Json.{lookup}
use hyperliquid_sdk_cpp.Simdjson.{SimdLib, Writer}
use hyperliquid_sdk_cpp.Rest.Parser.Statuses.Written.{
  InRange, IsEither, order_status_written, cancel_status_written, All-order_status,
  All-cancel_status,
}
use hyperliquid_sdk_cpp.Rest.Parser.Statuses.{
  accepted, StatusesResponse, fill_statuses, parse_statuses, parse_place_order, parse_modify_order,
  parse_cancel_order,
}
use hyperliquid_sdk_cpp.Rest.Parser.Statuses.Entries.{
  OrderStatusResult, CancelStatusResult, order_status, cancel_status,
}

module _ (S : SimdLib) (W : Writer S) where
  open S use {Value, document}
  open W use {object, array, string}

  -- The answer "ok" with these values for statuses.
  abbrev pub answer : String → List Value → Value
  answer type values = object (
      ("status", string "ok")
      ∷ (
        "response",
        object (("type", string type) ∷ ("data", object (("statuses", array values) ∷ [])) ∷ []),
      )
      ∷ [])

  module _ {Entry : Type 0} (entry : Value → Option Entry) (written : Entry → Value) where
    -- Statuses that are read back, and then others.
    pub fill_statuses-append :
        (statuses : List Entry) (later : List Value) (r : StatusesResponse Entry)
        → All (λ s. entry (written s) ≡ some s) statuses
        → fill_statuses S entry (map written statuses ++ later) r
          ≡ fill_statuses S entry later (record r { statuses = r.statuses ++ statuses })
    unfolding fill_statuses
    fill_statuses-append [] later r h = rw (append-nil r.statuses) refl
    fill_statuses-append (s ∷ ss) later r (e, h) =
        let longer : StatusesResponse Entry = record r { statuses = r.statuses ++ s ∷ [] } in
        rw (e, fill_statuses-append ss later longer h) (simp append_assoc)

    pub parse_statuses-answer :
        (message type : String) (values : List Value)
        → document message ≡ some (answer type values)
        → str_eq type "default" ≡ false
        → parse_statuses S entry message ≡ (fill_statuses S entry values (accepted type [])).0
    unfolding parse_statuses lookup
    parse_statuses-answer message type values h t =
        simp (h, W.member-object, W.get_string-string, W.is_object-object, W.get_array-array, t)

    parse_statuses-written :
        (message type : String) (statuses : List Entry)
        → document message ≡ some (answer type (map written statuses))
        → str_eq type "default" ≡ false
        → All (λ s. entry (written s) ≡ some s) statuses
        → parse_statuses S entry message ≡ accepted type statuses
    unfolding fill_statuses
    parse_statuses-written message type statuses h t all =
        parse_statuses-answer message type (map written statuses) h t
        ∙ ap (λ values. (fill_statuses S entry values (accepted type [])).0)
            (sym (append-nil (map written statuses)))
        ∙ ap (λ (x : StatusesResponse Entry × Option (Unit {0})). x.0)
            (fill_statuses-append statuses [] (accepted type []) all)

  -- The answer to an order or a modification, as the exchange writes it, is read back whole: every
  -- order's status, in order, with its 64-bit id, resting or filled, or with its error.
  pub parse_place_order-written :
      (message type : String) (statuses : List OrderStatusResult)
      → document message ≡ some (answer type (map (order_status_written S W) statuses))
      → str_eq type "default" ≡ false
      → All (InRange S W) statuses
      → (parse_place_order S message ≡ accepted type statuses)
        × (parse_modify_order S message ≡ accepted type statuses)
  unfolding parse_place_order parse_modify_order
  parse_place_order-written message type statuses h t all =
      let read =
        parse_statuses-written (order_status S) (order_status_written S W) message type statuses h t
          (All-order_status S W statuses all) in
      (read, read)

  -- The answer to a cancel, as the exchange writes it, is read back whole: for each order the text
  -- of success or the error.
  pub parse_cancel_order-written :
      (message type : String) (statuses : List CancelStatusResult)
      → document message ≡ some (answer type (map (cancel_status_written S W) statuses))
      → str_eq type "default" ≡ false
      → All (IsEither S W) statuses
      → parse_cancel_order S message ≡ accepted type statuses
  unfolding parse_cancel_order
  parse_cancel_order-written message type statuses h t all =
      parse_statuses-written (cancel_status S) (cancel_status_written S W) message type statuses h t
        (All-cancel_status S W statuses all)
