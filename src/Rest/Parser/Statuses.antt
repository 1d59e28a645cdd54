-- ===== src/Rest/Parser/Statuses.antt =====
-- src/rest/RestApiMessageParser.cpp: the answers to orders, cancels and modifications, which are
-- written in one way, with a status for each order.
pub mod Entries
pub mod Written
pub mod RoundTrip
pub mod Damaged
use text.Mathlib.Text.{◌==◌ as str_eq}
use hyperliquid_sdk_cpp.Common.{
  String, Bool, true, false, List, [], ◌∷◌, ◌++◌, Option, none, some, if◌then◌else◌,
}
use hyperliquid_sdk_cpp.Simdjson
use hyperliquid_sdk_cpp.Simdjson.{SimdLib, get_object, string_at}
use hyperliquid_sdk_cpp.Simdjson.Attempt.{Attempt, ◌>>=◌, ◌>>◌, read, write, stop}
use Entries.{OrderStatusResult, CancelStatusResult, order_status, cancel_status}

-- `PlaceOrderResponse`, `ModifyOrderResponse` and `CancelOrderResponse`.
pub record StatusesResponse (Entry : Type 0) : Type 0 where
  pub status : String
  pub type : String
  pub statuses : List Entry

abbrev pub no_response : {Entry : Type 0} → StatusesResponse Entry
no_response = record { status = ""; type = ""; statuses = [] }

abbrev pub accepted : {Entry : Type 0} → String → List Entry → StatusesResponse Entry
accepted type statuses = record { status = "ok"; type = type; statuses = statuses }

module _ (S : SimdLib) where
  open S use {Value, document, member, get_array}

  module _ {Entry : Type 0} (entry : Value → Option Entry) where
    -- The loop over the statuses.
    unfoldable pub fill_statuses : List Value → Attempt (StatusesResponse Entry) (Unit {0})
    fill_statuses [] = stop
    fill_statuses (v ∷ vs) = do
      status ← read (entry v)
      write (λ r. record r { statuses = r.statuses ++ status ∷ [] })
      fill_statuses vs

    -- Behind `if (response.status != "ok") return response;`
    unfoldable pub fill_response : Value → Attempt (StatusesResponse Entry) (Unit {0})
    fill_response doc = do
      resp ← read (Simdjson.◌>>=◌ (member "response" doc) (get_object S))
      type ← read (string_at S "type" resp)
      write (λ r. record r { type = type })
      if str_eq type "default" then stop else (do
        statuses ←
            read
              (Simdjson.◌>>=◌ (Simdjson.◌>>=◌ (member "data" resp) (member "statuses")) get_array)
        fill_statuses statuses)

    unfoldable pub fill_from : Value → Attempt (StatusesResponse Entry) (Unit {0})
    unfolding fill_response
    fill_from doc = do
      status ← read (string_at S "status" doc)
      write (λ r. record r { status = status })
      if str_eq status "ok" then fill_response doc else stop

    unfoldable pub parse_statuses : String → StatusesResponse Entry
    unfolding fill_from
    parse_statuses message = ((do doc ← read (document message); fill_from doc) no_response).0

  -- `parsePlaceOrder` and `parseModifyOrder` differ by what they log.
  unfoldable pub parse_place_order : String → StatusesResponse OrderStatusResult
  unfolding parse_statuses
  parse_place_order = parse_statuses (order_status S)

  unfoldable pub parse_modify_order : String → StatusesResponse OrderStatusResult
  unfolding parse_statuses
  parse_modify_order = parse_statuses (order_status S)

  unfoldable pub parse_cancel_order : String → StatusesResponse CancelStatusResult
  unfolding parse_statuses
  parse_cancel_order = parse_statuses (cancel_status S)
