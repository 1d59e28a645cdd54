-- ===== src/Rest/Parser/Simple.antt =====
-- src/rest/RestApiMessageParser.cpp: the answers to the other actions. The structs are of
-- include/hyperliquid/types/ResponseTypes.h.
pub mod Refusal
use text.Mathlib.Text.{◌==◌ as str_eq}
use hyperliquid_sdk_cpp.Common.{ℕ, String, Bool, true, false, Option, none, some, if◌then◌else◌}
use hyperliquid_sdk_cpp.Simdjson
use hyperliquid_sdk_cpp.Simdjson.{SimdLib, get_object, string_at, when_found}
use hyperliquid_sdk_cpp.Simdjson.Attempt.{Attempt, ◌>>=◌, ◌>>◌, read, write, stop}

-- `TwapOrderResponse`, `TwapCancelResponse`, `CreateSubAccountResponse` and `CreateVaultResponse`,
-- whose `result` is called `twapId`, `success`, `subAccountUser` and `vaultAddress`; in
-- `SimpleResponse` there is none.
pub record ActionResponse (A : Type 0) : Type 0 where
  pub status : String
  pub type : String
  pub result : Option A
  pub error : Option String

abbrev pub no_answer : {A : Type 0} → ActionResponse A
no_answer = record { status = ""; type = ""; result = none; error = none }

module _ (S : SimdLib) where
  open S use {Value, document, member, is_object, is_string, get_string, get_uint64}

  -- `response.error` behind `if (response.status != "ok")`.
  pub error_text : Option Value → Option String
  error_text none = none
  error_text (some resp) = if is_string resp then get_string resp else none

  module _ {A : Type 0} (fill_result : Value → Attempt (ActionResponse A) (Unit {0})) where
    unfoldable pub fill_accepted : Value → Attempt (ActionResponse A) (Unit {0})
    fill_accepted doc = do
      resp ← read (Simdjson.◌>>=◌ (member "response" doc) (get_object S))
      type ← read (string_at S "type" resp)
      write (λ r. record r { type = type })
      fill_result resp

    unfoldable pub fill_action : Value → Attempt (ActionResponse A) (Unit {0})
    unfolding error_text
    fill_action doc = do
      status ← read (string_at S "status" doc)
      write (λ r. record r { status = status })
      if str_eq status "ok"
          then fill_accepted doc
          else write (λ r. record r { error = error_text (member "response" doc) })

    -- Whether the `try` block ended without an error, too.
    unfoldable pub attempt_action : String → ActionResponse A × Option (Unit {0})
    attempt_action message = (do doc ← read (document message); fill_action doc) no_answer

  -- `parseSimpleResponse`, with what its `catch` does.
  pub or_raw : String → ActionResponse (Unit {0}) × Option (Unit {0}) → ActionResponse (Unit {0})
  or_raw message (r, some done) = r
  or_raw message (r, none) =
      if str_eq r.status "" then record r { status = "err"; error = some message } else r

  unfoldable pub parse_simple_response : String → ActionResponse (Unit {0})
  unfolding or_raw
  parse_simple_response message = or_raw message (attempt_action (λ resp. stop) message)

  fill_running : Value → Option ℕ
  fill_running v = Simdjson.◌>>=◌ (Simdjson.◌>>=◌ (get_object S v) (member "twapId")) get_uint64

  fill_twap_id : Option Value → Attempt (ActionResponse ℕ) (Unit {0})
  unfolding fill_running
  fill_twap_id none = stop
  fill_twap_id (some status) = do
    obj ← read (get_object S status)
    id ← read (when_found S fill_running (member "running" obj))
    write (λ r. record r { result = id })
    error ← read (when_found S get_string (member "error" obj))
    write (λ r. record r { error = error })

  unfoldable pub parse_twap_order : String → ActionResponse ℕ
  unfolding fill_twap_id
  parse_twap_order message =
      (attempt_action (λ resp. fill_twap_id (Simdjson.◌>>=◌ (member "data" resp) (member "status")))
        message).0

  fill_success : Option Value → Attempt (ActionResponse String) (Unit {0})
  fill_success none = stop
  fill_success (some status) =
      if is_string status
      then (do success ← read (get_string status); write (λ r. record r { result = some success }))
      else if is_object status
      then (do
        error ← read (when_found S get_string (member "error" status))
        write (λ r. record r { error = error }))
      else stop

  unfoldable pub parse_twap_cancel : String → ActionResponse String
  unfolding fill_success
  parse_twap_cancel message =
      (attempt_action (λ resp. fill_success (Simdjson.◌>>=◌ (member "data" resp) (member "status")))
        message).0

  unfoldable pub parse_create_sub_account : String → ActionResponse String
  parse_create_sub_account message =
      (attempt_action (λ resp. write (λ r. record r { result = string_at S "data" resp }))
        message).0

  unfoldable pub parse_create_vault : String → ActionResponse String
  parse_create_vault message =
      (attempt_action
        (λ resp. do
          address ← read (when_found S get_string (member "data" resp))
          write (λ r. record r { result = address }))
        message).0
