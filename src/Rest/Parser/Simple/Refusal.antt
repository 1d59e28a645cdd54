-- ===== src/Rest/Parser/Simple/Refusal.antt =====
-- What the caller learns of an action that was refused, or of a text that is no document.
use text.Mathlib.Text.{◌==◌ as str_eq}
use hyperliquid_sdk_cpp.Common.{String, false, [], ◌∷◌, ◌≡◌, refl, ap, Option, none, some}
use hyperliquid_sdk_cpp.Json.{lookup}
use hyperliquid_sdk_cpp.Simdjson.{SimdLib, Writer}
use hyperliquid_sdk_cpp.Rest.Parser.Statuses.{
  StatusesResponse, no_response, parse_statuses, parse_place_order, parse_modify_order,
  parse_cancel_order,
}
use hyperliquid_sdk_cpp.Simdjson.Attempt.{Attempt}
use hyperliquid_sdk_cpp.Rest.Parser.Statuses.Entries.{order_status, cancel_status}
use hyperliquid_sdk_cpp.Rest.Parser.Simple.{
  ActionResponse, no_answer, fill_action, attempt_action, parse_simple_response, parse_twap_order,
  parse_twap_cancel, parse_create_sub_account, parse_create_vault,
}

answer_of : {A : Type 0} {x y : ActionResponse A × Option (Unit {0})} → x ≡ y → x.0 ≡ y.0
answer_of {A} e = ap (λ (x : ActionResponse A × Option (Unit {0})). x.0) e

module _ (S : SimdLib) (W : Writer S) where
  open S use {Value, document}
  open W use {object, string}

  abbrev pub refusal : String → String → Value
  refusal status reason = object (("status", string status) ∷ ("response", string reason) ∷ [])

  abbrev pub refused : {A : Type 0} → String → String → ActionResponse A
  refused status reason = record { status = status; type = ""; result = none; error = some reason }

  abbrev pub refused_statuses : {Entry : Type 0} → String → StatusesResponse Entry
  refused_statuses status = record { status = status; type = ""; statuses = [] }

  attempt_action-refusal :
      {A : Type 0} (fill : Value → Attempt (ActionResponse A) (Unit {0}))
      (message status reason : String)
      → document message ≡ some (refusal status reason)
      → str_eq status "ok" ≡ false
      → attempt_action S fill message ≡ (refused status reason, some tt)
  unfolding attempt_action fill_action lookup
  attempt_action-refusal fill message status reason h n =
      simp (h, W.member-object, W.get_string-string, W.is_string-string, n)

  parse_statuses-refusal :
      {Entry : Type 0} (entry : Value → Option Entry) (message status reason : String)
      → document message ≡ some (refusal status reason)
      → str_eq status "ok" ≡ false
      → parse_statuses S entry message ≡ refused_statuses status
  unfolding parse_statuses lookup
  parse_statuses-refusal entry message status reason h n =
      simp (h, W.member-object, W.get_string-string, n)

  -- A refusal, with its reason, is reported by the parsers of all actions but orders, modifications
  -- and cancels, whose responses keep the status and lose the reason.
  pub refusal_is_reported :
      (message status reason : String)
      → document message ≡ some (refusal status reason)
      → str_eq status "ok" ≡ false
      → (parse_simple_response S message ≡ refused status reason)
        × (parse_twap_order S message ≡ refused status reason)
        × (parse_twap_cancel S message ≡ refused status reason)
        × (parse_create_sub_account S message ≡ refused status reason)
        × (parse_create_vault S message ≡ refused status reason)
        × (parse_place_order S message ≡ refused_statuses status)
        × (parse_modify_order S message ≡ refused_statuses status)
        × (parse_cancel_order S message ≡ refused_statuses status)
  unfolding parse_simple_response parse_twap_order parse_twap_cancel parse_create_sub_account
      parse_create_vault parse_place_order parse_modify_order parse_cancel_order
  refusal_is_reported message status reason h n = (
    rw (attempt_action-refusal _ message status reason h n) refl,
    answer_of (attempt_action-refusal _ message status reason h n),
    answer_of (attempt_action-refusal _ message status reason h n),
    answer_of (attempt_action-refusal _ message status reason h n),
    answer_of (attempt_action-refusal _ message status reason h n),
    parse_statuses-refusal (order_status S) message status reason h n,
    parse_statuses-refusal (order_status S) message status reason h n,
    parse_statuses-refusal (cancel_status S) message status reason h n,
  )

module _ (S : SimdLib) where
  open S use {document}

  attempt_action-none :
      {A : Type 0} (fill : S.Value → Attempt (ActionResponse A) (Unit {0})) (message : String)
      → document message ≡ none
      → attempt_action S fill message ≡ (no_answer, none)
  unfolding attempt_action
  attempt_action-none fill message h = rw h refl

  parse_statuses-none :
      {Entry : Type 0} (entry : S.Value → Option Entry) (message : String)
      → document message ≡ none
      → parse_statuses S entry message ≡ no_response
  unfolding parse_statuses
  parse_statuses-none entry message h = rw h refl

  -- A text that is no document: only the simple response says that there was an error, and keeps
  -- the text; the others are as they were constructed, with an empty status.
  pub no_document_is_reported :
      (message : String)
      → document message ≡ none
      → (parse_simple_response S message
          ≡ record { status = "err"; type = ""; result = none; error = some message })
        × (parse_twap_order S message ≡ no_answer)
        × (parse_twap_cancel S message ≡ no_answer)
        × (parse_create_sub_account S message ≡ no_answer)
        × (parse_create_vault S message ≡ no_answer)
        × (parse_place_order S message ≡ no_response)
        × (parse_modify_order S message ≡ no_response)
        × (parse_cancel_order S message ≡ no_response)
  unfolding parse_simple_response parse_twap_order parse_twap_cancel parse_create_sub_account
      parse_create_vault parse_place_order parse_modify_order parse_cancel_order
  no_document_is_reported message h = (
    rw (attempt_action-none _ message h) refl,
    answer_of (attempt_action-none _ message h),
    answer_of (attempt_action-none _ message h),
    answer_of (attempt_action-none _ message h),
    answer_of (attempt_action-none _ message h),
    parse_statuses-none (order_status S) message h,
    parse_statuses-none (order_status S) message h,
    parse_statuses-none (cancel_status S) message h,
  )
