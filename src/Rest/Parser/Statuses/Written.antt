-- ===== src/Rest/Parser/Statuses/Written.antt =====
-- How the exchange writes the status of an order or a cancel, and that it is read back.
use mathlib.Core.Option
use hyperliquid_sdk_cpp.Common.{
  ℕ, ◌<◌, ◌^◌, String, List, [], ◌∷◌, ◌≡◌, ◌⊎◌, inl, inr, All, Option, none, some,
}
use hyperliquid_sdk_cpp.Json.{lookup}
use hyperliquid_sdk_cpp.Simdjson.{SimdLib, Writer}
use hyperliquid_sdk_cpp.Rest.Parser.Statuses.Entries.{
  OrderStatusResting, OrderStatusFilled, OrderStatusResult, CancelStatusResult, resting_of,
  filled_of, order_status, cancel_status,
}

module _ (S : SimdLib) (W : Writer S) where
  open S use {Value, document}
  open W use {object, array, string, unsigned}

  -- A member that is left out where there is no value.
  abbrev optional : String → Option Value → List (String × Value) → List (String × Value)
  optional key none later = later
  optional key (some v) later = (key, v) ∷ later

  abbrev pub resting_written : OrderStatusResting → Value
  resting_written r =
      object (("oid", unsigned r.oid) ∷ optional "cloid" (Option.map string r.cloid) [])

  abbrev pub filled_written : OrderStatusFilled → Value
  filled_written f = object (
      ("totalSz", string f.total_sz)
      ∷ ("avgPx", string f.avg_px)
      ∷ ("oid", unsigned f.oid)
      ∷ optional "cloid" (Option.map string f.cloid) [])

  abbrev pub order_status_written : OrderStatusResult → Value
  order_status_written s = object (
      optional "resting" (Option.map resting_written s.resting) (
        optional "filled" (Option.map filled_written s.filled)
          (optional "error" (Option.map string s.error) [])))

  abbrev pub RestingFits : Option OrderStatusResting → Type 0
  RestingFits none = Unit {0}
  RestingFits (some r) = r.oid < 2 ^ 64

  abbrev pub FilledFits : Option OrderStatusFilled → Type 0
  FilledFits none = Unit {0}
  FilledFits (some f) = f.oid < 2 ^ 64

  -- Order ids are 64-bit numbers.
  abbrev pub InRange : OrderStatusResult → Type 0
  InRange s = RestingFits s.resting × FilledFits s.filled

  resting_of-written :
      (oid : ℕ) (cloid : Option String)
      → oid < 2 ^ 64
      → let r : OrderStatusResting = record { oid = oid; cloid = cloid } in
        resting_of S (resting_written r) ≡ some r
  unfolding resting_of lookup
  resting_of-written oid none h =
      simp (W.is_object-object, W.member-object, W.get_uint64-unsigned oid h)
  resting_of-written oid (some c) h = simp (
    W.is_object-object,
    W.member-object,
    W.get_uint64-unsigned oid h,
    W.is_null-string,
    W.get_string-string,
  )

  filled_of-written :
      (total_sz avg_px : String) (oid : ℕ) (cloid : Option String)
      → oid < 2 ^ 64
      → let f : OrderStatusFilled = record {
        total_sz = total_sz;
        avg_px = avg_px;
        oid = oid;
        cloid = cloid;
      } in
        filled_of S (filled_written f) ≡ some f
  unfolding filled_of lookup
  filled_of-written total_sz avg_px oid none h =
      simp (W.is_object-object, W.member-object, W.get_string-string, W.get_uint64-unsigned oid h)
  filled_of-written total_sz avg_px oid (some c) h = simp (
    W.is_object-object,
    W.member-object,
    W.get_string-string,
    W.get_uint64-unsigned oid h,
    W.is_null-string,
  )

  order_status-parts :
      (resting : Option OrderStatusResting) (filled : Option OrderStatusFilled)
      (error : Option String)
      → RestingFits resting
      → FilledFits filled
      → let s : OrderStatusResult = record { resting = resting; filled = filled; error = error } in
        order_status S (order_status_written s) ≡ some s
  unfolding order_status lookup
  order_status-parts none none none hr hf = simp (W.is_object-object, W.member-object)
  order_status-parts none none (some e) hr hf =
      simp (W.is_object-object, W.member-object, W.get_string-string)
  order_status-parts (some r) none none hr hf =
      simp (W.is_object-object, W.member-object, resting_of-written r.oid r.cloid hr)
  order_status-parts (some r) none (some e) hr hf = simp (
    W.is_object-object,
    W.member-object,
    W.get_string-string,
    resting_of-written r.oid r.cloid hr,
  )
  order_status-parts none (some f) none hr hf =
      simp (
        W.is_object-object,
        W.member-object,
        filled_of-written f.total_sz f.avg_px f.oid f.cloid hf,
      )
  order_status-parts none (some f) (some e) hr hf = simp (
    W.is_object-object,
    W.member-object,
    W.get_string-string,
    filled_of-written f.total_sz f.avg_px f.oid f.cloid hf,
  )
  order_status-parts (some r) (some f) none hr hf = simp (
    W.is_object-object,
    W.member-object,
    resting_of-written r.oid r.cloid hr,
    filled_of-written f.total_sz f.avg_px f.oid f.cloid hf,
  )
  order_status-parts (some r) (some f) (some e) hr hf = simp (
    W.is_object-object,
    W.member-object,
    W.get_string-string,
    resting_of-written r.oid r.cloid hr,
    filled_of-written f.total_sz f.avg_px f.oid f.cloid hf,
  )

  order_status-written :
      (s : OrderStatusResult) → InRange s → order_status S (order_status_written s) ≡ some s
  order_status-written s h = order_status-parts s.resting s.filled s.error h.0 h.1

  -- A cancel's status is a text, or an object with the error.
  abbrev cancel_parts_written : Option String → Option String → Value
  cancel_parts_written (some s) error = string s
  cancel_parts_written none error = object (optional "error" (Option.map string error) [])

  abbrev pub cancel_status_written : CancelStatusResult → Value
  cancel_status_written c = cancel_parts_written c.success c.error

  -- It is not both.
  abbrev pub IsEither : CancelStatusResult → Type 0
  IsEither c = (c.success ≡ none) ⊎ (c.error ≡ none)

  cancel_status-parts :
      (success error : Option String)
      → (success ≡ none) ⊎ (error ≡ none)
      → let c : CancelStatusResult = record { success = success; error = error } in
        cancel_status S (cancel_status_written c) ≡ some c
  unfolding cancel_status lookup
  cancel_status-parts (some s) none h = simp (W.is_string-string, W.get_string-string)
  cancel_status-parts none none h = simp (W.is_string-object, W.is_object-object, W.member-object)
  cancel_status-parts none (some e) h =
      simp (W.is_string-object, W.is_object-object, W.member-object, W.get_string-string)
  cancel_status-parts (some s) (some e) (inl h) = cc
  cancel_status-parts (some s) (some e) (inr h) = cc

  pub cancel_status-written :
      (c : CancelStatusResult) → IsEither c → cancel_status S (cancel_status_written c) ≡ some c
  cancel_status-written c h = cancel_status-parts c.success c.error h

  pub All-order_status :
      (statuses : List OrderStatusResult)
      → All InRange statuses
      → All (λ s. order_status S (order_status_written s) ≡ some s) statuses
  All-order_status [] h = tt
  All-order_status (s ∷ ss) (hs, h) = (order_status-written s hs, All-order_status ss h)

  pub All-cancel_status :
      (statuses : List CancelStatusResult)
      → All IsEither statuses
      → All (λ c. cancel_status S (cancel_status_written c) ≡ some c) statuses
  All-cancel_status [] h = tt
  All-cancel_status (c ∷ cs) (hc, h) = (cancel_status-written c hc, All-cancel_status cs h)
