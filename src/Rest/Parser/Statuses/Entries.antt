-- ===== src/Rest/Parser/Statuses/Entries.antt =====
-- src/rest/RestApiMessageParser.cpp: one status of an order or of a cancel. The structs are of
-- include/hyperliquid/types/ResponseTypes.h. A struct that is being read is lost with an error.
use hyperliquid_sdk_cpp.Common.{ℕ, String, Option, none, some, if◌then◌else◌}
use hyperliquid_sdk_cpp.Simdjson.{SimdLib, ◌>>=◌, get_object, string_at, when_found, unless_null}

pub record OrderStatusResting : Type 0 where
  pub oid : ℕ
  pub cloid : Option String

pub record OrderStatusFilled : Type 0 where
  pub total_sz : String
  pub avg_px : String
  pub oid : ℕ
  pub cloid : Option String

pub record OrderStatusResult : Type 0 where
  pub resting : Option OrderStatusResting
  pub filled : Option OrderStatusFilled
  pub error : Option String

pub record CancelStatusResult : Type 0 where
  pub success : Option String
  pub error : Option String

module _ (S : SimdLib) where
  open S use {Value, member, is_object, is_string, get_string, get_uint64}

  cloid_of : Value → Option (Option String)
  cloid_of obj = when_found S get_string (unless_null S (member "cloid" obj))

  unfoldable pub resting_of : Value → Option OrderStatusResting
  unfolding cloid_of
  resting_of v = do
    obj ← get_object S v
    oid ← member "oid" obj >>= get_uint64
    cloid ← cloid_of obj
    some (record { oid = oid; cloid = cloid })

  unfoldable pub filled_of : Value → Option OrderStatusFilled
  unfolding cloid_of
  filled_of v = do
    obj ← get_object S v
    total_sz ← string_at S "totalSz" obj
    avg_px ← string_at S "avgPx" obj
    oid ← member "oid" obj >>= get_uint64
    cloid ← cloid_of obj
    some (record { total_sz = total_sz; avg_px = avg_px; oid = oid; cloid = cloid })

  unfoldable pub order_status : Value → Option OrderStatusResult
  order_status v = do
    obj ← get_object S v
    resting ← when_found S resting_of (member "resting" obj)
    filled ← when_found S filled_of (member "filled" obj)
    error ← when_found S get_string (member "error" obj)
    some (record { resting = resting; filled = filled; error = error })

  unfoldable pub cancel_status : Value → Option CancelStatusResult
  cancel_status v =
      if is_string v
      then (do success ← get_string v; some (record { success = some success; error = none }))
      else if is_object v
      then (do
        error ← when_found S get_string (member "error" v)
        some (record { success = none; error = error }))
      else some (record { success = none; error = none })
