-- ===== src/Websocket/Parser/User/Orders.antt =====
-- src/websocket/WebsocketMessageParser.cpp: `crackOrderUpdates`.
use text.Mathlib.Text.{◌==◌ as str_eq}
use hyperliquid_sdk_cpp.Common.{ℕ, Char, String, List, Option, some, if◌then◌else◌}
use hyperliquid_sdk_cpp.Simdjson.{SimdLib, SimdDoubles, ◌>>=◌, get_object, string_at, text_or_empty}
use hyperliquid_sdk_cpp.Websocket.Parser.Trades.{first_char}
use hyperliquid_sdk_cpp.Websocket.Parser.User.Fills.{each_read}

pub data OrderStatus : Type 0 where
  open_order filled canceled triggered rejected margin_canceled oracle_rejected : OrderStatus
  ioc_cancel_rejected unknown : OrderStatus

unfoldable pub string_to_order_status : String → OrderStatus
string_to_order_status s =
    if str_eq s "open"
    then open_order
    else if str_eq s "filled"
    then filled
    else if str_eq s "canceled"
    then canceled
    else if str_eq s "triggered"
    then triggered
    else if str_eq s "rejected"
    then rejected
    else if str_eq s "marginCanceled"
    then margin_canceled
    else if str_eq s "oracleRejected"
    then oracle_rejected
    else if str_eq s "iocCancelRejected"
    then ioc_cancel_rejected
    else unknown

pub record OrderUpdate (Double : Type 0) : Type 0 where
  pub coin : String
  pub side : Char
  pub limit_px : Double
  pub sz : Double
  pub oid : ℕ
  pub timestamp : ℕ
  pub orig_sz : Double
  pub cloid : String
  pub status : OrderStatus
  pub status_timestamp : ℕ

module _ (S : SimdLib) (D : SimdDoubles S) where
  open S use {Value, member, get_uint64}
  open D use {Double, to_double}

  unfoldable pub order_update : Value → Option (OrderUpdate Double)
  order_update entry = do
    obj ← get_object S entry
    order ← member "order" obj >>= get_object S
    coin ← string_at S "coin" order
    side ← string_at S "side" order
    limit_px ← string_at S "limitPx" order
    sz ← string_at S "sz" order
    oid ← member "oid" order >>= get_uint64
    timestamp ← member "timestamp" order >>= get_uint64
    orig_sz ← string_at S "origSz" order
    status ← string_at S "status" obj
    status_timestamp ← member "statusTimestamp" obj >>= get_uint64
    some (record {
      coin = coin;
      side = first_char side;
      limit_px = to_double limit_px;
      sz = to_double sz;
      oid = oid;
      timestamp = timestamp;
      orig_sz = to_double orig_sz;
      cloid = text_or_empty (string_at S "cloid" order);
      status = string_to_order_status status;
      status_timestamp = status_timestamp;
    })

  -- What `onOrderUpdate` is called with.
  pub crack_order_updates : List Value → List (OrderUpdate Double)
  crack_order_updates = each_read S order_update
