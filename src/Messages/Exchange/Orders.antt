-- ===== src/Messages/Exchange/Orders.antt =====
-- src/messages/ExchangeRequestBuilder.cpp: orders, cancels, modifications, TWAPs, leverage, margin.
use mathlib.Core.Option
use hyperliquid_sdk_cpp.Common.{ℕ, List, Option, Result, ok, ◌>>=◌}
use hyperliquid_sdk_cpp.Json.{JsonLib}
use hyperliquid_sdk_cpp.Doubles.{Doubles}
use hyperliquid_sdk_cpp.Rest.SymbolMap.{SymbolMap}
use hyperliquid_sdk_cpp.Types.Orders.{
  OrderRequest, ModifyRequest, Grouping, grouping_to_string, Builder, CancelRequest,
  CancelByCloidRequest, UpdateLeverageRequest, UpdateIsolatedMarginRequest, TwapOrderRequest,
  TwapCancelRequest,
}
use hyperliquid_sdk_cpp.Messages.Wire.{
  ◌▷◌, map_ok, float_to_wire, resolve_asset, unsigned, assign_some, body_of, build_order_wire,
  build_modify,
}

module _ (J : JsonLib) (symbols : SymbolMap) where
  open J use {Json, Object, string, boolean, number, array, object, empty, assign}

  pub cancel_wire : CancelRequest → Result Json
  cancel_wire cancel = do
    asset ← resolve_asset symbols cancel.asset_id cancel.asset
    ok (object (empty ▷ assign "a" (number asset) ▷ assign "o" (unsigned J cancel.oid)))

  unfoldable pub cancel_order : List CancelRequest → Result Object
  unfolding cancel_wire
  cancel_order cancels = do
    wires ← map_ok cancel_wire cancels
    ok (body_of J (empty ▷ assign "type" (string "cancel") ▷ assign "cancels" (array wires)))

  pub cancel_by_cloid_wire : CancelByCloidRequest → Result Json
  cancel_by_cloid_wire cancel = do
    asset ← resolve_asset symbols cancel.asset_id cancel.asset
    ok (object (empty ▷ assign "asset" (number asset) ▷ assign "cloid" (string cancel.cloid)))

  unfoldable pub cancel_order_by_cloid : List CancelByCloidRequest → Result Object
  unfolding cancel_by_cloid_wire
  cancel_order_by_cloid cancels = do
    wires ← map_ok cancel_by_cloid_wire cancels
    ok (body_of J (empty ▷ assign "type" (string "cancelByCloid") ▷ assign "cancels" (array wires)))

  unfoldable pub schedule_cancel : Option ℕ → Result Object
  schedule_cancel time = ok (
      body_of J (
        empty
        ▷ assign "type" (string "scheduleCancel")
        ▷ assign_some J "time" (Option.map (unsigned J) time)))

  unfoldable pub update_leverage : UpdateLeverageRequest → Result Object
  update_leverage request = do
    asset ← resolve_asset symbols request.asset_id request.asset
    ok (
        body_of J (
          empty
          ▷ assign "type" (string "updateLeverage")
          ▷ assign "asset" (number asset)
          ▷ assign "isCross" (boolean request.is_cross)
          ▷ assign "leverage" (number request.leverage)))

  unfoldable pub update_isolated_margin : UpdateIsolatedMarginRequest → Result Object
  update_isolated_margin request = do
    asset ← resolve_asset symbols request.asset_id request.asset
    ok (
        body_of J (
          empty
          ▷ assign "type" (string "updateIsolatedMargin")
          ▷ assign "asset" (number asset)
          ▷ assign "isBuy" (boolean request.is_buy)
          ▷ assign "ntli" (number request.ntli)))

  unfoldable pub twap_cancel : TwapCancelRequest → Result Object
  twap_cancel request = do
    asset ← resolve_asset symbols request.asset_id request.asset
    ok (
        body_of J (
          empty
          ▷ assign "type" (string "twapCancel")
          ▷ assign "a" (number asset)
          ▷ assign "t" (unsigned J request.twap_id)))

module _ (J : JsonLib) (D : Doubles) (symbols : SymbolMap) where
  open J use {Json, Object, string, boolean, number, array, object, empty, assign}
  open D use {Double}

  builder_json : Builder → Json
  builder_json builder =
      object (empty ▷ assign "b" (string builder.address) ▷ assign "f" (number builder.fee))

  pub order_json : OrderRequest Double → Result Json
  order_json order = do wire ← build_order_wire J D symbols order; ok (object wire)

  unfoldable pub place_order :
      List (OrderRequest Double) → Grouping → Option Builder → Result Object
  unfolding builder_json order_json
  place_order orders grouping builder = do
    wires ← map_ok order_json orders
    ok (
        body_of J (
          empty
          ▷ assign "type" (string "order")
          ▷ assign "orders" (array wires)
          ▷ assign "grouping" (string (grouping_to_string grouping))
          ▷ assign_some J "builder" (Option.map builder_json builder)))

  unfoldable pub modify_order : ModifyRequest Double → Result Object
  modify_order modify = do
    action ← build_modify J D symbols modify (empty ▷ assign "type" (string "modify"))
    ok (body_of J action)

  pub modify_json : ModifyRequest Double → Result Json
  modify_json modify = do wire ← build_modify J D symbols modify empty; ok (object wire)

  unfoldable pub batch_modify_order : List (ModifyRequest Double) → Result Object
  unfolding modify_json
  batch_modify_order modifies = do
    wires ← map_ok modify_json modifies
    ok (body_of J (empty ▷ assign "type" (string "batchModify") ▷ assign "modifies" (array wires)))

  unfoldable pub twap_order : TwapOrderRequest Double → Result Object
  twap_order request = do
    asset ← resolve_asset symbols request.asset_id request.asset
    size ← float_to_wire D request.size
    let twap =
        empty
        ▷ assign "a" (number asset)
        ▷ assign "b" (boolean request.is_buy)
        ▷ assign "s" (string size)
        ▷ assign "r" (boolean request.reduce_only)
        ▷ assign "m" (number request.minutes)
        ▷ assign "t" (boolean request.randomize)
    ok (body_of J (empty ▷ assign "type" (string "twapOrder") ▷ assign "twap" (object twap)))
