-- ===== src/Messages/Wire.antt =====
-- src/messages/ExchangeRequestBuilder.cpp: `floatToWire`, `buildOrderWire`, `setModifyOid`, and how
-- an action becomes a body.
pub mod Decimal
use Prim.Native.String
use mathlib.Core.Option
use hyperliquid_sdk_cpp.Common.{
  ℕ, zero, suc, ◌==◌, code, ℤ, pos, String, Bool, false, List, [], ◌∷◌, Option, none, some, Result,
  ok, err, invalid_argument, ◌>>=◌, if◌then◌else◌,
}
use hyperliquid_sdk_cpp.Json.{JsonLib}
use hyperliquid_sdk_cpp.Doubles.{Doubles}
use hyperliquid_sdk_cpp.Rest.SymbolMap
use hyperliquid_sdk_cpp.Rest.SymbolMap.{SymbolMap}
use hyperliquid_sdk_cpp.Types.Orders.{
  OrderRequest, ModifyRequest, TriggerOrderType, Tif, tif_to_string, tpsl_to_string,
}

infixl 3 ◌▷◌
abbrev pub ◌▷◌ {ℓ κ} : {A : Type ℓ} {B : Type κ} → A → (A → B) → B
x ▷ f = f x

-- A loop that pushes a value for each element, and throws where the element's code throws.
abbrev pub map_ok {ℓ κ} : {A : Type ℓ} {B : Type κ} → (A → Result B) → List A → Result (List B)
map_ok f [] = ok []
map_ok f (x ∷ xs) = do y ← f x; ys ← map_ok f xs; ok (y ∷ ys)

-- `s.find('.')`
pub find_dot : String → Option ℕ
find_dot String.[] = none
find_dot (String.◌∷◌ c s) =
    let later = Option.map suc (find_dot s) in if code c == b'.' then some 0 else later

-- `s.find_last_not_of('0')`
pub find_last_not_zero : String → Option ℕ
find_last_not_zero String.[] = none
find_last_not_zero (String.◌∷◌ c s) = elim (find_last_not_zero s) [
  | some i ↦ some (suc i)
  | none ↦ if code c == b'0' then none else some 0
]

-- `s.substr(0, n)`
pub substr : ℕ → String → String
substr zero s = String.[]
substr (suc n) String.[] = String.[]
substr (suc n) (String.◌∷◌ c s) = String.◌∷◌ c (substr n s)

abbrev is_at : Option ℕ → ℕ → Bool
is_at none i = false
is_at (some j) i = j == i

-- `last + 1`, where `npos + 1` is 0.
abbrev next : Option ℕ → ℕ
next none = 0
next (some i) = suc i

-- The normalisation in `floatToWire`.
unfoldable pub normalize : String → String
unfolding find_dot find_last_not_zero substr
normalize s = elim (find_dot s) [
  | none ↦ s
  | some dot ↦
      let last = find_last_not_zero s in
      if is_at last dot then substr dot s else substr (next last) s
]

module _ (D : Doubles) where
  open D use {Double, print8, stod, minus, abs, geb, tolerance, to_string}

  unfoldable pub float_to_wire : Double → Result String
  unfolding normalize
  float_to_wire x =
      let s = print8 x in
      if geb (abs (minus (stod s) x)) tolerance
      then err (invalid_argument (String.◌++◌ "floatToWire causes rounding: " (to_string x)))
      else ok (normalize s)

unfoldable pub resolve_asset : SymbolMap → Option ℤ → String → Result ℤ
resolve_asset symbols none asset = SymbolMap.resolve asset symbols
resolve_asset symbols (some id) asset = ok id

module _ (J : JsonLib) where
  open J use {Json, Object, string, number, object, empty, assign}

  abbrev pub unsigned : ℕ → Json
  unsigned n = number (pos n)

  -- `if (value) o[key] = *value;`
  abbrev pub assign_some : String → Option Json → Object → Object
  assign_some key none o = o
  assign_some key (some v) o = assign key v o

  -- `body["action"] = action;`
  abbrev pub body_of : Object → Object
  body_of action = assign "action" (object action) empty

  -- `setModifyOid`
  unfoldable pub set_modify_oid : Option ℕ → Option String → Object → Result Object
  set_modify_oid (some oid) cloid o = ok (assign "oid" (unsigned oid) o)
  set_modify_oid none (some cloid) o = ok (assign "oid" (string cloid) o)
  set_modify_oid none none o = err (invalid_argument "ModifyRequest requires either oid or cloid")

module _ (J : JsonLib) (D : Doubles) (symbols : SymbolMap) where
  open J use {Json, Object, string, boolean, number, object, empty, assign}
  open D use {Double}

  -- The `if (order.limit) … else if (order.trigger) …`
  pub order_type : Option Tif → Option (TriggerOrderType Double) → Object → Result Object
  order_type (some tif) trigger o = ok (
      o
      ▷ assign "t" (
          object
            (empty ▷ assign "limit" (object (empty ▷ assign "tif" (string (tif_to_string tif)))))))
  order_type none (some t) o = do
    trigger_px ← float_to_wire D t.trigger_px
    let inner =
        empty
        ▷ assign "isMarket" (boolean t.is_market)
        ▷ assign "triggerPx" (string trigger_px)
        ▷ assign "tpsl" (string (tpsl_to_string t.tpsl))
    ok (o ▷ assign "t" (object (empty ▷ assign "trigger" (object inner))))
  order_type none none o = ok o

  unfoldable pub build_order_wire : OrderRequest Double → Result Object
  unfolding order_type
  build_order_wire order = do
    asset ← resolve_asset symbols order.asset_id order.asset
    price ← float_to_wire D order.price
    size ← float_to_wire D order.size
    typed ← order_type order.limit order.trigger (
        empty
        ▷ assign "a" (number asset)
        ▷ assign "b" (boolean order.is_buy)
        ▷ assign "p" (string price)
        ▷ assign "s" (string size)
        ▷ assign "r" (boolean order.reduce_only))
    ok (assign_some J "c" (Option.map string order.cloid) typed)

  -- `setModifyOid` and the order, into an object.
  unfoldable pub build_modify : ModifyRequest Double → Object → Result Object
  unfolding set_modify_oid build_order_wire
  build_modify modify o = do
    named ← set_modify_oid J modify.oid modify.cloid o
    order ← build_order_wire modify.order
    ok (assign "order" (object order) named)
