-- ===== src/Rest/SymbolMap.antt =====
-- src/rest/SymbolMap.cpp. The `unordered_map` is an association list; an `int` is a ℤ.
pub mod Laws
use Prim.Native.String
use text.Mathlib.Text.{◌==◌}
use hyperliquid_sdk_cpp.Common.{
  String, ℤ, List, [], ◌∷◌, Option, none, some, Result, ok, err, invalid_argument, if◌then◌else◌,
}

abbrev pub SymbolMap : Type 0
SymbolMap = List (String × ℤ)

-- `symbolToId_.find`
unfoldable pub find : String → SymbolMap → Option ℤ
find symbol [] = none
find symbol ((k, v) ∷ m) = if k == symbol then some v else find symbol m

-- `insert`: an entry that is there stays.
unfoldable pub add : String → ℤ → SymbolMap → SymbolMap
add symbol security_id [] = (symbol, security_id) ∷ []
add symbol security_id ((k, v) ∷ m) =
    if k == symbol then (k, v) ∷ m else (k, v) ∷ add symbol security_id m

-- `symbolToId_[symbol] = securityId`
unfoldable pub set : String → ℤ → SymbolMap → SymbolMap
set symbol security_id [] = (symbol, security_id) ∷ []
set symbol security_id ((k, v) ∷ m) =
    if k == symbol then (k, security_id) ∷ m else (k, v) ∷ set symbol security_id m

abbrev or_throw : String → Option ℤ → Result ℤ
or_throw symbol none = err (invalid_argument (String.◌++◌ "Unknown symbol: " symbol))
or_throw symbol (some id) = ok id

unfoldable pub resolve : String → SymbolMap → Result ℤ
unfolding find
resolve symbol m = or_throw symbol (find symbol m)
