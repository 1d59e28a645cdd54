-- ===== src/Rest/SymbolMap/Laws.antt =====
-- What `find` sees after `add` and `set`, for every symbol.
use text.Mathlib.Text.{◌==◌}
use text.Mathlib.TextEquality.{eq_iff}
use hyperliquid_sdk_cpp.Common.{String, ℤ, [], ◌∷◌, ◌≡◌, none, some, arith, if◌then◌else◌, or_else}
use hyperliquid_sdk_cpp.Rest.SymbolMap.{SymbolMap, find, add, set}

pub find-set :
    (k j : String) (v : ℤ) (m : SymbolMap)
    → find j (set k v m) ≡ or_else (if k == j then some v else none) (find j m)
unfolding find set
find-set k j v [] = ground arith
find-set k j v ((i, w) ∷ m) = ground (arith, eq_iff k j, eq_iff i k, eq_iff i j, find-set k j v m)

pub find-add :
    (k j : String) (v : ℤ) (m : SymbolMap)
    → find j (add k v m) ≡ or_else (find j m) (if k == j then some v else none)
unfolding find add
find-add k j v [] = ground arith
find-add k j v ((i, w) ∷ m) = ground (arith, eq_iff k j, eq_iff i k, eq_iff i j, find-add k j v m)
