-- ===== src/Json/Laws.antt =====
-- What `operator[]` sees after an assignment.
use text.Mathlib.Text.{◌==◌ as str_eq}
use text.Mathlib.TextEquality.{eq_iff}
use hyperliquid_sdk_cpp.Common.{
  String, Bool, true, false, List, [], ◌∷◌, ◌≡◌, refl, ap, ◌∙◌, Option, none, some, Bool-cases, inl,
  inr, arith, if◌then◌else◌, or_else,
}
use hyperliquid_sdk_cpp.Json.{JsonLib, IsLawful, IsMapLike, lookup, insert}
use hyperliquid_sdk_cpp.Messages.Wire.{assign_some}

lookup-insert {ℓ} :
    {A : Type ℓ} (k j : String) (v : A) (m : List (String × A))
    → lookup j (insert k v m) ≡ or_else (if str_eq k j then some v else none) (lookup j m)
unfolding lookup insert
lookup-insert k j v [] = ground arith
lookup-insert k j v ((i, w) ∷ m) =
    ground (arith, eq_iff k j, eq_iff i k, eq_iff i j, lookup-insert k j v m)

or_else-if {ℓ} :
    {A : Type ℓ} (b : Bool) (v : A) (o : Option A)
    → or_else (if b then some v else none) o ≡ (if b then some v else o)
or_else-if true v o = refl
or_else-if false v o = refl

module _ (J : JsonLib) (L : IsLawful J) where
  open J use {Json, Object, assign, members}

  pub lookup-assign :
      (k j : String) (v : Json) (o : Object)
      → lookup j (members (assign k v o))
        ≡ or_else (if str_eq k j then some v else none) (lookup j (members o))
  lookup-assign k j v o = ap (lookup j) (L.members-assign k v o) ∙ lookup-insert k j v (members o)

  pub lookup-assign_some :
      (k j : String) (v : Option Json) (o : Object)
      → lookup j (members (assign_some J k v o))
        ≡ or_else (if str_eq k j then v else none) (lookup j (members o))
  lookup-assign_some k j none o = elim (Bool-cases (str_eq k j)) [
    | inl e ↦ rw e refl
    | inr e ↦ rw e refl
  ]
  lookup-assign_some k j (some v) o = lookup-assign k j v o

  pub IsLawful-IsMapLike : IsMapLike J
  unfolding lookup
  IsLawful-IsMapLike = record {
    lookup-empty = λ j. rw L.members-empty refl;
    lookup-set = λ k j v o. lookup-assign k j v o ∙ or_else-if (str_eq k j) v _;
  }
