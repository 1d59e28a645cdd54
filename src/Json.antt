-- ===== src/Json.antt =====
-- nlohmann::ordered_json as the library uses it: an interface, since that code is not in the
-- repository. A local variable that is only used as an object is an `Object`; its members stand in
-- the order in which their keys were first written. `IsLawful` states the documented behaviour.
pub mod Instance
pub mod Laws
use text.Mathlib.Text.{◌==◌ as str_eq}
use hyperliquid_sdk_cpp.Common.{
  ℕ, String, ℤ, Bool, true, false, List, [], ◌∷◌, Option, none, some, ◌≡◌, if◌then◌else◌,
}

pub record JsonLib : Type 1 where
  pub Json : Type 0
  pub Object : Type 0
  pub null : Json
  pub string : String → Json
  pub boolean : Bool → Json
  pub number : ℤ → Json
  pub array : List Json → Json
  pub object : Object → Json
  -- A default-constructed variable, `o[key] = value`, and `o.erase(key)`.
  pub empty : Object
  pub assign : String → Json → Object → Object
  pub erase : String → Object → Object
  -- Iteration over the members.
  pub members : Object → List (String × Json)
  -- What `operator[]` works on, and `get<T>()`; `none` where they throw.
  pub is_null : Json → Bool
  pub as_object : Json → Option Object
  pub as_string : Json → Option String
  pub as_number : Json → Option ℤ
  pub as_boolean : Json → Option Bool
  pub to_msgpack : Json → List ℕ

-- The first member of that key.
unfoldable pub lookup {ℓ} : {A : Type ℓ} → String → List (String × A) → Option A
lookup k [] = none
lookup k ((j, v) ∷ m) = if str_eq j k then some v else lookup k m

-- A member that is there keeps its place.
unfoldable pub insert {ℓ} : {A : Type ℓ} → String → A → List (String × A) → List (String × A)
insert k v [] = (k, v) ∷ []
insert k v ((j, w) ∷ m) = if str_eq j k then (j, v) ∷ m else (j, w) ∷ insert k v m

unfoldable pub remove {ℓ} : {A : Type ℓ} → String → List (String × A) → List (String × A)
remove k [] = []
remove k ((j, w) ∷ m) = if str_eq j k then m else (j, w) ∷ remove k m

pub record IsLawful (J : JsonLib) : Type 0 where
  pub members-empty : J.members J.empty ≡ []
  pub members-assign :
      (k : String) (v : J.Json) (o : J.Object)
      → J.members (J.assign k v o) ≡ insert k v (J.members o)
  pub members-erase : (k : String) (o : J.Object) → J.members (J.erase k o) ≡ remove k (J.members o)
  pub as_object-object : (o : J.Object) → J.as_object (J.object o) ≡ some o
  pub is_null-object : (o : J.Object) → J.is_null (J.object o) ≡ false
  pub is_null-null : J.is_null J.null ≡ true
  pub as_object-null : J.as_object J.null ≡ some J.empty
  pub as_string-string : (s : String) → J.as_string (J.string s) ≡ some s
  pub as_number-number : (n : ℤ) → J.as_number (J.number n) ≡ some n
  pub as_boolean-boolean : (b : Bool) → J.as_boolean (J.boolean b) ≡ some b

-- What holds of every object of the library, also where the members are sorted by key
-- (`nlohmann::json`): an object is a map.
pub record IsMapLike (J : JsonLib) : Type 0 where
  pub lookup-empty : (j : String) → lookup j (J.members J.empty) ≡ none
  pub lookup-set :
      (k j : String) (v : J.Json) (o : J.Object)
      → lookup j (J.members (J.assign k v o))
        ≡ (if str_eq k j then some v else lookup j (J.members o))
