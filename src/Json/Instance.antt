-- ===== src/Json/Instance.antt =====
-- A library that meets the laws, to run the model on: values as trees, objects as their members.
use hyperliquid_sdk_cpp.Common.{
  String, ℤ, Bool, true, false, List, [], ◌∷◌, Option, none, some, ◌≡◌, refl, ap,
}
use hyperliquid_sdk_cpp.Json.{JsonLib, IsLawful, insert, remove}

mutual
  pub data Value : Type 0 where
    null : Value
    string : String → Value
    boolean : Bool → Value
    number : ℤ → Value
    array : Values → Value
    object : Members → Value

  pub data Values : Type 0 where
    nil : Values
    cons : Value → Values → Values

  pub data Members : Type 0 where
    end : Members
    member : String → Value → Members → Members

abbrev pub of_list : List Value → Values
of_list [] = nil
of_list (v ∷ vs) = cons v (of_list vs)

abbrev pub of_members : List (String × Value) → Members
of_members [] = end
of_members ((k, v) ∷ ms) = member k v (of_members ms)

abbrev pub to_members : Members → List (String × Value)
to_members end = []
to_members (member k v ms) = (k, v) ∷ to_members ms

abbrev pub object_of : Value → Option (List (String × Value))
object_of null = some []
object_of (object ms) = some (to_members ms)
object_of _ = none

abbrev pub null_test : Value → Bool
null_test null = true
null_test _ = false

abbrev pub string_of : Value → Option String
string_of (string s) = some s
string_of _ = none

abbrev pub number_of : Value → Option ℤ
number_of (number n) = some n
number_of _ = none

abbrev pub boolean_of : Value → Option Bool
boolean_of (boolean b) = some b
boolean_of _ = none

-- MessagePack plays no part in the runs.
abbrev pub tree_json : JsonLib
tree_json = record {
  Json = Value;
  Object = List (String × Value);
  null = null;
  string = string;
  boolean = boolean;
  number = number;
  array = λ vs. array (of_list vs);
  object = λ ms. object (of_members ms);
  empty = [];
  assign = insert;
  erase = remove;
  members = λ o. o;
  is_null = null_test;
  as_object = object_of;
  as_string = string_of;
  as_number = number_of;
  as_boolean = boolean_of;
  to_msgpack = λ v. [];
}

pub to_of_members : (ms : List (String × Value)) → to_members (of_members ms) ≡ ms
to_of_members [] = refl
to_of_members ((k, v) ∷ ms) = ap (λ r. (k, v) ∷ r) (to_of_members ms)

pub tree_json-IsLawful : IsLawful tree_json
tree_json-IsLawful = record {
  members-empty = refl;
  members-assign = λ k v o. refl;
  members-erase = λ k o. refl;
  as_object-object = λ o. ap some (to_of_members o);
  is_null-object = λ o. refl;
  is_null-null = refl;
  as_object-null = refl;
  as_string-string = λ s. refl;
  as_number-number = λ n. refl;
  as_boolean-boolean = λ b. refl;
}
