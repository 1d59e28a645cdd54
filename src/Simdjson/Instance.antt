-- ===== src/Simdjson/Instance.antt =====
-- Documents that meet the laws, to run the parsers on: the trees of `Json.Instance`, with a function
-- for what a text holds.
use hyperliquid_sdk_cpp.Common.{
  ℕ, ◌<◌, ◌^◌, String, pos, Bool, true, false, List, [], ◌∷◌, ◌≡◌, refl, ap, Option, none, some,
  ltb, arith, if◌then◌else◌,
}
use hyperliquid_sdk_cpp.Json.{lookup}
use hyperliquid_sdk_cpp.Json.Instance.{
  Value, string, number, array, object, Values, nil, cons, of_list, of_members, to_members,
  to_of_members, string_of, number_of, boolean_of, null_test,
}
use hyperliquid_sdk_cpp.Simdjson.{SimdLib, Writer}

abbrev pub to_list : Values → List Value
to_list nil = []
to_list (cons v vs) = v ∷ to_list vs

abbrev member_of : String → Value → Option Value
member_of key (object ms) = lookup key (to_members ms)
member_of key _ = none

abbrev object_test : Value → Bool
object_test (object ms) = true
object_test _ = false

abbrev string_test : Value → Bool
string_test (string s) = true
string_test _ = false

abbrev pub uint64_of : Value → Option ℕ
uint64_of (number (pos n)) = if ltb n (2 ^ 64) then some n else none
uint64_of _ = none

abbrev array_of : Value → Option (List Value)
array_of (array vs) = some (to_list vs)
array_of _ = none

abbrev pub tree_simd : (String → Option Value) → SimdLib
tree_simd document = record {
  Value = Value;
  document = document;
  member = member_of;
  is_object = object_test;
  is_string = string_test;
  is_null = null_test;
  get_string = string_of;
  get_uint64 = uint64_of;
  get_int64 = number_of;
  get_bool = boolean_of;
  get_array = array_of;
}

pub to_of_list : (vs : List Value) → to_list (of_list vs) ≡ vs
to_of_list [] = refl
to_of_list (v ∷ vs) = ap (λ r. v ∷ r) (to_of_list vs)

pub uint64_of-number : (n : ℕ) → n < 2 ^ 64 → uint64_of (number (pos n)) ≡ some n
uint64_of-number n h = ground arith

abbrev pub tree_writer : (document : String → Option Value) → Writer (tree_simd document)
tree_writer document = record {
  object = λ ms. object (of_members ms);
  array = λ vs. array (of_list vs);
  string = string;
  unsigned = λ n. number (pos n);
  member-object = λ k ms. ap (lookup k) (to_of_members ms);
  is_object-object = λ ms. refl;
  is_object-string = λ s. refl;
  is_string-object = λ ms. refl;
  is_string-string = λ s. refl;
  is_null-string = λ s. refl;
  get_array-array = λ vs. ap some (to_of_list vs);
  get_string-string = λ s. refl;
  get_uint64-unsigned = uint64_of-number;
}
