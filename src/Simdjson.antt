-- ===== src/Simdjson.antt =====
-- simdjson's on-demand documents as the message parsers read them: an interface, since that code is
-- not in the repository. A value is read by its keys, in any order, as often as the code asks; `none`
-- is a `simdjson_error`, which says nothing else to the parsers.
pub mod Instance
pub mod Attempt
use hyperliquid_sdk_cpp.Common.{
  ℕ, ◌<◌, ◌^◌, String, ℤ, Bool, true, false, List, ◌≡◌, refl, Option, none, some, if◌then◌else◌,
}
use hyperliquid_sdk_cpp.Json.{lookup}

pub record SimdLib : Type 1 where
  pub Value : Type 0
  -- `validateStructure` and `iterate`: the document of a well-formed text.
  pub document : String → Option Value
  -- `obj[key]`, which also fails on what is no object.
  pub member : String → Value → Option Value
  pub is_object : Value → Bool
  pub is_string : Value → Bool
  pub is_null : Value → Bool
  pub get_string : Value → Option String
  pub get_uint64 : Value → Option ℕ
  pub get_int64 : Value → Option ℤ
  pub get_bool : Value → Option Bool
  pub get_array : Value → Option (List Value)

-- `double` as the parsers use it.
pub record SimdDoubles (S : SimdLib) : Type 1 where
  pub Double : Type 0
  pub get_double : S.Value → Option Double
  -- `toDouble`: `std::from_chars`, and not-a-number for what is no number.
  pub to_double : String → Double
  pub zero_double : Double

-- How values are written, by the exchange: for each kind of value, what is read back from it.
pub record Writer (S : SimdLib) : Type 0 where
  pub object : List (String × S.Value) → S.Value
  pub array : List S.Value → S.Value
  pub string : String → S.Value
  pub unsigned : ℕ → S.Value
  pub member-object :
      (k : String) (ms : List (String × S.Value)) → S.member k (object ms) ≡ lookup k ms
  pub is_object-object : (ms : List (String × S.Value)) → S.is_object (object ms) ≡ true
  pub is_object-string : (s : String) → S.is_object (string s) ≡ false
  pub is_string-object : (ms : List (String × S.Value)) → S.is_string (object ms) ≡ false
  pub is_string-string : (s : String) → S.is_string (string s) ≡ true
  pub is_null-string : (s : String) → S.is_null (string s) ≡ false
  pub get_array-array : (vs : List S.Value) → S.get_array (array vs) ≡ some vs
  pub get_string-string : (s : String) → S.get_string (string s) ≡ some s
  pub get_uint64-unsigned : (n : ℕ) → n < 2 ^ 64 → S.get_uint64 (unsigned n) ≡ some n

-- `.value()` after `.value()`: the first error ends the `try` block.
infixl 5 ◌>>=◌
abbrev pub ◌>>=◌ {ℓ κ} : {A : Type ℓ} {B : Type κ} → Option A → (A → Option B) → Option B
none >>= f = none
some a >>= f = f a

pub >>=-eq-some {ℓ κ} :
    {A : Type ℓ} {B : Type κ} (o : Option A) (f : A → Option B) {b : B}
    → (o >>= f) ≡ some b
    → (a : A) × (o ≡ some a) × (f a ≡ some b)
>>=-eq-some none f h = cc
>>=-eq-some (some a) f h = (a, refl, h)

module _ (S : SimdLib) where
  open S use {Value, member, is_object, is_null, get_string}

  -- `get_object().value()`
  abbrev pub get_object : Value → Option Value
  get_object v = if is_object v then some v else none

  abbrev pub string_at : String → Value → Option String
  string_at key obj = member key obj >>= get_string

  -- `if (obj[key].get(v) == SUCCESS) x = f(v);`
  abbrev pub when_found {ℓ} : {A : Type ℓ} → (Value → Option A) → Option Value → Option (Option A)
  when_found f none = some none
  when_found f (some v) = f v >>= λ a. some (some a)

  -- The same, where `v` may also be null.
  abbrev pub unless_null : Option Value → Option Value
  unless_null none = none
  unless_null (some v) = if is_null v then none else some v

-- A default-constructed `std::string`.
abbrev pub text_or_empty : Option String → String
text_or_empty none = ""
text_or_empty (some s) = s
