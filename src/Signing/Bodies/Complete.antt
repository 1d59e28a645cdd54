-- ===== src/Signing/Bodies/Complete.antt =====
-- The builders write every field that the EIP-712 list of their endpoint names.
use text.Mathlib.Text.{◌==◌ as str_eq}
use hyperliquid_sdk_cpp.Common.{
  ℕ, ℤ, String, Bool, true, false, List, ◌≡◌, refl, Option, none, some, Result, ok, err,
  if◌then◌else◌, or_else,
}
use hyperliquid_sdk_cpp.Config.{Environment}
use hyperliquid_sdk_cpp.Doubles.{Doubles}
use hyperliquid_sdk_cpp.Rest.SymbolMap.{SymbolMap}
use hyperliquid_sdk_cpp.Json.{JsonLib, IsLawful, lookup}
use hyperliquid_sdk_cpp.Json.Laws.{lookup-assign}
use hyperliquid_sdk_cpp.Messages.Wire.{float_to_wire, body_of}
use hyperliquid_sdk_cpp.Messages.Exchange.{
  ExchangeRequest, usd_class_transfer, send_asset, usd_send, spot_send, withdraw3,
  approve_builder_fee, user_set_abstraction, c_deposit, c_withdraw, token_delegate,
  send_to_evm_with_data, user_dex_abstraction, user_portfolio_margin, endpoint_of, build,
}
use hyperliquid_sdk_cpp.Messages.Exchange.Shape.{Ensures, Ensures-bind}
use hyperliquid_sdk_cpp.Signing.Hex.{hex_to_bytes}
use hyperliquid_sdk_cpp.Signing.Eip712.{Crypto, encode_field, encode_fields}
use hyperliquid_sdk_cpp.Signing.Bodies.Fields.{Schema, schema_of}
use hyperliquid_sdk_cpp.Signing.Bodies.{stamp}

abbrev pub is_ok {ℓ} : {A : Type ℓ} → Result A → Bool
is_ok (ok a) = true
is_ok (err e) = false

pub ok_of {ℓ} : {A : Type ℓ} (r : Result A) → is_ok r ≡ true → (a : A) × (r ≡ ok a)
ok_of (ok a) h = (a, refl)
ok_of (err e) h = cc

-- The string that the request's field list reads as hexadecimal, if it has one.
unfoldable pub hex_argument : {Double : Type 0} → ExchangeRequest Double → Option String
hex_argument (approve_builder_fee max_fee_rate builder) = some builder
hex_argument (user_set_abstraction user mode) = some user
hex_argument (token_delegate validator wei is_undelegate) = some validator
hex_argument (send_to_evm_with_data request) = some request.payload
hex_argument (user_dex_abstraction user enabled) = some user
hex_argument (user_portfolio_margin user enabled) = some user
hex_argument _ = none

abbrev pub IsReadable : Option String → Type 0
IsReadable none = Unit
IsReadable (some hex) = (bytes : List ℕ) × (hex_to_bytes hex ≡ ok bytes)

module _ (C : Crypto) (J : JsonLib) (L : IsLawful J) (env : Environment) (nonce : ℕ) where
  open J use {Object, object, members, empty, assign}

  -- The body's action, once stamped, has every field of the list, each of its kind.
  pub record IsComplete (schema : Schema) (body : Object) : Type 0 where
    pub action : Object
    pub is_body : body ≡ body_of J action
    pub encodes :
        is_ok
          (encode_fields C J (stamp C J schema.time_field nonce env action) schema.payload_types)
        ≡ true

  abbrev pub IsSignable : Result Schema → Object → Type 0
  IsSignable (err e) body = Unit
  IsSignable (ok schema) body = IsComplete schema body

  reads_assigned :
      (k j : String) (v : J.Json) (o : Object)
      → lookup j (members (assign k v o))
        ≡ or_else (if str_eq k j then some v else none) (lookup j (members o))
  reads_assigned = lookup-assign J L

  reads_string : (s : String) → J.as_string (J.string s) ≡ some s
  reads_string = L.as_string-string

  reads_number : (n : ℤ) → J.as_number (J.number n) ≡ some n
  reads_number = L.as_number-number

  reads_boolean : (b : Bool) → J.as_boolean (J.boolean b) ≡ some b
  reads_boolean = L.as_boolean-boolean

  ruleset encoding_rules = (
    encode_fields, encode_field, stamp, reads_assigned, reads_string, reads_number, reads_boolean,
  )

  always : (m : Result Object) → Ensures (λ body. Unit {0}) m
  always (ok body) = tt
  always (err e) = tt

  module _ (D : Doubles) (symbols : SymbolMap) where
    -- Whatever a builder returns for a user-signed request can be encoded by the request's field
    -- list once it is stamped, if the string that the list reads as hexadecimal is hexadecimal.
    pub build-IsSignable :
        (request : ExchangeRequest D.Double)
        → IsReadable (hex_argument request)
        → Ensures (IsSignable (schema_of (endpoint_of request))) (build J D symbols request)
    unfolding build encode_fields encode_field endpoint_of schema_of stamp hex_argument
    build-IsSignable (usd_class_transfer a b) h =
        Ensures-bind _ (float_to_wire D a) _
          (λ amount. record { action = _; is_body = refl; encodes = simp (encoding_rules) })
    build-IsSignable (send_asset a) h =
        Ensures-bind _ (float_to_wire D a.amount) _
          (λ amount. record { action = _; is_body = refl; encodes = simp (encoding_rules) })
    build-IsSignable (usd_send a b) h =
        Ensures-bind _ (float_to_wire D b) _
          (λ amount. record { action = _; is_body = refl; encodes = simp (encoding_rules) })
    build-IsSignable (spot_send a) h =
        Ensures-bind _ (float_to_wire D a.amount) _
          (λ amount. record { action = _; is_body = refl; encodes = simp (encoding_rules) })
    build-IsSignable (withdraw3 a b) h =
        Ensures-bind _ (float_to_wire D b) _
          (λ amount. record { action = _; is_body = refl; encodes = simp (encoding_rules) })
    build-IsSignable (approve_builder_fee a b) (bytes, e) = record {
      action = _;
      is_body = refl;
      encodes = simp (encoding_rules, e);
    }
    build-IsSignable (user_set_abstraction a b) (bytes, e) = record {
      action = _;
      is_body = refl;
      encodes = simp (encoding_rules, e);
    }
    build-IsSignable (c_deposit a) h = record {
      action = _;
      is_body = refl;
      encodes = simp (encoding_rules);
    }
    build-IsSignable (c_withdraw a) h = record {
      action = _;
      is_body = refl;
      encodes = simp (encoding_rules);
    }
    build-IsSignable (token_delegate a b c) (bytes, e) = record {
      action = _;
      is_body = refl;
      encodes = simp (encoding_rules, e);
    }
    build-IsSignable (send_to_evm_with_data a) (bytes, e) = record {
      action = _;
      is_body = refl;
      encodes = simp (encoding_rules, e);
    }
    build-IsSignable (user_dex_abstraction a b) (bytes, e) = record {
      action = _;
      is_body = refl;
      encodes = simp (encoding_rules, e);
    }
    build-IsSignable (user_portfolio_margin a b) (bytes, e) = record {
      action = _;
      is_body = refl;
      encodes = simp (encoding_rules, e);
    }
    build-IsSignable request h = always (build J D symbols request)
