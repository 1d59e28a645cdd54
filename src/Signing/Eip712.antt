-- ===== src/Signing/Eip712.antt =====
-- src/signing/SigningHelpers.cpp: the EIP-712 hashes and `ecdsaSign`, and the two signing functions
-- of src/signing/Signing.cpp. keccak256 and libsecp256k1 are parameters.
use Prim.Native.String
use hyperliquid_sdk_cpp.Common.{
  ℕ, ◌+◌, code, String, Bool, true, false, List, [], ◌∷◌, ◌++◌, Option, none, some, Result, ok, err,
  invalid_argument, runtime_error, json_type_error, undefined_behaviour, ◌>>=◌, ◌>>◌, require,
  or_throw, ◌==◌, ◌||◌, if◌then◌else◌, length, replicate, to_u64,
}
use text.Mathlib.Text.{◌==◌ as str_eq}
use hyperliquid_sdk_cpp.Config.{Wallet}
use hyperliquid_sdk_cpp.Json.{JsonLib, lookup}
use hyperliquid_sdk_cpp.Signing.Hex.{hex_to_bytes, to_hex}
use hyperliquid_sdk_cpp.Signing.Encoding.{encode_uint256, encode_address, action_hash}

pub record Crypto : Type 0 where
  pub keccak256 : List ℕ → List ℕ
  -- Whether `secp256k1_context_create` gives a context.
  pub has_context : Bool
  -- `secp256k1_ecdsa_sign_recoverable` and the compact serialisation: r, s and the recovery id.
  pub sign : List ℕ → List ℕ → Option (List ℕ × List ℕ × ℕ)
  -- `std::to_string`
  pub print_id : ℕ → String

pub record Signature : Type 0 where
  pub r : String
  pub s : String
  pub v : ℕ

pub record Eip712Field : Type 0 where
  pub name : String
  pub kind : String

-- The characters of a string as bytes.
unfoldable pub bytes_of : String → List ℕ
bytes_of String.[] = []
bytes_of (String.◌∷◌ c s) = code c ∷ bytes_of s

-- The loop over `payloadTypes`; `first` is `idx == 0`.
pub field_list : Bool → List Eip712Field → String
field_list first [] = ""
field_list first (field ∷ fields) =
    let rest = field_list false fields in
    let head = String.◌++◌ field.kind (String.◌++◌ " " field.name) in
    String.◌++◌ (if first then "" else ",") (String.◌++◌ head rest)

unfoldable pub type_string : String → List Eip712Field → String
unfolding field_list
type_string primary_type fields =
    String.◌++◌ primary_type (String.◌++◌ "(" (String.◌++◌ (field_list true fields) ")"))

abbrev domain_type : String
domain_type = "EIP712Domain(string name,string version,uint256 chainId,address verifyingContract)"

abbrev bool_word : Bool → ℕ
bool_word true = 1
bool_word false = 0

-- `get<T>()`, which throws on a value of another kind.
abbrev get {ℓ} : {A : Type ℓ} → Option A → Result A
get = or_throw json_type_error

module _ (C : Crypto) where
  open C use {keccak256, has_context, sign, print_id}

  unfoldable pub eip712_hash : List ℕ → List ℕ → List ℕ
  eip712_hash domain_separator struct_hash =
      keccak256 (0x19 ∷ 0x01 ∷ (domain_separator ++ struct_hash))

  -- The overload without parameters is this one at "Exchange", "1" and 1337.
  unfoldable pub domain_separator_hash : String → String → ℕ → List ℕ
  unfolding bytes_of
  domain_separator_hash name version chain_id = keccak256 (
      keccak256 (bytes_of domain_type)
      ++ (keccak256 (bytes_of name)
          ++ (keccak256 (bytes_of version)
              ++ (encode_uint256 chain_id ++ encode_address (replicate 20 0)))))

  unfoldable pub agent_struct_hash : String → List ℕ → List ℕ
  unfolding bytes_of
  agent_struct_hash source connection_id = keccak256 (
      keccak256 (bytes_of "Agent(string source,bytes32 connectionId)")
      ++ (keccak256 (bytes_of source) ++ connection_id))

  unfoldable pub ecdsa_sign : Wallet → List ℕ → Result Signature
  ecdsa_sign wallet message_hash = do
    private_key ← hex_to_bytes wallet.private_key
    require (length private_key == 32) (invalid_argument "Private key must be 32 bytes")
    require has_context (runtime_error "Failed to create secp256k1 context")
    elim (sign message_hash private_key) [
      | none ↦ err (runtime_error "secp256k1 signing failed")
      | some (r, s, recid) ↦
          if recid == 0 || recid == 1
          then ok (record { r = to_hex r; s = to_hex s; v = recid + 27 })
          else err (runtime_error (String.◌++◌ "Unexpected recovery id: " (print_id recid)))
    ]

  module _ (J : JsonLib) where
    open J use {Json, Object, as_string, as_number, as_boolean, members, to_msgpack}

    -- `action[field.name]` of a constant object.
    abbrev pub at : String → Object → Result Json
    at key o = or_throw undefined_behaviour (lookup key (members o))

    abbrev string_hash : Json → Result (List ℕ)
    string_hash v = do val ← get (as_string v); ok (keccak256 (bytes_of val))

    abbrev number_word : Json → Result (List ℕ)
    number_word v = do val ← get (as_number v); ok (encode_uint256 (to_u64 val))

    abbrev address_word : Json → Result (List ℕ)
    address_word v = do
      val ← get (as_string v)
      address ← hex_to_bytes val
      ok (encode_address address)

    abbrev boolean_word : Json → Result (List ℕ)
    boolean_word v = do val ← get (as_boolean v); ok (encode_uint256 (bool_word val))

    abbrev bytes_hash : Json → Result (List ℕ)
    bytes_hash v = do val ← get (as_string v); bytes ← hex_to_bytes val; ok (keccak256 bytes)

    -- What one field adds to `encoded`; a kind of none of these names adds nothing.
    unfoldable pub encode_field : Object → Eip712Field → Result (List ℕ)
    encode_field action field =
        if str_eq field.kind "string"
        then at field.name action >>= string_hash
        else if str_eq field.kind "uint64" || str_eq field.kind "uint32"
        then at field.name action >>= number_word
        else if str_eq field.kind "address"
        then at field.name action >>= address_word
        else if str_eq field.kind "bool"
        then at field.name action >>= boolean_word
        else if str_eq field.kind "bytes"
        then at field.name action >>= bytes_hash
        else ok []

    unfoldable pub encode_fields : Object → List Eip712Field → Result (List ℕ)
    unfolding encode_field
    encode_fields action [] = ok []
    encode_fields action (field ∷ fields) = do
      encoded ← encode_field action field
      rest ← encode_fields action fields
      ok (encoded ++ rest)

    unfoldable pub user_signed_struct_hash : String → List Eip712Field → Object → Result (List ℕ)
    unfolding encode_fields
    user_signed_struct_hash primary_type payload_types action = do
      encoded ← encode_fields action payload_types
      ok (keccak256 (keccak256 (bytes_of (type_string primary_type payload_types)) ++ encoded))

    unfoldable pub sign_user_signed_action :
        Wallet → Object → List Eip712Field → String → Result Signature
    unfolding user_signed_struct_hash domain_separator_hash eip712_hash ecdsa_sign
    sign_user_signed_action wallet action payload_types primary_type = do
      struct_hash ← user_signed_struct_hash primary_type payload_types action
      let domain_separator = domain_separator_hash "HyperliquidSignTransaction" "1" 0x66eee
      ecdsa_sign wallet (eip712_hash domain_separator struct_hash)

    unfoldable pub sign_l1_action :
        Wallet → Json → Option String → ℕ → Option ℕ → Bool → Result Signature
    unfolding agent_struct_hash domain_separator_hash eip712_hash ecdsa_sign
    sign_l1_action wallet action vault_address nonce expires_after is_mainnet = do
      hash ← action_hash keccak256 (to_msgpack action) vault_address nonce expires_after
      let source = if is_mainnet then "a" else "b"
      let struct_hash = agent_struct_hash source hash
      ecdsa_sign wallet (eip712_hash (domain_separator_hash "Exchange" "1" 1337) struct_hash)
