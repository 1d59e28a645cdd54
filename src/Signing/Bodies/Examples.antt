-- ===== src/Signing/Bodies/Examples.antt =====
-- Runs of the bodies' functions, with a hash and a signature that are easy to read.
use text.Mathlib.Text.{◌==◌ as str_eq}
use hyperliquid_sdk_cpp.Common.{
  or_else, if◌then◌else◌, String, List, [], ◌∷◌, ◌≡◌, refl, true, false, none, some, ok, length,
}
use hyperliquid_sdk_cpp.Config.{mainnet, Wallet, ApiConfig}
use hyperliquid_sdk_cpp.Json.{lookup, insert}
use hyperliquid_sdk_cpp.Json.Instance.{
  Value, object, of_members, string, boolean, tree_json, tree_json-IsLawful,
}
use hyperliquid_sdk_cpp.Doubles.Instance.{text_doubles}
use hyperliquid_sdk_cpp.Types.Endpoint.{
  RestEndpointType, is_authenticated, is_user_signed_action, to_string, to_path,
}
use hyperliquid_sdk_cpp.Messages.Wire.{body_of}
use hyperliquid_sdk_cpp.Messages.Exchange.{
  ExchangeRequest, user_dex_abstraction, endpoint_of, build,
}
use hyperliquid_sdk_cpp.Messages.Exchange.Shape.{Ensures, IsTagged}
use hyperliquid_sdk_cpp.Messages.Info
use hyperliquid_sdk_cpp.Messages.Info.{InfoRequest, vault_details}
use hyperliquid_sdk_cpp.Signing.Hex.{hex_to_bytes}
use hyperliquid_sdk_cpp.Signing.Nonce.{next_value}
use hyperliquid_sdk_cpp.Signing.Eip712.{Crypto, ecdsa_sign, encode_field, encode_fields}
use hyperliquid_sdk_cpp.Signing.Bodies.{
  is_approve_agent, allow_config_vault_fallback, effective_vault, stamp, prepare_body_for_type,
}
use hyperliquid_sdk_cpp.Signing.Bodies.Fields.{Schema, schema_of}
use hyperliquid_sdk_cpp.Signing.Bodies.Envelope.{IsSigned}
use hyperliquid_sdk_cpp.Signing.Bodies.Complete.{
  IsComplete, IsSignable, IsReadable, hex_argument, build-IsSignable,
}
use hyperliquid_sdk_cpp.Signing.Bodies.Total.{IsUsable, prepare_body_for_type-IsSigned}
use hyperliquid_sdk_cpp.Signing.Bodies.UserSigned.{IsUserSigned, prepare_body_for_type-IsUserSigned}
use hyperliquid_sdk_cpp.Signing.Bodies.Info.{
  with_vault, prepare_body_for_type-IsInfo, prepare_body_for_type-vault_details,
}
use hyperliquid_sdk_cpp.Signing.Bodies.NoWallet.{Throws, prepare_body_for_type-Throws}

abbrev plain_crypto : Crypto
plain_crypto = record {
  keccak256 = λ bytes. length bytes ∷ [];
  has_context = true;
  sign = λ hash key. some (hash, key, 1);
  print_id = λ id. "?";
}

abbrev key_wallet : Wallet
key_wallet = record {
  account_address = "0x00000000000000000000000000000000000000aa";
  private_key = "0x000000000000000000000000000000000000000000000000000000000000000b";
}

abbrev with_key : ApiConfig
with_key = record {
  env = mainnet;
  wallet = some key_wallet;
  dexes = [];
  skip_building_symbol_map = false;
  vault_address = none;
  validate_json = false;
}

abbrev without_key : ApiConfig
without_key = record with_key { wallet = none }

key_wallet-IsUsable : IsUsable plain_crypto key_wallet
unfolding ecdsa_sign hex_to_bytes
key_wallet-IsUsable hash = refl

abbrev noop_action : List (String × Value)
noop_action = ("type", string "noop") ∷ []

abbrev noop_body : List (String × Value)
noop_body = ("action", object (of_members noop_action)) ∷ []

noop_authenticated : is_authenticated RestEndpointType.noop ≡ true
unfolding is_authenticated
noop_authenticated = refl

noop_not_agent : is_approve_agent RestEndpointType.noop ≡ false
unfolding is_approve_agent
noop_not_agent = refl

noop_not_user : is_user_signed_action RestEndpointType.noop ≡ false
unfolding is_user_signed_action
noop_not_user = refl

noop-IsReadable : IsReadable (effective_vault with_key RestEndpointType.noop none)
unfolding effective_vault allow_config_vault_fallback
noop-IsReadable = tt

prepare_body_for_type-IsSigned_example :
    (out : List (String × Value)) × (prepare_body_for_type plain_crypto tree_json 9 with_key
        RestEndpointType.noop noop_body none
        (some 12)
        4
      ≡ (ok out, next_value 9 4))
    × IsSigned plain_crypto tree_json key_wallet mainnet RestEndpointType.noop
        (object (of_members noop_action))
        (next_value 9 4)
        (effective_vault with_key RestEndpointType.noop none)
        (some 12)
        out
prepare_body_for_type-IsSigned_example =
    prepare_body_for_type-IsSigned plain_crypto tree_json tree_json-IsLawful with_key key_wallet
      RestEndpointType.noop noop_body noop_action (some 12) 4 9 refl key_wallet-IsUsable refl none
      noop_authenticated noop_not_agent noop_not_user noop-IsReadable

abbrev abstraction : ExchangeRequest String
abstraction = user_dex_abstraction "0x00000000000000000000000000000000000000aa" true

abstraction-IsReadable : IsReadable (hex_argument abstraction)
unfolding hex_argument hex_to_bytes
abstraction-IsReadable = (_, refl)

build-IsSignable_example :
    Ensures
      (IsSignable plain_crypto tree_json tree_json-IsLawful mainnet 9
        (schema_of (endpoint_of abstraction)))
      (build tree_json text_doubles [] abstraction)
build-IsSignable_example =
    build-IsSignable plain_crypto tree_json tree_json-IsLawful mainnet 9 text_doubles [] abstraction
      abstraction-IsReadable

abbrev dex_action : List (String × Value)
dex_action =
    ("type", string "userDexAbstraction")
    ∷ ("user", string "0x00000000000000000000000000000000000000aa")
    ∷ ("enabled", boolean true)
    ∷ []

dex_schema : (schema : Schema) × (schema_of RestEndpointType.user_dex_abstraction ≡ ok schema)
unfolding schema_of
dex_schema = (_, refl)

dex_action-IsComplete :
    IsComplete plain_crypto tree_json tree_json-IsLawful mainnet
      (next_value 9 4)
      dex_schema.0
      (body_of tree_json dex_action)
unfolding encode_fields encode_field stamp dex_schema hex_to_bytes lookup insert
dex_action-IsComplete = record { action = dex_action; is_body = refl; encodes = refl }

prepare_body_for_type-IsUserSigned_example :
    (out : List (String × Value)) × (prepare_body_for_type plain_crypto tree_json 9 with_key
        RestEndpointType.user_dex_abstraction
        (body_of tree_json dex_action)
        none
        none
        4
      ≡ (ok out, next_value 9 4))
    × IsUserSigned plain_crypto tree_json key_wallet mainnet dex_schema.0 (next_value 9 4) out
prepare_body_for_type-IsUserSigned_example =
    prepare_body_for_type-IsUserSigned plain_crypto tree_json tree_json-IsLawful with_key key_wallet
      RestEndpointType.user_dex_abstraction dex_schema.0 (body_of tree_json dex_action) none none 4
      9 refl key_wallet-IsUsable dex_schema.1 dex_action-IsComplete

prepare_body_for_type-Throws_example : Throws plain_crypto tree_json 9 4 (
    prepare_body_for_type plain_crypto tree_json 9 without_key RestEndpointType.noop noop_body none
      none 4)
prepare_body_for_type-Throws_example =
    prepare_body_for_type-Throws plain_crypto tree_json 9 without_key 4 refl RestEndpointType.noop
      noop_body none none noop_authenticated

abbrev approve_action : List (String × Value)
approve_action =
    ("type", string "approveAgent")
    ∷ ("agentAddress", string "0x00000000000000000000000000000000000000aa")
    ∷ []

-- A vault in the configuration, and a request about another one.
abbrev with_vault_config : ApiConfig
with_vault_config = record with_key { vault_address = some "0xcc" }

abbrev asked_details : InfoRequest
asked_details = vault_details "0xdd" none

abbrev sent_details : List (String × Value)
sent_details =
    with_vault plain_crypto tree_json 9 with_vault_config (Info.build tree_json asked_details)

prepare_body_for_type-IsInfo_example :
    (prepare_body_for_type plain_crypto tree_json 9 with_vault_config
        (Info.endpoint_of asked_details)
        (Info.build tree_json asked_details)
        none
        none
        4
      ≡ (ok sent_details, 4))
    × IsTagged tree_json tree_json-IsLawful
        (to_string (Info.endpoint_of asked_details))
        sent_details
    × (to_path (Info.endpoint_of asked_details) ≡ "/info")
    × (lookup "user" sent_details
        ≡ or_else
            (if str_eq "vaultAddress" "user" then some (string "0xcc") else none)
            (lookup "user" (Info.build tree_json asked_details)))
prepare_body_for_type-IsInfo_example =
    prepare_body_for_type-IsInfo plain_crypto tree_json 9 tree_json-IsLawful with_vault_config
      asked_details 4 "user"

prepare_body_for_type-vault_details_example :
    (prepare_body_for_type plain_crypto tree_json 9 with_vault_config RestEndpointType.vault_details
        (Info.build tree_json asked_details)
        none
        none
        4
      ≡ (ok sent_details, 4))
    × (lookup "vaultAddress" (Info.build tree_json asked_details) ≡ some (string "0xdd"))
    × (lookup "vaultAddress" sent_details ≡ some (string "0xcc"))
prepare_body_for_type-vault_details_example =
    prepare_body_for_type-vault_details plain_crypto tree_json 9 tree_json-IsLawful
      with_vault_config "0xcc" "0xdd" none 4 refl
