-- ===== src/Signing/Bodies/Fields.antt =====
-- src/signing/Signing.cpp: the EIP-712 field lists of the user-signed actions.
use Prim.Native.String
use hyperliquid_sdk_cpp.Common.{String, List, [], ◌∷◌, Result, ok, err, invalid_argument}
use hyperliquid_sdk_cpp.Types.Endpoint.{RestEndpointType, to_string}
use hyperliquid_sdk_cpp.Signing.Eip712.{Eip712Field}

-- `primaryType`, `payloadTypes` and `timeField` of `prepareUserSignedActionBody`.
pub record Schema : Type 0 where
  pub primary_type : String
  pub payload_types : List Eip712Field
  pub time_field : String

abbrev fld : String → String → Eip712Field
fld name kind = record { name = name; kind = kind }

-- The `switch` of `prepareUserSignedActionBody`.
unfoldable pub schema_of : RestEndpointType → Result Schema
schema_of RestEndpointType.usd_send = ok (record {
  primary_type = "HyperliquidTransaction:UsdSend";
  payload_types =
      fld "hyperliquidChain" "string"
      ∷ fld "destination" "string"
      ∷ fld "amount" "string"
      ∷ fld "time" "uint64"
      ∷ [];
  time_field = "time";
})
schema_of RestEndpointType.withdraw3 = ok (record {
  primary_type = "HyperliquidTransaction:Withdraw";
  payload_types =
      fld "hyperliquidChain" "string"
      ∷ fld "destination" "string"
      ∷ fld "amount" "string"
      ∷ fld "time" "uint64"
      ∷ [];
  time_field = "time";
})
schema_of RestEndpointType.spot_send = ok (record {
  primary_type = "HyperliquidTransaction:SpotSend";
  payload_types =
      fld "hyperliquidChain" "string"
      ∷ fld "destination" "string"
      ∷ fld "token" "string"
      ∷ fld "amount" "string"
      ∷ fld "time" "uint64"
      ∷ [];
  time_field = "time";
})
schema_of RestEndpointType.usd_class_transfer = ok (record {
  primary_type = "HyperliquidTransaction:UsdClassTransfer";
  payload_types =
      fld "hyperliquidChain" "string"
      ∷ fld "amount" "string"
      ∷ fld "toPerp" "bool"
      ∷ fld "nonce" "uint64"
      ∷ [];
  time_field = "nonce";
})
schema_of RestEndpointType.send_asset = ok (record {
  primary_type = "HyperliquidTransaction:SendAsset";
  payload_types =
      fld "hyperliquidChain" "string"
      ∷ fld "destination" "string"
      ∷ fld "sourceDex" "string"
      ∷ fld "destinationDex" "string"
      ∷ fld "token" "string"
      ∷ fld "amount" "string"
      ∷ fld "fromSubAccount" "string"
      ∷ fld "nonce" "uint64"
      ∷ [];
  time_field = "nonce";
})
schema_of RestEndpointType.approve_builder_fee = ok (record {
  primary_type = "HyperliquidTransaction:ApproveBuilderFee";
  payload_types =
      fld "hyperliquidChain" "string"
      ∷ fld "maxFeeRate" "string"
      ∷ fld "builder" "address"
      ∷ fld "nonce" "uint64"
      ∷ [];
  time_field = "nonce";
})
schema_of RestEndpointType.user_set_abstraction = ok (record {
  primary_type = "HyperliquidTransaction:UserSetAbstraction";
  payload_types =
      fld "hyperliquidChain" "string"
      ∷ fld "user" "address"
      ∷ fld "abstraction" "string"
      ∷ fld "nonce" "uint64"
      ∷ [];
  time_field = "nonce";
})
schema_of RestEndpointType.c_deposit = ok (record {
  primary_type = "HyperliquidTransaction:CDeposit";
  payload_types = fld "hyperliquidChain" "string" ∷ fld "wei" "uint64" ∷ fld "nonce" "uint64" ∷ [];
  time_field = "nonce";
})
schema_of RestEndpointType.c_withdraw = ok (record {
  primary_type = "HyperliquidTransaction:CWithdraw";
  payload_types = fld "hyperliquidChain" "string" ∷ fld "wei" "uint64" ∷ fld "nonce" "uint64" ∷ [];
  time_field = "nonce";
})
schema_of RestEndpointType.token_delegate = ok (record {
  primary_type = "HyperliquidTransaction:TokenDelegate";
  payload_types =
      fld "hyperliquidChain" "string"
      ∷ fld "validator" "address"
      ∷ fld "wei" "uint64"
      ∷ fld "isUndelegate" "bool"
      ∷ fld "nonce" "uint64"
      ∷ [];
  time_field = "nonce";
})
schema_of RestEndpointType.send_to_evm_with_data = ok (record {
  primary_type = "HyperliquidTransaction:SendToEvmWithData";
  payload_types =
      fld "hyperliquidChain" "string"
      ∷ fld "token" "string"
      ∷ fld "amount" "string"
      ∷ fld "sourceDex" "string"
      ∷ fld "destinationRecipient" "string"
      ∷ fld "addressEncoding" "string"
      ∷ fld "destinationChainId" "uint32"
      ∷ fld "gasLimit" "uint64"
      ∷ fld "data" "bytes"
      ∷ fld "nonce" "uint64"
      ∷ [];
  time_field = "nonce";
})
schema_of RestEndpointType.user_dex_abstraction = ok (record {
  primary_type = "HyperliquidTransaction:UserDexAbstraction";
  payload_types =
      fld "hyperliquidChain" "string"
      ∷ fld "user" "address"
      ∷ fld "enabled" "bool"
      ∷ fld "nonce" "uint64"
      ∷ [];
  time_field = "nonce";
})
schema_of RestEndpointType.user_portfolio_margin = ok (record {
  primary_type = "HyperliquidTransaction:UserPortfolioMargin";
  payload_types =
      fld "hyperliquidChain" "string"
      ∷ fld "user" "address"
      ∷ fld "enabled" "bool"
      ∷ fld "nonce" "uint64"
      ∷ [];
  time_field = "nonce";
})
schema_of type = err (invalid_argument (String.◌++◌ "Not a user-signed action: " (to_string type)))

unfoldable pub user_signed_action_fields : RestEndpointType → Result (List Eip712Field)
user_signed_action_fields RestEndpointType.send_to_evm_with_data = ok (
    fld "hyperliquidChain" "string"
    ∷ fld "token" "string"
    ∷ fld "amount" "string"
    ∷ fld "sourceDex" "string"
    ∷ fld "destinationRecipient" "string"
    ∷ fld "addressEncoding" "string"
    ∷ fld "destinationChainId" "uint32"
    ∷ fld "gasLimit" "uint64"
    ∷ fld "data" "bytes"
    ∷ fld "nonce" "uint64"
    ∷ [])
user_signed_action_fields type =
    err (
      invalid_argument
        (String.◌++◌ "No EIP-712 field list for RestEndpointType: " (to_string type)))

unfoldable pub user_signed_action_primary_type : RestEndpointType → Result String
user_signed_action_primary_type RestEndpointType.send_to_evm_with_data =
    ok "HyperliquidTransaction:SendToEvmWithData"
user_signed_action_primary_type type = err (
    invalid_argument
      (String.◌++◌ "No EIP-712 primary type for RestEndpointType: " (to_string type)))

-- The field list in `prepareApproveAgentBody`.
abbrev pub approve_agent_fields : List Eip712Field
approve_agent_fields =
    fld "hyperliquidChain" "string"
    ∷ fld "agentAddress" "address"
    ∷ fld "agentName" "string"
    ∷ fld "nonce" "uint64"
    ∷ []
