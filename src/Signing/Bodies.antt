-- ===== src/Signing/Bodies.antt =====
-- src/signing/Signing.cpp: the bodies that are sent. `lastNonce` is passed through, one call of
-- `nextNonce` at a time; a nonce is consumed even where the call throws afterwards.
pub mod Fields
pub mod Envelope
pub mod Complete
pub mod Total
pub mod UserSigned
pub mod NoWallet
pub mod Approval
pub mod Info
mod Examples
use Prim.Native.String
use text.Mathlib.Text.{◌==◌ as str_eq}
use mathlib.Core.Option
use hyperliquid_sdk_cpp.Common.{
  ℕ, String, ℤ, pos, Bool, true, false, List, [], ◌∷◌, Option, none, some, Result, ok, err,
  invalid_argument, or_throw, out_of_range, json_type_error, ◌>>=◌, if◌then◌else◌,
}
use hyperliquid_sdk_cpp.Config.{Environment, mainnet, testnet, Wallet, ApiConfig}
use hyperliquid_sdk_cpp.Json.{JsonLib, lookup}
use hyperliquid_sdk_cpp.Types.Endpoint.{
  RestEndpointType, to_string, is_authenticated, is_user_signed_action,
}
use hyperliquid_sdk_cpp.Messages.Wire.{◌▷◌, unsigned, assign_some}
use hyperliquid_sdk_cpp.Signing.Nonce.{next_value}
use hyperliquid_sdk_cpp.Signing.Eip712.{
  Crypto, Signature, Eip712Field, sign_user_signed_action, sign_l1_action,
}
use hyperliquid_sdk_cpp.Signing.Bodies.Fields.{
  user_signed_action_fields, user_signed_action_primary_type, approve_agent_fields, Schema,
  schema_of,
}

abbrev pub chain_name : Environment → String
chain_name mainnet = "Mainnet"
chain_name testnet = "Testnet"

abbrev pub is_mainnet : Environment → Bool
is_mainnet mainnet = true
is_mainnet testnet = false

abbrev pub value_or {ℓ} : {A : Type ℓ} → A → Option A → A
value_or a none = a
value_or a (some b) = b

-- The wallet's guard, with `lastNonce` behind it.
abbrev with_wallet :
    {A : Type 0} → Option Wallet → RestEndpointType → ℕ → (Wallet → Result A × ℕ) → Result A × ℕ
with_wallet (some wallet) type last f = f wallet
with_wallet none type last f = (
  err (
      invalid_argument
        (String.◌++◌ "Wallet not configured, can't send authenticated request: " (to_string type))),
  last,
)

-- Code that may throw before a nonce is asked for.
abbrev first_try : {A B : Type 0} → Result A → ℕ → (A → Result B × ℕ) → Result B × ℕ
first_try (ok a) last f = f a
first_try (err e) last f = (err e, last)

-- `type == ApproveAgent`
unfoldable pub is_approve_agent : RestEndpointType → Bool
is_approve_agent RestEndpointType.approve_agent = true
is_approve_agent _ = false

-- `type == AgentSendAsset || type == CreateVault`
unfoldable pub embeds_nonce : RestEndpointType → Bool
embeds_nonce RestEndpointType.agent_send_asset = true
embeds_nonce RestEndpointType.create_vault = true
embeds_nonce _ = false

-- `allowConfigVaultFallback`
unfoldable pub allow_config_vault_fallback : RestEndpointType → Bool
allow_config_vault_fallback RestEndpointType.vault_transfer = false
allow_config_vault_fallback RestEndpointType.hip3_liquidator_transfer = false
allow_config_vault_fallback RestEndpointType.create_sub_account = false
allow_config_vault_fallback RestEndpointType.sub_account_transfer = false
allow_config_vault_fallback _ = true

unfoldable pub effective_vault : ApiConfig → RestEndpointType → Option String → Option String
effective_vault config type (some vault) = some vault
effective_vault config type none =
    if allow_config_vault_fallback type then config.vault_address else none

module _ (C : Crypto) (J : JsonLib) where
  open J use {
    Json, Object, null, string, number, object, empty, assign, erase, members, is_null, as_object,
    as_string,
  }

  -- `body[key]` of a value that is read next: an absent member reads as null.
  abbrev pub at_or_null : String → Object → Json
  at_or_null key o = value_or null (lookup key (members o))

  -- `.at(key)`
  abbrev pub at_or_throw : String → Object → Result Json
  at_or_throw key o = or_throw out_of_range (lookup key (members o))

  abbrev pub object_of : Json → Result Object
  object_of v = or_throw json_type_error (as_object v)

  -- The receiver of `.at(key)`, which throws on null too.
  abbrev pub strict_object_of : Json → Result Object
  strict_object_of v = if is_null v then err json_type_error else object_of v

  abbrev pub string_of : Json → Result String
  string_of v = or_throw json_type_error (as_string v)

  abbrev pub signature_json : Signature → Json
  signature_json signature = object (
      empty
      ▷ assign "r" (string signature.r)
      ▷ assign "s" (string signature.s)
      ▷ assign "v" (unsigned J signature.v))

  -- The nonce or time, the chain and its name, in the action.
  unfoldable pub stamp : String → ℕ → Environment → Object → Object
  stamp time_field nonce env action =
      action
      ▷ assign time_field (unsigned J nonce)
      ▷ assign "signatureChainId" (string "0x66eee")
      ▷ assign "hyperliquidChain" (string (chain_name env))

  unfoldable pub envelope : Object → ℕ → Signature → Object
  envelope action nonce signature =
      empty
      ▷ assign "action" (object action)
      ▷ assign "nonce" (unsigned J nonce)
      ▷ assign "signature" (signature_json signature)

  unfoldable pub with_options : Option String → Option ℕ → Object → Object
  with_options vault_address expires_after body =
      body
      ▷ assign_some J "vaultAddress" (Option.map string vault_address)
      ▷ assign_some J "expiresAfter" (Option.map (unsigned J) expires_after)

  -- The two branches of `prepareBody`, from `body["nonce"] = nonce` on.
  unfoldable pub seal_user_signed :
      ApiConfig → Wallet → RestEndpointType → Object → ℕ → Result Object
  unfolding stamp
  seal_user_signed config wallet type body nonce = do
    action ← object_of (at_or_null "action" body)
    let stamped = stamp "nonce" nonce config.env action
    fields ← user_signed_action_fields type
    primary_type ← user_signed_action_primary_type type
    signature ← sign_user_signed_action C J wallet stamped fields primary_type
    ok (body ▷ assign "action" (object stamped) ▷ assign "signature" (signature_json signature))

  unfoldable pub embed_nonce : RestEndpointType → ℕ → Json → Result Json
  embed_nonce type nonce action = if embeds_nonce type then embed else ok action
    where
      embed : Result Json
      embed = do o ← object_of action; ok (object (assign "nonce" (unsigned J nonce) o))

  unfoldable pub seal_l1 :
      ApiConfig → Wallet → RestEndpointType → Option String → Option ℕ → Object → ℕ → Result Object
  unfolding embed_nonce
  seal_l1 config wallet type vault_address expires_after body nonce = do
    action ← embed_nonce type nonce (at_or_null "action" body)
    signature ←
        sign_l1_action C J wallet action vault_address nonce expires_after (is_mainnet config.env)
    ok (body ▷ assign "action" action ▷ assign "signature" (signature_json signature))

  abbrev or_empty : Option String → String
  or_empty none = ""
  or_empty (some s) = s

  -- The action that is signed; the one that is sent has no name where there is none.
  unfoldable pub approval : String → Option String → ℕ → Environment → Object
  unfolding stamp
  approval agent_address agent_name nonce env =
      empty
      ▷ assign "type" (string "approveAgent")
      ▷ assign "agentAddress" (string agent_address)
      ▷ assign "agentName" (string (or_empty agent_name))
      ▷ stamp "nonce" nonce env

  abbrev pub unnamed : Option String → Object → Object
  unnamed none action = erase "agentName" action
  unnamed (some name) action = action

  unfoldable pub seal_approval : ApiConfig → String → Option String → Wallet → ℕ → Result Object
  unfolding approval envelope
  seal_approval config agent_address agent_name wallet nonce = do
    let action = approval agent_address agent_name nonce config.env
    signature ←
        sign_user_signed_action C J wallet action approve_agent_fields
          "HyperliquidTransaction:ApproveAgent"
    ok (envelope (unnamed agent_name action) nonce signature)

  unfoldable pub seal_action : ApiConfig → Json → Wallet → Schema → ℕ → Result Object
  unfolding stamp envelope
  seal_action config action wallet schema nonce = do
    o ← object_of action
    let stamped = stamp schema.time_field nonce config.env o
    signature ← sign_user_signed_action C J wallet stamped schema.payload_types schema.primary_type
    ok (envelope stamped nonce signature)

  -- `body["action"].contains("agentName")`, and its string.
  agent_name_of : Option Json → Result (Option String)
  agent_name_of none = ok none
  agent_name_of (some v) = do name ← string_of v; ok (some name)

  -- What the `ApproveAgent` branch reads in the body.
  unfoldable pub agent_of : Object → Result (String × Option String)
  unfolding agent_name_of
  agent_of body = do
    action ← strict_object_of (at_or_null "action" body)
    v ← at_or_throw "agentAddress" action
    address ← string_of v
    name ← agent_name_of (lookup "agentName" (members action))
    ok (address, name)

  module _ (now : ℕ) where
    -- What the code after `nextNonce` makes of the nonce.
    abbrev with_nonce : {A : Type 0} → ℕ → (ℕ → Result A) → Result A × ℕ
    with_nonce last f = (f (next_value now last), next_value now last)

    unfoldable pub prepare_body :
        ApiConfig → RestEndpointType → Object → Option String → Option ℕ → ℕ → Result Object × ℕ
    unfolding seal_user_signed seal_l1 with_options
    prepare_body config type body vault_address expires_after last =
        let sent = with_options vault_address expires_after body in
        if is_authenticated type
        then with_wallet config.wallet type last (λ wallet. with_nonce last (λ nonce.
          let numbered = assign "nonce" (unsigned J nonce) sent in
          if is_user_signed_action type
          then seal_user_signed config wallet type numbered nonce
          else seal_l1 config wallet type vault_address expires_after numbered nonce))
        else (ok sent, last)

    unfoldable pub prepare_approve_agent_body :
        ApiConfig → String → Option String → ℕ → Result Object × ℕ
    unfolding seal_approval
    prepare_approve_agent_body config agent_address agent_name last =
        with_wallet config.wallet RestEndpointType.approve_agent last
          (λ wallet. with_nonce last (seal_approval config agent_address agent_name wallet))

    unfoldable pub prepare_user_signed_action_body :
        ApiConfig → RestEndpointType → Json → ℕ → Result Object × ℕ
    unfolding seal_action
    prepare_user_signed_action_body config type action last =
        with_wallet config.wallet type last (λ wallet.
          first_try (schema_of type) last
            (λ schema. with_nonce last (seal_action config action wallet schema)))

    unfoldable pub prepare_body_for_type :
        ApiConfig → RestEndpointType → Object → Option String → Option ℕ → ℕ → Result Object × ℕ
    unfolding prepare_body prepare_approve_agent_body prepare_user_signed_action_body agent_of
        effective_vault
    prepare_body_for_type config type body vault_address expires_after last =
        if is_approve_agent type
        then first_try (agent_of body) last
            (λ (address, name). prepare_approve_agent_body config address name last)
        else if is_user_signed_action type
        then first_try (at_or_throw "action" body) last
            (λ action. prepare_user_signed_action_body config type action last)
        else prepare_body config type body (effective_vault config type vault_address) expires_after
            last
