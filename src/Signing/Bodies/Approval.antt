-- ===== src/Signing/Bodies/Approval.antt =====
-- The body of `approveAgent`, whose name may be missing.
use mathlib.Core.Option
use hyperliquid_sdk_cpp.Common.{ℕ, String, ◌≡◌, Option, none, some, ok, if◌then◌else◌}
use text.Mathlib.Text.{◌==◌ as str_eq}
use hyperliquid_sdk_cpp.Config.{Environment, mainnet, testnet, Wallet, ApiConfig}
use hyperliquid_sdk_cpp.Json.{JsonLib, IsLawful, lookup}
use hyperliquid_sdk_cpp.Messages.Wire.{unsigned}
use hyperliquid_sdk_cpp.Signing.Eip712.{Crypto, Signature, sign_user_signed_action}
use hyperliquid_sdk_cpp.Signing.Bodies.Fields.{approve_agent_fields}
use hyperliquid_sdk_cpp.Signing.Bodies.{signature_json}

abbrev pub text_of : Option String → String
text_of none = ""
text_of (some name) = name

abbrev pub network_of : Environment → String
network_of mainnet = "Mainnet"
network_of testnet = "Testnet"

module _ (C : Crypto) (J : JsonLib) (L : IsLawful J) where
  open J use {Json, Object, string, object, members}

  -- What is sent for `approveAgent`, and what its signature is of.
  pub record IsApproval (wallet : Wallet) (config : ApiConfig) (address : String)
      (name : Option String) (nonce : ℕ) (body : Object) : Type 0 where
    pub hashed : Object
    pub sent : Object
    pub signature : Signature
    pub hashed_type : lookup "type" (members hashed) ≡ some (string "approveAgent")
    pub hashed_address : lookup "agentAddress" (members hashed) ≡ some (string address)
    pub hashed_name : lookup "agentName" (members hashed) ≡ some (string (text_of name))
    pub hashed_nonce : lookup "nonce" (members hashed) ≡ some (unsigned J nonce)
    pub hashed_chain_id : lookup "signatureChainId" (members hashed) ≡ some (string "0x66eee")
    pub hashed_chain :
        lookup "hyperliquidChain" (members hashed) ≡ some (string (network_of config.env))
    -- The member is left out where there is no name; every other one is sent as it was hashed.
    pub sent_name : lookup "agentName" (members sent) ≡ Option.map string name
    pub sent_rest :
        (key : String)
        → (if str_eq key "agentName" then none else lookup key (members sent))
          ≡ (if str_eq key "agentName" then none else lookup key (members hashed))
    pub sent_action : lookup "action" (members body) ≡ some (object sent)
    pub sent_nonce : lookup "nonce" (members body) ≡ some (unsigned J nonce)
    pub sent_signature : lookup "signature" (members body) ≡ some (signature_json C J signature)
    pub signed :
        sign_user_signed_action C J wallet hashed approve_agent_fields
          "HyperliquidTransaction:ApproveAgent"
        ≡ ok signature
