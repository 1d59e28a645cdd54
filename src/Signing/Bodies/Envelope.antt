-- ===== src/Signing/Bodies/Envelope.antt =====
-- What the server reads in a signed body is what was signed.
use mathlib.Core.Option
use hyperliquid_sdk_cpp.Common.{ℕ, String, ◌≡◌, sym, Option, some, ok, >>=-eq-ok}
use hyperliquid_sdk_cpp.Config.{Environment, Wallet, ApiConfig}
use hyperliquid_sdk_cpp.Json.{JsonLib, IsLawful, lookup}
use hyperliquid_sdk_cpp.Json.Laws.{lookup-assign}
use hyperliquid_sdk_cpp.Types.Endpoint.{RestEndpointType}
use hyperliquid_sdk_cpp.Messages.Wire.{unsigned}
use hyperliquid_sdk_cpp.Signing.Eip712.{Crypto, Signature, sign_l1_action}
use hyperliquid_sdk_cpp.Signing.Bodies.{
  is_mainnet, signature_json, seal_l1, at_or_null, embed_nonce,
}

module _ (C : Crypto) (J : JsonLib) where
  open J use {Json, Object, string, object, members}

  -- The body's members are the ones that the signature was made of.
  pub record IsSigned (wallet : Wallet) (env : Environment) (type : RestEndpointType) (asked : Json)
      (nonce : ℕ) (vault : Option String) (expires : Option ℕ) (body : Object) : Type 0 where
    pub action : Json
    pub embedded : embed_nonce C J type nonce asked ≡ ok action
    pub signature : Signature
    pub sent_action : lookup "action" (members body) ≡ some action
    pub sent_nonce : lookup "nonce" (members body) ≡ some (unsigned J nonce)
    pub sent_vault : lookup "vaultAddress" (members body) ≡ Option.map string vault
    pub sent_expiry : lookup "expiresAfter" (members body) ≡ Option.map (unsigned J) expires
    pub sent_signature : lookup "signature" (members body) ≡ some (signature_json C J signature)
    pub signed :
        sign_l1_action C J wallet action vault nonce expires (is_mainnet env) ≡ ok signature

  module _ (L : IsLawful J) where
    pub seal_l1_lem :
        (config : ApiConfig) (wallet : Wallet) (type : RestEndpointType) (vault : Option String)
        (expires : Option ℕ) (nonce : ℕ) (body out : Object)
        → lookup "nonce" (members body) ≡ some (unsigned J nonce)
        → lookup "vaultAddress" (members body) ≡ Option.map string vault
        → lookup "expiresAfter" (members body) ≡ Option.map (unsigned J) expires
        → seal_l1 C J config wallet type vault expires body nonce ≡ ok out
        → IsSigned wallet config.env type (at_or_null C J "action" body) nonce vault expires out
    unfolding seal_l1
    seal_l1_lem config wallet type vault expires nonce body out n v e h =
        let (action, ea, h1) =
          >>=-eq-ok (embed_nonce C J type nonce (at_or_null C J "action" body)) _ h in
        let (signature, es, h2) =
          >>=-eq-ok (sign_l1_action C J wallet action vault nonce expires (is_mainnet config.env)) _
            h1 in
        let out_is : J.assign "signature" (signature_json C J signature)
              (J.assign "action" action body)
            ≡ out =
          cc in
        record {
          action = action;
          embedded = ea;
          signature = signature;
          sent_action = rw (sym out_is) (simp (lookup-assign J L));
          sent_nonce = rw (sym out_is) (simp (lookup-assign J L, n));
          sent_vault = rw (sym out_is) (simp (lookup-assign J L, v));
          sent_expiry = rw (sym out_is) (simp (lookup-assign J L, e));
          sent_signature = rw (sym out_is) (simp (lookup-assign J L));
          signed = es;
        }
