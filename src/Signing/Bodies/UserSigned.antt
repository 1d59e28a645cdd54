-- ===== src/Signing/Bodies/UserSigned.antt =====
-- The bodies of user-signed actions: what is sent, and that it is what was signed.
use text.Mathlib.Text.{◌==◌ as str_eq}
use text.Mathlib.TextEquality.{eq_iff}
use hyperliquid_sdk_cpp.Common.{
  ℕ, String, Bool, true, false, not, ◌||◌, ◌≡◌, refl, sym, ap, ◌∙◌, Option, some, Result, ok, err,
  arith,
}
use hyperliquid_sdk_cpp.Config.{Environment, Wallet, ApiConfig}
use hyperliquid_sdk_cpp.Json.{JsonLib, IsLawful, lookup}
use hyperliquid_sdk_cpp.Json.Laws.{lookup-assign}
use hyperliquid_sdk_cpp.Types.Endpoint.{RestEndpointType, is_user_signed_action}
use hyperliquid_sdk_cpp.Messages.Wire.{unsigned}
use hyperliquid_sdk_cpp.Signing.Nonce.{next_value}
use hyperliquid_sdk_cpp.Signing.Eip712.{
  Crypto, Signature, sign_user_signed_action, encode_fields, user_signed_struct_hash,
}
use hyperliquid_sdk_cpp.Signing.Bodies.Fields.{Schema, schema_of}
use hyperliquid_sdk_cpp.Signing.Bodies.{
  chain_name, is_approve_agent, signature_json, stamp, envelope, seal_action,
  prepare_user_signed_action_body, prepare_body_for_type,
}
use hyperliquid_sdk_cpp.Signing.Bodies.Complete.{IsComplete, is_ok, ok_of}
use hyperliquid_sdk_cpp.Signing.Bodies.Total.{IsUsable}

-- The field of the nonce is none of the two that are written after it.
keeps_time : Result Schema → Bool
keeps_time (err e) = true
keeps_time (ok schema) =
    not (str_eq "signatureChainId" schema.time_field || str_eq "hyperliquidChain" schema.time_field)

schema_of-keeps_time : (type : RestEndpointType) → keeps_time (schema_of type) ≡ true
unfolding schema_of keeps_time
schema_of-keeps_time RestEndpointType.meta = refl
schema_of-keeps_time _ = refl

-- A schema's endpoint is a user-signed action.
schema_of-user_signed :
    (type : RestEndpointType) (schema : Schema)
    → schema_of type ≡ ok schema
    → is_user_signed_action type ≡ true
unfolding schema_of is_user_signed_action
schema_of-user_signed RestEndpointType.meta schema h = cc
schema_of-user_signed _ schema h = cc

schema_of-not_agent :
    (type : RestEndpointType) (schema : Schema)
    → schema_of type ≡ ok schema
    → is_approve_agent type ≡ false
unfolding schema_of is_approve_agent
schema_of-not_agent RestEndpointType.meta schema h = cc
schema_of-not_agent _ schema h = cc

module _ (C : Crypto) (J : JsonLib) where
  open J use {Json, Object, string, object, members}

  -- The envelope's action is the one that was hashed; the nonce stands in the envelope and in the
  -- action, and the action names the chain.
  pub record IsUserSigned (wallet : Wallet) (env : Environment) (schema : Schema) (nonce : ℕ)
      (body : Object) : Type 0 where
    pub action : Object
    pub signature : Signature
    pub sent_action : lookup "action" (members body) ≡ some (object action)
    pub sent_nonce : lookup "nonce" (members body) ≡ some (unsigned J nonce)
    pub sent_signature : lookup "signature" (members body) ≡ some (signature_json C J signature)
    pub same_nonce : lookup schema.time_field (members action) ≡ some (unsigned J nonce)
    pub named_chain : lookup "hyperliquidChain" (members action) ≡ some (string (chain_name env))
    pub signed :
        sign_user_signed_action C J wallet action schema.payload_types schema.primary_type
        ≡ ok signature

  sign_user_signed_action-ok :
      (wallet : Wallet) (action : Object) (schema : Schema)
      → IsUsable C wallet
      → is_ok (encode_fields C J action schema.payload_types) ≡ true
      → is_ok (sign_user_signed_action C J wallet action schema.payload_types schema.primary_type)
        ≡ true
  unfolding sign_user_signed_action user_signed_struct_hash
  sign_user_signed_action-ok wallet action schema usable encodes =
      let (encoded, e) = ok_of _ encodes in rw e (usable _)

  module _ (L : IsLawful J) where
    stamp-time :
        (type : RestEndpointType) (schema : Schema) (nonce : ℕ) (env : Environment)
        (action : Object)
        → schema_of type ≡ ok schema
        → lookup schema.time_field (members (stamp C J schema.time_field nonce env action))
          ≡ some (unsigned J nonce)
    unfolding stamp keeps_time
    stamp-time type schema nonce env action e =
        let keeps : keeps_time (ok schema) ≡ true =
          sym (ap keeps_time e) ∙ schema_of-keeps_time type in
        rw (lookup-assign J L, lookup-assign J L, lookup-assign J L)
          (ground (arith, keeps, eq_iff schema.time_field schema.time_field))

    stamp-chain :
        (key : String) (nonce : ℕ) (env : Environment) (action : Object)
        → lookup "hyperliquidChain" (members (stamp C J key nonce env action))
          ≡ some (string (chain_name env))
    unfolding stamp
    stamp-chain key nonce env action = simp (lookup-assign J L)

    -- A body whose action has every field that its endpoint's list names is signed, if the wallet's
    -- key signs every hash. The next nonce is consumed. The action that is sent is the one that was
    -- hashed, it names the chain, and the nonce stands in it and in the envelope.
    pub prepare_body_for_type-IsUserSigned :
        (config : ApiConfig) (wallet : Wallet) (type : RestEndpointType) (schema : Schema)
        (body : Object) (vault : Option String) (expires : Option ℕ) (last now : ℕ)
        → config.wallet ≡ some wallet
        → IsUsable C wallet
        → schema_of type ≡ ok schema
        → IsComplete C J L config.env (next_value now last) schema body
        → (out : Object) × (prepare_body_for_type C J now config type body vault expires last
            ≡ (ok out, next_value now last))
          × IsUserSigned wallet config.env schema (next_value now last) out
    unfolding prepare_body_for_type prepare_user_signed_action_body seal_action envelope
    prepare_body_for_type-IsUserSigned config wallet type schema body vault expires last now
          configured usable e complete =
        let nonce = next_value now last in
        let stamped = stamp C J schema.time_field nonce config.env complete.action in
        let reads : lookup "action" (members body) ≡ some (object complete.action) =
          rw complete.is_body (simp (lookup-assign J L)) in
        let step : prepare_body_for_type C J now config type body vault expires last
            ≡ (seal_action C J config (object complete.action) wallet schema nonce, nonce) =
          rw
            (
              schema_of-not_agent type schema e,
              schema_of-user_signed type schema e,
              reads,
              configured,
              e,
            )
            refl in
        let (signature, s) =
          ok_of _ (sign_user_signed_action-ok wallet stamped schema usable complete.encodes) in
        let out = envelope C J stamped nonce signature in
        let sealed : seal_action C J config (object complete.action) wallet schema nonce ≡ ok out =
          rw (L.as_object-object, s) refl in
        (
          out,
          step ∙ ap (λ r. (r, nonce)) sealed,
          record {
            action = stamped;
            signature = signature;
            sent_action = simp (lookup-assign J L);
            sent_nonce = simp (lookup-assign J L);
            sent_signature = simp (lookup-assign J L);
            same_nonce = stamp-time type schema nonce config.env complete.action e;
            named_chain = stamp-chain schema.time_field nonce config.env complete.action;
            signed = s;
          },
        )
