-- ===== src/Signing/Bodies/Info.antt =====
-- src/signing/Signing.cpp: what `prepareBodyForType` makes of a request for information, whose
-- builders are in src/messages/InfoRequestBuilder.cpp.
use text.Mathlib.Text.{◌==◌ as str_eq}
use mathlib.Core.Option
use hyperliquid_sdk_cpp.Common.{
  ℕ, String, true, false, ◌≡◌, refl, ◌∙◌, Option, none, some, ok, if◌then◌else◌, or_else,
}
use hyperliquid_sdk_cpp.Config.{ApiConfig}
use hyperliquid_sdk_cpp.Json.{JsonLib, IsLawful, lookup}
use hyperliquid_sdk_cpp.Json.Laws.{lookup-assign, lookup-assign_some}
use hyperliquid_sdk_cpp.Types.Endpoint.{
  RestEndpointType, to_string, to_path, is_authenticated, is_user_signed_action,
}
use hyperliquid_sdk_cpp.Messages.Wire.{assign_some}
use hyperliquid_sdk_cpp.Messages.Exchange.Shape.{IsTagged, assign_some-IsTagged, tag_rules}
use hyperliquid_sdk_cpp.Messages.Info.{InfoRequest, spot_meta, vault_details, endpoint_of, build}
use hyperliquid_sdk_cpp.Signing.Eip712.{Crypto}
use hyperliquid_sdk_cpp.Signing.Bodies.{
  is_approve_agent, allow_config_vault_fallback, effective_vault, with_options, prepare_body,
  prepare_body_for_type,
}

-- What the branches of `prepareBodyForType` ask of an endpoint.
abbrev IsPlain : RestEndpointType → Type 0
IsPlain type =
    (is_approve_agent type ≡ false)
    × (is_user_signed_action type ≡ false)
    × (allow_config_vault_fallback type ≡ true)
    × (is_authenticated type ≡ false)
    × (to_path type ≡ "/info")

endpoint_of-IsPlain : (request : InfoRequest) → IsPlain (endpoint_of request)
unfolding endpoint_of is_approve_agent is_user_signed_action allow_config_vault_fallback
    is_authenticated to_path
endpoint_of-IsPlain spot_meta = (refl, refl, refl, refl, refl)
endpoint_of-IsPlain _ = (refl, refl, refl, refl, refl)

module _ (J : JsonLib) (L : IsLawful J) where
  open J use {Object, string, members}

  build-IsTagged :
      (request : InfoRequest) → IsTagged J L (to_string (endpoint_of request)) (build J request)
  unfolding build endpoint_of to_string
  build-IsTagged spot_meta = search tag_rules depth 14
  build-IsTagged _ = search tag_rules depth 14

  asks-vault_details :
      (asked : String) (user : Option String)
      → lookup "vaultAddress" (members (build J (vault_details asked user))) ≡ some (string asked)
  unfolding build lookup
  asks-vault_details asked none = simp (lookup-assign J L)
  asks-vault_details asked (some u) = simp (lookup-assign J L)

module _ (C : Crypto) (J : JsonLib) (now : ℕ) where
  open J use {Object, string, members}

  -- The builder's body, and the configured vault.
  abbrev pub with_vault : ApiConfig → Object → Object
  with_vault config body =
      assign_some J "vaultAddress" (Option.map string config.vault_address) body

  prepare_body_for_type-eq :
      (config : ApiConfig) (type : RestEndpointType) (body : Object) (last : ℕ)
      → IsPlain type
      → prepare_body_for_type C J now config type body none none last
        ≡ (ok (with_vault config body), last)
  unfolding prepare_body_for_type prepare_body with_options effective_vault
  prepare_body_for_type-eq config type body last p = rw (p.0, p.1, p.2, p.3) refl

  module _ (L : IsLawful J) where
    -- A request for information is sent without a wallet, a signature or a nonce. Its first member
    -- is "type", with the name of its endpoint, which is under `/info`. Every other member is as
    -- the builder wrote it, but for "vaultAddress", which is the configured vault where there is
    -- one.
    pub prepare_body_for_type-IsInfo :
        (config : ApiConfig) (request : InfoRequest) (last : ℕ) (k : String)
        → let sent = with_vault config (build J request) in
          (prepare_body_for_type C J now config
              (endpoint_of request)
              (build J request)
              none
              none
              last
            ≡ (ok sent, last))
          × IsTagged J L (to_string (endpoint_of request)) sent
          × (to_path (endpoint_of request) ≡ "/info")
          × (lookup k (members sent)
              ≡ or_else
                  (if str_eq "vaultAddress" k then Option.map string config.vault_address else none)
                  (lookup k (members (build J request))))
    prepare_body_for_type-IsInfo config request last k = (
      prepare_body_for_type-eq config (endpoint_of request) (build J request) last
          (endpoint_of-IsPlain request),
      assign_some-IsTagged J L _ "vaultAddress" _ _ refl (build-IsTagged J L request),
      (endpoint_of-IsPlain request).4,
      lookup-assign_some J L "vaultAddress" k _ (build J request),
    )

    -- With a vault in the configuration, a request for the details of any vault asks for the
    -- details of the configured one, whichever vault the caller named.
    pub prepare_body_for_type-vault_details :
        (config : ApiConfig) (configured asked : String) (user : Option String) (last : ℕ)
        → config.vault_address ≡ some configured
        → let sent = with_vault config (build J (vault_details asked user)) in
          (prepare_body_for_type C J now config RestEndpointType.vault_details
              (build J (vault_details asked user))
              none
              none
              last
            ≡ (ok sent, last))
          × (lookup "vaultAddress" (members (build J (vault_details asked user)))
              ≡ some (string asked))
          × (lookup "vaultAddress" (members sent) ≡ some (string configured))
    unfolding endpoint_of
    prepare_body_for_type-vault_details config configured asked user last h =
        let facts =
          prepare_body_for_type-IsInfo config (vault_details asked user) last "vaultAddress" in
        let named = asks-vault_details J L asked user in (facts.0, named, facts.3 ∙ rw h refl)
