-- ===== src/Signing/Bodies/Total.antt =====
-- With a wallet that signs and readable hexadecimal, every exchange body is signed.
use text.Mathlib.Text.{◌==◌ as str_eq}
use mathlib.Core.Option
use hyperliquid_sdk_cpp.Common.{
  ℕ, String, Bool, true, false, List, [], ◌∷◌, ◌≡◌, refl, sym, ap, ◌∙◌, Option, none, some, ok,
  Bool-cases, inl, inr, if◌then◌else◌, or_else, or_else-none,
}
use hyperliquid_sdk_cpp.Config.{Wallet, ApiConfig}
use hyperliquid_sdk_cpp.Json.{JsonLib, IsLawful, lookup}
use hyperliquid_sdk_cpp.Json.Laws.{lookup-assign, lookup-assign_some}
use hyperliquid_sdk_cpp.Types.Endpoint.{RestEndpointType, is_authenticated, is_user_signed_action}
use hyperliquid_sdk_cpp.Messages.Wire.{unsigned}
use hyperliquid_sdk_cpp.Signing.Nonce.{next_value}
use hyperliquid_sdk_cpp.Signing.Encoding.{action_hash, action_data}
use hyperliquid_sdk_cpp.Signing.Eip712.{Crypto, ecdsa_sign, sign_l1_action}
use hyperliquid_sdk_cpp.Signing.Bodies.{
  is_mainnet, is_approve_agent, effective_vault, value_or, seal_l1, with_options, embeds_nonce,
  embed_nonce, prepare_body, prepare_body_for_type,
}
use hyperliquid_sdk_cpp.Signing.Bodies.Envelope.{IsSigned, seal_l1_lem}
use hyperliquid_sdk_cpp.Signing.Bodies.Complete.{IsReadable, is_ok, ok_of}

-- The wallet's key signs every hash.
abbrev pub IsUsable : Crypto → Wallet → Type 0
IsUsable C wallet = (hash : List ℕ) → is_ok (ecdsa_sign C wallet hash) ≡ true

module _ (C : Crypto) (J : JsonLib) where
  open J use {Json, Object, object, members}

  sign_l1_action-ok :
      (wallet : Wallet) (action : Json) (vault : Option String) (nonce : ℕ) (expires : Option ℕ)
      (main : Bool)
      → IsUsable C wallet
      → IsReadable vault
      → is_ok (sign_l1_action C J wallet action vault nonce expires main) ≡ true
  unfolding sign_l1_action action_hash action_data
  sign_l1_action-ok wallet action none nonce expires main usable _ = usable _
  sign_l1_action-ok wallet action (some vault) nonce expires main usable (bytes, e) =
      rw e (usable _)

  module _ (L : IsLawful J) where
    embed_nonce-ok :
        (type : RestEndpointType) (nonce : ℕ) (action : Object)
        → is_ok (embed_nonce C J type nonce (object action)) ≡ true
    unfolding embed_nonce
    embed_nonce-ok type nonce action = elim (Bool-cases (embeds_nonce type)) [
      | inl e ↦ rw (e, L.as_object-object) refl
      | inr e ↦ rw e refl
    ]

    seal_l1-ok :
        (config : ApiConfig) (wallet : Wallet) (type : RestEndpointType) (vault : Option String)
        (expires : Option ℕ) (action body : Object) (nonce : ℕ)
        → IsUsable C wallet
        → IsReadable vault
        → lookup "action" (members body) ≡ some (object action)
        → is_ok (seal_l1 C J config wallet type vault expires body nonce) ≡ true
    unfolding seal_l1
    seal_l1-ok config wallet type vault expires action body nonce usable readable a =
        let (embedded, e) = ok_of _ (embed_nonce-ok type nonce action) in
        let (signature, s) = ok_of _ (
          sign_l1_action-ok wallet embedded vault nonce expires (is_mainnet config.env) usable
            readable) in
        rw (a, e, s) refl

    -- What stands in a numbered body.
    module _ (body action : Object) (vault : Option String) (expires : Option ℕ) (nonce : ℕ)
        (body_is : members body ≡ ("action", object action) ∷ []) where
      abbrev numbered : Object
      numbered = J.assign "nonce" (unsigned J nonce) (with_options C J vault expires body)

      numbered_reads :
          (key : String)
          → lookup key (members numbered)
            ≡ or_else (if str_eq "nonce" key then some (unsigned J nonce) else none) (
                or_else
                  (if str_eq "expiresAfter" key then Option.map (unsigned J) expires else none)
                  (or_else
                    (if str_eq "vaultAddress" key then Option.map J.string vault else none)
                    (if str_eq "action" key then some (object action) else none)))
      unfolding with_options lookup
      numbered_reads key = simp (lookup-assign J L, lookup-assign_some J L, body_is)

    module _ (config : ApiConfig) (wallet : Wallet) (type : RestEndpointType) (body action : Object)
        (expires : Option ℕ) (last now : ℕ) (configured : config.wallet ≡ some wallet)
        (usable : IsUsable C wallet) (body_is : members body ≡ ("action", object action) ∷ []) where
      prepare_body_lem :
          (vault : Option String)
          → is_authenticated type ≡ true
          → is_user_signed_action type ≡ false
          → IsReadable vault
          → (out : Object) × (prepare_body C J now config type body vault expires last
              ≡ (ok out, next_value now last))
            × IsSigned C J wallet config.env type
                (object action)
                (next_value now last)
                vault
                expires
                out
      unfolding prepare_body lookup
      prepare_body_lem vault authenticated not_user readable =
          let nonce = next_value now last in
          let reads = numbered_reads body action vault expires nonce body_is in
          let sent = numbered body action vault expires nonce body_is in
          let step : prepare_body C J now config type body vault expires last
              ≡ (seal_l1 C J config wallet type vault expires sent nonce, nonce) =
            rw (authenticated, not_user, configured) refl in
          let (out, e) = ok_of _ (
            seal_l1-ok config wallet type vault expires action sent nonce usable readable
              (reads "action")) in
          (
            out,
            step ∙ ap (λ r. (r, nonce)) e,
            rw (sym (ap (value_or J.null) (reads "action"))) (
                seal_l1_lem C J L config wallet type vault expires nonce sent out (reads "nonce")
                  (reads "vaultAddress" ∙ or_else-none _) (reads "expiresAfter" ∙ or_else-none _)
                  e),
          )

      -- An authenticated request that is not user-signed, whose body has one member "action", an
      -- object, is signed if the wallet's key signs every hash and the vault's address, the one
      -- given or the configured one, is hexadecimal. The next nonce is consumed. The body's members
      -- are then the action, which has the nonce in it where the endpoint embeds it, the vault, the
      -- expiry, the nonce, and a signature, and the signature is the one of just these.
      pub prepare_body_for_type-IsSigned :
          (vault : Option String)
          → is_authenticated type ≡ true
          → is_approve_agent type ≡ false
          → is_user_signed_action type ≡ false
          → IsReadable (effective_vault config type vault)
          → (out : Object) × (prepare_body_for_type C J now config type body vault expires last
              ≡ (ok out, next_value now last))
            × IsSigned C J wallet config.env type
                (object action)
                (next_value now last)
                (effective_vault config type vault)
                expires
                out
      unfolding prepare_body_for_type
      prepare_body_for_type-IsSigned vault authenticated not_agent not_user readable =
          let through : prepare_body_for_type C J now config type body vault expires last
              ≡ prepare_body C J now config type body (effective_vault config type vault) expires
                  last =
            rw (not_agent, not_user) refl in
          let (out, e, signed) =
            prepare_body_lem (effective_vault config type vault) authenticated not_user readable in
          (out, through ∙ e, signed)
