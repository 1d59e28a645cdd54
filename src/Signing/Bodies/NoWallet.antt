-- ===== src/Signing/Bodies/NoWallet.antt =====
-- What the bodies' functions do to `lastNonce`.
use hyperliquid_sdk_cpp.Common.{
  ℕ, String, true, ◌≡◌, refl, Option, none, Result, Error, ok, err, Bool-cases, inl, inr,
}
use hyperliquid_sdk_cpp.Config.{ApiConfig}
use hyperliquid_sdk_cpp.Json.{JsonLib}
use hyperliquid_sdk_cpp.Types.Endpoint.{RestEndpointType, is_authenticated, is_user_signed_action}
use hyperliquid_sdk_cpp.Signing.Eip712.{Crypto}
use hyperliquid_sdk_cpp.Signing.Bodies.{
  is_approve_agent, at_or_throw, agent_of, first_try, prepare_approve_agent_body,
  prepare_user_signed_action_body, prepare_body_for_type,
}

module _ (C : Crypto) (J : JsonLib) (now : ℕ) where
  open J use {Json, Object}

  -- It throws, and `lastNonce` stands as it was.
  abbrev pub Throws : ℕ → Result Object × ℕ → Type 0
  Throws last r = (e : Error) × (r ≡ (err e, last))

  first_try-Throws :
      {A : Type 0} (m : Result A) (last : ℕ) (f : A → Result Object × ℕ)
      → ((a : A) → Throws last (f a))
      → Throws last (first_try m last f)
  first_try-Throws (ok a) last f h = h a
  first_try-Throws (err e) last f h = (e, refl)

  module _ (config : ApiConfig) (last : ℕ) (unconfigured : config.wallet ≡ none) where
    prepare_approve_agent_body-Throws :
        (address : String) (name : Option String)
        → Throws last (prepare_approve_agent_body C J now config address name last)
    unfolding prepare_approve_agent_body
    prepare_approve_agent_body-Throws address name = rw unconfigured (_, refl)

    prepare_user_signed_action_body-Throws :
        (type : RestEndpointType) (action : Json)
        → Throws last (prepare_user_signed_action_body C J now config type action last)
    unfolding prepare_user_signed_action_body
    prepare_user_signed_action_body-Throws type action = rw unconfigured (_, refl)

    -- Without a wallet an authenticated request throws, whatever its body, and consumes no nonce.
    pub prepare_body_for_type-Throws :
        (type : RestEndpointType) (body : Object) (vault : Option String) (expires : Option ℕ)
        → is_authenticated type ≡ true
        → Throws last (prepare_body_for_type C J now config type body vault expires last)
    unfolding prepare_body_for_type
    prepare_body_for_type-Throws type body vault expires h =
        elim (Bool-cases (is_approve_agent type)) [
          | inl a ↦ rw a (
              first_try-Throws (agent_of C J body) last _
                (λ (address, name). prepare_approve_agent_body-Throws address name))
          | inr a ↦ elim (Bool-cases (is_user_signed_action type)) [
            | inl u ↦
                rw (a, u)
                  (first_try-Throws (at_or_throw C J "action" body) last _
                    (prepare_user_signed_action_body-Throws type))
            | inr u ↦ rw (a, u, h, unconfigured) (_, refl)
          ]
        ]
