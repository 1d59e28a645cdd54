-- ===== src/Messages/Exchange/Shape.antt =====
-- The shape of every exchange body.
use text.Mathlib.Text.{◌==◌ as str_eq}
use hyperliquid_sdk_cpp.Common.{
  ℕ, String, false, List, [], ◌∷◌, ◌≡◌, refl, Option, none, some, Result, ok, err, ◌>>=◌,
}
use hyperliquid_sdk_cpp.Json.{JsonLib, IsLawful, insert}
use hyperliquid_sdk_cpp.Doubles.{Doubles}
use hyperliquid_sdk_cpp.Rest.SymbolMap.{SymbolMap}
use hyperliquid_sdk_cpp.Types.Endpoint.{to_string}
use hyperliquid_sdk_cpp.Types.Orders.{ModifyRequest}
use hyperliquid_sdk_cpp.Messages.Wire.{
  map_ok, float_to_wire, resolve_asset, assign_some, body_of, set_modify_oid, build_order_wire,
  build_modify,
}
use hyperliquid_sdk_cpp.Messages.Exchange.Orders.{
  order_json, cancel_wire, cancel_by_cloid_wire, modify_json,
}
use hyperliquid_sdk_cpp.Messages.Exchange.Transfers.{optional_amount}
use hyperliquid_sdk_cpp.Messages.Exchange.Deploy.{user_wei, token_wei}
use hyperliquid_sdk_cpp.Messages.Exchange.{
  ExchangeRequest, place_order, cancel_order, cancel_order_by_cloid, schedule_cancel, modify_order,
  batch_modify_order, update_leverage, update_isolated_margin, approve_agent, agent_set_abstraction,
  twap_order, twap_cancel, vault_transfer, hip3_liquidator_transfer, create_sub_account,
  sub_account_transfer, create_vault, borrow_lend, spot_deploy_register_token2,
  spot_deploy_user_genesis, spot_deploy_genesis, spot_deploy_register_spot,
  spot_deploy_register_hyperliquidity, perp_deploy_register_asset2, usd_class_transfer, send_asset,
  usd_send, spot_send, withdraw3, approve_builder_fee, user_set_abstraction, set_referrer,
  c_deposit, c_withdraw, token_delegate, send_to_evm_with_data, user_dex_abstraction,
  user_portfolio_margin, agent_send_asset, reserve_request_weight, noop, endpoint_of, build,
}

-- What holds of the value, if there is one.
abbrev pub Ensures {ℓ κ} : {A : Type ℓ} → (A → Type κ) → Result A → Type κ
Ensures P (ok a) = P a
Ensures P (err e) = Unit

pub Ensures-bind {ℓ κ μ} :
    {A : Type ℓ} {B : Type κ} (P : B → Type μ) (m : Result A) (f : A → Result B)
    → ((a : A) → Ensures P (f a))
    → Ensures P (m >>= f)
Ensures-bind P (ok a) f h = h a
Ensures-bind P (err e) f h = tt

module _ (J : JsonLib) (L : IsLawful J) where
  open J use {Json, Object, string, object, empty, assign, members}

  -- Its first member is the type.
  pub record IsTagged (tag : String) (action : Object) : Type 0 where
    pub later : List (String × Json)
    pub first : members action ≡ ("type", string tag) ∷ later

  -- Its one member is such an action.
  pub record IsBodyOf (tag : String) (body : Object) : Type 0 where
    pub action : Object
    pub alone : members body ≡ ("action", object action) ∷ []
    pub tagged : IsTagged tag action

  pub start-IsTagged : (tag : String) → IsTagged tag (assign "type" (string tag) empty)
  unfolding insert
  start-IsTagged tag = record { later = []; first = simp (L.members-assign, L.members-empty) }

  pub assign-IsTagged :
      (tag k : String) (v : Json) (o : Object)
      → str_eq "type" k ≡ false
      → IsTagged tag o
      → IsTagged tag (assign k v o)
  unfolding insert
  assign-IsTagged tag k v o e t = record {
    later = insert k v t.later;
    first = rw (L.members-assign, t.first, insert, e) refl;
  }

  pub assign_some-IsTagged :
      (tag k : String) (v : Option Json) (o : Object)
      → str_eq "type" k ≡ false
      → IsTagged tag o
      → IsTagged tag (assign_some J k v o)
  assign_some-IsTagged tag k none o e t = t
  assign_some-IsTagged tag k (some v) o e t = assign-IsTagged tag k v o e t

  pub body_of-IsBodyOf :
      (tag : String) (action : Object) → IsTagged tag action → IsBodyOf tag (body_of J action)
  unfolding insert
  body_of-IsBodyOf tag action t = record {
    action = action;
    alone = simp (L.members-assign, L.members-empty);
    tagged = t;
  }

  pub ruleset tag_rules = (body_of-IsBodyOf, assign_some-IsTagged, assign-IsTagged, start-IsTagged)

  Ensures-then {ℓ} :
      {B : Type ℓ} {P : Object → Type 0} (Q : B → Type 0) (m : Result Object)
      (f : Object → Result B)
      → Ensures P m
      → ((a : Object) → P a → Ensures Q (f a))
      → Ensures Q (m >>= f)
  Ensures-then Q (ok a) f p h = h a p
  Ensures-then Q (err e) f p h = tt

  set_modify_oid-IsTagged :
      (tag : String) (oid : Option ℕ) (cloid : Option String) (o : Object)
      → IsTagged tag o
      → Ensures (IsTagged tag) (set_modify_oid J oid cloid o)
  unfolding set_modify_oid
  set_modify_oid-IsTagged tag (some oid) cloid o t = search tag_rules
  set_modify_oid-IsTagged tag none (some cloid) o t = search tag_rules
  set_modify_oid-IsTagged tag none none o t = tt

  build_modify-IsTagged :
      (D : Doubles) (symbols : SymbolMap) (modify : ModifyRequest D.Double) (tag : String)
      (o : Object)
      → IsTagged tag o
      → Ensures (IsTagged tag) (build_modify J D symbols modify o)
  unfolding build_modify
  build_modify-IsTagged D symbols modify tag o t =
      Ensures-then {P = IsTagged tag} (IsTagged tag) (set_modify_oid J modify.oid modify.cloid o) _
        (set_modify_oid-IsTagged tag modify.oid modify.cloid o t)
        (λ named u.
          Ensures-bind (IsTagged tag) (build_order_wire J D symbols modify.order) _
            (λ order. search tag_rules))

  module _ (D : Doubles) (symbols : SymbolMap) where
    -- Every body that a builder returns has one member, "action", and the action's first member is
    -- "type", with the string of the endpoint that the request is sent to.
    pub build-IsBodyOf :
        (request : ExchangeRequest D.Double)
        → Ensures (IsBodyOf (to_string (endpoint_of request))) (build J D symbols request)
    unfolding build endpoint_of to_string
    build-IsBodyOf (place_order a b c) =
        Ensures-bind (IsBodyOf _) (map_ok (order_json J D symbols) a) _
          (λ x0. search tag_rules depth 14)
    build-IsBodyOf (cancel_order a) =
        Ensures-bind (IsBodyOf _) (map_ok (cancel_wire J symbols) a) _
          (λ x0. search tag_rules depth 14)
    build-IsBodyOf (cancel_order_by_cloid a) =
        Ensures-bind (IsBodyOf _) (map_ok (cancel_by_cloid_wire J symbols) a) _
          (λ x0. search tag_rules depth 14)
    build-IsBodyOf (schedule_cancel a) = search tag_rules depth 14
    build-IsBodyOf (modify_order a) =
        Ensures-then {P = IsTagged "modify"} (IsBodyOf _)
          (build_modify J D symbols a (assign "type" (string "modify") empty)) _
          (build_modify-IsTagged D symbols a "modify" _ (start-IsTagged "modify"))
          (λ action. body_of-IsBodyOf "modify" action)
    build-IsBodyOf (batch_modify_order a) =
        Ensures-bind (IsBodyOf _) (map_ok (modify_json J D symbols) a) _
          (λ x0. search tag_rules depth 14)
    build-IsBodyOf (update_leverage a) =
        Ensures-bind (IsBodyOf _) (resolve_asset symbols a.asset_id a.asset) _
          (λ x0. search tag_rules depth 14)
    build-IsBodyOf (update_isolated_margin a) =
        Ensures-bind (IsBodyOf _) (resolve_asset symbols a.asset_id a.asset) _
          (λ x0. search tag_rules depth 14)
    build-IsBodyOf (approve_agent a b) = search tag_rules depth 14
    build-IsBodyOf (agent_set_abstraction a) = search tag_rules depth 14
    build-IsBodyOf (twap_order a) =
        Ensures-bind (IsBodyOf _) (resolve_asset symbols a.asset_id a.asset) _ (λ x0.
          Ensures-bind (IsBodyOf _) (float_to_wire D a.size) _ (λ x1. search tag_rules depth 14))
    build-IsBodyOf (twap_cancel a) =
        Ensures-bind (IsBodyOf _) (resolve_asset symbols a.asset_id a.asset) _
          (λ x0. search tag_rules depth 14)
    build-IsBodyOf (vault_transfer a) = search tag_rules depth 14
    build-IsBodyOf (hip3_liquidator_transfer a b c) = search tag_rules depth 14
    build-IsBodyOf (create_sub_account a) = search tag_rules depth 14
    build-IsBodyOf (sub_account_transfer a) = search tag_rules depth 14
    build-IsBodyOf (create_vault a) = search tag_rules depth 14
    build-IsBodyOf (borrow_lend a) =
        Ensures-bind (IsBodyOf _) (optional_amount J D a.amount) _ (λ x0. search tag_rules depth 14)
    build-IsBodyOf (spot_deploy_register_token2 a b c) = search tag_rules depth 14
    build-IsBodyOf (spot_deploy_user_genesis a) =
        Ensures-bind (IsBodyOf _) (map_ok (user_wei J D) a.user_and_wei) _ (λ x0.
          Ensures-bind (IsBodyOf _) (map_ok (token_wei J D) a.existing_token_and_wei) _
            (λ x1. search tag_rules depth 14))
    build-IsBodyOf (spot_deploy_genesis a b c) =
        Ensures-bind (IsBodyOf _) (float_to_wire D b) _ (λ x0. search tag_rules depth 14)
    build-IsBodyOf (spot_deploy_register_spot a b) = search tag_rules depth 14
    build-IsBodyOf (spot_deploy_register_hyperliquidity a) =
        Ensures-bind (IsBodyOf _) (float_to_wire D a.start_px) _ (λ x0.
          Ensures-bind (IsBodyOf _) (float_to_wire D a.order_sz) _
            (λ x1. search tag_rules depth 14))
    build-IsBodyOf (perp_deploy_register_asset2 a) =
        Ensures-bind (IsBodyOf _) (float_to_wire D a.asset_request.oracle_px) _
          (λ x0. search tag_rules depth 14)
    build-IsBodyOf (usd_class_transfer a b) =
        Ensures-bind (IsBodyOf _) (float_to_wire D a) _ (λ x0. search tag_rules depth 14)
    build-IsBodyOf (send_asset a) =
        Ensures-bind (IsBodyOf _) (float_to_wire D a.amount) _ (λ x0. search tag_rules depth 14)
    build-IsBodyOf (usd_send a b) =
        Ensures-bind (IsBodyOf _) (float_to_wire D b) _ (λ x0. search tag_rules depth 14)
    build-IsBodyOf (spot_send a) =
        Ensures-bind (IsBodyOf _) (float_to_wire D a.amount) _ (λ x0. search tag_rules depth 14)
    build-IsBodyOf (withdraw3 a b) =
        Ensures-bind (IsBodyOf _) (float_to_wire D b) _ (λ x0. search tag_rules depth 14)
    build-IsBodyOf (approve_builder_fee a b) = search tag_rules depth 14
    build-IsBodyOf (user_set_abstraction a b) = search tag_rules depth 14
    build-IsBodyOf (set_referrer a) = search tag_rules depth 14
    build-IsBodyOf (c_deposit a) = search tag_rules depth 14
    build-IsBodyOf (c_withdraw a) = search tag_rules depth 14
    build-IsBodyOf (token_delegate a b c) = search tag_rules depth 14
    build-IsBodyOf (send_to_evm_with_data a) = search tag_rules depth 14
    build-IsBodyOf (user_dex_abstraction a b) = search tag_rules depth 14
    build-IsBodyOf (user_portfolio_margin a b) = search tag_rules depth 14
    build-IsBodyOf (agent_send_asset a) = search tag_rules depth 14
    build-IsBodyOf (reserve_request_weight a b) = search tag_rules depth 14
    build-IsBodyOf noop = search tag_rules depth 14
