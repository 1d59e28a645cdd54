-- ===== src/Messages/Exchange/Deploy.antt =====
-- src/messages/ExchangeRequestBuilder.cpp: deployments of spot tokens and of perps.
use mathlib.Core.Option
use hyperliquid_sdk_cpp.Common.{
  ℕ, ℤ, String, Bool, List, [], ◌∷◌, map, Option, none, some, Result, ok, ◌>>=◌,
}
use hyperliquid_sdk_cpp.Json.{JsonLib}
use hyperliquid_sdk_cpp.Doubles.{Doubles}
use hyperliquid_sdk_cpp.Messages.Wire.{◌▷◌, map_ok, float_to_wire, unsigned, assign_some, body_of}
use hyperliquid_sdk_cpp.Types.Orders.{PerpMarginMode, perp_margin_mode_to_string}

pub record SpotDeployTokenSpec : Type 0 where
  pub name : String
  pub sz_decimals : ℤ
  pub wei_decimals : ℤ

pub record PerpDeploySchema : Type 0 where
  pub full_name : String
  pub collateral_token : ℕ
  pub oracle_updater : Option String

module _ (Double : Type 0) where
  pub record SpotDeployUserGenesisRequest : Type 0 where
    pub token : ℤ
    pub user_and_wei : List (String × Double)
    pub existing_token_and_wei : List (ℤ × Double)
    pub blacklist_users : Option (List (String × Bool))

  pub record SpotDeployRegisterHyperliquidityRequest : Type 0 where
    pub spot : ℤ
    pub start_px : Double
    pub order_sz : Double
    pub n_orders : ℤ
    pub n_seeded_levels : Option ℤ

  pub record PerpDeployAssetRequest : Type 0 where
    pub coin : String
    pub sz_decimals : ℕ
    pub oracle_px : Double
    pub margin_table_id : ℕ
    pub margin_mode : PerpMarginMode

  pub record PerpDeployRegisterAsset2Request : Type 0 where
    pub max_gas : Option ℕ
    pub asset_request : PerpDeployAssetRequest
    pub dex : String
    pub schema : Option PerpDeploySchema

module _ (J : JsonLib) where
  open J use {Json, Object, null, string, boolean, number, array, object, empty, assign}

  -- The action around the one nested object that says which deployment it is.
  abbrev deploy : String → String → Object → Object
  deploy tag key inner = body_of J (empty ▷ assign "type" (string tag) ▷ assign key (object inner))

  unfoldable pub spot_deploy_register_token2 :
      SpotDeployTokenSpec → ℕ → Option String → Result Object
  spot_deploy_register_token2 spec max_gas full_name =
      let spec_json =
        empty
        ▷ assign "name" (string spec.name)
        ▷ assign "szDecimals" (number spec.sz_decimals)
        ▷ assign "weiDecimals" (number spec.wei_decimals) in
      ok (
        deploy "spotDeploy" "registerToken2" (
          empty
          ▷ assign "spec" (object spec_json)
          ▷ assign "maxGas" (unsigned J max_gas)
          ▷ assign_some J "fullName" (Option.map string full_name)))

  unfoldable pub spot_deploy_register_spot : ℤ → ℤ → Result Object
  spot_deploy_register_spot base_token quote_token = ok (
      deploy "spotDeploy" "registerSpot"
        (empty ▷ assign "tokens" (array (number base_token ∷ number quote_token ∷ []))))

  blacklist_entry : String × Bool → Json
  blacklist_entry (address, blocked) = array (string address ∷ boolean blocked ∷ [])

  or_null : Option Json → Json
  or_null none = null
  or_null (some v) = v

  schema_json : PerpDeploySchema → Json
  unfolding or_null
  schema_json schema = object (
      empty
      ▷ assign "fullName" (string schema.full_name)
      ▷ assign "collateralToken" (unsigned J schema.collateral_token)
      ▷ assign "oracleUpdater" (or_null (Option.map string schema.oracle_updater)))

module _ (J : JsonLib) (D : Doubles) where
  open J use {Json, Object, string, boolean, number, array, object, empty, assign}
  open D use {Double}

  pub user_wei : String × Double → Result Json
  user_wei (address, wei) = do
    amount ← float_to_wire D wei
    ok (array (string address ∷ string amount ∷ []))

  pub token_wei : ℤ × Double → Result Json
  token_wei (token, wei) = do
    amount ← float_to_wire D wei
    ok (array (number token ∷ string amount ∷ []))

  blacklist : List (String × Bool) → Json
  unfolding blacklist_entry
  blacklist users = array (map (blacklist_entry J) users)

  unfoldable pub spot_deploy_user_genesis : SpotDeployUserGenesisRequest Double → Result Object
  unfolding user_wei token_wei blacklist
  spot_deploy_user_genesis request = do
    users ← map_ok user_wei request.user_and_wei
    tokens ← map_ok token_wei request.existing_token_and_wei
    ok (
        deploy J "spotDeploy" "userGenesis" (
          empty
          ▷ assign "token" (number request.token)
          ▷ assign "userAndWei" (array users)
          ▷ assign "existingTokenAndWei" (array tokens)
          ▷ assign_some J "blacklistUsers" (Option.map blacklist request.blacklist_users)))

  unfoldable pub spot_deploy_genesis : ℤ → Double → Option Bool → Result Object
  spot_deploy_genesis token max_supply no_hyperliquidity = do
    supply ← float_to_wire D max_supply
    ok (
        deploy J "spotDeploy" "genesis" (
          empty
          ▷ assign "token" (number token)
          ▷ assign "maxSupply" (string supply)
          ▷ assign_some J "noHyperliquidity" (Option.map boolean no_hyperliquidity)))

  unfoldable pub spot_deploy_register_hyperliquidity :
      SpotDeployRegisterHyperliquidityRequest Double → Result Object
  spot_deploy_register_hyperliquidity request = do
    start_px ← float_to_wire D request.start_px
    order_sz ← float_to_wire D request.order_sz
    ok (
        deploy J "spotDeploy" "registerHyperliquidity" (
          empty
          ▷ assign "spot" (number request.spot)
          ▷ assign "startPx" (string start_px)
          ▷ assign "orderSz" (string order_sz)
          ▷ assign "nOrders" (number request.n_orders)
          ▷ assign_some J "nSeededLevels" (Option.map number request.n_seeded_levels)))

  unfoldable pub perp_deploy_register_asset2 :
      PerpDeployRegisterAsset2Request Double → Result Object
  unfolding schema_json or_null
  perp_deploy_register_asset2 request = do
    oracle_px ← float_to_wire D request.asset_request.oracle_px
    let asset_request =
        empty
        ▷ assign "coin" (string request.asset_request.coin)
        ▷ assign "szDecimals" (unsigned J request.asset_request.sz_decimals)
        ▷ assign "oraclePx" (string oracle_px)
        ▷ assign "marginTableId" (unsigned J request.asset_request.margin_table_id)
        ▷ assign "marginMode"
            (string (perp_margin_mode_to_string request.asset_request.margin_mode))
    ok (
        deploy J "perpDeploy" "registerAsset2" (
          empty
          ▷ assign "maxGas" (or_null J (Option.map (unsigned J) request.max_gas))
          ▷ assign "assetRequest" (object asset_request)
          ▷ assign "dex" (string request.dex)
          ▷ assign "schema" (or_null J (Option.map (schema_json J) request.schema))))
