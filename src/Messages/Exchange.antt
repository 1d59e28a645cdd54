-- ===== src/Messages/Exchange.antt =====
-- src/rest/RestApi.cpp: the exchange methods, each with the endpoint that it passes to
-- `signAndSendSync` and the builder that makes its body. A request of one or two fields is passed
-- as its fields.
pub mod Orders
pub mod Account
pub mod Transfers
pub mod Deploy
pub mod Shape
use hyperliquid_sdk_cpp.Common.{ℕ, ℤ, String, Bool, List, Option, Result}
use hyperliquid_sdk_cpp.Json.{JsonLib}
use hyperliquid_sdk_cpp.Doubles.{Doubles}
use hyperliquid_sdk_cpp.Rest.SymbolMap.{SymbolMap}
use hyperliquid_sdk_cpp.Types.Endpoint.{RestEndpointType}
use hyperliquid_sdk_cpp.Types.Orders.{
  OrderRequest, Grouping, Builder, CancelRequest, CancelByCloidRequest, ModifyRequest,
  UpdateLeverageRequest, UpdateIsolatedMarginRequest, UserAbstractionMode, TwapOrderRequest,
  TwapCancelRequest, VaultTransferRequest, SubAccountTransferRequest, CreateVaultRequest,
  BorrowLendRequest, SendAssetRequest, SpotSendRequest, AbstractionMode, SendToEvmWithDataRequest,
  AgentSendAssetRequest,
}
use Deploy.{
  SpotDeployTokenSpec, SpotDeployUserGenesisRequest, SpotDeployRegisterHyperliquidityRequest,
  PerpDeployRegisterAsset2Request,
}

pub data ExchangeRequest (Double : Type 0) : Type 0 where
  place_order : List (OrderRequest Double) → Grouping → Option Builder → ExchangeRequest Double
  cancel_order : List CancelRequest → ExchangeRequest Double
  cancel_order_by_cloid : List CancelByCloidRequest → ExchangeRequest Double
  schedule_cancel : Option ℕ → ExchangeRequest Double
  modify_order : ModifyRequest Double → ExchangeRequest Double
  batch_modify_order : List (ModifyRequest Double) → ExchangeRequest Double
  update_leverage : UpdateLeverageRequest → ExchangeRequest Double
  update_isolated_margin : UpdateIsolatedMarginRequest → ExchangeRequest Double
  approve_agent : String → Option String → ExchangeRequest Double
  agent_set_abstraction : UserAbstractionMode → ExchangeRequest Double
  twap_order : TwapOrderRequest Double → ExchangeRequest Double
  twap_cancel : TwapCancelRequest → ExchangeRequest Double
  vault_transfer : VaultTransferRequest Double → ExchangeRequest Double
  hip3_liquidator_transfer : String → ℕ → Bool → ExchangeRequest Double
  create_sub_account : String → ExchangeRequest Double
  sub_account_transfer : SubAccountTransferRequest Double → ExchangeRequest Double
  create_vault : CreateVaultRequest Double → ExchangeRequest Double
  borrow_lend : BorrowLendRequest Double → ExchangeRequest Double
  spot_deploy_register_token2 : SpotDeployTokenSpec → ℕ → Option String → ExchangeRequest Double
  spot_deploy_user_genesis : SpotDeployUserGenesisRequest Double → ExchangeRequest Double
  spot_deploy_genesis : ℤ → Double → Option Bool → ExchangeRequest Double
  spot_deploy_register_spot : ℤ → ℤ → ExchangeRequest Double
  spot_deploy_register_hyperliquidity :
      SpotDeployRegisterHyperliquidityRequest Double → ExchangeRequest Double
  perp_deploy_register_asset2 : PerpDeployRegisterAsset2Request Double → ExchangeRequest Double
  usd_class_transfer : Double → Bool → ExchangeRequest Double
  send_asset : SendAssetRequest Double → ExchangeRequest Double
  usd_send : String → Double → ExchangeRequest Double
  spot_send : SpotSendRequest Double → ExchangeRequest Double
  withdraw3 : String → Double → ExchangeRequest Double
  approve_builder_fee : String → String → ExchangeRequest Double
  user_set_abstraction : String → AbstractionMode → ExchangeRequest Double
  set_referrer : String → ExchangeRequest Double
  c_deposit : ℕ → ExchangeRequest Double
  c_withdraw : ℕ → ExchangeRequest Double
  token_delegate : String → ℕ → Bool → ExchangeRequest Double
  send_to_evm_with_data : SendToEvmWithDataRequest → ExchangeRequest Double
  user_dex_abstraction : String → Bool → ExchangeRequest Double
  user_portfolio_margin : String → Bool → ExchangeRequest Double
  agent_send_asset : AgentSendAssetRequest → ExchangeRequest Double
  reserve_request_weight : ℤ → Option String → ExchangeRequest Double
  noop : ExchangeRequest Double

unfoldable pub endpoint_of : {Double : Type 0} → ExchangeRequest Double → RestEndpointType
endpoint_of (place_order a b c) = RestEndpointType.place_order
endpoint_of (cancel_order a) = RestEndpointType.cancel_order
endpoint_of (cancel_order_by_cloid a) = RestEndpointType.cancel_order_by_cloid
endpoint_of (schedule_cancel a) = RestEndpointType.schedule_cancel
endpoint_of (modify_order a) = RestEndpointType.modify_order
endpoint_of (batch_modify_order a) = RestEndpointType.batch_modify_order
endpoint_of (update_leverage a) = RestEndpointType.update_leverage
endpoint_of (update_isolated_margin a) = RestEndpointType.update_isolated_margin
endpoint_of (approve_agent a b) = RestEndpointType.approve_agent
endpoint_of (agent_set_abstraction a) = RestEndpointType.agent_set_abstraction
endpoint_of (twap_order a) = RestEndpointType.twap_order
endpoint_of (twap_cancel a) = RestEndpointType.twap_cancel
endpoint_of (vault_transfer a) = RestEndpointType.vault_transfer
endpoint_of (hip3_liquidator_transfer a b c) = RestEndpointType.hip3_liquidator_transfer
endpoint_of (create_sub_account a) = RestEndpointType.create_sub_account
endpoint_of (sub_account_transfer a) = RestEndpointType.sub_account_transfer
endpoint_of (create_vault a) = RestEndpointType.create_vault
endpoint_of (borrow_lend a) = RestEndpointType.borrow_lend
endpoint_of (spot_deploy_register_token2 a b c) = RestEndpointType.spot_deploy_register_token2
endpoint_of (spot_deploy_user_genesis a) = RestEndpointType.spot_deploy_user_genesis
endpoint_of (spot_deploy_genesis a b c) = RestEndpointType.spot_deploy_genesis
endpoint_of (spot_deploy_register_spot a b) = RestEndpointType.spot_deploy_register_spot
endpoint_of (spot_deploy_register_hyperliquidity a) =
    RestEndpointType.spot_deploy_register_hyperliquidity
endpoint_of (perp_deploy_register_asset2 a) = RestEndpointType.perp_deploy_register_asset2
endpoint_of (usd_class_transfer a b) = RestEndpointType.usd_class_transfer
endpoint_of (send_asset a) = RestEndpointType.send_asset
endpoint_of (usd_send a b) = RestEndpointType.usd_send
endpoint_of (spot_send a) = RestEndpointType.spot_send
endpoint_of (withdraw3 a b) = RestEndpointType.withdraw3
endpoint_of (approve_builder_fee a b) = RestEndpointType.approve_builder_fee
endpoint_of (user_set_abstraction a b) = RestEndpointType.user_set_abstraction
endpoint_of (set_referrer a) = RestEndpointType.set_referrer
endpoint_of (c_deposit a) = RestEndpointType.c_deposit
endpoint_of (c_withdraw a) = RestEndpointType.c_withdraw
endpoint_of (token_delegate a b c) = RestEndpointType.token_delegate
endpoint_of (send_to_evm_with_data a) = RestEndpointType.send_to_evm_with_data
endpoint_of (user_dex_abstraction a b) = RestEndpointType.user_dex_abstraction
endpoint_of (user_portfolio_margin a b) = RestEndpointType.user_portfolio_margin
endpoint_of (agent_send_asset a) = RestEndpointType.agent_send_asset
endpoint_of (reserve_request_weight a b) = RestEndpointType.reserve_request_weight
endpoint_of noop = RestEndpointType.noop

unfoldable pub build :
    (J : JsonLib) (D : Doubles) → SymbolMap → ExchangeRequest D.Double → Result J.Object
unfolding Orders.place_order Orders.cancel_order Orders.cancel_order_by_cloid Orders.schedule_cancel
    Orders.modify_order Orders.batch_modify_order Orders.update_leverage
    Orders.update_isolated_margin Account.approve_agent Account.agent_set_abstraction
    Orders.twap_order Orders.twap_cancel Account.vault_transfer Account.hip3_liquidator_transfer
    Account.create_sub_account Account.sub_account_transfer Account.create_vault
    Transfers.borrow_lend Deploy.spot_deploy_register_token2 Deploy.spot_deploy_user_genesis
    Deploy.spot_deploy_genesis Deploy.spot_deploy_register_spot
    Deploy.spot_deploy_register_hyperliquidity Deploy.perp_deploy_register_asset2
    Transfers.usd_class_transfer Transfers.send_asset Transfers.usd_send Transfers.spot_send
    Transfers.withdraw3 Account.approve_builder_fee Account.user_set_abstraction
    Account.set_referrer Account.c_deposit Account.c_withdraw Account.token_delegate
    Transfers.send_to_evm_with_data Account.user_dex_abstraction Account.user_portfolio_margin
    Transfers.agent_send_asset Account.reserve_request_weight Account.noop
build J D symbols (place_order a b c) = Orders.place_order J D symbols a b c
build J D symbols (cancel_order a) = Orders.cancel_order J symbols a
build J D symbols (cancel_order_by_cloid a) = Orders.cancel_order_by_cloid J symbols a
build J D symbols (schedule_cancel a) = Orders.schedule_cancel J symbols a
build J D symbols (modify_order a) = Orders.modify_order J D symbols a
build J D symbols (batch_modify_order a) = Orders.batch_modify_order J D symbols a
build J D symbols (update_leverage a) = Orders.update_leverage J symbols a
build J D symbols (update_isolated_margin a) = Orders.update_isolated_margin J symbols a
build J D symbols (approve_agent a b) = Account.approve_agent J a b
build J D symbols (agent_set_abstraction a) = Account.agent_set_abstraction J a
build J D symbols (twap_order a) = Orders.twap_order J D symbols a
build J D symbols (twap_cancel a) = Orders.twap_cancel J symbols a
build J D symbols (vault_transfer a) = Account.vault_transfer J D a
build J D symbols (hip3_liquidator_transfer a b c) = Account.hip3_liquidator_transfer J a b c
build J D symbols (create_sub_account a) = Account.create_sub_account J a
build J D symbols (sub_account_transfer a) = Account.sub_account_transfer J D a
build J D symbols (create_vault a) = Account.create_vault J D a
build J D symbols (borrow_lend a) = Transfers.borrow_lend J D a
build J D symbols (spot_deploy_register_token2 a b c) = Deploy.spot_deploy_register_token2 J a b c
build J D symbols (spot_deploy_user_genesis a) = Deploy.spot_deploy_user_genesis J D a
build J D symbols (spot_deploy_genesis a b c) = Deploy.spot_deploy_genesis J D a b c
build J D symbols (spot_deploy_register_spot a b) = Deploy.spot_deploy_register_spot J a b
build J D symbols (spot_deploy_register_hyperliquidity a) =
    Deploy.spot_deploy_register_hyperliquidity J D a
build J D symbols (perp_deploy_register_asset2 a) = Deploy.perp_deploy_register_asset2 J D a
build J D symbols (usd_class_transfer a b) = Transfers.usd_class_transfer J D a b
build J D symbols (send_asset a) = Transfers.send_asset J D a
build J D symbols (usd_send a b) = Transfers.usd_send J D a b
build J D symbols (spot_send a) = Transfers.spot_send J D a
build J D symbols (withdraw3 a b) = Transfers.withdraw3 J D a b
build J D symbols (approve_builder_fee a b) = Account.approve_builder_fee J a b
build J D symbols (user_set_abstraction a b) = Account.user_set_abstraction J a b
build J D symbols (set_referrer a) = Account.set_referrer J a
build J D symbols (c_deposit a) = Account.c_deposit J a
build J D symbols (c_withdraw a) = Account.c_withdraw J a
build J D symbols (token_delegate a b c) = Account.token_delegate J a b c
build J D symbols (send_to_evm_with_data a) = Transfers.send_to_evm_with_data J a
build J D symbols (user_dex_abstraction a b) = Account.user_dex_abstraction J a b
build J D symbols (user_portfolio_margin a b) = Account.user_portfolio_margin J a b
build J D symbols (agent_send_asset a) = Transfers.agent_send_asset J a
build J D symbols (reserve_request_weight a b) = Account.reserve_request_weight J a b
build J D symbols noop = Account.noop J
