-- ===== src/Websocket/Api/ExchangeCalls.antt =====
-- src/websocket/WebsocketApi.cpp: the exchange methods, each with the endpoint, the builder and the
-- vault that it passes to `signAndSend`. A method without a parameter `vaultAddress` passes none.
use hyperliquid_sdk_cpp.Common.{String, Option, none, Result}
use hyperliquid_sdk_cpp.Json.{JsonLib}
use hyperliquid_sdk_cpp.Doubles.{Doubles}
use hyperliquid_sdk_cpp.Rest.SymbolMap.{SymbolMap}
use hyperliquid_sdk_cpp.Types.Endpoint.{RestEndpointType}
use hyperliquid_sdk_cpp.Messages.Exchange.{
  ExchangeRequest, place_order, cancel_order, cancel_order_by_cloid, schedule_cancel, modify_order,
  batch_modify_order, update_leverage, update_isolated_margin, approve_agent, agent_set_abstraction,
  twap_order, twap_cancel, vault_transfer, hip3_liquidator_transfer, create_sub_account,
  sub_account_transfer, create_vault, borrow_lend, spot_deploy_register_token2,
  spot_deploy_user_genesis, spot_deploy_genesis, spot_deploy_register_spot,
  spot_deploy_register_hyperliquidity, perp_deploy_register_asset2, usd_class_transfer, send_asset,
  usd_send, spot_send, withdraw3, approve_builder_fee, user_set_abstraction, set_referrer,
  c_deposit, c_withdraw, token_delegate, send_to_evm_with_data, user_dex_abstraction,
  user_portfolio_margin, agent_send_asset, reserve_request_weight, noop,
}
use hyperliquid_sdk_cpp.Messages.Exchange.Orders
use hyperliquid_sdk_cpp.Messages.Exchange.Account
use hyperliquid_sdk_cpp.Messages.Exchange.Transfers
use hyperliquid_sdk_cpp.Messages.Exchange.Deploy

unfoldable pub exchange_call :
    (J : JsonLib) (D : Doubles)
    → SymbolMap
    → Option String
    → ExchangeRequest D.Double
    → RestEndpointType × Result J.Object × Option String
unfolding Orders.place_order Orders.cancel_order Orders.cancel_order_by_cloid Orders.schedule_cancel
    Orders.modify_order Orders.batch_modify_order Orders.update_leverage
    Orders.update_isolated_margin Account.approve_agent Account.agent_set_abstraction
    Orders.twap_order Orders.twap_cancel Account.vault_transfer Account.hip3_liquidator_transfer
    Account.create_sub_account Account.sub_account_transfer Account.create_vault
    Transfers.borrow_lend Deploy.spot_deploy_register_token2 Deploy.spot_deploy_user_genesis
    Deploy.spot_deploy_genesis Deploy.spot_deploy_register_spot
    Deploy.spot_deploy_register_hyperliquidity Deploy.perp_deploy_register_asset2
    Transfers.usd_class_transfer Transfers.send_asset Transfers.usd_send Transfers.spot_send
    Transfers.withdraw3 Account.approve_builder_fee Account.user_set_abstraction
    Account.set_referrer Account.c_deposit Account.c_withdraw Account.token_delegate
    Transfers.send_to_evm_with_data Account.user_dex_abstraction Account.user_portfolio_margin
    Transfers.agent_send_asset Account.reserve_request_weight Account.noop
exchange_call J D symbols vault (place_order a b c) =
    (RestEndpointType.place_order, Orders.place_order J D symbols a b c, vault)
exchange_call J D symbols vault (cancel_order a) =
    (RestEndpointType.cancel_order, Orders.cancel_order J symbols a, vault)
exchange_call J D symbols vault (cancel_order_by_cloid a) =
    (RestEndpointType.cancel_order_by_cloid, Orders.cancel_order_by_cloid J symbols a, vault)
exchange_call J D symbols vault (schedule_cancel a) =
    (RestEndpointType.schedule_cancel, Orders.schedule_cancel J symbols a, vault)
exchange_call J D symbols vault (modify_order a) =
    (RestEndpointType.modify_order, Orders.modify_order J D symbols a, vault)
exchange_call J D symbols vault (batch_modify_order a) =
    (RestEndpointType.batch_modify_order, Orders.batch_modify_order J D symbols a, vault)
exchange_call J D symbols vault (update_leverage a) =
    (RestEndpointType.update_leverage, Orders.update_leverage J symbols a, vault)
exchange_call J D symbols vault (update_isolated_margin a) =
    (RestEndpointType.update_isolated_margin, Orders.update_isolated_margin J symbols a, vault)
exchange_call J D symbols vault (approve_agent a b) =
    (RestEndpointType.approve_agent, Account.approve_agent J a b, none)
exchange_call J D symbols vault (agent_set_abstraction a) =
    (RestEndpointType.agent_set_abstraction, Account.agent_set_abstraction J a, vault)
exchange_call J D symbols vault (twap_order a) =
    (RestEndpointType.twap_order, Orders.twap_order J D symbols a, vault)
exchange_call J D symbols vault (twap_cancel a) =
    (RestEndpointType.twap_cancel, Orders.twap_cancel J symbols a, vault)
exchange_call J D symbols vault (vault_transfer a) =
    (RestEndpointType.vault_transfer, Account.vault_transfer J D a, none)
exchange_call J D symbols vault (hip3_liquidator_transfer a b c) =
    (RestEndpointType.hip3_liquidator_transfer, Account.hip3_liquidator_transfer J a b c, none)
exchange_call J D symbols vault (create_sub_account a) =
    (RestEndpointType.create_sub_account, Account.create_sub_account J a, none)
exchange_call J D symbols vault (sub_account_transfer a) =
    (RestEndpointType.sub_account_transfer, Account.sub_account_transfer J D a, none)
exchange_call J D symbols vault (create_vault a) =
    (RestEndpointType.create_vault, Account.create_vault J D a, none)
exchange_call J D symbols vault (borrow_lend a) =
    (RestEndpointType.borrow_lend, Transfers.borrow_lend J D a, none)
exchange_call J D symbols vault (spot_deploy_register_token2 a b c) =
    (RestEndpointType.spot_deploy_register_token2, Deploy.spot_deploy_register_token2 J a b c, none)
exchange_call J D symbols vault (spot_deploy_user_genesis a) =
    (RestEndpointType.spot_deploy_user_genesis, Deploy.spot_deploy_user_genesis J D a, none)
exchange_call J D symbols vault (spot_deploy_genesis a b c) =
    (RestEndpointType.spot_deploy_genesis, Deploy.spot_deploy_genesis J D a b c, none)
exchange_call J D symbols vault (spot_deploy_register_spot a b) =
    (RestEndpointType.spot_deploy_register_spot, Deploy.spot_deploy_register_spot J a b, none)
exchange_call J D symbols vault (spot_deploy_register_hyperliquidity a) = (
  RestEndpointType.spot_deploy_register_hyperliquidity,
  Deploy.spot_deploy_register_hyperliquidity J D a,
  none,
)
exchange_call J D symbols vault (perp_deploy_register_asset2 a) =
    (RestEndpointType.perp_deploy_register_asset2, Deploy.perp_deploy_register_asset2 J D a, none)
exchange_call J D symbols vault (usd_class_transfer a b) =
    (RestEndpointType.usd_class_transfer, Transfers.usd_class_transfer J D a b, none)
exchange_call J D symbols vault (send_asset a) =
    (RestEndpointType.send_asset, Transfers.send_asset J D a, none)
exchange_call J D symbols vault (usd_send a b) =
    (RestEndpointType.usd_send, Transfers.usd_send J D a b, none)
exchange_call J D symbols vault (spot_send a) =
    (RestEndpointType.spot_send, Transfers.spot_send J D a, none)
exchange_call J D symbols vault (withdraw3 a b) =
    (RestEndpointType.withdraw3, Transfers.withdraw3 J D a b, none)
exchange_call J D symbols vault (approve_builder_fee a b) =
    (RestEndpointType.approve_builder_fee, Account.approve_builder_fee J a b, none)
exchange_call J D symbols vault (user_set_abstraction a b) =
    (RestEndpointType.user_set_abstraction, Account.user_set_abstraction J a b, none)
exchange_call J D symbols vault (set_referrer a) =
    (RestEndpointType.set_referrer, Account.set_referrer J a, none)
exchange_call J D symbols vault (c_deposit a) =
    (RestEndpointType.c_deposit, Account.c_deposit J a, none)
exchange_call J D symbols vault (c_withdraw a) =
    (RestEndpointType.c_withdraw, Account.c_withdraw J a, none)
exchange_call J D symbols vault (token_delegate a b c) =
    (RestEndpointType.token_delegate, Account.token_delegate J a b c, none)
exchange_call J D symbols vault (send_to_evm_with_data a) =
    (RestEndpointType.send_to_evm_with_data, Transfers.send_to_evm_with_data J a, none)
exchange_call J D symbols vault (user_dex_abstraction a b) =
    (RestEndpointType.user_dex_abstraction, Account.user_dex_abstraction J a b, none)
exchange_call J D symbols vault (user_portfolio_margin a b) =
    (RestEndpointType.user_portfolio_margin, Account.user_portfolio_margin J a b, none)
exchange_call J D symbols vault (agent_send_asset a) =
    (RestEndpointType.agent_send_asset, Transfers.agent_send_asset J a, vault)
exchange_call J D symbols vault (reserve_request_weight a b) =
    (RestEndpointType.reserve_request_weight, Account.reserve_request_weight J a b, vault)
exchange_call J D symbols vault noop = (RestEndpointType.noop, Account.noop J, vault)
