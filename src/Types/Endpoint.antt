-- ===== src/Types/Endpoint.antt =====
-- include/hyperliquid/types/RequestTypes.h: the REST endpoints, their wire names, their paths and
-- how each is signed.
pub mod Laws
use hyperliquid_sdk_cpp.Common.{String, Bool, true, false, if◌then◌else◌}

pub data RestEndpointType : Type 0 where
  meta meta_and_asset_ctxs all_mids l2_book candle_snapshot : RestEndpointType
  recent_trades open_orders user_fills user_fills_by_time order_status : RestEndpointType
  clearinghouse_state user_rate_limit perp_dexs frontend_open_orders historical_orders :
      RestEndpointType
  user_twap_slice_fills user_twap_slice_fills_by_time twap_history active_asset_data sub_accounts :
      RestEndpointType
  user_fees max_builder_fee approved_builders exchange_status vault_details : RestEndpointType
  user_vault_equities portfolio referral user_role perps_at_open_interest_cap : RestEndpointType
  predicted_fundings perp_annotation perp_categories perp_concise_annotations all_perp_metas :
      RestEndpointType
  perp_dex_limits perp_dex_status perp_deploy_auction_status user_funding
        user_non_funding_ledger_updates :
      RestEndpointType
  funding_history outcome_meta settled_outcome spot_meta spot_meta_and_asset_ctxs : RestEndpointType
  spot_clearinghouse_state spot_deploy_state spot_pair_deploy_auction_status token_details
        delegations :
      RestEndpointType
  delegator_summary delegator_history delegator_rewards borrow_lend_user_state
        borrow_lend_reserve_state :
      RestEndpointType
  all_borrow_lend_reserve_states user_borrow_lend_interest liquidatable user_dex_abstraction_state
        user_abstraction :
      RestEndpointType
  place_order cancel_order cancel_order_by_cloid schedule_cancel modify_order : RestEndpointType
  batch_modify_order update_leverage update_isolated_margin approve_agent agent_set_abstraction :
      RestEndpointType
  twap_order twap_cancel vault_transfer hip3_liquidator_transfer create_sub_account :
      RestEndpointType
  sub_account_transfer create_vault borrow_lend spot_deploy_register_token2
        spot_deploy_user_genesis :
      RestEndpointType
  spot_deploy_genesis spot_deploy_register_spot spot_deploy_register_hyperliquidity
        perp_deploy_register_asset2 usd_class_transfer :
      RestEndpointType
  send_asset usd_send spot_send withdraw3 approve_builder_fee : RestEndpointType
  user_set_abstraction set_referrer c_deposit c_withdraw token_delegate : RestEndpointType
  send_to_evm_with_data user_dex_abstraction user_portfolio_margin agent_send_asset
        reserve_request_weight :
      RestEndpointType
  noop : RestEndpointType

-- The enum has no other value, so `default: throw` is not reached.
unfoldable pub to_string : RestEndpointType → String
to_string meta = "meta"
to_string meta_and_asset_ctxs = "metaAndAssetCtxs"
to_string all_mids = "allMids"
to_string l2_book = "l2Book"
to_string candle_snapshot = "candleSnapshot"
to_string recent_trades = "recentTrades"
to_string open_orders = "openOrders"
to_string user_fills = "userFills"
to_string user_fills_by_time = "userFillsByTime"
to_string order_status = "orderStatus"
to_string clearinghouse_state = "clearinghouseState"
to_string user_rate_limit = "userRateLimit"
to_string perp_dexs = "perpDexs"
to_string frontend_open_orders = "frontendOpenOrders"
to_string historical_orders = "historicalOrders"
to_string user_twap_slice_fills = "userTwapSliceFills"
to_string user_twap_slice_fills_by_time = "userTwapSliceFillsByTime"
to_string twap_history = "twapHistory"
to_string active_asset_data = "activeAssetData"
to_string sub_accounts = "subAccounts"
to_string user_fees = "userFees"
to_string max_builder_fee = "maxBuilderFee"
to_string approved_builders = "approvedBuilders"
to_string exchange_status = "exchangeStatus"
to_string vault_details = "vaultDetails"
to_string user_vault_equities = "userVaultEquities"
to_string portfolio = "portfolio"
to_string referral = "referral"
to_string user_role = "userRole"
to_string perps_at_open_interest_cap = "perpsAtOpenInterestCap"
to_string predicted_fundings = "predictedFundings"
to_string perp_annotation = "perpAnnotation"
to_string perp_categories = "perpCategories"
to_string perp_concise_annotations = "perpConciseAnnotations"
to_string all_perp_metas = "allPerpMetas"
to_string perp_dex_limits = "perpDexLimits"
to_string perp_dex_status = "perpDexStatus"
to_string perp_deploy_auction_status = "perpDeployAuctionStatus"
to_string user_funding = "userFunding"
to_string user_non_funding_ledger_updates = "userNonFundingLedgerUpdates"
to_string funding_history = "fundingHistory"
to_string outcome_meta = "outcomeMeta"
to_string settled_outcome = "settledOutcome"
to_string spot_meta = "spotMeta"
to_string spot_meta_and_asset_ctxs = "spotMetaAndAssetCtxs"
to_string spot_clearinghouse_state = "spotClearinghouseState"
to_string spot_deploy_state = "spotDeployState"
to_string spot_pair_deploy_auction_status = "spotPairDeployAuctionStatus"
to_string token_details = "tokenDetails"
to_string delegations = "delegations"
to_string delegator_summary = "delegatorSummary"
to_string delegator_history = "delegatorHistory"
to_string delegator_rewards = "delegatorRewards"
to_string borrow_lend_user_state = "borrowLendUserState"
to_string borrow_lend_reserve_state = "borrowLendReserveState"
to_string all_borrow_lend_reserve_states = "allBorrowLendReserveStates"
to_string user_borrow_lend_interest = "userBorrowLendInterest"
to_string liquidatable = "liquidatable"
to_string user_dex_abstraction_state = "userDexAbstraction"
to_string user_abstraction = "userAbstraction"
to_string place_order = "order"
to_string cancel_order = "cancel"
to_string cancel_order_by_cloid = "cancelByCloid"
to_string schedule_cancel = "scheduleCancel"
to_string modify_order = "modify"
to_string batch_modify_order = "batchModify"
to_string update_leverage = "updateLeverage"
to_string update_isolated_margin = "updateIsolatedMargin"
to_string approve_agent = "approveAgent"
to_string agent_set_abstraction = "agentSetAbstraction"
to_string twap_order = "twapOrder"
to_string twap_cancel = "twapCancel"
to_string vault_transfer = "vaultTransfer"
to_string hip3_liquidator_transfer = "hip3LiquidatorTransfer"
to_string create_sub_account = "createSubAccount"
to_string sub_account_transfer = "subAccountTransfer"
to_string create_vault = "createVault"
to_string borrow_lend = "borrowLend"
to_string spot_deploy_register_token2 = "spotDeploy"
to_string spot_deploy_user_genesis = "spotDeploy"
to_string spot_deploy_genesis = "spotDeploy"
to_string spot_deploy_register_spot = "spotDeploy"
to_string spot_deploy_register_hyperliquidity = "spotDeploy"
to_string perp_deploy_register_asset2 = "perpDeploy"
to_string usd_class_transfer = "usdClassTransfer"
to_string send_asset = "sendAsset"
to_string usd_send = "usdSend"
to_string spot_send = "spotSend"
to_string withdraw3 = "withdraw3"
to_string approve_builder_fee = "approveBuilderFee"
to_string user_set_abstraction = "userSetAbstraction"
to_string set_referrer = "setReferrer"
to_string c_deposit = "cDeposit"
to_string c_withdraw = "cWithdraw"
to_string token_delegate = "tokenDelegate"
to_string send_to_evm_with_data = "sendToEvmWithData"
to_string user_dex_abstraction = "userDexAbstraction"
to_string user_portfolio_margin = "userPortfolioMargin"
to_string agent_send_asset = "agentSendAsset"
to_string reserve_request_weight = "reserveRequestWeight"
to_string noop = "noop"

unfoldable pub is_authenticated : RestEndpointType → Bool
is_authenticated meta = false
is_authenticated meta_and_asset_ctxs = false
is_authenticated all_mids = false
is_authenticated l2_book = false
is_authenticated candle_snapshot = false
is_authenticated recent_trades = false
is_authenticated open_orders = false
is_authenticated user_fills = false
is_authenticated user_fills_by_time = false
is_authenticated order_status = false
is_authenticated clearinghouse_state = false
is_authenticated user_rate_limit = false
is_authenticated perp_dexs = false
is_authenticated frontend_open_orders = false
is_authenticated historical_orders = false
is_authenticated user_twap_slice_fills = false
is_authenticated user_twap_slice_fills_by_time = false
is_authenticated twap_history = false
is_authenticated active_asset_data = false
is_authenticated sub_accounts = false
is_authenticated user_fees = false
is_authenticated max_builder_fee = false
is_authenticated approved_builders = false
is_authenticated exchange_status = false
is_authenticated vault_details = false
is_authenticated user_vault_equities = false
is_authenticated portfolio = false
is_authenticated referral = false
is_authenticated user_role = false
is_authenticated perps_at_open_interest_cap = false
is_authenticated predicted_fundings = false
is_authenticated perp_annotation = false
is_authenticated perp_categories = false
is_authenticated perp_concise_annotations = false
is_authenticated all_perp_metas = false
is_authenticated perp_dex_limits = false
is_authenticated perp_dex_status = false
is_authenticated perp_deploy_auction_status = false
is_authenticated user_funding = false
is_authenticated user_non_funding_ledger_updates = false
is_authenticated funding_history = false
is_authenticated outcome_meta = false
is_authenticated settled_outcome = false
is_authenticated spot_meta = false
is_authenticated spot_meta_and_asset_ctxs = false
is_authenticated spot_clearinghouse_state = false
is_authenticated spot_deploy_state = false
is_authenticated spot_pair_deploy_auction_status = false
is_authenticated token_details = false
is_authenticated delegations = false
is_authenticated delegator_summary = false
is_authenticated delegator_history = false
is_authenticated delegator_rewards = false
is_authenticated borrow_lend_user_state = false
is_authenticated borrow_lend_reserve_state = false
is_authenticated all_borrow_lend_reserve_states = false
is_authenticated user_borrow_lend_interest = false
is_authenticated liquidatable = false
is_authenticated user_dex_abstraction_state = false
is_authenticated user_abstraction = false
is_authenticated place_order = true
is_authenticated cancel_order = true
is_authenticated cancel_order_by_cloid = true
is_authenticated schedule_cancel = true
is_authenticated modify_order = true
is_authenticated batch_modify_order = true
is_authenticated update_leverage = true
is_authenticated update_isolated_margin = true
is_authenticated approve_agent = true
is_authenticated agent_set_abstraction = true
is_authenticated twap_order = true
is_authenticated twap_cancel = true
is_authenticated vault_transfer = true
is_authenticated hip3_liquidator_transfer = true
is_authenticated create_sub_account = true
is_authenticated sub_account_transfer = true
is_authenticated create_vault = true
is_authenticated borrow_lend = true
is_authenticated spot_deploy_register_token2 = true
is_authenticated spot_deploy_user_genesis = true
is_authenticated spot_deploy_genesis = true
is_authenticated spot_deploy_register_spot = true
is_authenticated spot_deploy_register_hyperliquidity = true
is_authenticated perp_deploy_register_asset2 = true
is_authenticated usd_class_transfer = true
is_authenticated send_asset = true
is_authenticated usd_send = true
is_authenticated spot_send = true
is_authenticated withdraw3 = true
is_authenticated approve_builder_fee = true
is_authenticated user_set_abstraction = true
is_authenticated set_referrer = true
is_authenticated c_deposit = true
is_authenticated c_withdraw = true
is_authenticated token_delegate = true
is_authenticated send_to_evm_with_data = true
is_authenticated user_dex_abstraction = true
is_authenticated user_portfolio_margin = true
is_authenticated agent_send_asset = true
is_authenticated reserve_request_weight = true
is_authenticated noop = true

unfoldable pub to_path : RestEndpointType → String
to_path t = if is_authenticated t then "/exchange" else "/info"

unfoldable pub is_user_signed_action : RestEndpointType → Bool
is_user_signed_action usd_class_transfer = true
is_user_signed_action send_asset = true
is_user_signed_action usd_send = true
is_user_signed_action spot_send = true
is_user_signed_action withdraw3 = true
is_user_signed_action approve_builder_fee = true
is_user_signed_action user_set_abstraction = true
is_user_signed_action c_deposit = true
is_user_signed_action c_withdraw = true
is_user_signed_action token_delegate = true
is_user_signed_action send_to_evm_with_data = true
is_user_signed_action user_dex_abstraction = true
is_user_signed_action user_portfolio_margin = true
is_user_signed_action _ = false
