-- ===== src/Types/Endpoint/Laws.antt =====
-- How the endpoint tables fit together.
use text.Mathlib.Text.{◌==◌ as str_eq}
use hyperliquid_sdk_cpp.Common.{String, ◌≡◌, refl, ◌↔◌, true, if◌then◌else◌}
use hyperliquid_sdk_cpp.Types.Endpoint.{
  RestEndpointType, meta, meta_and_asset_ctxs, all_mids, l2_book, candle_snapshot, recent_trades,
  open_orders, user_fills, user_fills_by_time, order_status, clearinghouse_state, user_rate_limit,
  perp_dexs, frontend_open_orders, historical_orders, user_twap_slice_fills,
  user_twap_slice_fills_by_time, twap_history, active_asset_data, sub_accounts, user_fees,
  max_builder_fee, approved_builders, exchange_status, vault_details, user_vault_equities,
  portfolio, referral, user_role, perps_at_open_interest_cap, predicted_fundings, perp_annotation,
  perp_categories, perp_concise_annotations, all_perp_metas, perp_dex_limits, perp_dex_status,
  perp_deploy_auction_status, user_funding, user_non_funding_ledger_updates, funding_history,
  outcome_meta, settled_outcome, spot_meta, spot_meta_and_asset_ctxs, spot_clearinghouse_state,
  spot_deploy_state, spot_pair_deploy_auction_status, token_details, delegations, delegator_summary,
  delegator_history, delegator_rewards, borrow_lend_user_state, borrow_lend_reserve_state,
  all_borrow_lend_reserve_states, user_borrow_lend_interest, liquidatable,
  user_dex_abstraction_state, user_abstraction, place_order, cancel_order, cancel_order_by_cloid,
  schedule_cancel, modify_order, batch_modify_order, update_leverage, update_isolated_margin,
  approve_agent, agent_set_abstraction, twap_order, twap_cancel, vault_transfer,
  hip3_liquidator_transfer, create_sub_account, sub_account_transfer, create_vault, borrow_lend,
  spot_deploy_register_token2, spot_deploy_user_genesis, spot_deploy_genesis,
  spot_deploy_register_spot, spot_deploy_register_hyperliquidity, perp_deploy_register_asset2,
  usd_class_transfer, send_asset, usd_send, spot_send, withdraw3, approve_builder_fee,
  user_set_abstraction, set_referrer, c_deposit, c_withdraw, token_delegate, send_to_evm_with_data,
  user_dex_abstraction, user_portfolio_margin, agent_send_asset, reserve_request_weight, noop,
  to_string, to_path, is_authenticated, is_user_signed_action,
}

-- A user-signed action is an authenticated request: it goes to /exchange.
pub user_signed-authenticated :
    (t : RestEndpointType) → is_user_signed_action t ≡ true → is_authenticated t ≡ true
unfolding is_user_signed_action is_authenticated
user_signed-authenticated meta h = cc
user_signed-authenticated _ h = cc

-- The five `spotDeploy` requests are told apart inside their action, not by its type.
abbrev pub merge_deploys : RestEndpointType → RestEndpointType
merge_deploys spot_deploy_user_genesis = spot_deploy_register_token2
merge_deploys spot_deploy_genesis = spot_deploy_register_token2
merge_deploys spot_deploy_register_spot = spot_deploy_register_token2
merge_deploys spot_deploy_register_hyperliquidity = spot_deploy_register_token2
merge_deploys t = t

-- The endpoint behind a name on /info and on /exchange.
info_endpoint : String → RestEndpointType
info_endpoint s =
    if str_eq s "meta"
    then meta
    else if str_eq s "metaAndAssetCtxs"
    then meta_and_asset_ctxs
    else if str_eq s "allMids"
    then all_mids
    else if str_eq s "l2Book"
    then l2_book
    else if str_eq s "candleSnapshot"
    then candle_snapshot
    else if str_eq s "recentTrades"
    then recent_trades
    else if str_eq s "openOrders"
    then open_orders
    else if str_eq s "userFills"
    then user_fills
    else if str_eq s "userFillsByTime"
    then user_fills_by_time
    else if str_eq s "orderStatus"
    then order_status
    else if str_eq s "clearinghouseState"
    then clearinghouse_state
    else if str_eq s "userRateLimit"
    then user_rate_limit
    else if str_eq s "perpDexs"
    then perp_dexs
    else if str_eq s "frontendOpenOrders"
    then frontend_open_orders
    else if str_eq s "historicalOrders"
    then historical_orders
    else if str_eq s "userTwapSliceFills"
    then user_twap_slice_fills
    else if str_eq s "userTwapSliceFillsByTime"
    then user_twap_slice_fills_by_time
    else if str_eq s "twapHistory"
    then twap_history
    else if str_eq s "activeAssetData"
    then active_asset_data
    else if str_eq s "subAccounts"
    then sub_accounts
    else if str_eq s "userFees"
    then user_fees
    else if str_eq s "maxBuilderFee"
    then max_builder_fee
    else if str_eq s "approvedBuilders"
    then approved_builders
    else if str_eq s "exchangeStatus"
    then exchange_status
    else if str_eq s "vaultDetails"
    then vault_details
    else if str_eq s "userVaultEquities"
    then user_vault_equities
    else if str_eq s "portfolio"
    then portfolio
    else if str_eq s "referral"
    then referral
    else if str_eq s "userRole"
    then user_role
    else if str_eq s "perpsAtOpenInterestCap"
    then perps_at_open_interest_cap
    else if str_eq s "predictedFundings"
    then predicted_fundings
    else if str_eq s "perpAnnotation"
    then perp_annotation
    else if str_eq s "perpCategories"
    then perp_categories
    else if str_eq s "perpConciseAnnotations"
    then perp_concise_annotations
    else if str_eq s "allPerpMetas"
    then all_perp_metas
    else if str_eq s "perpDexLimits"
    then perp_dex_limits
    else if str_eq s "perpDexStatus"
    then perp_dex_status
    else if str_eq s "perpDeployAuctionStatus"
    then perp_deploy_auction_status
    else if str_eq s "userFunding"
    then user_funding
    else if str_eq s "userNonFundingLedgerUpdates"
    then user_non_funding_ledger_updates
    else if str_eq s "fundingHistory"
    then funding_history
    else if str_eq s "outcomeMeta"
    then outcome_meta
    else if str_eq s "settledOutcome"
    then settled_outcome
    else if str_eq s "spotMeta"
    then spot_meta
    else if str_eq s "spotMetaAndAssetCtxs"
    then spot_meta_and_asset_ctxs
    else if str_eq s "spotClearinghouseState"
    then spot_clearinghouse_state
    else if str_eq s "spotDeployState"
    then spot_deploy_state
    else if str_eq s "spotPairDeployAuctionStatus"
    then spot_pair_deploy_auction_status
    else if str_eq s "tokenDetails"
    then token_details
    else if str_eq s "delegations"
    then delegations
    else if str_eq s "delegatorSummary"
    then delegator_summary
    else if str_eq s "delegatorHistory"
    then delegator_history
    else if str_eq s "delegatorRewards"
    then delegator_rewards
    else if str_eq s "borrowLendUserState"
    then borrow_lend_user_state
    else if str_eq s "borrowLendReserveState"
    then borrow_lend_reserve_state
    else if str_eq s "allBorrowLendReserveStates"
    then all_borrow_lend_reserve_states
    else if str_eq s "userBorrowLendInterest"
    then user_borrow_lend_interest
    else if str_eq s "liquidatable"
    then liquidatable
    else if str_eq s "userDexAbstraction"
    then user_dex_abstraction_state
    else if str_eq s "userAbstraction"
    then user_abstraction
    else noop

exchange_endpoint : String → RestEndpointType
exchange_endpoint s =
    if str_eq s "order"
    then place_order
    else if str_eq s "cancel"
    then cancel_order
    else if str_eq s "cancelByCloid"
    then cancel_order_by_cloid
    else if str_eq s "scheduleCancel"
    then schedule_cancel
    else if str_eq s "modify"
    then modify_order
    else if str_eq s "batchModify"
    then batch_modify_order
    else if str_eq s "updateLeverage"
    then update_leverage
    else if str_eq s "updateIsolatedMargin"
    then update_isolated_margin
    else if str_eq s "approveAgent"
    then approve_agent
    else if str_eq s "agentSetAbstraction"
    then agent_set_abstraction
    else if str_eq s "twapOrder"
    then twap_order
    else if str_eq s "twapCancel"
    then twap_cancel
    else if str_eq s "vaultTransfer"
    then vault_transfer
    else if str_eq s "hip3LiquidatorTransfer"
    then hip3_liquidator_transfer
    else if str_eq s "createSubAccount"
    then create_sub_account
    else if str_eq s "subAccountTransfer"
    then sub_account_transfer
    else if str_eq s "createVault"
    then create_vault
    else if str_eq s "borrowLend"
    then borrow_lend
    else if str_eq s "spotDeploy"
    then spot_deploy_register_token2
    else if str_eq s "perpDeploy"
    then perp_deploy_register_asset2
    else if str_eq s "usdClassTransfer"
    then usd_class_transfer
    else if str_eq s "sendAsset"
    then send_asset
    else if str_eq s "usdSend"
    then usd_send
    else if str_eq s "spotSend"
    then spot_send
    else if str_eq s "withdraw3"
    then withdraw3
    else if str_eq s "approveBuilderFee"
    then approve_builder_fee
    else if str_eq s "userSetAbstraction"
    then user_set_abstraction
    else if str_eq s "setReferrer"
    then set_referrer
    else if str_eq s "cDeposit"
    then c_deposit
    else if str_eq s "cWithdraw"
    then c_withdraw
    else if str_eq s "tokenDelegate"
    then token_delegate
    else if str_eq s "sendToEvmWithData"
    then send_to_evm_with_data
    else if str_eq s "userDexAbstraction"
    then user_dex_abstraction
    else if str_eq s "userPortfolioMargin"
    then user_portfolio_margin
    else if str_eq s "agentSendAsset"
    then agent_send_asset
    else if str_eq s "reserveRequestWeight"
    then reserve_request_weight
    else if str_eq s "noop"
    then noop
    else meta

endpoint_at : String → String → RestEndpointType
endpoint_at path s = if str_eq path "/info" then info_endpoint s else exchange_endpoint s

endpoint_at_lem : (t : RestEndpointType) → endpoint_at (to_path t) (to_string t) ≡ merge_deploys t
unfolding endpoint_at info_endpoint exchange_endpoint to_path to_string is_authenticated
endpoint_at_lem meta = refl
endpoint_at_lem _ = refl

merge_same :
    (t : RestEndpointType)
    → (to_string (merge_deploys t) ≡ to_string t) × (to_path (merge_deploys t) ≡ to_path t)
unfolding to_path to_string is_authenticated
merge_same meta = (refl, refl)
merge_same _ = (refl, refl)

-- Path and name together tell any two endpoints apart, but for the five `spotDeploy` requests.
pub same_wire_iff :
    (a b : RestEndpointType)
    → ((to_path a ≡ to_path b) × (to_string a ≡ to_string b)) ↔ (merge_deploys a ≡ merge_deploys b)
same_wire_iff a b = (
  λ h. cc (endpoint_at_lem a, endpoint_at_lem b),
  λ e. (cc ((merge_same a).1, (merge_same b).1), cc ((merge_same a).0, (merge_same b).0)),
)
