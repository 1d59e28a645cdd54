-- ===== src/Websocket/Api/InfoCalls.antt =====
-- src/websocket/WebsocketApi.cpp: the information methods, each with the endpoint and the builder
-- that it passes to `signAndSend`.
use hyperliquid_sdk_cpp.Json.{JsonLib}
use hyperliquid_sdk_cpp.Types.Endpoint.{RestEndpointType}
use hyperliquid_sdk_cpp.Messages.Info.{
  InfoRequest, spot_meta, meta, outcome_meta, settled_outcome, perp_dexs,
  perps_at_open_interest_cap, predicted_fundings, perp_annotation, perp_categories,
  perp_concise_annotations, all_perp_metas, perp_dex_limits, perp_dex_status,
  perp_deploy_auction_status, user_funding, user_non_funding_ledger_updates, funding_history,
  l2_book, candle_snapshot, recent_trades, all_mids, open_orders, order_status, user_fills,
  user_fills_by_time, clearinghouse_state, user_rate_limit, borrow_lend_user_state,
  meta_and_asset_ctxs, spot_meta_and_asset_ctxs, spot_clearinghouse_state, spot_deploy_state,
  spot_pair_deploy_auction_status, frontend_open_orders, historical_orders, user_twap_slice_fills,
  user_twap_slice_fills_by_time, twap_history, active_asset_data, sub_accounts, user_fees,
  max_builder_fee, approved_builders, delegations, delegator_summary, delegator_history,
  delegator_rewards, vault_details, user_vault_equities, portfolio, referral, user_role,
  borrow_lend_reserve_state, all_borrow_lend_reserve_states, user_borrow_lend_interest,
  liquidatable, user_dex_abstraction_state, user_abstraction, exchange_status,
}
use hyperliquid_sdk_cpp.Messages.Info.Market
use hyperliquid_sdk_cpp.Messages.Info.Trading
use hyperliquid_sdk_cpp.Messages.Info.Account

unfoldable pub info_call : (J : JsonLib) → InfoRequest → RestEndpointType × J.Object
unfolding Market.spot_meta Market.meta Market.outcome_meta Market.settled_outcome Market.perp_dexs
    Market.perps_at_open_interest_cap Market.predicted_fundings Market.perp_annotation
    Market.perp_categories Market.perp_concise_annotations Market.all_perp_metas
    Market.perp_dex_limits Market.perp_dex_status Market.perp_deploy_auction_status
    Trading.user_funding Trading.user_non_funding_ledger_updates Market.funding_history
    Market.l2_book Market.candle_snapshot Market.recent_trades Market.all_mids Trading.open_orders
    Trading.order_status Trading.user_fills Trading.user_fills_by_time Trading.clearinghouse_state
    Account.user_rate_limit Account.borrow_lend_user_state Market.meta_and_asset_ctxs
    Market.spot_meta_and_asset_ctxs Trading.spot_clearinghouse_state Account.spot_deploy_state
    Market.spot_pair_deploy_auction_status Trading.frontend_open_orders Trading.historical_orders
    Trading.user_twap_slice_fills Trading.user_twap_slice_fills_by_time Trading.twap_history
    Trading.active_asset_data Account.sub_accounts Account.user_fees Account.max_builder_fee
    Account.approved_builders Account.delegations Account.delegator_summary
    Account.delegator_history Account.delegator_rewards Account.vault_details
    Account.user_vault_equities Account.portfolio Account.referral Account.user_role
    Market.borrow_lend_reserve_state Market.all_borrow_lend_reserve_states
    Account.user_borrow_lend_interest Market.liquidatable Account.user_dex_abstraction_state
    Account.user_abstraction Market.exchange_status
info_call J spot_meta = (RestEndpointType.spot_meta, Market.spot_meta J)
info_call J (meta dex) = (RestEndpointType.meta, Market.meta J dex)
info_call J outcome_meta = (RestEndpointType.outcome_meta, Market.outcome_meta J)
info_call J (settled_outcome outcome) =
    (RestEndpointType.settled_outcome, Market.settled_outcome J outcome)
info_call J perp_dexs = (RestEndpointType.perp_dexs, Market.perp_dexs J)
info_call J (perps_at_open_interest_cap dex) =
    (RestEndpointType.perps_at_open_interest_cap, Market.perps_at_open_interest_cap J dex)
info_call J predicted_fundings = (RestEndpointType.predicted_fundings, Market.predicted_fundings J)
info_call J (perp_annotation coin) =
    (RestEndpointType.perp_annotation, Market.perp_annotation J coin)
info_call J perp_categories = (RestEndpointType.perp_categories, Market.perp_categories J)
info_call J perp_concise_annotations =
    (RestEndpointType.perp_concise_annotations, Market.perp_concise_annotations J)
info_call J all_perp_metas = (RestEndpointType.all_perp_metas, Market.all_perp_metas J)
info_call J (perp_dex_limits dex) = (RestEndpointType.perp_dex_limits, Market.perp_dex_limits J dex)
info_call J (perp_dex_status dex) = (RestEndpointType.perp_dex_status, Market.perp_dex_status J dex)
info_call J perp_deploy_auction_status =
    (RestEndpointType.perp_deploy_auction_status, Market.perp_deploy_auction_status J)
info_call J (user_funding user start_time end_time) =
    (RestEndpointType.user_funding, Trading.user_funding J user start_time end_time)
info_call J (user_non_funding_ledger_updates user start_time end_time) = (
  RestEndpointType.user_non_funding_ledger_updates,
  Trading.user_non_funding_ledger_updates J user start_time end_time,
)
info_call J (funding_history coin start_time end_time) =
    (RestEndpointType.funding_history, Market.funding_history J coin start_time end_time)
info_call J (l2_book coin n_sig_figs mantissa) =
    (RestEndpointType.l2_book, Market.l2_book J coin n_sig_figs mantissa)
info_call J (candle_snapshot coin interval start_time end_time) =
    (RestEndpointType.candle_snapshot, Market.candle_snapshot J coin interval start_time end_time)
info_call J (recent_trades coin) = (RestEndpointType.recent_trades, Market.recent_trades J coin)
info_call J (all_mids dex) = (RestEndpointType.all_mids, Market.all_mids J dex)
info_call J (open_orders user dex) = (RestEndpointType.open_orders, Trading.open_orders J user dex)
info_call J (order_status user oid) =
    (RestEndpointType.order_status, Trading.order_status J user oid)
info_call J (user_fills user aggregate_by_time dex) =
    (RestEndpointType.user_fills, Trading.user_fills J user aggregate_by_time dex)
info_call J (user_fills_by_time user start_time end_time aggregate_by_time dex) = (
  RestEndpointType.user_fills_by_time,
  Trading.user_fills_by_time J user start_time end_time aggregate_by_time dex,
)
info_call J (clearinghouse_state user dex) =
    (RestEndpointType.clearinghouse_state, Trading.clearinghouse_state J user dex)
info_call J (user_rate_limit user) =
    (RestEndpointType.user_rate_limit, Account.user_rate_limit J user)
info_call J (borrow_lend_user_state user) =
    (RestEndpointType.borrow_lend_user_state, Account.borrow_lend_user_state J user)
info_call J (meta_and_asset_ctxs dex) =
    (RestEndpointType.meta_and_asset_ctxs, Market.meta_and_asset_ctxs J dex)
info_call J spot_meta_and_asset_ctxs =
    (RestEndpointType.spot_meta_and_asset_ctxs, Market.spot_meta_and_asset_ctxs J)
info_call J (spot_clearinghouse_state user dex) =
    (RestEndpointType.spot_clearinghouse_state, Trading.spot_clearinghouse_state J user dex)
info_call J (spot_deploy_state user) =
    (RestEndpointType.spot_deploy_state, Account.spot_deploy_state J user)
info_call J spot_pair_deploy_auction_status =
    (RestEndpointType.spot_pair_deploy_auction_status, Market.spot_pair_deploy_auction_status J)
info_call J (frontend_open_orders user dex) =
    (RestEndpointType.frontend_open_orders, Trading.frontend_open_orders J user dex)
info_call J (historical_orders user) =
    (RestEndpointType.historical_orders, Trading.historical_orders J user)
info_call J (user_twap_slice_fills user) =
    (RestEndpointType.user_twap_slice_fills, Trading.user_twap_slice_fills J user)
info_call J (user_twap_slice_fills_by_time user start_time end_time aggregate_by_time) = (
  RestEndpointType.user_twap_slice_fills_by_time,
  Trading.user_twap_slice_fills_by_time J user start_time end_time aggregate_by_time,
)
info_call J (twap_history user) = (RestEndpointType.twap_history, Trading.twap_history J user)
info_call J (active_asset_data user coin) =
    (RestEndpointType.active_asset_data, Trading.active_asset_data J user coin)
info_call J (sub_accounts user) = (RestEndpointType.sub_accounts, Account.sub_accounts J user)
info_call J (user_fees user) = (RestEndpointType.user_fees, Account.user_fees J user)
info_call J (max_builder_fee user builder) =
    (RestEndpointType.max_builder_fee, Account.max_builder_fee J user builder)
info_call J (approved_builders user) =
    (RestEndpointType.approved_builders, Account.approved_builders J user)
info_call J (delegations user) = (RestEndpointType.delegations, Account.delegations J user)
info_call J (delegator_summary user) =
    (RestEndpointType.delegator_summary, Account.delegator_summary J user)
info_call J (delegator_history user) =
    (RestEndpointType.delegator_history, Account.delegator_history J user)
info_call J (delegator_rewards user) =
    (RestEndpointType.delegator_rewards, Account.delegator_rewards J user)
info_call J (vault_details vault_address user) =
    (RestEndpointType.vault_details, Account.vault_details J vault_address user)
info_call J (user_vault_equities user) =
    (RestEndpointType.user_vault_equities, Account.user_vault_equities J user)
info_call J (portfolio user) = (RestEndpointType.portfolio, Account.portfolio J user)
info_call J (referral user) = (RestEndpointType.referral, Account.referral J user)
info_call J (user_role user) = (RestEndpointType.user_role, Account.user_role J user)
info_call J (borrow_lend_reserve_state token) =
    (RestEndpointType.borrow_lend_reserve_state, Market.borrow_lend_reserve_state J token)
info_call J all_borrow_lend_reserve_states =
    (RestEndpointType.all_borrow_lend_reserve_states, Market.all_borrow_lend_reserve_states J)
info_call J (user_borrow_lend_interest user start_time end_time) = (
  RestEndpointType.user_borrow_lend_interest,
  Account.user_borrow_lend_interest J user start_time end_time,
)
info_call J liquidatable = (RestEndpointType.liquidatable, Market.liquidatable J)
info_call J (user_dex_abstraction_state user) =
    (RestEndpointType.user_dex_abstraction_state, Account.user_dex_abstraction_state J user)
info_call J (user_abstraction user) =
    (RestEndpointType.user_abstraction, Account.user_abstraction J user)
info_call J exchange_status = (RestEndpointType.exchange_status, Market.exchange_status J)
