-- ===== src/Rest/Parser/Dispatch.antt =====
-- src/rest/RestApiMessageParser.cpp: `parse`, which picks the parser of an endpoint and the callback
-- of `RestEndpointListener` (include/hyperliquid/rest/RestEndpointListener.h) that has its name.
use hyperliquid_sdk_cpp.Common.{ℕ, String, List, [], ◌∷◌, ◌≡◌, refl, Option, none, some}
use hyperliquid_sdk_cpp.Types.Endpoint.{RestEndpointType}
use hyperliquid_sdk_cpp.Messages.Info
use hyperliquid_sdk_cpp.Messages.Info.{spot_meta}
use hyperliquid_sdk_cpp.Messages.Exchange
use hyperliquid_sdk_cpp.Messages.Exchange.{place_order}
use hyperliquid_sdk_cpp.Rest.Api.{Request, info, exchange, type_of}

pub data Callback : Type 0 where
  on_spot_meta on_meta on_outcome_meta : Callback
  on_settled_outcome on_perp_dexs on_perps_at_open_interest_cap : Callback
  on_predicted_fundings on_perp_annotation on_perp_categories : Callback
  on_perp_concise_annotations on_all_perp_metas on_perp_dex_limits : Callback
  on_perp_dex_status on_perp_deploy_auction_status on_user_funding : Callback
  on_user_non_funding_ledger_updates on_funding_history on_l2_book : Callback
  on_candle_snapshot on_recent_trades on_all_mids : Callback
  on_open_orders on_order_status on_user_fills : Callback
  on_user_fills_by_time on_clearinghouse_state on_user_rate_limit : Callback
  on_meta_and_asset_ctxs on_spot_meta_and_asset_ctxs on_spot_clearinghouse_state : Callback
  on_spot_deploy_state on_spot_pair_deploy_auction_status on_frontend_open_orders : Callback
  on_historical_orders on_user_twap_slice_fills on_user_twap_slice_fills_by_time : Callback
  on_twap_history on_active_asset_data on_sub_accounts : Callback
  on_user_fees on_max_builder_fee on_approved_builders : Callback
  on_vault_details on_user_vault_equities on_portfolio : Callback
  on_referral on_user_role on_borrow_lend_user_state : Callback
  on_borrow_lend_reserve_state on_all_borrow_lend_reserve_states on_user_borrow_lend_interest :
      Callback
  on_liquidatable on_place_order on_cancel_order : Callback
  on_modify_order on_simple_response on_twap_order : Callback
  on_twap_cancel on_create_sub_account on_create_vault : Callback
  on_delegations on_delegator_summary on_delegator_history : Callback
  on_delegator_rewards on_user_dex_abstraction_state on_user_abstraction : Callback
  on_exchange_status : Callback

-- The switch; `default:` only logs.
unfoldable pub callback_of : RestEndpointType → Option Callback
callback_of RestEndpointType.spot_meta = some on_spot_meta
callback_of RestEndpointType.meta = some on_meta
callback_of RestEndpointType.outcome_meta = some on_outcome_meta
callback_of RestEndpointType.settled_outcome = some on_settled_outcome
callback_of RestEndpointType.perp_dexs = some on_perp_dexs
callback_of RestEndpointType.perps_at_open_interest_cap = some on_perps_at_open_interest_cap
callback_of RestEndpointType.predicted_fundings = some on_predicted_fundings
callback_of RestEndpointType.perp_annotation = some on_perp_annotation
callback_of RestEndpointType.perp_categories = some on_perp_categories
callback_of RestEndpointType.perp_concise_annotations = some on_perp_concise_annotations
callback_of RestEndpointType.all_perp_metas = some on_all_perp_metas
callback_of RestEndpointType.perp_dex_limits = some on_perp_dex_limits
callback_of RestEndpointType.perp_dex_status = some on_perp_dex_status
callback_of RestEndpointType.perp_deploy_auction_status = some on_perp_deploy_auction_status
callback_of RestEndpointType.user_funding = some on_user_funding
callback_of RestEndpointType.user_non_funding_ledger_updates =
    some on_user_non_funding_ledger_updates
callback_of RestEndpointType.funding_history = some on_funding_history
callback_of RestEndpointType.l2_book = some on_l2_book
callback_of RestEndpointType.candle_snapshot = some on_candle_snapshot
callback_of RestEndpointType.recent_trades = some on_recent_trades
callback_of RestEndpointType.all_mids = some on_all_mids
callback_of RestEndpointType.open_orders = some on_open_orders
callback_of RestEndpointType.order_status = some on_order_status
callback_of RestEndpointType.user_fills = some on_user_fills
callback_of RestEndpointType.user_fills_by_time = some on_user_fills_by_time
callback_of RestEndpointType.clearinghouse_state = some on_clearinghouse_state
callback_of RestEndpointType.user_rate_limit = some on_user_rate_limit
callback_of RestEndpointType.meta_and_asset_ctxs = some on_meta_and_asset_ctxs
callback_of RestEndpointType.spot_meta_and_asset_ctxs = some on_spot_meta_and_asset_ctxs
callback_of RestEndpointType.spot_clearinghouse_state = some on_spot_clearinghouse_state
callback_of RestEndpointType.spot_deploy_state = some on_spot_deploy_state
callback_of RestEndpointType.spot_pair_deploy_auction_status =
    some on_spot_pair_deploy_auction_status
callback_of RestEndpointType.frontend_open_orders = some on_frontend_open_orders
callback_of RestEndpointType.historical_orders = some on_historical_orders
callback_of RestEndpointType.user_twap_slice_fills = some on_user_twap_slice_fills
callback_of RestEndpointType.user_twap_slice_fills_by_time = some on_user_twap_slice_fills_by_time
callback_of RestEndpointType.twap_history = some on_twap_history
callback_of RestEndpointType.active_asset_data = some on_active_asset_data
callback_of RestEndpointType.sub_accounts = some on_sub_accounts
callback_of RestEndpointType.user_fees = some on_user_fees
callback_of RestEndpointType.max_builder_fee = some on_max_builder_fee
callback_of RestEndpointType.approved_builders = some on_approved_builders
callback_of RestEndpointType.vault_details = some on_vault_details
callback_of RestEndpointType.user_vault_equities = some on_user_vault_equities
callback_of RestEndpointType.portfolio = some on_portfolio
callback_of RestEndpointType.referral = some on_referral
callback_of RestEndpointType.user_role = some on_user_role
callback_of RestEndpointType.borrow_lend_user_state = some on_borrow_lend_user_state
callback_of RestEndpointType.borrow_lend_reserve_state = some on_borrow_lend_reserve_state
callback_of RestEndpointType.all_borrow_lend_reserve_states = some on_all_borrow_lend_reserve_states
callback_of RestEndpointType.user_borrow_lend_interest = some on_user_borrow_lend_interest
callback_of RestEndpointType.liquidatable = some on_liquidatable
callback_of RestEndpointType.place_order = some on_place_order
callback_of RestEndpointType.cancel_order = some on_cancel_order
callback_of RestEndpointType.cancel_order_by_cloid = some on_cancel_order
callback_of RestEndpointType.modify_order = some on_modify_order
callback_of RestEndpointType.batch_modify_order = some on_modify_order
callback_of RestEndpointType.update_leverage = some on_simple_response
callback_of RestEndpointType.update_isolated_margin = some on_simple_response
callback_of RestEndpointType.schedule_cancel = some on_simple_response
callback_of RestEndpointType.approve_agent = some on_simple_response
callback_of RestEndpointType.agent_set_abstraction = some on_simple_response
callback_of RestEndpointType.vault_transfer = some on_simple_response
callback_of RestEndpointType.hip3_liquidator_transfer = some on_simple_response
callback_of RestEndpointType.sub_account_transfer = some on_simple_response
callback_of RestEndpointType.borrow_lend = some on_simple_response
callback_of RestEndpointType.spot_deploy_register_token2 = some on_simple_response
callback_of RestEndpointType.spot_deploy_user_genesis = some on_simple_response
callback_of RestEndpointType.spot_deploy_genesis = some on_simple_response
callback_of RestEndpointType.spot_deploy_register_spot = some on_simple_response
callback_of RestEndpointType.spot_deploy_register_hyperliquidity = some on_simple_response
callback_of RestEndpointType.perp_deploy_register_asset2 = some on_simple_response
callback_of RestEndpointType.usd_class_transfer = some on_simple_response
callback_of RestEndpointType.send_asset = some on_simple_response
callback_of RestEndpointType.usd_send = some on_simple_response
callback_of RestEndpointType.spot_send = some on_simple_response
callback_of RestEndpointType.withdraw3 = some on_simple_response
callback_of RestEndpointType.approve_builder_fee = some on_simple_response
callback_of RestEndpointType.user_set_abstraction = some on_simple_response
callback_of RestEndpointType.set_referrer = some on_simple_response
callback_of RestEndpointType.c_deposit = some on_simple_response
callback_of RestEndpointType.c_withdraw = some on_simple_response
callback_of RestEndpointType.token_delegate = some on_simple_response
callback_of RestEndpointType.send_to_evm_with_data = some on_simple_response
callback_of RestEndpointType.user_dex_abstraction = some on_simple_response
callback_of RestEndpointType.user_portfolio_margin = some on_simple_response
callback_of RestEndpointType.agent_send_asset = some on_simple_response
callback_of RestEndpointType.reserve_request_weight = some on_simple_response
callback_of RestEndpointType.noop = some on_simple_response
callback_of RestEndpointType.twap_order = some on_twap_order
callback_of RestEndpointType.twap_cancel = some on_twap_cancel
callback_of RestEndpointType.create_sub_account = some on_create_sub_account
callback_of RestEndpointType.create_vault = some on_create_vault
callback_of RestEndpointType.delegations = some on_delegations
callback_of RestEndpointType.delegator_summary = some on_delegator_summary
callback_of RestEndpointType.delegator_history = some on_delegator_history
callback_of RestEndpointType.delegator_rewards = some on_delegator_rewards
callback_of RestEndpointType.user_dex_abstraction_state = some on_user_dex_abstraction_state
callback_of RestEndpointType.user_abstraction = some on_user_abstraction
callback_of RestEndpointType.exchange_status = some on_exchange_status
callback_of RestEndpointType.token_details = none

-- The callback with the text that its parser is given and the correlation id.
pub record Delivery : Type 0 where
  pub callback : Callback
  pub message : String
  pub correlation_id : Option ℕ

deliver : Option Callback → String → Option ℕ → List Delivery
deliver none message correlation_id = []
deliver (some callback) message correlation_id =
    record { callback = callback; message = message; correlation_id = correlation_id } ∷ []

unfoldable pub parse : String → RestEndpointType → Option ℕ → List Delivery
unfolding deliver callback_of
parse message type correlation_id = deliver (callback_of type) message correlation_id

callback_of-type_of :
    {Double : Type 0} (request : Request Double)
    → (callback : Callback) × (callback_of (type_of request) ≡ some callback)
unfolding callback_of type_of Info.endpoint_of Exchange.endpoint_of
callback_of-type_of (info spot_meta) = (_, refl)
callback_of-type_of (info _) = (_, refl)
callback_of-type_of (exchange (place_order _ _ _) v) = (_, refl)
callback_of-type_of (exchange _ v) = (_, refl)

-- Whatever a method has asked for, `parse` makes one callback, with the text and the correlation
-- id that it was given; no answer to a request reaches `default:`.
pub parse-type_of :
    {Double : Type 0} (request : Request Double) (message : String) (correlation_id : Option ℕ)
    → (callback : Callback) × (callback_of (type_of request) ≡ some callback)
      × (parse message (type_of request) correlation_id
          ≡ record { callback = callback; message = message; correlation_id = correlation_id } ∷ [])
unfolding parse
parse-type_of request message correlation_id =
    let (callback, e) = callback_of-type_of request in (callback, e, rw e refl)
