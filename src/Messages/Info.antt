-- ===== src/Messages/Info.antt =====
-- src/rest/RestApi.cpp: the methods that ask for information, each with the endpoint that it passes
-- to `signAndSendSync` or `signAndSend` and the builder of its body.
pub mod Market
pub mod Trading
pub mod Account
use hyperliquid_sdk_cpp.Common.{ℕ, ℤ, String, Bool, Option}
use hyperliquid_sdk_cpp.Json.{JsonLib}
use hyperliquid_sdk_cpp.Types.Endpoint.{RestEndpointType}
use Trading.{OrderId}

pub data InfoRequest : Type 0 where
  spot_meta outcome_meta perp_dexs : InfoRequest
  predicted_fundings perp_categories perp_concise_annotations : InfoRequest
  all_perp_metas perp_deploy_auction_status spot_meta_and_asset_ctxs : InfoRequest
  spot_pair_deploy_auction_status all_borrow_lend_reserve_states liquidatable : InfoRequest
  exchange_status : InfoRequest
  meta : Option String → InfoRequest
  settled_outcome : ℤ → InfoRequest
  perps_at_open_interest_cap : Option String → InfoRequest
  perp_annotation : String → InfoRequest
  perp_dex_limits : String → InfoRequest
  perp_dex_status : String → InfoRequest
  user_funding : String → ℕ → Option ℕ → InfoRequest
  user_non_funding_ledger_updates : String → ℕ → Option ℕ → InfoRequest
  funding_history : String → ℕ → Option ℕ → InfoRequest
  l2_book : String → Option ℤ → Option ℤ → InfoRequest
  candle_snapshot : String → String → ℕ → ℕ → InfoRequest
  recent_trades : String → InfoRequest
  all_mids : Option String → InfoRequest
  open_orders : String → Option String → InfoRequest
  order_status : String → OrderId → InfoRequest
  user_fills : String → Option Bool → Option String → InfoRequest
  user_fills_by_time : String → ℕ → Option ℕ → Option Bool → Option String → InfoRequest
  clearinghouse_state : String → Option String → InfoRequest
  user_rate_limit : String → InfoRequest
  borrow_lend_user_state : String → InfoRequest
  meta_and_asset_ctxs : Option String → InfoRequest
  spot_clearinghouse_state : String → Option String → InfoRequest
  spot_deploy_state : String → InfoRequest
  frontend_open_orders : String → Option String → InfoRequest
  historical_orders : String → InfoRequest
  user_twap_slice_fills : String → InfoRequest
  user_twap_slice_fills_by_time : String → ℕ → Option ℕ → Option Bool → InfoRequest
  twap_history : String → InfoRequest
  active_asset_data : String → String → InfoRequest
  sub_accounts : String → InfoRequest
  user_fees : String → InfoRequest
  max_builder_fee : String → String → InfoRequest
  approved_builders : String → InfoRequest
  delegations : String → InfoRequest
  delegator_summary : String → InfoRequest
  delegator_history : String → InfoRequest
  delegator_rewards : String → InfoRequest
  vault_details : String → Option String → InfoRequest
  user_vault_equities : String → InfoRequest
  portfolio : String → InfoRequest
  referral : String → InfoRequest
  user_role : String → InfoRequest
  borrow_lend_reserve_state : ℤ → InfoRequest
  user_borrow_lend_interest : String → ℕ → Option ℕ → InfoRequest
  user_dex_abstraction_state : String → InfoRequest
  user_abstraction : String → InfoRequest

unfoldable pub endpoint_of : InfoRequest → RestEndpointType
endpoint_of spot_meta = RestEndpointType.spot_meta
endpoint_of (meta _) = RestEndpointType.meta
endpoint_of outcome_meta = RestEndpointType.outcome_meta
endpoint_of (settled_outcome _) = RestEndpointType.settled_outcome
endpoint_of perp_dexs = RestEndpointType.perp_dexs
endpoint_of (perps_at_open_interest_cap _) = RestEndpointType.perps_at_open_interest_cap
endpoint_of predicted_fundings = RestEndpointType.predicted_fundings
endpoint_of (perp_annotation _) = RestEndpointType.perp_annotation
endpoint_of perp_categories = RestEndpointType.perp_categories
endpoint_of perp_concise_annotations = RestEndpointType.perp_concise_annotations
endpoint_of all_perp_metas = RestEndpointType.all_perp_metas
endpoint_of (perp_dex_limits _) = RestEndpointType.perp_dex_limits
endpoint_of (perp_dex_status _) = RestEndpointType.perp_dex_status
endpoint_of perp_deploy_auction_status = RestEndpointType.perp_deploy_auction_status
endpoint_of (user_funding _ _ _) = RestEndpointType.user_funding
endpoint_of (user_non_funding_ledger_updates _ _ _) =
    RestEndpointType.user_non_funding_ledger_updates
endpoint_of (funding_history _ _ _) = RestEndpointType.funding_history
endpoint_of (l2_book _ _ _) = RestEndpointType.l2_book
endpoint_of (candle_snapshot _ _ _ _) = RestEndpointType.candle_snapshot
endpoint_of (recent_trades _) = RestEndpointType.recent_trades
endpoint_of (all_mids _) = RestEndpointType.all_mids
endpoint_of (open_orders _ _) = RestEndpointType.open_orders
endpoint_of (order_status _ _) = RestEndpointType.order_status
endpoint_of (user_fills _ _ _) = RestEndpointType.user_fills
endpoint_of (user_fills_by_time _ _ _ _ _) = RestEndpointType.user_fills_by_time
endpoint_of (clearinghouse_state _ _) = RestEndpointType.clearinghouse_state
endpoint_of (user_rate_limit _) = RestEndpointType.user_rate_limit
endpoint_of (borrow_lend_user_state _) = RestEndpointType.borrow_lend_user_state
endpoint_of (meta_and_asset_ctxs _) = RestEndpointType.meta_and_asset_ctxs
endpoint_of spot_meta_and_asset_ctxs = RestEndpointType.spot_meta_and_asset_ctxs
endpoint_of (spot_clearinghouse_state _ _) = RestEndpointType.spot_clearinghouse_state
endpoint_of (spot_deploy_state _) = RestEndpointType.spot_deploy_state
endpoint_of spot_pair_deploy_auction_status = RestEndpointType.spot_pair_deploy_auction_status
endpoint_of (frontend_open_orders _ _) = RestEndpointType.frontend_open_orders
endpoint_of (historical_orders _) = RestEndpointType.historical_orders
endpoint_of (user_twap_slice_fills _) = RestEndpointType.user_twap_slice_fills
endpoint_of (user_twap_slice_fills_by_time _ _ _ _) = RestEndpointType.user_twap_slice_fills_by_time
endpoint_of (twap_history _) = RestEndpointType.twap_history
endpoint_of (active_asset_data _ _) = RestEndpointType.active_asset_data
endpoint_of (sub_accounts _) = RestEndpointType.sub_accounts
endpoint_of (user_fees _) = RestEndpointType.user_fees
endpoint_of (max_builder_fee _ _) = RestEndpointType.max_builder_fee
endpoint_of (approved_builders _) = RestEndpointType.approved_builders
endpoint_of (delegations _) = RestEndpointType.delegations
endpoint_of (delegator_summary _) = RestEndpointType.delegator_summary
endpoint_of (delegator_history _) = RestEndpointType.delegator_history
endpoint_of (delegator_rewards _) = RestEndpointType.delegator_rewards
endpoint_of (vault_details _ _) = RestEndpointType.vault_details
endpoint_of (user_vault_equities _) = RestEndpointType.user_vault_equities
endpoint_of (portfolio _) = RestEndpointType.portfolio
endpoint_of (referral _) = RestEndpointType.referral
endpoint_of (user_role _) = RestEndpointType.user_role
endpoint_of (borrow_lend_reserve_state _) = RestEndpointType.borrow_lend_reserve_state
endpoint_of all_borrow_lend_reserve_states = RestEndpointType.all_borrow_lend_reserve_states
endpoint_of (user_borrow_lend_interest _ _ _) = RestEndpointType.user_borrow_lend_interest
endpoint_of liquidatable = RestEndpointType.liquidatable
endpoint_of (user_dex_abstraction_state _) = RestEndpointType.user_dex_abstraction_state
endpoint_of (user_abstraction _) = RestEndpointType.user_abstraction
endpoint_of exchange_status = RestEndpointType.exchange_status

unfoldable pub build : (J : JsonLib) → InfoRequest → J.Object
unfolding Market.spot_meta Market.meta Market.outcome_meta Market.settled_outcome Market.perp_dexs
    Market.perps_at_open_interest_cap Market.predicted_fundings Market.perp_annotation
    Market.perp_categories Market.perp_concise_annotations Market.all_perp_metas
    Market.perp_dex_limits Market.perp_dex_status Market.perp_deploy_auction_status
    Trading.user_funding Trading.user_non_funding_ledger_updates Market.funding_history
    Market.l2_book Market.candle_snapshot Market.recent_trades Market.all_mids Trading.open_orders
    Trading.order_status Trading.user_fills Trading.user_fills_by_time Trading.clearinghouse_state
    Account.user_rate_limit Account.borrow_lend_user_state Market.meta_and_asset_ctxs
    Market.spot_meta_and_asset_ctxs Trading.spot_clearinghouse_state Account.spot_deploy_state
    Market.spot_pair_deploy_auction_status Trading.frontend_open_orders Trading.historical_orders
    Trading.user_twap_slice_fills Trading.user_twap_slice_fills_by_time Trading.twap_history
    Trading.active_asset_data Account.sub_accounts Account.user_fees Account.max_builder_fee
    Account.approved_builders Account.delegations Account.delegator_summary
    Account.delegator_history Account.delegator_rewards Account.vault_details
    Account.user_vault_equities Account.portfolio Account.referral Account.user_role
    Market.borrow_lend_reserve_state Market.all_borrow_lend_reserve_states
    Account.user_borrow_lend_interest Market.liquidatable Account.user_dex_abstraction_state
    Account.user_abstraction Market.exchange_status
build J spot_meta = Market.spot_meta J
build J (meta dex) = Market.meta J dex
build J outcome_meta = Market.outcome_meta J
build J (settled_outcome outcome) = Market.settled_outcome J outcome
build J perp_dexs = Market.perp_dexs J
build J (perps_at_open_interest_cap dex) = Market.perps_at_open_interest_cap J dex
build J predicted_fundings = Market.predicted_fundings J
build J (perp_annotation coin) = Market.perp_annotation J coin
build J perp_categories = Market.perp_categories J
build J perp_concise_annotations = Market.perp_concise_annotations J
build J all_perp_metas = Market.all_perp_metas J
build J (perp_dex_limits dex) = Market.perp_dex_limits J dex
build J (perp_dex_status dex) = Market.perp_dex_status J dex
build J perp_deploy_auction_status = Market.perp_deploy_auction_status J
build J (user_funding user start_time end_time) = Trading.user_funding J user start_time end_time
build J (user_non_funding_ledger_updates user start_time end_time) =
    Trading.user_non_funding_ledger_updates J user start_time end_time
build J (funding_history coin start_time end_time) =
    Market.funding_history J coin start_time end_time
build J (l2_book coin n_sig_figs mantissa) = Market.l2_book J coin n_sig_figs mantissa
build J (candle_snapshot coin interval start_time end_time) =
    Market.candle_snapshot J coin interval start_time end_time
build J (recent_trades coin) = Market.recent_trades J coin
build J (all_mids dex) = Market.all_mids J dex
build J (open_orders user dex) = Trading.open_orders J user dex
build J (order_status user oid) = Trading.order_status J user oid
build J (user_fills user aggregate_by_time dex) = Trading.user_fills J user aggregate_by_time dex
build J (user_fills_by_time user start_time end_time aggregate_by_time dex) =
    Trading.user_fills_by_time J user start_time end_time aggregate_by_time dex
build J (clearinghouse_state user dex) = Trading.clearinghouse_state J user dex
build J (user_rate_limit user) = Account.user_rate_limit J user
build J (borrow_lend_user_state user) = Account.borrow_lend_user_state J user
build J (meta_and_asset_ctxs dex) = Market.meta_and_asset_ctxs J dex
build J spot_meta_and_asset_ctxs = Market.spot_meta_and_asset_ctxs J
build J (spot_clearinghouse_state user dex) = Trading.spot_clearinghouse_state J user dex
build J (spot_deploy_state user) = Account.spot_deploy_state J user
build J spot_pair_deploy_auction_status = Market.spot_pair_deploy_auction_status J
build J (frontend_open_orders user dex) = Trading.frontend_open_orders J user dex
build J (historical_orders user) = Trading.historical_orders J user
build J (user_twap_slice_fills user) = Trading.user_twap_slice_fills J user
build J (user_twap_slice_fills_by_time user start_time end_time aggregate_by_time) =
    Trading.user_twap_slice_fills_by_time J user start_time end_time aggregate_by_time
build J (twap_history user) = Trading.twap_history J user
build J (active_asset_data user coin) = Trading.active_asset_data J user coin
build J (sub_accounts user) = Account.sub_accounts J user
build J (user_fees user) = Account.user_fees J user
build J (max_builder_fee user builder) = Account.max_builder_fee J user builder
build J (approved_builders user) = Account.approved_builders J user
build J (delegations user) = Account.delegations J user
build J (delegator_summary user) = Account.delegator_summary J user
build J (delegator_history user) = Account.delegator_history J user
build J (delegator_rewards user) = Account.delegator_rewards J user
build J (vault_details vault_address user) = Account.vault_details J vault_address user
build J (user_vault_equities user) = Account.user_vault_equities J user
build J (portfolio user) = Account.portfolio J user
build J (referral user) = Account.referral J user
build J (user_role user) = Account.user_role J user
build J (borrow_lend_reserve_state token) = Market.borrow_lend_reserve_state J token
build J all_borrow_lend_reserve_states = Market.all_borrow_lend_reserve_states J
build J (user_borrow_lend_interest user start_time end_time) =
    Account.user_borrow_lend_interest J user start_time end_time
build J liquidatable = Market.liquidatable J
build J (user_dex_abstraction_state user) = Account.user_dex_abstraction_state J user
build J (user_abstraction user) = Account.user_abstraction J user
build J exchange_status = Market.exchange_status J
