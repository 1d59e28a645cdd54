-- ===== src/Messages/Info/Market.antt =====
-- src/messages/InfoRequestBuilder.cpp: markets, prices, books, candles, deployments.
use mathlib.Core.Option
use hyperliquid_sdk_cpp.Common.{ℕ, ℤ, String, Option}
use hyperliquid_sdk_cpp.Json.{JsonLib}
use hyperliquid_sdk_cpp.Types.Endpoint.{RestEndpointType, to_string}
use hyperliquid_sdk_cpp.Messages.Wire.{◌▷◌, unsigned, assign_some}

module _ (J : JsonLib) where
  open J use {Json, Object, string, number, boolean, object, empty, assign}

  unfoldable pub spot_meta : Object
  spot_meta = empty ▷ assign "type" (string (to_string RestEndpointType.spot_meta))

  unfoldable pub meta : Option String → Object
  meta dex =
      empty
      ▷ assign "type" (string (to_string RestEndpointType.meta))
      ▷ assign_some J "dex" (Option.map string dex)

  unfoldable pub outcome_meta : Object
  outcome_meta = empty ▷ assign "type" (string (to_string RestEndpointType.outcome_meta))

  unfoldable pub settled_outcome : ℤ → Object
  settled_outcome outcome =
      empty
      ▷ assign "type" (string (to_string RestEndpointType.settled_outcome))
      ▷ assign "outcome" (number outcome)

  unfoldable pub perp_dexs : Object
  perp_dexs = empty ▷ assign "type" (string (to_string RestEndpointType.perp_dexs))

  unfoldable pub perps_at_open_interest_cap : Option String → Object
  perps_at_open_interest_cap dex =
      empty
      ▷ assign "type" (string (to_string RestEndpointType.perps_at_open_interest_cap))
      ▷ assign_some J "dex" (Option.map string dex)

  unfoldable pub predicted_fundings : Object
  predicted_fundings =
      empty ▷ assign "type" (string (to_string RestEndpointType.predicted_fundings))

  unfoldable pub perp_annotation : String → Object
  perp_annotation coin =
      empty
      ▷ assign "type" (string (to_string RestEndpointType.perp_annotation))
      ▷ assign "coin" (string coin)

  unfoldable pub perp_categories : Object
  perp_categories = empty ▷ assign "type" (string (to_string RestEndpointType.perp_categories))

  unfoldable pub perp_concise_annotations : Object
  perp_concise_annotations =
      empty ▷ assign "type" (string (to_string RestEndpointType.perp_concise_annotations))

  unfoldable pub all_perp_metas : Object
  all_perp_metas = empty ▷ assign "type" (string (to_string RestEndpointType.all_perp_metas))

  unfoldable pub perp_dex_limits : String → Object
  perp_dex_limits dex =
      empty
      ▷ assign "type" (string (to_string RestEndpointType.perp_dex_limits))
      ▷ assign "dex" (string dex)

  unfoldable pub perp_dex_status : String → Object
  perp_dex_status dex =
      empty
      ▷ assign "type" (string (to_string RestEndpointType.perp_dex_status))
      ▷ assign "dex" (string dex)

  unfoldable pub perp_deploy_auction_status : Object
  perp_deploy_auction_status =
      empty ▷ assign "type" (string (to_string RestEndpointType.perp_deploy_auction_status))

  unfoldable pub funding_history : String → ℕ → Option ℕ → Object
  funding_history coin start_time end_time =
      empty
      ▷ assign "type" (string (to_string RestEndpointType.funding_history))
      ▷ assign "coin" (string coin)
      ▷ assign "startTime" (unsigned J start_time)
      ▷ assign_some J "endTime" (Option.map (unsigned J) end_time)

  unfoldable pub l2_book : String → Option ℤ → Option ℤ → Object
  l2_book coin n_sig_figs mantissa =
      empty
      ▷ assign "type" (string (to_string RestEndpointType.l2_book))
      ▷ assign "coin" (string coin)
      ▷ assign_some J "nSigFigs" (Option.map number n_sig_figs)
      ▷ assign_some J "mantissa" (Option.map number mantissa)

  unfoldable pub candle_snapshot : String → String → ℕ → ℕ → Object
  candle_snapshot coin interval start_time end_time =
      let req =
        empty
        ▷ assign "coin" (string coin)
        ▷ assign "interval" (string interval)
        ▷ assign "startTime" (unsigned J start_time)
        ▷ assign "endTime" (unsigned J end_time) in
      empty
      ▷ assign "type" (string (to_string RestEndpointType.candle_snapshot))
      ▷ assign "req" (object req)

  unfoldable pub recent_trades : String → Object
  recent_trades coin =
      empty
      ▷ assign "type" (string (to_string RestEndpointType.recent_trades))
      ▷ assign "coin" (string coin)

  unfoldable pub all_mids : Option String → Object
  all_mids dex =
      empty
      ▷ assign "type" (string (to_string RestEndpointType.all_mids))
      ▷ assign_some J "dex" (Option.map string dex)

  unfoldable pub meta_and_asset_ctxs : Option String → Object
  meta_and_asset_ctxs dex =
      empty
      ▷ assign "type" (string (to_string RestEndpointType.meta_and_asset_ctxs))
      ▷ assign_some J "dex" (Option.map string dex)

  unfoldable pub spot_meta_and_asset_ctxs : Object
  spot_meta_and_asset_ctxs =
      empty ▷ assign "type" (string (to_string RestEndpointType.spot_meta_and_asset_ctxs))

  unfoldable pub spot_pair_deploy_auction_status : Object
  spot_pair_deploy_auction_status =
      empty ▷ assign "type" (string (to_string RestEndpointType.spot_pair_deploy_auction_status))

  unfoldable pub borrow_lend_reserve_state : ℤ → Object
  borrow_lend_reserve_state token =
      empty
      ▷ assign "type" (string (to_string RestEndpointType.borrow_lend_reserve_state))
      ▷ assign "token" (number token)

  unfoldable pub all_borrow_lend_reserve_states : Object
  all_borrow_lend_reserve_states =
      empty ▷ assign "type" (string (to_string RestEndpointType.all_borrow_lend_reserve_states))

  unfoldable pub liquidatable : Object
  liquidatable = empty ▷ assign "type" (string (to_string RestEndpointType.liquidatable))

  unfoldable pub exchange_status : Object
  exchange_status = empty ▷ assign "type" (string (to_string RestEndpointType.exchange_status))
