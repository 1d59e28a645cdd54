-- ===== src/Messages/Info/Account.antt =====
-- src/messages/InfoRequestBuilder.cpp: a user's account, vaults, staking and lending.
use mathlib.Core.Option
use hyperliquid_sdk_cpp.Common.{ℕ, String, Option}
use hyperliquid_sdk_cpp.Json.{JsonLib}
use hyperliquid_sdk_cpp.Types.Endpoint.{RestEndpointType, to_string}
use hyperliquid_sdk_cpp.Messages.Wire.{◌▷◌, unsigned, assign_some}

module _ (J : JsonLib) where
  open J use {Json, Object, string, number, boolean, object, empty, assign}

  unfoldable pub user_rate_limit : String → Object
  user_rate_limit user =
      empty
      ▷ assign "type" (string (to_string RestEndpointType.user_rate_limit))
      ▷ assign "user" (string user)

  unfoldable pub borrow_lend_user_state : String → Object
  borrow_lend_user_state user =
      empty
      ▷ assign "type" (string (to_string RestEndpointType.borrow_lend_user_state))
      ▷ assign "user" (string user)

  unfoldable pub spot_deploy_state : String → Object
  spot_deploy_state user =
      empty
      ▷ assign "type" (string (to_string RestEndpointType.spot_deploy_state))
      ▷ assign "user" (string user)

  unfoldable pub sub_accounts : String → Object
  sub_accounts user =
      empty
      ▷ assign "type" (string (to_string RestEndpointType.sub_accounts))
      ▷ assign "user" (string user)

  unfoldable pub user_fees : String → Object
  user_fees user =
      empty
      ▷ assign "type" (string (to_string RestEndpointType.user_fees))
      ▷ assign "user" (string user)

  unfoldable pub max_builder_fee : String → String → Object
  max_builder_fee user builder =
      empty
      ▷ assign "type" (string (to_string RestEndpointType.max_builder_fee))
      ▷ assign "user" (string user)
      ▷ assign "builder" (string builder)

  unfoldable pub approved_builders : String → Object
  approved_builders user =
      empty
      ▷ assign "type" (string (to_string RestEndpointType.approved_builders))
      ▷ assign "user" (string user)

  unfoldable pub delegations : String → Object
  delegations user =
      empty
      ▷ assign "type" (string (to_string RestEndpointType.delegations))
      ▷ assign "user" (string user)

  unfoldable pub delegator_summary : String → Object
  delegator_summary user =
      empty
      ▷ assign "type" (string (to_string RestEndpointType.delegator_summary))
      ▷ assign "user" (string user)

  unfoldable pub delegator_history : String → Object
  delegator_history user =
      empty
      ▷ assign "type" (string (to_string RestEndpointType.delegator_history))
      ▷ assign "user" (string user)

  unfoldable pub delegator_rewards : String → Object
  delegator_rewards user =
      empty
      ▷ assign "type" (string (to_string RestEndpointType.delegator_rewards))
      ▷ assign "user" (string user)

  unfoldable pub vault_details : String → Option String → Object
  vault_details vault_address user =
      empty
      ▷ assign "type" (string (to_string RestEndpointType.vault_details))
      ▷ assign "vaultAddress" (string vault_address)
      ▷ assign_some J "user" (Option.map string user)

  unfoldable pub user_vault_equities : String → Object
  user_vault_equities user =
      empty
      ▷ assign "type" (string (to_string RestEndpointType.user_vault_equities))
      ▷ assign "user" (string user)

  unfoldable pub portfolio : String → Object
  portfolio user =
      empty
      ▷ assign "type" (string (to_string RestEndpointType.portfolio))
      ▷ assign "user" (string user)

  unfoldable pub referral : String → Object
  referral user =
      empty
      ▷ assign "type" (string (to_string RestEndpointType.referral))
      ▷ assign "user" (string user)

  unfoldable pub user_role : String → Object
  user_role user =
      empty
      ▷ assign "type" (string (to_string RestEndpointType.user_role))
      ▷ assign "user" (string user)

  unfoldable pub user_borrow_lend_interest : String → ℕ → Option ℕ → Object
  user_borrow_lend_interest user start_time end_time =
      empty
      ▷ assign "type" (string (to_string RestEndpointType.user_borrow_lend_interest))
      ▷ assign "user" (string user)
      ▷ assign "startTime" (unsigned J start_time)
      ▷ assign_some J "endTime" (Option.map (unsigned J) end_time)

  unfoldable pub user_dex_abstraction_state : String → Object
  user_dex_abstraction_state user =
      empty
      ▷ assign "type" (string (to_string RestEndpointType.user_dex_abstraction_state))
      ▷ assign "user" (string user)

  unfoldable pub user_abstraction : String → Object
  user_abstraction user =
      empty
      ▷ assign "type" (string (to_string RestEndpointType.user_abstraction))
      ▷ assign "user" (string user)
