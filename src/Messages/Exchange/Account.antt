-- ===== src/Messages/Exchange/Account.antt =====
-- src/messages/ExchangeRequestBuilder.cpp: agents, vaults, sub-accounts, staking, abstraction.
-- A request of one or two fields is passed as its fields.
use mathlib.Core.Option
use hyperliquid_sdk_cpp.Common.{ℕ, ℤ, to_u64, String, Bool, Option, Result, ok}
use hyperliquid_sdk_cpp.Json.{JsonLib}
use hyperliquid_sdk_cpp.Doubles.{Doubles}
use hyperliquid_sdk_cpp.Messages.Wire.{◌▷◌, unsigned, assign_some, body_of}
use hyperliquid_sdk_cpp.Types.Orders.{
  UserAbstractionMode, user_abstraction_mode_to_string, AbstractionMode, abstraction_mode_to_string,
  VaultTransferRequest, SubAccountTransferRequest, CreateVaultRequest,
}

module _ (J : JsonLib) where
  open J use {Json, Object, string, boolean, number, empty, assign}

  unfoldable pub approve_agent : String → Option String → Result Object
  approve_agent agent_address agent_name = ok (
      body_of J (
        empty
        ▷ assign "type" (string "approveAgent")
        ▷ assign "agentAddress" (string agent_address)
        ▷ assign_some J "agentName" (Option.map string agent_name)))

  unfoldable pub agent_set_abstraction : UserAbstractionMode → Result Object
  agent_set_abstraction abstraction = ok (
      body_of J (
        empty
        ▷ assign "type" (string "agentSetAbstraction")
        ▷ assign "abstraction" (string (user_abstraction_mode_to_string abstraction))))

  unfoldable pub c_deposit : ℕ → Result Object
  c_deposit wei =
      ok (body_of J (empty ▷ assign "type" (string "cDeposit") ▷ assign "wei" (unsigned J wei)))

  unfoldable pub c_withdraw : ℕ → Result Object
  c_withdraw wei =
      ok (body_of J (empty ▷ assign "type" (string "cWithdraw") ▷ assign "wei" (unsigned J wei)))

  unfoldable pub hip3_liquidator_transfer : String → ℕ → Bool → Result Object
  hip3_liquidator_transfer dex ntl is_deposit = ok (
      body_of J (
        empty
        ▷ assign "type" (string "hip3LiquidatorTransfer")
        ▷ assign "dex" (string dex)
        ▷ assign "ntl" (unsigned J ntl)
        ▷ assign "isDeposit" (boolean is_deposit)))

  unfoldable pub create_sub_account : String → Result Object
  create_sub_account name =
      ok (
        body_of J (empty ▷ assign "type" (string "createSubAccount") ▷ assign "name" (string name)))

  unfoldable pub approve_builder_fee : String → String → Result Object
  approve_builder_fee max_fee_rate builder = ok (
      body_of J (
        empty
        ▷ assign "type" (string "approveBuilderFee")
        ▷ assign "maxFeeRate" (string max_fee_rate)
        ▷ assign "builder" (string builder)))

  unfoldable pub user_set_abstraction : String → AbstractionMode → Result Object
  user_set_abstraction user abstraction = ok (
      body_of J (
        empty
        ▷ assign "type" (string "userSetAbstraction")
        ▷ assign "user" (string user)
        ▷ assign "abstraction" (string (abstraction_mode_to_string abstraction))))

  unfoldable pub set_referrer : String → Result Object
  set_referrer referral_code = ok (
      body_of J
        (empty ▷ assign "type" (string "setReferrer") ▷ assign "code" (string referral_code)))

  unfoldable pub token_delegate : String → ℕ → Bool → Result Object
  token_delegate validator wei is_undelegate = ok (
      body_of J (
        empty
        ▷ assign "type" (string "tokenDelegate")
        ▷ assign "validator" (string validator)
        ▷ assign "isUndelegate" (boolean is_undelegate)
        ▷ assign "wei" (unsigned J wei)))

  unfoldable pub user_dex_abstraction : String → Bool → Result Object
  user_dex_abstraction user enabled = ok (
      body_of J (
        empty
        ▷ assign "type" (string "userDexAbstraction")
        ▷ assign "user" (string user)
        ▷ assign "enabled" (boolean enabled)))

  unfoldable pub user_portfolio_margin : String → Bool → Result Object
  user_portfolio_margin user enabled = ok (
      body_of J (
        empty
        ▷ assign "type" (string "userPortfolioMargin")
        ▷ assign "user" (string user)
        ▷ assign "enabled" (boolean enabled)))

  unfoldable pub reserve_request_weight : ℤ → Option String → Result Object
  reserve_request_weight weight destination = ok (
      body_of J (
        empty
        ▷ assign "type" (string "reserveRequestWeight")
        ▷ assign "weight" (number weight)
        ▷ assign_some J "destination" (Option.map string destination)))

  unfoldable pub noop : Result Object
  noop = ok (body_of J (empty ▷ assign "type" (string "noop")))

module _ (J : JsonLib) (D : Doubles) where
  open J use {Json, Object, string, boolean, number, empty, assign}
  open D use {Double, llround_1e6}

  -- `static_cast<uint64_t>(std::llround(usd * 1e6))`
  abbrev pub raw_usd : Double → Json
  raw_usd usd = unsigned J (to_u64 (llround_1e6 usd))

  unfoldable pub vault_transfer : VaultTransferRequest Double → Result Object
  vault_transfer request = ok (
      body_of J (
        empty
        ▷ assign "type" (string "vaultTransfer")
        ▷ assign "vaultAddress" (string request.vault_address)
        ▷ assign "isDeposit" (boolean request.is_deposit)
        ▷ assign "usd" (raw_usd request.usd)))

  unfoldable pub sub_account_transfer : SubAccountTransferRequest Double → Result Object
  sub_account_transfer request = ok (
      body_of J (
        empty
        ▷ assign "type" (string "subAccountTransfer")
        ▷ assign "subAccountUser" (string request.sub_account_user)
        ▷ assign "isDeposit" (boolean request.is_deposit)
        ▷ assign "usd" (raw_usd request.usd)))

  unfoldable pub create_vault : CreateVaultRequest Double → Result Object
  create_vault request = ok (
      body_of J (
        empty
        ▷ assign "type" (string "createVault")
        ▷ assign "name" (string request.name)
        ▷ assign "description" (string request.description)
        ▷ assign "initialUsd" (raw_usd request.initial_usd)))
