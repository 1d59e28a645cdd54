-- ===== src/Messages/Exchange/Transfers.antt =====
-- src/messages/ExchangeRequestBuilder.cpp: transfers of assets, and lending.
use hyperliquid_sdk_cpp.Common.{String, Bool, Option, none, some, Result, ok, ◌>>=◌}
use hyperliquid_sdk_cpp.Json.{JsonLib}
use hyperliquid_sdk_cpp.Doubles.{Doubles}
use hyperliquid_sdk_cpp.Messages.Wire.{◌▷◌, float_to_wire, unsigned, body_of}
use hyperliquid_sdk_cpp.Types.Orders.{
  BorrowLendRequest, borrow_lend_operation_to_string, SendAssetRequest, SpotSendRequest,
  SendToEvmWithDataRequest, address_encoding_to_string, AgentSendAssetRequest,
}

module _ (J : JsonLib) where
  open J use {Json, Object, string, number, empty, assign}

  unfoldable pub send_to_evm_with_data : SendToEvmWithDataRequest → Result Object
  send_to_evm_with_data request = ok (
      body_of J (
        empty
        ▷ assign "type" (string "sendToEvmWithData")
        ▷ assign "token" (string request.token)
        ▷ assign "amount" (string request.amount)
        ▷ assign "sourceDex" (string request.source_dex)
        ▷ assign "destinationRecipient" (string request.destination_recipient)
        ▷ assign "addressEncoding" (string (address_encoding_to_string request.address_encoding))
        ▷ assign "destinationChainId" (unsigned J request.destination_chain_id)
        ▷ assign "gasLimit" (unsigned J request.gas_limit)
        ▷ assign "data" (string request.payload)))

  abbrev or_empty : Option String → String
  or_empty none = ""
  or_empty (some s) = s

  unfoldable pub agent_send_asset : AgentSendAssetRequest → Result Object
  agent_send_asset request = ok (
      body_of J (
        empty
        ▷ assign "type" (string "agentSendAsset")
        ▷ assign "destination" (string request.destination)
        ▷ assign "sourceDex" (string request.source_dex)
        ▷ assign "destinationDex" (string request.destination_dex)
        ▷ assign "token" (string request.token)
        ▷ assign "amount" (string request.amount)
        ▷ assign "fromSubAccount" (string (or_empty request.from_sub_account))))

module _ (J : JsonLib) (D : Doubles) where
  open J use {Json, Object, null, string, boolean, number, empty, assign}
  open D use {Double}

  pub optional_amount : Option Double → Result Json
  optional_amount none = ok null
  optional_amount (some x) = do amount ← float_to_wire D x; ok (string amount)

  unfoldable pub borrow_lend : BorrowLendRequest Double → Result Object
  unfolding optional_amount
  borrow_lend request = do
    amount ← optional_amount request.amount
    ok (
        body_of J (
          empty
          ▷ assign "type" (string "borrowLend")
          ▷ assign "operation" (string (borrow_lend_operation_to_string request.operation))
          ▷ assign "token" (unsigned J request.token)
          ▷ assign "amount" amount))

  unfoldable pub usd_class_transfer : Double → Bool → Result Object
  usd_class_transfer usd to_perp = do
    amount ← float_to_wire D usd
    ok (
        body_of J (
          empty
          ▷ assign "type" (string "usdClassTransfer")
          ▷ assign "amount" (string amount)
          ▷ assign "toPerp" (boolean to_perp)))

  unfoldable pub send_asset : SendAssetRequest Double → Result Object
  send_asset request = do
    amount ← float_to_wire D request.amount
    ok (
        body_of J (
          empty
          ▷ assign "type" (string "sendAsset")
          ▷ assign "destination" (string request.destination)
          ▷ assign "sourceDex" (string request.source_dex)
          ▷ assign "destinationDex" (string request.destination_dex)
          ▷ assign "token" (string request.token)
          ▷ assign "amount" (string amount)
          ▷ assign "fromSubAccount" (string request.from_sub_account)))

  unfoldable pub usd_send : String → Double → Result Object
  usd_send destination usd = do
    amount ← float_to_wire D usd
    ok (
        body_of J (
          empty
          ▷ assign "type" (string "usdSend")
          ▷ assign "destination" (string destination)
          ▷ assign "amount" (string amount)))

  unfoldable pub spot_send : SpotSendRequest Double → Result Object
  spot_send request = do
    amount ← float_to_wire D request.amount
    ok (
        body_of J (
          empty
          ▷ assign "type" (string "spotSend")
          ▷ assign "destination" (string request.destination)
          ▷ assign "token" (string request.token)
          ▷ assign "amount" (string amount)))

  unfoldable pub withdraw3 : String → Double → Result Object
  withdraw3 destination usd = do
    amount ← float_to_wire D usd
    ok (
        body_of J (
          empty
          ▷ assign "type" (string "withdraw3")
          ▷ assign "destination" (string destination)
          ▷ assign "amount" (string amount)))
