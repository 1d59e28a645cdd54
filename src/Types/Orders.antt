-- ===== src/Types/Orders.antt =====
-- include/hyperliquid/types/RequestTypes.h: the arguments of the exchange actions. `int` and
-- `int64_t` are ℤ, `uint64_t` and `uint32_t` are ℕ; `Double` is the type of a `double`.
use text.Mathlib.Text.{◌==◌ as str_eq}
use hyperliquid_sdk_cpp.Common.{
  ℕ, ℤ, String, Bool, Option, Result, ok, err, invalid_argument, if◌then◌else◌,
}
use Prim.Native.String

pub data Tif : Type 0 where
  alo ioc gtc : Tif

unfoldable pub tif_to_string : Tif → String
tif_to_string alo = "Alo"
tif_to_string ioc = "Ioc"
tif_to_string gtc = "Gtc"

pub data TpSl : Type 0 where
  tp sl : TpSl

unfoldable pub tpsl_to_string : TpSl → String
tpsl_to_string tp = "tp"
tpsl_to_string sl = "sl"

pub data Grouping : Type 0 where
  na normal_tpsl position_tpsl : Grouping

unfoldable pub grouping_to_string : Grouping → String
grouping_to_string na = "na"
grouping_to_string normal_tpsl = "normalTpsl"
grouping_to_string position_tpsl = "positionTpsl"

pub data UserAbstractionMode : Type 0 where
  disabled unified_account portfolio_margin : UserAbstractionMode

unfoldable pub user_abstraction_mode_to_string : UserAbstractionMode → String
user_abstraction_mode_to_string disabled = "i"
user_abstraction_mode_to_string unified_account = "u"
user_abstraction_mode_to_string portfolio_margin = "p"

unfoldable pub string_to_user_abstraction_mode : String → Result UserAbstractionMode
string_to_user_abstraction_mode mode =
    if str_eq mode "i"
    then ok disabled
    else if str_eq mode "u"
    then ok unified_account
    else if str_eq mode "p"
    then ok portfolio_margin
    else err (invalid_argument (String.◌++◌ "Unknown UserAbstractionMode: " mode))

pub data BorrowLendOperation : Type 0 where
  supply withdraw repay borrow : BorrowLendOperation

unfoldable pub borrow_lend_operation_to_string : BorrowLendOperation → String
borrow_lend_operation_to_string supply = "supply"
borrow_lend_operation_to_string withdraw = "withdraw"
borrow_lend_operation_to_string repay = "repay"
borrow_lend_operation_to_string borrow = "borrow"

pub data PerpMarginMode : Type 0 where
  strict_isolated no_cross normal : PerpMarginMode

unfoldable pub perp_margin_mode_to_string : PerpMarginMode → String
perp_margin_mode_to_string strict_isolated = "strictIsolated"
perp_margin_mode_to_string no_cross = "noCross"
perp_margin_mode_to_string normal = "normal"

pub data AbstractionMode : Type 0 where
  disabled unified_account portfolio_margin : AbstractionMode

unfoldable pub abstraction_mode_to_string : AbstractionMode → String
abstraction_mode_to_string AbstractionMode.disabled = "disabled"
abstraction_mode_to_string AbstractionMode.unified_account = "unifiedAccount"
abstraction_mode_to_string AbstractionMode.portfolio_margin = "portfolioMargin"

pub data AddressEncoding : Type 0 where
  hex base58 : AddressEncoding

unfoldable pub address_encoding_to_string : AddressEncoding → String
address_encoding_to_string hex = "hex"
address_encoding_to_string base58 = "base58"

unfoldable pub string_to_address_encoding : String → Result AddressEncoding
string_to_address_encoding encoding =
    if str_eq encoding "hex"
    then ok hex
    else if str_eq encoding "base58"
    then ok base58
    else err (invalid_argument (String.◌++◌ "Unknown AddressEncoding: " encoding))

module _ (Double : Type 0) where
  pub record TriggerOrderType : Type 0 where
    pub is_market : Bool
    pub trigger_px : Double
    pub tpsl : TpSl

  -- `limit` is a struct of one field, `tif`.
  pub record OrderRequest : Type 0 where
    pub asset : String
    pub is_buy : Bool
    pub price : Double
    pub size : Double
    pub reduce_only : Bool
    pub limit : Option Tif
    pub trigger : Option TriggerOrderType
    pub cloid : Option String
    pub asset_id : Option ℤ

  pub record ModifyRequest : Type 0 where
    pub oid : Option ℕ
    pub cloid : Option String
    pub order : OrderRequest

  pub record TwapOrderRequest : Type 0 where
    pub asset : String
    pub is_buy : Bool
    pub size : Double
    pub reduce_only : Bool
    pub minutes : ℤ
    pub randomize : Bool
    pub asset_id : Option ℤ

  pub record VaultTransferRequest : Type 0 where
    pub vault_address : String
    pub is_deposit : Bool
    pub usd : Double

  pub record SubAccountTransferRequest : Type 0 where
    pub sub_account_user : String
    pub is_deposit : Bool
    pub usd : Double

  pub record BorrowLendRequest : Type 0 where
    pub operation : BorrowLendOperation
    pub token : ℕ
    pub amount : Option Double

  pub record SendAssetRequest : Type 0 where
    pub destination : String
    pub source_dex : String
    pub destination_dex : String
    pub token : String
    pub amount : Double
    pub from_sub_account : String

  pub record SpotSendRequest : Type 0 where
    pub destination : String
    pub token : String
    pub amount : Double

  pub record CreateVaultRequest : Type 0 where
    pub name : String
    pub description : String
    pub initial_usd : Double

pub record CancelRequest : Type 0 where
  pub asset : String
  pub oid : ℕ
  pub asset_id : Option ℤ

pub record CancelByCloidRequest : Type 0 where
  pub asset : String
  pub cloid : String
  pub asset_id : Option ℤ

pub record Builder : Type 0 where
  pub address : String
  pub fee : ℤ

pub record UpdateLeverageRequest : Type 0 where
  pub asset : String
  pub is_cross : Bool
  pub leverage : ℤ
  pub asset_id : Option ℤ

pub record UpdateIsolatedMarginRequest : Type 0 where
  pub asset : String
  pub is_buy : Bool
  pub ntli : ℤ
  pub asset_id : Option ℤ

pub record TwapCancelRequest : Type 0 where
  pub asset : String
  pub twap_id : ℕ
  pub asset_id : Option ℤ

pub record SendToEvmWithDataRequest : Type 0 where
  pub token : String
  pub amount : String
  pub source_dex : String
  pub destination_recipient : String
  pub address_encoding : AddressEncoding
  pub destination_chain_id : ℕ
  pub gas_limit : ℕ
  pub payload : String

pub record AgentSendAssetRequest : Type 0 where
  pub destination : String
  pub source_dex : String
  pub destination_dex : String
  pub token : String
  pub amount : String
  pub from_sub_account : Option String
