-- ===== src/Websocket/Parser/User.antt =====
-- src/websocket/WebsocketMessageParser.cpp: what a user is told of fills, orders, fundings,
-- liquidations and cancels. The structs are of include/hyperliquid/types/ResponseTypes.h.
pub mod Fills
pub mod Orders
pub mod SameFills
use hyperliquid_sdk_cpp.Common.{ℕ, String, Bool, false, List, [], ◌∷◌, map, Option, none, some}
use hyperliquid_sdk_cpp.Simdjson.{SimdLib, SimdDoubles, ◌>>=◌, get_object, string_at}
use Fills.{Fill, parse_fill_object, each_read, snapshot_unless_error}

pub record UserFunding (Double : Type 0) : Type 0 where
  pub time : ℕ
  pub coin : String
  pub usdc : Double
  pub szi : Double
  pub funding_rate : Double
  pub is_snapshot : Bool

pub record Liquidation (Double : Type 0) : Type 0 where
  pub lid : ℕ
  pub liquidator : String
  pub liquidated_user : String
  pub liquidated_ntl_pos : Double
  pub liquidated_account_value : Double

pub record NonUserCancel : Type 0 where
  pub coin : String
  pub oid : ℕ

-- The callbacks that `crackUserEvents` calls.
pub data UserEvent (Double : Type 0) : Type 0 where
  on_user_fill : Fill Double → UserEvent Double
  on_user_funding : UserFunding Double → UserEvent Double
  on_liquidation : Liquidation Double → UserEvent Double
  on_non_user_cancel : NonUserCancel → UserEvent Double

-- One callback, unless an error came first.
abbrev pub once {ℓ κ} : {A : Type ℓ} {B : Type κ} → (A → B) → Option A → List B
once f none = []
once f (some a) = f a ∷ []

module _ (S : SimdLib) (D : SimdDoubles S) where
  open S use {Value, member, get_uint64, get_array}
  open D use {Double, to_double}

  pub user_funding : Bool → Value → Option (UserFunding Double)
  user_funding is_snapshot entry = do
    obj ← get_object S entry
    time ← member "time" obj >>= get_uint64
    coin ← string_at S "coin" obj
    usdc ← string_at S "usdc" obj
    szi ← string_at S "szi" obj
    funding_rate ← string_at S "fundingRate" obj
    some (record {
      time = time;
      coin = coin;
      usdc = to_double usdc;
      szi = to_double szi;
      funding_rate = to_double funding_rate;
      is_snapshot = is_snapshot;
    })

  pub liquidation_of : Value → Option (Liquidation Double)
  liquidation_of obj = do
    lid ← member "lid" obj >>= get_uint64
    liquidator ← string_at S "liquidator" obj
    liquidated_user ← string_at S "liquidatedUser" obj
    ntl_pos ← string_at S "liquidatedNtlPos" obj
    account_value ← string_at S "liquidatedAccountValue" obj
    some (record {
      lid = lid;
      liquidator = liquidator;
      liquidated_user = liquidated_user;
      liquidated_ntl_pos = to_double ntl_pos;
      liquidated_account_value = to_double account_value;
    })

  pub non_user_cancel : Value → Option NonUserCancel
  non_user_cancel entry = do
    obj ← get_object S entry
    coin ← string_at S "coin" obj
    oid ← member "oid" obj >>= get_uint64
    some (record { coin = coin; oid = oid })

  -- The kinds of events in the order in which `crackUserEvents` looks for them.
  pub cancels_in : Option (List Value) → List (UserEvent Double)
  cancels_in none = []
  cancels_in (some entries) = map on_non_user_cancel (each_read S non_user_cancel entries)

  pub liquidation_in : Option Value → List (UserEvent Double) → List (UserEvent Double)
  liquidation_in none others = others
  liquidation_in (some obj) others = once on_liquidation (liquidation_of obj)

  pub funding_in : Option Value → List (UserEvent Double) → List (UserEvent Double)
  funding_in none others = others
  funding_in (some obj) others = once on_user_funding (user_funding false obj)

  pub fills_in : Option (List Value) → List (UserEvent Double) → List (UserEvent Double)
  fills_in none others = others
  fills_in (some entries) others =
      map on_user_fill (each_read S (parse_fill_object S D false) entries)

  unfoldable pub crack_user_events : Value → List (UserEvent Double)
  unfolding fills_in
  crack_user_events d = fills_in (member "fills" d >>= get_array) (
      funding_in (member "funding" d >>= get_object S) (
        liquidation_in (member "liquidation" d >>= get_object S)
          (cancels_in (member "nonUserCancel" d >>= get_array))))

  -- What `onUserFundingUpdate` is called with; a flag that is no Boolean is passed over.
  unfoldable pub crack_user_fundings : Value → List (UserFunding Double)
  crack_user_fundings d = all_of (member "fundings" d >>= get_array)
    where
      all_of : Option (List Value) → List (UserFunding Double)
      all_of none = []
      all_of (some entries) = each_read S (user_funding (snapshot_unless_error S d)) entries
