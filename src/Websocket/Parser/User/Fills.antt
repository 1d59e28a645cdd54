-- ===== src/Websocket/Parser/User/Fills.antt =====
-- src/websocket/WebsocketMessageParser.cpp: `parseFillObject` and `crackUserFills`.
use text.Mathlib.Text.{◌==◌ as str_eq}
use hyperliquid_sdk_cpp.Common.{
  ℕ, Char, String, Bool, true, false, List, [], ◌∷◌, Option, none, some, if◌then◌else◌,
}
use hyperliquid_sdk_cpp.Simdjson.{SimdLib, SimdDoubles, ◌>>=◌, get_object, string_at}
use hyperliquid_sdk_cpp.Websocket.Parser.Trades.{first_char}

pub data LiquidationMethod : Type 0 where
  market backstop unknown : LiquidationMethod

unfoldable pub string_to_liquidation_method : String → LiquidationMethod
string_to_liquidation_method s =
    if str_eq s "market" then market else if str_eq s "backstop" then backstop else unknown

pub record Fill (Double : Type 0) : Type 0 where
  pub coin : String
  pub px : Double
  pub sz : Double
  pub side : Char
  pub time : ℕ
  pub start_position : Double
  pub dir : String
  pub closed_pnl : Double
  pub hash : String
  pub oid : ℕ
  pub crossed : Bool
  pub fee : Double
  pub tid : ℕ
  pub fee_token : String
  pub builder_fee : Double
  pub has_builder_fee : Bool
  pub is_liquidation : Bool
  pub liquidated_user : String
  pub liquidation_mark_px : Double
  pub liquidation_method : LiquidationMethod
  pub is_snapshot : Bool

module _ (S : SimdLib) (D : SimdDoubles S) where
  open S use {Value, member, get_string, get_uint64, get_bool, get_array}
  open D use {Double, get_double, to_double, zero_double}

  -- `hasBuilderFee` and `builderFee`: a number, or else a text.
  fee_text : Option String → Bool × Double
  fee_text none = (false, zero_double)
  fee_text (some text) = (true, to_double text)

  fee_number : Option Double → Option String → Bool × Double
  fee_number none text = fee_text text
  fee_number (some fee) text = (true, fee)

  builder_fee_of : Value → Bool × Double
  unfolding fee_number fee_text
  builder_fee_of obj =
      fee_number (member "builderFee" obj >>= get_double) (member "builderFee" obj >>= get_string)

  with_liquidation : Option Value → Fill Double → Option (Fill Double)
  with_liquidation none fill = some fill
  with_liquidation (some liq) fill = do
    user ← string_at S "liquidatedUser" liq
    mark_px ← string_at S "markPx" liq
    method ← string_at S "method" liq
    some (record fill {
      is_liquidation = true;
      liquidated_user = user;
      liquidation_mark_px = to_double mark_px;
      liquidation_method = string_to_liquidation_method method;
    })

  -- All but `isSnapshot`, which is assigned at the end.
  pub fill_fields : Value → Option (Fill Double)
  unfolding builder_fee_of with_liquidation
  fill_fields obj = do
    coin ← string_at S "coin" obj
    px ← string_at S "px" obj
    sz ← string_at S "sz" obj
    side ← string_at S "side" obj
    time ← member "time" obj >>= get_uint64
    start_position ← string_at S "startPosition" obj
    dir ← string_at S "dir" obj
    closed_pnl ← string_at S "closedPnl" obj
    hash ← string_at S "hash" obj
    oid ← member "oid" obj >>= get_uint64
    crossed ← member "crossed" obj >>= get_bool
    fee ← string_at S "fee" obj
    tid ← member "tid" obj >>= get_uint64
    fee_token ← string_at S "feeToken" obj
    with_liquidation (member "liquidation" obj >>= get_object S) (record {
      coin = coin;
      px = to_double px;
      sz = to_double sz;
      side = first_char side;
      time = time;
      start_position = to_double start_position;
      dir = dir;
      closed_pnl = to_double closed_pnl;
      hash = hash;
      oid = oid;
      crossed = crossed;
      fee = to_double fee;
      tid = tid;
      fee_token = fee_token;
      builder_fee = (builder_fee_of obj).1;
      has_builder_fee = (builder_fee_of obj).0;
      is_liquidation = false;
      liquidated_user = "";
      liquidation_mark_px = zero_double;
      liquidation_method = unknown;
      is_snapshot = false;
    })

  -- With `get_object` of the loop's entry.
  unfoldable pub parse_fill_object : Bool → Value → Option (Fill Double)
  unfolding fill_fields
  parse_fill_object is_snapshot entry = do
    obj ← get_object S entry
    fill ← fill_fields obj
    some (record fill { is_snapshot = is_snapshot })

module _ (S : SimdLib) where
  open S use {Value, member, get_bool, get_array}

  -- A loop whose `catch` skips one entry.
  abbrev pub keep {ℓ} : {A : Type ℓ} → Option A → List A → List A
  keep none later = later
  keep (some a) later = a ∷ later

  unfoldable pub each_read {ℓ} : {A : Type ℓ} → (Value → Option A) → List Value → List A
  each_read entry [] = []
  each_read entry (v ∷ vs) = keep (entry v) (each_read entry vs)

  -- `isSnapshot` in `crackUserFundings`, which keeps false on any error.
  pub snapshot_unless_error : Value → Bool
  snapshot_unless_error d = elim (member "isSnapshot" d >>= get_bool) [ none ↦ false | some b ↦ b ]

  -- `isSnapshot` in `crackUserFills`: a value that is no Boolean is an error.
  unfoldable pub snapshot_flag : Option Value → Option Bool
  snapshot_flag none = some false
  snapshot_flag (some v) = get_bool v

module _ (S : SimdLib) (D : SimdDoubles S) where
  open S use {Value, member, get_array}
  open D use {Double}

  unfoldable pub fills_with : Option Bool → Option (List Value) → List (Fill Double)
  fills_with none entries = []
  fills_with (some is_snapshot) none = []
  fills_with (some is_snapshot) (some entries) =
      each_read S (parse_fill_object S D is_snapshot) entries

  -- What `onUserFill` is called with.
  unfoldable pub crack_user_fills : Value → List (Fill Double)
  unfolding fills_with
  crack_user_fills d =
      fills_with (snapshot_flag S (member "isSnapshot" d)) (member "fills" d >>= get_array)
