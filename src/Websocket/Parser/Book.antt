-- ===== src/Websocket/Parser/Book.antt =====
-- src/websocket/WebsocketMessageParser.cpp: `crackL2Book` and `crackBbo`.
pub mod Levels
use hyperliquid_sdk_cpp.Common.{
  ℕ, zero, suc, String, ℤ, to_i32, Bool, true, false, List, [], ◌∷◌, ◌++◌, Option, none, some, ltb,
  length, if◌then◌else◌,
}
use hyperliquid_sdk_cpp.Simdjson.{SimdLib, ◌>>=◌, get_object, string_at}

pub data Side : Type 0 where
  bid ask : Side

-- `crackBbo` leaves `side` unset.
pub record PriceLevel : Type 0 where
  pub side : Option Side
  pub px : String
  pub sz : String
  pub n : ℤ

abbrev pub l2_book_max_levels : ℕ
l2_book_max_levels = 50

-- `bids` is what stands in the first `numBids` places of the array, and `asks` likewise.
pub record L2BookSnapshot : Type 0 where
  pub coin : String
  pub time : ℕ
  pub bids : List PriceLevel
  pub asks : List PriceLevel

-- A level that is not there is null in the message.
pub record BboUpdate : Type 0 where
  pub coin : String
  pub time : ℕ
  pub best_bid : Option PriceLevel
  pub best_ask : Option PriceLevel

-- `if (snapshot.numBids < L2_BOOK_MAX_LEVELS) snapshot.bids[snapshot.numBids++] = level;`
unfoldable pub add_level : PriceLevel → List PriceLevel → List PriceLevel
add_level level levels =
    if ltb (length levels) l2_book_max_levels then levels ++ level ∷ [] else levels

abbrev pub push_level : Side → PriceLevel → L2BookSnapshot → L2BookSnapshot
push_level bid level book = record book { bids = add_level level book.bids }
push_level ask level book = record book { asks = add_level level book.asks }

module _ (S : SimdLib) where
  open S use {Value, member, is_null, get_uint64, get_int64, get_array}

  unfoldable pub level_of : Option Side → Value → Option PriceLevel
  level_of side entry = do
    obj ← get_object S entry
    px ← string_at S "px" obj
    sz ← string_at S "sz" obj
    n ← member "n" obj >>= get_int64
    some (record { side = side; px = px; sz = sz; n = to_i32 n })

  -- The body of the inner loop: its `catch` skips the level.
  abbrev pub push_if_read : Side → Option PriceLevel → L2BookSnapshot → L2BookSnapshot
  push_if_read side none book = book
  push_if_read side (some level) book = push_level side level book

  unfoldable pub fill_side : Side → List Value → L2BookSnapshot → L2BookSnapshot
  fill_side side [] book = book
  fill_side side (entry ∷ entries) book =
      fill_side side entries (push_if_read side (level_of (some side) entry) book)

  -- The outer loop, from the side with this index on; it breaks at the third.
  unfoldable pub fill_sides : ℕ → List Value → L2BookSnapshot → Option L2BookSnapshot
  fill_sides i [] book = some book
  fill_sides zero (side ∷ sides) book = do
    entries ← get_array side
    fill_sides 1 sides (fill_side bid entries book)
  fill_sides (suc zero) (side ∷ sides) book = do
    entries ← get_array side
    fill_sides 2 sides (fill_side ask entries book)
  fill_sides (suc (suc i)) (side ∷ sides) book = some book

  -- What `onL2Book` is called with.
  unfoldable pub crack_l2_book : Value → Option L2BookSnapshot
  crack_l2_book d = do
    coin ← string_at S "coin" d
    time ← member "time" d >>= get_uint64
    sides ← member "levels" d >>= get_array
    fill_sides 0 sides (record { coin = coin; time = time; bids = []; asks = [] })

  abbrev pub best_of : Value → Option (Option PriceLevel)
  best_of entry =
      if is_null entry then some none else level_of none entry >>= λ level. some (some level)

  -- The entry with this index: the first is the bid, every other one the ask.
  abbrev pub set_best : ℕ → Option PriceLevel → BboUpdate → BboUpdate
  set_best zero level update = record update { best_bid = level }
  set_best (suc i) level update = record update { best_ask = level }

  unfoldable pub fill_bbo : ℕ → List Value → BboUpdate → Option BboUpdate
  fill_bbo i [] update = some update
  fill_bbo i (entry ∷ entries) update = do
    level ← best_of entry
    fill_bbo (suc i) entries (set_best i level update)

  -- What `onBbo` is called with.
  unfoldable pub crack_bbo : Value → Option BboUpdate
  crack_bbo d = do
    coin ← string_at S "coin" d
    time ← member "time" d >>= get_uint64
    entries ← member "bbo" d >>= get_array
    fill_bbo 0 entries (record { coin = coin; time = time; best_bid = none; best_ask = none })
