-- ===== src/Websocket/Parser/Candles.antt =====
-- src/websocket/WebsocketMessageParser.cpp: `crackCandles`, whose loop fills one and the same
-- `Candle`.
pub mod Independent
use hyperliquid_sdk_cpp.Common.{ℕ, String, ℤ, to_i32, List, [], ◌∷◌, Option, none, some}
use hyperliquid_sdk_cpp.Simdjson
use hyperliquid_sdk_cpp.Simdjson.{SimdLib, SimdDoubles, get_object, string_at}
use hyperliquid_sdk_cpp.Simdjson.Attempt.{Attempt, ◌>>=◌, ◌>>◌, read, write}

pub record Candle (Double : Type 0) : Type 0 where
  pub coin : String
  pub interval : String
  pub open_time : ℕ
  pub close_time : ℕ
  pub open_px : Double
  pub close_px : Double
  pub high : Double
  pub low : Double
  pub volume : Double
  pub num_trades : ℤ

-- `listener.onCandle(candle)`, unless an error came first.
abbrev pub told :
    {Double : Type 0}
    → Candle Double × Option (Unit {0})
    → List (Candle Double)
    → List (Candle Double)
told (c, none) later = later
told (c, some done) later = c ∷ later

module _ (S : SimdLib) (D : SimdDoubles S) where
  open S use {Value, member, get_uint64, get_int64}
  open D use {Double, get_double}

  abbrev pub double_at : String → Value → Option Double
  double_at key obj = Simdjson.◌>>=◌ (member key obj) get_double

  abbrev pub uint64_at : String → Value → Option ℕ
  uint64_at key obj = Simdjson.◌>>=◌ (member key obj) get_uint64

  unfoldable pub fill_candle : Value → Attempt (Candle Double) (Unit {0})
  fill_candle entry = do
    obj ← read (get_object S entry)
    coin ← read (string_at S "s" obj)
    write (λ c. record c { coin = coin })
    interval ← read (string_at S "i" obj)
    write (λ c. record c { interval = interval })
    open_time ← read (uint64_at "t" obj)
    write (λ c. record c { open_time = open_time })
    close_time ← read (uint64_at "T" obj)
    write (λ c. record c { close_time = close_time })
    open_px ← read (double_at "o" obj)
    write (λ c. record c { open_px = open_px })
    close_px ← read (double_at "c" obj)
    write (λ c. record c { close_px = close_px })
    high ← read (double_at "h" obj)
    write (λ c. record c { high = high })
    low ← read (double_at "l" obj)
    write (λ c. record c { low = low })
    volume ← read (double_at "v" obj)
    write (λ c. record c { volume = volume })
    num_trades ← read (Simdjson.◌>>=◌ (member "n" obj) get_int64)
    write (λ c. record c { num_trades = to_i32 num_trades })

  -- What `onCandle` is called with, and in which order.
  unfoldable pub crack_candles : List Value → Candle Double → List (Candle Double)
  crack_candles [] c = []
  crack_candles (entry ∷ entries) c =
      let filled = fill_candle entry c in told filled (crack_candles entries filled.0)
