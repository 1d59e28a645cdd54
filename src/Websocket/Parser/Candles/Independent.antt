-- ===== src/Websocket/Parser/Candles/Independent.antt =====
-- What is told of one candle does not depend on the others.
use hyperliquid_sdk_cpp.Common.{
  to_i32, List, [], ◌∷◌, ◌≡◌, refl, Option, none, some, Option-cases, inl, inr,
}
use hyperliquid_sdk_cpp.Simdjson.{SimdLib, SimdDoubles, ◌>>=◌, get_object, string_at}
use hyperliquid_sdk_cpp.Websocket.Parser.Candles.{
  Candle, told, double_at, uint64_at, fill_candle, crack_candles,
}

abbrev delivered : {Double : Type 0} → Candle Double × Option (Unit {0}) → Option (Candle Double)
delivered (c, none) = none
delivered (c, some done) = some c

abbrev cons_some :
    {Double : Type 0} → Option (Candle Double) → List (Candle Double) → List (Candle Double)
cons_some none later = later
cons_some (some c) later = c ∷ later

told-delivered :
    {Double : Type 0} (r : Candle Double × Option (Unit {0})) (later : List (Candle Double))
    → told r later ≡ cons_some (delivered r) later
told-delivered (c, none) later = refl
told-delivered (c, some done) later = refl

module _ (S : SimdLib) (D : SimdDoubles S) where
  open S use {Value, member, get_int64}
  open D use {Double}

  -- One candle, read by itself.
  unfoldable pub candle_of : Value → Option (Candle Double)
  candle_of entry = do
    obj ← get_object S entry
    coin ← string_at S "s" obj
    interval ← string_at S "i" obj
    open_time ← uint64_at S D "t" obj
    close_time ← uint64_at S D "T" obj
    open_px ← double_at S D "o" obj
    close_px ← double_at S D "c" obj
    high ← double_at S D "h" obj
    low ← double_at S D "l" obj
    volume ← double_at S D "v" obj
    n ← member "n" obj >>= get_int64
    some (record {
      coin = coin;
      interval = interval;
      open_time = open_time;
      close_time = close_time;
      open_px = open_px;
      close_px = close_px;
      high = high;
      low = low;
      volume = volume;
      num_trades = to_i32 n;
    })

  unfoldable pub candles_of : List Value → List (Candle Double)
  candles_of [] = []
  candles_of (entry ∷ entries) = cons_some (candle_of entry) (candles_of entries)

  fill_candle-candle_of :
      (entry : Value) (c : Candle Double) → delivered (fill_candle S D entry c) ≡ candle_of entry
  unfolding fill_candle candle_of
  fill_candle-candle_of entry c = elim (Option-cases (get_object S entry)) [
    | inl failed ↦ rw failed refl
    | inr (obj, found_obj) ↦ rw found_obj elim (Option-cases (string_at S "s" obj)) [
      | inl failed ↦ rw failed refl
      | inr (coin, found_coin) ↦ rw found_coin elim (Option-cases (string_at S "i" obj)) [
        | inl failed ↦ rw failed refl
        | inr (interval, found_interval) ↦
            rw found_interval elim (Option-cases (uint64_at S D "t" obj)) [
              | inl failed ↦ rw failed refl
              | inr (open_time, found_open_time) ↦
                  rw found_open_time elim (Option-cases (uint64_at S D "T" obj)) [
                    | inl failed ↦ rw failed refl
                    | inr (close_time, found_close_time) ↦
                        rw found_close_time elim (Option-cases (double_at S D "o" obj)) [
                          | inl failed ↦ rw failed refl
                          | inr (open_px, found_open_px) ↦
                              rw found_open_px elim (Option-cases (double_at S D "c" obj)) [
                                | inl failed ↦ rw failed refl
                                | inr (close_px, found_close_px) ↦
                                    rw found_close_px elim (Option-cases (double_at S D "h" obj)) [
                                      | inl failed ↦ rw failed refl
                                      | inr (high, found_high) ↦
                                          rw found_high
                                            elim (Option-cases (double_at S D "l" obj)) [
                                              | inl failed ↦ rw failed refl
                                              | inr (low, found_low) ↦
                                                  rw found_low
                                                    elim (Option-cases (double_at S D "v" obj)) [
                                                      | inl failed ↦ rw failed refl
                                                      | inr (volume, found_volume) ↦
                                                          rw found_volume
                                                            elim (Option-cases
                                                            (member "n" obj >>= get_int64)) [
                                                              | inl failed ↦ rw failed refl
                                                              | inr (n, found_n) ↦ rw found_n refl
                                                            ]
                                                    ]
                                            ]
                                    ]
                              ]
                        ]
                  ]
            ]
      ]
    ]
  ]

  -- `onCandle` is called for the candles that can be read, in order, each as it is read by itself,
  -- whatever `Candle` the loop starts with.
  pub crack_candles-candles_of :
      (entries : List Value) (c : Candle Double) → crack_candles S D entries c ≡ candles_of entries
  unfolding crack_candles candles_of
  crack_candles-candles_of [] c = refl
  crack_candles-candles_of (entry ∷ entries) c =
      rw
        (
          told-delivered (fill_candle S D entry c)
              (crack_candles S D entries (fill_candle S D entry c).0),
          fill_candle-candle_of entry c,
          crack_candles-candles_of entries (fill_candle S D entry c).0,
        )
        refl
