-- ===== src/Websocket/Parser/Examples.antt =====
-- Messages that are read.
use mathlib.Core.Option
use hyperliquid_sdk_cpp.Common.{
  String, [], ◌∷◌, take, length, ok, ◌≡◌, refl, inl, none, some, true, map,
}
use hyperliquid_sdk_cpp.Json.Instance.{Value, null, boolean}
use hyperliquid_sdk_cpp.Json.{lookup}
use hyperliquid_sdk_cpp.Simdjson.{SimdLib, SimdDoubles, Writer, ◌>>=◌}
use hyperliquid_sdk_cpp.Simdjson.Instance.{tree_simd, tree_writer}
use hyperliquid_sdk_cpp.Types.Subscription.{SubscriptionType, to_string}
use hyperliquid_sdk_cpp.Websocket.Parser.{call_of, crack_call}
use hyperliquid_sdk_cpp.Websocket.Parser.Channels.{parser_for, crack_call-subscribed}
use hyperliquid_sdk_cpp.Websocket.Parser.Book.{
  bid, ask, l2_book_max_levels, level_of, crack_l2_book, fill_bbo, crack_bbo,
}
use hyperliquid_sdk_cpp.Websocket.Parser.Book.Levels.{levels_of, crack_l2_book-levels}
use hyperliquid_sdk_cpp.Websocket.Parser.Trades.{Trade, fill_users, fill_trade, crack_trades}
use hyperliquid_sdk_cpp.Websocket.Parser.Trades.Independent.{trades_of, crack_trades-trades_of}
use hyperliquid_sdk_cpp.Websocket.Parser.User.{on_user_fill, crack_user_events}
use hyperliquid_sdk_cpp.Websocket.Parser.User.Fills.{
  Fill, parse_fill_object, each_read, snapshot_flag, crack_user_fills,
}
use hyperliquid_sdk_cpp.Websocket.Parser.User.SameFills.{
  flag_of, fills_of, marked_by, crack_user_fills-crack_user_events,
}

abbrev holding : Value → SimdLib
holding v = tree_simd (λ message. some v)

abbrev writer : Writer (holding null)
writer = tree_writer (λ message. some null)

open writer use {object, array, string, unsigned}

abbrev level : String → Value
level px = object (("px", string px) ∷ ("sz", string "2.5") ∷ ("n", unsigned 3) ∷ [])

-- The second bid is damaged.
abbrev bids : Value
bids = array (level "101.5" ∷ null ∷ level "101" ∷ [])

abbrev asks : Value
asks = array (level "102" ∷ [])

abbrev book : Value
book = object (
    ("coin", string "BTC")
    ∷ ("time", unsigned 1700000000000)
    ∷ ("levels", array (bids ∷ asks ∷ []))
    ∷ [])

crack_l2_book-levels_example :
    crack_l2_book (holding null) book
    ≡ some (record {
      coin = "BTC";
      time = 1700000000000;
      bids =
          take l2_book_max_levels
            (levels_of (holding null) bid (level "101.5" ∷ null ∷ level "101" ∷ []));
      asks = take l2_book_max_levels (levels_of (holding null) ask (level "102" ∷ []));
    })
unfolding lookup
crack_l2_book-levels_example =
    crack_l2_book-levels (holding null) book "BTC" 1700000000000 bids asks []
      (level "101.5" ∷ null ∷ level "101" ∷ []) (level "102" ∷ []) refl refl refl refl refl

abbrev trade : String → Value
trade coin = object (
    ("coin", string coin)
    ∷ ("side", string "B")
    ∷ ("px", string "102")
    ∷ ("sz", string "0.1")
    ∷ ("hash", string "0xab")
    ∷ ("time", unsigned 1700000000000)
    ∷ ("tid", unsigned 7)
    ∷ ("users", array (string "0x1" ∷ string "0x2" ∷ []))
    ∷ [])

abbrev earlier : Trade
earlier = record {
  coin = "SOL";
  side = "A";
  px = "1";
  sz = "1";
  time = 0;
  tid = 0;
  hash = "";
  buyer = "0x3";
  seller = "0x4";
}

crack_trades-trades_of_example :
    crack_trades (holding null) (trade "BTC" ∷ null ∷ trade "ETH" ∷ []) earlier
    ≡ trades_of (holding null) (trade "BTC" ∷ null ∷ trade "ETH" ∷ [])
crack_trades-trades_of_example =
    crack_trades-trades_of (holding null) (trade "BTC" ∷ null ∷ trade "ETH" ∷ []) earlier

abbrev book_message : Value
book_message = object (("channel", string "l2Book") ∷ ("data", book) ∷ [])

printed : to_string SubscriptionType.l2_book ≡ ok "l2Book"
unfolding to_string
printed = refl

crack_call-subscribed_example :
    crack_call (holding book_message) ""
    ≡ (parser_for SubscriptionType.l2_book >>= λ parser. call_of (holding book_message) parser book)
crack_call-subscribed_example =
    crack_call-subscribed (holding book_message) (tree_writer (λ message. some book_message))
      SubscriptionType.l2_book "l2Book" "" (string "l2Book") book printed (inl refl) refl

-- Two of the trades are told, with the users of each.
told_trades :
    length (crack_trades (holding null) (trade "BTC" ∷ null ∷ trade "ETH" ∷ []) earlier) ≡ 2
unfolding crack_trades fill_trade fill_users lookup
told_trades = refl

-- A third entry takes the place of the ask.
third_entry :
    (crack_bbo (holding null) (
        object (
          ("coin", string "BTC")
          ∷ ("time", unsigned 1)
          ∷ ("bbo", array (level "1" ∷ null ∷ level "3" ∷ []))
          ∷ []))
      >>= λ update. Option.map (λ best. best.px) update.best_ask)
    ≡ some "3"
unfolding crack_bbo fill_bbo level_of lookup
third_entry = refl

-- A library whose numbers are integers, and whose texts stand for numbers themselves.
abbrev text_numbers : SimdDoubles (holding null)
text_numbers = record {
  Double = String;
  get_double = λ v. none;
  to_double = λ s. s;
  zero_double = "0";
}

abbrev fill_message : Value
fill_message = object (
    ("coin", string "BTC")
    ∷ ("px", string "102")
    ∷ ("sz", string "0.1")
    ∷ ("side", string "B")
    ∷ ("time", unsigned 1700000000000)
    ∷ ("startPosition", string "0")
    ∷ ("dir", string "Open Long")
    ∷ ("closedPnl", string "0")
    ∷ ("hash", string "0xab")
    ∷ ("oid", unsigned 5)
    ∷ ("crossed", boolean true)
    ∷ ("fee", string "0.01")
    ∷ ("tid", unsigned 7)
    ∷ ("feeToken", string "USDC")
    ∷ [])

abbrev fills_message : Value
fills_message =
    object (("isSnapshot", boolean true) ∷ ("fills", array (fill_message ∷ null ∷ [])) ∷ [])

crack_user_fills-crack_user_events_example :
    let fills = fills_of (holding null) text_numbers (fill_message ∷ null ∷ []) in
    (crack_user_events (holding null) text_numbers fills_message ≡ map on_user_fill fills)
    × (crack_user_fills (holding null) text_numbers fills_message
        ≡ marked_by
            (flag_of
              (holding null)
              text_numbers
              (SimdLib.member (holding null) "isSnapshot" fills_message))
            fills)
unfolding lookup
crack_user_fills-crack_user_events_example =
    crack_user_fills-crack_user_events (holding null) text_numbers fills_message
      (fill_message ∷ null ∷ []) refl

-- One fill is told, of the snapshot.
told_fills :
    map
      (λ (fill : Fill String). fill.is_snapshot)
      (crack_user_fills (holding null) text_numbers fills_message)
    ≡ true ∷ []
unfolding crack_user_fills snapshot_flag lookup each_read parse_fill_object
told_fills = refl
