-- ===== src/Websocket/Parser/Trades.antt =====
-- src/websocket/WebsocketMessageParser.cpp: `crackTrades`, whose loop fills one and the same `Trade`.
pub mod Independent
use Prim.Native.String
use hyperliquid_sdk_cpp.Common.{ℕ, zero, suc, Char, String, List, [], ◌∷◌, Option, none, some}
use hyperliquid_sdk_cpp.Simdjson
use hyperliquid_sdk_cpp.Simdjson.{SimdLib, get_object, string_at}
use hyperliquid_sdk_cpp.Simdjson.Attempt.{Attempt, ◌>>=◌, ◌>>◌, read, write, stop}

pub record Trade : Type 0 where
  pub coin : String
  pub side : Char
  pub px : String
  pub sz : String
  pub time : ℕ
  pub tid : ℕ
  pub hash : String
  pub buyer : String
  pub seller : String

-- `sideStr.size() > 0 ? sideStr[0] : '?'`
abbrev pub first_char : String → Char
first_char String.[] = "?"
first_char (String.◌∷◌ c s) = c

-- `listener.onTrade(trade)`, unless an error came first.
abbrev pub told : Trade × Option (Unit {0}) → List Trade → List Trade
told (t, none) later = later
told (t, some done) later = t ∷ later

module _ (S : SimdLib) where
  open S use {Value, member, get_string, get_uint64, get_array}

  -- The loop over the users, from this index on.
  unfoldable pub fill_users : ℕ → List Value → Attempt Trade (Unit {0})
  fill_users i [] = stop
  fill_users zero (user ∷ users) = do
    buyer ← read (get_string user)
    write (λ t. record t { buyer = buyer })
    fill_users 1 users
  fill_users (suc zero) (user ∷ users) = do
    seller ← read (get_string user)
    write (λ t. record t { seller = seller })
    fill_users 2 users
  fill_users (suc (suc i)) (user ∷ users) = fill_users (suc (suc (suc i))) users

  -- `if (!obj["users"].get_array().get(users))`
  abbrev pub fill_users_of : Option (List Value) → Attempt Trade (Unit {0})
  fill_users_of none = stop
  fill_users_of (some users) = fill_users 0 users

  unfoldable pub fill_trade : Value → Attempt Trade (Unit {0})
  fill_trade entry = do
    obj ← read (get_object S entry)
    coin ← read (string_at S "coin" obj)
    write (λ t. record t { coin = coin })
    side ← read (string_at S "side" obj)
    write (λ t. record t { side = first_char side })
    px ← read (string_at S "px" obj)
    write (λ t. record t { px = px })
    sz ← read (string_at S "sz" obj)
    write (λ t. record t { sz = sz })
    hash ← read (string_at S "hash" obj)
    write (λ t. record t { hash = hash })
    time ← read (Simdjson.◌>>=◌ (member "time" obj) get_uint64)
    write (λ t. record t { time = time })
    tid ← read (Simdjson.◌>>=◌ (member "tid" obj) get_uint64)
    write (λ t. record t { tid = tid })
    write (λ t. record t { buyer = ""; seller = "" })
    fill_users_of (Simdjson.◌>>=◌ (member "users" obj) get_array)

  -- What `onTrade` is called with, and in which order.
  unfoldable pub crack_trades : List Value → Trade → List Trade
  crack_trades [] t = []
  crack_trades (entry ∷ entries) t =
      let filled = fill_trade entry t in told filled (crack_trades entries filled.0)
