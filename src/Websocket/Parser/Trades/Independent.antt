-- ===== src/Websocket/Parser/Trades/Independent.antt =====
-- Although the loop keeps its `Trade`, what is told of one trade does not depend on the others.
use hyperliquid_sdk_cpp.Common.{
  String, suc, List, [], ◌∷◌, ◌≡◌, refl, Option, none, some, Option-cases, inl, inr,
}
use hyperliquid_sdk_cpp.Simdjson.{SimdLib, ◌>>=◌, get_object, string_at}
use hyperliquid_sdk_cpp.Websocket.Parser.Trades.{
  Trade, first_char, fill_users, fill_users_of, fill_trade, told, crack_trades,
}

-- The trade that is told, if there was no error.
abbrev delivered : Trade × Option (Unit {0}) → Option Trade
delivered (t, none) = none
delivered (t, some done) = some t

abbrev pub cons_some : Option Trade → List Trade → List Trade
cons_some none later = later
cons_some (some t) later = t ∷ later

told-delivered :
    (r : Trade × Option (Unit {0})) (later : List Trade)
    → told r later ≡ cons_some (delivered r) later
told-delivered (t, none) later = refl
told-delivered (t, some done) later = refl

module _ (S : SimdLib) where
  open S use {Value, member, get_string, get_uint64, get_array}

  -- The texts of the users behind the second do not matter.
  abbrev pub users_of : List Value → Option (String × String)
  users_of [] = some ("", "")
  users_of (buyer ∷ []) = get_string buyer >>= λ b. some (b, "")
  users_of (buyer ∷ seller ∷ others) = do b ← get_string buyer; s ← get_string seller; some (b, s)

  abbrev pub users_or_none : Option (List Value) → Option (String × String)
  users_or_none none = some ("", "")
  users_or_none (some users) = users_of users

  -- One trade, read by itself.
  unfoldable pub trade_of : Value → Option Trade
  trade_of entry = do
    obj ← get_object S entry
    coin ← string_at S "coin" obj
    side ← string_at S "side" obj
    px ← string_at S "px" obj
    sz ← string_at S "sz" obj
    hash ← string_at S "hash" obj
    time ← member "time" obj >>= get_uint64
    tid ← member "tid" obj >>= get_uint64
    users ← users_or_none (member "users" obj >>= get_array)
    some (record {
      coin = coin;
      side = first_char side;
      px = px;
      sz = sz;
      time = time;
      tid = tid;
      hash = hash;
      buyer = users.0;
      seller = users.1;
    })

  unfoldable pub trades_of : List Value → List Trade
  trades_of [] = []
  trades_of (entry ∷ entries) = cons_some (trade_of entry) (trades_of entries)

  fill_users-others :
      (i : _) (users : List Value) (t : Trade) → fill_users S (suc (suc i)) users t ≡ (t, some tt)
  unfolding fill_users
  fill_users-others i [] t = refl
  fill_users-others i (u ∷ users) t = fill_users-others (suc i) users t

  -- The buyer and the seller are cleared before they are read.
  abbrev cleared : Trade → Trade
  cleared t = record t { buyer = ""; seller = "" }

  fill_users-users_of :
      (users : List Value) (t : Trade)
      → delivered (fill_users S 0 users (cleared t))
        ≡ (users_of users >>= λ u. some (record t { buyer = u.0; seller = u.1 }))
  unfolding fill_users
  fill_users-users_of [] t = refl
  fill_users-users_of (buyer ∷ []) t = elim (Option-cases (get_string buyer)) [
    | inl failed ↦ rw failed refl
    | inr (b, found) ↦ simp found
  ]
  fill_users-users_of (buyer ∷ seller ∷ others) t = elim (Option-cases (get_string buyer)) [
    | inl failed ↦ rw failed refl
    | inr (b, found) ↦ elim (Option-cases (get_string seller)) [
      | inl failed ↦ simp (found, failed)
      | inr (s, found_seller) ↦ simp (found, found_seller, fill_users-others 0 others)
    ]
  ]

  fill_users_of-users_or_none :
      (users : Option (List Value)) (t : Trade)
      → delivered (fill_users_of S users (cleared t))
        ≡ (users_or_none users >>= λ u. some (record t { buyer = u.0; seller = u.1 }))
  fill_users_of-users_or_none none t = refl
  fill_users_of-users_or_none (some users) t = fill_users-users_of users t

  fill_trade-trade_of :
      (entry : Value) (t : Trade) → delivered (fill_trade S entry t) ≡ trade_of entry
  unfolding fill_trade trade_of
  fill_trade-trade_of entry t = elim (Option-cases (get_object S entry)) [
    | inl failed ↦ rw failed refl
    | inr (obj, found_obj) ↦ rw found_obj elim (Option-cases (string_at S "coin" obj)) [
      | inl failed ↦ rw failed refl
      | inr (coin, found_coin) ↦ rw found_coin elim (Option-cases (string_at S "side" obj)) [
        | inl failed ↦ rw failed refl
        | inr (side, found_side) ↦ rw found_side elim (Option-cases (string_at S "px" obj)) [
          | inl failed ↦ rw failed refl
          | inr (px, found_px) ↦ rw found_px elim (Option-cases (string_at S "sz" obj)) [
            | inl failed ↦ rw failed refl
            | inr (sz, found_sz) ↦ rw found_sz elim (Option-cases (string_at S "hash" obj)) [
              | inl failed ↦ rw failed refl
              | inr (hash, found_hash) ↦
                  rw found_hash elim (Option-cases (member "time" obj >>= get_uint64)) [
                    | inl failed ↦ rw failed refl
                    | inr (time, found_time) ↦
                        rw found_time elim (Option-cases (member "tid" obj >>= get_uint64)) [
                          | inl failed ↦ rw failed refl
                          | inr (tid, found_tid) ↦ rw found_tid (
                              fill_users_of-users_or_none (member "users" obj >>= get_array)
                                (record {
                                  coin = coin;
                                  side = first_char side;
                                  px = px;
                                  sz = sz;
                                  time = time;
                                  tid = tid;
                                  hash = hash;
                                  buyer = "";
                                  seller = "";
                                }))
                        ]
                  ]
            ]
          ]
        ]
      ]
    ]
  ]

  -- `onTrade` is called for the trades that can be read, in order, each as it is read by itself:
  -- whatever `Trade` the loop starts with, nothing of an earlier trade or of a damaged one is left
  -- in a later one, and a damaged trade is skipped alone.
  pub crack_trades-trades_of :
      (entries : List Value) (t : Trade) → crack_trades S entries t ≡ trades_of entries
  unfolding crack_trades trades_of
  crack_trades-trades_of [] t = refl
  crack_trades-trades_of (entry ∷ entries) t =
      rw
        (
          told-delivered (fill_trade S entry t) (crack_trades S entries (fill_trade S entry t).0),
          fill_trade-trade_of entry t,
          crack_trades-trades_of entries (fill_trade S entry t).0,
        )
        refl
