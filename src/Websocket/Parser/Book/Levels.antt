-- ===== src/Websocket/Parser/Book/Levels.antt =====
-- The levels that a book is told with.
use hyperliquid_sdk_cpp.Common.{
  ℕ, ◌≤◌, String, Bool-cases, List, [], ◌∷◌, ◌++◌, append-nil, append_assoc, length, length-append,
  take, take-append, take-all, ◌≡◌, refl, sym, ap, ◌∙◌, Option, none, some, Option-cases, inl, inr,
  ltb, arith,
}
use hyperliquid_sdk_cpp.Simdjson.{SimdLib, ◌>>=◌, string_at}
use hyperliquid_sdk_cpp.Websocket.Parser.Book.{
  Side, bid, ask, PriceLevel, L2BookSnapshot, l2_book_max_levels, add_level, level_of, fill_side,
  fill_sides, crack_l2_book,
}

-- The levels that are stored, one after the other.
add_levels : List PriceLevel → List PriceLevel → List PriceLevel
add_levels [] stored = stored
add_levels (level ∷ levels) stored = add_levels levels (add_level level stored)

add_level-take :
    (level : PriceLevel) (levels stored : List PriceLevel)
    → take l2_book_max_levels (add_level level stored ++ levels)
      ≡ take l2_book_max_levels (stored ++ level ∷ levels)
unfolding add_level
add_level-take level levels stored = elim (Bool-cases (ltb (length stored) l2_book_max_levels)) [
  | inl room ↦ rw room (ap (take l2_book_max_levels) (append_assoc stored (level ∷ []) levels))
  | inr full ↦
      let all : l2_book_max_levels ≤ length stored = ground arith in
      rw full (
        take-append l2_book_max_levels stored levels all
        ∙ sym (take-append l2_book_max_levels stored (level ∷ levels) all))
]

add_level-length :
    (level : PriceLevel) (stored : List PriceLevel)
    → length stored ≤ l2_book_max_levels
    → length (add_level level stored) ≤ l2_book_max_levels
unfolding add_level
add_level-length level stored h = ground (arith, length-append stored (level ∷ []))

add_levels-take :
    (levels stored : List PriceLevel)
    → length stored ≤ l2_book_max_levels
    → add_levels levels stored ≡ take l2_book_max_levels (stored ++ levels)
unfolding add_levels
add_levels-take [] stored h = rw (append-nil stored) (sym (take-all l2_book_max_levels stored h))
add_levels-take (level ∷ levels) stored h =
    add_levels-take levels (add_level level stored) (add_level-length level stored h)
    ∙ add_level-take level levels stored

module _ (S : SimdLib) where
  open S use {Value, member, get_uint64, get_array}

  abbrev cons_some : Option PriceLevel → List PriceLevel → List PriceLevel
  cons_some none later = later
  cons_some (some level) later = level ∷ later

  -- The levels of a side that can be read.
  unfoldable pub levels_of : Side → List Value → List PriceLevel
  levels_of side [] = []
  levels_of side (entry ∷ entries) =
      cons_some (level_of S (some side) entry) (levels_of side entries)

  fill_side-bids :
      (entries : List Value) (book : L2BookSnapshot)
      → fill_side S bid entries book
        ≡ record book { bids = add_levels (levels_of bid entries) book.bids }
  unfolding fill_side levels_of add_levels
  fill_side-bids [] book = refl
  fill_side-bids (entry ∷ entries) book = elim (Option-cases (level_of S (some bid) entry)) [
    | inl failed ↦ rw failed (fill_side-bids entries book)
    | inr (level, found) ↦
        rw found (fill_side-bids entries (record book { bids = add_level level book.bids }))
  ]

  fill_side-asks :
      (entries : List Value) (book : L2BookSnapshot)
      → fill_side S ask entries book
        ≡ record book { asks = add_levels (levels_of ask entries) book.asks }
  unfolding fill_side levels_of add_levels
  fill_side-asks [] book = refl
  fill_side-asks (entry ∷ entries) book = elim (Option-cases (level_of S (some ask) entry)) [
    | inl failed ↦ rw failed (fill_side-asks entries book)
    | inr (level, found) ↦
        rw found (fill_side-asks entries (record book { asks = add_level level book.asks }))
  ]

  fill_sides-others :
      (others : List Value) (book : L2BookSnapshot) → fill_sides S 2 others book ≡ some book
  unfolding fill_sides
  fill_sides-others [] book = refl
  fill_sides-others (side ∷ sides) book = refl

  -- A book with two sides, or more, is told with the first fifty bids and the first fifty asks that
  -- can be read, in order: a damaged level is skipped alone, and further sides are not looked at.
  pub crack_l2_book-levels :
      (d : Value) (coin : String) (time : ℕ) (bids asks : Value) (others : List Value)
      (bid_entries ask_entries : List Value)
      → string_at S "coin" d ≡ some coin
      → (member "time" d >>= get_uint64) ≡ some time
      → (member "levels" d >>= get_array) ≡ some (bids ∷ asks ∷ others)
      → get_array bids ≡ some bid_entries
      → get_array asks ≡ some ask_entries
      → crack_l2_book S d
        ≡ some (record {
          coin = coin;
          time = time;
          bids = take l2_book_max_levels (levels_of bid bid_entries);
          asks = take l2_book_max_levels (levels_of ask ask_entries);
        })
  unfolding crack_l2_book fill_sides
  crack_l2_book-levels d coin time bids asks others bid_entries ask_entries hc ht hl hb ha = simp (
    hc,
    ht,
    hl,
    hb,
    ha,
    fill_sides-others others,
    fill_side-bids bid_entries,
    fill_side-asks ask_entries,
    add_levels-take (levels_of bid bid_entries) [] (omega arith),
    add_levels-take (levels_of ask ask_entries) [] (omega arith),
  )
