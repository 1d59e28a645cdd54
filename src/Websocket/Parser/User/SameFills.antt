-- ===== src/Websocket/Parser/User/SameFills.antt =====
-- Fills are told on two channels, `userFills` and `userEvents`.
use mathlib.Core.Option
use hyperliquid_sdk_cpp.Common.{
  Bool, false, List, [], ◌∷◌, map, ◌≡◌, refl, Option, none, some, Option-cases, inl, inr,
}
use hyperliquid_sdk_cpp.Simdjson.{SimdLib, SimdDoubles, ◌>>=◌, get_object}
use hyperliquid_sdk_cpp.Websocket.Parser.User.{on_user_fill, fills_in, crack_user_events}
use hyperliquid_sdk_cpp.Websocket.Parser.User.Fills.{
  Fill, fill_fields, parse_fill_object, keep, each_read, snapshot_flag, fills_with,
  crack_user_fills,
}

abbrev pub marked : {Double : Type 0} → Bool → Fill Double → Fill Double
marked is_snapshot fill = record fill { is_snapshot = is_snapshot }

-- With the flag that was read, if it could be read.
abbrev pub marked_by : {Double : Type 0} → Option Bool → List (Fill Double) → List (Fill Double)
marked_by none fills = []
marked_by (some b) fills = map (marked b) fills

abbrev unless_damaged {ℓ} : {A : Type ℓ} → Option A → List A → List A
unless_damaged none later = later
unless_damaged (some a) later = a ∷ later

module _ (S : SimdLib) (D : SimdDoubles S) where
  open S use {Value, member, get_array, get_bool}
  open D use {Double}

  -- The flag of a message: false where there is none, and not known where it is no Boolean.
  abbrev pub flag_of : Option Value → Option Bool
  flag_of none = some false
  flag_of (some v) = get_bool v

  -- The fills that can be read, as no snapshot.
  unfoldable pub fills_of : List Value → List (Fill Double)
  fills_of [] = []
  fills_of (v ∷ vs) = unless_damaged (parse_fill_object S D false v) (fills_of vs)

  parse_fill_object-marked :
      (b : Bool) (v : Value)
      → parse_fill_object S D b v ≡ Option.map (marked b) (parse_fill_object S D false v)
  unfolding parse_fill_object
  parse_fill_object-marked b v = elim (Option-cases (get_object S v)) [
    | inl failed ↦ rw failed refl
    | inr (obj, found) ↦ rw found elim (Option-cases (fill_fields S D obj)) [
      | inl failed ↦ rw failed refl
      | inr (fill, read) ↦ rw read refl
    ]
  ]

  keep-map :
      (b : Bool) (o : Option (Fill Double)) (later : List (Fill Double))
      → keep S (Option.map (marked b) o) (map (marked b) later)
        ≡ map (marked b) (unless_damaged o later)
  keep-map b none later = refl
  keep-map b (some fill) later = refl

  each_read-fills_of :
      (b : Bool) (entries : List Value)
      → each_read S (parse_fill_object S D b) entries ≡ map (marked b) (fills_of entries)
  unfolding each_read fills_of
  each_read-fills_of b [] = refl
  each_read-fills_of b (v ∷ vs) =
      rw (parse_fill_object-marked b v, each_read-fills_of b vs)
        (keep-map b (parse_fill_object S D false v) _)

  keep-unless_damaged :
      (o : Option (Fill Double)) (later : List (Fill Double))
      → keep S o later ≡ unless_damaged o later
  keep-unless_damaged none later = refl
  keep-unless_damaged (some fill) later = refl

  each_read-unmarked :
      (entries : List Value) → each_read S (parse_fill_object S D false) entries ≡ fills_of entries
  unfolding each_read fills_of
  each_read-unmarked [] = refl
  each_read-unmarked (v ∷ vs) =
      rw (each_read-unmarked vs) (keep-unless_damaged (parse_fill_object S D false v) (fills_of vs))

  fills_with-marked :
      (flag : Option Value) (entries : List Value)
      → fills_with S D (snapshot_flag S flag) (some entries)
        ≡ marked_by (flag_of flag) (fills_of entries)
  unfolding fills_with snapshot_flag
  fills_with-marked none entries = each_read-fills_of false entries
  fills_with-marked (some v) entries = elim (Option-cases (get_bool v)) [
    | inl e ↦ rw e refl
    | inr (b, e) ↦ rw e (each_read-fills_of b entries)
  ]

  -- The fills of a message are told alike by both channels, in order, each that can be read: by
  -- `userEvents` as no snapshot, by `userFills` with the message's flag, which is false where there
  -- is none. If the flag is not a Boolean, `userFills` tells of no fill.
  pub crack_user_fills-crack_user_events :
      (d : Value) (entries : List Value)
      → (member "fills" d >>= get_array) ≡ some entries
      → let fills = fills_of entries in
        (crack_user_events S D d ≡ map on_user_fill fills)
        × (crack_user_fills S D d ≡ marked_by (flag_of (member "isSnapshot" d)) fills)
  unfolding crack_user_events crack_user_fills fills_in
  crack_user_fills-crack_user_events d entries h = (
    rw (h, each_read-unmarked entries) refl,
    rw h (fills_with-marked (member "isSnapshot" d) entries),
  )
