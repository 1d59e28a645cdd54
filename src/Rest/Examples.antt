-- ===== src/Rest/Examples.antt =====
-- Runs of sessions, of the methods and of the parsers.
use text.Mathlib.Text.{◌==◌ as str_eq}
use hyperliquid_sdk_cpp.Common.{
  ◌+◌, ◌*◌, to_i32, if◌then◌else◌, ℕ, String, pos, true, List, [], ◌∷◌, ◌++◌, map, ◌≡◌, refl,
  get_elem?, arith, none, some, Result, ok,
}
use hyperliquid_sdk_cpp.Json.{lookup}
use hyperliquid_sdk_cpp.Rest.Parser.Metadata.Positions.{universe_in}
use hyperliquid_sdk_cpp.Json.Instance.{
  Value, null, string, number, array, object, of_list, of_members,
}
use hyperliquid_sdk_cpp.Types.Endpoint.{RestEndpointType}
use hyperliquid_sdk_cpp.Messages.Mapping.{contains}
use hyperliquid_sdk_cpp.Messages.Mapping.Priority.{last_perp, last_dex}
use hyperliquid_sdk_cpp.Simdjson.{SimdLib}
use hyperliquid_sdk_cpp.Simdjson.Instance.{tree_simd, tree_writer}
use hyperliquid_sdk_cpp.Simdjson.Attempt.{each}
use hyperliquid_sdk_cpp.Rest.HttpSession.{Outcome, on_resolve, finished, run}
use hyperliquid_sdk_cpp.Rest.HttpSession.Once.{completion_of, first_error, run_once}
use hyperliquid_sdk_cpp.Rest.Api.{Call, sign_and_send_sync, sign_and_send}
use hyperliquid_sdk_cpp.Rest.Api.Answers.{Agrees, sync_async_agree}
use hyperliquid_sdk_cpp.Rest.Parser.Statuses.{
  accepted, no_response, parse_place_order, parse_modify_order, parse_cancel_order,
}
use hyperliquid_sdk_cpp.Rest.Parser.Statuses.Entries.{OrderStatusResult, order_status}
use hyperliquid_sdk_cpp.Rest.Parser.Statuses.Written.{order_status_written}
use hyperliquid_sdk_cpp.Rest.Parser.Statuses.RoundTrip.{answer, parse_place_order-written}
use hyperliquid_sdk_cpp.Rest.Parser.Statuses.Damaged.{parse_place_order-damaged}
use hyperliquid_sdk_cpp.Rest.Parser.Simple.{
  no_answer, parse_simple_response, parse_twap_order, parse_twap_cancel, parse_create_sub_account,
  parse_create_vault,
}
use hyperliquid_sdk_cpp.Rest.Parser.Simple.Refusal.{
  refusal, refused, refused_statuses, refusal_is_reported, no_document_is_reported,
}
use hyperliquid_sdk_cpp.Rest.Parser.Metadata.{parse_meta, parse_perp_dexs}
use hyperliquid_sdk_cpp.Rest.Parser.Metadata.Entries.{PerpDex, asset_meta, perp_dex}
use hyperliquid_sdk_cpp.Rest.Parser.Metadata.Ids.{
  universe_of, dexes_of, StandsAt, dex_ids_are_positions,
}

abbrev fine : Outcome
fine = record { ec = none; host_name_ec = none; status_code = 200; body = "{}" }

-- The write fails.
abbrev broken : Outcome
broken = record fine { ec = some "broken pipe" }

run_once_example : run on_resolve (fine ∷ fine ∷ fine ∷ broken ∷ fine ∷ fine ∷ []) ≡ (
  finished,
  completion_of (first_error (none ∷ none ∷ none ∷ none ∷ some "broken pipe" ∷ none ∷ [])) fine
      ∷ [],
)
run_once_example = run_once fine fine fine broken fine fine []

sync_async_agree_example :
    (result : Result String) × (call : Call) × (sign_and_send_sync {Body = String}
        (ok "body")
        (fine ∷ fine ∷ fine ∷ fine ∷ fine ∷ fine ∷ [])
      ≡ some result)
    × (sign_and_send {Body = String} RestEndpointType.meta
          (ok "body")
          (fine ∷ fine ∷ fine ∷ fine ∷ fine ∷ fine ∷ [])
        ≡ ok (call ∷ []))
    × Agrees RestEndpointType.meta result call
sync_async_agree_example =
    sync_async_agree {Body = String} RestEndpointType.meta "body" fine fine fine fine fine fine []

-- A library in which every text holds one value.
abbrev holding : Value → SimdLib
holding v = tree_simd (λ message. some v)

abbrev empty_simd : SimdLib
empty_simd = tree_simd (λ message. none)

abbrev statuses : List OrderStatusResult
statuses =
    record { resting = some (record { oid = 77738308; cloid = none }); filled = none; error = none }
    ∷ record {
      resting = none;
      filled =
          some
            (record { total_sz = "0.02"; avg_px = "1891.4"; oid = 77747314; cloid = some "0x1" });
      error = none;
    }
    ∷ record { resting = none; filled = none; error = some "Order must have minimum value" }
    ∷ []

-- `Written` and `answer` do not depend on what the texts hold.
abbrev place_answer : List Value → Value
place_answer values = answer (holding null) (tree_writer (λ message. some null)) "order" values

abbrev written : List Value
written = map (order_status_written (holding null) (tree_writer (λ message. some null))) statuses

abbrev placed : Value
placed = place_answer written

parse_place_order-written_example :
    (parse_place_order (holding placed) "" ≡ accepted "order" statuses)
    × (parse_modify_order (holding placed) "" ≡ accepted "order" statuses)
parse_place_order-written_example =
    parse_place_order-written (holding placed) (tree_writer (λ message. some placed)) "" "order"
      statuses refl refl (omega arith)

abbrev damaged : Value
damaged = place_answer (written ++ null ∷ written)

null_is_no_status : order_status (holding damaged) null ≡ none
unfolding order_status
null_is_no_status = refl

parse_place_order-damaged_example :
    (parse_place_order (holding damaged) "" ≡ accepted "order" statuses)
    × (parse_modify_order (holding damaged) "" ≡ accepted "order" statuses)
parse_place_order-damaged_example =
    parse_place_order-damaged (holding damaged) (tree_writer (λ message. some damaged)) "" "order"
      statuses null written refl refl (omega arith) null_is_no_status

abbrev declined : Value
declined = refusal (holding null) (tree_writer (λ message. some null)) "err" "Too many requests"

refusal_is_reported_example :
    (parse_simple_response (holding declined) ""
      ≡ refused
          (holding declined)
          (tree_writer (λ message. some declined))
          "err"
          "Too many requests")
    × (parse_twap_order (holding declined) ""
        ≡ refused
            (holding declined)
            (tree_writer (λ message. some declined))
            "err"
            "Too many requests")
    × (parse_twap_cancel (holding declined) ""
        ≡ refused
            (holding declined)
            (tree_writer (λ message. some declined))
            "err"
            "Too many requests")
    × (parse_create_sub_account (holding declined) ""
        ≡ refused
            (holding declined)
            (tree_writer (λ message. some declined))
            "err"
            "Too many requests")
    × (parse_create_vault (holding declined) ""
        ≡ refused
            (holding declined)
            (tree_writer (λ message. some declined))
            "err"
            "Too many requests")
    × (parse_place_order (holding declined) ""
        ≡ refused_statuses (holding declined) (tree_writer (λ message. some declined)) "err")
    × (parse_modify_order (holding declined) ""
        ≡ refused_statuses (holding declined) (tree_writer (λ message. some declined)) "err")
    × (parse_cancel_order (holding declined) ""
        ≡ refused_statuses (holding declined) (tree_writer (λ message. some declined)) "err")
refusal_is_reported_example =
    refusal_is_reported (holding declined) (tree_writer (λ message. some declined)) "" "err"
      "Too many requests" refl refl

no_document_is_reported_example :
    (parse_simple_response empty_simd "<html>"
      ≡ record { status = "err"; type = ""; result = none; error = some "<html>" })
    × (parse_twap_order empty_simd "<html>" ≡ no_answer)
    × (parse_twap_cancel empty_simd "<html>" ≡ no_answer)
    × (parse_create_sub_account empty_simd "<html>" ≡ no_answer)
    × (parse_create_vault empty_simd "<html>" ≡ no_answer)
    × (parse_place_order empty_simd "<html>" ≡ no_response)
    × (parse_modify_order empty_simd "<html>" ≡ no_response)
    × (parse_cancel_order empty_simd "<html>" ≡ no_response)
no_document_is_reported_example = no_document_is_reported empty_simd "<html>" refl

-- Two dexes, of which the second is configured; its universe has one asset.
abbrev asset : Value
asset = object (
    of_members (
      ("name", string "xyz:GOLD")
      ∷ ("szDecimals", number (pos 2))
      ∷ ("maxLeverage", number (pos 10))
      ∷ []))

abbrev dex : String → Value
dex name = object (
    of_members (
      ("name", string name)
      ∷ ("fullName", string name)
      ∷ ("deployer", string "0xaa")
      ∷ ("oracleUpdater", null)
      ∷ ("assetToStreamingOiCap", array (of_list []))
      ∷ ("assetToFundingMultiplier", array (of_list []))
      ∷ []))

-- The text "dexs" is the answer to `perpDexs`, every other one an answer to `meta`.
abbrev markets : SimdLib
markets = tree_simd (λ message.
    if str_eq message "dexs"
    then some (array (of_list (null ∷ dex "flx" ∷ dex "xyz" ∷ [])))
    else some (object (of_members (("universe", array (of_list (asset ∷ []))) ∷ []))))

gold_is_listed :
    last_dex ("xyz" ∷ []) (λ d. universe_of markets "meta") "xyz:GOLD" 1 (dexes_of markets "dexs")
    ≡ some (pos 120000)
unfolding lookup last_dex last_perp contains parse_meta parse_perp_dexs each asset_meta perp_dex
    to_i32
gold_is_listed = refl

gold_stands : (d : String) → universe_in markets "meta" ≡ some (asset ∷ [])
unfolding lookup
gold_stands d = refl

dex_ids_are_positions_example :
    (i : ℕ) × (v : Value) × (d : PerpDex) × (j : ℕ) × (get_elem?
        (null ∷ dex "flx" ∷ dex "xyz" ∷ [])
        i
      ≡ some v)
    × (perp_dex markets v ≡ some d)
    × (contains d.name ("xyz" ∷ []) ≡ true)
    × StandsAt markets (asset ∷ []) j "xyz:GOLD"
    × (pos 120000 ≡ pos (100000 + i * 10000 + j))
dex_ids_are_positions_example =
    dex_ids_are_positions markets ("xyz" ∷ []) "dexs" null (dex "flx" ∷ dex "xyz" ∷ [])
      (λ d. "meta") (λ d. asset ∷ []) "xyz:GOLD" (pos 120000) refl gold_stands gold_is_listed
