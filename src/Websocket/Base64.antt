-- ===== src/Websocket/Base64.antt =====
-- src/websocket/WebsocketParsingUtils.cpp: `base64Decode`. Text is a list of bytes.
pub mod RoundTrip
use hyperliquid_sdk_cpp.Common.{
  ℕ, zero, suc, ◌+◌, ◌-◌, ◌*◌, ◌/◌, ◌%◌, ◌^◌, String, code, List, [], ◌∷◌, Option, none, some, leb,
  ◌==◌, if◌then◌else◌,
}

abbrev pub codes : String → List ℕ
codes String.[] = []
codes (String.◌∷◌ c s) = code c ∷ codes s

abbrev pub alphabet : List ℕ
alphabet = codes "ABCDEFGHIJKLMNOPQRSTUVWXYZabcdefghijklmnopqrstuvwxyz0123456789+/"

index_from : ℕ → List ℕ → ℕ → Option ℕ
index_from i [] c = none
index_from i (a ∷ rest) c = if a == c then some i else index_from (suc i) rest c

-- `table[c]`, with `none` for -1.
pub table : ℕ → Option ℕ
unfolding index_from
table c = index_from 0 alphabet c

-- The loop. `val` is the 32-bit pattern of the `int`; `held` is `bits + 8`, which is not negative.
-- The byte lies in the pattern's low 12 bits, where `>>` does not see the sign.
pub decode_from : ℕ → ℕ → List ℕ → List ℕ
decode_from val held [] = []
decode_from val held (c ∷ input) = elim (table c) [
  | none ↦ decode_from val held input
  | some t ↦
      let val' = (val * 2 ^ 6 + t) % 2 ^ 32 in
      let held' = held + 6 in
      let push = val' / 2 ^ (held' - 8) % 256 ∷ decode_from val' (held' - 8) input in
      let wait = decode_from val' held' input in if leb 8 held' then push else wait
]

unfoldable pub base64_decode : List ℕ → List ℕ
unfolding decode_from table
base64_decode input = decode_from 0 0 input
