-- ===== src/Signing/Nonce.antt =====
-- src/signing/Signing.cpp: `nextNonce`, called by any number of threads at once. Its steps are the
-- reading of the clock, the load, and the rounds of the compare-exchange loop.
pub mod Order
use hyperliquid_sdk_cpp.Common.{ℕ, ◌+◌, ◌%◌, ◌^◌, ◌≤◌, List, [], ◌∷◌, ◌≡◌, ltb, ◌==◌, if◌then◌else◌}

-- `next = now > prev ? now : prev + 1`, in uint64.
unfoldable pub next_value : ℕ → ℕ → ℕ
next_value now prev = if ltb prev now then now else (prev + 1) % 2 ^ 64

-- Where a thread is in `nextNonce`.
pub data Local : Type 0 where
  idle : Local
  timed : ℕ → Local  -- `now`
  loaded : ℕ → ℕ → Local  -- `now` and `prev`

pub record Issue : Type 0 where
  pub thread : ℕ
  pub now : ℕ
  pub nonce : ℕ

-- `lastNonce`, the threads, and the calls that have returned, the latest first.
pub record Shared : Type 0 where
  pub last_nonce : ℕ
  pub local : ℕ → Local
  pub issued : List Issue

unfoldable pub update : (ℕ → Local) → ℕ → Local → ℕ → Local
update f t l u = if t == u then l else f u

abbrev pub start : Shared
start = record { last_nonce = 0; local = λ t. idle; issued = [] }

-- One step of some thread; the clock shows any time up to `latest`, and may go backwards.
pub data Step (latest : ℕ) (s : Shared) (s' : Shared) : Type 0 where
  read_clock :
      (t now : ℕ)
      → now ≤ latest
      → s.local t ≡ idle
      → s' ≡ record s { local = update s.local t (timed now) }
      → Step latest s s'
  load :
      (t now : ℕ)
      → s.local t ≡ timed now
      → s' ≡ record s { local = update s.local t (loaded now s.last_nonce) }
      → Step latest s s'
  -- `compare_exchange_weak` fails, also for no reason, and reads `lastNonce` into `prev`.
  retry :
      (t now prev : ℕ)
      → s.local t ≡ loaded now prev
      → s' ≡ record s { local = update s.local t (loaded now s.last_nonce) }
      → Step latest s s'
  -- It succeeds, and the call returns `next`.
  exchange :
      (t now prev : ℕ)
      → s.local t ≡ loaded now prev
      → prev ≡ s.last_nonce
      → s' ≡ record {
        last_nonce = next_value now prev;
        local = update s.local t idle;
        issued = record { thread = t; now = now; nonce = next_value now prev } ∷ s.issued;
      }
      → Step latest s s'

pub data Run (latest : ℕ) : Shared → Type 0 where
  init : Run latest start
  after : {s s' : Shared} → Run latest s → Step latest s s' → Run latest s'
