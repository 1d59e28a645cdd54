-- ===== src/Websocket/Runner/Stop.antt =====
-- Stopping the runner.
use hyperliquid_sdk_cpp.Common.{ℕ, true, false, ◌≡◌, arith, List, [], ◌∷◌}
use hyperliquid_sdk_cpp.Websocket.Runner.{Runner, quiet, reading, resolving}
use hyperliquid_sdk_cpp.Websocket.Runner.Events.{
  Event, send, IsDue, resolved, connected_, ssl_shaken, ws_shaken, read_failed, closed, close_runs,
  stop_call, handle,
}

-- Handling several events, the first one first.
pub handle_all : List Event → Runner → Runner
handle_all [] r = r
handle_all (e ∷ es) r = handle_all es (handle e r)

-- What the callbacks that may run make of a runner.
pub data Continues (r : Runner) : Runner → Type 0 where
  here : Continues r r
  next : {s : Runner} (e : Event) → Continues r s → IsDue e s → Continues r (handle e s)

abbrev pub IsClosed : Runner → Type 0
IsClosed r =
    (r.connected ≡ false) × (r.chain ≡ quiet) × (r.timer_waits ≡ false) × (r.ping_waits ≡ false)

handle-IsClosed : (e : Event) (r : Runner) → IsDue e r → IsClosed r → IsClosed (handle e r)
unfolding handle
handle-IsClosed (send m) r d c = ground arith
handle-IsClosed e r d c = ground arith

Continues-IsClosed : {r s : Runner} → Continues r s → IsClosed r → IsClosed s
Continues-IsClosed here c = c
Continues-IsClosed (next {s} e run d) c = handle-IsClosed e s d (Continues-IsClosed run c)

stop-IsClosed :
    (r : Runner)
    → r.connected ≡ true
    → r.stopping ≡ false
    → IsClosed (handle_all (stop_call false ∷ close_runs ∷ read_failed ∷ closed ∷ []) r)
unfolding handle_all handle
stop-IsClosed r c s = ground arith

-- On an open connection `stop` leads, by the posted function, the read that it cancels and the
-- close, to a runner that is disconnected, that neither opens nor reads a connection and that waits
-- for no timer; and it stays so whatever runs afterwards: a write or a ping that was still pending,
-- another message or another `stop`.
pub stop_closes :
    (r s : Runner)
    → r.connected ≡ true
    → r.stopping ≡ false
    → Continues (handle_all (stop_call false ∷ close_runs ∷ read_failed ∷ closed ∷ []) r) s
    → (s.connected ≡ false) × (s.chain ≡ quiet) × (s.timer_waits ≡ false) × (s.ping_waits ≡ false)
stop_closes r s c o run = Continues-IsClosed run (stop-IsClosed r c o)

-- While the connection is being opened `stop` is lost: the name is resolved, the sockets and
-- the handshakes go on, and the runner ends up connected, reading and not stopping.
pub stop_while_opening_is_lost :
    (r : Runner) (now : ℕ)
    → r.connected ≡ false
    → r.stopping ≡ false
    → r.chain ≡ resolving
    → let s =
        handle_all
          (stop_call false
            ∷ close_runs
            ∷ resolved false
            ∷ connected_ false
            ∷ ssl_shaken false
            ∷ ws_shaken false now
            ∷ [])
          r in
      (s.connected ≡ true) × (s.stopping ≡ false) × (s.chain ≡ reading) × (s.close_posted ≡ false)
unfolding handle_all handle
stop_while_opening_is_lost r now c s d = ground arith
