-- ===== src/Websocket/Runner/Events.antt =====
-- What the io_context may run next, and the runs that come of it.
use hyperliquid_sdk_cpp.Common.{ℕ, ◌<◌, String, Bool, true, ◌≡◌, if◌then◌else◌}
use hyperliquid_sdk_cpp.Websocket.Runner.{
  Chain, resolving, connecting, ssl_shaking, ws_shaking, reading, closing, Runner, start,
  push_write, chain_failed, on_ws_handshake, on_pong_received, on_read, on_read_error, on_close,
  on_write, do_close, stop, on_reconnect_timer, on_ping_timer, on_ping_posted,
}

-- `true` says that the operation failed.
pub data Event : Type 0 where
  send : String → Event
  resolved connected_ ssl_shaken : Bool → Event
  ws_shaken : Bool → ℕ → Event
  pong : ℕ → Event
  read_message : String → Event
  read_failed closed : Event
  written : Bool → Event
  close_runs reconnect_timer_fires ping_runs : Event
  stop_call : Bool → Event
  ping_timer_fires : ℕ → Event

-- The callbacks that only start the next operation of the chain.
on_chain : Bool → Chain → Runner → Runner
unfolding chain_failed
on_chain failed next r = if failed then chain_failed r else record r { chain = next }

unfoldable pub handle : Event → Runner → Runner
unfolding push_write on_chain chain_failed on_ws_handshake on_pong_received on_read on_read_error
    on_close on_write do_close stop on_reconnect_timer on_ping_timer on_ping_posted
handle (send msg) r = push_write msg r
handle (resolved failed) r = on_chain failed connecting r
handle (connected_ failed) r = on_chain failed ssl_shaking r
handle (ssl_shaken failed) r = on_chain failed ws_shaking r
handle (ws_shaken failed now) r = if failed then chain_failed r else on_ws_handshake now r
handle (pong now) r = on_pong_received now r
handle (read_message m) r = on_read m r
handle read_failed r = on_read_error r
handle closed r = on_close r
handle (written failed) r = on_write failed r
handle close_runs r = do_close r
handle reconnect_timer_fires r = on_reconnect_timer r
handle ping_runs r = on_ping_posted r
handle (stop_call stopped) r = stop stopped r
handle (ping_timer_fires now) r = on_ping_timer now r

-- A completion is delivered only for an operation that is pending.
abbrev pub IsDue : Event → Runner → Type 0
IsDue (send msg) r = Unit
IsDue (resolved failed) r = r.chain ≡ resolving
IsDue (connected_ failed) r = r.chain ≡ connecting
IsDue (ssl_shaken failed) r = r.chain ≡ ssl_shaking
IsDue (ws_shaken failed now) r = r.chain ≡ ws_shaking
IsDue (pong now) r = Unit
IsDue (read_message m) r = r.chain ≡ reading
IsDue read_failed r = r.chain ≡ reading
IsDue closed r = r.chain ≡ closing
IsDue (written failed) r = 0 < r.writes
IsDue close_runs r = r.close_posted ≡ true
IsDue reconnect_timer_fires r = r.timer_waits ≡ true
IsDue ping_runs r = r.ping_posted ≡ true
IsDue (stop_call stopped) r = Unit
IsDue (ping_timer_fires now) r = r.ping_waits ≡ true

pub data Run : Runner → Type 0 where
  init : Run start
  step : {r : Runner} (e : Event) → Run r → IsDue e r → Run (handle e r)
