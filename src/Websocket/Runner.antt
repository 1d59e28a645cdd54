-- ===== src/Websocket/Runner.antt =====
-- src/websocket/WebsocketRunner.cpp. Each callback is a function on the runner's fields; the
-- callbacks run one at a time on the io_context's thread. `chain`, `timer_waits`, `ping_waits`,
-- `writes`, `close_posted` and `ping_posted` say which asynchronous operations Boost.Asio still has
-- to complete; `accepted`, `departed` and `stop_called` only record what happened. Times are whole
-- seconds of the steady clock. A timer that is cancelled does not fire: a callback that was already
-- queued when its timer was cancelled is left out. Operations of a replaced stream complete while `connected_` is
-- false, when their callbacks return at once; the model leaves those out.
pub mod Events
pub mod Backoff
pub mod Invariant
pub mod Stop
use hyperliquid_sdk_cpp.Common.{
  ℕ, suc, ◌+◌, ◌-◌, ◌^◌, min, String, Bool, true, false, not, ◌&&◌, ◌||◌, List, [], ◌∷◌, ◌++◌,
  Option, none, some, ltb, if◌then◌else◌,
}

-- The pending operation of the connection: the last one started by a `do…` or `on…` function.
pub data Chain : Type 0 where
  quiet resolving connecting ssl_shaking ws_shaking reading closing : Chain

pub data Notice : Type 0 where
  ws_connected : Notice
  ws_disconnected : Bool → Notice
  ws_message : String → Notice

-- Why a message left the queue: it was written, or `doReconnect` popped it.
pub data Fate : Type 0 where
  written_out dropped : Fate

pub record Runner : Type 0 where
  pub write_queue : List String
  pub writing : Bool
  pub connected : Bool
  pub stopping : Bool
  pub reconnect_timer : Option ℕ  -- the delay of the timer that `reconnectTimer_` holds
  pub reconnect_attempts : ℕ
  pub last_pong_time : ℕ
  pub pending_pong : Bool
  pub chain : Chain
  pub timer_waits : Bool
  pub ping_waits : Bool
  pub writes : ℕ
  pub close_posted : Bool
  pub ping_posted : Bool
  pub notices : List Notice
  pub accepted : List String  -- every message that was sent, in order
  pub departed : List (String × Fate)  -- what has left the queue, in order
  pub stop_called : Bool

abbrev pub max_backoff_secs : ℕ
max_backoff_secs = 60

abbrev pub pong_timeout_secs : ℕ
pong_timeout_secs = 10

abbrev pub ping_msg : String
ping_msg = "{\"method\":\"ping\"}"

-- `start`: the constructor's fields, and `doResolve`.
unfoldable pub start : Runner
start = record {
  write_queue = [];
  writing = false;
  connected = false;
  stopping = false;
  reconnect_timer = none;
  reconnect_attempts = 0;
  last_pong_time = 0;
  pending_pong = false;
  chain = resolving;
  timer_waits = false;
  ping_waits = false;
  writes = 0;
  close_posted = false;
  ping_posted = false;
  notices = [];
  accepted = [];
  departed = [];
  stop_called = false;
}

abbrev notify : Notice → Runner → Runner
notify n r = record r { notices = n ∷ r.notices }

pub do_write : Runner → Runner
do_write r = elim r.write_queue [
  | [] ↦ record r { writing = false }
  | m ∷ rest ↦ record r { writing = true; writes = suc r.writes }
]

-- `writeQueue_.push(msg); if (connected_ && !writing_) doWrite();`
pub push_write : String → Runner → Runner
unfolding do_write
push_write msg r =
    let q = record r {
      write_queue = r.write_queue ++ msg ∷ [];
      accepted = r.accepted ++ msg ∷ [];
    } in
    if r.connected && not r.writing then do_write q else q

-- `1 << n` on an `int`; `n` is at most 16.
pub delay_secs : ℕ → ℕ
delay_secs attempts = min (2 ^ min attempts 16) max_backoff_secs

-- Both timers are cancelled, and the reconnect timer is set anew.
pub schedule_reconnect : Runner → Runner
unfolding delay_secs
schedule_reconnect r =
    let attempts = suc r.reconnect_attempts in
    if r.stopping then r else record r {
      reconnect_attempts = attempts;
      reconnect_timer = some (delay_secs attempts);
      timer_waits = true;
      ping_waits = false;
    }

pub with_fate : Fate → List String → List (String × Fate)
with_fate fate [] = []
with_fate fate (m ∷ ms) = (m, fate) ∷ with_fate fate ms

-- The old stream is closed, and the queue is emptied.
pub do_reconnect : Runner → Runner
do_reconnect r = if r.connected then r else record r {
  reconnect_timer = none;
  timer_waits = false;
  pending_pong = false;
  writing = false;
  write_queue = [];
  departed = r.departed ++ with_fate dropped r.write_queue;
  writes = 0;
  chain = resolving;
}

-- An error of `onResolve`, `onConnect` (or of the host name), `onSslHandshake`, `onWsHandshake`.
pub chain_failed : Runner → Runner
unfolding schedule_reconnect
chain_failed r = schedule_reconnect (record r { chain = quiet })

pub start_ping_timer : Runner → Runner
start_ping_timer r = if r.stopping || not r.connected then r else record r { ping_waits = true }

pub on_pong_received : ℕ → Runner → Runner
on_pong_received now r = record r { last_pong_time = now; pending_pong = false }

-- `if (!writeQueue_.empty()) doWrite();`
flush : Runner → Runner
unfolding do_write
flush r = elim r.write_queue [ [] ↦ r | m ∷ rest ↦ do_write r ]

-- `onWsHandshake` without an error.
pub on_ws_handshake : ℕ → Runner → Runner
unfolding flush start_ping_timer
on_ws_handshake now r =
    let opened = notify ws_connected (record r {
      reconnect_timer = none;
      timer_waits = false;
      last_pong_time = now;
      pending_pong = false;
      connected = true;
      reconnect_attempts = 0;
      chain = reading;
    }) in
    start_ping_timer (flush opened)

-- `onRead` with a message, and with an error.
pub on_read : String → Runner → Runner
on_read message r =
    if not r.connected && not r.stopping
    then record r { chain = quiet }
    else notify (ws_message message) (record r { chain = reading })

-- A close of the other side and any other error are logged differently and treated alike.
pub on_read_error : Runner → Runner
unfolding schedule_reconnect
on_read_error r =
    if not r.connected && not r.stopping
    then record r { chain = quiet }
    else if r.stopping
    then record r { chain = closing }
    else schedule_reconnect
        (notify (ws_disconnected true) (record r { chain = quiet; connected = false }))

-- The callback of `async_close`; a failed close is followed by a close of the socket.
pub on_close : Runner → Runner
on_close r =
    notify (ws_disconnected false) (record r { chain = quiet; connected = false; stopping = false })

abbrev pub tail : List String → List String
tail [] = []
tail (m ∷ rest) = rest

abbrev pub head_list : List String → List String
head_list [] = []
head_list (m ∷ rest) = m ∷ []

-- `onWrite`; the completed operation is no longer pending.
pub on_write : Bool → Runner → Runner
unfolding do_write
on_write failed r =
    let done = record r { writes = r.writes - 1 } in
    if not r.connected
    then done
    else if failed
    then record done { writing = false }
    else do_write (record done {
      write_queue = tail r.write_queue;
      departed = r.departed ++ with_fate written_out (head_list r.write_queue);
    })

-- Cancelling makes the pending read fail.
pub do_close : Runner → Runner
do_close r =
    let posted = record r { close_posted = false } in
    if not r.connected || r.stopping
    then posted
    else record posted { ping_waits = false; stopping = true }

-- `stop`, with what `ioc_.stopped()` says.
pub stop : Bool → Runner → Runner
stop stopped r = record r {
  timer_waits = false;
  ping_waits = false;
  close_posted = r.close_posted || not stopped && not r.stopping;
  stop_called = true;
}

-- The reconnect timer's callback, when the wait was not cancelled.
pub on_reconnect_timer : Runner → Runner
unfolding do_reconnect
on_reconnect_timer r =
    let fired = record r { timer_waits = false } in if r.stopping then fired else do_reconnect fired

-- The ping timer's callback, when the wait was not cancelled: `doPing`.
pub on_ping_timer : ℕ → Runner → Runner
unfolding schedule_reconnect
on_ping_timer now r =
    let fired = record r { ping_waits = false } in
    if r.stopping || not r.connected
    then fired
    else if r.pending_pong && ltb pong_timeout_secs (now - r.last_pong_time)
    then schedule_reconnect (notify (ws_disconnected true) (record fired { connected = false }))
    else record fired { pending_pong = true; ping_posted = true }

-- The function that `doPing` posts.
pub on_ping_posted : Runner → Runner
unfolding push_write start_ping_timer
on_ping_posted r = start_ping_timer (push_write ping_msg (record r { ping_posted = false }))
