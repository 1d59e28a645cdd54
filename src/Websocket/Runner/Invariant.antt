-- ===== src/Websocket/Runner/Invariant.antt =====
-- What holds whenever the io_context is between two callbacks.
use hyperliquid_sdk_cpp.Common.{
  ℕ, String, Bool, true, false, List, [], ◌∷◌, ◌++◌, append-nil, append_assoc, ◌≡◌, ◌≢◌, ◌⊎◌, refl,
  ap, ◌∙◌, arith,
}
use hyperliquid_sdk_cpp.Websocket.Runner.{
  Chain, resolving, connecting, ssl_shaking, ws_shaking, reading, Fate, written_out, dropped,
  Runner, start, tail, head_list, with_fate, ping_msg,
}
use hyperliquid_sdk_cpp.Websocket.Runner.Events.{
  Event, send, written, ping_runs, reconnect_timer_fires, handle, IsDue, Run, init, step,
}

abbrev pub is_opening : Chain → Bool
is_opening resolving = true
is_opening connecting = true
is_opening ssl_shaking = true
is_opening ws_shaking = true
is_opening _ = false

abbrev pub in_flight : Bool → ℕ
in_flight true = 1
in_flight false = 0

-- The messages, without what became of them.
unfoldable pub texts : List (String × Fate) → List String
texts [] = []
texts ((m, fate) ∷ ms) = m ∷ texts ms

pub record Inv (r : Runner) : Type 0 where
  -- The message being written stays at the front of the queue.
  pub front : r.writing ≡ true → r.write_queue ≢ []
  -- One write at most is pending, and `writing_` says whether one is.
  pub one_write : r.connected ≡ true → r.writes ≡ in_flight r.writing
  pub opening_idle :
      is_opening r.chain ≡ true → (r.connected ≡ false) × (r.writing ≡ false) × (r.writes ≡ 0)
  pub waits_apart : r.timer_waits ≡ true → (r.connected ≡ false) × (is_opening r.chain ≡ false)
  pub stopping_called : r.stopping ≡ true → r.stop_called ≡ true
  pub posted_called : r.close_posted ≡ true → r.stop_called ≡ true
  -- Until `stop` is called, a reconnection is due, or under way, or the connection is open and read.
  pub alive :
      r.stop_called ≡ false
      → (r.timer_waits ≡ true)
        ⊎ (is_opening r.chain ≡ true)
        ⊎ ((r.connected ≡ true) × (r.chain ≡ reading))
  -- What was sent has left the queue, written or dropped, or is in it, in the order of sending.
  pub in_order : r.accepted ≡ texts r.departed ++ r.write_queue

texts-append :
    (ms : List (String × Fate)) (fate : Fate) (q : List String)
    → texts (ms ++ with_fate fate q) ≡ texts ms ++ q
unfolding texts with_fate
texts-append [] fate [] = refl
texts-append [] fate (m ∷ q) = ap (λ r. m ∷ r) (texts-append [] fate q)
texts-append ((m, f) ∷ ms) fate q = ap (λ r. m ∷ r) (texts-append ms fate q)

take_front :
    (d : List (String × Fate)) (q : List String)
    → texts (d ++ with_fate written_out (head_list q)) ++ tail q ≡ texts d ++ q
take_front d [] = append-nil _ ∙ texts-append d written_out []
take_front d (m ∷ q) = rw (texts-append d written_out (m ∷ [])) (append_assoc (texts d) (m ∷ []) q)

take_all :
    (d : List (String × Fate)) (q : List String)
    → texts (d ++ with_fate dropped q) ++ [] ≡ texts d ++ q
take_all d q = append-nil _ ∙ texts-append d dropped q

handle-Inv : (e : Event) (r : Runner) → IsDue e r → Inv r → Inv (handle e r)
unfolding handle
handle-Inv (send m) r d v = ground (arith, append_assoc (texts r.departed) r.write_queue (m ∷ []))
handle-Inv ping_runs r d v =
    ground (arith, append_assoc (texts r.departed) r.write_queue (ping_msg ∷ []))
handle-Inv (written failed) r d v = ground (arith, take_front r.departed r.write_queue)
handle-Inv reconnect_timer_fires r d v = ground (arith, take_all r.departed r.write_queue)
handle-Inv e r d v = ground arith

-- Between two callbacks, in every run: what was sent has left the queue, in the order of sending,
-- written or dropped by a reconnection, or it is still queued, in that order; a message that is
-- being written stands at the front; on an open connection one write is pending if `writing_` says
-- so, and none otherwise; a reconnection that is waited for, and a connection that is being opened,
-- exclude each other and an open connection; and until `stop` is called, one of the three is there.
pub Run-Inv : {r : Runner} → Run r → Inv r
unfolding start texts
Run-Inv init = ground arith
Run-Inv (step {r} e run d) = handle-Inv e r d (Run-Inv run)
