-- ===== src/Websocket/Runner/Backoff.antt =====
-- The delays of `scheduleReconnect`.
use hyperliquid_sdk_cpp.Common.{
  ℕ, suc, ◌^◌, ◌≤◌, min, ◌≡◌, some, arith, leb, ap, ◌∙◌, ◌&&◌, not, true, false, if◌then◌else◌,
}
use hyperliquid_sdk_cpp.Websocket.Runner.{Runner, delay_secs, start}
use hyperliquid_sdk_cpp.Websocket.Runner.Events.{
  Event, send, ws_shaken, handle, IsDue, Run, init, step,
}
use hyperliquid_sdk_cpp.Websocket.Runner.Invariant.{Inv, Run-Inv}

delay_secs_capped : (n : ℕ) → 16 ≤ n → delay_secs n ≡ 60
unfolding delay_secs
delay_secs_capped n h = let e : min n 16 ≡ 16 = omega arith in rw e

-- The delay before attempt n doubles from two seconds and stays at a minute from the sixth on.
pub delay_secs_lem :
    (n : ℕ)
    → 1 ≤ n
    → (n ≤ 5 → delay_secs n ≡ 2 ^ n)
      × (6 ≤ n → delay_secs n ≡ 60)
      × (2 ≤ delay_secs n)
      × (delay_secs n ≤ 60)
unfolding delay_secs
delay_secs_lem
      (suc
        (suc (suc (suc (suc (suc (suc (suc (suc (suc (suc (suc (suc (suc (suc (suc n))))))))))))))))
      h =
    let top =
      delay_secs_capped
        (suc (
          suc
            (suc (suc (suc (suc (suc (suc (suc (suc (suc (suc (suc (suc (suc (suc n))))))))))))))))
        (omega arith) in
    (λ p. absurd (omega arith), λ q. top, omega (arith, top), omega (arith, top))
delay_secs_lem n h = omega arith

-- A step that sets the reconnection timer counts, and a handshake that succeeds starts again.
abbrev counted : Event → Runner → Runner → ℕ → ℕ
counted (ws_shaken false now) before after n = 0
counted e before after n = if after.timer_waits && not before.timer_waits then suc n else n

-- The reconnections that a run has put off since the last handshake that succeeded.
unfoldable pub attempts : {r : Runner} → Run r → ℕ
attempts init = 0
attempts (step {r} e run d) = counted e r (handle e r) (attempts run)

-- The counter says how many attempts there were, and the timer was set by the last of them.
abbrev IsPaced : ℕ → Runner → Type 0
IsPaced n r =
    (r.reconnect_attempts ≡ n)
    × (r.timer_waits ≡ true → (1 ≤ n) × (r.reconnect_timer ≡ some (delay_secs n)))

handle-IsPaced :
    (e : Event) (r : Runner) (n : ℕ)
    → IsDue e r
    → Inv r
    → IsPaced n r
    → IsPaced (counted e r (handle e r) n) (handle e r)
unfolding handle
handle-IsPaced (ws_shaken false now) r n d v p = ground arith
handle-IsPaced (ws_shaken true now) r n d v p = ground arith
handle-IsPaced (send m) r n d v p = ground arith
handle-IsPaced e r n d v p = ground arith

Run-IsPaced : {r : Runner} (run : Run r) → IsPaced (attempts run) r
unfolding start attempts
Run-IsPaced init = ground arith
Run-IsPaced (step {r} e run d) = handle-IsPaced e r (attempts run) d (Run-Inv run) (Run-IsPaced run)

-- Whenever a reconnection is waited for, the wait is the one of the reconnections that were put off
-- since the last handshake that succeeded, of which there is one at least: 2, 4, 8, 16, 32 seconds
-- for the first five and a minute for the others.
pub Run-delay :
    {r : Runner} (run : Run r)
    → r.timer_waits ≡ true
    → (r.reconnect_timer ≡ some (if leb (attempts run) 5 then 2 ^ attempts run else 60))
      × (1 ≤ attempts run)
Run-delay {r} run w =
    let (n, t) = (Run-IsPaced run).1 w in
    let d = delay_secs_lem (attempts run) n in (t ∙ ap some (ground (arith, d)), n)
