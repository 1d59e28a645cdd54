-- ===== src/Rest/HttpSession/Once.antt =====
-- `onComplete_` is called once.
use hyperliquid_sdk_cpp.Common.{
  ℕ, ◌+◌, ◌≤◌, String, List, [], ◌∷◌, arith, length, length-append, ◌≡◌, refl, Option, none, some,
  Option-cases, inl, inr,
}
use hyperliquid_sdk_cpp.Rest.HttpSession.{
  Stage, on_resolve, on_connect, on_ssl_handshake, on_write, on_read, on_shutdown, finished,
  Completion, Outcome, unless_failed, handle, run,
}

run-finished : (os : List Outcome) → run finished os ≡ (finished, [])
unfolding run handle
run-finished [] = refl
run-finished (o ∷ os) = rw (run-finished os) refl

run-shutdown : (o : Outcome) (os : List Outcome) → run on_shutdown (o ∷ os) ≡ (finished, [])
unfolding run handle
run-shutdown o os = rw (run-finished os) refl

-- The first error; if there is none, the response.
abbrev pub first_error : List (Option String) → Option String
first_error [] = none
first_error (some message ∷ later) = some message
first_error (none ∷ later) = first_error later

abbrev pub completion_of : Option String → Outcome → Completion
completion_of (some message) response = record { body = ""; status_code = 0; ec = some message }
completion_of none response = record {
  body = response.body;
  status_code = response.status_code;
  ec = none;
}

-- A stage whose handler only starts the next operation.
run-step :
    (stage next : Stage) (o response : Outcome) (os : List Outcome) (errors : List (Option String))
    → handle stage o ≡ unless_failed o.ec (next, [])
    → run next os ≡ (finished, completion_of (first_error errors) response ∷ [])
    → run stage (o ∷ os) ≡ (finished, completion_of (first_error (o.ec ∷ errors)) response ∷ [])
unfolding run
run-step stage next o response os errors h rest = elim (Option-cases o.ec) [
  | inl e ↦ rw (h, e, rest) refl
  | inr (message, e) ↦ rw (h, e, run-finished os) refl
]

run-read :
    (response closed : Outcome) (os : List Outcome)
    → run on_read (response ∷ closed ∷ os)
      ≡ (finished, completion_of (first_error (response.ec ∷ [])) response ∷ [])
unfolding run handle
run-read response closed os = elim (Option-cases response.ec) [
  | inl e ↦ rw (e, run-finished os) refl
  | inr (message, e) ↦ rw (e, run-finished (closed ∷ os)) refl
]

-- Once six handlers may run, the session is finished and has called `onComplete_` once: with the
-- first error of the resolution, the host name, the connection, the handshake, the write and the
-- read, or else with the response. What the shutdown comes to has no influence.
pub run_once :
    (resolved connected shaken written response closed : Outcome) (os : List Outcome)
    → run on_resolve (resolved ∷ connected ∷ shaken ∷ written ∷ response ∷ closed ∷ os) ≡ (
      finished,
      completion_of
            (first_error (
              resolved.ec ∷ resolved.host_name_ec ∷ connected.ec ∷ shaken.ec ∷ written.ec
              ∷ response.ec ∷ []))
            response
          ∷ [],
    )
unfolding run handle
run_once a b c d e f os =
    let reading = run-read e f os in
    let writing = run-step on_write on_read d e (e ∷ f ∷ os) _ refl reading in
    let shaking = run-step on_ssl_handshake on_write c e (d ∷ e ∷ f ∷ os) _ refl writing in
    let connecting = run-step on_connect on_ssl_handshake b e (c ∷ d ∷ e ∷ f ∷ os) _ refl shaking in
    elim (Option-cases a.ec) [
      | inl x ↦ elim (Option-cases a.host_name_ec) [
        | inl y ↦ rw (x, y) connecting
        | inr (message, y) ↦ rw (x, y, run-finished os) refl
      ]
      | inr (message, x) ↦ rw (x, run-finished os) refl
    ]

-- How often `onComplete_` may still be called.
abbrev calls_left : Stage → ℕ
calls_left on_shutdown = 0
calls_left finished = 0
calls_left _ = 1

handle-calls_left :
    (stage : Stage) (o : Outcome)
    → length (handle stage o).1 + calls_left (handle stage o).0 ≤ calls_left stage
unfolding handle
handle-calls_left on_resolve o = ground arith
handle-calls_left on_connect o = ground arith
handle-calls_left on_ssl_handshake o = ground arith
handle-calls_left on_write o = ground arith
handle-calls_left on_read o = ground arith
handle-calls_left on_shutdown o = omega arith
handle-calls_left finished o = omega arith

run-calls_left : (stage : Stage) (os : List Outcome) → length (run stage os).1 ≤ calls_left stage
unfolding run
run-calls_left stage [] = omega arith
run-calls_left stage (o ∷ os) = omega (
  arith,
  handle-calls_left stage o,
  run-calls_left (handle stage o).0 os,
  length-append (handle stage o).1 (run (handle stage o).0 os).1,
)

-- However far a session has got, it has called `onComplete_` once at most.
pub run_at_most_once : (os : List Outcome) → length (run on_resolve os).1 ≤ 1
run_at_most_once os = run-calls_left on_resolve os
