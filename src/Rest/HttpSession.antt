-- ===== src/Rest/HttpSession.antt =====
-- src/rest/HttpSession.cpp: one POST over TLS. Each function is a handler that the io_context runs
-- with what became of the operation; a handler starts the next operation or calls `onComplete_`.
pub mod Once
use hyperliquid_sdk_cpp.Common.{ℕ, String, List, [], ◌∷◌, ◌++◌, Option, none, some}

-- The operation that is pending: the stage is left by the handler of the same name.
pub data Stage : Type 0 where
  on_resolve on_connect on_ssl_handshake on_write on_read on_shutdown finished : Stage

-- The arguments of `onComplete_`; an error code is its message.
pub record Completion : Type 0 where
  pub body : String
  pub status_code : ℕ
  pub ec : Option String

-- What a handler is run with: the error code, the error of `SSL_set_tlsext_host_name` where
-- `onResolve` calls it, and the response that has been read.
pub record Outcome : Type 0 where
  pub ec : Option String
  pub host_name_ec : Option String
  pub status_code : ℕ
  pub body : String

abbrev pub fail : String → Stage × List Completion
fail message = (finished, record { body = ""; status_code = 0; ec = some message } ∷ [])

-- `if (ec) { onComplete_("", 0, ec); return; }`, then the next operation.
abbrev pub unless_failed : Option String → Stage × List Completion → Stage × List Completion
unless_failed (some message) next = fail message
unless_failed none next = next

unfoldable pub handle : Stage → Outcome → Stage × List Completion
handle on_resolve o = unless_failed o.ec (unless_failed o.host_name_ec (on_connect, []))
handle on_connect o = unless_failed o.ec (on_ssl_handshake, [])
handle on_ssl_handshake o = unless_failed o.ec (on_write, [])
handle on_write o = unless_failed o.ec (on_read, [])
handle on_read o =
    unless_failed o.ec
      (on_shutdown, record { body = o.body; status_code = o.status_code; ec = none } ∷ [])
handle on_shutdown o = (finished, [])
handle finished o = (finished, [])

-- The handlers that have run so far; a finished session has no pending operation.
unfoldable pub run : Stage → List Outcome → Stage × List Completion
run stage [] = (stage, [])
run stage (o ∷ os) =
    let step = handle stage o in let rest = run step.0 os in (rest.0, step.1 ++ rest.1)
