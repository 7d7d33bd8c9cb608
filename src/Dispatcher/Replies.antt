-- ===== src/Dispatcher/Replies.antt =====
-- src/service_dispatcher.rs: the replies that `forward_control` and `forward_local` write to the
-- backend that asked.
use nexus_net.Base.{
  ℕ, true, false, none, some, List, [], ◌∷◌, Name, bytes, Result, ok, err, if◌then◌else◌,
}
use nexus_net.Sidecar.Message.{Message, Uuid, reply}
use nexus_net.Dispatcher.Types.{Response}

-- How `timeout(budget, rx).await` ends: the result that was sent, a channel that was closed, or the
-- end of the time.
pub data Waited (A : Type 0) : Type 0 where
  sent : Result Name A → Waited A
  closed timed_out : Waited A

abbrev pub ok_reply : Uuid → List ℕ → Message
ok_reply id result = reply id true (some result) none

abbrev pub error_reply : Uuid → Name → Name → Message
error_reply id code message = reply id false none (some (record { code = code; message = message }))

-- The reply of the spawned task of `forward_control`.
unfoldable pub remote_reply : Uuid → Waited (List ℕ) → Message
remote_reply id (sent (ok result)) = ok_reply id result
remote_reply id (sent (err e)) = error_reply id (bytes "command_failed") e
remote_reply id closed = error_reply id (bytes "node_gone") (bytes "command channel closed")
remote_reply id timed_out = error_reply id (bytes "timeout") (bytes "command execution timeout")

-- `if message.is_empty() { "local service failed" } else { message }`
abbrev pub failure_text : Name → Name
failure_text [] = bytes "local service failed"
failure_text (x ∷ xs) = x ∷ xs

-- The reply of the spawned task of `forward_local`; `lossy` is `String::from_utf8_lossy`.
unfoldable pub local_reply : (List ℕ → Name) → Uuid → Waited Response → Message
local_reply lossy id (sent (ok response)) =
    if response.success
    then ok_reply id response.data'
    else error_reply id (bytes "service_failed") (failure_text (lossy response.data'))
local_reply lossy id (sent (err error)) = error_reply id (bytes "backend_error") error
local_reply lossy id closed =
    error_reply id (bytes "backend_error") (bytes "backend response channel closed")
local_reply lossy id timed_out =
    error_reply id (bytes "timeout") (bytes "local service request timeout")
