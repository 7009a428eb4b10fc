-- ===== src/PipeServer/Starting.antt =====
-- What a start of the pipe server leaves, when it succeeds and when it throws.
use arc_browser_mcp.Prelude.{
  ◌≡◌, Bool, true, false, not, ◌&&◌, ◌||◌, Option, none, some, is_some, List, [], ◌∷◌, String,
  arith,
}
use arc_browser_mcp.Json.{Json}
use arc_browser_mcp.Protocol.{Result, BridgeError, ok, err, fail}
use arc_browser_mcp.Session.{BridgeSession, load_session_descriptor, is_session_stale}
use arc_browser_mcp.PipeServer.{
  Effect, take_pipe, take_clients_pipe, close_server, write_session, remove_session, new_server,
}
use arc_browser_mcp.PipeServer.Sockets.{arm}
use arc_browser_mcp.PipeServer.Start.{
  Listen, listening, in_use, failed, Started, busy_code, Outcomes, has_live_owner,
  clear_stale_session_file, listened, retry_listen, begin_start, apply_acl, write_file,
  listen_clients, give_back, and_then, start,
}

abbrev pub succeeds : Result (Unit {0}) → Bool
succeeds (ok done) = true
succeeds (err e) = false

-- Whether a run of effects leaves the bridge's pipe held, if it was held before or not.
abbrev pub holds_pipe : Bool → List Effect → Bool
holds_pipe held [] = held
holds_pipe held (take_pipe ∷ es) = holds_pipe true es
holds_pipe held (close_server ∷ es) = holds_pipe false es
holds_pipe held (_ ∷ es) = holds_pipe held es

abbrev pub holds_clients_pipe : List Effect → Bool
holds_clients_pipe [] = false
holds_clients_pipe (take_clients_pipe ∷ es) = true
holds_clients_pipe (_ ∷ es) = holds_clients_pipe es

-- Whether it leaves a session file that it wrote.
abbrev pub leaves_file : Bool → List Effect → Bool
leaves_file left [] = left
leaves_file left (write_session _ ∷ es) = leaves_file true es
leaves_file left (remove_session ∷ es) = leaves_file false es
leaves_file left (_ ∷ es) = leaves_file left es

abbrev pub is_listening : Listen → Bool
is_listening listening = true
is_listening _ = false

abbrev pub gets_in : Listen → Bool → Bool
gets_in listening retried = true
gets_in in_use retried = retried
gets_in (failed code) retried = false

-- The first try has the pipe, or the pipe is in use, no owner is alive, the file is removed and the
-- second try has the pipe.
abbrev pub gets_pipe : (String → Bool) → (Json → Option Bool) → Outcomes → Bool
gets_pipe integral is_pid_alive out =
    gets_in out.first (
      not (has_live_owner integral is_pid_alive out.file) && out.removed && is_listening out.second)

module _ (integral : String → Bool) (is_pid_alive : Json → Option Bool) (session : BridgeSession)
    (can_orphan : Bool) (out : Outcomes) where
  abbrev result : Started
  result = start integral is_pid_alive session out (new_server can_orphan)

  -- A start that succeeds has both pipes, the session, and a session file of its own.
  pub start_ok :
      result.2 ≡ ok tt
      → (result.0.server ≡ true)
        × (result.0.clients_server ≡ true)
        × (result.0.session ≡ some session)
        × (result.0.own_session ≡ true)
  unfolding start begin_start clear_stale_session_file retry_listen listened apply_acl write_file
      listen_clients give_back and_then new_server arm
  start_ok h = ground (arith, h)

  -- A start that throws, but not because the directory or the session file could not be written or
  -- the file could not be removed again, has no session of its own and no server, neither for the
  -- bridge nor for clients; and what it did leaves nothing behind: a pipe that it took is closed, and
  -- a session file that it wrote is removed.
  pub start_failed :
      (e : BridgeError)
      → result.2 ≡ err e
      → out.written ≡ none
      → out.unremoved ≡ none
      → (result.0.own_session ≡ false)
        × (result.0.clients_server ≡ false)
        × (result.0.server ≡ false)
        × (holds_pipe false result.1 ≡ false)
        × (holds_clients_pipe result.1 ≡ false)
        × (leaves_file false result.1 ≡ false)
  unfolding start begin_start clear_stale_session_file retry_listen listened apply_acl write_file
      listen_clients give_back and_then new_server arm
  start_failed e h written unremoved = ground (arith, h, written, unremoved)

  -- However a start ends, what it did leaves the bridge's pipe held exactly if `server` is set, a pipe
  -- for clients exactly if `clients_server` is, and a session file of its own exactly if `own_session`
  -- is. It succeeds where both pipes are had, the access list is set and the file written. The bridge's
  -- pipe is also held where it was had and its access list set, but the directory or the file could
  -- not be written.
  pub start-holds_pipe :
      (holds_pipe false result.1 ≡ result.0.server)
      × (result.0.server
          ≡ gets_pipe integral is_pid_alive out
            && not (is_some out.acl)
            && (is_some out.written || is_listening out.clients))
      × (succeeds result.2
          ≡ gets_pipe integral is_pid_alive out
            && not (is_some out.acl)
            && (not (is_some out.written) && is_listening out.clients))
      × (holds_clients_pipe result.1 ≡ result.0.clients_server)
      × (leaves_file false result.1 ≡ result.0.own_session)
  unfolding start begin_start clear_stale_session_file retry_listen listened apply_acl write_file
      listen_clients give_back and_then new_server arm is_some
  start-holds_pipe = ground arith

  -- Where another process has the pipe and the session file names one that is alive, the start throws
  -- PIPE_BUSY and has no effect: the file is not touched.
  pub start-spares_owner :
      (owner : BridgeSession)
      → out.first ≡ in_use
      → load_session_descriptor integral out.file ≡ ok (some owner)
      → is_pid_alive owner.mcp_pid ≡ some true
      → (result.2 ≡ fail "PIPE_BUSY") × (result.1 ≡ []) × (result.0.server ≡ false)
  unfolding start begin_start clear_stale_session_file has_live_owner is_session_stale retry_listen
      listened busy_code apply_acl write_file listen_clients and_then new_server arm
  start-spares_owner owner first loaded alive = ground (arith, first, loaded, alive)
