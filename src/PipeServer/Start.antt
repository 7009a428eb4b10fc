-- ===== src/PipeServer/Start.antt =====
-- src/bridge/mcpPipeServer.ts: `start`, one function for each stretch between two waits, and the
-- whole with nothing else happening in between. A pipe that is listened on is an effect, as is one
-- that is closed.
use arc_browser_mcp.Prelude.{
  Bool, true, false, not, Option, none, some, List, [], ◌∷◌, ◌++◌, String, if◌then◌else◌,
}
use arc_browser_mcp.Json.{Json}
use arc_browser_mcp.Protocol.{Result, ok, err, fail}
use arc_browser_mcp.Session.{BridgeSession, FileRead, load_session_descriptor, is_session_stale}
use arc_browser_mcp.PipeServer.{
  McpPipeServer, Effect, take_pipe, take_clients_pipe, close_server, write_session, remove_session,
}
use arc_browser_mcp.PipeServer.Sockets.{arm}

-- What listening on a pipe comes to; a failure has the error's code.
pub data Listen : Type 0 where
  listening in_use : Listen
  failed : String → Listen

abbrev pub Started : Type 0
Started = McpPipeServer × List Effect × Result (Unit {0})

-- `asPipeBusy`, in the code of the error that is thrown
unfoldable pub busy_code : Listen → String
busy_code (failed code) = code
busy_code _ = "PIPE_BUSY"

-- What `start` awaits: the first try to listen, the session file and its removal, the second try, the
-- access list, the directory and the file, the clients' pipe, and the removal of the file where that
-- pipe is not had (`unremoved` is the code of its error); `watched` as for `arm`.
pub record Outcomes : Type 0 where
  pub first : Listen
  pub file : FileRead
  pub removed : Bool
  pub second : Listen
  pub acl : Option String
  pub written : Option String
  pub clients : Listen
  pub unremoved : Option String
  pub watched : Bool

module _ (integral : String → Bool) (is_pid_alive : Json → Option Bool) where
  -- The owner that the file names is alive.
  unfoldable pub has_live_owner : FileRead → Bool
  has_live_owner file = elim (load_session_descriptor integral file) [
    | err e ↦ false
    | ok loaded ↦ elim loaded [
      | none ↦ false
      | some session ↦ not (is_session_stale is_pid_alive session)
    ]
  ]

  unfoldable pub clear_stale_session_file : FileRead → Bool → List Effect × Bool
  unfolding has_live_owner
  clear_stale_session_file file removed =
      if has_live_owner file then ([], false) else (remove_session ∷ [], removed)

  -- The end of the listening, with the effects that it had.
  unfoldable pub listened : List Effect → Listen → McpPipeServer → Started
  unfolding busy_code
  listened effects listening s = (s, effects ++ take_pipe ∷ [], ok tt)
  listened effects outcome s = (record s { server = false }, effects, fail (busy_code outcome))

  unfoldable pub retry_listen : List Effect × Bool → Listen → McpPipeServer → Started
  unfolding listened
  retry_listen (effects, cleared) second s = listened effects (if cleared then second else in_use) s

  unfoldable pub begin_start : Outcomes → McpPipeServer → Started
  unfolding clear_stale_session_file retry_listen listened
  begin_start out s =
      let opening = record s { session_path = true; server = true } in
      elim out.first [
        | listening ↦ listened [] listening opening
        | in_use ↦ retry_listen (clear_stale_session_file out.file out.removed) out.second opening
        | failed code ↦ listened [] (failed code) opening
      ]

  -- The session is created as soon as the pipe is there; then the access list is applied.
  unfoldable pub apply_acl : BridgeSession → Option String → McpPipeServer → Started
  apply_acl session none s = (record s { session = some session }, [], ok tt)
  apply_acl session (some code) s =
      (record s { session = some session; server = false }, close_server ∷ [], fail code)

  -- The directory and the file; nothing is undone where this throws.
  unfoldable pub write_file : BridgeSession → Option String → McpPipeServer → Started
  write_file session none s = (record s { own_session = true }, write_session session ∷ [], ok tt)
  write_file session (some code) s = (s, [], fail code)

  -- The clients' pipe is not had: the server is closed and the session file removed. Where the removal
  -- throws, its error is the one that is thrown, and the session stays the server's own.
  unfoldable pub give_back : Listen → Option String → McpPipeServer → Started
  unfolding busy_code
  give_back outcome none s = (
    record s { clients_server = false; server = false; own_session = false },
    close_server ∷ remove_session ∷ [],
    fail (busy_code outcome),
  )
  give_back outcome (some code) s =
      (record s { clients_server = false; server = false }, close_server ∷ [], fail code)

  unfoldable pub listen_clients : Listen → Option String → Bool → McpPipeServer → Started
  unfolding give_back arm
  listen_clients listening unremoved watched s =
      (arm watched (record s { clients_server = true }), take_clients_pipe ∷ [], ok tt)
  listen_clients outcome unremoved watched s = give_back outcome unremoved s

  -- The next stretch, unless the one before it threw.
  unfoldable pub and_then : Started → (McpPipeServer → Started) → Started
  and_then (s, effects, err e) next = (s, effects, err e)
  and_then (s, effects, ok done) next =
      let (last, more, result) = next s in (last, effects ++ more, result)

  unfoldable pub start : BridgeSession → Outcomes → McpPipeServer → Started
  unfolding begin_start apply_acl write_file listen_clients and_then
  start session out s =
      and_then
        (and_then (and_then (begin_start out s) (apply_acl session out.acl))
          (write_file session out.written))
        (listen_clients out.clients out.unremoved out.watched)
