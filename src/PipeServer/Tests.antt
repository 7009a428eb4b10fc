-- ===== src/PipeServer/Tests.antt =====
-- A server that starts, gets a relay and a client, and outlives its parent.
use arc_browser_mcp.Prelude.{
  ◌+◌, ◌≤◌, ◌≡◌, refl, Bool, true, false, not, ◌&&◌, ◌||◌, Option, none, some, is_some, List, [],
  ◌∷◌, String,
}
use arc_browser_mcp.Json.{Json, number, string, object, end, field, get, get_field}
use arc_browser_mcp.Protocol.{ok, fail, is_version, as_string}
use arc_browser_mcp.Session.{absent, contents, session_json}
use arc_browser_mcp.Session.RoundTrip.{load-session_json}
use arc_browser_mcp.Session.Tests.{session, session-IsValid, no_numeral}
use arc_browser_mcp.PipeServer.{
  McpPipeServer, connected, closed, new_server, is_connected, current_nonce, handle_relay_request,
  has, welcome, relay_hello, handle_client_request, client_hello, forward_request, check_hello,
  has_nonce, accept_relay, accept_client, set_state, push_all, is_other, add, remove, is_empty,
}
use arc_browser_mcp.PipeServer.Sockets.{
  begin_stop, Happening, relay_asks, client_asks, relay_closes, client_closes, ticks, run, step,
  is_relay, watchdog_tick, client_closed, on_client_left, disarm, call_orphaned,
}
use arc_browser_mcp.PipeServer.Start.{
  Outcomes, listening, in_use, start, begin_start, listened, apply_acl, write_file, listen_clients,
  give_back, and_then, busy_code,
}
use arc_browser_mcp.PipeServer.Starting.{
  holds_pipe, holds_clients_pipe, leaves_file, is_listening, gets_pipe, succeeds, start_failed,
  start-holds_pipe, start-spares_owner,
}
use arc_browser_mcp.PipeServer.Access.{IsSound, has_relay, presented, sent_on, forwards}
use arc_browser_mcp.PipeServer.Reach.{reaches, run-access}
use arc_browser_mcp.PipeServer.Orphans.{
  ends_relay, is_orphaned, ever_ends, run-keeps_relay, count_orphaned, one_if, IsWatched,
  run-orphaned_once,
}
use arc_browser_mcp.PipeServer.Admission.{stopped-admits}

abbrev is_pid_alive : Json → Option Bool
is_pid_alive pid = some true

abbrev free : Outcomes
free = record {
  first = listening;
  file = absent;
  removed = true;
  second = listening;
  acl = none;
  written = none;
  clients = listening;
  unremoved = none;
  watched = true;
}

abbrev taken : Outcomes
taken = record free { first = in_use; file = contents (some (session_json session)) }

abbrev clients_taken : Outcomes
clients_taken = record free { clients = in_use }

start_failed_example :
    let (s, effects, result) =
      start no_numeral is_pid_alive session clients_taken (new_server true) in
    (s.own_session ≡ false)
    × (s.clients_server ≡ false)
    × (s.server ≡ false)
    × (holds_pipe false effects ≡ false)
    × (holds_clients_pipe effects ≡ false)
    × (leaves_file false effects ≡ false)
unfolding start begin_start listened apply_acl write_file listen_clients give_back and_then
    busy_code
start_failed_example =
    start_failed no_numeral is_pid_alive session true clients_taken
      (record { code = "PIPE_BUSY"; details = [] }) refl refl refl

start-spares_owner_example :
    let (s, effects, result) = start no_numeral is_pid_alive session taken (new_server true) in
    (result ≡ fail "PIPE_BUSY") × (effects ≡ []) × (s.server ≡ false)
start-spares_owner_example =
    start-spares_owner no_numeral is_pid_alive session true taken session refl
      (load-session_json no_numeral session session-IsValid) refl

abbrev unwritten : Outcomes
unwritten = record free { written = some "ENOSPC" }

start-holds_pipe_example :
    let (s, effects, result) = start no_numeral is_pid_alive session unwritten (new_server true) in
    (holds_pipe false effects ≡ s.server)
    × (s.server
        ≡ gets_pipe no_numeral is_pid_alive unwritten
          && not (is_some unwritten.acl)
          && (is_some unwritten.written || is_listening unwritten.clients))
    × (succeeds result
        ≡ gets_pipe no_numeral is_pid_alive unwritten
          && not (is_some unwritten.acl)
          && (not (is_some unwritten.written) && is_listening unwritten.clients))
    × (holds_clients_pipe effects ≡ s.clients_server)
    × (leaves_file false effects ≡ s.own_session)
start-holds_pipe_example = start-holds_pipe no_numeral is_pid_alive session true unwritten

abbrev hello : String → Json
hello nonce = object (field "nonce" (string nonce) (field "bridgeVersion" (number 1) end))

abbrev started : McpPipeServer
started = record (new_server true) {
  server = true;
  clients_server = true;
  session_path = true;
  session = some session;
  own_session = true;
  orphan_timer = true;
}

started-IsSound : IsSound started
unfolding new_server has_relay is_connected has
started-IsSound = record { up = refl; relay_authed = λ r e. cc; clients_authed = λ c h. cc }

abbrev happenings : List Happening
happenings =
    relay_asks 1 "bridge.hello" (hello session.nonce_hex)
    ∷ client_asks 2 "bridge.hello" (hello session.nonce_hex)
    ∷ client_asks 2 "tabs.list" (object end)
    ∷ []

asked_on : reaches 2 (run happenings started) ≡ true
unfolding reaches run step handle_relay_request relay_hello handle_client_request client_hello
    forward_request check_hello has_nonce current_nonce accept_relay accept_client set_state
    push_all is_connected is_other is_relay has add sent_on forwards new_server get get_field
    is_version as_string
asked_on = refl

run-access_example : presented (current_nonce started) 2 happenings ≡ true
unfolding new_server
run-access_example = run-access started happenings 2 started-IsSound refl asked_on

abbrev with_relay : McpPipeServer
with_relay = record started { relay = some 1; authed = 1 ∷ []; state = connected }

abbrev rival : List Happening
rival = relay_asks 7 "bridge.hello" (hello session.nonce_hex) ∷ relay_closes 7 ∷ ticks false ∷ []

rival_never_ends : ever_ends 1 rival ≡ false
unfolding ever_ends ends_relay
rival_never_ends = refl

run-keeps_relay_example : (run rival with_relay).0.relay ≡ some 1
run-keeps_relay_example = run-keeps_relay rival with_relay 1 refl rival_never_ends

started-IsWatched : IsWatched started
unfolding new_server
started-IsWatched = record { armed = λ e. cc; waits = λ e. cc }

abbrev leaving : List Happening
leaving =
    client_asks 2 "bridge.hello" (hello session.nonce_hex)
    ∷ ticks false
    ∷ client_closes 2
    ∷ ticks false
    ∷ []

told_once : count_orphaned (run leaving started).1 ≡ 1
unfolding run step handle_client_request client_hello check_hello has_nonce current_nonce
    accept_client is_connected has add new_server get get_field is_version as_string watchdog_tick
    client_closed on_client_left disarm call_orphaned is_empty remove count_orphaned one_if
    is_orphaned
told_once = refl

run-orphaned_once_example :
    count_orphaned (run leaving started).1 + one_if (run leaving started).0.orphan_timer
    ≤ one_if true
unfolding new_server
run-orphaned_once_example = run-orphaned_once leaving started started-IsWatched

stopped-admits_example :
    let (stopped, effects) = begin_stop started in
    let (next, more, answer) =
      handle_relay_request 3 "bridge.hello" (hello session.nonce_hex) stopped in
    (stopped.state ≡ closed)
    × (answer ≡ ok welcome)
    × (next.relay ≡ some 3)
    × (next.state ≡ connected)
unfolding get get_field as_string is_version current_nonce
stopped-admits_example = stopped-admits started 3 (hello session.nonce_hex) refl refl
