-- ===== src/PipeServer/Sockets.antt =====
-- src/bridge/mcpPipeServer.ts: what the server does when sockets close, time passes, or it stops.
use arc_browser_mcp.Prelude.{
  ℕ, Bool, true, false, not, Option, none, some, List, [], ◌∷◌, ◌++◌, String, if◌then◌else◌,
}
use arc_browser_mcp.Json.{Json}
use arc_browser_mcp.PipeServer.{
  waiting, closed, is_connected, McpPipeServer, Effect, destroy, close_peer, orphaned, clients_idle,
  close_server, close_clients_server, remove_session, has, remove, is_empty, set_state, is_other,
  handle_relay_request, handle_client_request,
}

-- The timeout of the hello of a relay's or a client's socket.
unfoldable pub hello_timeout : ℕ → McpPipeServer → List Effect
hello_timeout socket s = if has socket s.authed then [] else destroy socket ∷ []

unfoldable pub is_relay : Option ℕ → ℕ → Bool
unfolding is_other
is_relay none socket = false
is_relay (some relay) socket = not (is_other (some relay) socket)

unfoldable pub relay_gone : McpPipeServer → McpPipeServer × List Effect
unfolding set_state
relay_gone s =
    let left = record s { relay = none } in
    if is_connected s.state then set_state waiting left else (left, [])

-- A relay's socket closes.
unfoldable pub relay_closed : ℕ → McpPipeServer → McpPipeServer × List Effect
unfolding relay_gone is_relay
relay_closed socket s =
    if is_relay s.relay socket
    then (let (next, effects) = relay_gone s in (next, close_peer socket ∷ effects))
    else (s, close_peer socket ∷ [])

-- disarmOrphanWatchdog; then `onOrphaned?.()`
unfoldable pub disarm : McpPipeServer → McpPipeServer
disarm s = record s { orphan_timer = false }

unfoldable pub call_orphaned : McpPipeServer → List Effect
call_orphaned s = if s.can_orphan then orphaned ∷ [] else []

unfoldable pub on_client_left : McpPipeServer → McpPipeServer × List Effect
unfolding disarm call_orphaned
on_client_left s =
    if not (is_empty s.clients)
    then (s, [])
    else if s.orphan_pending
    then (disarm (record s { orphan_pending = false }), call_orphaned s)
    else (s, clients_idle ∷ [])

-- A client's socket closes.
unfoldable pub client_closed : ℕ → McpPipeServer → McpPipeServer × List Effect
unfolding on_client_left
client_closed socket s =
    if has socket s.clients
    then (let (next, effects) = on_client_left (record s { clients = remove socket s.clients }) in
        (next, close_peer socket ∷ effects))
    else (s, close_peer socket ∷ [])

-- armOrphanWatchdog; `watched` says that there is a parent to watch.
unfoldable pub arm : Bool → McpPipeServer → McpPipeServer
arm watched s =
    if not s.can_orphan then s else if watched then record s { orphan_timer = true } else s

-- The watchdog's timer, with what `isParentAlive` gives; an exception counts as `false`.
unfoldable pub watchdog_tick : Bool → McpPipeServer → McpPipeServer × List Effect
unfolding disarm call_orphaned
watchdog_tick alive s =
    if not s.orphan_timer
    then (s, [])
    else if alive
    then (s, [])
    else if not (is_empty s.clients)
    then (record s { orphan_pending = true }, [])
    else (disarm s, call_orphaned s)

unfoldable pub drop_relay : Option ℕ → List Effect
drop_relay none = []
drop_relay (some relay) = close_peer relay ∷ destroy relay ∷ []

unfoldable pub drop_clients : List ℕ → List Effect
drop_clients [] = []
drop_clients (client ∷ clients) = close_peer client ∷ destroy client ∷ drop_clients clients

-- `stop` up to the wait for the clients' server, from there to the wait for the other one, and the
-- rest. A wait for a server that is not there does not happen.
unfoldable pub begin_stop : McpPipeServer → McpPipeServer × List Effect
unfolding disarm set_state drop_relay drop_clients
begin_stop s =
    let (next, effects) = set_state closed (disarm (record s { orphan_pending = false })) in
    (
      record next { relay = none; clients = []; clients_server = false },
      effects
          ++ (drop_relay s.relay
              ++ (drop_clients s.clients
                  ++ (if s.clients_server then close_clients_server ∷ [] else []))),
    )

unfoldable pub continue_stop : McpPipeServer → McpPipeServer × List Effect
continue_stop s = (record s { server = false }, if s.server then close_server ∷ [] else [])

unfoldable pub end_stop : McpPipeServer → McpPipeServer × List Effect
end_stop s =
    if not s.own_session
    then (s, [])
    else if s.session_path
    then (record s { own_session = false }, remove_session ∷ [])
    else (s, [])

-- What can happen to a server that has started or is starting: requests on a relay's and on a
-- client's socket, closed sockets, ticks of the watchdog, and the stretches of `stop`.
pub data Happening : Type 0 where
  relay_asks client_asks : ℕ → String → Json → Happening
  relay_closes client_closes : ℕ → Happening
  ticks : Bool → Happening
  stops continues_stop ends_stop : Happening

unfoldable pub step : Happening → McpPipeServer → McpPipeServer × List Effect
step (relay_asks socket method payload) s =
    let (next, effects, answer) = handle_relay_request socket method payload s in (next, effects)
step (client_asks socket method payload) s =
    let (next, effects, answer) = handle_client_request socket method payload s in (next, effects)
step (relay_closes socket) s = relay_closed socket s
step (client_closes socket) s = client_closed socket s
step (ticks alive) s = watchdog_tick alive s
step stops s = begin_stop s
step continues_stop s = continue_stop s
step ends_stop s = end_stop s

unfoldable pub run : List Happening → McpPipeServer → McpPipeServer × List Effect
run [] s = (s, [])
run (h ∷ hs) s =
    let (next, effects) = step h s in let (last, rest) = run hs next in (last, effects ++ rest)
