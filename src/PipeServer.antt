-- ===== src/PipeServer.antt =====
-- src/bridge/mcpPipeServer.ts: the endpoint of the MCP process. A socket is a number, given out once.
-- The pipes, the files, the sockets' bytes and their RPC peers lie outside: what an awaited call
-- comes to is an argument, and what is done to a socket or a file is an effect. `safeEqualString` of
-- src/bridge/nativeHostArgs.ts compares whole texts.
pub mod Start
pub mod Sockets
pub mod Starting
pub mod Access
pub mod Reach
pub mod Orphans
pub mod Admission
mod Tests
use text.Mathlib.Text.{◌==◌ as str_eq}
use arc_browser_mcp.Prelude.{
  ℕ, Bool, true, false, not, ◌&&◌, ◌||◌, Option, none, some, List, [], ◌∷◌, ◌++◌, String, ◌==◌,
  if◌then◌else◌,
}
use arc_browser_mcp.Json.{Json, get}
use arc_browser_mcp.Protocol.{Result, ok, err, fail, is_version, as_string}
use arc_browser_mcp.Session.{BridgeSession}

pub data RelayState : Type 0 where
  waiting connected closed : RelayState

unfoldable pub is_connected : RelayState → Bool
is_connected connected = true
is_connected _ = false

-- `authed` are the sockets whose flag of that name is set. The timer of the watchdog and the two
-- servers are there or not; `can_orphan` says that `onOrphaned` is given.
pub record McpPipeServer : Type 0 where
  pub can_orphan : Bool
  pub server : Bool
  pub clients_server : Bool
  pub relay : Option ℕ
  pub clients : List ℕ
  pub authed : List ℕ
  pub state : RelayState
  pub session_path : Bool
  pub session : Option BridgeSession
  pub own_session : Bool
  pub orphan_timer : Bool
  pub orphan_pending : Bool

unfoldable pub new_server : Bool → McpPipeServer
new_server can_orphan = record {
  can_orphan = can_orphan;
  server = false;
  clients_server = false;
  relay = none;
  clients = [];
  authed = [];
  state = waiting;
  session_path = false;
  session = none;
  own_session = false;
  orphan_timer = false;
  orphan_pending = false;
}

pub data Effect : Type 0 where
  destroy close_peer : ℕ → Effect
  state_changed : RelayState → Effect
  push_relay_state : ℕ → Bool → Effect
  forward : ℕ → ℕ → String → Json → Effect
  orphaned clients_idle : Effect
  take_pipe take_clients_pipe : Effect
  close_server close_clients_server : Effect
  write_session : BridgeSession → Effect
  remove_session : Effect

-- What a request is answered with: the hello of a relay, that of a client with `relayConnected`, or
-- what the relay answers to the request that was sent on to it.
pub data Answer : Type 0 where
  welcome : Answer
  welcome_client : Bool → Answer
  forwarded : Answer

abbrev pub Outcome : Type 0
Outcome = McpPipeServer × List Effect × Result Answer

-- Set.has, Set.add and Set.delete.
unfoldable pub has : ℕ → List ℕ → Bool
has socket [] = false
has socket (other ∷ sockets) = other == socket || has socket sockets

unfoldable pub add : ℕ → List ℕ → List ℕ
add socket [] = socket ∷ []
add socket (other ∷ sockets) =
    if other == socket then other ∷ sockets else other ∷ add socket sockets

unfoldable pub remove : ℕ → List ℕ → List ℕ
remove socket [] = []
remove socket (other ∷ sockets) =
    let rest = remove socket sockets in if other == socket then rest else other ∷ rest

unfoldable pub is_empty : List ℕ → Bool
is_empty [] = true
is_empty (socket ∷ sockets) = false

unfoldable pub push_all : Bool → List ℕ → List Effect
push_all up [] = []
push_all up (client ∷ clients) = push_relay_state client up ∷ push_all up clients

unfoldable pub set_state : RelayState → McpPipeServer → McpPipeServer × List Effect
unfolding push_all is_connected
set_state state s =
    (record s { state = state }, state_changed state ∷ push_all (is_connected state) s.clients)

unfoldable pub current_nonce : McpPipeServer → String
current_nonce s = elim s.session [ none ↦ "" | some session ↦ session.nonce_hex ]

unfoldable pub has_nonce : McpPipeServer → Json → Bool
has_nonce s payload = elim (as_string (get payload "nonce")) [
  | none ↦ false
  | some nonce ↦ str_eq nonce (current_nonce s)
]

-- The tests of a hello that both handlers make first.
unfoldable pub check_hello : McpPipeServer → Json → Result (Unit {0})
unfolding has_nonce
check_hello s payload =
    if not (has_nonce s payload)
    then fail "NOT_AUTHENTICATED"
    else if not (is_version (get payload "bridgeVersion"))
    then fail "UNSUPPORTED_VERSION"
    else ok tt

-- this.relay !== null && this.relay !== relay
unfoldable pub is_other : Option ℕ → ℕ → Bool
is_other none socket = false
is_other (some relay) socket = not (relay == socket)

unfoldable pub refuse : ℕ → String → McpPipeServer → Outcome
refuse socket code s = (s, destroy socket ∷ [], fail code)

unfoldable pub accept_relay : ℕ → McpPipeServer → Outcome
unfolding set_state
accept_relay socket s =
    let (next, effects) =
      set_state connected (record s { authed = add socket s.authed; relay = some socket }) in
    (next, effects, ok welcome)

unfoldable pub relay_hello : ℕ → Json → McpPipeServer → Outcome
unfolding check_hello accept_relay refuse
relay_hello socket payload s = elim (check_hello s payload) [
  | err e ↦ refuse socket e.code s
  | ok done ↦
      if is_other s.relay socket then refuse socket "NOT_CONNECTED" s else accept_relay socket s
]

unfoldable pub handle_relay_request : ℕ → String → Json → McpPipeServer → Outcome
unfolding relay_hello
handle_relay_request socket method payload s =
    if str_eq method "bridge.hello"
    then relay_hello socket payload s
    else if not (has socket s.authed)
    then refuse socket "NOT_AUTHENTICATED" s
    else (s, [], fail "UNKNOWN_METHOD")

unfoldable pub accept_client : ℕ → McpPipeServer → Outcome
accept_client socket s =
    let answer = ok (welcome_client (is_connected s.state)) in
    if has socket s.authed
    then (s, [], answer)
    else (record s { authed = add socket s.authed; clients = add socket s.clients }, [], answer)

unfoldable pub client_hello : ℕ → Json → McpPipeServer → Outcome
unfolding check_hello accept_client refuse
client_hello socket payload s = elim (check_hello s payload) [
  | err e ↦ refuse socket e.code s
  | ok done ↦ accept_client socket s
]

unfoldable pub forward_request : ℕ → String → Json → McpPipeServer → Outcome
forward_request socket method payload s = elim s.relay [
  | none ↦ (s, [], fail "NOT_CONNECTED")
  | some relay ↦ (s, forward relay socket method payload ∷ [], ok forwarded)
]

unfoldable pub handle_client_request : ℕ → String → Json → McpPipeServer → Outcome
unfolding client_hello forward_request
handle_client_request socket method payload s =
    if str_eq method "bridge.hello"
    then client_hello socket payload s
    else if not (has socket s.authed)
    then refuse socket "NOT_AUTHENTICATED" s
    else forward_request socket method payload s

-- `requestDetailed` of the server itself: the relay that it goes to.
unfoldable pub request_relay : McpPipeServer → Result ℕ
request_relay s = elim s.relay [
  | none ↦ fail "NOT_CONNECTED"
  | some relay ↦ if has relay s.authed then ok relay else fail "NOT_CONNECTED"
]
