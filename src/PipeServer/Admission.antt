-- ===== src/PipeServer/Admission.antt =====
-- A hello that the pipe server accepts although it should not.
use text.Mathlib.TextEquality.{eq_iff}
use arc_browser_mcp.Prelude.{ℕ, ◌≡◌, true, some, arith}
use arc_browser_mcp.Json.{Json, get}
use arc_browser_mcp.Protocol.{ok, is_version, as_string}
use arc_browser_mcp.PipeServer.{
  connected, closed, McpPipeServer, welcome, set_state, current_nonce, has_nonce, check_hello,
  is_other, accept_relay, relay_hello, handle_relay_request,
}
use arc_browser_mcp.PipeServer.Sockets.{disarm, begin_stop}

-- A socket that was not let in when the server stopped can still become the relay of the stopped
-- server, by a hello with the nonce.
pub stopped-admits :
    (s : McpPipeServer) (socket : ℕ) (payload : Json)
    → as_string (get payload "nonce") ≡ some (current_nonce s)
    → is_version (get payload "bridgeVersion") ≡ true
    → let (stopped, effects) = begin_stop s in
      let (next, more, answer) = handle_relay_request socket "bridge.hello" payload stopped in
      (stopped.state ≡ closed)
      × (answer ≡ ok welcome)
      × (next.relay ≡ some socket)
      × (next.state ≡ connected)
unfolding begin_stop disarm handle_relay_request relay_hello check_hello has_nonce current_nonce
    is_other accept_relay set_state
stopped-admits s socket payload nonce version =
    ground (arith, nonce, version, eq_iff (current_nonce s) (current_nonce s))
