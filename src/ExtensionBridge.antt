-- ===== src/ExtensionBridge.antt =====
-- extension/src/bridge.ts: the extension's end of the native port. `connectNative`, the ports, the
-- generated ids and the timers of the browser are arguments: what a call answers, which port
-- disconnects, which timer fires. A port is a number, and so is a retry timer.
pub mod Requests
pub mod Backoff
pub mod Timers
pub mod Retrying
mod Tests
use text.Mathlib.Text.{◌==◌ as str_eq}
use arc_browser_mcp.Prelude.{
  or_default, ℕ, zero, suc, ◌+◌, ◌*◌, Bool, true, false, ◌&&◌, ◌||◌, Option, none, some, List, [],
  ◌∷◌, ◌++◌, String, ltb, leb, ◌==◌, if◌then◌else◌,
}
use arc_browser_mcp.Json.{
  Json, bool, number, string, object, end, field, is_record, get, non_empty_string,
}
use arc_browser_mcp.Protocol.{
  BridgeMessage, request, response_ok, response_error, is_version, is_text, is_bool, as_string,
}
use arc_browser_mcp.Rpc.{
  Timer, lookup, insert, delete, clear_timeout, clear_all, as_response_payload,
}

pub min : ℕ → ℕ → ℕ
min a b = if leb a b then a else b

-- The loop of `reconnectDelayMs`, with the number of rounds that are left.
pub backoff_loop : ℕ → ℕ → ℕ → ℕ
unfolding min
backoff_loop zero delay max_ms = delay
backoff_loop (suc left) delay max_ms =
    let next = min (delay * 2) max_ms in
    let rest = backoff_loop left next max_ms in if leb max_ms next then next else rest

unfoldable pub reconnect_delay_ms : ℕ → ℕ → ℕ → ℕ
unfolding min backoff_loop
reconnect_delay_ms attempt base_ms max_ms = min (backoff_loop attempt base_ms max_ms) max_ms

pub record Options : Type 0 where
  pub base_delay_ms : Option ℕ
  pub max_delay_ms : Option ℕ
  pub request_timeout_ms : Option ℕ

-- What a promise of `request` comes to; errors are their texts.
pub data Settled : Type 0 where
  resolved : Json → Settled
  rejected : String → Settled

pub data Effect : Type 0 where
  post : ℕ → BridgeMessage → Effect
  disconnect : ℕ → Effect
  settle : ℕ → Settled → Effect
  handle : ℕ → String → Json → String → Effect

pub record ExtensionBridge : Type 0 where
  pub options : Options
  pub has_handler : Bool
  pub port : Option ℕ
  pub connecting : Bool
  pub attempts : ℕ
  pub last_error : Option String
  pub retry_timer : Option ℕ
  pub closed : Bool
  pub last_wake_source : Option String
  pub pending : List (String × ℕ)
  pub timers : List Timer
  -- The retry timers that the browser holds, with their delays, and the next number of a timer.
  pub running : List (ℕ × ℕ)
  pub next_timer : ℕ
  pub next_promise : ℕ

unfoldable pub new_bridge : Options → ExtensionBridge
new_bridge options = record {
  options = options;
  has_handler = false;
  port = none;
  connecting = false;
  attempts = 0;
  last_error = none;
  retry_timer = none;
  closed = false;
  last_wake_source = none;
  pending = [];
  timers = [];
  running = [];
  next_timer = 0;
  next_promise = 0;
}

-- `onRemoteRequest`; the second registration throws.
unfoldable pub on_remote_request : ExtensionBridge → Option ExtensionBridge
on_remote_request b = if b.has_handler then none else some (record b { has_handler = true })

unfoldable pub retry_delay : ExtensionBridge → ℕ
unfolding or_default
retry_delay b =
    reconnect_delay_ms b.attempts (or_default b.options.base_delay_ms 500)
      (or_default b.options.max_delay_ms 10000)

unfoldable pub start_retry : ExtensionBridge → ExtensionBridge
start_retry b = record b {
  retry_timer = some b.next_timer;
  running = b.running ++ (b.next_timer, retry_delay b) ∷ [];
  next_timer = suc b.next_timer;
}

unfoldable pub schedule_reconnect : ExtensionBridge → ExtensionBridge
unfolding start_retry
schedule_reconnect b =
    if b.closed then b else (elim b.retry_timer [ some t ↦ b | none ↦ start_retry b ])

unfoldable pub handle_failure : String → ExtensionBridge → ExtensionBridge
unfolding schedule_reconnect
handle_failure message b =
    schedule_reconnect (record b { last_error = some message; attempts = suc b.attempts })

-- What `connectNative` and the registration of the two listeners come to: a port or an exception.
pub data Connection : Type 0 where
  connected : ℕ → Connection
  failed : String → Connection

unfoldable pub connect : Connection → ExtensionBridge → ExtensionBridge
unfolding handle_failure
connect (connected port) b = record b { port = some port; connecting = false; last_error = none }
connect (failed message) b = handle_failure message (record b { connecting = false })

unfoldable pub ensure_connected : String → Connection → ExtensionBridge → ExtensionBridge
unfolding connect
ensure_connected source outcome b = if b.closed then b else (elim b.port [
  | some port ↦ b
  | none ↦
      if b.connecting
      then b
      else connect outcome (record b { last_wake_source = some source; connecting = true })
])

-- clearTimeout of a retry timer
unfoldable pub stop : ℕ → List (ℕ × ℕ) → List (ℕ × ℕ)
stop t [] = []
stop t ((u, delay) ∷ running) =
    let rest = stop t running in if u == t then rest else (u, delay) ∷ rest

unfoldable pub reject_pending : String → List (String × ℕ) → List Effect
reject_pending error [] = []
reject_pending error ((id, p) ∷ m) = settle p (rejected error) ∷ reject_pending error m

unfoldable pub fail_pending : String → ExtensionBridge → ExtensionBridge × List Effect
unfolding reject_pending
fail_pending error b = (
  record b { pending = []; timers = clear_all b.pending b.timers },
  reject_pending error b.pending,
)

unfoldable pub clear_retry : ExtensionBridge → ExtensionBridge
clear_retry b = elim b.retry_timer [
  | none ↦ b
  | some t ↦ record b { retry_timer = none; running = stop t b.running }
]

unfoldable pub disconnect_effects : Option ℕ → List Effect
disconnect_effects none = []
disconnect_effects (some port) = disconnect port ∷ []

unfoldable pub close : ExtensionBridge → ExtensionBridge × List Effect
unfolding clear_retry fail_pending disconnect_effects
close b =
    let cleared = clear_retry (record b { closed = true }) in
    let (next, effects) = fail_pending "bridge closed" (record cleared { port = none }) in
    (next, disconnect_effects b.port ++ effects)

-- A port disconnects; `last_error` is what `port.lastError()` gives.
unfoldable pub handle_disconnect :
    ℕ → Option String → ExtensionBridge → ExtensionBridge × List Effect
unfolding fail_pending handle_failure
handle_disconnect port last_error b = elim b.port [
  | none ↦ (b, [])
  | some own ↦
      if own == port
      then (let (next, effects) = fail_pending "bridge disconnected" (record b { port = none }) in
          let error : String = elim last_error [ some e ↦ e | none ↦ "native host disconnected" ] in
          (handle_failure error next, effects))
      else (b, [])
]

unfoldable pub is_running : ℕ → List (ℕ × ℕ) → Bool
is_running t [] = false
is_running t ((u, delay) ∷ running) = u == t || is_running t running

-- The callback of a retry timer; only a timer that runs fires.
unfoldable pub retry : ℕ → Connection → ExtensionBridge → ExtensionBridge
unfolding ensure_connected is_running stop
retry t outcome b =
    if is_running t b.running
    then ensure_connected "retry" outcome
        (record b { running = stop t b.running; retry_timer = none })
    else b
