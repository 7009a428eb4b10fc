-- ===== src/Rpc.antt =====
-- src/bridge/rpc.ts: the request/response peer. A call of a method is one step of the peer; what it
-- makes happen outside is a list of effects, in order. A promise is a number, and its timer runs
-- until it fires or is cleared. `send_raw` may throw: a request is then given the error.
pub mod Pending
pub mod Settling
mod Tests
use text.Mathlib.Text.{◌==◌ as str_eq}
use Prim.Native.String.{◌++◌ as str_append}
use arc_browser_mcp.Prelude.{
  ℕ, suc, Bool, false, ◌||◌, Option, none, some, List, [], ◌∷◌, ◌++◌, String, ◌==◌, if◌then◌else◌,
}
use arc_browser_mcp.Text.{is_blank}
use arc_browser_mcp.Json.{Json, object, end, field, is_record}
use arc_browser_mcp.Protocol.{
  Details, BridgeError, ok, err, BridgeMessage, request, event, response_ok, response_error,
  parse_bridge_message, error_response, set_detail,
}

abbrev pub default_rpc_timeout_ms : ℕ
default_rpc_timeout_ms = 15000

abbrev known_error_codes : List String
known_error_codes =
    "INVALID_ENVELOPE" ∷ "UNSUPPORTED_VERSION" ∷ "UNKNOWN_METHOD" ∷ "NOT_AUTHENTICATED"
    ∷ "NOT_CONNECTED" ∷ "TIMEOUT" ∷ "PIPE_BUSY" ∷ "SESSION_MISSING" ∷ "SESSION_STALE"
    ∷ "SESSION_CORRUPT" ∷ "ORIGIN_REJECTED" ∷ "NATIVE_FRAME_TOO_LARGE" ∷ "NATIVE_FRAME_MALFORMED"
    ∷ "NATIVE_FRAME_INCOMPLETE" ∷ "REGISTRY_ERROR" ∷ "HOST_STARTUP_FAILED"
    ∷ "EXTENSION_CONNECT_TIMEOUT" ∷ "BRIDGE_PREFLIGHT_FAILED" ∷ []

contains : List String → String → Bool
contains [] s = false
contains (x ∷ xs) s = str_eq x s || contains xs s

unfoldable pub is_known_bridge_error_code : String → Bool
unfolding contains
is_known_bridge_error_code = contains known_error_codes

pub data Outcome : Type 0 where
  resolved : String → Json → Outcome
  rejected : BridgeError → Outcome

-- What a handler rejects with: a typed error and its text, or the text of any other.
pub data Failure : Type 0 where
  bridge_error : BridgeError → String → Failure
  other_error : String → Failure

pub data Effect : Type 0 where
  send : BridgeMessage → Effect
  settle : ℕ → Outcome → Effect
  protocol_error : BridgeError → Effect
  on_event : String → Json → String → Effect
  handle : String → String → Json → Effect

pub record Timer : Type 0 where
  pub id : String
  pub promise : ℕ
  pub method : String
  pub timeout : ℕ

pub record RpcPeer : Type 0 where
  pub default_timeout_ms : Option ℕ
  pub has_handler : Bool
  pub pending : List (String × ℕ)
  pub timers : List Timer
  pub next_promise : ℕ

unfoldable pub new_peer : Option ℕ → Bool → RpcPeer
new_peer default_timeout_ms has_handler = record {
  default_timeout_ms = default_timeout_ms;
  has_handler = has_handler;
  pending = [];
  timers = [];
  next_promise = 0;
}

-- Map.get, Map.set and Map.delete.
unfoldable pub lookup : String → List (String × ℕ) → Option ℕ
lookup id [] = none
lookup id ((key, promise) ∷ rest) = if str_eq key id then some promise else lookup id rest

unfoldable pub insert : String → ℕ → List (String × ℕ) → List (String × ℕ)
insert id p [] = (id, p) ∷ []
insert id p ((j, q) ∷ m) = if str_eq j id then (j, p) ∷ m else (j, q) ∷ insert id p m

unfoldable pub delete : String → List (String × ℕ) → List (String × ℕ)
delete id [] = []
delete id ((j, p) ∷ m) = if str_eq j id then m else (j, p) ∷ delete id m

-- clearTimeout of a promise's timer
unfoldable pub clear_timeout : ℕ → List Timer → List Timer
clear_timeout p [] = []
clear_timeout p (t ∷ ts) = if t.promise == p then ts else t ∷ clear_timeout p ts

unfoldable pub timeout_of : RpcPeer → Option ℕ → ℕ
timeout_of peer (some ms) = ms
timeout_of peer none = elim peer.default_timeout_ms [ some ms ↦ ms | none ↦ default_rpc_timeout_ms ]

unfoldable pub sent_effects : ℕ → BridgeMessage → Option BridgeError → List Effect
sent_effects p message none = send message ∷ []
sent_effects p message (some e) = settle p (rejected e) ∷ []

abbrev pub new_error : String → Details → BridgeError
new_error code details = record { code = code; details = details }

-- `sent` is what `sendRaw` throws, if it throws: the promise is rejected then, and its entry and
-- timer stay.
unfoldable pub request_detailed :
    RpcPeer → String → String → Json → Option ℕ → Option BridgeError → RpcPeer × List Effect
unfolding sent_effects
request_detailed peer id method payload timeout_ms sent =
    let p = peer.next_promise in
    if is_blank method
    then (
      record peer { next_promise = suc p },
      settle p (rejected (new_error "INVALID_ENVELOPE" [])) ∷ [],
    )
    else (
      record peer {
        pending = insert id p peer.pending;
        timers =
            peer.timers
            ++ record {
              id = id;
              promise = p;
              method = method;
              timeout = timeout_of peer timeout_ms;
            }
              ∷ [];
        next_promise = suc p;
      },
      sent_effects p (request id method payload) sent,
    )

-- The timer of a request fires.
unfoldable pub fire_timeout : RpcPeer → Timer → RpcPeer × List Effect
fire_timeout peer t = (
  record peer { pending = delete t.id peer.pending; timers = clear_timeout t.promise peer.timers },
  settle t.promise (rejected (new_error "TIMEOUT" (("id", t.id) ∷ ("method", t.method) ∷ []))) ∷ [],
)

unfoldable pub details_or_empty : Option Details → Details
details_or_empty none = []
details_or_empty (some ds) = ds

-- The rejection that an error response turns into.
unfoldable pub remote_error : String → String → Option Details → BridgeError
remote_error id remote_code details =
    new_error (if is_known_bridge_error_code remote_code then remote_code else "INVALID_ENVELOPE")
      (set_detail (set_detail (details_or_empty details) "id" id) "remoteCode" remote_code)

unfoldable pub handle_response : RpcPeer → String → Outcome → RpcPeer × List Effect
handle_response peer id outcome = elim (lookup id peer.pending) [
  | none ↦ (peer, protocol_error (new_error "INVALID_ENVELOPE" (("id", id) ∷ [])) ∷ [])
  | some p ↦ (
    record peer { pending = delete id peer.pending; timers = clear_timeout p peer.timers },
    settle p outcome ∷ [],
  )
]

unfoldable pub handle_message : RpcPeer → BridgeMessage → RpcPeer × List Effect
unfolding handle_response
handle_message peer (response_ok id payload) = handle_response peer id (resolved id payload)
handle_message peer (response_error id code message details) =
    handle_response peer id (rejected (remote_error id code details))
handle_message peer (event id method payload) = (peer, on_event method payload id ∷ [])
handle_message peer (request id method payload) =
    if peer.has_handler then (peer, handle id method payload ∷ []) else (
      peer,
      send (error_response id "UNKNOWN_METHOD" (str_append "no handler for " method) []) ∷ [],
    )

unfoldable pub handle_incoming : RpcPeer → Json → RpcPeer × List Effect
unfolding handle_message
handle_incoming peer raw = elim (parse_bridge_message raw) [
  | err e ↦ (peer, protocol_error e ∷ [])
  | ok message ↦ handle_message peer message
]

-- The payload that a handler's result is sent as; `none` is undefined.
unfoldable pub as_response_payload : Option Json → Json
as_response_payload none = object end
as_response_payload (some v) = if is_record v then v else object (field "value" v end)

-- The promise of a handler is fulfilled or rejected.
unfoldable pub handler_resolved : RpcPeer → String → Option Json → RpcPeer × List Effect
handler_resolved peer id payload = (peer, send (response_ok id (as_response_payload payload)) ∷ [])

unfoldable pub handler_rejected : RpcPeer → String → Failure → RpcPeer × List Effect
handler_rejected peer id (bridge_error e text) =
    (peer, send (error_response id e.code text e.details) ∷ [])
handler_rejected peer id (other_error text) =
    (peer, send (error_response id "UNKNOWN_METHOD" text []) ∷ [])

unfoldable pub reject_all : BridgeError → List (String × ℕ) → List Effect
reject_all failure [] = []
reject_all failure ((id, p) ∷ m) = settle p (rejected failure) ∷ reject_all failure m

unfoldable pub clear_all : List (String × ℕ) → List Timer → List Timer
clear_all [] ts = ts
clear_all ((id, p) ∷ m) ts = clear_all m (clear_timeout p ts)

unfoldable pub close : RpcPeer → Option BridgeError → RpcPeer × List Effect
close peer error =
    let failure : BridgeError = elim error [ some e ↦ e | none ↦ new_error "NOT_CONNECTED" [] ] in
    (
      record peer { pending = []; timers = clear_all peer.pending peer.timers },
      reject_all failure peer.pending,
    )
