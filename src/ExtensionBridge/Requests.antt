-- ===== src/ExtensionBridge/Requests.antt =====
-- extension/src/bridge.ts: `request` and `handleNativeMessage`.
use arc_browser_mcp.Prelude.{
  or_default, ℕ, suc, true, not, ◌&&◌, Option, none, some, List, [], ◌∷◌, ◌++◌, String,
  if◌then◌else◌,
}
use arc_browser_mcp.Json.{Json, object, end, is_record, get}
use arc_browser_mcp.Protocol.{
  request, response_ok, response_error, is_version, is_text, is_bool, as_string,
}
use arc_browser_mcp.Rpc.{Timer, lookup, insert, delete, clear_timeout, as_response_payload}
use arc_browser_mcp.ExtensionBridge.{
  ExtensionBridge, Settled, resolved, rejected, Effect, post, settle, handle,
}

unfoldable pub sent_effects : ℕ → ℕ → String → String → Json → Option String → List Effect
sent_effects port p id method payload none = post port (request id method payload) ∷ []
sent_effects port p id method payload (some error) = settle p (rejected error) ∷ []

-- `sent` is what `postMessage` throws, if it throws: the promise is rejected then, and its entry and
-- timer stay.
unfoldable pub request_remote :
    String
    → String
    → Json
    → Option ℕ
    → Option String
    → ExtensionBridge
    → ExtensionBridge × List Effect
unfolding sent_effects or_default
request_remote id method payload timeout_ms sent b =
    let p = b.next_promise in
    elim b.port [
      | none ↦ (record b { next_promise = suc p }, settle p (rejected "bridge not connected") ∷ [])
      | some port ↦ (
        record b {
          pending = insert id p b.pending;
          timers =
              b.timers
              ++ record {
                id = id;
                promise = p;
                method = method;
                timeout = or_default timeout_ms (or_default b.options.request_timeout_ms 15000);
              }
                ∷ [];
          next_promise = suc p;
        },
        sent_effects port p id method payload sent,
      )
    ]

-- The timer of a request fires; its text names the method.
unfoldable pub time_out :
    (String → String) → Timer → ExtensionBridge → ExtensionBridge × List Effect
time_out text t b = (
  record b { pending = delete t.id b.pending; timers = clear_timeout t.promise b.timers },
  settle t.promise (rejected (text t.method)) ∷ [],
)

-- A property that is an object, or none.
record_or_empty : Option Json → Json
record_or_empty none = object end
record_or_empty (some v) = if is_record v then v else object end

message_of : Option String → String
message_of none = "remote error"
message_of (some text) = text

error_message : Option Json → String
unfolding message_of
error_message none = "remote error"
error_message (some error) =
    if is_record error then message_of (as_string (get error "message")) else "remote error"

unfoldable pub outcome_of : Json → Settled
unfolding record_or_empty error_message
outcome_of message =
    if is_bool (get message "ok") true
    then resolved (record_or_empty (get message "payload"))
    else rejected (error_message (get message "error"))

unfoldable pub handle_response : String → Json → ExtensionBridge → ExtensionBridge × List Effect
unfolding outcome_of
handle_response id message b = elim (lookup id b.pending) [
  | none ↦ (b, [])
  | some p ↦ (
    record b { pending = delete id b.pending; timers = clear_timeout p b.timers },
    settle p (outcome_of message) ∷ [],
  )
]

-- The handler is called later, with the port that is there now.
unfoldable pub handle_request : String → String → Json → ExtensionBridge → List Effect
unfolding record_or_empty
handle_request id method message b = elim b.port [
  | none ↦ []
  | some port ↦
      if b.has_handler
      then handle port method (record_or_empty (get message "payload")) id ∷ []
      else []
]

unfoldable pub handle_with_id : String → Json → ExtensionBridge → ExtensionBridge × List Effect
unfolding handle_response handle_request
handle_with_id id message b =
    if is_text (get message "type") "response"
    then handle_response id message b
    else if not (is_text (get message "type") "request")
    then (b, [])
    else (elim (as_string (get message "method")) [
      | none ↦ (b, [])
      | some method ↦ (b, handle_request id method message b)
    ])

unfoldable pub handle_native_message : Json → ExtensionBridge → ExtensionBridge × List Effect
unfolding handle_with_id
handle_native_message message b =
    if is_record message && is_version (get message "version")
    then (elim (as_string (get message "id")) [
      | none ↦ (b, [])
      | some id ↦ handle_with_id id message b
    ])
    else (record b { last_error = some "bridge protocol version mismatch" }, [])

-- What a handler that fails throws: its `code`, if that is a text, and its text.
unfoldable pub failure_code : Option String → String
failure_code none = "UNKNOWN_METHOD"
failure_code (some String.[]) = "UNKNOWN_METHOD"
failure_code (some code) = code

-- The handler's promise settles; the answer goes to the port of the request.
unfoldable pub answered : ℕ → String → Option Json → List Effect
answered port id result = post port (response_ok id (as_response_payload result)) ∷ []

unfoldable pub answered_error : ℕ → String → Option String → String → List Effect
unfolding failure_code
answered_error port id code message =
    post port (response_error id (failure_code code) message none) ∷ []
