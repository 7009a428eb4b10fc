-- ===== src/Protocol.antt =====
-- src/bridge/protocol.ts and src/bridge/BridgeError.ts: the envelopes that the MCP process, the
-- native host and the extension exchange. The texts of errors that stay on one side are not
-- modelled; their codes and details are.
pub mod Details
pub mod Gate
pub mod Reads
pub mod Sound
mod Tests
use text.Mathlib.Text.{◌==◌ as str_eq}
use arc_browser_mcp.Prelude.{
  ℕ, Bool, true, false, Option, none, some, List, [], ◌∷◌, String, ◌==◌, not, ◌||◌, if◌then◌else◌,
}
use arc_browser_mcp.Json.{
  Json, null, bool, number, numeral, string, array, object, Fields, end, field, is_record, get,
  non_empty_string, entries,
}

abbrev pub Details : Type 0
Details = List (String × String)

pub record BridgeError : Type 0 where
  pub code : String
  pub details : Details

pub data Result {ℓ} (A : Type ℓ) : Type ℓ where
  ok : A → Result A
  err : BridgeError → Result A

abbrev pub fail {ℓ} : {A : Type ℓ} → String → Result A
fail code = err (record { code = code; details = [] })

-- The next statement, unless the one before it threw.
infixl 5 ◌>>=◌ ◌>>◌
abbrev pub ◌>>=◌ {κ ℓ} : {A : Type κ} {B : Type ℓ} → Result A → (A → Result B) → Result B
err thrown >>= next = err thrown
ok value >>= next = next value

abbrev pub ◌>>◌ {ℓ} : {B : Type ℓ} → Result (Unit {0}) → Result B → Result B
test >> next = test >>= λ done. next

abbrev pub guard : Bool → String → Result (Unit {0})
guard false code = fail code
guard true code = ok tt

abbrev pub or_fail {ℓ} : {A : Type ℓ} → Option A → String → Result A
or_fail (some a) code = ok a
or_fail none code = fail code

abbrev pub bridge_protocol_version : ℕ
bridge_protocol_version = 1

-- The details of an error response may be left out.
pub data BridgeMessage : Type 0 where
  request : String → String → Json → BridgeMessage
  event : String → String → Json → BridgeMessage
  response_ok : String → Json → BridgeMessage
  response_error : String → String → String → Option Details → BridgeMessage

unfoldable pub is_version : Option Json → Bool
is_version (some (number n)) = n == bridge_protocol_version
is_version _ = false

unfoldable pub is_text : Option Json → String → Bool
is_text (some (string s)) t = str_eq s t
is_text _ t = false

unfoldable pub is_bool : Option Json → Bool → Bool
is_bool (some (bool true)) b = b
is_bool (some (bool false)) b = not b
is_bool _ b = false

unfoldable pub as_payload : Option Json → Option Json
as_payload (some v) = if is_record v then some v else none
as_payload none = none

unfoldable pub as_string : Option Json → Option String
as_string (some (string s)) = some s
as_string _ = none

-- `details[key] = entry`. A text that is assigned to `__proto__` is dropped by the language.
unfoldable pub set_detail : Details → String → String → Details
set_detail [] k v = if str_eq k "__proto__" then [] else (k, v) ∷ []
set_detail ((j, w) ∷ ds) k v = if str_eq j k then (j, v) ∷ ds else (j, w) ∷ set_detail ds k v

-- The loop over `Object.entries(raw)`.
unfoldable pub collect_details : List (String × Json) → Details → Result Details
collect_details [] details = ok details
collect_details ((k, string v) ∷ es) details = collect_details es (set_detail details k v)
collect_details ((k, _) ∷ es) details = fail "INVALID_ENVELOPE"

unfoldable pub parse_details : Option Json → Result (Option Details)
parse_details none = ok none
parse_details (some raw) = do
  guard (is_record raw) "INVALID_ENVELOPE"
  details ← collect_details (entries raw) []
  ok (some details)

unfoldable pub parse_error_response : String → Option Json → Result BridgeMessage
parse_error_response id none = fail "INVALID_ENVELOPE"
parse_error_response id (some error) = do
  guard (is_record error) "INVALID_ENVELOPE"
  code ← or_fail (as_string (get error "code")) "INVALID_ENVELOPE"
  message ← or_fail (as_string (get error "message")) "INVALID_ENVELOPE"
  details ← parse_details (get error "details")
  ok (response_error id code message details)

unfoldable pub parse_response : String → Json → Result BridgeMessage
parse_response id value =
    if is_bool (get value "ok") true
    then (do
      payload ← or_fail (as_payload (get value "payload")) "INVALID_ENVELOPE"
      ok (response_ok id payload))
    else if is_bool (get value "ok") false
    then parse_error_response id (get value "error")
    else fail "INVALID_ENVELOPE"

-- The branch for requests and events; the type is already known to be one of the two.
unfoldable pub parse_call : String → Json → Result BridgeMessage
parse_call id value = do
  method ← or_fail (non_empty_string (get value "method")) "INVALID_ENVELOPE"
  payload ← or_fail (as_payload (get value "payload")) "INVALID_ENVELOPE"
  ok (
      if is_text (get value "type") "request"
      then request id method payload
      else event id method payload)

unfoldable pub parse_body : String → Json → Result BridgeMessage
parse_body id value =
    if is_text (get value "type") "request" || is_text (get value "type") "event"
    then parse_call id value
    else if is_text (get value "type") "response"
    then parse_response id value
    else fail "INVALID_ENVELOPE"

unfoldable pub parse_bridge_message : Json → Result BridgeMessage
parse_bridge_message value = do
  guard (is_record value) "INVALID_ENVELOPE"
  guard (is_version (get value "version")) "UNSUPPORTED_VERSION"
  id ← or_fail (non_empty_string (get value "id")) "INVALID_ENVELOPE"
  parse_body id value

unfoldable pub error_response : String → String → String → Details → BridgeMessage
error_response id code message [] = response_error id code message none
error_response id code message (d ∷ ds) = response_error id code message (some (d ∷ ds))

unfoldable pub details_fields : Details → Fields
details_fields [] = end
details_fields ((k, v) ∷ ds) = field k (string v) (details_fields ds)

unfoldable pub error_fields : Option Details → Fields
unfolding details_fields
error_fields none = end
error_fields (some ds) = field "details" (object (details_fields ds)) end

-- The object literal that each message is, as JSON.stringify prints it.
unfoldable pub to_json : BridgeMessage → Json
unfolding error_fields
to_json (request id method payload) = object (
    field "version" (number 1) (
      field "id" (string id) (
        field "type" (string "request")
          (field "method" (string method) (field "payload" payload end)))))
to_json (event id method payload) = object (
    field "version" (number 1) (
      field "id" (string id) (
        field "type" (string "event")
          (field "method" (string method) (field "payload" payload end)))))
to_json (response_ok id payload) = object (
    field "version" (number 1) (
      field "id" (string id)
        (field "type" (string "response") (field "ok" (bool true) (field "payload" payload end)))))
to_json (response_error id code message details) = object (
    field "version" (number 1) (
      field "id" (string id) (
        field "type" (string "response") (
          field "ok" (bool false) (
            field "error"
              (object (
                field "code" (string code)
                  (field "message" (string message) (error_fields details))))
              end)))))
