-- ===== src/Protocol/Gate.antt =====
-- `parse_bridge_message` as a gate: what passes it, and that a message that passed passes again.
use text.Mathlib.TextEquality.{eq_iff}
use arc_browser_mcp.Prelude.{String, ◌≡◌, ◌≢◌, true, false, Option, none, some, [], arith}
use arc_browser_mcp.Json.{
  Json, bool, number, string, object, is_record, get, get_field, non_empty_string, entries,
}
use arc_browser_mcp.Protocol.{
  Details, ok, BridgeMessage, request, event, response_ok, response_error, is_version, is_text,
  is_bool, as_string, as_payload, details_fields, parse_details, parse_error_response,
  parse_response, parse_call, parse_body, parse_bridge_message, to_json,
}
use arc_browser_mcp.Protocol.Details.{
  IsDetails, collect_details-fields, AllTexts, detail, last_text,
}

abbrev pub IsOptionalDetails : Option Details → Type 0
IsOptionalDetails none = Unit
IsOptionalDetails (some ds) = IsDetails ds

abbrev pub IsWellFormed : BridgeMessage → Type 0
IsWellFormed (request id method payload) = (id ≢ "") × (method ≢ "") × (is_record payload ≡ true)
IsWellFormed (event id method payload) = (id ≢ "") × (method ≢ "") × (is_record payload ≡ true)
IsWellFormed (response_ok id payload) = (id ≢ "") × (is_record payload ≡ true)
IsWellFormed (response_error id code message details) = (id ≢ "") × IsOptionalDetails details

parse_details-to_json :
    (ds : Details) → IsDetails ds → parse_details (some (object (details_fields ds))) ≡ ok (some ds)
unfolding parse_details is_record entries
parse_details-to_json ds h = rw (collect_details-fields ds [] h)

-- A message whose id and method are not empty, whose payload is an object or array and whose
-- details have distinct keys other than `__proto__` is accepted as it is after JSON printing.
pub parse-to_json : (m : BridgeMessage) → IsWellFormed m → parse_bridge_message (to_json m) ≡ ok m
unfolding parse_bridge_message parse_body parse_call parse_response parse_error_response to_json get
    get_field is_record non_empty_string as_payload is_version is_text is_bool as_string
parse-to_json (request id method payload) h = ground (arith, eq_iff id "", eq_iff method "")
parse-to_json (event id method payload) h = ground (arith, eq_iff id "", eq_iff method "")
parse-to_json (response_ok id payload) h = ground (arith, eq_iff id "")
parse-to_json (response_error id code message none) h =
    unfold parse_details in ground (arith, eq_iff id "")
parse-to_json (response_error id code message (some ds)) h =
    ground (arith, eq_iff id "", parse_details-to_json ds)

-- The details are those of the value: there are none, or every entry is a text and what the details
-- have under a key is the last entry with that key.
abbrev pub CarriesDetails : Option Json → Option Details → Type 0
CarriesDetails none none = Unit
CarriesDetails none (some ds) = ⊥
CarriesDetails (some raw) none = ⊥
CarriesDetails (some raw) (some ds) =
    (is_record raw ≡ true)
    × AllTexts (entries raw)
    × ((k : String) → k ≢ "__proto__" → detail k ds ≡ last_text k (entries raw) none)

-- The parts of a message are properties of the value.
abbrev pub Carries : Json → BridgeMessage → Type 0
Carries v (request id method payload) =
    (get v "version" ≡ some (number 1))
    × (get v "type" ≡ some (string "request"))
    × (get v "id" ≡ some (string id))
    × (get v "method" ≡ some (string method))
    × (get v "payload" ≡ some payload)
Carries v (event id method payload) =
    (get v "version" ≡ some (number 1))
    × (get v "type" ≡ some (string "event"))
    × (get v "id" ≡ some (string id))
    × (get v "method" ≡ some (string method))
    × (get v "payload" ≡ some payload)
Carries v (response_ok id payload) =
    (get v "version" ≡ some (number 1))
    × (get v "type" ≡ some (string "response"))
    × (get v "id" ≡ some (string id))
    × (get v "ok" ≡ some (bool true))
    × (get v "payload" ≡ some payload)
Carries v (response_error id code message details) =
    (get v "version" ≡ some (number 1))
    × (get v "type" ≡ some (string "response"))
    × (get v "id" ≡ some (string id))
    × (get v "ok" ≡ some (bool false))
    × ((e : Json) × (get v "error" ≡ some e)
        × (get e "code" ≡ some (string code))
        × (get e "message" ≡ some (string message))
        × CarriesDetails (get e "details") details)
