-- ===== src/Protocol/Tests.antt =====
-- Envelopes that protocol.ts accepts and refuses.
use arc_browser_mcp.Prelude.{◌≡◌, ◌≢◌, refl, false, some, [], ◌∷◌, String, arith}
use text.Mathlib.Text.{◌==◌ as str_eq}
use text.Mathlib.TextEquality.{eq_iff}
use arc_browser_mcp.Json.{
  Json, null, bool, number, string, array, nil, object, end, field, is_record, get, get_field,
  non_empty_string, entries, fields_entries,
}
use arc_browser_mcp.Protocol.{
  ok, err, BridgeMessage, request, event, response_error, is_version, is_text, is_bool, as_string,
  as_payload, parse_details, collect_details, set_detail, parse_error_response, parse_response,
  parse_call, parse_body, parse_bridge_message,
}
use arc_browser_mcp.Protocol.Gate.{IsWellFormed, Carries}
use arc_browser_mcp.Protocol.Sound.{parse_sound}

abbrev hello : BridgeMessage
hello = request "id-1" "bridge.hello" (object (field "nonce" (string "n") end))

differ : (s t : String) → str_eq s t ≡ false → s ≢ t
differ s t h e = ground (arith, eq_iff s t, h, e)

hello-IsWellFormed : IsWellFormed hello
unfolding is_record
hello-IsWellFormed = (differ "id-1" "" refl, differ "bridge.hello" "" refl, refl)

-- An error response whose details hold a key twice: the last text counts.
abbrev refusal_value : Json
refusal_value = object (
    field "type" (string "response") (
      field "version" (number 1) (
        field "id" (string "id-2") (
          field "ok" (bool false) (
            field "extra" null (
              field "error"
                (object (
                  field "message" (string "late") (
                    field "code" (string "TIMEOUT") (
                      field "details" (object (field "a" (string "1") (field "b" (string "2") end)))
                        end))))
                end))))))

abbrev refusal : BridgeMessage
refusal = response_error "id-2" "TIMEOUT" "late" (some (("a", "1") ∷ ("b", "2") ∷ []))

refusal-parse : parse_bridge_message refusal_value ≡ ok refusal
unfolding parse_bridge_message parse_body parse_call parse_response parse_error_response
    parse_details collect_details set_detail get get_field is_record non_empty_string as_payload
    is_version is_text is_bool as_string entries fields_entries
refusal-parse = refl

parse_sound_example : IsWellFormed refusal × Carries refusal_value refusal
parse_sound_example = parse_sound refusal_value refusal-parse

-- A payload that is an array is accepted, as `typeof [] === "object"`.
array_payload :
    parse_bridge_message (
      object (
        field "version" (number 1) (
          field "id" (string "x") (
            field "type"
              (string "event")
              (field "method" (string "m") (field "payload" (array nil) end))))))
    ≡ ok (event "x" "m" (array nil))
unfolding parse_bridge_message parse_body parse_call get get_field is_record non_empty_string
    as_payload is_version is_text
array_payload = refl

wrong_version :
    parse_bridge_message (object (field "version" (number 2) end))
    ≡ err (record { code = "UNSUPPORTED_VERSION"; details = [] })
unfolding parse_bridge_message get get_field is_record is_version
wrong_version = refl
