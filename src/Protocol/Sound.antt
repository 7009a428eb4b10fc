-- ===== src/Protocol/Sound.antt =====
-- No message passes `parse_bridge_message` but with the parts that its value has.
use arc_browser_mcp.Prelude.{
  ◌≡◌, ◌≢◌, refl, true, false, ◌||◌, Option, none, some, [], arith, String, inl, inr, Bool-cases,
}
use arc_browser_mcp.Json.{Json, bool, number, string, get, non_empty_string, entries, is_record}
use arc_browser_mcp.Protocol.{
  Details, ok, or_fail, ◌>>=◌, BridgeMessage, request, event, response_ok, response_error,
  is_version, is_text, is_bool, as_payload, collect_details, parse_details, parse_error_response,
  parse_response, parse_call, parse_body, parse_bridge_message, to_json,
}
use arc_browser_mcp.Protocol.Details.{
  collect_details-IsDetails, collect_details-AllTexts, collect_details-last,
}
use arc_browser_mcp.Protocol.Gate.{
  IsOptionalDetails, IsWellFormed, Carries, CarriesDetails, parse-to_json,
}
use arc_browser_mcp.Protocol.Reads.{
  non_empty_string-eq, as_payload-eq, is_version-eq, is_text-eq, is_bool-eq, as_string-eq,
}

parse_details-IsDetails :
    (o : Option Json) {ds : Option Details} → parse_details o ≡ ok ds → IsOptionalDetails ds
unfolding parse_details
parse_details-IsDetails none {ds = none} h = tt
parse_details-IsDetails none {ds = some ds} h = cc
parse_details-IsDetails (some raw) {ds = none} h = tt
parse_details-IsDetails (some raw) {ds = some ds} h =
    ground (arith, collect_details-IsDetails (entries raw) [] {found = ds})

parse_details-CarriesDetails :
    (o : Option Json) {ds : Option Details} → parse_details o ≡ ok ds → CarriesDetails o ds
unfolding parse_details
parse_details-CarriesDetails none {ds = none} h = tt
parse_details-CarriesDetails none {ds = some ds} h = cc
parse_details-CarriesDetails (some raw) {ds = none} h = ground arith
parse_details-CarriesDetails (some raw) {ds = some ds} h =
    let collected : (is_record raw ≡ true) × (collect_details (entries raw) [] ≡ ok ds) =
      ground arith in
    (
      collected.0,
      collect_details-AllTexts (entries raw) [] collected.1,
      λ k ne. collect_details-last (entries raw) [] k ne collected.1,
    )

parse_error_response-eq :
    (id : String) (e : Json) {i code message : String} {details : Option Details}
    → parse_error_response id (some e) ≡ ok (response_error i code message details)
    → (id ≡ i)
      × (get e "code" ≡ some (string code))
      × (get e "message" ≡ some (string message))
      × (parse_details (get e "details") ≡ ok details)
unfolding parse_error_response
parse_error_response-eq id e {code} {message} h =
    ground (arith, as_string-eq (get e "code") code, as_string-eq (get e "message") message)

-- What a message from this value is worth.
abbrev Trusted : Json → BridgeMessage → Type 0
Trusted v m = IsWellFormed m × Carries v m

module _ (v : Json) (id : String) (version : get v "version" ≡ some (number 1))
    (at_id : get v "id" ≡ some (string id)) (ne : id ≢ "") where
  parse_call-Trusted :
      (m : BridgeMessage)
      → is_text (get v "type") "request" || is_text (get v "type") "event" ≡ true
      → parse_call id v ≡ ok m
      → Trusted v m
  unfolding parse_call
  parse_call-Trusted (request i method payload) t h = ground (
    arith,
    is_text-eq (get v "type") "request",
    non_empty_string-eq (get v "method") method,
    as_payload-eq (get v "payload") payload,
  )
  parse_call-Trusted (event i method payload) t h = ground (
    arith,
    is_text-eq (get v "type") "event",
    non_empty_string-eq (get v "method") method,
    as_payload-eq (get v "payload") payload,
  )
  parse_call-Trusted (response_ok i payload) t h = ground arith
  parse_call-Trusted (response_error i code message details) t h = ground arith

  parse_error_response-Trusted :
      (o : Option Json) (m : BridgeMessage)
      → get v "error" ≡ o
      → get v "type" ≡ some (string "response")
      → get v "ok" ≡ some (bool false)
      → parse_error_response id o ≡ ok m
      → Trusted v m
  parse_error_response-Trusted none m at t fails h = unfold parse_error_response in cc
  parse_error_response-Trusted (some e) (request _ _ _) at t fails h =
      unfold parse_error_response in ground arith
  parse_error_response-Trusted (some e) (event _ _ _) at t fails h =
      unfold parse_error_response in ground arith
  parse_error_response-Trusted (some e) (response_ok _ _) at t fails h =
      unfold parse_error_response in ground arith
  parse_error_response-Trusted (some e) (response_error i code message details) at t fails h =
      let (same, is_code, is_message, is_details) = parse_error_response-eq id e h in
      rw (← same) (
        (ne, parse_details-IsDetails (get e "details") is_details),
        (
          version,
          t,
          at_id,
          fails,
          (e, at, is_code, is_message, parse_details-CarriesDetails (get e "details") is_details),
        ),
      )

  parse_response-Trusted :
      (m : BridgeMessage)
      → get v "type" ≡ some (string "response")
      → parse_response id v ≡ ok m
      → Trusted v m
  unfolding parse_response
  parse_response-Trusted m t h = elim (Bool-cases (is_bool (get v "ok") true)) [
    | inl yes_ok ↦ ok_response m (is_bool-eq (get v "ok") true yes_ok) (ground arith)
    | inr not_ok ↦ elim (Bool-cases (is_bool (get v "ok") false)) [
      | inl fails ↦
          parse_error_response-Trusted (get v "error") m refl t
            (is_bool-eq (get v "ok") false fails) (ground arith)
      | inr neither ↦ ground arith
    ]
  ]
    where
      ok_response :
          (m : BridgeMessage)
          → get v "ok" ≡ some (bool true)
          → (or_fail (as_payload (get v "payload")) "INVALID_ENVELOPE" >>= λ p.
              ok (response_ok id p))
            ≡ ok m
          → Trusted v m
      ok_response (response_ok i payload) is_ok h =
          ground (arith, as_payload-eq (get v "payload") payload)
      ok_response (request _ _ _) is_ok h = ground arith
      ok_response (event _ _ _) is_ok h = ground arith
      ok_response (response_error _ _ _ _) is_ok h = ground arith

  parse_body-Trusted : (m : BridgeMessage) → parse_body id v ≡ ok m → Trusted v m
  unfolding parse_body
  parse_body-Trusted m h =
      elim (Bool-cases (is_text (get v "type") "request" || is_text (get v "type") "event")) [
        | inl call ↦ parse_call-Trusted m call (ground arith)
        | inr no_call ↦ elim (Bool-cases (is_text (get v "type") "response")) [
          | inl response ↦
              parse_response-Trusted m (is_text-eq (get v "type") "response" response)
                (ground arith)
          | inr neither ↦ ground arith
        ]
      ]

parse_bridge_message-eq :
    (v : Json) {m : BridgeMessage}
    → parse_bridge_message v ≡ ok m
    → (id : String) × (is_version (get v "version") ≡ true)
      × (non_empty_string (get v "id") ≡ some id)
      × (parse_body id v ≡ ok m)
unfolding parse_bridge_message
parse_bridge_message-eq v h = ground arith

-- A message that is accepted has a protocol version of 1, an id that is not empty and, in a request
-- or event, a method that is not empty; its payload is an object or array; each of its parts is the
-- property of the value with that name; and the details of an error have distinct keys, are there if
-- the value has any, all of which are texts, and give each key but `__proto__` its last text.
pub parse_sound :
    (v : Json) {m : BridgeMessage} → parse_bridge_message v ≡ ok m → IsWellFormed m × Carries v m
parse_sound v {m} h =
    let (id, version, at_id, body) = parse_bridge_message-eq v h in
    let (is_id, ne) = non_empty_string-eq (get v "id") id at_id in
    parse_body-Trusted v id (is_version-eq (get v "version") version) is_id ne m body

-- What a relay forwards: a message that was accepted is accepted once more, unchanged, when it is
-- printed as JSON again.
pub parse-to_json_again :
    (v : Json) {m : BridgeMessage}
    → parse_bridge_message v ≡ ok m
    → parse_bridge_message (to_json m) ≡ ok m
parse-to_json_again v {m} h = parse-to_json m (parse_sound v h).0
