-- ===== src/Network/Tests.antt =====
-- A request with credentials, a redirect, and its end.
use arc_browser_mcp.Prelude.{◌≡◌, refl, Bool, false, some, List, [], ◌∷◌, String, map, inl, arith}
use arc_browser_mcp.Text.{codes}
use arc_browser_mcp.Json.{
  Json, number, string, object, end, field, get, get_field, is_record, entries, fields_entries,
}
use arc_browser_mcp.Interaction.{CodeUnits}
use arc_browser_mcp.Interaction.Utf8.{utf16}
use arc_browser_mcp.Redaction.{ascii_lower, truncate}
use arc_browser_mcp.Redaction.Names.{LowersAscii, IsSecret}
use arc_browser_mcp.Redaction.Urls.{UrlApi}
use arc_browser_mcp.Network.{sub_record}
use arc_browser_mcp.Network.Headers.{AlikeEntries, secret}
use arc_browser_mcp.Network.Monitor.{Event, sent, received, loaded, new_monitor, run}
use arc_browser_mcp.Network.Privacy.{AlikeParams, AlikeEvents, sents, run-hides}
use arc_browser_mcp.Network.Reach.{IsWell, run-IsWell}
use arc_browser_mcp.Network.Distinct.{IsDistinct, run-IsDistinct}

abbrev lower : CodeUnits → CodeUnits
lower = map ascii_lower

lower-LowersAscii : LowersAscii lower
lower-LowersAscii s ascii = refl

abbrev integral : String → Bool
integral text = false

-- A URL class that knows no credentials and no query.
abbrev api : UrlApi
api = record {
  Url = CodeUnits;
  parse = λ s. some s;
  username = λ s. [];
  password = λ s. [];
  hash = λ s. [];
  keys = λ s. [];
  set_username = λ t s. s;
  set_password = λ t s. s;
  set_hash = λ t s. s;
  set_param = λ k v s. s;
  to_string = λ s. s;
}

abbrev request : String → Json
request value = object (
    field "url" (string "https://a.b/c") (
      field "headers"
        (object (field "Accept" (string "*/*") (field "Authorization" (string value) end))) end))

abbrev params : String → Json
params value = object (field "type" (string "XHR") (field "request" (request value) end))

abbrev response : Json
response = object (field "response" (object (field "status" (number 200) end)) end)

abbrev events : String → List Event
events value =
    sent (codes "1") (params value) (codes "2026-01-01T00:00:00.000Z")
    ∷ received (codes "1") response
    ∷ loaded (codes "1")
    ∷ []

authorization-IsSecret : IsSecret (codes "Authorization")
authorization-IsSecret = record {
  front = [];
  core = codes "Authorization";
  back = [];
  split = refl;
  front_blank = tt;
  back_blank = tt;
  is_name = inl refl;
}

params_alike : AlikeParams "request" (params "Bearer a") (params "Basic b")
unfolding get get_field sub_record is_record entries fields_entries truncate utf16
params_alike = (
  (λ k h. ground (arith, h)),
  (λ k h. ground (arith, h)),
  AlikeEntries.same "Accept" (string "*/*") (("Authorization", string "Bearer a") ∷ [])
      (("Authorization", string "Basic b") ∷ [])
      (secret "Authorization" "Bearer a" "Basic b" [] [] authorization-IsSecret
        AlikeEntries.none_left),
)

events_alike : AlikeEvents (events "Bearer a") (events "Basic b")
events_alike =
    sents (codes "1") (params "Bearer a") (params "Basic b") (codes "2026-01-01T00:00:00.000Z")
      (received (codes "1") response ∷ loaded (codes "1") ∷ [])
      (received (codes "1") response ∷ loaded (codes "1") ∷ []) params_alike
      (AlikeEvents.same (received (codes "1") response) (loaded (codes "1") ∷ [])
        (loaded (codes "1") ∷ [])
        (AlikeEvents.same (loaded (codes "1")) [] [] AlikeEvents.none_left))

run-IsWell_example : IsWell (run lower lower integral api (events "x") (new_monitor 500))
run-IsWell_example =
    run-IsWell lower lower integral api lower-LowersAscii 500 (omega arith) (events "x")

run-IsDistinct_example : IsDistinct (run lower lower integral api (events "x") (new_monitor 500))
run-IsDistinct_example = run-IsDistinct lower lower integral api 500 (events "x")

run-hides_example :
    run lower lower integral api (events "Bearer a") (new_monitor 500)
    ≡ run lower lower integral api (events "Basic b") (new_monitor 500)
run-hides_example =
    run-hides lower lower integral api lower-LowersAscii (events "Bearer a") (events "Basic b")
      (new_monitor 500) events_alike
