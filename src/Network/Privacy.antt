-- ===== src/Network/Privacy.antt =====
-- The texts of credential headers leave no trace in the monitor.
use arc_browser_mcp.Prelude.{
  ℕ, suc, Bool, inl, inr, Option-cases, ◌≡◌, refl, ap, ◌∙◌, List, [], ◌∷◌, String,
}
use arc_browser_mcp.Json.{Json, get}
use arc_browser_mcp.Json.Reads.{AgreeBut}
use arc_browser_mcp.Interaction.{CodeUnits}
use arc_browser_mcp.Redaction.Names.{LowersAscii}
use arc_browser_mcp.Redaction.Urls.{UrlApi}
use arc_browser_mcp.Network.{NetworkEntry, sub_record, request_entry, merge_response}
use arc_browser_mcp.Network.Headers.{AlikeRaw, project_headers-hides}
use arc_browser_mcp.Network.Monitor.{
  NetworkMonitor, Event, sent, received, request_will_be_sent, response_received, step, run, find,
  add_request,
}

-- Parameters of an event that differ at most in the texts of credentials among the headers of the
-- record under `key`.
abbrev pub AlikeParams : String → Json → Json → Type 0
AlikeParams key p q =
    AgreeBut key p q
    × AgreeBut "headers" (sub_record p key) (sub_record q key)
    × AlikeRaw (get (sub_record p key) "headers") (get (sub_record q key) "headers")

pub data AlikeEvents : List Event → List Event → Type 0 where
  none_left : AlikeEvents [] []
  same : (e : Event) (es es2 : List Event) → AlikeEvents es es2 → AlikeEvents (e ∷ es) (e ∷ es2)
  sents :
      (id : CodeUnits) (p q : Json) (started_at : CodeUnits) (es es2 : List Event)
      → AlikeParams "request" p q
      → AlikeEvents es es2
      → AlikeEvents (sent id p started_at ∷ es) (sent id q started_at ∷ es2)
  receives :
      (id : CodeUnits) (p q : Json) (es es2 : List Event)
      → AlikeParams "response" p q
      → AlikeEvents es es2
      → AlikeEvents (received id p ∷ es) (received id q ∷ es2)

module _ (lower upper : CodeUnits → CodeUnits) (integral : String → Bool) (api : UrlApi)
    (lowers : LowersAscii lower) where
  request_entry-hides :
      (counter : ℕ) (p q : Json) (started_at : CodeUnits)
      → AlikeParams "request" p q
      → request_entry lower upper api counter p started_at
        ≡ request_entry lower upper api counter q started_at
  unfolding request_entry
  request_entry-hides counter p q started_at (outer, inner, headers) =
      rw
        (
          project_headers-hides lower lowers (get (sub_record p "request") "headers")
              (get (sub_record q "request") "headers") headers,
          inner "method" refl,
          inner "url" refl,
          inner "hasPostData" refl,
          inner "postData" refl,
          outer "type" refl,
        )
        refl

  merge_response-hides :
      (p q : Json) (entry : NetworkEntry)
      → AlikeParams "response" p q
      → merge_response lower integral p entry ≡ merge_response lower integral q entry
  unfolding merge_response
  merge_response-hides p q entry (outer, inner, headers) =
      rw
        (
          project_headers-hides lower lowers (get (sub_record p "response") "headers")
              (get (sub_record q "response") "headers") headers,
          inner "status" refl,
          inner "statusText" refl,
          inner "mimeType" refl,
          inner "protocol" refl,
          inner "fromDiskCache" refl,
        )
        refl

  received_alike :
      (id : CodeUnits) (p q : Json) (m : NetworkMonitor)
      → AlikeParams "response" p q
      → response_received lower integral id p m ≡ response_received lower integral id q m
  unfolding response_received
  received_alike id p q m h = elim (Option-cases (find id m.pending)) [
    | inl e ↦ rw (e, response_received) refl
    | inr (existing, e) ↦ rw (e, response_received, merge_response-hides p q existing.entry h) refl
  ]

  -- If `toLowerCase` lowers ASCII texts letter by letter: two runs of a monitor whose events differ
  -- at most in the texts of request and response headers whose names, cut to 128 code units, are
  -- those of credentials, in any case and with white space around them, end in the same state.
  pub run-hides :
      (es es2 : List Event) (m : NetworkMonitor)
      → AlikeEvents es es2
      → run lower upper integral api es m ≡ run lower upper integral api es2 m
  unfolding run step request_will_be_sent response_received
  run-hides _ _ m none_left = refl
  run-hides _ _ m (same e es es2 alike) = run-hides es es2 (step lower upper integral api e m) alike
  run-hides _ _ m (sents id p q started_at es es2 h alike) =
      ap
        (λ entry.
          run lower upper integral api es
            (add_request id entry (record m { observation_counter = suc m.observation_counter })))
        (request_entry-hides (suc m.observation_counter) p q started_at h)
      ∙ run-hides es es2 (request_will_be_sent lower upper api id q started_at m) alike
  run-hides _ _ m (receives id p q es es2 h alike) =
      ap (run lower upper integral api es) (received_alike id p q m h)
      ∙ run-hides es es2 (response_received lower integral id q m) alike
