-- ===== src/Network/Entries.antt =====
-- What the entries show: `requestWillBeSent` and the merges.
use arc_browser_mcp.Prelude.{
  ℕ, ◌+◌, ◌≤◌, inl, inr, Bool, Option, none, some, [], String, length, take, choose, arith,
  Option-cases,
}
use arc_browser_mcp.Text.{codes, text_eq}
use arc_browser_mcp.Json.Reads.{as_text}
use arc_browser_mcp.Json.{Json, get}
use arc_browser_mcp.Interaction.{CodeUnits}
use arc_browser_mcp.Redaction.{HeaderMap, truncate, redact_key_value_secrets}
use arc_browser_mcp.Redaction.Names.{LowersAscii}
use arc_browser_mcp.Redaction.Headers.{length-truncate}
use arc_browser_mcp.Redaction.Urls.{UrlApi, sanitize_url, serialized, cleaned}
use arc_browser_mcp.Network.{
  NetworkEntry, network_string_limit_chars, sub_record, or_empty, bounded_method, request_entry,
  merge_redirect, merge_response, merge_failure, or_old, blank_entry,
}
use arc_browser_mcp.Network.Headers.{IsSafeMap, project_headers-IsSafe}

abbrev pub IsSafeOption : Option HeaderMap → Type 0
IsSafeOption none = Unit
IsSafeOption (some headers) = IsSafeMap headers

-- The headers of an entry are safe, and its method and URL are bounded.
abbrev pub IsSafeEntry : NetworkEntry → Type 0
IsSafeEntry entry =
    IsSafeMap entry.request_headers
    × IsSafeOption entry.response_headers
    × (length entry.method ≤ 16)
    × (length entry.url ≤ network_string_limit_chars)

length-sanitize_url :
    (lower : CodeUnits → CodeUnits) (api : UrlApi) (raw_url : CodeUnits) (max_chars : ℕ)
    → length (sanitize_url lower api raw_url max_chars) ≤ max_chars
unfolding sanitize_url
length-sanitize_url lower api raw_url max_chars =
    let bounded_input = truncate raw_url (max_chars + 512) in
    elim (api.parse bounded_input)
      as (λ o.
        length (elim o [
          | none ↦ truncate (redact_key_value_secrets (truncate bounded_input max_chars)) max_chars
          | some parsed ↦ truncate (serialized lower api (cleaned lower api parsed)) max_chars
        ])
        ≤ max_chars) [
          | none ↦
              length-truncate (redact_key_value_secrets (truncate bounded_input max_chars))
                max_chars
          | some parsed ↦
              length-truncate (serialized lower api (cleaned lower api parsed)) max_chars
        ]

length-bounded_method :
    (upper : CodeUnits → CodeUnits) (raw : Option Json) → length (bounded_method upper raw) ≤ 16
unfolding bounded_method
length-bounded_method upper raw = elim (Option-cases (as_text raw)) [
  | inl e ↦ rw (e, bounded_method) (omega arith)
  | inr (s, e) ↦
      rw (e, bounded_method)
        (choose (λ v. length v ≤ 16) (codes "GET") (truncate (take 16 (upper s)) 16) (text_eq s [])
          (λ h. omega arith) (λ h. length-truncate (take 16 (upper s)) 16))
]

module _ (lower upper : CodeUnits → CodeUnits) (integral : String → Bool) (api : UrlApi)
    (lowers : LowersAscii lower) where
  pub request_entry-IsSafe :
      (counter : ℕ) (params : Json) (started_at : CodeUnits)
      → IsSafeEntry (request_entry lower upper api counter params started_at)
  unfolding request_entry blank_entry
  request_entry-IsSafe counter params started_at =
      let request = sub_record params "request" in
      (
        project_headers-IsSafe lower lowers (get request "headers"),
        tt,
        length-bounded_method upper (get request "method"),
        length-sanitize_url lower api (or_empty (as_text (get request "url")))
            network_string_limit_chars,
      )

  pub merge_response-IsSafe :
      (params : Json) (entry : NetworkEntry)
      → IsSafeEntry entry
      → IsSafeEntry (merge_response lower integral params entry)
  unfolding merge_response
  merge_response-IsSafe params entry h = (
    h.0,
    project_headers-IsSafe lower lowers (get (sub_record params "response") "headers"),
    h.2,
    h.3,
  )

pub merge_redirect-IsSafe :
    (existing entry : NetworkEntry)
    → IsSafeEntry existing
    → IsSafeEntry entry
    → IsSafeEntry (merge_redirect existing entry)
unfolding merge_redirect or_old
merge_redirect-IsSafe existing entry h g = (g.0, by_headers entry.response_headers g.1, g.2, g.3)
  where
    by_headers :
        (o : Option HeaderMap) → IsSafeOption o → IsSafeOption (or_old o existing.response_headers)
    by_headers none g = h.1
    by_headers (some headers) g = g

pub merge_failure-IsSafe :
    (params : Json) (entry : NetworkEntry)
    → IsSafeEntry entry
    → IsSafeEntry (merge_failure params entry)
unfolding merge_failure
merge_failure-IsSafe params entry h = h
