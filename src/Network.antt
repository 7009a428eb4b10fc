-- ===== src/Network.antt =====
-- src/observability/NetworkMonitor.ts: the projection of CDP events to entries. A text is the list
-- of its UTF-16 code units; the texts of the events are converted where they are read.
-- Parameters: `lower` and `upper` are toLowerCase and toUpperCase, `integral` is Number.isInteger on
-- a number that is not a natural one, and `api` is the platform's URL class.
pub mod Monitor
pub mod Headers
pub mod Pending
pub mod Entries
pub mod Reach
pub mod Ids
pub mod Distinct
mod Tests
pub mod Privacy
use text.Mathlib.Text.{◌==◌ as str_eq}
use arc_browser_mcp.Prelude.{
  ℕ, zero, suc, ◌+◌, ◌/◌, ◌%◌, Bool, true, false, not, ◌||◌, Option, none, some, List, [], ◌∷◌,
  ◌++◌, String, length, take, ltb, leb, if◌then◌else◌,
}
use arc_browser_mcp.Text.{codes, text_eq}
use arc_browser_mcp.Json.{Json, bool, number, numeral, string, object, end, is_record, get, entries}
use arc_browser_mcp.Json.Reads.{as_text, as_bool}
use arc_browser_mcp.Interaction.{CodeUnits}
use arc_browser_mcp.Interaction.Utf8.{utf16}
use arc_browser_mcp.Session.{as_integer}
use arc_browser_mcp.Redaction.{HeaderMap, truncate, set_header, redact_headers}
use arc_browser_mcp.Redaction.Urls.{UrlApi, sanitize_url}

abbrev pub network_correlation_hard_max : ℕ
network_correlation_hard_max = 2000

abbrev pub network_header_value_limit_chars : ℕ
network_header_value_limit_chars = 1024

abbrev pub network_max_headers_per_direction : ℕ
network_max_headers_per_direction = 64

abbrev pub network_string_limit_chars : ℕ
network_string_limit_chars = 2048

pub record NetworkEntry : Type 0 where
  pub id : CodeUnits
  pub started_at : CodeUnits
  pub method : CodeUnits
  pub url : CodeUnits
  pub resource_type : Option CodeUnits
  pub request_headers : HeaderMap
  pub has_post_data : Bool
  pub status : Option Json
  pub status_text : Option CodeUnits
  pub response_headers : Option HeaderMap
  pub mime_type : Option CodeUnits
  pub protocol : Option CodeUnits
  pub from_disk_cache : Option Bool
  pub failed : Bool
  pub error_text : Option CodeUnits

unfoldable pub bounded_text : ℕ → Option Json → Option CodeUnits
unfolding as_text truncate
bounded_text max_chars raw = elim (as_text raw) [
  | none ↦ none
  | some s ↦ some (truncate s max_chars)
]

-- The value of a property where it is a record, and an empty one otherwise.
unfoldable pub sub_record : Json → String → Json
sub_record params key = elim (get params key) [
  | none ↦ object end
  | some value ↦ if is_record value then value else object end
]

unfoldable pub bounded_timestamp : CodeUnits → CodeUnits → CodeUnits
unfolding truncate
bounded_timestamp raw fallback = if text_eq raw [] then fallback else truncate raw 64

-- The number in base 36.
unfoldable pub digit36 : ℕ → ℕ
digit36 d = if ltb d 10 then 48 + d else 87 + d

-- One round of fuel for each digit, and n + 1 rounds are enough.
unfoldable pub base36 : ℕ → ℕ → CodeUnits
unfolding digit36
base36 zero n = []
base36 (suc fuel) n =
    let front = base36 fuel (n / 36) in
    if ltb n 36 then digit36 n ∷ [] else front ++ digit36 (n % 36) ∷ []

unfoldable pub new_observation_id : ℕ → CodeUnits
unfolding base36
new_observation_id counter = codes "n-" ++ base36 (suc counter) counter

-- The loop of `projectHeaders` on the entries that are left.
unfoldable pub project_loop : List (String × Json) → ℕ → HeaderMap → HeaderMap
unfolding truncate set_header utf16
project_loop [] count collected = collected
project_loop ((name, string value) ∷ rest) count collected =
    let skipped = project_loop rest count collected in
    let taken =
      project_loop rest (suc count)
        (set_header (truncate (utf16 (codes name)) 128) (utf16 (codes value)) collected) in
    if leb network_max_headers_per_direction count
    then collected
    else if str_eq name ""
    then skipped
    else taken
project_loop ((name, value) ∷ rest) count collected =
    let skipped = project_loop rest count collected in
    if leb network_max_headers_per_direction count then collected else skipped

-- What is not a record has no entries.
unfoldable pub project_headers : (CodeUnits → CodeUnits) → Option Json → HeaderMap
unfolding project_loop redact_headers
project_headers lower none = []
project_headers lower (some raw) =
    redact_headers lower network_header_value_limit_chars (project_loop (entries raw) 0 [])

unfoldable pub bounded_method : (CodeUnits → CodeUnits) → Option Json → CodeUnits
unfolding as_text truncate
bounded_method upper raw = elim (as_text raw) [
  | none ↦ codes "GET"
  | some s ↦ if text_eq s [] then codes "GET" else truncate (take 16 (upper s)) 16
]

unfoldable pub blank_entry : ℕ → CodeUnits → NetworkEntry
unfolding new_observation_id bounded_timestamp
blank_entry counter started_at = record {
  id = new_observation_id counter;
  started_at = bounded_timestamp started_at [];
  method = codes "GET";
  url = [];
  resource_type = none;
  request_headers = [];
  has_post_data = false;
  status = none;
  status_text = none;
  response_headers = none;
  mime_type = none;
  protocol = none;
  from_disk_cache = none;
  failed = false;
  error_text = none;
}

unfoldable pub is_true : Option Json → Bool
is_true (some (bool b)) = b
is_true _ = false

unfoldable pub is_non_empty : Option CodeUnits → Bool
is_non_empty none = false
is_non_empty (some s) = not (text_eq s [])

unfoldable pub or_empty : Option CodeUnits → CodeUnits
or_empty none = []
or_empty (some s) = s

module _ (lower upper : CodeUnits → CodeUnits) (api : UrlApi) where
  -- The entry of a `requestWillBeSent`.
  unfoldable pub request_entry : ℕ → Json → CodeUnits → NetworkEntry
  unfolding sub_record bounded_method bounded_text as_text or_empty is_true is_non_empty
      sanitize_url project_headers blank_entry
  request_entry counter params started_at =
      let request = sub_record params "request" in
      record (blank_entry counter started_at) {
        method = bounded_method upper (get request "method");
        url =
            sanitize_url lower api (or_empty (as_text (get request "url")))
              network_string_limit_chars;
        resource_type =
            if is_non_empty (as_text (get params "type"))
            then bounded_text 64 (get params "type")
            else none;
        request_headers = project_headers lower (get request "headers");
        has_post_data =
            is_true (get request "hasPostData") || is_non_empty (as_text (get request "postData"));
      }

-- `{ ...old, key: value }` where an undefined value is left out.
unfoldable pub or_old {ℓ} : {A : Type ℓ} → Option A → Option A → Option A
or_old none old = old
or_old (some a) old = some a

-- The merge of a redirect, with `stripUnset`.
unfoldable pub merge_redirect : NetworkEntry → NetworkEntry → NetworkEntry
unfolding or_old
merge_redirect existing entry = record existing {
  method = entry.method;
  url = entry.url;
  request_headers = entry.request_headers;
  has_post_data = entry.has_post_data;
  resource_type = or_old entry.resource_type existing.resource_type;
  status = or_old entry.status existing.status;
  status_text = or_old entry.status_text existing.status_text;
  response_headers = or_old entry.response_headers existing.response_headers;
  mime_type = or_old entry.mime_type existing.mime_type;
  protocol = or_old entry.protocol existing.protocol;
  from_disk_cache = or_old entry.from_disk_cache existing.from_disk_cache;
}

module _ (lower : CodeUnits → CodeUnits) (integral : String → Bool) where
  -- The entry with the data of a `responseReceived`.
  unfoldable pub merge_response : Json → NetworkEntry → NetworkEntry
  unfolding sub_record or_old as_integer bounded_text as_bool project_headers
  merge_response params entry =
      let response = sub_record params "response" in
      record entry {
        status = or_old (as_integer integral (get response "status")) entry.status;
        status_text = or_old (bounded_text 128 (get response "statusText")) entry.status_text;
        response_headers = some (project_headers lower (get response "headers"));
        mime_type = or_old (bounded_text 128 (get response "mimeType")) entry.mime_type;
        protocol = or_old (bounded_text 64 (get response "protocol")) entry.protocol;
        from_disk_cache = or_old (as_bool (get response "fromDiskCache")) entry.from_disk_cache;
      }

-- The entry with the data of a `loadingFailed`.
unfoldable pub merge_failure : Json → NetworkEntry → NetworkEntry
unfolding or_old bounded_text
merge_failure params entry = record entry {
  failed = true;
  error_text = or_old (bounded_text 256 (get params "errorText")) entry.error_text;
}
