-- ===== src/Redaction/Urls.antt =====
-- src/security/Redaction.ts: `sanitizeUrl`. The platform's URL class is a parameter: what the code
-- reads of a parsed URL, and what it sets.
use arc_browser_mcp.Prelude.{
  ℕ, zero, suc, ◌+◌, ◌==◌, ◌&&◌, ◌||◌, not, Option, none, some, List, [], ◌∷◌, ◌++◌, length,
  if◌then◌else◌,
}
use arc_browser_mcp.Text.{codes, text_eq}
use arc_browser_mcp.Interaction.{CodeUnits}
use arc_browser_mcp.Redaction.{
  truncate, redacted_value, is_sensitive_query_param, redact_key_value_secrets,
}

-- A parsed URL, `none` where the constructor throws; `keys` are the names of the query's
-- parameters, one for each pair, and `set_param` is URLSearchParams.set.
pub record UrlApi : Type 1 where
  pub Url : Type 0
  pub parse : CodeUnits → Option Url
  pub username : Url → CodeUnits
  pub password : Url → CodeUnits
  pub hash : Url → CodeUnits
  pub keys : Url → List CodeUnits
  pub set_username : CodeUnits → Url → Url
  pub set_password : CodeUnits → Url → Url
  pub set_hash : CodeUnits → Url → Url
  pub set_param : CodeUnits → CodeUnits → Url → Url
  pub to_string : Url → CodeUnits

abbrev pub redaction_max_url_chars : ℕ
redaction_max_url_chars = 2048

unfoldable pub redact_fragment_secrets : CodeUnits → CodeUnits
unfolding truncate redact_key_value_secrets
redact_fragment_secrets hash = truncate (redact_key_value_secrets hash) redaction_max_url_chars

-- What is left of a text behind a prefix.
unfoldable pub strip_prefix : CodeUnits → CodeUnits → Option CodeUnits
strip_prefix [] s = some s
strip_prefix (k ∷ word) [] = none
strip_prefix (k ∷ word) (c ∷ s) = let rest = strip_prefix word s in if c == k then rest else none

-- String.prototype.replaceAll by "[REDACTED]", for a word that is not empty; each round takes at
-- least one unit, so a round of fuel for each unit is enough.
unfoldable pub replace_loop : CodeUnits → ℕ → CodeUnits → CodeUnits
replace_loop word zero s = []
replace_loop word (suc fuel) [] = []
replace_loop word (suc fuel) (c ∷ s) = elim (strip_prefix word (c ∷ s)) [
  | none ↦ c ∷ replace_loop word fuel s
  | some rest ↦ redacted_value ++ replace_loop word fuel rest
]

unfoldable pub replace_all : CodeUnits → CodeUnits → CodeUnits
unfolding replace_loop strip_prefix
replace_all word s = replace_loop word (length s) s

module _ (lower : CodeUnits → CodeUnits) (api : UrlApi) where
  unfoldable pub strip_credentials : api.Url → api.Url
  strip_credentials parsed =
      if not (text_eq (api.username parsed) []) || not (text_eq (api.password parsed) [])
      then api.set_password [] (api.set_username [] parsed)
      else parsed

  unfoldable pub redact_hash : api.Url → api.Url
  redact_hash parsed =
      if not (text_eq (api.hash parsed) [])
        && not (text_eq (redact_fragment_secrets (api.hash parsed)) (api.hash parsed))
      then api.set_hash (redact_fragment_secrets (api.hash parsed)) parsed
      else parsed

  unfoldable pub redact_params : List CodeUnits → api.Url → api.Url
  redact_params [] parsed = parsed
  redact_params (key ∷ names) parsed = redact_params names (
      if is_sensitive_query_param lower key
      then api.set_param key redacted_value parsed
      else parsed)

  unfoldable pub cleaned : api.Url → api.Url
  unfolding strip_credentials redact_hash redact_params
  cleaned parsed =
      let kept = redact_hash (strip_credentials parsed) in redact_params (api.keys kept) kept

  unfoldable pub serialized : api.Url → CodeUnits
  unfolding replace_all
  serialized parsed = replace_all (codes "%5bredacted%5d") (
      replace_all (codes "%5Bredacted%5D")
        (replace_all (codes "%5BREDACTED%5D") (api.to_string parsed)))

  unfoldable pub sanitize_url : CodeUnits → ℕ → CodeUnits
  unfolding cleaned serialized truncate
  sanitize_url raw_url max_chars =
      let bounded_input = truncate raw_url (max_chars + 512) in
      elim (api.parse bounded_input) [
        | none ↦ truncate (redact_key_value_secrets (truncate bounded_input max_chars)) max_chars
        | some parsed ↦ truncate (serialized (cleaned parsed)) max_chars
      ]
