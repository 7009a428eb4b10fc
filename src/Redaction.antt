-- ===== src/Redaction.antt =====
-- src/security/Redaction.ts: the redaction of header maps, of URLs and of free text. A text is the
-- list of its UTF-16 code units. The two regular expressions are matched by hand: none of their parts
-- can give back what it took in a way that lets a later part match, so each is one pass.
-- Parameters: `lower` is String.prototype.toLowerCase, and a `UrlApi` the platform's URL class.
pub mod Names
pub mod FreeText
pub mod Assignments
pub mod Headers
pub mod ConsoleText
pub mod Urls
pub mod Cleaning
mod Tests
use arc_browser_mcp.Prelude.{
  ℕ, zero, suc, ◌+◌, Bool, true, false, not, ◌&&◌, ◌||◌, Option, none, some, List, [], ◌∷◌, ◌++◌,
  length, take, drop, ltb, leb, ◌==◌, if◌then◌else◌,
}
use arc_browser_mcp.Text.{codes, is_space, text_eq}
use arc_browser_mcp.Interaction.{CodeUnits}

abbrev pub redacted_value : CodeUnits
redacted_value = codes "[REDACTED]"

abbrev sensitive_headers : List CodeUnits
sensitive_headers =
    codes "authorization"
    ∷ codes "cookie"
    ∷ codes "set-cookie"
    ∷ codes "proxy-authorization"
    ∷ codes "x-api-key"
    ∷ codes "x-auth-token"
    ∷ []

abbrev pub sensitive_query_params : List CodeUnits
sensitive_query_params =
    codes "token"
    ∷ codes "access_token"
    ∷ codes "id_token"
    ∷ codes "refresh_token"
    ∷ codes "api_key"
    ∷ codes "apikey"
    ∷ codes "password"
    ∷ codes "passwd"
    ∷ codes "secret"
    ∷ codes "auth"
    ∷ codes "authorization"
    ∷ []

unfoldable pub truncate : CodeUnits → ℕ → CodeUnits
truncate value max_chars = if ltb max_chars (length value) then take max_chars value else value

-- Set.has on the sets of names.
unfoldable pub has_name : CodeUnits → List CodeUnits → Bool
has_name name [] = false
has_name name (other ∷ names) = text_eq other name || has_name name names

unfoldable pub skip_spaces : CodeUnits → CodeUnits
skip_spaces [] = []
skip_spaces (c ∷ s) = let rest = skip_spaces s in if is_space c then rest else c ∷ s

unfoldable pub drop_spaces : CodeUnits → CodeUnits
drop_spaces [] = []
drop_spaces (c ∷ s) = elim (drop_spaces s) [
  | [] ↦ if is_space c then [] else c ∷ []
  | d ∷ rest ↦ c ∷ d ∷ rest
]

-- String.prototype.trim
unfoldable pub trim : CodeUnits → CodeUnits
unfolding skip_spaces drop_spaces
trim s = drop_spaces (skip_spaces s)

module _ (lower : CodeUnits → CodeUnits) where
  unfoldable pub is_sensitive_header_name : CodeUnits → Bool
  unfolding has_name trim
  is_sensitive_header_name name = has_name (lower (trim name)) sensitive_headers

  unfoldable pub is_sensitive_query_param : CodeUnits → Bool
  unfolding has_name trim
  is_sensitive_query_param name = has_name (lower (trim name)) sensitive_query_params

abbrev pub HeaderMap : Type 0
HeaderMap = List (CodeUnits × CodeUnits)

unfoldable pub put : CodeUnits → CodeUnits → HeaderMap → HeaderMap
put name value [] = (name, value) ∷ []
put name value ((other, old) ∷ headers) =
    if text_eq other name then (other, value) ∷ headers else (other, old) ∷ put name value headers

-- `headers[name] = value` on an object literal: setting `__proto__` to a text does nothing.
unfoldable pub set_header : CodeUnits → CodeUnits → HeaderMap → HeaderMap
unfolding put
set_header name value headers =
    if text_eq (codes "__proto__") name then headers else put name value headers

module _ (lower : CodeUnits → CodeUnits) (max_value_chars : ℕ) where
  unfoldable pub redact_value : CodeUnits → CodeUnits → CodeUnits
  redact_value name value =
      if is_sensitive_header_name lower name then redacted_value else truncate value max_value_chars

  unfoldable pub redact_loop : HeaderMap → HeaderMap → HeaderMap
  unfolding redact_value set_header
  redact_loop [] out = out
  redact_loop ((name, value) ∷ headers) out =
      redact_loop headers (set_header name (redact_value name value) out)

  unfoldable pub redact_headers : HeaderMap → HeaderMap
  unfolding redact_loop
  redact_headers headers = redact_loop headers []

-- A letter of the regular expressions, which ignore case.
abbrev pub ascii_lower : ℕ → ℕ
ascii_lower c = if leb 65 c && leb c 90 then c + 32 else c

-- What is left of a text behind a word.
unfoldable pub strip : CodeUnits → CodeUnits → Option CodeUnits
strip [] s = some s
strip (k ∷ word) [] = none
strip (k ∷ word) (c ∷ s) = let rest = strip word s in if ascii_lower c == k then rest else none

-- `[^"]{0,n}"`
unfoldable pub strip_quoted : ℕ → ℕ → CodeUnits → Option CodeUnits
strip_quoted n quote [] = none
strip_quoted zero quote (c ∷ s) = if c == quote then some s else none
strip_quoted (suc n) quote (c ∷ s) =
    let rest = strip_quoted n quote s in if c == quote then some s else rest

abbrev pub is_quote : ℕ → Bool
is_quote c = c == 34 || c == 39 || c == 96

-- `[^\s&;"'`]`
unfoldable pub is_value_char : ℕ → Bool
is_value_char c = not (is_space c || c == 38 || c == 59 || is_quote c)

-- What is left behind up to n characters of a value.
unfoldable pub skip_value : ℕ → CodeUnits → CodeUnits
skip_value zero s = s
skip_value (suc n) [] = []
skip_value (suc n) (c ∷ s) = let rest = skip_value n s in if is_value_char c then rest else c ∷ s

unfoldable pub strip_value : CodeUnits → Option CodeUnits
unfolding strip_quoted is_value_char skip_value
strip_value [] = none
strip_value (c ∷ s) =
    if is_quote c
    then strip_quoted 256 c s
    else if is_value_char c
    then some (skip_value 255 s)
    else none

unfoldable pub strip_sign : CodeUnits → Option CodeUnits
unfolding skip_spaces strip_value
strip_sign [] = none
strip_sign (c ∷ s) = if c == 58 || c == 61 then strip_value (skip_spaces s) else none

-- The first key, in the order of the alternatives, for which the whole expression matches.
unfoldable pub match_key : List CodeUnits → CodeUnits → Option (CodeUnits × CodeUnits)
unfolding strip strip_sign
match_key [] s = none
match_key (key ∷ keys) s =
    let other = match_key keys s in
    elim (strip key s) [
      | none ↦ other
      | some rest ↦ elim (strip_sign (skip_spaces rest)) [
        | none ↦ other
        | some after ↦ some (take (length key) s, after)
      ]
    ]

-- The replacement on the text that is left; each round takes at least one unit, so a round of fuel
-- for each unit is enough.
unfoldable pub redact_keys : ℕ → CodeUnits → CodeUnits
redact_keys zero s = []
redact_keys (suc fuel) [] = []
redact_keys (suc fuel) (c ∷ s) = elim (match_key sensitive_query_params (c ∷ s)) [
  | none ↦ c ∷ redact_keys fuel s
  | some (key, rest) ↦ key ++ (codes "=[REDACTED]" ++ redact_keys fuel rest)
]

unfoldable pub redact_key_value_secrets : CodeUnits → CodeUnits
unfolding redact_keys match_key
redact_key_value_secrets text = redact_keys (length text) text
