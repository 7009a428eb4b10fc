-- ===== src/Redaction/ConsoleText.antt =====
-- src/security/Redaction.ts: `redactConsoleText`.
use arc_browser_mcp.Prelude.{
  ℕ, zero, suc, ◌+◌, Bool, true, false, ◌&&◌, ◌||◌, Option, none, some, [], ◌∷◌, ◌++◌, length, leb,
  ◌==◌, if◌then◌else◌,
}
use arc_browser_mcp.Text.{codes, is_space}
use arc_browser_mcp.Interaction.{CodeUnits}
use arc_browser_mcp.Redaction.{truncate, skip_spaces, strip, redact_key_value_secrets}

-- `\w`
abbrev is_word : ℕ → Bool
is_word c = (leb 48 c && leb c 57) || (leb 65 c && leb c 90) || c == 95 || (leb 97 c && leb c 122)

-- `[A-Za-z0-9\-._~+/=]`
abbrev is_token : ℕ → Bool
is_token c = is_word c || c == 45 || c == 46 || c == 126 || c == 43 || c == 47 || c == 61

-- What is left behind up to n more characters of a credential, and whether the last character of
-- it is one of a word; `last` tells that of the character in front.
unfoldable pub skip_token : ℕ → Bool → CodeUnits → Bool × CodeUnits
skip_token zero last s = (last, s)
skip_token (suc n) last [] = (last, [])
skip_token (suc n) last (c ∷ s) =
    let rest = skip_token n (is_word c) s in if is_token c then rest else (last, c ∷ s)

unfoldable pub strip_token : CodeUnits → Option (Bool × CodeUnits)
unfolding skip_token
strip_token [] = none
strip_token (c ∷ s) = if is_token c then some (skip_token 511 (is_word c) s) else none

-- `\s+` and the credential.
unfoldable pub strip_credential : CodeUnits → Option (Bool × CodeUnits)
unfolding skip_spaces strip_token
strip_credential [] = none
strip_credential (c ∷ s) = if is_space c then strip_token (skip_spaces s) else none

unfoldable pub strip_scheme : CodeUnits → CodeUnits → Option (Bool × CodeUnits)
unfolding strip strip_credential
strip_scheme scheme s = elim (strip scheme s) [ none ↦ none | some rest ↦ strip_credential rest ]

-- A match at this place: the replacement, whether it ends in a character of a word, and the rest.
unfoldable pub match_scheme : Bool → CodeUnits → Option (CodeUnits × Bool × CodeUnits)
unfolding strip_scheme
match_scheme true s = none
match_scheme false s = elim (strip_scheme (codes "bearer") s) [
  | some (last, rest) ↦ some (codes "Bearer [REDACTED]", last, rest)
  | none ↦ elim (strip_scheme (codes "basic") s) [
    | some (last, rest) ↦ some (codes "Basic [REDACTED]", last, rest)
    | none ↦ none
  ]
]

-- `last` tells whether the character in front of the text that is left is one of a word (`\b`).
unfoldable pub redact_schemes : ℕ → Bool → CodeUnits → CodeUnits
redact_schemes zero last s = []
redact_schemes (suc fuel) last [] = []
redact_schemes (suc fuel) last (c ∷ s) = elim (match_scheme last (c ∷ s)) [
  | none ↦ c ∷ redact_schemes fuel (is_word c) s
  | some (replacement, after, rest) ↦ replacement ++ redact_schemes fuel after rest
]

unfoldable pub redact_console_text : CodeUnits → ℕ → CodeUnits
unfolding truncate redact_schemes match_scheme redact_key_value_secrets
redact_console_text text max_chars =
    let out = truncate text (max_chars + 512) in
    truncate (redact_key_value_secrets (redact_schemes (length out) false out)) max_chars
