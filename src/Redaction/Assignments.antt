-- ===== src/Redaction/Assignments.antt =====
-- What `redactKeyValueSecrets` does to an assignment of a credential.
use arc_browser_mcp.Prelude.{
  ℕ, zero, suc, ◌≡◌, refl, sym, ap, subst, ◌∙◌, ◌⊎◌, inl, inr, true, false, Option, none, some,
  List, [], ◌∷◌, ◌++◌, length, drop, if◌then◌else◌, All, arith,
}
use arc_browser_mcp.Text.{codes, is_space}
use arc_browser_mcp.Interaction.{CodeUnits}
use arc_browser_mcp.Redaction.{
  skip_spaces, strip, strip_quoted, is_quote, is_value_char, skip_value, strip_value, strip_sign,
  match_key, redact_keys, redact_key_value_secrets, sensitive_query_params,
}
use arc_browser_mcp.Redaction.FreeText.{IsShorterMatch, match_key-IsShorter, redact_keys_enough}

-- A name of the list.
abbrev pub IsAmong : CodeUnits → List CodeUnits → Type 0
IsAmong name [] = ⊥
IsAmong name (other ∷ names) = (name ≡ other) ⊎ IsAmong name names

abbrev pub IsValue : CodeUnits → Type 0
IsValue = All (λ c. is_value_char c ≡ true)

-- The text ends here, or goes on with a character that no value has.
abbrev pub IsDelimited : CodeUnits → Type 0
IsDelimited [] = Unit
IsDelimited (c ∷ rest) = is_value_char c ≡ false

skip_value-append :
    (n : ℕ) (value rest : CodeUnits)
    → IsValue value
    → IsDelimited rest
    → skip_value n (value ++ rest) ≡ drop n value ++ rest
unfolding skip_value
skip_value-append zero value rest v d = refl
skip_value-append (suc n) [] [] v d = refl
skip_value-append (suc n) [] (c ∷ rest) v d = rw d refl
skip_value-append (suc n) (c ∷ value) rest (h, v) d = rw h (skip_value-append n value rest v d)

value_char : (c : ℕ) → is_value_char c ≡ true → (is_space c ≡ false) × (is_quote c ≡ false)
unfolding is_value_char
value_char c h = ground (arith, h)

strip_value-append :
    (c : ℕ) (value rest : CodeUnits)
    → IsValue (c ∷ value)
    → IsDelimited rest
    → strip_value (skip_spaces (c ∷ (value ++ rest))) ≡ some (drop 256 (c ∷ value) ++ rest)
unfolding strip_value skip_spaces
strip_value-append c value rest (h, v) d =
    let s = value ++ rest in
    ap (λ b. strip_value (if b then skip_spaces s else c ∷ s)) (value_char c h).0
    ∙ ap
        (λ b.
          if b
          then strip_quoted 256 c s
          else (if is_value_char c then some (skip_value 255 s) else none))
        (value_char c h).1
    ∙ ap (λ b. if b then some (skip_value 255 s) else none) h
    ∙ ap some (skip_value-append 255 value rest v d)

pub among :
    (P : CodeUnits → Type 0) (key : CodeUnits) (keys : List CodeUnits)
    → All P keys
    → IsAmong key keys
    → P key
among P key [] all h = absurd h
among P key (other ∷ keys) (p, all) (inl e) = subst P (sym e) p
among P key (other ∷ keys) (p, all) (inr h) = among P key keys all h

abbrev Matches : CodeUnits → CodeUnits → CodeUnits → Type 0
Matches s after key = match_key sensitive_query_params (key ++ (61 ∷ s)) ≡ some (key, after)

keys_match :
    (s after : CodeUnits)
    → strip_value (skip_spaces s) ≡ some after
    → All (Matches s after) sensitive_query_params
unfolding match_key strip strip_sign skip_spaces is_space
keys_match s after h = (
  rw (match_key, h) refl,
  (
    rw (match_key, h) refl,
    (
      rw (match_key, h) refl,
      (
        rw (match_key, h) refl,
        (
          rw (match_key, h) refl,
          (
            rw (match_key, h) refl,
            (
              rw (match_key, h) refl,
              (
                rw (match_key, h) refl,
                (rw (match_key, h) refl, (rw (match_key, h) refl, (rw (match_key, h) refl, tt))),
              ),
            ),
          ),
        ),
      ),
    ),
  ),
)

-- One match at the front of a text.
redact_match :
    (text key after : CodeUnits)
    → match_key sensitive_query_params text ≡ some (key, after)
    → redact_key_value_secrets text ≡ key ++ (codes "=[REDACTED]" ++ redact_key_value_secrets after)
unfolding redact_key_value_secrets redact_keys
redact_match [] key after h =
    absurd
      (omega (arith, subst (IsShorterMatch []) h (match_key-IsShorter sensitive_query_params [])))
redact_match (c ∷ s) key after h =
    let short =
      subst (IsShorterMatch (c ∷ s)) h (match_key-IsShorter sensitive_query_params (c ∷ s)) in
    ap
      (λ (o : Option (CodeUnits × CodeUnits)). elim o [
        | none ↦ c ∷ redact_keys (length s) s
        | some (k, rest) ↦ k ++ (codes "=[REDACTED]" ++ redact_keys (length s) rest)
      ])
      h
    ∙ ap (λ out. key ++ (codes "=[REDACTED]" ++ out))
        (redact_keys_enough (length s) (length after) after (omega (arith, short)) (omega arith))

-- In a text that starts with a credential's key in lower case, "=" and a value without white space,
-- quotes, "&" or ";" that ends with the text or in front of one of these, the first 256 code units
-- of the value are replaced by "[REDACTED]", and the value's remaining ones are taken as the start
-- of the text that comes after.
pub redact_assignment :
    (key : CodeUnits) (c : ℕ) (value rest : CodeUnits)
    → IsAmong key sensitive_query_params
    → IsValue (c ∷ value)
    → IsDelimited rest
    → redact_key_value_secrets (key ++ (61 ∷ c ∷ (value ++ rest)))
      ≡ key ++ (codes "=[REDACTED]" ++ redact_key_value_secrets (drop 256 (c ∷ value) ++ rest))
redact_assignment key c value rest k v d =
    let s = c ∷ (value ++ rest) in
    let after = drop 256 (c ∷ value) ++ rest in
    redact_match (key ++ (61 ∷ s)) key after (
      among (Matches s after) key sensitive_query_params
        (keys_match s after (strip_value-append c value rest v d)) k)
