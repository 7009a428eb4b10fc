-- ===== src/Redaction/FreeText.antt =====
-- The fuel of `redactKeyValueSecrets` is enough: every match takes something off the text.
use arc_browser_mcp.Prelude.{
  ℕ, zero, suc, ◌≤◌, ◌<◌, ◌≡◌, refl, ap, ◌||◌, Option, none, some, List, [], ◌∷◌, ◌++◌, length,
  take, if◌then◌else◌, choose, arith, ◌==◌,
}
use arc_browser_mcp.Text.{codes}
use arc_browser_mcp.Interaction.{CodeUnits}
use arc_browser_mcp.Redaction.{
  ascii_lower, skip_spaces, strip, strip_quoted, is_quote, is_value_char, skip_value, strip_value,
  strip_sign, match_key, redact_keys, sensitive_query_params,
}

abbrev IsShort : ℕ → Option CodeUnits → Type 0
IsShort n none = Unit
IsShort n (some rest) = length rest ≤ n

IsShort-mono : (m n : ℕ) (o : Option CodeUnits) → m ≤ n → IsShort m o → IsShort n o
IsShort-mono m n none le h = tt
IsShort-mono m n (some rest) le h = omega (arith, le, h)

length-skip_spaces : (s : CodeUnits) → length (skip_spaces s) ≤ length s
unfolding skip_spaces
length-skip_spaces [] = omega arith
length-skip_spaces (c ∷ s) = ground (arith, length-skip_spaces s)

length-skip_value : (n : ℕ) (s : CodeUnits) → length (skip_value n s) ≤ length s
unfolding skip_value
length-skip_value zero s = omega arith
length-skip_value (suc n) [] = omega arith
length-skip_value (suc n) (c ∷ s) = ground (arith, length-skip_value n s)

strip-IsShort : (key s : CodeUnits) → IsShort (length s) (strip key s)
unfolding strip
strip-IsShort [] s = omega arith
strip-IsShort (k ∷ key) [] = tt
strip-IsShort (k ∷ key) (c ∷ s) =
    choose (IsShort (suc (length s))) (strip key s) none (ascii_lower c == k)
      (λ hit.
        IsShort-mono (length s) (suc (length s)) (strip key s) (omega arith) (strip-IsShort key s))
      (λ miss. tt)

strip_quoted-IsShort : (n quote : ℕ) (s : CodeUnits) → IsShort (length s) (strip_quoted n quote s)
unfolding strip_quoted
strip_quoted-IsShort n quote [] = elim n [ zero ↦ tt | suc k ↦ tt ]
strip_quoted-IsShort zero quote (c ∷ s) =
    choose (IsShort (suc (length s))) (some s) none (c == quote) (λ hit. omega arith) (λ miss. tt)
strip_quoted-IsShort (suc n) quote (c ∷ s) =
    choose (IsShort (suc (length s))) (some s) (strip_quoted n quote s) (c == quote)
      (λ hit. omega arith)
      (λ miss.
        IsShort-mono (length s) (suc (length s)) (strip_quoted n quote s) (omega arith)
          (strip_quoted-IsShort n quote s))

strip_value-IsShort : (s : CodeUnits) → IsShort (length s) (strip_value s)
unfolding strip_value
strip_value-IsShort [] = tt
strip_value-IsShort (c ∷ s) =
    choose (IsShort (suc (length s))) (strip_quoted 256 c s)
      (if is_value_char c then some (skip_value 255 s) else none) (is_quote c)
      (λ hit.
        IsShort-mono (length s) (suc (length s)) (strip_quoted 256 c s) (omega arith)
          (strip_quoted-IsShort 256 c s))
      (λ miss.
        choose (IsShort (suc (length s))) (some (skip_value 255 s)) none (is_value_char c)
          (λ one. omega (arith, length-skip_value 255 s)) (λ other. tt))

-- The sign itself is gone.
abbrev IsShorter : CodeUnits → Option CodeUnits → Type 0
IsShorter s none = Unit
IsShorter s (some rest) = length rest < length s

strip_sign-IsShorter : (s : CodeUnits) → IsShorter s (strip_sign s)
unfolding strip_sign
strip_sign-IsShorter [] = tt
strip_sign-IsShorter (c ∷ s) =
    choose (IsShorter (c ∷ s)) (strip_value (skip_spaces s)) none (c == 58 || c == 61)
      (λ sign. by_value (strip_value (skip_spaces s)) (strip_value-IsShort (skip_spaces s)))
      (λ other. tt)
  where
    by_value : (o : Option CodeUnits) → IsShort (length (skip_spaces s)) o → IsShorter (c ∷ s) o
    by_value none h = tt
    by_value (some rest) h = omega (arith, h, length-skip_spaces s)

abbrev pub IsShorterMatch : CodeUnits → Option (CodeUnits × CodeUnits) → Type 0
IsShorterMatch s none = Unit
IsShorterMatch s (some (key, rest)) = length rest < length s

pub match_key-IsShorter :
    (keys : List CodeUnits) (s : CodeUnits) → IsShorterMatch s (match_key keys s)
unfolding match_key
match_key-IsShorter [] s = tt
match_key-IsShorter (key ∷ keys) s =
    by_key (strip key s) (strip-IsShort key s) (match_key-IsShorter keys s)
  where
    by_sign :
        (rest : CodeUnits)
        → length rest ≤ length s
        → (o : Option CodeUnits) → IsShorter (skip_spaces rest) o
        → IsShorterMatch s (match_key keys s)
        → IsShorterMatch s
            (elim o [ none ↦ match_key keys s | some after ↦ some (take (length key) s, after) ])
    by_sign rest le none h other = other
    by_sign rest le (some after) h other = omega (arith, le, h, length-skip_spaces rest)

    by_key :
        (o : Option CodeUnits)
        → IsShort (length s) o
        → IsShorterMatch s (match_key keys s)
        → IsShorterMatch s (elim o [
          | none ↦ match_key keys s
          | some rest ↦ elim (strip_sign (skip_spaces rest)) [
            | none ↦ match_key keys s
            | some after ↦ some (take (length key) s, after)
          ]
        ])
    by_key none h other = other
    by_key (some rest) h other =
        by_sign rest h (strip_sign (skip_spaces rest)) (strip_sign-IsShorter (skip_spaces rest))
          other

-- More fuel than the text has units changes nothing.
pub redact_keys_enough :
    (fuel more : ℕ) (s : CodeUnits)
    → length s ≤ fuel
    → length s ≤ more
    → redact_keys fuel s ≡ redact_keys more s
unfolding redact_keys
redact_keys_enough zero zero s h g = refl
redact_keys_enough zero (suc more) [] h g = refl
redact_keys_enough zero (suc more) (c ∷ s) h g = absurd (omega (arith, h))
redact_keys_enough (suc fuel) zero [] h g = refl
redact_keys_enough (suc fuel) zero (c ∷ s) h g = absurd (omega (arith, g))
redact_keys_enough (suc fuel) (suc more) [] h g = refl
redact_keys_enough (suc fuel) (suc more) (c ∷ s) h g =
    by_match (match_key sensitive_query_params (c ∷ s))
      (match_key-IsShorter sensitive_query_params (c ∷ s)) (redact_keys_enough fuel more)
  where
    by_match :
        (o : Option (CodeUnits × CodeUnits))
        → IsShorterMatch (c ∷ s) o
        → ((t : CodeUnits)
            → length t ≤ fuel
            → length t ≤ more
            → redact_keys fuel t ≡ redact_keys more t)
        → elim o [
          | none ↦ c ∷ redact_keys fuel s
          | some (key, rest) ↦ key ++ (codes "=[REDACTED]" ++ redact_keys fuel rest)
        ]
          ≡ elim o [
            | none ↦ c ∷ redact_keys more s
            | some (key, rest) ↦ key ++ (codes "=[REDACTED]" ++ redact_keys more rest)
          ]
    by_match none short same = ap (◌∷◌ c) (same s (omega (arith, h)) (omega (arith, g)))
    by_match (some (key, rest)) short same =
        ap (λ out. key ++ (codes "=[REDACTED]" ++ out))
          (same rest (omega (arith, h, short)) (omega (arith, g, short)))
