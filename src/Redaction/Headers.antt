-- ===== src/Redaction/Headers.antt =====
-- src/security/Redaction.ts: what `redactHeaders` gives, and that it hides the values it redacts.
use arc_browser_mcp.Prelude.{
  ℕ, suc, ◌+◌, ◌≤◌, ◌≡◌, refl, sym, ap, subst, ◌∙◌, ◌⊎◌, inl, inr, true, [], ◌∷◌, length,
  length-take, arith, Bool-cases,
}
use arc_browser_mcp.Text.{codes, text_eq, text_eq_iff}
use arc_browser_mcp.Interaction.{CodeUnits}
use arc_browser_mcp.Redaction.{
  HeaderMap, truncate, is_sensitive_header_name, put, set_header, redact_value, redact_loop,
}

pub length-truncate :
    (value : CodeUnits) (max_chars : ℕ) → length (truncate value max_chars) ≤ max_chars
unfolding truncate
length-truncate value max_chars = ground (arith, length-take max_chars value)

-- A predicate on the headers of a map.
abbrev pub AllHeaders : (CodeUnits → CodeUnits → Type 0) → HeaderMap → Type 0
AllHeaders P [] = Unit
AllHeaders P ((name, value) ∷ headers) = P name value × AllHeaders P headers

module _ (P : CodeUnits → CodeUnits → Type 0) where
  pub put-AllHeaders :
      (name value : CodeUnits) (headers : HeaderMap)
      → P name value
      → AllHeaders P headers
      → AllHeaders P (put name value headers)
  unfolding put
  put-AllHeaders name value [] h all = (h, tt)
  put-AllHeaders name value ((other, old) ∷ headers) h (h2, all) =
      elim (Bool-cases (text_eq other name)) [
        | inl hit ↦ rw hit (subst (λ n. P n value) (sym ((text_eq_iff other name).0 hit)) h, all)
        | inr miss ↦ rw miss (h2, put-AllHeaders name value headers h all)
      ]

  pub set_header-AllHeaders :
      (name value : CodeUnits) (headers : HeaderMap)
      → P name value
      → AllHeaders P headers
      → AllHeaders P (set_header name value headers)
  unfolding set_header
  set_header-AllHeaders name value headers h all =
      elim (Bool-cases (text_eq (codes "__proto__") name)) [
        | inl hit ↦ rw hit all
        | inr miss ↦ rw miss (put-AllHeaders name value headers h all)
      ]

length-put :
    (name value : CodeUnits) (headers : HeaderMap)
    → length (put name value headers) ≤ suc (length headers)
unfolding put
length-put name value [] = omega arith
length-put name value ((other, old) ∷ headers) = ground (arith, length-put name value headers)

pub length-set_header :
    (name value : CodeUnits) (headers : HeaderMap)
    → length (set_header name value headers) ≤ suc (length headers)
unfolding set_header
length-set_header name value headers = ground (arith, length-put name value headers)

-- Two maps with the same names and the same values, but those that `hidden` allows to differ.
pub data AlikeHeaders (hidden : CodeUnits → Type 0) : HeaderMap → HeaderMap → Type 0 where
  empty : AlikeHeaders hidden [] []
  header :
      (name v w : CodeUnits) (hs hs2 : HeaderMap)
      → hidden name ⊎ (v ≡ w)
      → AlikeHeaders hidden hs hs2
      → AlikeHeaders hidden ((name, v) ∷ hs) ((name, w) ∷ hs2)

module _ (hidden : CodeUnits → Type 0) where
  put-AlikeHeaders :
      (name v w : CodeUnits) (hs hs2 : HeaderMap)
      → hidden name ⊎ (v ≡ w)
      → AlikeHeaders hidden hs hs2
      → AlikeHeaders hidden (put name v hs) (put name w hs2)
  unfolding put
  put-AlikeHeaders name v w _ _ h empty = header name v w [] [] h empty
  put-AlikeHeaders name v w _ _ h (header other x y hs hs2 g alike) =
      elim (Bool-cases (text_eq other name)) [
        | inl hit ↦ rw hit (
            header other v w hs hs2
              (subst (λ n. hidden n ⊎ (v ≡ w)) (sym ((text_eq_iff other name).0 hit)) h) alike)
        | inr miss ↦ rw miss (
            header other x y (put name v hs) (put name w hs2) g
              (put-AlikeHeaders name v w hs hs2 h alike))
      ]

  pub set_header-AlikeHeaders :
      (name v w : CodeUnits) (hs hs2 : HeaderMap)
      → hidden name ⊎ (v ≡ w)
      → AlikeHeaders hidden hs hs2
      → AlikeHeaders hidden (set_header name v hs) (set_header name w hs2)
  unfolding set_header
  set_header-AlikeHeaders name v w hs hs2 h alike =
      elim (Bool-cases (text_eq (codes "__proto__") name)) [
        | inl hit ↦ rw hit alike
        | inr miss ↦ rw miss (put-AlikeHeaders name v w hs hs2 h alike)
      ]

module _ (lower : CodeUnits → CodeUnits) (max : ℕ) where
  pub redact_loop-AllHeaders :
      (P : CodeUnits → CodeUnits → Type 0) (headers out : HeaderMap)
      → AllHeaders (λ name value. P name (redact_value lower max name value)) headers
      → AllHeaders P out
      → AllHeaders P (redact_loop lower max headers out)
  unfolding redact_loop
  redact_loop-AllHeaders P [] out h all = all
  redact_loop-AllHeaders P ((name, value) ∷ headers) out (h, hs) all =
      redact_loop-AllHeaders P headers (set_header name (redact_value lower max name value) out) hs
        (set_header-AllHeaders P name (redact_value lower max name value) out h all)

  pub length-redact_loop :
      (headers out : HeaderMap)
      → length (redact_loop lower max headers out) ≤ length headers + length out
  unfolding redact_loop
  length-redact_loop [] out = omega arith
  length-redact_loop ((name, value) ∷ headers) out =
      let next = set_header name (redact_value lower max name value) out in
      omega (
        arith,
        length-redact_loop headers next,
        length-set_header name (redact_value lower max name value) out,
      )

  module _ (hidden : CodeUnits → Type 0)
      (found : (name : CodeUnits) → hidden name → is_sensitive_header_name lower name ≡ true) where
    redact_value_alike :
        (name v w : CodeUnits)
        → hidden name ⊎ (v ≡ w)
        → redact_value lower max name v ≡ redact_value lower max name w
    unfolding redact_value
    redact_value_alike name v w (inl h) = rw (found name h) refl
    redact_value_alike name v w (inr e) = ap (redact_value lower max name) e

    -- The values of hidden headers leave no trace.
    pub redact_loop_alike :
        (hs hs2 out : HeaderMap)
        → AlikeHeaders hidden hs hs2
        → redact_loop lower max hs out ≡ redact_loop lower max hs2 out
    unfolding redact_loop
    redact_loop_alike _ _ out empty = refl
    redact_loop_alike _ _ out (header name v w hs hs2 h alike) =
        ap (λ value. redact_loop lower max hs (set_header name value out))
          (redact_value_alike name v w h)
        ∙ redact_loop_alike hs hs2 (set_header name (redact_value lower max name w) out) alike
