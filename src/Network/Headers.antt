-- ===== src/Network/Headers.antt =====
-- `projectHeaders`: the headers of an entry are bounded, and show no credential.
use arc_browser_mcp.Prelude.{
  ℕ, suc, ◌≤◌, ◌≡◌, refl, sym, subst, ◌⊎◌, inl, inr, false, Option, none, some, List, [], ◌∷◌,
  String, length, leb, if◌then◌else◌, choose, Bool-cases, arith,
}
use text.Mathlib.Text.{◌==◌ as str_eq}
use arc_browser_mcp.Text.{codes}
use arc_browser_mcp.Json.{Json, null, bool, number, numeral, string, array, object, entries}
use arc_browser_mcp.Interaction.{CodeUnits}
use arc_browser_mcp.Interaction.Utf8.{utf16}
use arc_browser_mcp.Redaction.{
  HeaderMap, redacted_value, truncate, is_sensitive_header_name, set_header, redact_value,
  redact_headers,
}
use arc_browser_mcp.Redaction.Names.{IsSecret, LowersAscii, secret_found}
use arc_browser_mcp.Redaction.Headers.{
  AllHeaders, AlikeHeaders, empty, length-truncate, set_header-AllHeaders, length-set_header,
  set_header-AlikeHeaders, redact_loop-AllHeaders, length-redact_loop, redact_loop_alike,
}
use arc_browser_mcp.Network.{
  network_header_value_limit_chars, network_max_headers_per_direction, project_loop,
  project_headers,
}

-- A header whose name is a credential's shows only that it was redacted; all are bounded.
abbrev pub IsSafe : CodeUnits → CodeUnits → Type 0
IsSafe name value =
    (IsSecret name → value ≡ redacted_value)
    × (length value ≤ network_header_value_limit_chars)
    × (length name ≤ 128)

abbrev pub IsSafeMap : HeaderMap → Type 0
IsSafeMap headers = AllHeaders IsSafe headers × (length headers ≤ network_max_headers_per_direction)

is_text-cases :
    (value : Json)
    → ((s : String) × (value ≡ string s))
      ⊎ ((name : String) (rest : List (String × Json)) (count : ℕ) (collected : HeaderMap)
          → project_loop ((name, value) ∷ rest) count collected ≡ (
              if leb network_max_headers_per_direction count
              then collected
              else project_loop rest count collected))
unfolding project_loop
is_text-cases (string s) = inl (s, refl)
is_text-cases null = inr (λ name rest count collected. refl)
is_text-cases (bool b) = inr (λ name rest count collected. refl)
is_text-cases (number n) = inr (λ name rest count collected. refl)
is_text-cases (numeral s) = inr (λ name rest count collected. refl)
is_text-cases (array vs) = inr (λ name rest count collected. refl)
is_text-cases (object fs) = inr (λ name rest count collected. refl)

-- What was collected so far, after `count` headers.
abbrev IsCollected : ℕ → HeaderMap → Type 0
IsCollected count headers =
    AllHeaders (λ name value. length name ≤ 128) headers
    × (length headers ≤ count)
    × (count ≤ network_max_headers_per_direction)

abbrev IsBounded : HeaderMap → Type 0
IsBounded headers =
    AllHeaders (λ name value. length name ≤ 128) headers
    × (length headers ≤ network_max_headers_per_direction)

add-IsCollected :
    (name value : CodeUnits) (count : ℕ) (headers : HeaderMap)
    → leb network_max_headers_per_direction count ≡ false
    → IsCollected count headers
    → IsCollected (suc count) (set_header (truncate name 128) value headers)
add-IsCollected name value count headers room (short, few, le) = (
  set_header-AllHeaders (λ n v. length n ≤ 128) (truncate name 128) value headers
      (length-truncate name 128) short,
  omega (arith, length-set_header (truncate name 128) value headers, few),
  ground (arith, room),
)

project_loop-IsBounded :
    (rest : List (String × Json)) (count : ℕ) (collected : HeaderMap)
    → IsCollected count collected
    → IsBounded (project_loop rest count collected)
unfolding project_loop
project_loop-IsBounded [] count collected (short, few, le) = (short, omega (arith, few, le))
project_loop-IsBounded ((name, value) ∷ rest) count collected h = elim (is_text-cases value) [
  | inr skips ↦ subst IsBounded (sym (skips name rest count collected)) (
      choose IsBounded collected (project_loop rest count collected)
        (leb network_max_headers_per_direction count) (λ full. (h.0, omega (arith, h.1)))
        (λ room. project_loop-IsBounded rest count collected h))
  | inl (s, e) ↦
      let next = set_header (truncate (utf16 (codes name)) 128) (utf16 (codes s)) collected in
      let skipped = project_loop rest count collected in
      let taken = project_loop rest (suc count) next in
      subst (λ v. IsBounded (project_loop ((name, v) ∷ rest) count collected)) (sym e)
        (choose IsBounded collected (if str_eq name "" then skipped else taken)
          (leb network_max_headers_per_direction count) (λ full. (h.0, omega (arith, h.1)))
          (λ room.
            choose IsBounded skipped taken (str_eq name "")
              (λ empty_name. project_loop-IsBounded rest count collected h)
              (λ named.
                project_loop-IsBounded rest (suc count) next
                  (add-IsCollected (utf16 (codes name)) (utf16 (codes s)) count collected room h))))
]

module _ (lower : CodeUnits → CodeUnits) (lowers : LowersAscii lower) where
  redact_value-IsSafe :
      (name value : CodeUnits)
      → length name ≤ 128
      → IsSafe name (redact_value lower network_header_value_limit_chars name value)
  unfolding redact_value
  redact_value-IsSafe name value short = (
    (λ secret. rw (secret_found lower lowers name secret) refl),
    choose (λ v. length v ≤ network_header_value_limit_chars) redacted_value
        (truncate value network_header_value_limit_chars) (is_sensitive_header_name lower name)
        (λ hit. omega arith) (λ miss. length-truncate value network_header_value_limit_chars),
    short,
  )

  redact_all-IsSafe :
      (headers : HeaderMap)
      → AllHeaders (λ name value. length name ≤ 128) headers
      → AllHeaders
          (λ name value.
            IsSafe name (redact_value lower network_header_value_limit_chars name value))
          headers
  redact_all-IsSafe [] h = tt
  redact_all-IsSafe ((name, value) ∷ headers) (h, hs) =
      (redact_value-IsSafe name value h, redact_all-IsSafe headers hs)

  pub project_headers-IsSafe : (raw : Option Json) → IsSafeMap (project_headers lower raw)
  unfolding project_headers redact_headers
  project_headers-IsSafe none = (tt, omega arith)
  project_headers-IsSafe (some raw) =
      let collected = project_loop (entries raw) 0 [] in
      let (short, few) = project_loop-IsBounded (entries raw) 0 [] (tt, omega arith, omega arith) in
      (
        redact_loop-AllHeaders lower network_header_value_limit_chars IsSafe collected []
            (redact_all-IsSafe collected short) tt,
        omega (arith, length-redact_loop lower network_header_value_limit_chars collected [], few),
      )

-- Entries of header objects that differ at most in the texts of properties whose names,
-- cut to 128 code units, are those of credentials.
pub data AlikeEntries : List (String × Json) → List (String × Json) → Type 0 where
  none_left : AlikeEntries [] []
  same :
      (name : String) (value : Json) (rest rest2 : List (String × Json))
      → AlikeEntries rest rest2
      → AlikeEntries ((name, value) ∷ rest) ((name, value) ∷ rest2)
  secret :
      (name a b : String) (rest rest2 : List (String × Json))
      → IsSecret (truncate (utf16 (codes name)) 128)
      → AlikeEntries rest rest2
      → AlikeEntries ((name, string a) ∷ rest) ((name, string b) ∷ rest2)

abbrev Collects : HeaderMap → HeaderMap → Type 0
Collects = AlikeHeaders IsSecret

-- One text on both sides, with what follows it.
text_alike :
    (name a b : String) (rest rest2 : List (String × Json)) (count : ℕ) (hs hs2 : HeaderMap)
    → Collects hs hs2
    → Collects (project_loop rest count hs) (project_loop rest2 count hs2)
    → Collects
        (project_loop rest
          (suc count)
          (set_header (truncate (utf16 (codes name)) 128) (utf16 (codes a)) hs))
        (project_loop rest2
          (suc count)
          (set_header (truncate (utf16 (codes name)) 128) (utf16 (codes b)) hs2))
    → Collects
        (project_loop ((name, string a) ∷ rest) count hs)
        (project_loop ((name, string b) ∷ rest2) count hs2)
unfolding project_loop
text_alike name a b rest rest2 count hs hs2 alike skipped taken =
    elim (Bool-cases (leb network_max_headers_per_direction count)) [
      | inl full ↦ rw full alike
      | inr room ↦ rw room (elim (Bool-cases (str_eq name "")) [
        | inl empty_name ↦ rw empty_name skipped
        | inr named ↦ rw named taken
      ])
    ]

project_loop-alike :
    (es es2 : List (String × Json)) (count : ℕ) (hs hs2 : HeaderMap)
    → AlikeEntries es es2
    → Collects hs hs2
    → Collects (project_loop es count hs) (project_loop es2 count hs2)
project_loop-alike _ _ count hs hs2 none_left h = unfold project_loop in h
project_loop-alike _ _ count hs hs2 (secret name a b rest rest2 hidden alike) h =
    text_alike name a b rest rest2 count hs hs2 h
      (project_loop-alike rest rest2 count hs hs2 alike h)
      (project_loop-alike rest rest2 (suc count)
        (set_header (truncate (utf16 (codes name)) 128) (utf16 (codes a)) hs)
        (set_header (truncate (utf16 (codes name)) 128) (utf16 (codes b)) hs2) alike
        (set_header-AlikeHeaders IsSecret (truncate (utf16 (codes name)) 128) (utf16 (codes a))
          (utf16 (codes b)) hs hs2 (inl hidden) h))
project_loop-alike _ _ count hs hs2 (same name value rest rest2 alike) h =
    elim (is_text-cases value) [
      | inl (s, e) ↦
          let key = truncate (utf16 (codes name)) 128 in
          subst
            (λ v.
              Collects (project_loop ((name, v) ∷ rest) count hs)
                (project_loop ((name, v) ∷ rest2) count hs2))
            (sym e)
            (text_alike name s s rest rest2 count hs hs2 h
              (project_loop-alike rest rest2 count hs hs2 alike h)
              (project_loop-alike rest rest2 (suc count) (set_header key (utf16 (codes s)) hs)
                (set_header key (utf16 (codes s)) hs2) alike
                (set_header-AlikeHeaders IsSecret key (utf16 (codes s)) (utf16 (codes s)) hs hs2
                  (inr refl) h)))
      | inr skips ↦
          rw (skips name rest count hs, skips name rest2 count hs2)
            (elim (Bool-cases (leb network_max_headers_per_direction count)) [
              | inl full ↦ rw full h
              | inr room ↦ rw room (project_loop-alike rest rest2 count hs hs2 alike h)
            ])
    ]

-- The headers are both undefined, or their entries are alike.
abbrev pub AlikeRaw : Option Json → Option Json → Type 0
AlikeRaw none none = Unit
AlikeRaw (some raw) (some raw2) = AlikeEntries (entries raw) (entries raw2)
AlikeRaw _ _ = ⊥

pub project_headers-hides :
    (lower : CodeUnits → CodeUnits)
    → LowersAscii lower
    → (raw raw2 : Option Json) → AlikeRaw raw raw2
    → project_headers lower raw ≡ project_headers lower raw2
unfolding project_headers redact_headers
project_headers-hides lower lowers none none h = refl
project_headers-hides lower lowers none (some raw2) h = absurd h
project_headers-hides lower lowers (some raw) none h = absurd h
project_headers-hides lower lowers (some raw) (some raw2) h =
    redact_loop_alike lower network_header_value_limit_chars IsSecret (secret_found lower lowers)
      (project_loop (entries raw) 0 []) (project_loop (entries raw2) 0 []) []
      (project_loop-alike (entries raw) (entries raw2) 0 [] [] h empty)
