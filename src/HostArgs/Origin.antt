-- ===== src/HostArgs/Origin.antt =====
-- The native host runs only for the extension that is expected.
use arc_browser_mcp.Prelude.{
  ℕ, ◌≡◌, refl, sym, ap, subst, ◌∙◌, inl, inr, Bool, true, false, not, Option, none, List, [], ◌∷◌,
  map, length, ltb, if◌then◌else◌, All, arith,
}
use arc_browser_mcp.Text.{text_eq_iff}
use arc_browser_mcp.Interaction.{CodeUnits}
use arc_browser_mcp.Protocol.{Result, ok, fail}
use arc_browser_mcp.HostArgs.{
  ParsedHostArgs, normalize_origin, add_distinct, add_all, collect, safe_equal_string,
  check_origins, parse_native_host_args,
}
use arc_browser_mcp.HostArgs.Arguments.{
  rejected, collect-IsKnown, collect-HasOrigin, map-All, add_all-same, IsKnown, HasOrigin,
}

module _ (encode : CodeUnits → List ℕ) (expected_origin : CodeUnits) where
  safe_equal :
      (left right : CodeUnits)
      → safe_equal_string encode left right ≡ true
      → encode left ≡ encode right
  unfolding safe_equal_string
  safe_equal left right h = (text_eq_iff (encode left) (encode right)).0 (ground (arith, h))

  check_origins-ok :
      (origins : List CodeUnits) (w : Option CodeUnits) (r : ParsedHostArgs)
      → check_origins encode origins w expected_origin ≡ ok r
      → (encode r.origin ≡ encode (normalize_origin expected_origin))
        × All (λ arg. normalize_origin arg ≡ r.origin) origins
  unfolding check_origins add_all add_distinct
  check_origins-ok [] w r h = absurd (rejected h)
  check_origins-ok (first ∷ origins) w r h =
      by_tests (ltb 1 (length (add_all (map normalize_origin (first ∷ origins)) [])))
        (safe_equal_string encode (normalize_origin first) (normalize_origin expected_origin)) refl
        refl h
    where
      by_tests :
          (many equal : Bool)
          → ltb 1 (length (add_all (map normalize_origin (first ∷ origins)) [])) ≡ many
          → safe_equal_string encode (normalize_origin first) (normalize_origin expected_origin)
            ≡ equal
          → (if many
              then fail "ORIGIN_REJECTED"
              else if not equal
              then fail "ORIGIN_REJECTED"
              else ok (record { origin = normalize_origin first; parent_window = w }))
            ≡ ok r
          → (encode r.origin ≡ encode (normalize_origin expected_origin))
            × All (λ arg. normalize_origin arg ≡ r.origin) (first ∷ origins)
      by_tests true equal hm he g = absurd (rejected g)
      by_tests false false hm he g = absurd (rejected g)
      by_tests false true hm he g =
          let e : normalize_origin first ≡ r.origin = cc (g) in
          (
            ap encode (sym e)
                ∙ safe_equal (normalize_origin first) (normalize_origin expected_origin) he,
            (
              e,
              map-All r.origin origins (
                  subst (λ o. All (λ y. y ≡ o) (map normalize_origin origins)) e
                    (add_all-same (normalize_origin first) (map normalize_origin origins)
                      (ground (arith, hm)))),
            ),
          )

  check_origins_nil :
      (origins : List CodeUnits) (w : Option CodeUnits) (r : ParsedHostArgs)
      → check_origins encode origins w expected_origin ≡ ok r
      → origins ≡ []
      → ⊥
  unfolding check_origins
  check_origins_nil origins w r g e =
      rejected (subst (λ o. check_origins encode o w expected_origin ≡ ok r) e g)

  -- If the arguments are accepted: each is a "chrome-extension://" origin that is, with a "/" at its
  -- end, the origin of the result, or starts with "--parent-window=", or is white space; and the
  -- bytes of the result's origin are those of the expected one with a "/" at its end. At least one
  -- of them is such an origin.
  pub parse_native_host_args-IsExpected :
      (argv : List CodeUnits) (r : ParsedHostArgs)
      → parse_native_host_args encode argv expected_origin ≡ ok r
      → (encode r.origin ≡ encode (normalize_origin expected_origin))
        × All (IsKnown (λ arg. normalize_origin arg ≡ r.origin)) argv
        × HasOrigin argv
  unfolding parse_native_host_args
  parse_native_host_args-IsExpected argv r h = by_found (collect argv [] none) refl h
    where
      by_found :
          (found : Result (List CodeUnits × Option CodeUnits))
          → collect argv [] none ≡ found
          → elim found [
            | Result.err e ↦ Result.err e
            | Result.ok (origins, w) ↦ check_origins encode origins w expected_origin
          ]
            ≡ ok r
          → (encode r.origin ≡ encode (normalize_origin expected_origin))
            × All (IsKnown (λ arg. normalize_origin arg ≡ r.origin)) argv
            × HasOrigin argv
      by_found (Result.err e) c g = absurd (cc)
      by_found (Result.ok (origins, w)) c g =
          let (same, all) = check_origins-ok origins w r g in
          (
            same,
            (collect-IsKnown (λ arg. normalize_origin arg ≡ r.origin) argv [] origins none w c
                all).1,
            elim (collect-HasOrigin argv [] origins none w c) [
              | inl e ↦ absurd (check_origins_nil origins w r g e)
              | inr has ↦ has
            ],
          )
