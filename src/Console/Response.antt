-- ===== src/Console/Response.antt =====
-- The response holds the longest run of newest entries that fits.
use arc_browser_mcp.Prelude.{
  ℕ, zero, suc, ◌+◌, ◌/◌, ◌≤◌, ◌<◌, ◌≡◌, refl, sym, ap, subst, ◌∙◌, inl, inr, Bool, true, false,
  List, [], ◌∷◌, length, drop, arith, ltb, Bool-cases, choose, if◌then◌else◌,
}
use arc_browser_mcp.Console.{
  Entries, max_serialized_bytes, search_suffix, fits_from, cut_suffix, build_response,
  build_console_response, newest_of,
}

-- The first place from which on everything fits.
abbrev pub IsFirst : (ℕ → Bool) → ℕ → Type 0
IsFirst fits n = (fits n ≡ true) × ((i : ℕ) → i < n → fits i ≡ false)

module _ (fits : ℕ → Bool) (upward : (i j : ℕ) → i ≤ j → fits i ≡ true → fits j ≡ true) where
  below : (mid i : ℕ) → fits mid ≡ false → i ≤ mid → fits i ≡ false
  below mid i h le = elim (Bool-cases (fits i)) [
    | inl fit ↦ absurd (ground (arith, upward i mid le fit, h))
    | inr unfit ↦ unfit
  ]

  search_suffix-IsFirst :
      (fuel low high : ℕ)
      → low ≤ high
      → high ≤ low + fuel
      → ((i : ℕ) → i < low → fits i ≡ false)
      → fits high ≡ true
      → IsFirst fits (search_suffix fits fuel low high)
  unfolding search_suffix
  search_suffix-IsFirst zero low high le enough before after =
      let same : low ≡ high = omega (arith, le, enough) in (ap fits same ∙ after, before)
  search_suffix-IsFirst (suc fuel) low high le enough before after =
      let mid = (low + high) / 2 in
      let go : Bool → ℕ =
        λ b. search_suffix fits fuel (if b then low else suc mid) (if b then mid else high) in
      choose (IsFirst fits) (go (fits mid)) low (ltb low high)
        (λ lt. elim (Bool-cases (fits mid)) [
          | inl fit ↦ subst (IsFirst fits) (sym (ap go fit)) (
              search_suffix-IsFirst fuel low mid (ground (arith, lt)) (ground (arith, lt, enough))
                before fit)
          | inr unfit ↦ subst (IsFirst fits) (sym (ap go unfit)) (
              search_suffix-IsFirst fuel (suc mid) high (ground (arith, lt))
                (ground (arith, lt, enough)) (λ i l. below mid i unfit (omega (arith, l))) after)
        ])
        (λ stop. let same : low ≡ high = ground (arith, le, stop) in (ap fits same ∙ after, before))

-- The longest run of the newest entries that fits.
abbrev pub IsLongest : {E : Type 0} → (List E → ℕ) → List E → List E → Type 0
IsLongest measure requested out =
    (n : ℕ) × (out ≡ drop n requested)
    × (measure out ≤ max_serialized_bytes)
    × ((i : ℕ) → i < n → max_serialized_bytes < measure (drop i requested))

drop_all : {E : Type 0} (es : List E) → drop (length es) es ≡ []
drop_all [] = refl
drop_all (e ∷ es) = drop_all es

module _ {E : Type 0} (measure : List E → ℕ) (empty_fits : measure [] ≤ max_serialized_bytes)
    (shorter : (es : List E) (i j : ℕ) → i ≤ j → measure (drop j es) ≤ measure (drop i es)) where
  fits-upward :
      (es : List E) (i j : ℕ)
      → i ≤ j
      → fits_from measure es i ≡ true
      → fits_from measure es j ≡ true
  unfolding fits_from
  fits-upward es i j le h = ground (arith, shorter es i j le, h)

  all_dropped : (es : List E) → fits_from measure es (length es) ≡ true
  unfolding fits_from
  all_dropped es = ground (arith, ap measure (drop_all es), empty_fits)

  cut-IsFirst :
      (es : List E)
      → IsFirst
          (fits_from measure es)
          (search_suffix (fits_from measure es) (length es) 0 (length es))
  cut-IsFirst es =
      search_suffix-IsFirst (fits_from measure es) (fits-upward es) (length es) 0 (length es)
        (omega arith) (omega arith) (λ i l. absurd (omega (arith, l))) (all_dropped es)

  cut_suffix-IsLongest : (es : List E) → IsLongest measure es (cut_suffix measure es)
  unfolding cut_suffix fits_from
  cut_suffix-IsLongest es =
      let n = search_suffix (fits_from measure es) (length es) 0 (length es) in
      let (fit, before) = cut-IsFirst es in
      let small : measure (drop n es) ≤ max_serialized_bytes = ground (arith, fit) in
      let same : cut_suffix measure es ≡ drop n es = ground (arith, small) in
      (n, same, (omega (arith, ap measure same, small)), (λ i l. ground (arith, before i l)))

  abbrev IsAnswer : List E → List E × Bool → Type 0
  IsAnswer requested (out, truncated) =
      IsLongest measure requested out × (truncated ≡ ltb max_serialized_bytes (measure requested))

  pub build_response-IsLongest :
      (all_entries : List E) (limit : ℕ)
      → let (out, truncated) = build_response measure all_entries limit in
        IsLongest measure (newest_of limit all_entries) out
        × (truncated ≡ ltb max_serialized_bytes (measure (newest_of limit all_entries)))
  unfolding build_response
  build_response-IsLongest all_entries limit =
      let requested = newest_of limit all_entries in
      choose (IsAnswer requested) (cut_suffix measure requested, true) (requested, false)
        (ltb max_serialized_bytes (measure requested))
        (λ over. (cut_suffix-IsLongest requested, sym over))
        (λ fit. ((0, refl, ground (arith, fit), λ i l. absurd (omega (arith, l))), sym fit))

-- If the empty response fits and a response with fewer of the old entries is never longer: the
-- response holds the longest run of the newest entries, of those asked for, that fits the limit,
-- and it is marked as cut exactly if not all of those asked for fit.
pub build_console_response-IsLongest :
    (measure : Entries → ℕ) (empty_fits : measure [] ≤ max_serialized_bytes)
    (shorter : (es : Entries) (i j : ℕ) → i ≤ j → measure (drop j es) ≤ measure (drop i es))
    (all_entries : Entries) (limit : ℕ)
    → let (out, truncated) = build_console_response measure all_entries limit in
      IsLongest measure (newest_of limit all_entries) out
      × (truncated ≡ ltb max_serialized_bytes (measure (newest_of limit all_entries)))
unfolding build_console_response
build_console_response-IsLongest measure empty_fits shorter all_entries limit =
    build_response-IsLongest measure empty_fits shorter all_entries limit
