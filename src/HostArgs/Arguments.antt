-- ===== src/HostArgs/Arguments.antt =====
-- src/bridge/nativeHostArgs.ts: the loop over the arguments, and the set of the origins.
use arc_browser_mcp.Prelude.{
  ℕ, ◌≤◌, ◌≡◌, refl, sym, ap, subst, ◌∙◌, ◌⊎◌, inl, inr, Bool, true, false, ◌||◌, Option, some,
  List, [], ◌∷◌, ◌++◌, map, length, drop, if◌then◌else◌, All, arith, Bool-cases,
}
use arc_browser_mcp.Text.{text_eq, text_eq_iff, is_space}
use arc_browser_mcp.Interaction.{CodeUnits}
use arc_browser_mcp.Protocol.{Result, ok, fail}
use arc_browser_mcp.Redaction.{trim, skip_spaces, drop_spaces}
use arc_browser_mcp.Redaction.Names.{IsBlank}
use arc_browser_mcp.HostArgs.{
  origin_prefix, parent_window_prefix, starts_with, normalize_origin, add_distinct, add_all,
  collect,
}

abbrev pub Starts : CodeUnits → CodeUnits → Type 0
Starts word s = (rest : CodeUnits) × (s ≡ word ++ rest)

pub starts_with-Starts : (word s : CodeUnits) → starts_with word s ≡ true → Starts word s
unfolding starts_with
starts_with-Starts [] s h = (s, refl)
starts_with-Starts (k ∷ word) [] h = absurd (ground (arith, h))
starts_with-Starts (k ∷ word) (c ∷ s) h =
    let (rest, e) = starts_with-Starts word s (ground (arith, h)) in
    let same : k ≡ c = ground (arith, h) in
    (rest, ap (λ t. c ∷ t) e ∙ ap (λ x. x ∷ (word ++ rest)) (sym same))

nonempty : {c : ℕ} → ◌≡◌ {A = CodeUnits} (c ∷ []) [] → ⊥
nonempty h = cc

drop_spaces_nil : (s : CodeUnits) → drop_spaces s ≡ [] → IsBlank s
unfolding drop_spaces
drop_spaces_nil [] h = tt
drop_spaces_nil (c ∷ s) h = by_rest (drop_spaces s) refl (drop_spaces_nil s) h
  where
    by_rest :
        (rest : CodeUnits)
        → drop_spaces s ≡ rest
        → (drop_spaces s ≡ [] → IsBlank s)
        → elim rest [ [] ↦ if is_space c then [] else c ∷ [] | d ∷ more ↦ c ∷ d ∷ more ] ≡ []
        → IsBlank (c ∷ s)
    by_rest [] e blank g = elim (Bool-cases (is_space c)) [
      | inl space ↦ (space, blank e)
      | inr other ↦ absurd (nonempty (ap (λ b. if b then [] else c ∷ []) (sym other) ∙ g))
    ]
    by_rest (d ∷ more) e blank g = absurd (cc)

trim_nil : (s : CodeUnits) → trim s ≡ [] → IsBlank s
unfolding trim skip_spaces
trim_nil [] h = tt
trim_nil (c ∷ s) h = elim (Bool-cases (is_space c)) [
  | inl space ↦ (
    space,
    trim_nil s (ap (λ b. drop_spaces (if b then skip_spaces s else c ∷ s)) (sym space) ∙ h),
  )
  | inr other ↦
      drop_spaces_nil (c ∷ s)
        (ap (λ b. drop_spaces (if b then skip_spaces s else c ∷ s)) (sym other) ∙ h)
]

length-add_distinct :
    (x : CodeUnits) (set : List CodeUnits) → length set ≤ length (add_distinct x set)
unfolding add_distinct
length-add_distinct x [] = omega arith
length-add_distinct x (y ∷ ys) = ground (arith, length-add_distinct x ys)

length-add_all : (xs set : List CodeUnits) → length set ≤ length (add_all xs set)
unfolding add_all
length-add_all [] set = omega arith
length-add_all (x ∷ xs) set =
    omega (arith, length-add_all xs (add_distinct x set), length-add_distinct x set)

-- A set of one item has been given no other.
pub add_all-same :
    (x : CodeUnits) (xs : List CodeUnits) → length (add_all xs (x ∷ [])) ≤ 1 → All (λ y. y ≡ x) xs
unfolding add_all add_distinct
add_all-same x [] h = tt
add_all-same x (y ∷ ys) h = elim (Bool-cases (text_eq x y)) [
  | inl same ↦ (
    sym ((text_eq_iff x y).0 same),
    add_all-same x ys
        (subst (λ b. length (add_all ys (if b then x ∷ [] else x ∷ y ∷ [])) ≤ 1) same h),
  )
  | inr other ↦ absurd (
      omega (
        arith,
        length-add_all ys (x ∷ y ∷ []),
        subst (λ b. length (add_all ys (if b then x ∷ [] else x ∷ y ∷ [])) ≤ 1) other h,
      ))
]

-- What the host is started with: the origin, the parent window or white space.
abbrev pub IsKnown : (CodeUnits → Type 0) → CodeUnits → Type 0
IsKnown P arg = (Starts origin_prefix arg × P arg) ⊎ (Starts parent_window_prefix arg) ⊎ IsBlank arg

All-split :
    (P : CodeUnits → Type 0) (xs : List CodeUnits) (x : CodeUnits)
    → All P (xs ++ x ∷ [])
    → All P xs × P x
All-split P [] x (h, all) = (tt, h)
All-split P (y ∷ ys) x (h, all) = let (rest, last) = All-split P ys x all in ((h, rest), last)

pub rejected : {A : Type 0} {a : A} → fail "ORIGIN_REJECTED" ≡ ok a → ⊥
rejected h = cc

-- The origins among the arguments are the same as those found.
pub collect-IsKnown :
    (P : CodeUnits → Type 0) (argv origins found : List CodeUnits) (w v : Option CodeUnits)
    → collect argv origins w ≡ ok (found, v)
    → All P found
    → All P origins × All (IsKnown P) argv
unfolding collect
collect-IsKnown P [] origins found w v h all =
    let e : origins ≡ found = cc (h) in (subst (All P) (sym e) all, tt)
collect-IsKnown P (arg ∷ argv) origins found w v h all =
    by_tests (starts_with origin_prefix arg) (starts_with parent_window_prefix arg)
      (text_eq (trim arg) []) refl refl refl h (λ o u g. collect-IsKnown P argv o found u v g all)
  where
    by_tests :
        (o p b : Bool)
        → starts_with origin_prefix arg ≡ o
        → starts_with parent_window_prefix arg ≡ p
        → text_eq (trim arg) [] ≡ b
        → (if o || p || b
            then collect argv
                (if o then origins ++ arg ∷ [] else origins)
                (if o then w else if p then some (drop (length parent_window_prefix) arg) else w)
            else fail "ORIGIN_REJECTED")
          ≡ ok (found, v)
        → ((o : List CodeUnits) (u : Option CodeUnits)
            → collect argv o u ≡ ok (found, v)
            → All P o × All (IsKnown P) argv)
        → All P origins × All (IsKnown P) (arg ∷ argv)
    by_tests true p b ho hp hb g again =
        let (before, after) = again (origins ++ arg ∷ []) w g in
        let (kept, last) = All-split P origins arg before in
        (kept, (inl (starts_with-Starts origin_prefix arg ho, last), after))
    by_tests false true b ho hp hb g again =
        let (before, after) = again origins (some (drop (length parent_window_prefix) arg)) g in
        (before, (inr (inl (starts_with-Starts parent_window_prefix arg hp)), after))
    by_tests false false true ho hp hb g again =
        let (before, after) = again origins w g in
        (before, (inr (inr (trim_nil arg ((text_eq_iff (trim arg) []).0 hb))), after))
    by_tests false false false ho hp hb g again = absurd (rejected g)

-- One of the arguments is an origin.
abbrev pub HasOrigin : List CodeUnits → Type 0
HasOrigin [] = ⊥
HasOrigin (arg ∷ argv) = Starts origin_prefix arg ⊎ HasOrigin argv

pub collect-HasOrigin :
    (argv origins found : List CodeUnits) (w v : Option CodeUnits)
    → collect argv origins w ≡ ok (found, v)
    → (found ≡ origins) ⊎ HasOrigin argv
unfolding collect
collect-HasOrigin [] origins found w v h = let e : found ≡ origins = cc (h) in inl e
collect-HasOrigin (arg ∷ argv) origins found w v h =
    elim (Bool-cases (starts_with origin_prefix arg)) [
      | inl is_origin ↦ inr (inl (starts_with-Starts origin_prefix arg is_origin))
      | inr other ↦
          by_test (starts_with parent_window_prefix arg || text_eq (trim arg) [])
            (if starts_with parent_window_prefix arg
              then some (drop (length parent_window_prefix) arg)
              else w)
            (subst (λ o. go o ≡ ok (found, v)) other h)
            (λ u g. collect-HasOrigin argv origins found u v g)
    ]
  where
    go : Bool → Result (List CodeUnits × Option CodeUnits)
    go o =
        if o || starts_with parent_window_prefix arg || text_eq (trim arg) []
        then collect argv (if o then origins ++ arg ∷ [] else origins) (
            if o
            then w
            else if starts_with parent_window_prefix arg
            then some (drop (length parent_window_prefix) arg)
            else w)
        else fail "ORIGIN_REJECTED"

    by_test :
        (b : Bool) (u : Option CodeUnits)
        → (if b then collect argv origins u else fail "ORIGIN_REJECTED") ≡ ok (found, v)
        → ((u : Option CodeUnits)
            → collect argv origins u ≡ ok (found, v)
            → (found ≡ origins) ⊎ HasOrigin argv)
        → (found ≡ origins) ⊎ (Starts origin_prefix arg ⊎ HasOrigin argv)
    by_test true u g again = elim (again u g) [ inl e ↦ inl e | inr has ↦ inr (inr has) ]
    by_test false u g again = absurd (rejected g)

pub map-All :
    (o : CodeUnits) (xs : List CodeUnits)
    → All (λ y. y ≡ o) (map normalize_origin xs)
    → All (λ arg. normalize_origin arg ≡ o) xs
map-All o [] h = tt
map-All o (x ∷ xs) (h, all) = (h, map-All o xs all)
