-- ===== src/Snapshot/Longest.antt =====
-- The result of `normalizeAxTree` holds the longest prefix that fits the limit.
use arc_browser_mcp.Prelude.{
  or_default, ℕ, zero, suc, ◌+◌, ◌-◌, ◌/◌, ◌≤◌, ◌<◌, ◌≡◌, refl, sym, ap, subst, ◌∙◌, inl, inr, Bool,
  true, false, ◌||◌, ◌&&◌, ◌==◌, Option, some, List, [], ◌∷◌, length, take, arith, ltb, leb,
  Bool-cases, choose, if◌then◌else◌,
}
use arc_browser_mcp.Text.{codes}
use arc_browser_mcp.Json.{Json}
use arc_browser_mcp.Interaction.{CodeUnits}
use arc_browser_mcp.Redaction.{truncate}
use arc_browser_mcp.Snapshot.{SnapshotNode}
use arc_browser_mcp.Snapshot.Tree.{ValueRules, join}
use arc_browser_mcp.Snapshot.Counting.{walk-IsCounted}
use arc_browser_mcp.Snapshot.Budget.{
  snapshot_max_text_chars, snapshot_max_serialized_bytes, max_nodes_of, text_of, search_prefix,
  fits_prefix, drop_unfit, cut_prefix, within_budget, walk, normalize_ax_tree,
}

-- The last place up to `top` up to which everything fits.
abbrev IsLast : (ℕ → Bool) → ℕ → ℕ → Type 0
IsLast fits top n = (fits n ≡ true) × ((i : ℕ) → n < i → i ≤ top → fits i ≡ false)

module _ (fits : ℕ → Bool) (top : ℕ)
    (downward : (i j : ℕ) → i ≤ j → fits j ≡ true → fits i ≡ true) where
  above : (mid i : ℕ) → fits mid ≡ false → mid ≤ i → fits i ≡ false
  above mid i h le = elim (Bool-cases (fits i)) [
    | inl fit ↦ absurd (ground (arith, downward mid i le fit, h))
    | inr unfit ↦ unfit
  ]

  search_prefix-IsLast :
      (fuel low high : ℕ)
      → low ≤ high
      → high ≤ low + fuel
      → fits low ≡ true
      → ((i : ℕ) → high < i → i ≤ top → fits i ≡ false)
      → IsLast fits top (search_prefix fits fuel low high)
  unfolding search_prefix
  search_prefix-IsLast zero low high le enough fit after =
      (fit, λ i l. after i (omega (arith, le, enough, l)))
  search_prefix-IsLast (suc fuel) low high le enough fit after =
      let mid = (low + high + 1) / 2 in
      let go : Bool → ℕ =
        λ b. search_prefix fits fuel (if b then mid else low) (if b then high else mid - 1) in
      choose (IsLast fits top) (go (fits mid)) low (ltb low high)
        (λ lt. elim (Bool-cases (fits mid)) [
          | inl mid_fit ↦ subst (IsLast fits top) (sym (ap go mid_fit)) (
              search_prefix-IsLast fuel mid high (ground (arith, lt)) (ground (arith, lt, enough))
                mid_fit after)
          | inr unfit ↦ subst (IsLast fits top) (sym (ap go unfit)) (
              search_prefix-IsLast fuel low (mid - 1) (ground (arith, lt))
                (ground (arith, lt, enough)) fit
                (λ i l in_range. above mid i unfit (ground (arith, lt, l))))
        ])
        (λ stop. (fit, λ i l. after i (ground (arith, le, stop, l))))

-- The longest prefix of the nodes that fits, with its text.
abbrev pub IsLongestPrefix :
    (List SnapshotNode → CodeUnits → ℕ)
    → ℕ
    → List SnapshotNode
    → List CodeUnits
    → List SnapshotNode × CodeUnits
    → Type 0
IsLongestPrefix measure budget nodes lines (out, text) =
    (n : ℕ) × (out ≡ take n nodes)
    × (text ≡ text_of lines n)
    × (measure out text ≤ budget)
    × ((i : ℕ) → n < i → i ≤ length nodes → budget < measure (take i nodes) (text_of lines i))

take_all {ℓ} : {A : Type ℓ} (xs : List A) → take (length xs) xs ≡ xs
take_all [] = refl
take_all (x ∷ xs) = ap (◌∷◌ x) (take_all xs)

not_over :
    (budget size : ℕ) → 0 < budget → (ltb 0 budget && ltb budget size) ≡ false → size ≤ budget
not_over budget size positive fit = ground arith

module _ (measure : List SnapshotNode → CodeUnits → ℕ) (budget : ℕ)
    (empty_fits : measure [] [] ≤ budget)
    (shorter : (nodes : List SnapshotNode) (lines : List CodeUnits) (i j : ℕ)
      → i ≤ j
      → measure (take i nodes) (text_of lines i) ≤ measure (take j nodes) (text_of lines j)) where
  text_of_prefix :
      (lines : List CodeUnits) (n : ℕ) → (if n == 0 then [] else text_of lines n) ≡ text_of lines n
  unfolding text_of join truncate
  text_of_prefix lines n =
      choose (λ text. text ≡ text_of lines n) [] (text_of lines n) (n == 0)
        (λ e. let none_taken : n ≡ 0 = ground (arith, e) in sym (ap (text_of lines) none_taken))
        (λ e. refl)

  drop_unfit-fits :
      (nodes : List SnapshotNode) (text : CodeUnits)
      → measure nodes text ≤ budget
      → drop_unfit measure budget nodes text ≡ (nodes, text)
  unfolding drop_unfit
  drop_unfit-fits nodes text fit = ground (arith, fit)

  cut_prefix-IsLongest :
      (nodes : List SnapshotNode) (lines : List CodeUnits)
      → IsLongestPrefix measure budget nodes lines (cut_prefix measure budget nodes lines)
  unfolding cut_prefix fits_prefix text_of join truncate
  cut_prefix-IsLongest nodes lines =
      let fits = fits_prefix measure budget nodes lines in
      let n = search_prefix fits (length nodes) 0 (length nodes) in
      let (fit, after) =
        search_prefix-IsLast fits (length nodes)
          (λ i j le h. ground (arith, shorter nodes lines i j le, h)) (length nodes) 0
          (length nodes) (omega arith) (omega arith) (ground (arith, empty_fits))
          (λ i l k. absurd (omega (arith, l, k))) in
      let small : measure (take n nodes) (text_of lines n) ≤ budget = ground (arith, fit) in
      let same =
        ap (drop_unfit measure budget (take n nodes)) (text_of_prefix lines n)
        ∙ drop_unfit-fits (take n nodes) (text_of lines n) small in
      subst (IsLongestPrefix measure budget nodes lines) (sym same)
        (n, refl, refl, small, λ i l k. ground (arith, after i l k))

  whole-IsLongest :
      (nodes : List SnapshotNode) (lines : List CodeUnits)
      → length lines ≡ length nodes
      → measure nodes (text_of lines (length lines)) ≤ budget
      → IsLongestPrefix measure budget nodes lines (nodes, text_of lines (length lines))
  whole-IsLongest nodes lines same fit = (
    length nodes,
    sym (take_all nodes),
    ap (text_of lines) same,
    fit,
    λ i l k. absurd (omega (arith, l, k)),
  )

  -- One that is not marked as cut is whole.
  abbrev IsCut :
      List SnapshotNode → List CodeUnits → Bool → (List SnapshotNode × CodeUnits) × Bool → Type 0
  IsCut nodes lines truncated (out, cut) =
      IsLongestPrefix measure budget nodes lines out
      × (cut ≡ false → (out ≡ (nodes, text_of lines (length lines))) × (truncated ≡ false))

  within_budget-IsCut :
      (nodes : List SnapshotNode) (lines : List CodeUnits) (truncated : Bool)
      → length lines ≡ length nodes
      → 0 < budget
      → IsCut nodes lines truncated
          (within_budget (some measure) budget nodes lines (text_of lines (length lines)) truncated)
  unfolding within_budget
  within_budget-IsCut nodes lines truncated same positive =
      let text = text_of lines (length lines) in
      choose (IsCut nodes lines truncated) (cut_prefix measure budget nodes lines, true)
        ((nodes, text), truncated) (ltb 0 budget && ltb budget (measure nodes text))
        (λ over. (cut_prefix-IsLongest nodes lines, λ e. absurd (cc)))
        (λ fit. (
          whole-IsLongest nodes lines same (not_over budget (measure nodes text) positive fit),
          λ e. (refl, e),
        ))

text_of-all :
    (lines : List CodeUnits)
    → text_of lines (length lines) ≡ truncate (join (codes "\n") lines) snapshot_max_text_chars
unfolding text_of
text_of-all lines = rw (take_all lines) refl

second-false : (a b : Bool) → (a || b) ≡ false → b ≡ false
second-false a b h = ground (arith, h)

truncate-uncut :
    (whole : CodeUnits) (truncated : Bool)
    → (truncated || ltb snapshot_max_text_chars (length whole)) ≡ false
    → truncate whole snapshot_max_text_chars ≡ whole
unfolding truncate
truncate-uncut whole truncated h =
    let long = ltb snapshot_max_text_chars (length whole) in
    let short = second-false truncated long h in
    choose (λ text. text ≡ whole) (take snapshot_max_text_chars whole) whole long
      (λ over. absurd (cc)) (λ fit. refl)

all_kept :
    (max total kept : ℕ) (truncated long : Bool)
    → kept ≡ (if leb total max then total else max)
    → truncated ≡ ltb max total
    → (truncated || long) ≡ false
    → kept ≡ total
all_kept max total kept truncated long h k e = ground (arith, h, k, e)

-- If the limit is positive, the empty result fits it and a longer prefix is never smaller: the result
-- holds the longest prefix of the nodes emitted, with its text, that fits the limit; and one not
-- marked as truncated holds them all with all their text.
pub normalize_ax_tree-IsLongest :
    {S : Type 0} (lower stringify : CodeUnits → CodeUnits) (rules : ValueRules)
    (allocate_ref : CodeUnits → CodeUnits → S → Option CodeUnits × S)
    (max_nodes max_serialized_bytes : Option ℕ) (measure : ℕ → List SnapshotNode → CodeUnits → ℕ)
    (raw_nodes : List Json) (refs : S)
    (positive : 0 < or_default max_serialized_bytes snapshot_max_serialized_bytes)
    (empty_fits : (total : ℕ)
      → measure total [] [] ≤ or_default max_serialized_bytes snapshot_max_serialized_bytes)
    (shorter : (total : ℕ) (nodes : List SnapshotNode) (lines : List CodeUnits) (i j : ℕ)
      → i ≤ j
      → measure total (take i nodes) (text_of lines i)
        ≤ measure total (take j nodes) (text_of lines j))
    → let budget = or_default max_serialized_bytes snapshot_max_serialized_bytes in
      let w = walk lower stringify rules allocate_ref raw_nodes (max_nodes_of max_nodes) refs in
      let (result, left_refs) =
        normalize_ax_tree lower stringify rules allocate_ref max_nodes max_serialized_bytes
          (λ total. some (measure total))
          raw_nodes
          refs in
      IsLongestPrefix (measure w.total_nodes) budget w.nodes w.lines (result.nodes, result.text)
      × (result.included_nodes ≡ length result.nodes)
      × (result.truncated ≡ false
          → (result.text ≡ join (codes "\n") w.lines)
            × (result.included_nodes ≡ result.total_nodes))
unfolding normalize_ax_tree
normalize_ax_tree-IsLongest lower stringify rules allocate_ref max_nodes bytes measure raw_nodes
      refs positive empty_fits shorter =
    let budget = or_default bytes snapshot_max_serialized_bytes in
    let w = walk lower stringify rules allocate_ref raw_nodes (max_nodes_of max_nodes) refs in
    let whole = join (codes "\n") w.lines in
    let counted =
      walk-IsCounted lower stringify rules allocate_ref raw_nodes (max_nodes_of max_nodes) refs in
    let cut = w.truncated || ltb snapshot_max_text_chars (length whole) in
    let done =
      subst
        (λ text.
          IsCut (measure w.total_nodes) budget (empty_fits w.total_nodes) (shorter w.total_nodes)
            w.nodes w.lines cut
            (within_budget (some (measure w.total_nodes)) budget w.nodes w.lines text cut))
        (text_of-all w.lines)
        (within_budget-IsCut (measure w.total_nodes) budget (empty_fits w.total_nodes)
          (shorter w.total_nodes) w.nodes w.lines cut counted.1.0 positive) in
    (
      done.0,
      refl,
      λ e.
          let (out, uncut) = done.1 e in
          (
            ap (λ (o : List SnapshotNode × CodeUnits). o.1) out
                ∙ text_of-all w.lines
                ∙ truncate-uncut whole w.truncated uncut,
            ap (λ (o : List SnapshotNode × CodeUnits). length o.0) out
                ∙ all_kept (max_nodes_of max_nodes) w.total_nodes (length w.nodes) w.truncated
                    (ltb snapshot_max_text_chars (length whole)) counted.1.1.0 counted.1.1.1 uncut,
          ),
    )
