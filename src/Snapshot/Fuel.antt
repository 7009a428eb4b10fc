-- ===== src/Snapshot/Fuel.antt =====
-- The walk of `normalizeAxTree` ends within its fuel.
use arc_browser_mcp.Prelude.{
  ℕ, zero, suc, ◌+◌, ◌<◌, ◌≡◌, refl, ap, ◌∙◌, false, ◌||◌, Option, none, some, List, [], ◌∷◌,
  length, ltb, if-cong, arith,
}
use arc_browser_mcp.Json.{Json, get}
use arc_browser_mcp.Interaction.{CodeUnits}
use arc_browser_mcp.Redaction.{has_name}
use arc_browser_mcp.Snapshot.{is_yes, role_of}
use arc_browser_mcp.Snapshot.Tree.{
  ValueRules, node_of, is_flattened, NodeMap, find_node, by_id, starting, children_of, Walk,
  new_walk, visit_raw, visit, visit_all,
}
use arc_browser_mcp.Snapshot.Walking.{published, Rec, at}
use arc_browser_mcp.Snapshot.Counting.{
  left, left-marked_lt, left_none, publish-IsNext, visit_all-Progress,
}
use arc_browser_mcp.Snapshot.Budget.{walk}

module _ {S : Type 0} (lower stringify : CodeUnits → CodeUnits) (rules : ValueRules)
    (allocate_ref : CodeUnits → CodeUnits → S → Option CodeUnits × S) (max_nodes : ℕ)
    (nodes : NodeMap) where
  abbrev run : ℕ → Rec lower stringify rules allocate_ref max_nodes nodes
  run = at lower stringify rules allocate_ref max_nodes nodes

  -- The two ways to visit children agree once fewer than `bound` nodes are unvisited.
  abbrev Agree : (rec other : Rec lower stringify rules allocate_ref max_nodes nodes) → ℕ → Type 0
  Agree rec other bound =
      (ids : List CodeUnits) (depth : ℕ) (w : Walk S)
      → left w.visited nodes < bound
      → rec ids depth w ≡ other ids depth w

  visit_raw-cong :
      (rec other : Rec lower stringify rules allocate_ref max_nodes nodes)
      (children : List CodeUnits) (id : CodeUnits) (raw : Json) (depth : ℕ) (w : Walk S)
      → Agree rec other (suc (left w.visited nodes))
      → visit_raw lower stringify rules allocate_ref max_nodes rec children id raw depth w
        ≡ visit_raw lower stringify rules allocate_ref max_nodes other children id raw depth w
  unfolding visit_raw
  visit_raw-cong rec other children id raw depth w agree =
      let skip = agree children depth w (omega arith) in
      let next =
        publish-IsNext lower stringify rules allocate_ref max_nodes nodes id (role_of lower raw)
          (node_of lower rules raw) depth w in
      let same = ap (λ seen. left seen nodes) next.0 in
      if-cong (is_yes (get raw "ignored")) (λ e. skip)
        (λ e.
          if-cong (is_flattened (role_of lower raw) (node_of lower rules raw)) (λ f. skip)
            (λ f.
              agree children (suc depth)
                (published lower stringify rules allocate_ref max_nodes nodes id raw depth w)
                (omega (arith, same))))

  visit-cong :
      (rec other : Rec lower stringify rules allocate_ref max_nodes nodes) (id : CodeUnits)
      (depth : ℕ) (w : Walk S)
      → Agree rec other (left w.visited nodes)
      → visit lower stringify rules allocate_ref max_nodes rec nodes id depth w
        ≡ visit lower stringify rules allocate_ref max_nodes other nodes id depth w
  unfolding visit
  visit-cong rec other id depth w agree =
      if-cong (has_name id w.visited || ltb 100 depth) (λ stop. refl)
        (λ go. by_node (ground (arith, go)) (find_node id nodes) refl)
    where
      found : Rec lower stringify rules allocate_ref max_nodes nodes → Option Json → Walk S
      found visit_children o = elim o [
        | none ↦ record w { visited = id ∷ w.visited }
        | some raw ↦
            visit_raw lower stringify rules allocate_ref max_nodes visit_children
              (children_of nodes raw) id raw depth (record w { visited = id ∷ w.visited })
      ]

      by_node :
          has_name id w.visited ≡ false
          → (o : Option Json) → find_node id nodes ≡ o
          → found rec o ≡ found other o
      by_node fresh none e = refl
      by_node fresh (some raw) e =
          let fewer = left-marked_lt id raw w.visited nodes fresh e in
          visit_raw-cong rec other (children_of nodes raw) id raw depth
            (record w { visited = id ∷ w.visited })
            (λ ids d v h. agree ids d v (omega (arith, h, fewer)))

  -- Fuel for each unvisited node and one level more is enough.
  pub visit_all-enough :
      (fuel more : ℕ) (ids : List CodeUnits) (depth : ℕ) (w : Walk S)
      → left w.visited nodes < fuel
      → left w.visited nodes < more
      → run fuel ids depth w ≡ run more ids depth w
  unfolding visit_all
  visit_all-enough fuel more [] depth w h k = refl
  visit_all-enough zero more (id ∷ ids) depth w h k = absurd (omega arith)
  visit_all-enough (suc fuel) zero (id ∷ ids) depth w h k = absurd (omega arith)
  visit_all-enough (suc fuel) (suc more) (id ∷ ids) depth w h k =
      let same =
        visit-cong (λ children d v. run fuel children d v) (λ children d v. run more children d v)
          id depth w
          (λ children d v l.
            visit_all-enough fuel more children d v (omega (arith, h, l)) (omega (arith, k, l))) in
      let next =
        visit lower stringify rules allocate_ref max_nodes (λ children d v. run fuel children d v)
          nodes id depth w in
      let fewer =
        (visit_all-Progress lower stringify rules allocate_ref max_nodes nodes (suc fuel) (id ∷ [])
          depth w).0 in
      visit_all-enough (suc fuel) (suc more) ids depth next (omega (arith, h, fewer))
        (omega (arith, k, fewer))
      ∙ ap (run (suc more) ids depth) same

-- The walk ends within its fuel: with any fuel beyond it the walk is the same.
pub walk-enough_fuel :
    {S : Type 0} (lower stringify : CodeUnits → CodeUnits) (rules : ValueRules)
    (allocate_ref : CodeUnits → CodeUnits → S → Option CodeUnits × S) (raw_nodes : List Json)
    (max_nodes : ℕ) (refs : S) (more : ℕ)
    → let nodes = by_id raw_nodes [] in
      visit_all lower stringify rules allocate_ref max_nodes
        (suc (length nodes) + more)
        nodes
        (starting nodes)
        0
        (new_walk refs)
      ≡ walk lower stringify rules allocate_ref raw_nodes max_nodes refs
unfolding walk new_walk
walk-enough_fuel lower stringify rules allocate_ref raw_nodes max_nodes refs more =
    let nodes = by_id raw_nodes [] in
    visit_all-enough lower stringify rules allocate_ref max_nodes nodes (suc (length nodes) + more)
      (suc (length nodes)) (starting nodes) 0 (new_walk refs) (omega (arith, left_none nodes))
      (omega (arith, left_none nodes))
