-- ===== src/Snapshot/Emitted.antt =====
-- What the walk of `normalizeAxTree` emits: each node at most once, and the result holds the first.
use arc_browser_mcp.Prelude.{
  ℕ, zero, suc, ◌≤◌, ◌≡◌, ◌≢◌, refl, sym, ap, subst, ◌∙◌, true, false, Option, none, some, List, [],
  ◌∷◌, ◌++◌, length, take, leb, choose, arith,
}
use arc_browser_mcp.Text.{text_eq_iff}
use arc_browser_mcp.Json.{Json, get}
use arc_browser_mcp.Interaction.{CodeUnits}
use arc_browser_mcp.Redaction.{has_name}
use arc_browser_mcp.Snapshot.{SnapshotNode, actionable_roles, is_yes, role_of}
use arc_browser_mcp.Snapshot.Tree.{
  ValueRules, node_of, is_flattened, NodeMap, find_node, by_id, starting, Walk, new_walk, emit,
  publish, render_line,
}
use arc_browser_mcp.Snapshot.Walking.{at, published, visit_all_rule}
use arc_browser_mcp.Snapshot.Counting.{IsCounted, emit-IsNext, walk-IsCounted}
use arc_browser_mcp.Snapshot.Budget.{walk}

-- A node that is emitted, with the id under which it was visited and its depth.
pub record Emission : Type 0 where
  pub id : CodeUnits
  pub node : SnapshotNode
  pub depth : ℕ

abbrev pub without_ref : SnapshotNode → SnapshotNode
without_ref node = record node { ref = none }

-- The emissions are listed with the last one first; their nodes in the order of the walk.
abbrev pub nodes_of : List Emission → List SnapshotNode
nodes_of [] = []
nodes_of (e ∷ es) = nodes_of es ++ e.node ∷ []

abbrev pub lines_of : (CodeUnits → CodeUnits) → List Emission → List CodeUnits
lines_of stringify [] = []
lines_of stringify (e ∷ es) = lines_of stringify es ++ render_line stringify e.node e.depth ∷ []

abbrev mark : {S : Type 0} → CodeUnits → Walk S → Walk S
mark id w = record w { visited = id ∷ w.visited }

-- No emission has the id.
abbrev pub IsNew : CodeUnits → List Emission → Type 0
IsNew id [] = Unit
IsNew id (e ∷ es) = (e.id ≢ id) × IsNew id es

-- The node is not ignored, and not one whose children stand in its place.
abbrev pub IsShown : (CodeUnits → CodeUnits) → ValueRules → Json → Type 0
IsShown lower rules raw =
    (is_yes (get raw "ignored") ≡ false)
    × (is_flattened (role_of lower raw) (node_of lower rules raw) ≡ false)

-- The ids are distinct, and each node is that of its id in the tree, its reference aside.
abbrev pub IsTrace : (CodeUnits → CodeUnits) → ValueRules → NodeMap → List Emission → Type 0
IsTrace lower rules nodes [] = Unit
IsTrace lower rules nodes (e ∷ es) =
    IsNew e.id es
    × ((raw : Json) × (find_node e.id nodes ≡ some raw)
        × IsShown lower rules raw
        × (without_ref e.node ≡ without_ref (node_of lower rules raw)))
    × IsTrace lower rules nodes es

abbrev AllVisited : List CodeUnits → List Emission → Type 0
AllVisited visited [] = Unit
AllVisited visited (e ∷ es) = (has_name e.id visited ≡ true) × AllVisited visited es

AllVisited-marked :
    (id : CodeUnits) (visited : List CodeUnits) (es : List Emission)
    → AllVisited visited es
    → AllVisited (id ∷ visited) es
unfolding has_name
AllVisited-marked id visited [] h = tt
AllVisited-marked id visited (e ∷ es) h = (ground (arith, h.0), AllVisited-marked id visited es h.1)

AllVisited-IsNew :
    (id : CodeUnits) (visited : List CodeUnits) (es : List Emission)
    → has_name id visited ≡ false
    → AllVisited visited es
    → IsNew id es
AllVisited-IsNew id visited [] fresh h = tt
AllVisited-IsNew id visited (e ∷ es) fresh h = (
  λ same. cc (ap (λ i. has_name i visited) same, h.0, fresh),
  AllVisited-IsNew id visited es fresh h.1,
)

take-snoc_full :
    {A : Type 0} (n : ℕ) (xs : List A) (x : A)
    → leb n (length (take n xs)) ≡ true
    → take n xs ≡ take n (xs ++ x ∷ [])
take-snoc_full zero xs x h = ground arith
take-snoc_full (suc n) [] x h = ground arith
take-snoc_full (suc n) (y ∷ ys) x h = ap (λ zs. y ∷ zs) (take-snoc_full n ys x (ground (arith, h)))

take-snoc_free :
    {A : Type 0} (n : ℕ) (xs : List A) (x : A)
    → leb n (length (take n xs)) ≡ false
    → take n xs ++ x ∷ [] ≡ take n (xs ++ x ∷ [])
take-snoc_free zero xs x h = ground arith
take-snoc_free (suc zero) [] x h = refl
take-snoc_free (suc (suc n)) [] x h = refl
take-snoc_free (suc n) (y ∷ ys) x h = ap (λ zs. y ∷ zs) (take-snoc_free n ys x (ground (arith, h)))

has_name_self : (id : CodeUnits) (visited : List CodeUnits) → has_name id (id ∷ visited) ≡ true
unfolding has_name
has_name_self id visited = ground (arith, (text_eq_iff id id).1 refl)

module _ {S : Type 0} (lower stringify : CodeUnits → CodeUnits) (rules : ValueRules)
    (allocate_ref : CodeUnits → CodeUnits → S → Option CodeUnits × S) (max_nodes : ℕ)
    (nodes : NodeMap) where
  -- What a walk has kept of its emissions.
  abbrev pub IsKept : List Emission → Walk S → Type 0
  IsKept es w =
      (w.total_nodes ≡ length es)
      × (w.nodes ≡ take max_nodes (nodes_of es))
      × (w.lines ≡ take max_nodes (lines_of stringify es))

  abbrev Shows : Walk S → Type 0
  Shows w =
      IsCounted max_nodes w
      × ((es : List Emission) × IsTrace lower rules nodes es
          × IsKept es w
          × AllVisited w.visited es)

  emit-IsKept :
      (e : Emission) (es : List Emission) (w : Walk S)
      → IsCounted max_nodes w
      → IsKept es w
      → IsKept (e ∷ es) (emit lower stringify rules allocate_ref max_nodes e.node e.depth w)
  unfolding emit
  emit-IsKept e es w counted (total, kept, lines) =
      let line = render_line stringify e.node e.depth in
      let by_nodes = ap (λ xs. leb max_nodes (length xs)) (sym kept) in
      let by_lines =
        ap (λ xs. leb max_nodes (length xs)) (sym lines) ∙ ap (leb max_nodes) counted.0 in
      choose (IsKept (e ∷ es)) (record w { total_nodes = suc w.total_nodes; truncated = true })
        (record w {
          nodes = w.nodes ++ e.node ∷ [];
          lines = w.lines ++ line ∷ [];
          total_nodes = suc w.total_nodes;
        })
        (leb max_nodes (length w.nodes))
        (λ full. (
          omega (arith, total),
          kept ∙ take-snoc_full max_nodes (nodes_of es) e.node (by_nodes ∙ full),
          lines ∙ take-snoc_full max_nodes (lines_of stringify es) line (by_lines ∙ full),
        ))
        (λ free. (
          omega (arith, total),
          ap (λ xs. xs ++ e.node ∷ []) kept
              ∙ take-snoc_free max_nodes (nodes_of es) e.node (by_nodes ∙ free),
          ap (λ xs. xs ++ line ∷ []) lines
              ∙ take-snoc_free max_nodes (lines_of stringify es) line (by_lines ∙ free),
        ))

  emit-Shows :
      (e : Emission) (raw : Json) (w : Walk S)
      → find_node e.id nodes ≡ some raw
      → IsShown lower rules raw
      → without_ref e.node ≡ without_ref (node_of lower rules raw)
      → has_name e.id w.visited ≡ false
      → Shows w
      → Shows (emit lower stringify rules allocate_ref max_nodes e.node e.depth (mark e.id w))
  emit-Shows e raw w found shown same fresh (counted, (es, trace, kept, seen)) =
      let (visits, (total, stays)) =
        emit-IsNext lower stringify rules allocate_ref max_nodes nodes e.node e.depth
          (mark e.id w) in
      let self : has_name e.id (e.id ∷ w.visited) ≡ true = has_name_self e.id w.visited in
      (
        stays counted,
        (
          e ∷ es,
          (AllVisited-IsNew e.id w.visited es fresh seen, (raw, found, shown, same), trace),
          emit-IsKept e es (mark e.id w) counted kept,
          subst (λ visited. AllVisited visited (e ∷ es)) (sym visits)
              (self, AllVisited-marked e.id w.visited es seen),
        ),
      )

  published-Shows :
      (id : CodeUnits) (raw : Json) (depth : ℕ) (w : Walk S)
      → has_name id w.visited ≡ false
      → find_node id nodes ≡ some raw
      → is_yes (get raw "ignored") ≡ false
      → is_flattened (role_of lower raw) (node_of lower rules raw) ≡ false
      → Shows w
      → Shows
          (published lower stringify rules allocate_ref max_nodes nodes id raw depth (mark id w))
  unfolding publish
  published-Shows id raw depth w fresh found read full h =
      let role = role_of lower raw in
      let node = node_of lower rules raw in
      let (ref, refs) = allocate_ref id role w.refs in
      choose Shows
        (emit lower stringify rules allocate_ref max_nodes (record node { ref = ref }) depth
          (mark id (record w { refs = refs })))
        (emit lower stringify rules allocate_ref max_nodes node depth (mark id w))
        (has_name role actionable_roles)
        (λ yes.
          emit-Shows (record { id = id; node = record node { ref = ref }; depth = depth }) raw
            (record w { refs = refs }) found (read, full) refl fresh h)
        (λ no.
          emit-Shows (record { id = id; node = node; depth = depth }) raw w found (read, full) refl
            fresh h)

  visit_all-Shows :
      (fuel : ℕ) (ids : List CodeUnits) (depth : ℕ) (w : Walk S)
      → Shows w
      → Shows (at lower stringify rules allocate_ref max_nodes nodes fuel ids depth w)
  visit_all-Shows =
      visit_all_rule lower stringify rules allocate_ref max_nodes nodes (λ w v. Shows w → Shows v)
        (λ w h. h) (λ u v w p q h. q (p h))
        (λ id w fresh (counted, (es, trace, kept, seen)).
          (counted, (es, trace, kept, AllVisited-marked id w.visited es seen)))
        published-Shows

walk-Shows :
    {S : Type 0} (lower stringify : CodeUnits → CodeUnits) (rules : ValueRules)
    (allocate_ref : CodeUnits → CodeUnits → S → Option CodeUnits × S) (raw_nodes : List Json)
    (max_nodes : ℕ) (refs : S)
    → Shows lower stringify rules allocate_ref max_nodes
        (by_id raw_nodes [])
        (walk lower stringify rules allocate_ref raw_nodes max_nodes refs)
unfolding walk new_walk
walk-Shows lower stringify rules allocate_ref raw_nodes max_nodes refs =
    let nodes = by_id raw_nodes [] in
    visit_all-Shows lower stringify rules allocate_ref max_nodes nodes (suc (length nodes))
      (starting nodes) 0 (new_walk refs)
      (
        (refl, (ground arith, ground arith)),
        ([], tt, (refl, nothing max_nodes, nothing max_nodes), tt),
      )
  where
    nothing : {A : Type 0} (n : ℕ) → [] ≡ take {A = A} n []
    nothing zero = refl
    nothing (suc n) = refl

-- The walk of a tree emits nodes of the tree, each at most once: there is a list of emissions with
-- distinct ids, each of the node that the tree has under its id (its reference aside), which is
-- neither ignored nor one whose children stand in its place. `total_nodes` is their number, at most
-- that of the tree's nodes; the result's nodes and lines are those of the first `max_nodes` emissions,
-- in order, and `truncated` tells whether there were more.
pub walk-IsKept :
    {S : Type 0} (lower stringify : CodeUnits → CodeUnits) (rules : ValueRules)
    (allocate_ref : CodeUnits → CodeUnits → S → Option CodeUnits × S) (raw_nodes : List Json)
    (max_nodes : ℕ) (refs : S)
    → let w = walk lower stringify rules allocate_ref raw_nodes max_nodes refs in
      (w.total_nodes ≤ length (by_id raw_nodes []))
      × IsCounted max_nodes w
      × ((es : List Emission) × IsTrace lower rules (by_id raw_nodes []) es
          × IsKept lower stringify rules allocate_ref max_nodes (by_id raw_nodes []) es w)
walk-IsKept lower stringify rules allocate_ref raw_nodes max_nodes refs =
    let nodes = by_id raw_nodes [] in
    let (few, counted) =
      walk-IsCounted lower stringify rules allocate_ref raw_nodes max_nodes refs in
    let (_, (es, trace, kept, _)) =
      walk-Shows lower stringify rules allocate_ref raw_nodes max_nodes refs in
    (few, counted, (es, trace, kept))
