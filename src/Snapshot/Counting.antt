-- ===== src/Snapshot/Counting.antt =====
-- The walk of `normalizeAxTree` visits each node at most once, ends, and counts what it emits.
use arc_browser_mcp.Prelude.{
  ℕ, suc, ◌+◌, ◌≤◌, ◌≡◌, refl, sym, ap, ◌∙◌, inl, inr, true, false, Option, some, List, [], ◌∷◌,
  ◌++◌, length, length-append, ltb, leb, if◌then◌else◌, choose, arith, Bool-cases,
}
use arc_browser_mcp.Text.{text_eq, text_eq_iff}
use arc_browser_mcp.Json.{Json}
use arc_browser_mcp.Interaction.{CodeUnits}
use arc_browser_mcp.Redaction.{has_name}
use arc_browser_mcp.Snapshot.{SnapshotNode, actionable_roles, role_of}
use arc_browser_mcp.Snapshot.Tree.{
  ValueRules, node_of, NodeMap, find_node, by_id, starting, Walk, new_walk, emit, publish,
  render_line,
}
use arc_browser_mcp.Snapshot.Walking.{at, visit_all_rule}
use arc_browser_mcp.Snapshot.Budget.{walk}

-- How many nodes are not visited.
abbrev pub left : List CodeUnits → NodeMap → ℕ
left visited [] = 0
left visited ((id, raw) ∷ nodes) = (if has_name id visited then 0 else 1) + left visited nodes

pub left-marked_le :
    (x : CodeUnits) (visited : List CodeUnits) (nodes : NodeMap)
    → left (x ∷ visited) nodes ≤ left visited nodes
unfolding has_name
left-marked_le x visited [] = omega arith
left-marked_le x visited ((id, raw) ∷ nodes) = ground (arith, left-marked_le x visited nodes)

pub left-marked_lt :
    (x : CodeUnits) (raw : Json) (visited : List CodeUnits) (nodes : NodeMap)
    → has_name x visited ≡ false
    → find_node x nodes ≡ some raw
    → suc (left (x ∷ visited) nodes) ≤ left visited nodes
unfolding has_name find_node
left-marked_lt x raw visited [] fresh found = absurd (cc)
left-marked_lt x raw visited ((id, other) ∷ nodes) fresh found = elim (Bool-cases (text_eq id x)) [
  | inl same ↦
      let e = (text_eq_iff id x).0 same in
      let unseen : has_name id visited ≡ false = ap (λ i. has_name i visited) e ∙ fresh in
      let self = (text_eq_iff x id).1 (sym e) in
      ground (arith, unseen, self, left-marked_le x visited nodes)
  | inr differs ↦
      let later = ap (λ b. if b then some other else find_node x nodes) (sym differs) ∙ found in
      ground (arith, left-marked_lt x raw visited nodes fresh later)
]

pub left_none : (nodes : NodeMap) → left [] nodes ≡ length nodes
unfolding has_name
left_none [] = refl
left_none ((id, raw) ∷ nodes) = omega (arith, left_none nodes)

-- The nodes kept are those emitted up to the limit, one line each.
abbrev pub IsCounted : {S : Type 0} → ℕ → Walk S → Type 0
IsCounted max_nodes w =
    (length w.lines ≡ length w.nodes)
    × ((length w.nodes ≡ (if leb w.total_nodes max_nodes then w.total_nodes else max_nodes))
        × (w.truncated ≡ ltb max_nodes w.total_nodes))

module _ {S : Type 0} (lower stringify : CodeUnits → CodeUnits) (rules : ValueRules)
    (allocate_ref : CodeUnits → CodeUnits → S → Option CodeUnits × S) (max_nodes : ℕ)
    (nodes : NodeMap) where
  -- The walk `v` emitted one node more than `w`, and visited the same.
  abbrev pub IsNext : Walk S → Walk S → Type 0
  IsNext w v =
      (v.visited ≡ w.visited)
      × ((v.total_nodes ≡ suc w.total_nodes) × (IsCounted max_nodes w → IsCounted max_nodes v))

  pub emit-IsNext :
      (node : SnapshotNode) (depth : ℕ) (w : Walk S)
      → IsNext w (emit lower stringify rules allocate_ref max_nodes node depth w)
  unfolding emit
  emit-IsNext node depth w =
      choose (IsNext w) (record w { total_nodes = suc w.total_nodes; truncated = true })
        (record w {
          nodes = w.nodes ++ node ∷ [];
          lines = w.lines ++ render_line stringify node depth ∷ [];
          total_nodes = suc w.total_nodes;
        })
        (leb max_nodes (length w.nodes))
        (λ full.
          (refl, (refl, λ h. (h.0, (ground (arith, full, h.1.0), ground (arith, full, h.1.0))))))
        (λ free. (
          refl,
          (
            refl,
            λ h. (
              omega (
                arith,
                h.0,
                length-append w.lines (render_line stringify node depth ∷ []),
                length-append w.nodes (node ∷ []),
              ),
              (
                ground (arith, free, h.1.0, length-append w.nodes (node ∷ [])),
                ground (arith, free, h.1.0, h.1.1),
              ),
            ),
          ),
        ))

  pub publish-IsNext :
      (id role : CodeUnits) (node : SnapshotNode) (depth : ℕ) (w : Walk S)
      → IsNext w (publish lower stringify rules allocate_ref max_nodes id role node depth w)
  unfolding publish
  publish-IsNext id role node depth w =
      let (ref, refs) = allocate_ref id role w.refs in
      choose (IsNext w)
        (emit lower stringify rules allocate_ref max_nodes (record node { ref = ref }) depth
          (record w { refs = refs }))
        (emit lower stringify rules allocate_ref max_nodes node depth w)
        (has_name role actionable_roles)
        (λ yes. emit-IsNext (record node { ref = ref }) depth (record w { refs = refs }))
        (λ no. emit-IsNext node depth w)

  -- Nodes are only visited and counted, and each counted one was unvisited.
  abbrev pub Progress : Walk S → Walk S → Type 0
  Progress w v =
      (left v.visited nodes ≤ left w.visited nodes)
      × ((v.total_nodes + left v.visited nodes ≤ w.total_nodes + left w.visited nodes)
          × (IsCounted max_nodes w → IsCounted max_nodes v))

  pub visit_all-Progress :
      (fuel : ℕ) (ids : List CodeUnits) (depth : ℕ) (w : Walk S)
      → Progress w (at lower stringify rules allocate_ref max_nodes nodes fuel ids depth w)
  visit_all-Progress =
      visit_all_rule lower stringify rules allocate_ref max_nodes nodes Progress
        (λ w. (omega arith, (omega arith, λ h. h)))
        (λ u v w p q.
          (omega (arith, p.0, q.0), (omega (arith, p.1.0, q.1.0), λ h. q.1.1 (p.1.1 h))))
        (λ id w fresh. (
          left-marked_le id w.visited nodes,
          (omega (arith, left-marked_le id w.visited nodes), λ h. h),
        ))
        (λ id raw depth w fresh found read full.
          let next =
            publish-IsNext id (role_of lower raw) (node_of lower rules raw) depth
              (record w { visited = id ∷ w.visited }) in
          let fewer = left-marked_lt id raw w.visited nodes fresh found in
          let same = ap (λ seen. left seen nodes) next.0 in
          (omega (arith, fewer, same), (omega (arith, fewer, same, next.1.0), next.1.1)))

-- Of the nodes with distinct ids the walk emits each at most once; it keeps those emitted up to the
-- limit, with one line each, and tells truly whether it left any out.
pub walk-IsCounted :
    {S : Type 0} (lower stringify : CodeUnits → CodeUnits) (rules : ValueRules)
    (allocate_ref : CodeUnits → CodeUnits → S → Option CodeUnits × S) (raw_nodes : List Json)
    (max_nodes : ℕ) (refs : S)
    → let w = walk lower stringify rules allocate_ref raw_nodes max_nodes refs in
      (w.total_nodes ≤ length (by_id raw_nodes [])) × IsCounted max_nodes w
unfolding walk new_walk
walk-IsCounted lower stringify rules allocate_ref raw_nodes max_nodes refs =
    let nodes = by_id raw_nodes [] in
    let done =
      visit_all-Progress lower stringify rules allocate_ref max_nodes nodes (suc (length nodes))
        (starting nodes) 0 (new_walk refs) in
    (omega (arith, left_none nodes, done.1.0), done.1.1 (refl, (ground arith, ground arith)))
