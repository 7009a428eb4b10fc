-- ===== src/Snapshot/Alike.antt =====
-- The walk of `normalizeAxTree` reads of a raw node only its ids, whether it is ignored, its role and
-- what is shown of it.
use arc_browser_mcp.Prelude.{
  is_some, ℕ, zero, suc, ◌≡◌, refl, ap, ap₂, subst, ◌∙◌, Bool, true, false, ◌||◌, Option, none,
  some, List, [], ◌∷◌, ◌++◌, ltb, length, if◌then◌else◌, if-cong,
}
use arc_browser_mcp.Text.{text_eq}
use arc_browser_mcp.Json.{Json, Items, nil, cons, get}
use arc_browser_mcp.Json.Reads.{as_text}
use arc_browser_mcp.Interaction.{CodeUnits}
use arc_browser_mcp.Redaction.{has_name}
use arc_browser_mcp.Snapshot.{is_yes, role_of, as_items}
use arc_browser_mcp.Snapshot.Tree.{
  ValueRules, node_of, is_flattened, NodeMap, find_node, by_id, known_ids, children_of,
  all_children, ids_of, without, starting, Walk, new_walk, visit_raw, visit, visit_all, publish,
}
use arc_browser_mcp.Snapshot.Budget.{walk}

if-related {ℓ κ} :
    {A : Type ℓ} (R : A → A → Type κ) (x y u v : A) (b : Bool)
    → R x u
    → R y v
    → R (if b then x else y) (if b then u else v)
if-related R x y u v true h k = h
if-related R x y u v false h k = k

module _ (lower : CodeUnits → CodeUnits) (rules : ValueRules) where
  pub record Alike (p q : Json) : Type 0 where
    pub same_id : get p "nodeId" ≡ get q "nodeId"
    pub same_children : get p "childIds" ≡ get q "childIds"
    pub same_ignored : get p "ignored" ≡ get q "ignored"
    pub same_role : role_of lower p ≡ role_of lower q
    pub same_node : node_of lower rules p ≡ node_of lower rules q

  pub data AlikeNodes : List Json → List Json → Type 0 where
    no_nodes : AlikeNodes [] []
    more_nodes :
        (p q : Json) (ps qs : List Json)
        → Alike p q
        → AlikeNodes ps qs
        → AlikeNodes (p ∷ ps) (q ∷ qs)

  data AlikeMap : NodeMap → NodeMap → Type 0 where
    empty_map : AlikeMap [] []
    entry_of :
        (id : CodeUnits) (p q : Json) (ps qs : NodeMap)
        → Alike p q
        → AlikeMap ps qs
        → AlikeMap ((id, p) ∷ ps) ((id, q) ∷ qs)

  data AlikeFound : Option Json → Option Json → Type 0 where
    missing : AlikeFound none none
    both_found : (p q : Json) → Alike p q → AlikeFound (some p) (some q)

  find_node-Alike :
      (id : CodeUnits) (ps qs : NodeMap)
      → AlikeMap ps qs
      → AlikeFound (find_node id ps) (find_node id qs)
  unfolding find_node
  find_node-Alike id _ _ empty_map = missing
  find_node-Alike id _ _ (entry_of other p q ps qs a as_) =
      if-related AlikeFound (some p) (find_node id ps) (some q) (find_node id qs) (text_eq other id)
        (both_found p q a) (find_node-Alike id ps qs as_)

  is_some-Alike : (o other : Option Json) → AlikeFound o other → is_some o ≡ is_some other
  unfolding is_some
  is_some-Alike _ _ missing = refl
  is_some-Alike _ _ (both_found p q a) = refl

  known-Alike :
      (id : CodeUnits) (ps qs : NodeMap)
      → AlikeMap ps qs
      → is_some (find_node id ps) ≡ is_some (find_node id qs)
  known-Alike id ps qs h =
      is_some-Alike (find_node id ps) (find_node id qs) (find_node-Alike id ps qs h)

  append-Alike :
      (id : CodeUnits) (p q : Json) (ps qs : NodeMap)
      → Alike p q
      → AlikeMap ps qs
      → AlikeMap (ps ++ (id, p) ∷ []) (qs ++ (id, q) ∷ [])
  append-Alike id p q _ _ a empty_map = entry_of id p q [] [] a empty_map
  append-Alike id p q _ _ a (entry_of other r s ps qs b h) =
      entry_of other r s (ps ++ (id, p) ∷ []) (qs ++ (id, q) ∷ []) b (append-Alike id p q ps qs a h)

  by_id-Alike :
      (raws others : List Json) (ps qs : NodeMap)
      → AlikeNodes raws others
      → AlikeMap ps qs
      → AlikeMap (by_id raws ps) (by_id others qs)
  unfolding by_id
  by_id-Alike _ _ ps qs no_nodes h = h
  by_id-Alike _ _ ps qs (more_nodes p q raws others a as_) h =
      by_id-Alike raws others (with_id (as_text (get p "nodeId")) p ps)
        (with_id (as_text (get q "nodeId")) q qs) as_
        (subst (λ o. AlikeMap (with_id (as_text (get p "nodeId")) p ps) (with_id (as_text o) q qs))
          a.same_id (added (as_text (get p "nodeId"))))
    where
      with_id : Option CodeUnits → Json → NodeMap → NodeMap
      with_id o raw nodes = elim o [
        | none ↦ nodes
        | some id ↦ if is_some (find_node id nodes) then nodes else nodes ++ (id, raw) ∷ []
      ]

      added : (o : Option CodeUnits) → AlikeMap (with_id o p ps) (with_id o q qs)
      added none = h
      added (some id) =
          subst
            (λ b.
              AlikeMap (if is_some (find_node id ps) then ps else ps ++ (id, p) ∷ [])
                (if b then qs else qs ++ (id, q) ∷ []))
            (known-Alike id ps qs h)
            (if-related AlikeMap ps (ps ++ (id, p) ∷ []) qs (qs ++ (id, q) ∷ [])
              (is_some (find_node id ps)) h (append-Alike id p q ps qs a h))

  known_ids-Alike :
      (ps qs : NodeMap) (items : Items) → AlikeMap ps qs → known_ids ps items ≡ known_ids qs items
  unfolding known_ids
  known_ids-Alike ps qs nil h = refl
  known_ids-Alike ps qs (cons child children) h =
      kept (as_text (some child)) (known_ids-Alike ps qs children h)
    where
      kept :
          (o : Option CodeUnits)
          → known_ids ps children ≡ known_ids qs children
          → (elim o [
            | none ↦ known_ids ps children
            | some id ↦
                if is_some (find_node id ps)
                then id ∷ known_ids ps children
                else known_ids ps children
          ])
            ≡ (elim o [
              | none ↦ known_ids qs children
              | some id ↦
                  if is_some (find_node id qs)
                  then id ∷ known_ids qs children
                  else known_ids qs children
            ])
      kept none e = e
      kept (some id) e =
          ap₂ (λ (b : Bool) rest. if b then id ∷ rest else rest) (known-Alike id ps qs h) e

  children_of-Alike :
      (ps qs : NodeMap) (p q : Json)
      → AlikeMap ps qs
      → Alike p q
      → children_of ps p ≡ children_of qs q
  unfolding children_of
  children_of-Alike ps qs p q h a =
      rw a.same_children (known_ids-Alike ps qs (as_items (get q "childIds")) h)

  all_children-Alike :
      (ps qs rs ss : NodeMap)
      → AlikeMap ps qs
      → AlikeMap rs ss
      → all_children ps rs ≡ all_children qs ss
  unfolding all_children
  all_children-Alike ps qs _ _ h empty_map = refl
  all_children-Alike ps qs _ _ h (entry_of id p q rs ss a k) =
      rw (children_of-Alike ps qs p q h a, all_children-Alike ps qs rs ss h k) refl

  ids_of-Alike : (ps qs : NodeMap) → AlikeMap ps qs → ids_of ps ≡ ids_of qs
  unfolding ids_of
  ids_of-Alike _ _ empty_map = refl
  ids_of-Alike _ _ (entry_of id p q ps qs a h) = ap (◌∷◌ id) (ids_of-Alike ps qs h)

  starting-Alike : (ps qs : NodeMap) → AlikeMap ps qs → starting ps ≡ starting qs
  unfolding starting
  starting-Alike ps qs h =
      ap₂ (λ children ids. elim (without children ids) [ [] ↦ ids | id ∷ rest ↦ id ∷ rest ])
        (all_children-Alike ps qs ps qs h h) (ids_of-Alike ps qs h)

  module _ {S : Type 0} (stringify : CodeUnits → CodeUnits)
      (allocate_ref : CodeUnits → CodeUnits → S → Option CodeUnits × S) (max_nodes : ℕ)
      (ps qs : NodeMap) (h : AlikeMap ps qs) where
    visit_raw-Alike :
        (rec other : List CodeUnits → ℕ → Walk S → Walk S)
        → ((ids : List CodeUnits) (depth : ℕ) (w : Walk S) → rec ids depth w ≡ other ids depth w)
        → (children : List CodeUnits) (id : CodeUnits) (p q : Json) (depth : ℕ) (w : Walk S)
        → Alike p q
        → visit_raw lower stringify rules allocate_ref max_nodes rec children id p depth w
          ≡ visit_raw lower stringify rules allocate_ref max_nodes other children id q depth w
    unfolding visit_raw
    visit_raw-Alike rec other same children id p q depth w a =
        rw (a.same_ignored, a.same_role, a.same_node)
          (if-cong (is_yes (get q "ignored")) (λ e. same children depth w)
            (λ e.
              if-cong (is_flattened (role_of lower q) (node_of lower rules q))
                (λ f. same children depth w)
                (λ f. same children (suc depth) (
                  publish lower stringify rules allocate_ref max_nodes id (role_of lower q)
                    (node_of lower rules q) depth w))))

    visit-Alike :
        (rec other : List CodeUnits → ℕ → Walk S → Walk S)
        → ((ids : List CodeUnits) (depth : ℕ) (w : Walk S) → rec ids depth w ≡ other ids depth w)
        → (id : CodeUnits) (depth : ℕ) (w : Walk S)
        → visit lower stringify rules allocate_ref max_nodes rec ps id depth w
          ≡ visit lower stringify rules allocate_ref max_nodes other qs id depth w
    unfolding visit
    visit-Alike rec other same id depth w =
        if-cong (has_name id w.visited || ltb 100 depth) (λ stop. refl)
          (λ go. by_node (find_node id ps) (find_node id qs) (find_node-Alike id ps qs h))
      where
        found : (List CodeUnits → ℕ → Walk S → Walk S) → NodeMap → Option Json → Walk S
        found visit_children nodes o = elim o [
          | none ↦ record w { visited = id ∷ w.visited }
          | some raw ↦
              visit_raw lower stringify rules allocate_ref max_nodes visit_children
                (children_of nodes raw) id raw depth (record w { visited = id ∷ w.visited })
        ]

        by_node : (o more : Option Json) → AlikeFound o more → found rec ps o ≡ found other qs more
        by_node _ _ missing = refl
        by_node _ _ (both_found p q a) =
            ap
              (λ children.
                visit_raw lower stringify rules allocate_ref max_nodes rec children id p depth
                  (record w { visited = id ∷ w.visited }))
              (children_of-Alike ps qs p q h a)
            ∙ visit_raw-Alike rec other same (children_of qs q) id p q depth
                (record w { visited = id ∷ w.visited }) a

    visit_all-Alike :
        (fuel : ℕ) (ids : List CodeUnits) (depth : ℕ) (w : Walk S)
        → visit_all lower stringify rules allocate_ref max_nodes fuel ps ids depth w
          ≡ visit_all lower stringify rules allocate_ref max_nodes fuel qs ids depth w
    unfolding visit_all
    visit_all-Alike fuel [] depth w = refl
    visit_all-Alike zero (id ∷ ids) depth w = refl
    visit_all-Alike (suc fuel) (id ∷ ids) depth w =
        visit_all-Alike (suc fuel) ids depth (
          visit lower stringify rules allocate_ref max_nodes
            (λ children d v.
              visit_all lower stringify rules allocate_ref max_nodes fuel ps children d v)
            ps id depth w)
        ∙ ap (visit_all lower stringify rules allocate_ref max_nodes (suc fuel) qs ids depth) (
            visit-Alike
              (λ children d v.
                visit_all lower stringify rules allocate_ref max_nodes fuel ps children d v)
              (λ children d v.
                visit_all lower stringify rules allocate_ref max_nodes fuel qs children d v)
              (visit_all-Alike fuel) id depth w)

  length-Alike : (ps qs : NodeMap) → AlikeMap ps qs → length ps ≡ length qs
  length-Alike _ _ empty_map = refl
  length-Alike _ _ (entry_of id p q ps qs a h) = ap suc (length-Alike ps qs h)

  pub walk-Alike :
      {S : Type 0} (stringify : CodeUnits → CodeUnits)
      (allocate_ref : CodeUnits → CodeUnits → S → Option CodeUnits × S) (max_nodes : ℕ)
      (raws others : List Json) (refs : S)
      → AlikeNodes raws others
      → walk lower stringify rules allocate_ref raws max_nodes refs
        ≡ walk lower stringify rules allocate_ref others max_nodes refs
  unfolding walk
  walk-Alike stringify allocate_ref max_nodes raws others refs a =
      let ps = by_id raws [] in
      let qs = by_id others [] in
      let h = by_id-Alike raws others [] [] a empty_map in
      visit_all-Alike stringify allocate_ref max_nodes ps qs h (suc (length ps)) (starting ps) 0
        (new_walk refs)
      ∙ ap₂
          (λ n ids.
            visit_all lower stringify rules allocate_ref max_nodes (suc n) qs ids 0 (new_walk refs))
          (length-Alike ps qs h) (starting-Alike ps qs h)
