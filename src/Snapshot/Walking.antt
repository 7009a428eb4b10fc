-- ===== src/Snapshot/Walking.antt =====
-- A rule for the walk of `normalizeAxTree`.
use arc_browser_mcp.Prelude.{
  ℕ, zero, suc, ◌≡◌, refl, false, ◌||◌, Option, none, some, List, [], ◌∷◌, ltb, if◌then◌else◌,
  choose, arith,
}
use arc_browser_mcp.Json.{Json, get}
use arc_browser_mcp.Interaction.{CodeUnits}
use arc_browser_mcp.Redaction.{has_name}
use arc_browser_mcp.Snapshot.{is_yes, role_of}
use arc_browser_mcp.Snapshot.Tree.{
  ValueRules, node_of, is_flattened, NodeMap, find_node, children_of, Walk, publish, visit_raw,
  visit, visit_all,
}

module _ {S : Type 0} (lower stringify : CodeUnits → CodeUnits) (rules : ValueRules)
    (allocate_ref : CodeUnits → CodeUnits → S → Option CodeUnits × S) (max_nodes : ℕ)
    (nodes : NodeMap) where
  abbrev pub marked : CodeUnits → Walk S → Walk S
  marked id w = record w { visited = id ∷ w.visited }

  abbrev pub published : CodeUnits → Json → ℕ → Walk S → Walk S
  published id raw depth w =
      publish lower stringify rules allocate_ref max_nodes id (role_of lower raw)
        (node_of lower rules raw) depth w

  abbrev pub Rec : Type 0
  Rec = List CodeUnits → ℕ → Walk S → Walk S

  abbrev pub at : ℕ → Rec
  at fuel ids depth w =
      visit_all lower stringify rules allocate_ref max_nodes fuel nodes ids depth w

  -- A relation of walks that holds from before to after a mark and a publication, and is reflexive
  -- and transitive, holds from before to after all visits.
  module _ (R : Walk S → Walk S → Type 0) (R_refl : (w : Walk S) → R w w)
      (R_trans : (u v w : Walk S) → R u v → R v w → R u w)
      (R_marked : (id : CodeUnits) (w : Walk S) → has_name id w.visited ≡ false → R w (marked id w))
      (R_published : (id : CodeUnits) (raw : Json) (depth : ℕ) (w : Walk S)
        → has_name id w.visited ≡ false
        → find_node id nodes ≡ some raw
        → is_yes (get raw "ignored") ≡ false
        → is_flattened (role_of lower raw) (node_of lower rules raw) ≡ false
        → R w (published id raw depth (marked id w))) where
    visit_raw_rule :
        (rec : Rec)
        → ((ids : List CodeUnits) (depth : ℕ) (w : Walk S) → R w (rec ids depth w))
        → (id : CodeUnits) (raw : Json) (depth : ℕ) (w : Walk S) (children : List CodeUnits)
        → has_name id w.visited ≡ false
        → find_node id nodes ≡ some raw
        → R w (
            visit_raw lower stringify rules allocate_ref max_nodes rec children id raw depth
              (marked id w))
    unfolding visit_raw
    visit_raw_rule rec h id raw depth w children fresh e =
        let m = marked id w in
        let skip : R w (rec children depth m) =
          R_trans w m (rec children depth m) (R_marked id w fresh) (h children depth m) in
        let p = published id raw depth m in
        let shown = rec children (suc depth) p in
        choose (R w) (rec children depth m)
          (if is_flattened (role_of lower raw) (node_of lower rules raw)
            then rec children depth m
            else shown)
          (is_yes (get raw "ignored")) (λ ignored. skip)
          (λ read.
            choose (R w) (rec children depth m) shown
              (is_flattened (role_of lower raw) (node_of lower rules raw)) (λ flat. skip)
              (λ full.
                R_trans w p shown (R_published id raw depth w fresh e read full)
                  (h children (suc depth) p)))

    visit_rule :
        (rec : Rec)
        → ((ids : List CodeUnits) (depth : ℕ) (w : Walk S) → R w (rec ids depth w))
        → (id : CodeUnits) (depth : ℕ) (w : Walk S)
        → R w (visit lower stringify rules allocate_ref max_nodes rec nodes id depth w)
    unfolding visit
    visit_rule rec h id depth w =
        choose (R w) w (found (find_node id nodes)) (has_name id w.visited || ltb 100 depth)
          (λ stop. R_refl w) (λ go. by_node (ground (arith, go)) (find_node id nodes) refl)
      where
        found : Option Json → Walk S
        found o = elim o [
          | none ↦ marked id w
          | some raw ↦
              visit_raw lower stringify rules allocate_ref max_nodes rec (children_of nodes raw) id
                raw depth (marked id w)
        ]

        by_node :
            has_name id w.visited ≡ false
            → (o : Option Json) → find_node id nodes ≡ o
            → R w (found o)
        by_node fresh none e = R_marked id w fresh
        by_node fresh (some raw) e =
            visit_raw_rule rec h id raw depth w (children_of nodes raw) fresh e

    pub visit_all_rule :
        (fuel : ℕ) (ids : List CodeUnits) (depth : ℕ) (w : Walk S) → R w (at fuel ids depth w)
    unfolding visit_all
    visit_all_rule fuel [] depth w = R_refl w
    visit_all_rule zero (id ∷ ids) depth w = R_refl w
    visit_all_rule (suc fuel) (id ∷ ids) depth w =
        let rec : Rec = λ children d v. at fuel children d v in
        let next = visit lower stringify rules allocate_ref max_nodes rec nodes id depth w in
        R_trans w next (at (suc fuel) ids depth next)
          (visit_rule rec (visit_all_rule fuel) id depth w)
          (visit_all_rule (suc fuel) ids depth next)
