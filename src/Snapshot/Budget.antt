-- ===== src/Snapshot/Budget.antt =====
-- src/browser/snapshotSemantics.ts: `normalizeAxTree` as a whole, with the bounds on its result.
-- `measure` is the size of the printed result with the nodes and the text that it is given; there is
-- none where no envelope is given.
use arc_browser_mcp.Prelude.{
  or_default, ℕ, zero, suc, ◌+◌, ◌-◌, ◌/◌, Bool, true, ◌||◌, ◌&&◌, ◌==◌, ◌*◌, Option, none, some,
  List, [], length, take, ltb, leb, if◌then◌else◌,
}
use arc_browser_mcp.Text.{codes}
use arc_browser_mcp.Json.{Json}
use arc_browser_mcp.Interaction.{CodeUnits}
use arc_browser_mcp.Redaction.{truncate}
use arc_browser_mcp.Snapshot.{SnapshotNode}
use arc_browser_mcp.Snapshot.Tree.{ValueRules, Walk, new_walk, visit_all, by_id, starting, join}

abbrev pub snapshot_default_max_nodes : ℕ
snapshot_default_max_nodes = 500

abbrev pub snapshot_hard_max_nodes : ℕ
snapshot_hard_max_nodes = 1500

abbrev pub snapshot_max_text_chars : ℕ
snapshot_max_text_chars = 100000

abbrev pub snapshot_max_serialized_bytes : ℕ
snapshot_max_serialized_bytes = 256 * 1024

pub record NormalizeResult : Type 0 where
  pub nodes : List SnapshotNode
  pub text : CodeUnits
  pub truncated : Bool
  pub total_nodes : ℕ
  pub included_nodes : ℕ

-- A limit is a natural number: the source rounds others down, and takes those below 1 for 1.
unfoldable pub max_nodes_of : Option ℕ → ℕ
unfolding or_default
max_nodes_of given =
    let n = or_default given snapshot_default_max_nodes in
    if ltb snapshot_hard_max_nodes n then snapshot_hard_max_nodes else if n == 0 then 1 else n

-- The text of the first lines, cut.
unfoldable pub text_of : List CodeUnits → ℕ → CodeUnits
unfolding join truncate
text_of lines n = truncate (join (codes "\n") (take n lines)) snapshot_max_text_chars

-- The binary search for the longest prefix; the range is halved, so its length is enough fuel.
unfoldable pub search_prefix : (ℕ → Bool) → ℕ → ℕ → ℕ → ℕ
search_prefix fits zero low high = low
search_prefix fits (suc fuel) low high =
    let mid = (low + high + 1) / 2 in
    let enough = fits mid in
    let next =
      search_prefix fits fuel (if enough then mid else low) (if enough then high else mid - 1) in
    if ltb low high then next else low

module _ (measure : List SnapshotNode → CodeUnits → ℕ) (budget : ℕ) where
  unfoldable pub fits_prefix : List SnapshotNode → List CodeUnits → ℕ → Bool
  unfolding text_of
  fits_prefix nodes lines n = leb (measure (take n nodes) (text_of lines n)) budget

  unfoldable pub drop_unfit : List SnapshotNode → CodeUnits → List SnapshotNode × CodeUnits
  drop_unfit nodes text = if ltb budget (measure nodes text) then ([], []) else (nodes, text)

  unfoldable pub cut_prefix : List SnapshotNode → List CodeUnits → List SnapshotNode × CodeUnits
  unfolding search_prefix fits_prefix text_of drop_unfit
  cut_prefix nodes lines =
      let low = search_prefix (fits_prefix nodes lines) (length nodes) 0 (length nodes) in
      drop_unfit (take low nodes) (if low == 0 then [] else text_of lines low)

-- What of the nodes and lines is kept, and whether they are cut.
unfoldable pub within_budget :
    Option (List SnapshotNode → CodeUnits → ℕ)
    → ℕ
    → List SnapshotNode
    → List CodeUnits
    → CodeUnits
    → Bool
    → (List SnapshotNode × CodeUnits) × Bool
unfolding cut_prefix
within_budget none budget nodes lines text truncated = ((nodes, text), truncated)
within_budget (some measure) budget nodes lines text truncated =
    if ltb 0 budget && ltb budget (measure nodes text)
    then (cut_prefix measure budget nodes lines, true)
    else ((nodes, text), truncated)

module _ {S : Type 0} (lower stringify : CodeUnits → CodeUnits) (rules : ValueRules)
    (allocate_ref : CodeUnits → CodeUnits → S → Option CodeUnits × S) where
  -- The walk over all nodes.
  unfoldable pub walk : List Json → ℕ → S → Walk S
  unfolding new_walk by_id starting
  walk raw_nodes max_nodes refs =
      let nodes = by_id raw_nodes [] in
      visit_all lower stringify rules allocate_ref max_nodes (suc (length nodes)) nodes
        (starting nodes) 0 (new_walk refs)

  -- `measure` may depend on `totalNodes`.
  unfoldable pub normalize_ax_tree :
      Option ℕ
      → Option ℕ
      → (ℕ → Option (List SnapshotNode → CodeUnits → ℕ))
      → List Json
      → S
      → NormalizeResult × S
  unfolding max_nodes_of or_default join truncate within_budget
  normalize_ax_tree max_nodes max_serialized_bytes measure raw_nodes refs =
      let w = walk raw_nodes (max_nodes_of max_nodes) refs in
      let whole = join (codes "\n") w.lines in
      let text = truncate whole snapshot_max_text_chars in
      let ((nodes, shown), truncated) =
        within_budget (measure w.total_nodes)
          (or_default max_serialized_bytes snapshot_max_serialized_bytes) w.nodes w.lines text
          (w.truncated || ltb snapshot_max_text_chars (length whole)) in
      (
        record {
          nodes = nodes;
          text = shown;
          truncated = truncated;
          total_nodes = w.total_nodes;
          included_nodes = length nodes;
        },
        w.refs,
      )
