-- ===== src/Snapshot/Tests.antt =====
-- A page with a password field and a link, and a leaked id.
use text.Mathlib.Text.{◌==◌ as str_eq}
use arc_browser_mcp.Prelude.{
  or_default, ℕ, suc, ◌+◌, ◌*◌, ◌≤◌, ◌<◌, ◌≡◌, refl, false, ◌&&◌, Option, none, some, List, [], ◌∷◌,
  String, length, length-take, take, map, arith,
}
use arc_browser_mcp.Text.{codes, text_eq, is_space}
use arc_browser_mcp.Json.{
  Json, number, string, array, object, nil, cons, end, field, get, get_field,
}
use arc_browser_mcp.Interaction.{CodeUnits}
use arc_browser_mcp.Interaction.Utf8.{utf16}
use arc_browser_mcp.Redaction.{ascii_lower, has_name, trim}
use arc_browser_mcp.Snapshot.{SnapshotNode, role_of, ax_string}
use arc_browser_mcp.Snapshot.Tree.{
  ValueRules, as_number, safety_of, is_safe, new_walk, visit_all, by_id, starting, join,
}
use arc_browser_mcp.Snapshot.Budget.{
  snapshot_max_serialized_bytes, max_nodes_of, text_of, walk, normalize_ax_tree,
}
use arc_browser_mcp.Snapshot.Counting.{IsCounted}
use arc_browser_mcp.Snapshot.Emitted.{Emission, IsTrace, IsKept, walk-IsKept}
use arc_browser_mcp.Snapshot.Fuel.{walk-enough_fuel}
use arc_browser_mcp.Snapshot.Privacy.{Conceals, none_left, same, hides, normalize_ax_tree-hides}
use arc_browser_mcp.Snapshot.Longest.{IsLongestPrefix, normalize_ax_tree-IsLongest}
use arc_browser_mcp.Snapshot.Leaks.{
  leaked_cdp_keys, find_leaked_cdp_keys, has_key, find_leaked_cdp_keys-member,
}

abbrev lower : CodeUnits → CodeUnits
lower = map ascii_lower

abbrev quoted : CodeUnits → CodeUnits
quoted s = s

-- Nothing is known to be safe.
abbrev rules : ValueRules
rules = record { value_safety = λ id. none; is_password_id = λ id. false }

-- The state counts the references.
abbrev allocate_ref : CodeUnits → CodeUnits → ℕ → Option CodeUnits × ℕ
allocate_ref id role n = (some id, suc n)

abbrev ax : String → Json
ax s = object (field "value" (string s) end)

abbrev page : Json
page = object (
    field "nodeId" (string "1") (
      field "role" (ax "WebArea")
        (field "childIds" (array (cons (string "2") (cons (string "3") nil))) end)))

abbrev box : String → Json
box value = object (
    field "nodeId" (string "2")
      (field "role" (ax "textbox") (field "name" (ax "Code") (field "value" (ax value) end))))

abbrev anchor : Json
anchor = object (
    field "nodeId" (string "3") (
      field "role" (ax "link")
        (field "backendDOMNodeId" (number 7) (field "name" (ax "Home") end))))

abbrev tree : String → List Json
tree value = page ∷ box value ∷ anchor ∷ []

-- The size of a result: a hundred for each node.
abbrev size : ℕ → List SnapshotNode → CodeUnits → ℕ
size total nodes text = 100 * length nodes

abbrev measure : ℕ → Option (List SnapshotNode → CodeUnits → ℕ)
measure total = some (size total)

box-agree : (k : String) → str_eq "value" k ≡ false → get (box "1234") k ≡ get (box "") k
unfolding get get_field
box-agree k other = rw (other) refl

walk-IsKept_example :
    let w = walk lower quoted rules allocate_ref (tree "1234") 2 0 in
    (w.total_nodes ≤ length (by_id (tree "1234") []))
    × IsCounted 2 w
    × ((es : List Emission) × IsTrace lower rules (by_id (tree "1234") []) es
        × IsKept lower quoted rules allocate_ref 2 (by_id (tree "1234") []) es w)
walk-IsKept_example = walk-IsKept lower quoted rules allocate_ref (tree "1234") 2 0

walk-enough_fuel_example :
    let nodes = by_id (tree "1234") [] in
    visit_all lower quoted rules allocate_ref 2
      (suc (length nodes) + 5)
      nodes
      (starting nodes)
      0
      (new_walk 0)
    ≡ walk lower quoted rules allocate_ref (tree "1234") 2 0
walk-enough_fuel_example = walk-enough_fuel lower quoted rules allocate_ref (tree "1234") 2 0 5

conceals : Conceals lower rules (tree "1234") (tree "")
unfolding role_of ax_string get get_field utf16 trim has_name as_number safety_of is_safe text_eq
    is_space
conceals = same page (box "1234" ∷ anchor ∷ []) (box "" ∷ anchor ∷ []) (
    hides (box "1234") (box "") (anchor ∷ []) (anchor ∷ []) (refl, refl) box-agree
      (same anchor [] [] none_left))

normalize_ax_tree-hides_example :
    normalize_ax_tree lower quoted rules allocate_ref (some 2) none measure (tree "1234") 0
    ≡ normalize_ax_tree lower quoted rules allocate_ref (some 2) none measure (tree "") 0
normalize_ax_tree-hides_example =
    normalize_ax_tree-hides lower quoted rules allocate_ref (some 2) none measure (tree "1234")
      (tree "") 0 conceals

size-shorter :
    (total : ℕ) (nodes : List SnapshotNode) (lines : List CodeUnits) (i j : ℕ)
    → i ≤ j
    → size total (take i nodes) (text_of lines i) ≤ size total (take j nodes) (text_of lines j)
size-shorter total nodes lines i j le = omega (arith, le, length-take i nodes, length-take j nodes)

budget-positive : 0 < or_default (some 250) snapshot_max_serialized_bytes
unfolding or_default
budget-positive = ground arith

size-empty : (total : ℕ) → size total [] [] ≤ or_default (some 250) snapshot_max_serialized_bytes
unfolding or_default
size-empty total = omega arith

normalize_ax_tree-IsLongest_example :
    let w = walk lower quoted rules allocate_ref (tree "1234") (max_nodes_of none) 0 in
    let (result, left_refs) =
      normalize_ax_tree lower quoted rules allocate_ref none (some 250) measure (tree "1234") 0 in
    IsLongestPrefix
      (size w.total_nodes)
      (or_default (some 250) snapshot_max_serialized_bytes)
      w.nodes
      w.lines
      (result.nodes, result.text)
    × (result.included_nodes ≡ length result.nodes)
    × (result.truncated ≡ false
        → (result.text ≡ join (codes "\n") w.lines) × (result.included_nodes ≡ result.total_nodes))
normalize_ax_tree-IsLongest_example =
    normalize_ax_tree-IsLongest lower quoted rules allocate_ref none (some 250) size (tree "1234") 0
      budget-positive size-empty size-shorter

find_leaked_cdp_keys-member_example :
    has_name (codes "backendDOMNodeId") (find_leaked_cdp_keys (array (cons anchor nil))) ≡ (
      has_name (codes "backendDOMNodeId") leaked_cdp_keys
      && has_key (codes "backendDOMNodeId") (array (cons anchor nil)))
find_leaked_cdp_keys-member_example =
    find_leaked_cdp_keys-member (codes "backendDOMNodeId") (array (cons anchor nil))
