-- ===== src/References.antt =====
-- extension/src/snapshot.ts: the references of the latest snapshot of each tab, and the way from a
-- reference to the node that an interaction acts on. Each function is one stretch between two awaits.
-- The attachments of the debugger, the cursor and what is written to the store are left out. Arguments
-- as in Snapshot; `integral` is Number.isInteger on a number that is not a natural one.
mod Tests
pub mod Latest
pub mod Accepting
use arc_browser_mcp.Prelude.{
  ℕ, suc, Bool, true, false, not, ◌&&◌, ◌||◌, ◌==◌, Option, none, some, is_some, List, [], ◌∷◌,
  ◌++◌, String, length, take, drop, leb, if◌then◌else◌,
}
use arc_browser_mcp.Text.{codes, text_eq}
use arc_browser_mcp.Json.{Json, get}
use arc_browser_mcp.Json.Reads.{as_text}
use arc_browser_mcp.Interaction.{CodeUnits}
use arc_browser_mcp.Redaction.{has_name}
use arc_browser_mcp.Protocol.{Result, ok, fail, guard, or_fail, ◌>>=◌, ◌>>◌}
use arc_browser_mcp.Tabs.Registry.{lookup, insert, delete, starts_with_i}
use arc_browser_mcp.Tabs.ProjectId.Parsing.{all_hex}
use arc_browser_mcp.Network.{base36}
use arc_browser_mcp.Session.{as_integer}
use arc_browser_mcp.Snapshot.{SnapshotNode}
use arc_browser_mcp.Snapshot.Tree.{ValueRules}
use arc_browser_mcp.Snapshot.Budget.{NormalizeResult, normalize_ax_tree}

-- `refs` maps references to the nodes' ids in the accessibility tree.
pub record TabSnapshotEntry : Type 0 where
  pub project_id : CodeUnits
  pub refs : List (CodeUnits × CodeUnits)
  pub url : CodeUnits

pub record SessionManager : Type 0 where
  pub entries : List (ℕ × TabSnapshotEntry)
  pub cached_ax_nodes : Option (List Json)
  pub session_id : CodeUnits
  pub counter : ℕ

-- The references of one capture: `refByAxNode` and `refCounter`.
pub record Allocation : Type 0 where
  pub by_ax_node : List (CodeUnits × CodeUnits)
  pub ref_counter : ℕ

-- Map.get with texts for keys.
unfoldable pub find_text : CodeUnits → List (CodeUnits × CodeUnits) → Option CodeUnits
find_text key [] = none
find_text key ((other, value) ∷ rest) = if text_eq other key then some value else find_text key rest

unfoldable pub element_ref : CodeUnits → ℕ → ℕ → CodeUnits
element_ref session_id counter n =
    codes "e-"
    ++ (session_id
        ++ (codes "-" ++ (base36 (suc counter) counter ++ (codes "-" ++ base36 (suc n) n))))

unfoldable pub allocate_element_ref :
    CodeUnits → ℕ → CodeUnits → CodeUnits → Allocation → Option CodeUnits × Allocation
unfolding find_text element_ref
allocate_element_ref session_id counter id role a =
    let n = suc a.ref_counter in
    let ref = element_ref session_id counter n in
    elim (find_text id a.by_ax_node) [
      | some existing ↦ (some existing, a)
      | none ↦ (some ref, record { by_ax_node = a.by_ax_node ++ (id, ref) ∷ []; ref_counter = n })
    ]

unfoldable pub live_refs : List SnapshotNode → List CodeUnits
live_refs [] = []
live_refs (node ∷ nodes) = elim node.ref [
  | none ↦ live_refs nodes
  | some ref ↦ ref ∷ live_refs nodes
]

-- The references that stand in the result, with their nodes.
unfoldable pub published_refs :
    List CodeUnits → List (CodeUnits × CodeUnits) → List (CodeUnits × CodeUnits)
published_refs live [] = []
published_refs live ((id, ref) ∷ rest) =
    let others = published_refs live rest in
    if has_name ref live then (ref, id) ∷ others else others

unfoldable pub remember_ax_tree : List Json → SessionManager → SessionManager
remember_ax_tree nodes s = record s { cached_ax_nodes = some nodes }

-- `capture` once the tree and the safety of its values are there.
unfoldable pub finish_capture :
    (CodeUnits → CodeUnits)
    → (CodeUnits → CodeUnits)
    → ValueRules
    → Option ℕ
    → Option ℕ
    → (ℕ → Option (List SnapshotNode → CodeUnits → ℕ))
    → ℕ
    → CodeUnits
    → CodeUnits
    → List Json
    → SessionManager
    → NormalizeResult × SessionManager
unfolding live_refs published_refs
finish_capture lower stringify rules max_nodes bytes measure chrome_id project_id url nodes s =
    let start : Allocation = record { by_ax_node = []; ref_counter = 0 } in
    let (result, allocation) =
      normalize_ax_tree lower stringify rules (allocate_element_ref s.session_id s.counter)
        max_nodes bytes measure nodes start in
    let entry : TabSnapshotEntry = record {
      project_id = project_id;
      refs = published_refs (live_refs result.nodes) allocation.by_ax_node;
      url = url;
    } in
    (result, record s { entries = insert chrome_id entry s.entries; counter = suc s.counter })

unfoldable pub clear_refs : TabSnapshotEntry → TabSnapshotEntry
clear_refs entry = record entry { refs = [] }

unfoldable pub clear_project : CodeUnits → List (ℕ × TabSnapshotEntry) → List (ℕ × TabSnapshotEntry)
unfolding clear_refs
clear_project project_id [] = []
clear_project project_id ((id, entry) ∷ entries) =
    (id, if text_eq entry.project_id project_id then clear_refs entry else entry)
    ∷ clear_project project_id entries

unfoldable pub invalidate_tab_by_project : CodeUnits → SessionManager → SessionManager
unfolding clear_project
invalidate_tab_by_project project_id s = record s { entries = clear_project project_id s.entries }

-- What an update does to an entry; `loading` tells that the status is that.
unfoldable pub update_entry : Bool → Option CodeUnits → TabSnapshotEntry → TabSnapshotEntry
unfolding clear_refs
update_entry true none entry = clear_refs entry
update_entry true (some url) entry = record (clear_refs entry) { url = url }
update_entry false none entry = entry
update_entry false (some url) entry =
    if text_eq url entry.url then entry else record (clear_refs entry) { url = url }

unfoldable pub handle_tab_updated : ℕ → Bool → Option CodeUnits → SessionManager → SessionManager
unfolding update_entry
handle_tab_updated chrome_id loading url s = elim (lookup chrome_id s.entries) [
  | none ↦ s
  | some entry ↦ record s { entries = insert chrome_id (update_entry loading url entry) s.entries }
]

unfoldable pub handle_tab_removed : ℕ → SessionManager → SessionManager
handle_tab_removed chrome_id s = record s { entries = delete chrome_id s.entries }

unfoldable pub clear_every : List (ℕ × TabSnapshotEntry) → List (ℕ × TabSnapshotEntry)
unfolding clear_refs
clear_every [] = []
clear_every ((id, entry) ∷ entries) = (id, clear_refs entry) ∷ clear_every entries

-- What a detachment does to the references: without a tab it is one of all tabs. The ownership of the
-- sessions and the buffers of the tools, which it clears too, are no part of this state.
unfoldable pub handle_detach : Option ℕ → SessionManager → SessionManager
unfolding clear_every clear_refs
handle_detach none s = record s { entries = clear_every s.entries }
handle_detach (some chrome_id) s = elim (lookup chrome_id s.entries) [
  | none ↦ s
  | some entry ↦ record s { entries = insert chrome_id (clear_refs entry) s.entries }
]

-- The rest of ELEMENT_REF_PATTERN behind the session: a word, a dash and a word.
unfoldable pub is_base36 : ℕ → Bool
is_base36 c = (leb 48 c && leb c 57) || (leb 97 c && leb c 122)

unfoldable pub is_base36_word : CodeUnits → Bool
unfolding is_base36
is_base36_word [] = false
is_base36_word (c ∷ []) = is_base36 c
is_base36_word (c ∷ d ∷ s) = is_base36 c && is_base36_word (d ∷ s)

unfoldable pub are_two_words : Bool → CodeUnits → Bool
unfolding is_base36_word
are_two_words some_read [] = false
are_two_words some_read (c ∷ s) =
    let rest = are_two_words true s in
    if c == 45 then some_read && is_base36_word s else is_base36 c && rest

unfoldable pub is_element_ref_syntax : CodeUnits → Bool
unfolding are_two_words
is_element_ref_syntax ref =
    let session = take 32 (drop 2 ref) in
    text_eq (take 2 ref) (codes "e-")
    && length session == 32
    && all_hex session
    && text_eq (take 1 (drop 34 ref)) (codes "-")
    && are_two_words false (drop 35 ref)

unfoldable pub is_snapshot_id_syntax : CodeUnits → Bool
unfolding is_base36_word
is_snapshot_id_syntax snapshot_id =
    let session = take 32 (drop 2 snapshot_id) in
    text_eq (take 2 snapshot_id) (codes "s-")
    && length session == 32
    && all_hex session
    && text_eq (take 1 (drop 34 snapshot_id)) (codes "-")
    && is_base36_word (drop 35 snapshot_id)

unfoldable pub is_snapshotable_source_url : CodeUnits → Bool
is_snapshotable_source_url url =
    starts_with_i (codes "http:") url || starts_with_i (codes "https:") url

module _ (integral : String → Bool) where
  -- The number of the first node with the id.
  unfoldable pub backend_in : CodeUnits → List Json → Option Json
  backend_in id [] = none
  backend_in id (node ∷ nodes) =
      let rest = backend_in id nodes in
      elim (as_text (get node "nodeId")) [
        | none ↦ rest
        | some other ↦
            if text_eq other id then as_integer integral (get node "backendDOMNodeId") else rest
      ]

  unfoldable pub ax_backend_node : CodeUnits → SessionManager → Option Json
  unfolding backend_in
  ax_backend_node id s = elim s.cached_ax_nodes [ none ↦ none | some nodes ↦ backend_in id nodes ]

  -- `beginInteraction` up to the attachment: `url` is that of the tab's record, `fits` tells that the
  -- text is none or within its limit.
  unfoldable pub begin_interaction :
      ℕ → CodeUnits → CodeUnits → CodeUnits → Bool → SessionManager → Result Json
  unfolding ax_backend_node find_text is_element_ref_syntax is_snapshotable_source_url
  begin_interaction chrome_id project_id ref url fits s = do
    entry ← or_fail (lookup chrome_id s.entries) "STALE_ELEMENT"
    guard (text_eq entry.project_id project_id) "STALE_ELEMENT"
    id ←
        or_fail (find_text ref entry.refs)
          (if is_element_ref_syntax ref then "STALE_ELEMENT" else "SNAPSHOT_FAILED")
    guard fits "INVALID_TEXT"
    guard (is_snapshotable_source_url url) "TAB_NOT_CONTROLLABLE"
    or_fail (ax_backend_node id s) "STALE_ELEMENT"
