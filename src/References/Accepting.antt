-- ===== src/References/Accepting.antt =====
-- What the acceptance of a reference says.
use arc_browser_mcp.Prelude.{
  ℕ, ◌≡◌, refl, sym, ap, subst, ◌∙◌, Bool, true, false, ◌==◌, Option, none, some, List, [], String,
  arith, if◌then◌else◌,
}
use arc_browser_mcp.Text.{text_eq}
use arc_browser_mcp.Json.{Json}
use arc_browser_mcp.Interaction.{CodeUnits}
use arc_browser_mcp.Redaction.{has_name}
use arc_browser_mcp.Protocol.{Result, ok, guard, or_fail, ◌>>=◌, ◌>>◌}
use arc_browser_mcp.Tabs.Registry.{lookup, insert}
use arc_browser_mcp.Tabs.Maps.{lookup-insert}
use arc_browser_mcp.Snapshot.{SnapshotNode}
use arc_browser_mcp.Snapshot.Tree.{ValueRules}
use arc_browser_mcp.Snapshot.Budget.{normalize_ax_tree}
use arc_browser_mcp.References.{
  TabSnapshotEntry, SessionManager, Allocation, allocate_element_ref, published_refs, find_text,
  live_refs, finish_capture, is_snapshotable_source_url, ax_backend_node, begin_interaction,
}
use arc_browser_mcp.References.Latest.{
  Action, spares, act_all, IsWithin, published_refs-IsWithin, act_all-IsLatest,
}

or_fail-ok :
    {A B : Type 0} (o : Option A) (code : String) (next : A → Result B) (b : B)
    → (or_fail o code >>= next) ≡ ok b
    → (a : A) × (o ≡ some a) × (next a ≡ ok b)
or_fail-ok none code next b h = absurd (cc)
or_fail-ok (some a) code next b h = (a, refl, h)

guard-ok :
    {B : Type 0} (test : Bool) (code : String) (next : Result B) (b : B)
    → (guard test code >> next) ≡ ok b
    → next ≡ ok b
guard-ok false code next b h = absurd (cc)
guard-ok true code next b h = h

module _ (integral : String → Bool) (tab : ℕ) (project_id ref url : CodeUnits) (fits : Bool) where
  abbrev pub IsAccepted : Json → SessionManager → Type 0
  IsAccepted backend s =
      (entry : TabSnapshotEntry) × (id : CodeUnits) × (lookup tab s.entries ≡ some entry)
      × (find_text ref entry.refs ≡ some id)
      × (ax_backend_node integral id s ≡ some backend)

  begin_interaction-IsAccepted :
      (s : SessionManager) (backend : Json)
      → begin_interaction integral tab project_id ref url fits s ≡ ok backend
      → IsAccepted backend s
  unfolding begin_interaction
  begin_interaction-IsAccepted s backend h =
      let (entry, at, rest) = or_fail-ok (lookup tab s.entries) "STALE_ELEMENT" _ backend h in
      let after = guard-ok (text_eq entry.project_id project_id) "STALE_ELEMENT" _ backend rest in
      let (id, in_refs, tests) = or_fail-ok (find_text ref entry.refs) _ _ backend after in
      let last =
        guard-ok (is_snapshotable_source_url url) "TAB_NOT_CONTROLLABLE" _ backend
          (guard-ok fits "INVALID_TEXT" _ backend tests) in
      (entry, id, at, in_refs, found (ax_backend_node integral id s) last)
    where
      found : (o : Option Json) → or_fail o "STALE_ELEMENT" ≡ ok backend → o ≡ some backend
      found none e = absurd (cc)
      found (some b) e = cc

inserted-IsWithin :
    (live : List CodeUnits) (tab : ℕ) (entry : TabSnapshotEntry)
    (entries : List (ℕ × TabSnapshotEntry))
    → IsWithin live (some entry)
    → IsWithin live (lookup tab (insert tab entry entries))
inserted-IsWithin live tab entry entries h =
    let same : (tab == tab) ≡ true = ground arith in
    subst (IsWithin live)
      (sym (
        lookup-insert tab tab entry entries
        ∙ ap (λ (b : Bool). if b then some entry else lookup tab entries) same))
      h

-- After a capture of a tab and any actions but another capture of it: a reference that an
-- interaction with the tab accepts stands at a node of that capture's result.
pub begin_interaction-latest :
    (lower stringify : CodeUnits → CodeUnits) (rules : ValueRules) (max_nodes bytes : Option ℕ)
    (measure : ℕ → Option (List SnapshotNode → CodeUnits → ℕ)) (integral : String → Bool) (tab : ℕ)
    (captured_id captured_url : CodeUnits) (nodes : List Json) (s : SessionManager)
    (actions : List Action) (project_id ref url : CodeUnits) (fits : Bool) (backend : Json)
    → let (result, next) =
        finish_capture lower stringify rules max_nodes bytes measure tab captured_id captured_url
          nodes s in
      spares tab actions ≡ true
      → begin_interaction integral tab project_id ref url fits
          (act_all lower stringify actions next)
        ≡ ok backend
      → has_name ref (live_refs result.nodes) ≡ true
unfolding finish_capture
begin_interaction-latest lower stringify rules max_nodes bytes measure integral tab captured_id
      captured_url nodes s actions project_id ref url fits backend spared accepted =
    let (result, next) =
      finish_capture lower stringify rules max_nodes bytes measure tab captured_id captured_url
        nodes s in
    let (entry, id, at, in_refs, number) =
      begin_interaction-IsAccepted integral tab project_id ref url fits
        (act_all lower stringify actions next) backend accepted in
    let start : Allocation = record { by_ax_node = []; ref_counter = 0 } in
    let pairs =
      (normalize_ax_tree lower stringify rules (allocate_element_ref s.session_id s.counter)
        max_nodes bytes measure nodes start).1.by_ax_node in
    let live = live_refs result.nodes in
    let fresh =
      inserted-IsWithin live tab
        (record { project_id = captured_id; refs = published_refs live pairs; url = captured_url })
        s.entries (published_refs-IsWithin live pairs) in
    let latest = act_all-IsLatest lower stringify live tab actions next spared fresh in
    subst (IsWithin live) at latest ref id in_refs
