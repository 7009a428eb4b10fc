-- ===== src/References/Latest.antt =====
-- Only references of a tab's latest snapshot are accepted.
use arc_browser_mcp.Prelude.{
  ℕ, ◌≡◌, refl, sym, ap, subst, ◌∙◌, Bool, true, false, not, ◌&&◌, ◌==◌, Option, none, some, List,
  [], ◌∷◌, choose, if◌then◌else◌, arith,
}
use arc_browser_mcp.Text.{text_eq, text_eq_iff}
use arc_browser_mcp.Json.{Json}
use arc_browser_mcp.Interaction.{CodeUnits}
use arc_browser_mcp.Redaction.{has_name}
use arc_browser_mcp.Tabs.Registry.{lookup, insert}
use arc_browser_mcp.Tabs.Maps.{lookup-insert, lookup-delete}
use arc_browser_mcp.Snapshot.{SnapshotNode}
use arc_browser_mcp.Snapshot.Tree.{ValueRules}
use arc_browser_mcp.References.{
  TabSnapshotEntry, SessionManager, find_text, published_refs, remember_ax_tree, finish_capture,
  clear_refs, clear_project, invalidate_tab_by_project, update_entry, handle_tab_updated,
  handle_tab_removed, clear_every, handle_detach,
}

-- What a capture is made with, each with its own.
pub record CaptureOptions : Type 0 where
  pub rules : ValueRules
  pub max_nodes : Option ℕ
  pub bytes : Option ℕ
  pub measure : ℕ → Option (List SnapshotNode → CodeUnits → ℕ)

-- What may happen to the references after a capture. `detached` is also what each turn of the loop of
-- `detachAllOwned` does to them.
pub data Action : Type 0 where
  remembered : List Json → Action
  captured : CaptureOptions → ℕ → CodeUnits → CodeUnits → List Json → Action
  invalidated : CodeUnits → Action
  updated : ℕ → Bool → Option CodeUnits → Action
  removed : ℕ → Action
  detached : Option ℕ → Action

-- No capture of the tab is among the actions.
unfoldable pub spares : ℕ → List Action → Bool
spares tab [] = true
spares tab (captured options chrome_id project_id url nodes ∷ actions) =
    not (chrome_id == tab) && spares tab actions
spares tab (_ ∷ actions) = spares tab actions

-- An entry's references are all among the given ones.
abbrev pub IsWithin : List CodeUnits → Option TabSnapshotEntry → Type 0
IsWithin live none = Unit
IsWithin live (some entry) =
    (ref id : CodeUnits) → find_text ref entry.refs ≡ some id → has_name ref live ≡ true

pub published_refs-IsWithin :
    (live : List CodeUnits) (pairs : List (CodeUnits × CodeUnits)) (ref id : CodeUnits)
    → find_text ref (published_refs live pairs) ≡ some id
    → has_name ref live ≡ true
unfolding published_refs find_text
published_refs-IsWithin live [] ref id h = absurd (cc)
published_refs-IsWithin live ((node, other) ∷ pairs) ref id given =
    choose (λ refs. find_text ref refs ≡ some id → has_name ref live ≡ true)
      ((other, node) ∷ published_refs live pairs) (published_refs live pairs) (has_name other live)
      (λ lives h.
        choose (λ o. o ≡ some id → has_name ref live ≡ true) (some node)
          (find_text ref (published_refs live pairs)) (text_eq other ref)
          (λ same found. sym (ap (λ r. has_name r live) ((text_eq_iff other ref).0 same)) ∙ lives)
          (λ differs found. published_refs-IsWithin live pairs ref id found) h)
      (λ dead h. published_refs-IsWithin live pairs ref id h) given

no_refs-IsWithin :
    (live : List CodeUnits) (entry : TabSnapshotEntry) → IsWithin live (some (clear_refs entry))
unfolding clear_refs find_text
no_refs-IsWithin live entry ref id h = absurd (cc)

update_entry-IsWithin :
    (live : List CodeUnits) (loading : Bool) (url : Option CodeUnits) (entry : TabSnapshotEntry)
    → IsWithin live (some entry)
    → IsWithin live (some (update_entry loading url entry))
unfolding update_entry
update_entry-IsWithin live true none entry h = no_refs-IsWithin live entry
update_entry-IsWithin live true (some url) entry h = no_refs-IsWithin live entry
update_entry-IsWithin live false none entry h = h
update_entry-IsWithin live false (some url) entry h =
    choose (λ e. IsWithin live (some e)) entry (record (clear_refs entry) { url = url })
      (text_eq url entry.url) (λ same. h) (λ other. no_refs-IsWithin live entry)

clear_project-IsWithin :
    (live : List CodeUnits) (tab : ℕ) (project_id : CodeUnits)
    (entries : List (ℕ × TabSnapshotEntry))
    → IsWithin live (lookup tab entries)
    → IsWithin live (lookup tab (clear_project project_id entries))
unfolding clear_project lookup
clear_project-IsWithin live tab project_id [] h = tt
clear_project-IsWithin live tab project_id ((id, entry) ∷ entries) given =
    here (id == tab) (clear_project-IsWithin live tab project_id entries) given
  where
    cleared : TabSnapshotEntry
    cleared = if text_eq entry.project_id project_id then clear_refs entry else entry

    here :
        (b : Bool)
        → (IsWithin live (lookup tab entries)
            → IsWithin live (lookup tab (clear_project project_id entries)))
        → IsWithin live (if b then some entry else lookup tab entries)
        → IsWithin live (if b then some cleared else lookup tab (clear_project project_id entries))
    here true rest h =
        choose (λ e. IsWithin live (some e)) (clear_refs entry) entry
          (text_eq entry.project_id project_id) (λ same. no_refs-IsWithin live entry) (λ other. h)
    here false rest h = rest h

clear_every-IsWithin :
    (live : List CodeUnits) (tab : ℕ) (entries : List (ℕ × TabSnapshotEntry))
    → IsWithin live (lookup tab (clear_every entries))
unfolding clear_every lookup
clear_every-IsWithin live tab [] = tt
clear_every-IsWithin live tab ((id, entry) ∷ entries) =
    choose (IsWithin live) (some (clear_refs entry)) (lookup tab (clear_every entries)) (id == tab)
      (λ same. no_refs-IsWithin live entry) (λ other. clear_every-IsWithin live tab entries)

module _ (lower stringify : CodeUnits → CodeUnits) where
  unfoldable pub act : Action → SessionManager → SessionManager
  act (remembered nodes) s = remember_ax_tree nodes s
  act (captured options chrome_id project_id url nodes) s =
      (finish_capture lower stringify options.rules options.max_nodes options.bytes options.measure
        chrome_id project_id url nodes s).1
  act (invalidated project_id) s = invalidate_tab_by_project project_id s
  act (updated chrome_id loading url) s = handle_tab_updated chrome_id loading url s
  act (removed chrome_id) s = handle_tab_removed chrome_id s
  act (detached target) s = handle_detach target s

  unfoldable pub act_all : List Action → SessionManager → SessionManager
  unfolding act
  act_all [] s = s
  act_all (action ∷ actions) s = act_all actions (act action s)

  abbrev pub IsLatest : List CodeUnits → ℕ → SessionManager → Type 0
  IsLatest live tab s = IsWithin live (lookup tab s.entries)

  updated-IsLatest :
      (live : List CodeUnits) (tab chrome_id : ℕ) (loading : Bool) (url : Option CodeUnits)
      (s : SessionManager)
      → IsLatest live tab s
      → IsLatest live tab (handle_tab_updated chrome_id loading url s)
  unfolding handle_tab_updated
  updated-IsLatest live tab chrome_id loading url s h = found (lookup chrome_id s.entries) refl
    where
      found :
          (o : Option TabSnapshotEntry)
          → lookup chrome_id s.entries ≡ o
          → IsLatest live tab (elim o as (λ x. SessionManager) [
            | none ↦ s
            | some entry ↦ record s {
              entries = insert chrome_id (update_entry loading url entry) s.entries;
            }
          ])
      found none e = h
      found (some entry) e =
          subst (IsWithin live)
            (sym (lookup-insert chrome_id tab (update_entry loading url entry) s.entries))
            (choose (IsWithin live) (some (update_entry loading url entry)) (lookup tab s.entries)
              (chrome_id == tab)
              (λ same.
                let one : tab ≡ chrome_id = ground (arith, same) in
                update_entry-IsWithin live loading url entry
                  (subst (IsWithin live) (ap (λ id. lookup id s.entries) one ∙ e) h))
              (λ other. h))

  detached-IsLatest :
      (live : List CodeUnits) (tab : ℕ) (target : Option ℕ) (s : SessionManager)
      → IsLatest live tab s
      → IsLatest live tab (handle_detach target s)
  unfolding handle_detach
  detached-IsLatest live tab none s h = clear_every-IsWithin live tab s.entries
  detached-IsLatest live tab (some chrome_id) s h = found (lookup chrome_id s.entries)
    where
      found :
          (o : Option TabSnapshotEntry)
          → IsLatest live tab (elim o as (λ x. SessionManager) [
            | none ↦ s
            | some entry ↦ record s { entries = insert chrome_id (clear_refs entry) s.entries }
          ])
      found none = h
      found (some entry) =
          subst (IsWithin live) (sym (lookup-insert chrome_id tab (clear_refs entry) s.entries)) (
            choose (IsWithin live) (some (clear_refs entry)) (lookup tab s.entries)
              (chrome_id == tab) (λ same. no_refs-IsWithin live entry) (λ other. h))

  act-IsLatest :
      (live : List CodeUnits) (tab : ℕ) (action : Action) (s : SessionManager)
      → spares tab (action ∷ []) ≡ true
      → IsLatest live tab s
      → IsLatest live tab (act action s)
  unfolding act spares remember_ax_tree finish_capture invalidate_tab_by_project handle_tab_removed
  act-IsLatest live tab (remembered nodes) s spared h = h
  act-IsLatest live tab (captured options chrome_id project_id url nodes) s spared h =
      subst (IsWithin live) (sym (lookup-insert chrome_id tab _ s.entries)) (
        choose (IsWithin live) (some _) (lookup tab s.entries) (chrome_id == tab)
          (λ same. absurd (ground (arith, same, spared))) (λ other. h))
  act-IsLatest live tab (invalidated project_id) s spared h =
      clear_project-IsWithin live tab project_id s.entries h
  act-IsLatest live tab (updated chrome_id loading url) s spared h =
      updated-IsLatest live tab chrome_id loading url s h
  act-IsLatest live tab (removed chrome_id) s spared h =
      subst (IsWithin live) (sym (lookup-delete chrome_id tab s.entries)) (
        choose (IsWithin live) none (lookup tab s.entries) (chrome_id == tab) (λ same. tt)
          (λ other. h))
  act-IsLatest live tab (detached target) s spared h = detached-IsLatest live tab target s h

  spares-cons :
      (tab : ℕ) (action : Action) (actions : List Action)
      → spares tab (action ∷ actions) ≡ true
      → (spares tab (action ∷ []) ≡ true) × (spares tab actions ≡ true)
  unfolding spares
  spares-cons tab (captured options chrome_id project_id url nodes) actions h =
      (ground (arith, h), ground (arith, h))
  spares-cons tab (remembered nodes) actions h = (refl, h)
  spares-cons tab (invalidated project_id) actions h = (refl, h)
  spares-cons tab (updated chrome_id loading url) actions h = (refl, h)
  spares-cons tab (removed chrome_id) actions h = (refl, h)
  spares-cons tab (detached target) actions h = (refl, h)

  pub act_all-IsLatest :
      (live : List CodeUnits) (tab : ℕ) (actions : List Action) (s : SessionManager)
      → spares tab actions ≡ true
      → IsLatest live tab s
      → IsLatest live tab (act_all actions s)
  unfolding act_all
  act_all-IsLatest live tab [] s spared h = h
  act_all-IsLatest live tab (action ∷ actions) s spared h =
      let (first, later) = spares-cons tab action actions spared in
      act_all-IsLatest live tab actions (act action s) later
        (act-IsLatest live tab action s first h)
