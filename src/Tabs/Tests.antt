-- ===== src/Tabs/Tests.antt =====
-- A worker of tabs.ts that starts, opens tabs, and loses one of them.
use arc_browser_mcp.Prelude.{◌≡◌, ◌≢◌, refl, true, false, none, some, [], ◌∷◌, arith}
use arc_browser_mcp.Text.{codes}
use arc_browser_mcp.Tabs.ProjectId.Decimal.{Text}
use arc_browser_mcp.Tabs.ProjectId.Parsing.{
  is_epoch, project_id, parse_project_id, parse-project_id,
}
use arc_browser_mcp.Tabs.Registry.{
  ChromeTabView, ProjectTabRecord, KnownTab, Stored, TabRegistry, err, tab_not_found, lookup,
  insert, has, add, retire, counter_of, refresh_in, refresh, assign_project_id, fresh_project_id,
  to_record, persist, effective_url, is_controllable_url, starts_with_i,
}
use arc_browser_mcp.Tabs.Operations.{
  new_registry, begin_restore, all_succeed, finish_restore, load, load_epoch, load_retired,
  load_counters, conclude, add_all, set_all, opened, resolve, on_removed,
}
use arc_browser_mcp.Tabs.Tombstones.{IsCurrent}
use arc_browser_mcp.Tabs.Moves.{opens, closes, lists, moves, move}
use arc_browser_mcp.Tabs.Restore.{Counted, started, removed_before_restore}
use arc_browser_mcp.Tabs.Restart.{restarted, restart-changes_reused_id}
use arc_browser_mcp.Tabs.Worker.{worker-IsCurrent, worker-resolve_retired}

abbrev epoch : Text
epoch = codes "0123456789abcdef0123456789abcdef"

epoch_hex : is_epoch epoch ≡ true
unfolding is_epoch
epoch_hex = refl

parse-project_id_example :
    parse_project_id (project_id epoch 12 (some 3))
    ≡ some (record { epoch = epoch; chrome_id = 12; suffix = some 3 })
parse-project_id_example = parse-project_id epoch 12 (some 3) epoch_hex

-- A store whose counter of tab 7 is 4, from a worker before.
abbrev store : Stored
store = record { retired = 7 ∷ []; counters = (7, 4) ∷ []; epoch = some epoch }

store_Counted : Counted store.counters
store_Counted = (omega arith, tt)

abbrev tab : ChromeTabView
tab = record {
  id = some 7;
  url = some (codes "https://example.org/");
  pending_url = none;
  title = none;
  active = true;
  pinned = false;
  window_id = 1;
}

abbrev view : ProjectTabRecord
view = record {
  id = project_id epoch 7 (some 5);
  title = [];
  url = codes "https://example.org/";
  active = true;
  pinned = false;
  window_id = 1;
  controllable = true;
}

abbrev known_tab : KnownTab
known_tab = record { project_id = project_id epoch 7 (some 5); tab = view }

worker-IsCurrent_example :
    (e : Text) × (is_epoch e ≡ true)
    × IsCurrent e
        (moves (opens (some tab) ∷ closes 7 true ∷ []) (started all_succeed epoch true store))
worker-IsCurrent_example =
    worker-IsCurrent all_succeed epoch true store epoch_hex store_Counted
      (opens (some tab) ∷ closes 7 true ∷ [])

after_open :
    lookup 7 (moves (opens (some tab) ∷ []) (started all_succeed epoch true store)).known
    ≡ some known_tab
unfolding moves move opened refresh refresh_in assign_project_id fresh_project_id to_record persist
    lookup insert has add counter_of finish_restore load load_epoch load_retired load_counters
    conclude add_all set_all begin_restore new_registry is_epoch effective_url is_controllable_url
    starts_with_i
after_open = refl

worker-resolve_retired_example :
    (resolve (tab ∷ []) known_tab.project_id (
      moves
        (opens (some tab) ∷ lists (tab ∷ []) ∷ [])
        (retire 7 (moves (opens (some tab) ∷ []) (started all_succeed epoch true store))))).1
    ≡ err tab_not_found
worker-resolve_retired_example =
    worker-resolve_retired all_succeed epoch true store epoch_hex store_Counted
      (opens (some tab) ∷ []) 7 known_tab after_open (opens (some tab) ∷ lists (tab ∷ []) ∷ [])
      (tab ∷ [])

removed_before_restore_example :
    has 7
      (finish_restore all_succeed epoch true
        (begin_restore (on_removed 9 (new_registry store))).0).retired
    ≡ false
removed_before_restore_example = removed_before_restore store 9 7 epoch true (λ e. omega (arith, e))

-- Tab 7 is gone, and its number is given out again.
abbrev reused : TabRegistry
reused = record {
  known = [];
  retired = 7 ∷ [];
  reuse_counters = (7, 4) ∷ [];
  restored = true;
  epoch = some epoch;
  store = record { retired = 7 ∷ []; counters = (7, 4) ∷ []; epoch = some epoch };
}

restart-changes_reused_id_example :
    let again = restarted epoch epoch true reused 7 tab in
    ((refresh_in epoch 7 tab reused).1.id ≡ project_id epoch 7 (some 5))
    × ((refresh_in epoch 7 tab again).1.id ≡ project_id epoch 7 (some 6))
    × ((refresh_in epoch 7 tab again).1.id ≢ (refresh_in epoch 7 tab reused).1.id)
unfolding lookup has counter_of
restart-changes_reused_id_example =
    restart-changes_reused_id epoch epoch true reused 7 tab tab epoch_hex refl (refl, tt) refl refl
