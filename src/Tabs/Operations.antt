-- ===== src/Tabs/Operations.antt =====
-- extension/src/tabs.ts, the operations of `TabRegistry` and its listeners.
use arc_browser_mcp.Text.{text_eq}
use arc_browser_mcp.Prelude.{
  ℕ, Bool, true, false, ◌||◌, Option, none, some, List, [], ◌∷◌, if◌then◌else◌,
}
use arc_browser_mcp.Text.{codes}
use arc_browser_mcp.Tabs.ProjectId.Decimal.{Text}
use arc_browser_mcp.Tabs.ProjectId.Parsing.{ParsedId, is_epoch, parse_project_id}
use arc_browser_mcp.Tabs.Registry.{
  ChromeTabView, ProjectTabRecord, KnownTab, TabError, tab_not_found, tab_invalid_id,
  tab_create_failed, tab_close_failed, tab_not_controllable, tab_url_not_allowed,
  tab_history_unavailable, tab_navigation_failed, not_initialized, Result, ok, err, starts_with_i,
  is_privileged_source, Stored, TabRegistry, lookup, insert, delete, has, add, retire, refresh_in,
  refresh,
}

unfoldable pub new_registry : Stored → TabRegistry
new_registry store = record {
  known = [];
  retired = [];
  reuse_counters = [];
  restored = false;
  epoch = none;
  store = store;
}

-- `restoreRetired` up to its first await; the rest follows only if it had not run before.
unfoldable pub begin_restore : TabRegistry → TabRegistry × Bool
begin_restore r = if r.restored then (r, false) else (record r { restored = true }, true)

unfoldable pub add_all : List ℕ → List ℕ → List ℕ
add_all [] s = s
add_all (k ∷ ks) s = add_all ks (add k s)

unfoldable pub set_all : List (ℕ × ℕ) → List (ℕ × ℕ) → List (ℕ × ℕ)
set_all [] m = m
set_all ((k, v) ∷ kvs) m = set_all kvs (insert k v m)

-- Which of the three loads of `restoreRetired` succeed; after one that fails the next are not made.
pub data Loads : Type 0 where
  all_fail epoch_only no_counters all_succeed : Loads

unfoldable pub load_epoch : TabRegistry → TabRegistry
load_epoch r = elim r.store.epoch [
  | none ↦ r
  | some e ↦ if is_epoch e then record r { epoch = some e } else r
]

unfoldable pub load_retired : TabRegistry → TabRegistry
unfolding add_all
load_retired r = record r { retired = add_all r.store.retired r.retired }

unfoldable pub load_counters : TabRegistry → TabRegistry
unfolding set_all
load_counters r = record r { reuse_counters = set_all r.store.counters r.reuse_counters }

unfoldable pub load : Loads → TabRegistry → TabRegistry
unfolding load_epoch load_retired load_counters
load all_fail r = r
load epoch_only r = load_epoch r
load no_counters r = load_retired (load_epoch r)
load all_succeed r = load_counters (load_retired (load_epoch r))

-- The rest of `restoreRetired`; `generated` is the epoch that is generated if none was loaded, and
-- `saved` whether the store takes it.
unfoldable pub conclude : Text → Bool → TabRegistry → Option Text → TabRegistry
conclude generated saved loaded (some e) = loaded
conclude generated saved loaded none = record loaded {
  epoch = some generated;
  store = if saved then record loaded.store { epoch = some generated } else loaded.store;
}

-- The rest of a restore in one step: nothing happens between the loads and until the epoch is saved.
unfoldable pub finish_restore : Loads → Text → Bool → TabRegistry → TabRegistry
finish_restore loads generated saved r =
    let loaded = load loads r in conclude generated saved loaded loaded.epoch

abbrev pub Tabs : Type 0
Tabs = List ChromeTabView

unfoldable pub live_ids : Tabs → List ℕ
live_ids [] = []
live_ids (tab ∷ tabs) = elim tab.id [ none ↦ live_ids tabs | some c ↦ add c (live_ids tabs) ]

-- The known tabs that are gone are retired.
unfoldable pub retire_dead : List ℕ → List (ℕ × KnownTab) → TabRegistry → TabRegistry
retire_dead live [] r = r
retire_dead live ((c, k) ∷ known) r = retire_dead live known (if has c live then r else retire c r)

unfoldable pub refresh_all : Text → Tabs → TabRegistry → TabRegistry × List ProjectTabRecord
refresh_all epoch [] r = (r, [])
refresh_all epoch (tab ∷ tabs) r = elim tab.id [
  | none ↦ refresh_all epoch tabs r
  | some c ↦
      let (next, view) = refresh_in epoch c tab r in
      let (last, views) = refresh_all epoch tabs next in (last, view ∷ views)
]

unfoldable pub refresh_all_or_fail :
    Option Text → Tabs → TabRegistry → TabRegistry × Result (List ProjectTabRecord)
refresh_all_or_fail (some epoch) tabs r =
    let (next, views) = refresh_all epoch tabs r in (next, ok views)
refresh_all_or_fail none [] r = (r, ok [])
refresh_all_or_fail none (tab ∷ tabs) r = elim tab.id [
  | none ↦ refresh_all_or_fail none tabs r
  | some c ↦ (r, err not_initialized)
]

-- `list` after its query.
unfoldable pub list : Tabs → TabRegistry → TabRegistry × Result (List ProjectTabRecord)
unfolding refresh_all_or_fail
list tabs r =
    let reconciled = retire_dead (live_ids tabs) r.known r in
    refresh_all_or_fail reconciled.epoch tabs reconciled

-- The tests of `resolve` after its list.
unfoldable pub check_known : Text → ParsedId → TabRegistry → Result ℕ
check_known id parsed r = elim r.epoch [
  | none ↦ err tab_not_found
  | some epoch ↦
      if text_eq parsed.epoch epoch
      then (elim (lookup parsed.chrome_id r.known) [
        | none ↦ err tab_not_found
        | some known ↦
            if text_eq known.project_id id then ok parsed.chrome_id else err tab_not_found
      ])
      else err tab_not_found
]

unfoldable pub resolve : Tabs → Text → TabRegistry → TabRegistry × Result ℕ
resolve tabs id r = elim (parse_project_id id) [
  | none ↦ (r, err tab_invalid_id)
  | some parsed ↦
      let (next, listed) = list tabs r in
      (next, elim listed [ err e ↦ err e | ok views ↦ check_known id parsed next ])
]

-- `openTab`: the test of the address, and what follows on the created tab.
unfoldable pub may_open : Option Text → Bool
may_open none = true
may_open (some []) = true
may_open (some (c ∷ s)) =
    starts_with_i (codes "http:") (c ∷ s)
    || starts_with_i (codes "https:") (c ∷ s)
    || starts_with_i (codes "about:") (c ∷ s)

unfoldable pub opened : Option ChromeTabView → TabRegistry → TabRegistry × Result ProjectTabRecord
opened none r = (r, err tab_create_failed)
opened (some tab) r = elim tab.id [ none ↦ (r, err tab_create_failed) | some c ↦ refresh c tab r ]

-- `closeTab` after `resolve`: whether chrome removed the tab.
unfoldable pub closed : ℕ → Bool → TabRegistry → TabRegistry × Result (Unit {0})
closed c removed r = if removed then (retire c r, ok tt) else (r, err tab_close_failed)

-- What `chrome.update` answers: it rejects, or gives a tab or nothing.
pub data Updated : Type 0 where
  update_failed update_missing : Updated
  updated : ChromeTabView → Updated

unfoldable pub updated_with :
    TabError → Updated → TabRegistry → TabRegistry × Result ProjectTabRecord
updated_with failure update_failed r = (r, err failure)
updated_with failure update_missing r = (r, err tab_not_found)
updated_with failure (updated tab) r = elim tab.id [
  | none ↦ (r, err tab_not_found)
  | some c ↦ refresh c tab r
]

-- `activateTab` and `navigateTab` after chrome's answer.
unfoldable pub activated : Updated → TabRegistry → TabRegistry × Result ProjectTabRecord
unfolding updated_with
activated = updated_with tab_not_found

unfoldable pub navigated : Updated → TabRegistry → TabRegistry × Result ProjectTabRecord
unfolding updated_with
navigated = updated_with tab_navigation_failed

unfoldable pub current_record : ℕ → TabRegistry → Option ProjectTabRecord
current_record c r = elim (lookup c r.known) [ none ↦ none | some known ↦ some known.tab ]

-- `navigateTab` between `resolve` and its call of chrome: the address to go to. `validate` is the
-- argument of that name; `none` is its rejection.
unfoldable pub may_navigate : (Text → Option Text) → ℕ → Text → TabRegistry → Result Text
may_navigate validate c url r =
    if elim (current_record c r) [ none ↦ false | some current ↦ is_privileged_source current.url ]
    then err tab_not_controllable
    else (elim (validate url) [ none ↦ err tab_url_not_allowed | some allowed ↦ ok allowed ])

unfoldable pub require_controllable : ℕ → TabRegistry → Result ProjectTabRecord
require_controllable c r = elim (current_record c r) [
  | none ↦ err tab_not_controllable
  | some current ↦ if is_privileged_source current.url then err tab_not_controllable else ok current
]

-- `goBackTab`, `goForwardTab` and `reloadTab` after chrome's answer, and `refreshAfterHistory` with
-- the tab that `chrome.get` gives.
unfoldable pub after_history :
    ℕ → Option ChromeTabView → TabRegistry → TabRegistry × Result ProjectTabRecord
after_history c none r = (r, err tab_not_found)
after_history c (some tab) r =
    let (next, view) = refresh c tab r in
    (next, elim view [ ok v ↦ ok v | err e ↦ err tab_not_found ])

unfoldable pub went_in_history :
    ℕ → Bool → Option ChromeTabView → TabRegistry → TabRegistry × Result ProjectTabRecord
unfolding after_history
went_in_history c done tab r =
    if done then after_history c tab r else (r, err tab_history_unavailable)

unfoldable pub reloaded :
    ℕ → Bool → Option ChromeTabView → TabRegistry → TabRegistry × Result ProjectTabRecord
unfolding after_history
reloaded c done tab r = if done then after_history c tab r else (r, err tab_navigation_failed)

-- The listeners. A tab with no id is ignored; a created tab is refreshed after `restoreRetired`.
unfoldable pub on_created : ChromeTabView → TabRegistry → TabRegistry
on_created tab r = elim tab.id [ none ↦ r | some c ↦ (refresh c tab r).0 ]

unfoldable pub on_removed : ℕ → TabRegistry → TabRegistry
on_removed = retire

unfoldable pub on_updated : ℕ → ChromeTabView → TabRegistry → TabRegistry
on_updated c tab r = elim (lookup c r.known) [ none ↦ r | some known ↦ (refresh c tab r).0 ]

unfoldable pub on_replaced : ℕ → ℕ → TabRegistry → TabRegistry
on_replaced added removed r =
    let retired = retire removed r in record retired { known = delete added retired.known }
