-- ===== src/Tabs/Moves.antt =====
-- Everything that happens to a registry once it is restored, as moves.
use arc_browser_mcp.Prelude.{
  ℕ, ◌≡◌, sym, subst, Bool, true, false, Option, none, some, List, [], ◌∷◌, if◌then◌else◌,
  Option-cases, inl, inr,
}
use arc_browser_mcp.Tabs.ProjectId.Decimal.{Text}
use arc_browser_mcp.Tabs.Registry.{
  ChromeTabView, KnownTab, TabRegistry, TabError, lookup, delete, has, retire, refresh_in, refresh,
}
use arc_browser_mcp.Tabs.ProjectId.Parsing.{parse_project_id}
use arc_browser_mcp.Tabs.Operations.{
  Tabs, begin_restore, live_ids, retire_dead, refresh_all, refresh_all_or_fail, list, resolve,
  opened, closed, Updated, update_failed, update_missing, updated, updated_with, activated,
  navigated, after_history, went_in_history, reloaded, on_created, on_removed, on_updated,
  on_replaced,
}

-- Calls of operations, as far as they run between two awaits, and events, in any order. `resolves`
-- is the first part of closing, activating, navigating, reloading and going through history.
pub data Move : Type 0 where
  begins_restore : Move
  lists : Tabs → Move
  resolves : Tabs → Text → Move
  opens : Option ChromeTabView → Move
  closes : ℕ → Bool → Move
  activates navigates : Updated → Move
  goes_in_history reloads : ℕ → Bool → Option ChromeTabView → Move
  creates : ChromeTabView → Move
  removes : ℕ → Move
  updates : ℕ → ChromeTabView → Move
  replaces : ℕ → ℕ → Move

unfoldable pub move : Move → TabRegistry → TabRegistry
move begins_restore r = (begin_restore r).0
move (lists tabs) r = (list tabs r).0
move (resolves tabs id) r = (resolve tabs id r).0
move (opens tab) r = (opened tab r).0
move (closes c removed) r = (closed c removed r).0
move (activates u) r = (activated u r).0
move (navigates u) r = (navigated u r).0
move (goes_in_history c done tab) r = (went_in_history c done tab r).0
move (reloads c done tab) r = (reloaded c done tab r).0
move (creates tab) r = on_created tab r
move (removes c) r = on_removed c r
move (updates c tab) r = on_updated c tab r
move (replaces added removed) r = on_replaced added removed r

unfoldable pub moves : List Move → TabRegistry → TabRegistry
moves [] r = r
moves (m ∷ ms) r = moves ms (move m r)

-- What the registry's three primitive changes keep under an epoch, every move keeps.
module _ (epoch : Text) (P : TabRegistry → Type 0)
    (in_epoch : (r : TabRegistry) → P r → r.epoch ≡ some epoch)
    (restored : (r : TabRegistry) → P r → P (record r { restored = true }))
    (retired : (c : ℕ) (r : TabRegistry) → P r → P (retire c r))
    (forgot : (c : ℕ) (r : TabRegistry) → P r → P (record r { known = delete c r.known }))
    (refreshed : (c : ℕ) (tab : ChromeTabView) (r : TabRegistry)
      → P r
      → P (refresh_in epoch c tab r).0) where
  begin_restore-keeps : (r : TabRegistry) → P r → P (begin_restore r).0
  unfolding begin_restore
  begin_restore-keeps r p = by_flag r.restored
    where
      by_flag :
          (b : Bool)
          → P
              (if◌then◌else◌ {A = TabRegistry × Bool} b
                (r, false)
                (record r { restored = true }, true)).0
      by_flag true = p
      by_flag false = restored r p

  refresh-keeps : (c : ℕ) (tab : ChromeTabView) (r : TabRegistry) → P r → P (refresh c tab r).0
  unfolding refresh
  refresh-keeps c tab r p = rw (in_epoch r p, refresh) (refreshed c tab r p)

  pub retire_dead-keeps :
      (live : List ℕ) (known : List (ℕ × KnownTab)) (r : TabRegistry)
      → P r
      → P (retire_dead live known r)
  unfolding retire_dead
  retire_dead-keeps live [] r p = p
  retire_dead-keeps live ((c, k) ∷ known) r p =
      retire_dead-keeps live known _ (by_life (has c live))
    where
      by_life : (b : Bool) → P (if b then r else retire c r)
      by_life true = p
      by_life false = retired c r p

  refresh_all-keeps : (tabs : Tabs) (r : TabRegistry) → P r → P (refresh_all epoch tabs r).0
  unfolding refresh_all
  refresh_all-keeps [] r p = p
  refresh_all-keeps (tab ∷ tabs) r p = elim (Option-cases tab.id) [
    | inl absent ↦ rw (absent, refresh_all) (refresh_all-keeps tabs r p)
    | inr (c, given) ↦
        rw (given, refresh_all)
          (refresh_all-keeps tabs (refresh_in epoch c tab r).0 (refreshed c tab r p))
  ]

  pub list-keeps : (tabs : Tabs) (r : TabRegistry) → P r → P (list tabs r).0
  unfolding list refresh_all_or_fail
  list-keeps tabs r p =
      let kept = retire_dead-keeps (live_ids tabs) r.known r p in
      let reconciled = retire_dead (live_ids tabs) r.known r in
      subst (λ o. P (refresh_all_or_fail o tabs reconciled).0) (sym (in_epoch reconciled kept))
        (refresh_all-keeps tabs reconciled kept)

  resolve-keeps : (tabs : Tabs) (id : Text) (r : TabRegistry) → P r → P (resolve tabs id r).0
  unfolding resolve
  resolve-keeps tabs id r p = elim (Option-cases (parse_project_id id)) [
    | inl bad ↦ rw (bad, resolve) p
    | inr (parsed, good) ↦ rw (good, resolve) (list-keeps tabs r p)
  ]

  opened-keeps : (tab : Option ChromeTabView) (r : TabRegistry) → P r → P (opened tab r).0
  unfolding opened
  opened-keeps none r p = p
  opened-keeps (some tab) r p = elim (Option-cases tab.id) [
    | inl absent ↦ rw (absent, opened) p
    | inr (c, given) ↦ rw (given, opened) (refresh-keeps c tab r p)
  ]

  closed-keeps : (c : ℕ) (removed : Bool) (r : TabRegistry) → P r → P (closed c removed r).0
  unfolding closed
  closed-keeps c true r p = retired c r p
  closed-keeps c false r p = p

  updated_with-keeps :
      (failure : TabError) (u : Updated) (r : TabRegistry) → P r → P (updated_with failure u r).0
  unfolding updated_with
  updated_with-keeps failure update_failed r p = p
  updated_with-keeps failure update_missing r p = p
  updated_with-keeps failure (updated tab) r p = elim (Option-cases tab.id) [
    | inl absent ↦ rw (absent, updated_with) p
    | inr (c, given) ↦ rw (given, updated_with) (refresh-keeps c tab r p)
  ]

  after_history-keeps :
      (c : ℕ) (tab : Option ChromeTabView) (r : TabRegistry) → P r → P (after_history c tab r).0
  unfolding after_history
  after_history-keeps c none r p = p
  after_history-keeps c (some tab) r p = refresh-keeps c tab r p

  on_created-keeps : (tab : ChromeTabView) (r : TabRegistry) → P r → P (on_created tab r)
  unfolding on_created
  on_created-keeps tab r p = elim (Option-cases tab.id) [
    | inl absent ↦ rw (absent, on_created) p
    | inr (c, given) ↦ rw (given, on_created) (refresh-keeps c tab r p)
  ]

  on_updated-keeps : (c : ℕ) (tab : ChromeTabView) (r : TabRegistry) → P r → P (on_updated c tab r)
  unfolding on_updated
  on_updated-keeps c tab r p = elim (Option-cases (lookup c r.known)) [
    | inl absent ↦ rw (absent, on_updated) p
    | inr (k, given) ↦ rw (given, on_updated) (refresh-keeps c tab r p)
  ]

  move-keeps : (m : Move) (r : TabRegistry) → P r → P (move m r)
  unfolding move activated navigated went_in_history reloaded on_removed on_replaced
  move-keeps begins_restore r p = begin_restore-keeps r p
  move-keeps (lists tabs) r p = list-keeps tabs r p
  move-keeps (resolves tabs id) r p = resolve-keeps tabs id r p
  move-keeps (opens tab) r p = opened-keeps tab r p
  move-keeps (closes c removed) r p = closed-keeps c removed r p
  move-keeps (activates u) r p = updated_with-keeps _ u r p
  move-keeps (navigates u) r p = updated_with-keeps _ u r p
  move-keeps (goes_in_history c true tab) r p = after_history-keeps c tab r p
  move-keeps (goes_in_history c false tab) r p = p
  move-keeps (reloads c true tab) r p = after_history-keeps c tab r p
  move-keeps (reloads c false tab) r p = p
  move-keeps (creates tab) r p = on_created-keeps tab r p
  move-keeps (removes c) r p = retired c r p
  move-keeps (updates c tab) r p = on_updated-keeps c tab r p
  move-keeps (replaces added removed) r p = forgot added (retire removed r) (retired removed r p)

  pub moves-keeps : (ms : List Move) (r : TabRegistry) → P r → P (moves ms r)
  unfolding moves
  moves-keeps [] r p = p
  moves-keeps (m ∷ ms) r p = moves-keeps ms (move m r) (move-keeps m r p)
