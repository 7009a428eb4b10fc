-- ===== src/Tabs/Registry.antt =====
-- extension/src/tabs.ts, the class `TabRegistry`. What chrome answers is an argument of each
-- operation: a query's tabs, the tab of a call or `none` where the call is rejected. Each function but
-- finish_restore is one stretch between two awaits, so that events may come in between; `resolve` is
-- the part of each operation up to its own call of chrome. Titles and addresses are lists of code
-- units.
use arc_browser_mcp.Prelude.{
  ℕ, suc, ◌+◌, Bool, true, false, not, ◌&&◌, ◌||◌, Option, none, some, List, [], ◌∷◌, leb, ◌==◌,
  if◌then◌else◌,
}
use arc_browser_mcp.Text.{codes}
use arc_browser_mcp.Tabs.ProjectId.Decimal.{Text}
use arc_browser_mcp.Tabs.ProjectId.Parsing.{project_id}

pub record ChromeTabView : Type 0 where
  pub id : Option ℕ
  pub url : Option Text
  pub pending_url : Option Text
  pub title : Option Text
  pub active : Bool
  pub pinned : Bool
  pub window_id : ℕ

pub record ProjectTabRecord : Type 0 where
  pub id : Text
  pub title : Text
  pub url : Text
  pub active : Bool
  pub pinned : Bool
  pub window_id : ℕ
  pub controllable : Bool

-- `not_initialized` is the plain error of a registry that has no epoch yet.
pub data TabError : Type 0 where
  tab_not_found tab_invalid_id tab_create_failed tab_close_failed tab_not_controllable : TabError
  tab_url_not_allowed tab_history_unavailable tab_navigation_failed not_initialized : TabError

pub data Result {ℓ} (A : Type ℓ) : Type ℓ where
  ok : A → Result A
  err : TabError → Result A

lower : ℕ → ℕ
lower c = if leb b'A' c && leb c b'Z' then c + 32 else c

-- A start that is matched without regard to case, as by `/^…/i`.
unfoldable pub starts_with_i : Text → Text → Bool
unfolding lower
starts_with_i [] s = true
starts_with_i (c ∷ p) [] = false
starts_with_i (c ∷ p) (d ∷ s) = lower d == c && starts_with_i p s

unfoldable pub equals_i : Text → Text → Bool
unfolding lower
equals_i [] [] = true
equals_i (c ∷ p) (d ∷ s) = lower d == c && equals_i p s
equals_i _ _ = false

unfoldable pub is_controllable_url : Text → Bool
is_controllable_url url = starts_with_i (codes "http:") url || starts_with_i (codes "https:") url

unfoldable pub is_privileged_source : Text → Bool
is_privileged_source url =
    (starts_with_i (codes "chrome:") url
      || starts_with_i (codes "arc:") url
      || starts_with_i (codes "chrome-extension:") url
      || starts_with_i (codes "devtools:") url
      || starts_with_i (codes "view-source:") url
      || starts_with_i (codes "edge:") url
      || starts_with_i (codes "about:") url)
    && not (equals_i (codes "about:blank") url)

or_empty : Option Text → Text
or_empty none = []
or_empty (some s) = s

effective_url_of : Option Text → Option Text → Text
unfolding or_empty
effective_url_of (some (c ∷ s)) pending_url = c ∷ s
effective_url_of _ pending_url = or_empty pending_url

unfoldable pub effective_url : ChromeTabView → Text
unfolding effective_url_of
effective_url tab = effective_url_of tab.url tab.pending_url

unfoldable pub to_record : Text → ChromeTabView → ProjectTabRecord
unfolding or_empty
to_record project_id tab = record {
  id = project_id;
  title = or_empty tab.title;
  url = effective_url tab;
  active = tab.active;
  pinned = tab.pinned;
  window_id = tab.window_id;
  controllable = is_controllable_url (effective_url tab);
}

pub record KnownTab : Type 0 where
  pub project_id : Text
  pub tab : ProjectTabRecord

-- What the session store holds.
pub record Stored : Type 0 where
  pub retired : List ℕ
  pub counters : List (ℕ × ℕ)
  pub epoch : Option Text

pub record TabRegistry : Type 0 where
  pub known : List (ℕ × KnownTab)
  pub retired : List ℕ
  pub reuse_counters : List (ℕ × ℕ)
  pub restored : Bool
  pub epoch : Option Text
  pub store : Stored

-- Map.get, Map.set, Map.delete; Set.has and Set.add.
module _ {ℓ} {V : Type ℓ} where
  unfoldable pub lookup : ℕ → List (ℕ × V) → Option V
  lookup id [] = none
  lookup id ((key, value) ∷ rest) = if key == id then some value else lookup id rest

  unfoldable pub insert : ℕ → V → List (ℕ × V) → List (ℕ × V)
  insert id given ((key, value) ∷ rest) =
      if key == id then (key, given) ∷ rest else (key, value) ∷ insert id given rest
  insert id given [] = (id, given) ∷ []

  unfoldable pub delete : ℕ → List (ℕ × V) → List (ℕ × V)
  delete k [] = []
  delete k ((j, v) ∷ m) = let rest = delete k m in if j == k then rest else (j, v) ∷ rest

unfoldable pub has : ℕ → List ℕ → Bool
has k [] = false
has k (j ∷ s) = j == k || has k s

unfoldable pub add : ℕ → List ℕ → List ℕ
add k [] = k ∷ []
add k (j ∷ s) = if j == k then j ∷ s else j ∷ add k s

-- The store that a write leaves; a write that fails changes nothing and is ignored. Both writes of
-- `persist` are taken to succeed.
unfoldable pub persist : TabRegistry → TabRegistry
persist r = record r { store = record r.store { retired = r.retired; counters = r.reuse_counters } }

unfoldable pub retire : ℕ → TabRegistry → TabRegistry
unfolding persist
retire c r = persist (record r { known = delete c r.known; retired = add c r.retired })

-- (this.reuseCounters.get(chromeId) ?? 1)
unfoldable pub counter_of : ℕ → TabRegistry → ℕ
counter_of c r = elim (lookup c r.reuse_counters) [ none ↦ 1 | some n ↦ n ]

unfoldable pub fresh_project_id : Text → ℕ → TabRegistry → TabRegistry × Text
fresh_project_id epoch c r =
    if has c r.retired
    then (
      persist (record r { reuse_counters = insert c (suc (counter_of c r)) r.reuse_counters }),
      project_id epoch c (some (suc (counter_of c r))),
    )
    else (r, project_id epoch c none)

unfoldable pub assign_project_id : Text → ℕ → TabRegistry → TabRegistry × Text
unfolding fresh_project_id
assign_project_id epoch c r = elim (lookup c r.known) [
  | some existing ↦ (r, existing.project_id)
  | none ↦ fresh_project_id epoch c r
]

-- `refresh` once the epoch is known.
unfoldable pub refresh_in : Text → ℕ → ChromeTabView → TabRegistry → TabRegistry × ProjectTabRecord
refresh_in epoch c tab r =
    let (next, id) = assign_project_id epoch c r in
    let view = to_record id tab in
    (record next { known = insert c (record { project_id = id; tab = view }) next.known }, view)

unfoldable pub refresh : ℕ → ChromeTabView → TabRegistry → TabRegistry × Result ProjectTabRecord
refresh c tab r = elim r.epoch [
  | none ↦ (r, err not_initialized)
  | some epoch ↦ let (next, view) = refresh_in epoch c tab r in (next, ok view)
]
