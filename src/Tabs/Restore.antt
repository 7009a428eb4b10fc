-- ===== src/Tabs/Restore.antt =====
-- How the registry starts: what a restore gives, and what happens around it.
use arc_browser_mcp.Prelude.{
  ℕ, ◌≤◌, ◌≡◌, ◌≢◌, refl, sym, ap, subst, ◌∙◌, Bool, true, false, Option, none, some, List, [], ◌∷◌,
  arith, All,
}
use arc_browser_mcp.Tabs.ProjectId.Decimal.{Text}
use arc_browser_mcp.Tabs.ProjectId.Parsing.{is_epoch, project_id}
use arc_browser_mcp.Tabs.Registry.{
  ChromeTabView, KnownTab, Stored, TabRegistry, err, not_initialized, lookup, insert, has, add,
  retire, counter_of, persist,
}
use arc_browser_mcp.Tabs.Operations.{
  Tabs, new_registry, begin_restore, Loads, all_fail, epoch_only, no_counters, all_succeed, set_all,
  add_all, load, load_epoch, load_retired, load_counters, conclude, finish_restore, list,
  refresh_all_or_fail, retire_dead, on_removed,
}
use arc_browser_mcp.Tabs.Maps.{lookup-insert}
use arc_browser_mcp.Tabs.Tombstones.{suffix_now, IsCurrent}

abbrev pub Counted : List (ℕ × ℕ) → Type 0
Counted = All λ x. 1 ≤ x.1

set_all-Counted :
    (kvs m : List (ℕ × ℕ)) (c n : ℕ)
    → Counted kvs
    → ((d k : ℕ) → lookup d m ≡ some k → 1 ≤ k)
    → lookup c (set_all kvs m) ≡ some n
    → 1 ≤ n
unfolding set_all
set_all-Counted [] m c n h hm e = hm c n e
set_all-Counted ((k, v) ∷ kvs) m c n h hm e =
    set_all-Counted kvs (insert k v m) c n h.1
      (λ d j f. ground (arith, lookup-insert k d v m, hm d j)) e

-- The registry of a worker that starts with what the store holds.
abbrev pub started : Loads → Text → Bool → Stored → TabRegistry
started loads generated saved store =
    finish_restore loads generated saved (begin_restore (new_registry store)).0

-- What a registry has after its loads: no known tab, counters from 1 on, and a proper epoch or none.
record IsLoaded (r : TabRegistry) : Type 0 where
  empty : r.known ≡ []
  counted : (c : ℕ) → 1 ≤ counter_of c r
  proper : (e : Text) → r.epoch ≡ some e → is_epoch e ≡ true

new_registry-IsLoaded : (store : Stored) → IsLoaded (begin_restore (new_registry store)).0
unfolding new_registry begin_restore counter_of lookup
new_registry-IsLoaded store = record {
  empty = refl;
  counted = λ c. omega arith;
  proper = λ e h. cc;
}

load_epoch-same :
    (r : TabRegistry)
    → ((load_epoch r).known ≡ r.known)
      × ((load_epoch r).reuse_counters ≡ r.reuse_counters)
      × ((load_epoch r).store ≡ r.store)
      × ((load_epoch r).retired ≡ r.retired)
unfolding load_epoch
load_epoch-same r = ground arith

load_epoch-IsLoaded : (r : TabRegistry) → IsLoaded r → IsLoaded (load_epoch r)
unfolding counter_of
load_epoch-IsLoaded r l = record {
  empty = (load_epoch-same r).0 ∙ l.empty;
  counted = λ c. ground (arith, load_epoch-same r, l.counted c);
  proper = λ e h. unfold load_epoch in ground (arith, l.proper e);
}

load_retired-IsLoaded : (r : TabRegistry) → IsLoaded r → IsLoaded (load_retired r)
unfolding load_retired counter_of
load_retired-IsLoaded r l = record { empty = l.empty; counted = l.counted; proper = l.proper }

load_counters-IsLoaded :
    (r : TabRegistry)
    → Counted r.store.counters
    → r.reuse_counters ≡ []
    → IsLoaded r
    → IsLoaded (load_counters r)
unfolding load_counters counter_of
load_counters-IsLoaded r counted none_yet l = record {
  empty = l.empty;
  counted = λ c. at_least_one c (lookup c (set_all r.store.counters r.reuse_counters)) refl;
  proper = l.proper;
}
  where
    at_least_one :
        (c : ℕ) (o : Option ℕ)
        → lookup c (set_all r.store.counters r.reuse_counters) ≡ o
        → 1 ≤ elim o as (λ _. ℕ) [ none ↦ 1 | some n ↦ n ]
    at_least_one c none e = omega arith
    at_least_one c (some n) e =
        set_all-Counted r.store.counters r.reuse_counters c n counted
          (λ d k f. unfold lookup in cc none_yet) e

-- The end of a restore.
concluded :
    (generated : Text) (saved : Bool) (loaded : TabRegistry) (o : Option Text)
    → is_epoch generated ≡ true
    → IsLoaded loaded
    → loaded.epoch ≡ o
    → (epoch : Text) × (is_epoch epoch ≡ true) × IsCurrent epoch (conclude generated saved loaded o)
unfolding conclude
concluded generated saved loaded (some epoch) hex l e = (
  epoch,
  l.proper epoch e,
  record { in_epoch = e; counted = l.counted; ids = λ c k h. nothing_known c k h },
)
  where
    nothing_known :
        (c : ℕ) (k : KnownTab)
        → lookup c loaded.known ≡ some k
        → k.project_id ≡ project_id epoch c (suffix_now c loaded)
    nothing_known c k h = absurd (unfold lookup in cc (sym (ap (lookup c) l.empty) ∙ h))
concluded generated saved loaded none hex l e = (
  generated,
  hex,
  record {
    in_epoch = refl;
    counted = unfold counter_of in l.counted;
    ids = λ c k h. absurd (unfold lookup in cc (sym (ap (lookup c) l.empty) ∙ h));
  },
)

stored_Counted :
    (store : Stored)
    → Counted store.counters
    → Counted (load_retired (load_epoch (begin_restore (new_registry store)).0)).store.counters
unfolding load_retired begin_restore new_registry
stored_Counted store counted =
    subst (λ (x : Stored). Counted x.counters)
      (sym ((load_epoch-same (begin_restore (new_registry store)).0).2)) counted

none_yet :
    (store : Stored)
    → (load_retired (load_epoch (begin_restore (new_registry store)).0)).reuse_counters ≡ []
unfolding load_retired begin_restore new_registry
none_yet store = (load_epoch-same (begin_restore (new_registry store)).0).1

module _ (generated : Text) (saved : Bool) (store : Stored) (hex : is_epoch generated ≡ true)
    (counted : Counted store.counters) where
  start_IsLoaded : (loads : Loads) → IsLoaded (load loads (begin_restore (new_registry store)).0)
  unfolding load
  start_IsLoaded all_fail = new_registry-IsLoaded store
  start_IsLoaded epoch_only = load_epoch-IsLoaded _ (new_registry-IsLoaded store)
  start_IsLoaded no_counters =
      load_retired-IsLoaded _ (load_epoch-IsLoaded _ (new_registry-IsLoaded store))
  start_IsLoaded all_succeed =
      let first = (begin_restore (new_registry store)).0 in
      load_counters-IsLoaded (load_retired (load_epoch first)) (stored_Counted store counted)
        (none_yet store)
        (load_retired-IsLoaded _ (load_epoch-IsLoaded _ (new_registry-IsLoaded store)))

  -- If a generated epoch has 32 hexadecimal digits and the stored counters are at least 1:
  -- whichever loads of a restore succeed, a worker that starts runs under an epoch of 32
  -- hexadecimal digits, and its registry satisfies the invariant.
  pub started-IsCurrent :
      (loads : Loads)
      → (epoch : Text) × (is_epoch epoch ≡ true)
        × IsCurrent epoch (started loads generated saved store)
  unfolding finish_restore
  started-IsCurrent loads =
      let loaded = load loads (begin_restore (new_registry store)).0 in
      concluded generated saved loaded loaded.epoch hex (start_IsLoaded loads) refl

-- Until the epoch is loaded, a list of tabs fails as soon as one of them has an id: so does every
-- operation that is called while the first restore still waits for the store.
pub list-before_restore :
    (store : Stored) (tab : ChromeTabView) (tabs : Tabs) (c : ℕ)
    → tab.id ≡ some c
    → (list (tab ∷ tabs) (begin_restore (new_registry store)).0).1 ≡ err not_initialized
unfolding list refresh_all_or_fail begin_restore new_registry retire_dead
list-before_restore store tab tabs c given = rw given

conclude-retired :
    (generated : Text) (saved : Bool) (loaded : TabRegistry) (o : Option Text)
    → (conclude generated saved loaded o).retired ≡ loaded.retired
unfolding conclude
conclude-retired generated saved loaded (some e) = refl
conclude-retired generated saved loaded none = refl

abbrev early : ℕ → Stored → TabRegistry
early c store = (begin_restore (on_removed c (new_registry store))).0

early-retired :
    (c : ℕ) (store : Stored)
    → ((early c store).retired ≡ c ∷ []) × ((early c store).store.retired ≡ c ∷ [])
unfolding begin_restore on_removed retire persist new_registry add
early-retired c store = (refl, refl)

add_itself : (c : ℕ) → add_all (c ∷ []) (c ∷ []) ≡ c ∷ []
unfolding add_all add
add_itself c = ground arith

has_alone : (c d : ℕ) → c ≢ d → has d (c ∷ []) ≡ false
unfolding has
has_alone c d ne = ground arith

load-retired : (r : TabRegistry) → (load all_succeed r).retired ≡ add_all r.store.retired r.retired
unfolding load load_retired load_counters
load-retired r = let (_, _, kept, same) = load_epoch-same r in rw (kept, same)

-- When a tab is removed before the restore, no other number has a tombstone after the restore,
-- even if all loads succeed and whatever the store held.
pub removed_before_restore :
    (store : Stored) (c d : ℕ) (generated : Text) (saved : Bool)
    → c ≢ d
    → has d
        (finish_restore all_succeed generated saved
          (begin_restore (on_removed c (new_registry store))).0).retired
      ≡ false
unfolding finish_restore
removed_before_restore store c d generated saved ne =
    let r = early c store in
    let loaded = load all_succeed r in
    let (retired, stored) = early-retired c store in
    ap (has d) (
      conclude-retired generated saved loaded loaded.epoch
      ∙ load-retired r
      ∙ ap (add_all r.store.retired) retired
      ∙ ap (λ s. add_all s (c ∷ [])) stored
      ∙ add_itself c)
    ∙ has_alone c d ne
