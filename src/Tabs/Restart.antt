-- ===== src/Tabs/Restart.antt =====
-- A worker of tabs.ts that starts again with what the store holds, and the id of a tab that is still
-- there.
use arc_browser_mcp.Prelude.{
  ℕ, suc, ◌≡◌, ◌≢◌, refl, sym, ap, ◌∙◌, Bool, true, ◌||◌, Option, none, some, List, [], ◌∷◌, arith,
}
use arc_browser_mcp.Tabs.ProjectId.Decimal.{Text}
use arc_browser_mcp.Tabs.ProjectId.Parsing.{is_epoch, project_id}
use arc_browser_mcp.Tabs.Registry.{
  ChromeTabView, Stored, TabRegistry, lookup, insert, has, add, counter_of, refresh_in, persist,
  assign_project_id, fresh_project_id, to_record,
}
use arc_browser_mcp.Tabs.Operations.{
  new_registry, begin_restore, all_succeed, set_all, add_all, load, load_epoch, load_retired,
  load_counters, conclude, finish_restore,
}
use arc_browser_mcp.Tabs.Maps.{lookup-insert, has-add}
use arc_browser_mcp.Tabs.Lifetimes.{project_id-injective}
use arc_browser_mcp.Tabs.Restore.{started}

-- No key stands twice, as in a Map.
abbrev pub IsKeyed : List (ℕ × ℕ) → Type 0
IsKeyed [] = Unit
IsKeyed ((k, v) ∷ m) = (lookup k m ≡ none) × IsKeyed m

insert-IsKeyed : (k v : ℕ) (m : List (ℕ × ℕ)) → IsKeyed m → IsKeyed (insert k v m)
unfolding insert lookup
insert-IsKeyed k v [] h = (refl, tt)
insert-IsKeyed k v ((j, w) ∷ m) h =
    ground (arith, insert-IsKeyed k v m h.1, lookup-insert k j v m, h.0)

lookup-set_all :
    (kvs m : List (ℕ × ℕ)) (c : ℕ)
    → IsKeyed kvs
    → lookup c (set_all kvs m)
      ≡ elim (lookup c kvs) as (λ x. Option ℕ) [ none ↦ lookup c m | some v ↦ some v ]
unfolding set_all lookup
lookup-set_all [] m c h = refl
lookup-set_all ((k, v) ∷ kvs) m c h =
    ground (arith, lookup-set_all kvs (insert k v m) c h.1, lookup-insert k c v m, h.0)

has-add_all : (ks s : List ℕ) (c : ℕ) → has c (add_all ks s) ≡ (has c ks || has c s)
unfolding add_all has
has-add_all [] s c = refl
has-add_all (k ∷ ks) s c = ground (arith, has-add_all ks (add k s) c, has-add k c s)

-- What a worker has that starts with a proper epoch in the store, if all loads succeed.
started-stored :
    (epoch generated : Text) (saved : Bool) (store : Stored)
    → is_epoch epoch ≡ true
    → store.epoch ≡ some epoch
    → started all_succeed generated saved store ≡ record {
      known = [];
      retired = add_all store.retired [];
      reuse_counters = set_all store.counters [];
      restored = true;
      epoch = some epoch;
      store = store;
    }
unfolding finish_restore begin_restore new_registry load load_epoch load_retired load_counters
    conclude
started-stored epoch generated saved store hex at = ground (arith, hex, at)

-- The id that a tab gets which is not known, if its number was used before.
refresh_in-fresh_id :
    (epoch : Text) (r : TabRegistry) (c : ℕ) (tab : ChromeTabView)
    → lookup c r.known ≡ none
    → has c r.retired ≡ true
    → (refresh_in epoch c tab r).1.id ≡ project_id epoch c (some (suc (counter_of c r)))
unfolding refresh_in assign_project_id fresh_project_id to_record
refresh_in-fresh_id epoch r c tab unknown reused = ground (arith, unknown, reused)

-- What the store holds after that.
refresh_in-store :
    (epoch : Text) (r : TabRegistry) (c : ℕ) (tab : ChromeTabView)
    → lookup c r.known ≡ none
    → has c r.retired ≡ true
    → (refresh_in epoch c tab r).0.store ≡ record r.store {
      retired = r.retired;
      counters = insert c (suc (counter_of c r)) r.reuse_counters;
    }
unfolding refresh_in assign_project_id fresh_project_id to_record persist
refresh_in-store epoch r c tab unknown reused = ground (arith, unknown, reused)

stored_counter :
    (c n : ℕ) (m : List (ℕ × ℕ)) → IsKeyed m → lookup c (set_all (insert c n m) []) ≡ some n
stored_counter c n m keyed =
    ground (
      arith,
      lookup-set_all (insert c n m) [] c (insert-IsKeyed c n m keyed),
      lookup-insert c c n m,
    )

module _ (epoch generated : Text) (saved : Bool) (r : TabRegistry) (c : ℕ)
    (tab : ChromeTabView) where
  -- The worker that starts again after a tab was seen for the first time under its number.
  abbrev pub restarted : TabRegistry
  restarted = started all_succeed generated saved (refresh_in epoch c tab r).0.store

  -- A tab whose number was used before gets an id with the next counter; if the worker then starts
  -- again with what the store holds, and all loads succeed, the tab, which is still there, gets
  -- another id, with the counter after that.
  pub restart-changes_reused_id :
      (later : ChromeTabView)
      → is_epoch epoch ≡ true
      → r.store.epoch ≡ some epoch
      → IsKeyed r.reuse_counters
      → lookup c r.known ≡ none
      → has c r.retired ≡ true
      → let n = counter_of c r in
        ((refresh_in epoch c tab r).1.id ≡ project_id epoch c (some (suc n)))
        × ((refresh_in epoch c later restarted).1.id ≡ project_id epoch c (some (suc (suc n))))
        × ((refresh_in epoch c later restarted).1.id ≢ (refresh_in epoch c tab r).1.id)
  restart-changes_reused_id later hex at keyed unknown reused =
      let n = counter_of c r in
      let first = refresh_in-fresh_id epoch r c tab unknown reused in
      let held = refresh_in-store epoch r c tab unknown reused in
      let counters = insert c (suc n) r.reuse_counters in
      let stored : Stored = record r.store { retired = r.retired; counters = counters } in
      let loaded =
        ap (started all_succeed generated saved) held
        ∙ started-stored epoch generated saved stored hex at in
      let buried : has c restarted.retired ≡ true =
        ap (λ (q : TabRegistry). has c q.retired) loaded
        ∙ has-add_all r.retired [] c
        ∙ ground (arith, reused) in
      let counted : counter_of c restarted ≡ suc n =
        ap (counter_of c) loaded
        ∙ unfold counter_of in
          ap (λ (o : Option ℕ). elim o as (λ x. ℕ) [ none ↦ 1 | some k ↦ k ])
            (stored_counter c (suc n) r.reuse_counters keyed) in
      let second =
        refresh_in-fresh_id epoch restarted c later
          (ap (λ (q : TabRegistry). lookup c q.known) loaded ∙ unfold lookup in refl) buried
        ∙ ap (λ k. project_id epoch c (some (suc k))) counted in
      (
        first,
        second,
        λ same.
            let suffixes =
              project_id-injective epoch c (some (suc (suc n))) (some (suc n)) hex
                (sym second ∙ same ∙ first) in
            absurd (ground (arith, suffixes)),
      )
