-- ===== src/Tabs/Tombstones.antt =====
-- What the registry's primitive changes keep: the ids of known tabs, and the death of an old id.
use arc_browser_mcp.Prelude.{
  ℕ, suc, ◌≤◌, ◌<◌, ◌≡◌, ◌≢◌, refl, ap, ◌∙◌, ◌⊎◌, inl, inr, true, Option, none, some, arith, ◌==◌,
  if◌then◌else◌, Option-cases,
}
use arc_browser_mcp.Tabs.ProjectId.Decimal.{Text}
use arc_browser_mcp.Tabs.ProjectId.Parsing.{project_id}
use arc_browser_mcp.Tabs.Registry.{
  ChromeTabView, KnownTab, TabRegistry, lookup, delete, has, persist, retire, counter_of,
  fresh_project_id, assign_project_id, refresh_in, to_record,
}
use arc_browser_mcp.Tabs.Maps.{lookup-insert, lookup-delete, has-add}

-- The suffix that the next or current id of a number carries.
abbrev pub suffix_now : ℕ → TabRegistry → Option ℕ
suffix_now c r = if has c r.retired then some (counter_of c r) else none

-- The registry runs under the epoch, counters start at 1, and each known tab has the id of its number
-- and counter.
pub record IsCurrent (epoch : Text) (r : TabRegistry) : Type 0 where
  pub in_epoch : r.epoch ≡ some epoch
  pub counted : (c : ℕ) → 1 ≤ counter_of c r
  pub ids :
      (c : ℕ) (k : KnownTab)
      → lookup c r.known ≡ some k
      → k.project_id ≡ project_id epoch c (suffix_now c r)

-- The ids of a number with a counter up to `n` are dead: the number is retired, and its counter is
-- past `n` or no tab is known under the number.
pub record IsDead (c n : ℕ) (r : TabRegistry) : Type 0 where
  pub buried : has c r.retired ≡ true
  pub reached : n ≤ counter_of c r
  pub past : (n < counter_of c r) ⊎ (lookup c r.known ≡ none)

module _ (epoch : Text) (r : TabRegistry) (c : ℕ) where
  pub assigned : TabRegistry
  assigned = (assign_project_id epoch c r).0

  -- What giving out an id leaves alone.
  pub assigned-same :
      (assigned.known ≡ r.known) × (assigned.retired ≡ r.retired) × (assigned.epoch ≡ r.epoch)
  unfolding assigned assign_project_id fresh_project_id persist
  assigned-same = ground arith

  pub assigned-counter : (d : ℕ) → d ≢ c → counter_of d assigned ≡ counter_of d r
  unfolding assigned assign_project_id fresh_project_id persist counter_of
  assigned-counter d ne = ground (arith, lookup-insert c d (suc (counter_of c r)) r.reuse_counters)

  -- The entry that a refresh writes.
  pub entry : ChromeTabView → KnownTab
  entry tab =
      let id = (assign_project_id epoch c r).1 in record { project_id = id; tab = to_record id tab }

  pub lookup-refresh_in :
      (tab : ChromeTabView) (d : ℕ)
      → lookup d (refresh_in epoch c tab r).0.known
        ≡ (if c == d then some (entry tab) else lookup d r.known)
  unfolding refresh_in assigned entry
  lookup-refresh_in tab d =
      lookup-insert c d (entry tab) assigned.known
      ∙ ap (λ m. if c == d then some (entry tab) else lookup d m) assigned-same.0

  pub refresh_in-fields :
      (tab : ChromeTabView)
      → let next = (refresh_in epoch c tab r).0 in
        (next.retired ≡ r.retired)
        × (next.epoch ≡ r.epoch)
        × ((d : ℕ) → counter_of d next ≡ counter_of d assigned)
  unfolding refresh_in assigned counter_of
  refresh_in-fields tab = (assigned-same.1, assigned-same.2, λ d. refl)

  -- A number that is retired and has no known tab has its counter raised.
  pub assigned-counter_self :
      (lookup c r.known ≡ none
        → has c r.retired ≡ true
        → counter_of c assigned ≡ suc (counter_of c r))
      × (lookup c r.known ≢ none → counter_of c assigned ≡ counter_of c r)
  unfolding assigned assign_project_id fresh_project_id persist counter_of
  assigned-counter_self = (
    λ unknown buried. ground (arith, lookup-insert c c (suc (counter_of c r)) r.reuse_counters),
    λ known. ground arith,
  )

module _ (epoch : Text) (r : TabRegistry) (current : IsCurrent epoch r) where
  pub retire-IsCurrent : (c : ℕ) → IsCurrent epoch (retire c r)
  unfolding retire persist counter_of
  retire-IsCurrent c = record {
    in_epoch = current.in_epoch;
    counted = current.counted;
    ids =
        λ d k h. ground (arith, lookup-delete c d r.known, has-add c d r.retired, current.ids d k);
  }

  pub forget-IsCurrent : (c : ℕ) → IsCurrent epoch (record r { known = delete c r.known })
  unfolding counter_of
  forget-IsCurrent c = record {
    in_epoch = current.in_epoch;
    counted = current.counted;
    ids = λ d k h. ground (arith, lookup-delete c d r.known, current.ids d k);
  }

  pub assigned-id :
      (c : ℕ)
      → (assign_project_id epoch c r).1 ≡ project_id epoch c (suffix_now c (assigned epoch r c))
  unfolding assigned assign_project_id fresh_project_id persist counter_of
  assigned-id c = elim (Option-cases (lookup c r.known)) [
    | inl unknown ↦
        ground (arith, unknown, lookup-insert c c (suc (counter_of c r)) r.reuse_counters)
    | inr (k, known) ↦ ground (arith, known, current.ids c k known)
  ]

  assigned-counted : (c d : ℕ) → 1 ≤ counter_of d (assigned epoch r c)
  unfolding assigned assign_project_id fresh_project_id persist counter_of
  assigned-counted c d =
      ground (arith, current.counted d, lookup-insert c d (suc (counter_of c r)) r.reuse_counters)

  pub refresh_in-IsCurrent :
      (c : ℕ) (tab : ChromeTabView) → IsCurrent epoch (refresh_in epoch c tab r).0
  unfolding refresh_in assigned entry counter_of
  refresh_in-IsCurrent c tab = record {
    in_epoch = (assigned-same epoch r c).2 ∙ current.in_epoch;
    counted = λ d. assigned-counted c d;
    ids = λ d k h. ground (
      arith,
      lookup-refresh_in epoch r c tab d,
      assigned-id c,
      assigned-same epoch r c,
      assigned-counter epoch r c d,
      current.ids d k,
    );
  }
