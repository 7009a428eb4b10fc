-- ===== src/Tabs/Worker.antt =====
-- A worker's whole life: the registry that a restore gives, and every operation and event after it.
-- Here a start is a whole restore, with nothing happening before it ends.
use arc_browser_mcp.Prelude.{◌≡◌, true, Bool, some, List, ℕ}
use arc_browser_mcp.Tabs.ProjectId.Decimal.{Text}
use arc_browser_mcp.Tabs.ProjectId.Parsing.{is_epoch}
use arc_browser_mcp.Tabs.Registry.{
  KnownTab, Stored, TabRegistry, err, tab_not_found, lookup, retire, counter_of,
}
use arc_browser_mcp.Tabs.Operations.{Tabs, Loads, resolve}
use arc_browser_mcp.Tabs.Tombstones.{
  IsCurrent, retire-IsCurrent, forget-IsCurrent, refresh_in-IsCurrent,
}
use arc_browser_mcp.Tabs.Moves.{Move, moves, moves-keeps}
use arc_browser_mcp.Tabs.Lifetimes.{resolve-retired}
use arc_browser_mcp.Tabs.Restore.{Counted, started, started-IsCurrent}

restored_IsCurrent :
    (epoch : Text) (r : TabRegistry)
    → IsCurrent epoch r
    → IsCurrent epoch (record r { restored = true })
unfolding counter_of
restored_IsCurrent epoch r c = record { in_epoch = c.in_epoch; counted = c.counted; ids = c.ids }

moves-IsCurrent :
    (epoch : Text) (ms : List Move) (r : TabRegistry)
    → IsCurrent epoch r
    → IsCurrent epoch (moves ms r)
moves-IsCurrent epoch =
    moves-keeps epoch (IsCurrent epoch) (λ r c. c.in_epoch) (restored_IsCurrent epoch)
      (λ d r c. retire-IsCurrent epoch r c d) (λ d r c. forget-IsCurrent epoch r c d)
      (λ d tab r c. refresh_in-IsCurrent epoch r c d tab)

module _ (loads : Loads) (generated : Text) (saved : Bool) (store : Stored)
    (hex : is_epoch generated ≡ true) (counted : Counted store.counters) where
  abbrev worker : List Move → TabRegistry
  worker ms = moves ms (started loads generated saved store)

  -- If a generated epoch has 32 hexadecimal digits and the stored counters are at least 1: after a
  -- worker's start, whichever loads of it succeed, and any operations and events, the registry
  -- runs under one epoch of 32 hexadecimal digits, and each known tab has the project id that the
  -- epoch, its number and, for a number used before, its counter render.
  pub worker-IsCurrent :
      (ms : List Move) → (epoch : Text) × (is_epoch epoch ≡ true) × IsCurrent epoch (worker ms)
  worker-IsCurrent ms =
      let (epoch, proper, current) = started-IsCurrent generated saved store hex counted loads in
      (epoch, proper, moves-IsCurrent epoch ms (started loads generated saved store) current)

  -- If a generated epoch has 32 hexadecimal digits and the stored counters are at least 1:
  -- whatever a worker has done since its start, the project id of a known tab is dead once its
  -- number is retired, as closing, removal, replacement and absence from a list retire it: after
  -- any further operations and events, with chrome giving the number to other tabs or not, the id
  -- is not found.
  pub worker-resolve_retired :
      (ms : List Move) (c : ℕ) (k : KnownTab)
      → lookup c (worker ms).known ≡ some k
      → (later : List Move) (tabs : Tabs)
      → (resolve tabs k.project_id (moves later (retire c (worker ms)))).1 ≡ err tab_not_found
  worker-resolve_retired ms c k known later tabs =
      let (epoch, proper, current) = worker-IsCurrent ms in
      resolve-retired epoch (worker ms) c k proper current known later tabs
