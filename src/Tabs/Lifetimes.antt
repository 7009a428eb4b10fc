-- ===== src/Tabs/Lifetimes.antt =====
-- The life of a project id: it names one tab while it lives, and never another after.
use arc_browser_mcp.Text.{text_eq, text_eq_iff}
use arc_browser_mcp.Prelude.{
  ℕ, ◌≡◌, refl, sym, ap, subst, ◌∙◌, inl, inr, Bool, true, false, Option, none, some, List, [], ◌∷◌,
  arith, if◌then◌else◌, Bool-cases, Option-cases,
}
use arc_browser_mcp.Tabs.ProjectId.Decimal.{Text}
use arc_browser_mcp.Tabs.ProjectId.Parsing.{
  is_epoch, project_id, parse_project_id, parse-project_id,
}
use arc_browser_mcp.Tabs.Registry.{
  ProjectTabRecord, KnownTab, TabRegistry, ok, err, tab_not_found, lookup, has, retire, counter_of,
  persist,
}
use arc_browser_mcp.Tabs.Operations.{
  Tabs, list, refresh_all, refresh_all_or_fail, retire_dead, live_ids, check_known, resolve,
}
use arc_browser_mcp.Tabs.Maps.{has-add, lookup-delete}
use arc_browser_mcp.Tabs.Tombstones.{
  suffix_now, IsCurrent, IsDead, retire-IsCurrent, forget-IsCurrent, refresh_in-IsCurrent,
}
use arc_browser_mcp.Tabs.Death.{retire-IsDead, forget-IsDead, refresh_in-IsDead}
use arc_browser_mcp.Tabs.Moves.{Move, moves, moves-keeps, list-keeps}

-- Two ids of one number and epoch have the same suffix.
pub project_id-injective :
    (epoch : Text) (c : ℕ) (s t : Option ℕ)
    → is_epoch epoch ≡ true
    → project_id epoch c s ≡ project_id epoch c t
    → s ≡ t
project_id-injective epoch c s t h e =
    let same =
      sym (parse-project_id epoch c s h) ∙ ap parse_project_id e ∙ parse-project_id epoch c t h in
    cc same

pub epoch-retire_dead :
    (live : List ℕ) (known : List (ℕ × KnownTab)) (r : TabRegistry)
    → (retire_dead live known r).epoch ≡ r.epoch
unfolding retire_dead retire persist
epoch-retire_dead live [] r = refl
epoch-retire_dead live ((c, k) ∷ known) r = epoch-retire_dead live known _ ∙ by_life (has c live)
  where
    by_life : (b : Bool) → (if b then r else retire c r).epoch ≡ r.epoch
    by_life true = refl
    by_life false = refl

-- The counter that a suffix stands for.
abbrev rank : Option ℕ → ℕ
rank none = 1
rank (some n) = n

module _ (epoch : Text) (hex : is_epoch epoch ≡ true) (c : ℕ) (s : Option ℕ) where
  abbrev Gone : TabRegistry → Type 0
  Gone r = IsCurrent epoch r × IsDead c (rank s) r

  Gone-restored : (r : TabRegistry) → Gone r → Gone (record r { restored = true })
  unfolding counter_of
  Gone-restored r g = (
    record { in_epoch = g.0.in_epoch; counted = g.0.counted; ids = g.0.ids },
    record { buried = g.1.buried; reached = g.1.reached; past = g.1.past },
  )

  -- No known tab carries a dead id.
  other_id :
      (r : TabRegistry) (k : KnownTab)
      → Gone r
      → lookup c r.known ≡ some k
      → text_eq k.project_id (project_id epoch c s) ≡ false
  other_id r k g known = elim (Bool-cases (text_eq k.project_id (project_id epoch c s))) [
    | inr differs ↦ differs
    | inl same ↦
        let equal =
          sym (g.0.ids c k known) ∙ (text_eq_iff k.project_id (project_id epoch c s)).0 same in
        let suffixes = project_id-injective epoch c (suffix_now c r) s hex equal in
        absurd (ground (arith, suffixes, g.1.buried, g.1.past, known))
  ]

  check_known-Gone :
      (r : TabRegistry)
      → Gone r
      → check_known (project_id epoch c s) (record { epoch = epoch; chrome_id = c; suffix = s }) r
        ≡ err tab_not_found
  unfolding check_known
  check_known-Gone r g = elim (Option-cases (lookup c r.known)) [
    | inl unknown ↦ ground (arith, g.0.in_epoch, unknown)
    | inr (k, known) ↦ ground (arith, g.0.in_epoch, known, other_id r k g known)
  ]

  moves-Gone : (ms : List Move) (r : TabRegistry) → Gone r → Gone (moves ms r)
  moves-Gone =
      moves-keeps epoch Gone (λ r g. g.0.in_epoch) Gone-restored
        (λ d r g. (retire-IsCurrent epoch r g.0 d, retire-IsDead c (rank s) r g.1 d))
        (λ d r g. (forget-IsCurrent epoch r g.0 d, forget-IsDead c (rank s) r g.1 d))
        (λ d tab r g.
          (refresh_in-IsCurrent epoch r g.0 d tab, refresh_in-IsDead c (rank s) r g.1 epoch d tab))

  list-Gone : (tabs : Tabs) (r : TabRegistry) → Gone r → Gone (list tabs r).0
  list-Gone =
      list-keeps epoch Gone (λ r g. g.0.in_epoch) Gone-restored
        (λ d r g. (retire-IsCurrent epoch r g.0 d, retire-IsDead c (rank s) r g.1 d))
        (λ d r g. (forget-IsCurrent epoch r g.0 d, forget-IsDead c (rank s) r g.1 d))
        (λ d tab r g.
          (refresh_in-IsCurrent epoch r g.0 d tab, refresh_in-IsDead c (rank s) r g.1 epoch d tab))

  -- Under an epoch a list does not fail.
  list-ok :
      (tabs : Tabs) (r : TabRegistry)
      → IsCurrent epoch r
      → (views : List ProjectTabRecord) × ((list tabs r).1 ≡ ok views)
  unfolding list refresh_all_or_fail
  list-ok tabs r g =
      let reconciled = retire_dead (live_ids tabs) r.known r in
      let same = epoch-retire_dead (live_ids tabs) r.known r ∙ g.in_epoch in
      (
        (refresh_all epoch tabs reconciled).1,
        ap (λ o. (refresh_all_or_fail o tabs reconciled).1) same,
      )

  resolve-Gone :
      (tabs : Tabs) (r : TabRegistry)
      → Gone r
      → (resolve tabs (project_id epoch c s) r).1 ≡ err tab_not_found
  unfolding resolve
  resolve-Gone tabs r g =
      let (views, listed) = list-ok tabs r g.0 in
      rw (parse-project_id epoch c s hex, resolve, listed)
        (check_known-Gone (list tabs r).0 (list-Gone tabs r g))

-- In a registry that runs under an epoch, a project id under which a tab is known is dead once the
-- tab's number is retired, as closing, removal, replacement and absence from a list retire it: after
-- any further operations and events, with chrome giving the number to other tabs or not, the id no
-- longer resolves.
pub resolve-retired :
    (epoch : Text) (r : TabRegistry) (c : ℕ) (k : KnownTab)
    → is_epoch epoch ≡ true
    → IsCurrent epoch r
    → lookup c r.known ≡ some k
    → (ms : List Move) (tabs : Tabs)
    → (resolve tabs k.project_id (moves ms (retire c r))).1 ≡ err tab_not_found
resolve-retired epoch r c k hex current known ms tabs =
    let s = suffix_now c r in
    let gone =
      moves-Gone epoch hex c s ms (retire c r) (retire-IsCurrent epoch r current c, buried) in
    subst (λ id. (resolve tabs id (moves ms (retire c r))).1 ≡ err tab_not_found)
      (sym (current.ids c k known)) (resolve-Gone epoch hex c s tabs (moves ms (retire c r)) gone)
  where
    buried : IsDead c (rank (suffix_now c r)) (retire c r)
    buried = record {
      buried = unfold retire persist in ground (arith, has-add c c r.retired);
      reached = unfold retire persist counter_of in ground (arith, current.counted c);
      past = inr (unfold retire persist in ground (arith, lookup-delete c c r.known));
    }
