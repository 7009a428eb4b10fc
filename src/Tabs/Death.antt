-- ===== src/Tabs/Death.antt =====
-- A dead project id stays dead through every change of the registry.
use native.Mathlib.Decide.{ℕ_discrete}
use arc_browser_mcp.Prelude.{ℕ, sym, ap, subst, ◌∙◌, inl, inr, arith, Option-cases}
use arc_browser_mcp.Tabs.ProjectId.Decimal.{Text}
use arc_browser_mcp.Tabs.Registry.{
  ChromeTabView, TabRegistry, lookup, delete, has, persist, retire, counter_of, refresh_in,
}
use arc_browser_mcp.Tabs.Maps.{lookup-delete, has-add}
use arc_browser_mcp.Tabs.Tombstones.{
  IsDead, lookup-refresh_in, refresh_in-fields, assigned-counter, assigned-counter_self,
}

module _ (d n : ℕ) (r : TabRegistry) (dead : IsDead d n r) where
  pub retire-IsDead : (c : ℕ) → IsDead d n (retire c r)
  unfolding retire persist counter_of
  retire-IsDead c = record {
    buried = ground (arith, has-add c d r.retired, dead.buried);
    reached = dead.reached;
    past = ground (arith, lookup-delete c d r.known, dead.past);
  }

  pub forget-IsDead : (c : ℕ) → IsDead d n (record r { known = delete c r.known })
  unfolding counter_of
  forget-IsDead c = record {
    buried = dead.buried;
    reached = dead.reached;
    past = ground (arith, lookup-delete c d r.known, dead.past);
  }

  pub refresh_in-IsDead :
      (epoch : Text) (c : ℕ) (tab : ChromeTabView) → IsDead d n (refresh_in epoch c tab r).0
  refresh_in-IsDead epoch c tab =
      let (retired, _, counters) = refresh_in-fields epoch r c tab in
      elim (ℕ_discrete d c) [
        | yes same ↦
            subst (λ x. IsDead x n (refresh_in epoch c tab r).0) (sym same)
              (self (subst (λ x. IsDead x n r) same dead))
        | no other ↦ record {
          buried = ap (has d) retired ∙ dead.buried;
          reached = omega (arith, counters d, assigned-counter epoch r c d other, dead.reached);
          past = ground (
            arith,
            counters d,
            assigned-counter epoch r c d other,
            dead.past,
            lookup-refresh_in epoch r c tab d,
          );
        }
      ]
    where
      self : IsDead c n r → IsDead c n (refresh_in epoch c tab r).0
      self x =
          let (retired, _, counters) = refresh_in-fields epoch r c tab in
          let (raised, kept) = assigned-counter_self epoch r c in
          elim (Option-cases (lookup c r.known)) [
            | inl unknown ↦ record {
              buried = ap (has c) retired ∙ x.buried;
              reached = omega (arith, counters c, raised unknown x.buried, x.reached);
              past = inl (omega (arith, counters c, raised unknown x.buried, x.reached));
            }
            | inr (k, known) ↦
                let same = kept (λ e. cc) in
                record {
                  buried = ap (has c) retired ∙ x.buried;
                  reached = omega (arith, counters c, same, x.reached);
                  past = inl (ground (arith, counters c, same, x.past));
                }
          ]
