-- ===== src/Network/Pending.antt =====
-- Laws of the monitor's map of pending requests and of its ring.
use arc_browser_mcp.Prelude.{
  ℕ, suc, ◌≤◌, ◌≡◌, refl, sym, ap, subst, ◌∙◌, inl, inr, true, some, List, [], ◌∷◌, ◌++◌, length,
  ltb, if◌then◌else◌, choose, All, arith, Bool-cases,
}
use arc_browser_mcp.Text.{text_eq, text_eq_iff}
use arc_browser_mcp.Interaction.{CodeUnits}
use arc_browser_mcp.Console.{shift, shrink}
use arc_browser_mcp.Network.{NetworkEntry}
use arc_browser_mcp.Network.Monitor.{PendingRequest, Pending, find, set, delete}

pub text_eq_refl : (s : CodeUnits) → text_eq s s ≡ true
text_eq_refl s = (text_eq_iff s s).1 refl

pub length-set :
    (id : CodeUnits) (p : PendingRequest) (pending : Pending)
    → length (set id p pending) ≤ suc (length pending)
unfolding set
length-set id p [] = omega arith
length-set id p ((other, q) ∷ pending) = ground (arith, length-set id p pending)

pub length-set_found :
    (id : CodeUnits) (p q : PendingRequest) (pending : Pending)
    → find id pending ≡ some q
    → length (set id p pending) ≡ length pending
unfolding set find
length-set_found id p q [] h = cc
length-set_found id p q ((other, r) ∷ pending) h =
    ground (arith, h, length-set_found id p q pending)

pub length-delete :
    (id : CodeUnits) (pending : Pending) → length (delete id pending) ≤ length pending
unfolding delete
length-delete id [] = omega arith
length-delete id ((other, q) ∷ pending) = ground (arith, length-delete id pending)

module _ (P : NetworkEntry → Type 0) where
  abbrev pub AllPending : Pending → Type 0
  AllPending [] = Unit
  AllPending ((id, p) ∷ pending) = P p.entry × AllPending pending

  pub find-AllPending :
      (id : CodeUnits) (p : PendingRequest) (pending : Pending)
      → find id pending ≡ some p
      → AllPending pending
      → P p.entry
  unfolding find
  find-AllPending id p [] h all = absurd (cc)
  find-AllPending id p ((other, q) ∷ pending) h (g, all) = elim (Bool-cases (text_eq other id)) [
    | inl hit ↦
        let same : some q ≡ some p =
          ap (λ b. if b then some q else find id pending) (sym hit) ∙ h in
        let e : q ≡ p = cc (same) in subst (λ (r : PendingRequest). P r.entry) e g
    | inr miss ↦
        find-AllPending id p pending
          (ap (λ b. if b then some q else find id pending) (sym miss) ∙ h) all
  ]

  pub set-AllPending :
      (id : CodeUnits) (p : PendingRequest) (pending : Pending)
      → P p.entry
      → AllPending pending
      → AllPending (set id p pending)
  unfolding set
  set-AllPending id p [] g all = (g, tt)
  set-AllPending id p ((other, q) ∷ pending) g (h, all) =
      choose AllPending ((other, p) ∷ pending) ((other, q) ∷ set id p pending) (text_eq other id)
        (λ hit. (g, all)) (λ miss. (h, set-AllPending id p pending g all))

  pub delete-AllPending :
      (id : CodeUnits) (pending : Pending) → AllPending pending → AllPending (delete id pending)
  unfolding delete
  delete-AllPending id [] all = tt
  delete-AllPending id ((other, q) ∷ pending) (h, all) =
      choose AllPending pending ((other, q) ∷ delete id pending) (text_eq other id) (λ hit. all)
        (λ miss. (h, delete-AllPending id pending all))

  pub append-All :
      (es : List NetworkEntry) (entry : NetworkEntry)
      → All P es
      → P entry
      → All P (es ++ entry ∷ [])
  append-All [] entry all h = (h, tt)
  append-All (e ∷ es) entry (g, all) h = (g, append-All es entry all h)

  pub shift-All : (es : List NetworkEntry) → All P es → All P (shift es)
  unfolding shift
  shift-All [] all = tt
  shift-All (e ∷ es) (h, all) = all

pub length-shrink :
    (capacity : ℕ) (es : List NetworkEntry) (dropped : ℕ)
    → length (shrink capacity es dropped).0 ≤ capacity
unfolding shrink
length-shrink capacity [] dropped = omega arith
length-shrink capacity (e ∷ es) dropped =
    choose (λ (out : List NetworkEntry × ℕ). length out.0 ≤ capacity)
      (shrink capacity es (suc dropped)) (e ∷ es, dropped) (ltb capacity (length (e ∷ es)))
      (λ over. length-shrink capacity es (suc dropped)) (λ fit. ground (arith, fit))

pub shrink-All :
    (P : NetworkEntry → Type 0) (capacity : ℕ) (es : List NetworkEntry) (dropped : ℕ)
    → All P es
    → All P (shrink capacity es dropped).0
unfolding shrink
shrink-All P capacity [] dropped all = tt
shrink-All P capacity (e ∷ es) dropped (h, all) =
    choose (λ (out : List NetworkEntry × ℕ). All P out.0) (shrink capacity es (suc dropped))
      (e ∷ es, dropped) (ltb capacity (length (e ∷ es)))
      (λ over. shrink-All P capacity es (suc dropped) all) (λ fit. (h, all))
