-- ===== src/Network/Ids.antt =====
-- The ids of entries: all different, in every run.
use arc_browser_mcp.Prelude.{
  ℕ, zero, suc, ◌+◌, ◌-◌, ◌*◌, ◌/◌, ◌%◌, ◌≤◌, ◌<◌, ◌≡◌, refl, sym, ap, ◌∙◌, inl, inr, some, List,
  [], ◌∷◌, ◌++◌, length, drop, ltb, leb, if◌then◌else◌, choose, arith, Bool-cases,
}
use arc_browser_mcp.Text.{text_eq}
use arc_browser_mcp.Interaction.{CodeUnits}
use arc_browser_mcp.Console.{shift, shrink}
use arc_browser_mcp.Network.{NetworkEntry, digit36, base36, new_observation_id}
use arc_browser_mcp.Network.Monitor.{PendingRequest, Pending, NetworkMonitor, find, set, delete}

undigit36 : ℕ → ℕ
undigit36 c = if leb 97 c then c - 87 else c - 48

value36 : ℕ → CodeUnits → ℕ
value36 acc [] = acc
value36 acc (c ∷ s) = value36 (acc * 36 + undigit36 c) s

value36-append :
    (acc : ℕ) (s : CodeUnits) (c : ℕ) → value36 acc (s ++ c ∷ []) ≡ value36 acc s * 36 + undigit36 c
unfolding value36
value36-append acc [] c = refl
value36-append acc (d ∷ s) c = value36-append (acc * 36 + undigit36 d) s c

undigit36-digit36 : (d : ℕ) → d < 36 → undigit36 (digit36 d) ≡ d
unfolding undigit36 digit36
undigit36-digit36 d h = ground (arith, h)

value36-base36 : (fuel n : ℕ) → n < fuel → value36 0 (base36 fuel n) ≡ n
unfolding base36
value36-base36 zero n h = absurd (omega (arith, h))
value36-base36 (suc fuel) n h =
    choose (λ s. value36 0 s ≡ n) (digit36 n ∷ []) (base36 fuel (n / 36) ++ digit36 (n % 36) ∷ [])
      (ltb n 36)
      (λ small. unfold value36 in omega (arith, undigit36-digit36 n (ground (arith, small))))
      (λ large. omega (
        arith,
        value36-append 0 (base36 fuel (n / 36)) (digit36 (n % 36)),
        undigit36-digit36 (n % 36) (omega arith),
        value36-base36 fuel (n / 36) (ground (arith, large, h)),
      ))

pub new_observation_id_inj : (c d : ℕ) → new_observation_id c ≡ new_observation_id d → c ≡ d
unfolding new_observation_id
new_observation_id_inj c d e =
    sym (value36-base36 (suc c) c (omega arith))
    ∙ ap (λ s. value36 0 (drop 2 s)) e
    ∙ value36-base36 (suc d) d (omega arith)

-- 1 if the entry has the id, and how many entries have it.
abbrev pub one : CodeUnits → NetworkEntry → ℕ
one id entry = if text_eq entry.id id then 1 else 0

abbrev pub count : CodeUnits → List NetworkEntry → ℕ
count id [] = 0
count id (entry ∷ entries) = (if text_eq entry.id id then 1 else 0) + count id entries

abbrev pub count_pending : CodeUnits → Pending → ℕ
count_pending id [] = 0
count_pending id ((key, p) ∷ pending) =
    (if text_eq p.entry.id id then 1 else 0) + count_pending id pending

abbrev pub total : CodeUnits → NetworkMonitor → ℕ
total id m = count id m.finished + count_pending id m.pending

pub count-append :
    (id : CodeUnits) (es : List NetworkEntry) (entry : NetworkEntry)
    → count id (es ++ entry ∷ []) ≡ count id es + one id entry
count-append id [] entry = omega arith
count-append id (e ∷ es) entry = omega (arith, count-append id es entry)

pub count-shift : (id : CodeUnits) (es : List NetworkEntry) → count id (shift es) ≤ count id es
unfolding shift
count-shift id [] = omega arith
count-shift id (e ∷ es) = omega arith

pub count-shrink :
    (id : CodeUnits) (capacity : ℕ) (es : List NetworkEntry) (dropped : ℕ)
    → count id (shrink capacity es dropped).0 ≤ count id es
unfolding shrink
count-shrink id capacity [] dropped = omega arith
count-shrink id capacity (e ∷ es) dropped =
    choose (λ (out : List NetworkEntry × ℕ). count id out.0 ≤ count id (e ∷ es))
      (shrink capacity es (suc dropped)) (e ∷ es, dropped) (ltb capacity (length (e ∷ es)))
      (λ over. omega (arith, count-shrink id capacity es (suc dropped))) (λ fit. omega arith)

pub count-delete :
    (id key : CodeUnits) (pending : Pending)
    → count_pending id (delete key pending) ≤ count_pending id pending
unfolding delete
count-delete id key [] = omega arith
count-delete id key ((other, q) ∷ pending) =
    choose (λ out. count_pending id out ≤ count_pending id ((other, q) ∷ pending)) pending
      ((other, q) ∷ delete key pending) (text_eq other key) (λ hit. omega arith)
      (λ miss. omega (arith, count-delete id key pending))

some_inj : (p q : PendingRequest) → some p ≡ some q → p ≡ q
some_inj p q h = cc

module _ (id key : CodeUnits) (old : PendingRequest) where
  pub count-delete_found :
      (pending : Pending)
      → find key pending ≡ some old
      → count_pending id (delete key pending) + one id old.entry ≡ count_pending id pending
  unfolding find delete
  count-delete_found [] h = absurd (cc)
  count-delete_found ((other, q) ∷ pending) h = elim (Bool-cases (text_eq other key)) [
    | inl hit ↦
        let e : q ≡ old =
          some_inj q old (ap (λ b. if b then some q else find key pending) (sym hit) ∙ h) in
        rw (hit, sym e) (omega arith)
    | inr miss ↦
        let e = ap (λ b. if b then some q else find key pending) (sym miss) ∙ h in
        rw miss (omega (arith, count-delete_found pending e))
  ]

  pub count-set_found :
      (p : PendingRequest) (pending : Pending)
      → find key pending ≡ some old
      → p.entry.id ≡ old.entry.id
      → count_pending id (set key p pending) ≡ count_pending id pending
  unfolding find set
  count-set_found p [] h g = absurd (cc)
  count-set_found p ((other, q) ∷ pending) h g = elim (Bool-cases (text_eq other key)) [
    | inl hit ↦
        let e : q ≡ old =
          some_inj q old (ap (λ b. if b then some q else find key pending) (sym hit) ∙ h) in
        rw hit (
          ap (λ i. (if text_eq i id then 1 else 0) + count_pending id pending)
            (g ∙ ap (λ (r : PendingRequest). r.entry.id) (sym e)))
    | inr miss ↦
        let e = ap (λ b. if b then some q else find key pending) (sym miss) ∙ h in
        rw miss (omega (arith, count-set_found p pending e g))
  ]

pub count-set :
    (id key : CodeUnits) (p : PendingRequest) (pending : Pending)
    → count_pending id (set key p pending) ≤ count_pending id pending + one id p.entry
unfolding set
count-set id key p [] = omega arith
count-set id key p ((other, q) ∷ pending) =
    choose (λ out. count_pending id out ≤ count_pending id ((other, q) ∷ pending) + one id p.entry)
      ((other, p) ∷ pending) ((other, q) ∷ set key p pending) (text_eq other key)
      (λ hit. omega arith) (λ miss. omega (arith, count-set id key p pending))
