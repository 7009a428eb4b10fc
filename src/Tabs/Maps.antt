-- ===== src/Tabs/Maps.antt =====
-- Laws of the registry's maps and sets, and of the comparison of texts.
use arc_browser_mcp.Prelude.{
  ℕ, ◌≡◌, refl, ◌||◌, none, some, List, [], ◌∷◌, arith, ◌==◌, if◌then◌else◌,
}
use arc_browser_mcp.Tabs.Registry.{lookup, insert, delete, has, add}

module _ {ℓ} {V : Type ℓ} where
  pub lookup-insert :
      (id other : ℕ) (given : V) (entries : List (ℕ × V))
      → lookup other (insert id given entries)
        ≡ (if id == other then some given else lookup other entries)
  unfolding lookup insert
  lookup-insert id other given ((key, value) ∷ rest) =
      ground (arith, lookup-insert id other given rest)
  lookup-insert id other given [] = refl

  pub lookup-delete :
      (k j : ℕ) (m : List (ℕ × V)) → lookup j (delete k m) ≡ (if k == j then none else lookup j m)
  unfolding lookup delete
  lookup-delete k j [] = ground arith
  lookup-delete k j ((i, w) ∷ m) = ground (arith, lookup-delete k j m)

pub has-add : (k j : ℕ) (s : List ℕ) → has j (add k s) ≡ (k == j || has j s)
unfolding has add
has-add k j [] = refl
has-add k j (i ∷ s) = ground (arith, has-add k j s)
