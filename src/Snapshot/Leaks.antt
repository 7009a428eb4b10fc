-- ===== src/Snapshot/Leaks.antt =====
-- src/browser/snapshotSemantics.ts: `findLeakedCdpKeys` on JSON values. Two parts of a JSON value are
-- never one object, so that `seen` stops nothing there.
use arc_browser_mcp.Prelude.{
  ◌≡◌, refl, ap, ◌∙◌, choose, Bool, true, false, ◌||◌, ◌&&◌, not, List, [], ◌∷◌, ◌++◌,
  if◌then◌else◌, arith,
}
use arc_browser_mcp.Text.{codes, text_eq, text_eq_iff}
use arc_browser_mcp.Json.{
  Json, null, bool, number, numeral, string, array, object, Items, nil, cons, Fields, end, field,
}
use arc_browser_mcp.Interaction.{CodeUnits}
use arc_browser_mcp.Redaction.{has_name}

abbrev pub leaked_cdp_keys : List CodeUnits
leaked_cdp_keys =
    codes "backendNodeId" ∷ codes "backendDOMNodeId" ∷ codes "nodeId" ∷ codes "objectId" ∷ []

-- Set.add, for a key of those.
unfoldable pub add_leaked : CodeUnits → List CodeUnits → List CodeUnits
unfolding has_name
add_leaked key leaked =
    if has_name key leaked_cdp_keys && not (has_name key leaked) then leaked ++ key ∷ [] else leaked

unfoldable mutual
  unfolding add_leaked

  pub walk_keys : Json → List CodeUnits → List CodeUnits
  walk_keys (array items) leaked = walk_items items leaked
  walk_keys (object fs) leaked = walk_fields fs leaked
  walk_keys _ leaked = leaked

  pub walk_items : Items → List CodeUnits → List CodeUnits
  walk_items nil leaked = leaked
  walk_items (cons v items) leaked = walk_items items (walk_keys v leaked)

  pub walk_fields : Fields → List CodeUnits → List CodeUnits
  walk_fields end leaked = leaked
  walk_fields (field key v fs) leaked = walk_fields fs (walk_keys v (add_leaked (codes key) leaked))

unfoldable pub find_leaked_cdp_keys : Json → List CodeUnits
unfolding walk_keys
find_leaked_cdp_keys value = walk_keys value []

-- Somewhere in a value an object has the key.
unfoldable mutual
  unfolding text_eq

  pub has_key : CodeUnits → Json → Bool
  has_key key (array items) = has_key_items key items
  has_key key (object fs) = has_key_fields key fs
  has_key key _ = false

  pub has_key_items : CodeUnits → Items → Bool
  has_key_items key nil = false
  has_key_items key (cons v items) = has_key key v || has_key_items key items

  pub has_key_fields : CodeUnits → Fields → Bool
  has_key_fields key end = false
  has_key_fields key (field k v fs) =
      text_eq (codes k) key || has_key key v || has_key_fields key fs

has_name-append :
    (key added : CodeUnits) (names : List CodeUnits)
    → has_name key (names ++ added ∷ []) ≡ (has_name key names || text_eq added key)
unfolding has_name
has_name-append key added [] = ground arith
has_name-append key added (name ∷ names) = ground (arith, has_name-append key added names)

-- Membership is that of an equal key.
has_name-eq :
    (key added : CodeUnits) (names : List CodeUnits)
    → text_eq added key ≡ true
    → has_name added names ≡ has_name key names
has_name-eq key added names same = ap (λ k. has_name k names) ((text_eq_iff added key).0 same)

kept :
    (a b k l t : Bool)
    → (t ≡ true → (a ≡ l) × (b ≡ k))
    → (a && not b) ≡ true
    → (k || t) ≡ (k || (l && t))
kept a b k l true same h = let e = same refl in ground (arith, e.0, e.1, h)
kept a b k l false same h = ground arith

left_out :
    (a b k l t : Bool) → (t ≡ true → (a ≡ l) × (b ≡ k)) → (a && not b) ≡ false → k ≡ (k || (l && t))
left_out a b k l true same h = let e = same refl in ground (arith, e.0, e.1, h)
left_out a b k l false same h = ground arith

add_leaked-member :
    (key added : CodeUnits) (leaked : List CodeUnits)
    → has_name key (add_leaked added leaked)
      ≡ (has_name key leaked || (has_name key leaked_cdp_keys && text_eq added key))
unfolding add_leaked
add_leaked-member key added leaked =
    let a = has_name added leaked_cdp_keys in
    let b = has_name added leaked in
    let k = has_name key leaked in
    let l = has_name key leaked_cdp_keys in
    let t = text_eq added key in
    let same : t ≡ true → (a ≡ l) × (b ≡ k) =
      λ e. (has_name-eq key added leaked_cdp_keys e, has_name-eq key added leaked e) in
    choose (λ names. has_name key names ≡ (k || (l && t))) (leaked ++ added ∷ []) leaked
      (a && not b) (λ h. has_name-append key added leaked ∙ kept a b k l t same h)
      (λ h. left_out a b k l t same h)

or_step : (w k l x y : Bool) → w ≡ (k || (l && x)) → (w || (l && y)) ≡ (k || (l && (x || y)))
or_step w k l x y h = ground (arith, h)

none_more : (k l : Bool) → k ≡ (k || (l && false))
none_more k l = ground arith

mutual
  unfolding walk_keys has_key

  walk_keys-member :
      (key : CodeUnits) (v : Json) (leaked : List CodeUnits)
      → has_name key (walk_keys v leaked)
        ≡ (has_name key leaked || (has_name key leaked_cdp_keys && has_key key v))
  walk_keys-member key (array items) leaked = walk_items-member key items leaked
  walk_keys-member key (object fs) leaked = walk_fields-member key fs leaked
  walk_keys-member key null leaked = none_more (has_name key leaked) (has_name key leaked_cdp_keys)
  walk_keys-member key (bool b) leaked =
      none_more (has_name key leaked) (has_name key leaked_cdp_keys)
  walk_keys-member key (number n) leaked =
      none_more (has_name key leaked) (has_name key leaked_cdp_keys)
  walk_keys-member key (numeral text) leaked =
      none_more (has_name key leaked) (has_name key leaked_cdp_keys)
  walk_keys-member key (string s) leaked =
      none_more (has_name key leaked) (has_name key leaked_cdp_keys)

  walk_items-member :
      (key : CodeUnits) (items : Items) (leaked : List CodeUnits)
      → has_name key (walk_items items leaked)
        ≡ (has_name key leaked || (has_name key leaked_cdp_keys && has_key_items key items))
  walk_items-member key nil leaked = none_more (has_name key leaked) (has_name key leaked_cdp_keys)
  walk_items-member key (cons v items) leaked =
      walk_items-member key items (walk_keys v leaked)
      ∙ or_step (has_name key (walk_keys v leaked)) (has_name key leaked)
          (has_name key leaked_cdp_keys) (has_key key v) (has_key_items key items)
          (walk_keys-member key v leaked)

  walk_fields-member :
      (key : CodeUnits) (fs : Fields) (leaked : List CodeUnits)
      → has_name key (walk_fields fs leaked)
        ≡ (has_name key leaked || (has_name key leaked_cdp_keys && has_key_fields key fs))
  walk_fields-member key end leaked = none_more (has_name key leaked) (has_name key leaked_cdp_keys)
  walk_fields-member key (field k v fs) leaked =
      let l = has_name key leaked_cdp_keys in
      let added = add_leaked (codes k) leaked in
      let entered = walk_keys v added in
      walk_fields-member key fs entered
      ∙ or_step (has_name key entered) (has_name key leaked) l
          (text_eq (codes k) key || has_key key v) (has_key_fields key fs)
          (walk_keys-member key v added
            ∙ or_step (has_name key added) (has_name key leaked) l (text_eq (codes k) key)
                (has_key key v) (add_leaked-member key (codes k) leaked))

-- The keys found in a value are exactly those of the four internal names that some object in it, at
-- any depth, has as a key.
pub find_leaked_cdp_keys-member :
    (key : CodeUnits) (value : Json)
    → has_name key (find_leaked_cdp_keys value)
      ≡ (has_name key leaked_cdp_keys && has_key key value)
unfolding find_leaked_cdp_keys has_name
find_leaked_cdp_keys-member key value = walk_keys-member key value []
