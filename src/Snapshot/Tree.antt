-- ===== src/Snapshot/Tree.antt =====
-- src/browser/snapshotSemantics.ts: `normalizeAxTree` up to the bounds on the result, and
-- `renderLine`. Parameters besides those of Snapshot: `stringify` is JSON.stringify on a text, and
-- `allocate_ref` keeps a state of its own.
use arc_browser_mcp.Prelude.{
  is_some, ℕ, zero, suc, Bool, true, false, not, ◌&&◌, ◌||◌, Option, none, some, List, [], ◌∷◌,
  ◌++◌, length, take, ltb, leb, if◌then◌else◌,
}
use arc_browser_mcp.Text.{codes, text_eq}
use arc_browser_mcp.Json.{Json, number, numeral, Items, nil, cons, get}
use arc_browser_mcp.Json.Reads.{as_text}
use arc_browser_mcp.Interaction.{CodeUnits}
use arc_browser_mcp.Tabs.ProjectId.Decimal.{digits}
use arc_browser_mcp.Redaction.{has_name}
use arc_browser_mcp.Snapshot.{
  SnapshotNode, Checked, mixed, is_checked, Safety, safe, password, actionable_roles, wrapper_roles,
  editable_value_roles, as_items, boolean_property, checked_property, level_property,
  has_password_name, ax_password_semantics, is_yes, role_of, field_of,
}

-- What the caller gives for the values of editable controls: a map, and the older set.
pub record ValueRules : Type 0 where
  pub value_safety : Json → Option Safety
  pub is_password_id : Json → Bool

unfoldable pub as_number : Option Json → Option Json
as_number (some (number n)) = some (number n)
as_number (some (numeral text)) = some (numeral text)
as_number _ = none

unfoldable pub safety_of : ValueRules → Option Json → Option Safety
safety_of rules none = none
safety_of rules (some id) = rules.value_safety id

unfoldable pub is_legacy_password : ValueRules → Option Json → Bool
is_legacy_password rules none = false
is_legacy_password rules (some id) = rules.is_password_id id

unfoldable pub is_password : Option Safety → Bool
is_password (some password) = true
is_password _ = false

unfoldable pub is_safe : Option Safety → Bool
is_safe (some safe) = true
is_safe _ = false

-- A text that is left out where it is empty.
unfoldable pub non_empty : CodeUnits → Option CodeUnits
non_empty [] = none
non_empty (c ∷ s) = some (c ∷ s)

unfoldable pub is_empty_text : CodeUnits → Bool
is_empty_text [] = true
is_empty_text (c ∷ s) = false

unfoldable pub is_set : Option Bool → Bool
is_set none = false
is_set (some b) = b

unfoldable pub display_role : CodeUnits → CodeUnits
display_role role =
    if is_empty_text role
    then codes "group"
    else if text_eq role (codes "statictext")
    then codes "text"
    else role

module _ (lower : CodeUnits → CodeUnits) (rules : ValueRules) where
  -- The value that is shown.
  unfoldable pub shown_value : Json → CodeUnits
  unfolding safety_of is_legacy_password is_password is_safe as_number is_empty_text
  shown_value raw =
      let value = field_of raw "value" in
      let id = as_number (get raw "backendDOMNodeId") in
      if not (is_empty_text value) && has_name (role_of lower raw) editable_value_roles
      then (if is_password (safety_of rules id)
            || is_legacy_password rules id
            || ax_password_semantics lower raw
            || has_password_name (field_of raw "name")
          then []
          else if not (is_safe (safety_of rules id))
          then []
          else value)
      else value

  -- The node, without its reference.
  unfoldable pub node_of : Json → SnapshotNode
  unfolding non_empty is_set display_role
  node_of raw =
      let properties = get raw "properties" in
      record {
        ref = none;
        role = display_role (role_of lower raw);
        name = non_empty (field_of raw "name");
        value = non_empty (shown_value raw);
        description = non_empty (field_of raw "description");
        disabled = is_set (boolean_property lower properties (codes "disabled"));
        focused = is_set (boolean_property lower properties (codes "focused"));
        selected = is_set (boolean_property lower properties (codes "selected"));
        checked = checked_property lower properties;
        expanded = boolean_property lower properties (codes "expanded");
        level =
            level_property lower properties
              (codes "level" ∷ codes "headinglevel" ∷ codes "hierarchicallevel" ∷ []);
      }

-- A wrapper that carries nothing.
unfoldable pub is_flattened : CodeUnits → SnapshotNode → Bool
unfolding is_some is_empty_text has_name
is_flattened role node =
    let has_content =
      is_some node.name
      || is_some node.value
      || is_some node.description
      || node.disabled
      || node.focused
      || node.selected in
    (is_empty_text role || has_name role wrapper_roles)
    && not has_content
    && not (is_some node.checked)
    && not (is_some node.expanded)

unfoldable pub repeat : ℕ → CodeUnits → CodeUnits
repeat zero s = []
repeat (suc n) s = s ++ repeat n s

-- Each text behind a separator.
unfoldable pub joined : CodeUnits → List CodeUnits → CodeUnits
joined separator [] = []
joined separator (s ∷ texts) = separator ++ (s ++ joined separator texts)

-- Array.prototype.join
unfoldable pub join : CodeUnits → List CodeUnits → CodeUnits
unfolding joined
join separator [] = []
join separator (s ∷ texts) = s ++ joined separator texts

-- An attribute that is there or not.
unfoldable pub attr {ℓ} : {A : Type ℓ} → Option A → (A → CodeUnits) → List CodeUnits
attr none text_of = []
attr (some a) text_of = text_of a ∷ []

unfoldable pub flag_attr : Bool → CodeUnits → List CodeUnits
flag_attr b text = if b then text ∷ [] else []

unfoldable pub bool_text : Bool → CodeUnits
bool_text b = if b then codes "true" else codes "false"

unfoldable pub checked_text : Checked → CodeUnits
unfolding bool_text
checked_text mixed = codes "mixed"
checked_text (is_checked b) = bool_text b

unfoldable pub label_of : SnapshotNode → CodeUnits
label_of node = elim node.name [
  | some name ↦ name
  | none ↦ elim node.description [ none ↦ [] | some description ↦ description ]
]

module _ (stringify : CodeUnits → CodeUnits) where
  unfoldable pub attributes : SnapshotNode → List CodeUnits
  unfolding attr flag_attr bool_text checked_text
  attributes node =
      attr node.ref (λ ref. codes "ref=" ++ ref)
      ++ (attr node.level (λ n. codes "level=" ++ digits n)
          ++ (flag_attr node.disabled (codes "disabled")
              ++ (flag_attr node.focused (codes "focused")
                  ++ (flag_attr node.selected (codes "selected")
                      ++ (attr node.checked (λ c. codes "checked=" ++ checked_text c)
                          ++ (attr node.expanded (λ b. codes "expanded=" ++ bool_text b)
                              ++ attr node.value (λ value. codes "value=" ++ stringify value)))))))

  unfoldable pub render_line : SnapshotNode → ℕ → CodeUnits
  unfolding attributes repeat join label_of is_empty_text
  render_line node depth =
      let attrs = attributes node in
      let rest : CodeUnits = elim attrs [
        | [] ↦ []
        | a ∷ more ↦ codes " " ++ join (codes " ") (a ∷ more)
      ] in
      let label = label_of node in
      take 600 (
        repeat (if ltb 8 depth then 8 else depth) (codes "  ")
        ++ (codes "["
            ++ (node.role
                ++ (rest
                    ++ (codes "]" ++ (if is_empty_text label then [] else codes " " ++ label))))))

abbrev pub NodeMap : Type 0
NodeMap = List (CodeUnits × Json)

unfoldable pub find_node : CodeUnits → NodeMap → Option Json
find_node id [] = none
find_node id ((other, raw) ∷ nodes) = if text_eq other id then some raw else find_node id nodes

-- The nodes by their ids; the first of an id counts.
unfoldable pub by_id : List Json → NodeMap → NodeMap
unfolding find_node is_some
by_id [] nodes = nodes
by_id (raw ∷ raws) nodes = by_id raws (elim (as_text (get raw "nodeId")) [
  | none ↦ nodes
  | some id ↦ if is_some (find_node id nodes) then nodes else nodes ++ (id, raw) ∷ []
])

-- The children of a list of ids that are nodes.
unfoldable pub known_ids : NodeMap → Items → List CodeUnits
unfolding find_node is_some
known_ids nodes nil = []
known_ids nodes (cons child children) =
    let rest = known_ids nodes children in
    elim (as_text (some child)) [
      | none ↦ rest
      | some id ↦ if is_some (find_node id nodes) then id ∷ rest else rest
    ]

unfoldable pub children_of : NodeMap → Json → List CodeUnits
unfolding known_ids as_items
children_of nodes raw = known_ids nodes (as_items (get raw "childIds"))

unfoldable pub all_children : NodeMap → NodeMap → List CodeUnits
unfolding children_of
all_children nodes [] = []
all_children nodes ((id, raw) ∷ rest) = children_of nodes raw ++ all_children nodes rest

unfoldable pub ids_of : NodeMap → List CodeUnits
ids_of [] = []
ids_of ((id, raw) ∷ nodes) = id ∷ ids_of nodes

-- The ids that are not among others.
unfoldable pub without : List CodeUnits → List CodeUnits → List CodeUnits
unfolding has_name
without others [] = []
without others (id ∷ ids) =
    let rest = without others ids in if has_name id others then rest else id ∷ rest

-- The roots, or all nodes where there is none.
unfoldable pub starting : NodeMap → List CodeUnits
unfolding without ids_of all_children
starting nodes = elim (without (all_children nodes nodes) (ids_of nodes)) [
  | [] ↦ ids_of nodes
  | id ∷ ids ↦ id ∷ ids
]

-- The state of the walk; `refs` is that of `allocate_ref`.
pub record Walk (S : Type 0) : Type 0 where
  pub nodes : List SnapshotNode
  pub lines : List CodeUnits
  pub total_nodes : ℕ
  pub truncated : Bool
  pub visited : List CodeUnits
  pub refs : S

module _ {S : Type 0} where
  unfoldable pub new_walk : S → Walk S
  new_walk refs = record {
    nodes = [];
    lines = [];
    total_nodes = 0;
    truncated = false;
    visited = [];
    refs = refs;
  }

  module _ (lower stringify : CodeUnits → CodeUnits) (rules : ValueRules)
      (allocate_ref : CodeUnits → CodeUnits → S → Option CodeUnits × S) (max_nodes : ℕ) where
    unfoldable pub emit : SnapshotNode → ℕ → Walk S → Walk S
    unfolding render_line
    emit node depth w =
        if leb max_nodes (length w.nodes)
        then record w { total_nodes = suc w.total_nodes; truncated = true }
        else record w {
          nodes = w.nodes ++ node ∷ [];
          lines = w.lines ++ render_line stringify node depth ∷ [];
          total_nodes = suc w.total_nodes;
        }

    -- The node gets its reference and is emitted.
    unfoldable pub publish : CodeUnits → CodeUnits → SnapshotNode → ℕ → Walk S → Walk S
    unfolding emit
    publish id role node depth w =
        if has_name role actionable_roles
        then (let (ref, refs) = allocate_ref id role w.refs in
            emit (record node { ref = ref }) depth (record w { refs = refs }))
        else emit node depth w

    -- `visit` behind its two tests; `visit_children` is the loop over the children.
    unfoldable pub visit_raw :
        (List CodeUnits → ℕ → Walk S → Walk S)
        → List CodeUnits
        → CodeUnits
        → Json
        → ℕ
        → Walk S
        → Walk S
    unfolding publish
    visit_raw visit_children children id raw depth w =
        if is_yes (get raw "ignored")
        then visit_children children depth w
        else if is_flattened (role_of lower raw) (node_of lower rules raw)
        then visit_children children depth w
        else visit_children children (suc depth)
            (publish id (role_of lower raw) (node_of lower rules raw) depth w)

    unfoldable pub visit :
        (List CodeUnits → ℕ → Walk S → Walk S) → NodeMap → CodeUnits → ℕ → Walk S → Walk S
    unfolding visit_raw find_node
    visit visit_children nodes id depth w =
        if has_name id w.visited || ltb 100 depth then w else elim (find_node id nodes) [
          | none ↦ record w { visited = id ∷ w.visited }
          | some raw ↦
              visit_raw visit_children (children_of nodes raw) id raw depth
                (record w { visited = id ∷ w.visited })
        ]

    -- The visits of a list of nodes. Each level of fuel is one of the recursion, and every level
    -- marks another node, so a level for each node and one more are enough.
    unfoldable pub visit_all : ℕ → NodeMap → List CodeUnits → ℕ → Walk S → Walk S
    visit_all fuel nodes [] depth w = w
    visit_all zero nodes (id ∷ ids) depth w = w
    visit_all (suc fuel) nodes (id ∷ ids) depth w =
        visit_all (suc fuel) nodes ids depth
          (visit (λ children d v. visit_all fuel nodes children d v) nodes id depth w)
