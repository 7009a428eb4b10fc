-- ===== src/Snapshot/Privacy.antt =====
-- What an editable control holds leaves no trace in the snapshot unless it is known to be safe.
use arc_browser_mcp.Prelude.{
  ℕ, ◌≡◌, refl, sym, Bool, true, not, ◌&&◌, ◌||◌, Option, List, [], ◌∷◌, if◌then◌else◌, arith,
}
use arc_browser_mcp.Json.{Json, get}
use arc_browser_mcp.Json.Reads.{AgreeBut}
use arc_browser_mcp.Interaction.{CodeUnits}
use arc_browser_mcp.Redaction.{has_name}
use arc_browser_mcp.Snapshot.{
  SnapshotNode, editable_value_roles, has_password_name, ax_password_semantics, role_of, field_of,
}
use arc_browser_mcp.Snapshot.Tree.{
  ValueRules, as_number, safety_of, is_legacy_password, is_password, is_safe, is_empty_text,
  shown_value, node_of,
}
use arc_browser_mcp.Snapshot.Alike.{AlikeNodes, no_nodes, more_nodes, walk-Alike}
use arc_browser_mcp.Snapshot.Budget.{normalize_ax_tree, max_nodes_of}

module _ (lower : CodeUnits → CodeUnits) (rules : ValueRules) where
  -- An editable control that is not known to be safe, or shows signs of a password.
  abbrev pub IsHidden : Json → Type 0
  IsHidden raw =
      let id = as_number (get raw "backendDOMNodeId") in
      (has_name (role_of lower raw) editable_value_roles ≡ true)
      × ((not (is_safe (safety_of rules id))
            || is_password (safety_of rules id)
            || is_legacy_password rules id
            || ax_password_semantics lower raw
            || has_password_name (field_of raw "name"))
          ≡ true)

  -- Trees that differ at most in what hidden controls hold.
  pub data Conceals : List Json → List Json → Type 0 where
    none_left : Conceals [] []
    same : (raw : Json) (ps qs : List Json) → Conceals ps qs → Conceals (raw ∷ ps) (raw ∷ qs)
    hides :
        (p q : Json) (ps qs : List Json)
        → IsHidden p
        → AgreeBut "value" p q
        → Conceals ps qs
        → Conceals (p ∷ ps) (q ∷ qs)

  hidden_value :
      (value : CodeUnits) (editable unsafe pass legacy ax name : Bool)
      → editable ≡ true
      → (unsafe || pass || legacy || ax || name) ≡ true
      → (if not (is_empty_text value) && editable
          then (if pass || legacy || ax || name then [] else if unsafe then [] else value)
          else value)
        ≡ []
  unfolding is_empty_text
  hidden_value [] editable unsafe pass legacy ax name e h = ground arith
  hidden_value (c ∷ s) editable unsafe pass legacy ax name e h = ground arith

  shown_value-hidden : (raw : Json) → IsHidden raw → shown_value lower rules raw ≡ []
  unfolding shown_value
  shown_value-hidden raw (editable, secret) =
      let id = as_number (get raw "backendDOMNodeId") in
      hidden_value (field_of raw "value") (has_name (role_of lower raw) editable_value_roles)
        (not (is_safe (safety_of rules id))) (is_password (safety_of rules id))
        (is_legacy_password rules id) (ax_password_semantics lower raw)
        (has_password_name (field_of raw "name")) editable secret

  role_of-agree : (p q : Json) → AgreeBut "value" p q → role_of lower p ≡ role_of lower q
  unfolding role_of
  role_of-agree p q agree = rw (agree "role" refl) refl

  name-agree : (p q : Json) → AgreeBut "value" p q → field_of p "name" ≡ field_of q "name"
  unfolding field_of
  name-agree p q agree = rw (agree "name" refl) refl

  ax-agree :
      (p q : Json)
      → AgreeBut "value" p q
      → ax_password_semantics lower p ≡ ax_password_semantics lower q
  unfolding ax_password_semantics
  ax-agree p q agree =
      rw (agree "properties" refl, agree "role" refl, agree "description" refl) refl

  IsHidden-agree : (p q : Json) → AgreeBut "value" p q → IsHidden p → IsHidden q
  IsHidden-agree p q agree (editable, secret) = (
    rw (sym (role_of-agree p q agree)) editable,
    rw (sym (agree "backendDOMNodeId" refl), sym (ax-agree p q agree), sym (name-agree p q agree))
        secret,
  )

  node_of-agree :
      (p q : Json)
      → IsHidden p
      → AgreeBut "value" p q
      → node_of lower rules p ≡ node_of lower rules q
  unfolding node_of field_of
  node_of-agree p q hidden agree =
      rw
        (
          shown_value-hidden p hidden,
          shown_value-hidden q (IsHidden-agree p q agree hidden),
          role_of-agree p q agree,
          agree "name" refl,
          agree "description" refl,
          agree "properties" refl,
        )
        refl

  alike : (ps qs : List Json) → Conceals ps qs → AlikeNodes lower rules ps qs
  alike _ _ none_left = no_nodes
  alike _ _ (same raw ps qs h) =
      more_nodes raw raw ps qs
        (record {
          same_id = refl;
          same_children = refl;
          same_ignored = refl;
          same_role = refl;
          same_node = refl;
        })
        (alike ps qs h)
  alike _ _ (hides p q ps qs hidden agree h) =
      more_nodes p q ps qs
        (record {
          same_id = agree "nodeId" refl;
          same_children = agree "childIds" refl;
          same_ignored = agree "ignored" refl;
          same_role = role_of-agree p q agree;
          same_node = node_of-agree p q hidden agree;
        })
        (alike ps qs h)

-- Trees that differ at most in what editable controls hold that are not known to be safe, or show signs
-- of a password, give the same snapshot and the same references.
pub normalize_ax_tree-hides :
    {S : Type 0} (lower stringify : CodeUnits → CodeUnits) (rules : ValueRules)
    (allocate_ref : CodeUnits → CodeUnits → S → Option CodeUnits × S)
    (max_nodes max_serialized_bytes : Option ℕ)
    (measure : ℕ → Option (List SnapshotNode → CodeUnits → ℕ)) (ps qs : List Json) (refs : S)
    → Conceals lower rules ps qs
    → normalize_ax_tree lower stringify rules allocate_ref max_nodes max_serialized_bytes measure ps
        refs
      ≡ normalize_ax_tree lower stringify rules allocate_ref max_nodes max_serialized_bytes measure
          qs refs
unfolding normalize_ax_tree
normalize_ax_tree-hides lower stringify rules allocate_ref max_nodes bytes measure ps qs refs h =
    rw
      (walk-Alike lower rules stringify allocate_ref (max_nodes_of max_nodes) ps qs refs
        (alike lower rules ps qs h))
      refl
