-- ===== src/References/Tests.antt =====
-- Two tabs whose trees give one id to different nodes.
use arc_browser_mcp.Prelude.{
  ℕ, ◌≡◌, refl, Bool, true, false, none, some, List, [], ◌∷◌, String, map,
}
use arc_browser_mcp.Text.{codes, text_eq, is_space}
use arc_browser_mcp.Json.{Json, number, string, object, end, field, get, get_field}
use arc_browser_mcp.Interaction.{CodeUnits}
use arc_browser_mcp.Redaction.{ascii_lower, has_name}
use arc_browser_mcp.Protocol.{ok}
use arc_browser_mcp.Tabs.Registry.{lookup, insert, starts_with_i}
use arc_browser_mcp.Session.{as_integer}
use arc_browser_mcp.Json.Reads.{as_text}
use arc_browser_mcp.Network.{base36}
use arc_browser_mcp.Snapshot.{
  is_yes, role_of, field_of, boolean_property, checked_property, level_property, property_value,
}
use arc_browser_mcp.Snapshot.Tree.{ValueRules, visit_all, visit, is_flattened, node_of, shown_value}
use arc_browser_mcp.Snapshot.Budget.{walk, normalize_ax_tree}
use arc_browser_mcp.Tabs.ProjectId.Parsing.{all_hex}
use arc_browser_mcp.References.{
  is_snapshot_id_syntax, is_element_ref_syntax, SessionManager, allocate_element_ref,
  handle_tab_updated, handle_detach, live_refs, remember_ax_tree, finish_capture, begin_interaction,
}
use arc_browser_mcp.References.Latest.{
  CaptureOptions, Action, remembered, captured, detached, updated, spares, act_all,
}
use arc_browser_mcp.References.Accepting.{begin_interaction-latest}

abbrev lower : CodeUnits → CodeUnits
lower = map ascii_lower

abbrev quoted : CodeUnits → CodeUnits
quoted s = s

abbrev rules : ValueRules
rules = record { value_safety = λ id. none; is_password_id = λ id. false }

abbrev no_numeral : String → Bool
no_numeral text = false

-- A button with the id 3, and the number that the page has for it.
abbrev tree : ℕ → List Json
tree n =
    object (
      field "nodeId" (string "3") (
        field "role" (object (field "value" (string "button") end))
          (field "backendDOMNodeId" (number n) end)))
    ∷ []

abbrev empty_manager : SessionManager
empty_manager = record {
  entries = [];
  cached_ax_nodes = none;
  session_id = codes "0123456789abcdef0123456789abcdef";
  counter = 0;
}

abbrev ref : CodeUnits
ref = codes "e-0123456789abcdef0123456789abcdef-0-1"

abbrev tab_id : CodeUnits
tab_id = codes "tab-5"

abbrev url : CodeUnits
url = codes "https://a.b/"

abbrev other_options : CaptureOptions
other_options = record { rules = rules; max_nodes = some 3; bytes = none; measure = λ total. none }

-- Another tab is captured, under another limit, after the capture.
abbrev actions : List Action
actions =
    updated 8 true none
    ∷ remembered (tree 9)
    ∷ captured other_options 8 (codes "tab-8") (codes "https://c.d/") (tree 9)
    ∷ detached (some 8)
    ∷ []

actions-spared : spares 5 actions ≡ true
unfolding spares
actions-spared = refl

other-accepted :
    begin_interaction no_numeral 5 tab_id ref url true (
      act_all lower quoted actions
        (finish_capture lower quoted rules none none
          (λ total. none)
          5
          tab_id
          url
          (tree 7)
          empty_manager).1)
    ≡ ok (number 9)
unfolding begin_interaction act_all finish_capture lookup insert text_eq is_space normalize_ax_tree
    walk visit_all visit as_text get get_field is_yes is_flattened role_of field_of node_of
    boolean_property checked_property level_property property_value shown_value allocate_element_ref
    base36 has_name as_integer starts_with_i handle_tab_updated handle_detach remember_ax_tree
other-accepted = refl

begin_interaction-latest_example :
    has_name ref (
      live_refs
        (finish_capture lower quoted rules none none
          (λ total. none)
          5
          tab_id
          url
          (tree 7)
          empty_manager).0.nodes)
    ≡ true
begin_interaction-latest_example =
    begin_interaction-latest lower quoted rules none none (λ total. none) no_numeral 5 tab_id url
      (tree 7) empty_manager actions tab_id ref url true (number 9) actions-spared other-accepted

id_syntax : is_snapshot_id_syntax (codes "s-0123456789abcdef0123456789abcdef-1z") ≡ true
unfolding is_snapshot_id_syntax text_eq all_hex
id_syntax = refl

ref_syntax : is_element_ref_syntax ref ≡ true
unfolding is_element_ref_syntax text_eq all_hex
ref_syntax = refl
