-- ===== src/Snapshot.antt =====
-- src/browser/snapshotSemantics.ts: how one node of the accessibility tree is read. A raw node is the
-- JSON value that the debugger sends, a text the list of its UTF-16 code units.
-- Parameters: `lower` is toLowerCase; in `NormalizeOptions` the two maps are functions of the backend
-- id, which is a JSON number.
pub mod Tree
pub mod Budget
pub mod Walking
mod Tests
pub mod Counting
pub mod Emitted
pub mod Leaks
pub mod Longest
pub mod Privacy
pub mod Alike
pub mod Fuel
use arc_browser_mcp.Prelude.{
  ℕ, zero, suc, Bool, true, false, not, ◌&&◌, ◌||◌, Option, none, some, List, [], ◌∷◌, String, leb,
  if◌then◌else◌,
}
use arc_browser_mcp.Text.{codes, text_eq}
use arc_browser_mcp.Json.{
  Json, bool, number, numeral, string, array, object, Items, nil, cons, is_record, get,
}
use arc_browser_mcp.Json.Reads.{as_text, as_bool}
use arc_browser_mcp.Interaction.{CodeUnits}
use arc_browser_mcp.Interaction.Utf8.{utf16}
use arc_browser_mcp.Tabs.ProjectId.Decimal.{digits}
use arc_browser_mcp.Redaction.{truncate, trim, has_name, strip}

abbrev pub snapshot_max_field_chars : ℕ
snapshot_max_field_chars = 200

abbrev pub actionable_roles : List CodeUnits
actionable_roles =
    codes "button"
    ∷ codes "link"
    ∷ codes "textbox"
    ∷ codes "searchbox"
    ∷ codes "checkbox"
    ∷ codes "radio"
    ∷ codes "combobox"
    ∷ codes "option"
    ∷ codes "slider"
    ∷ codes "spinbutton"
    ∷ codes "switch"
    ∷ codes "tab"
    ∷ codes "menuitem"
    ∷ codes "menuitemcheckbox"
    ∷ codes "menuitemradio"
    ∷ codes "treeitem"
    ∷ codes "listbox"
    ∷ codes "heading"
    ∷ []

abbrev pub wrapper_roles : List CodeUnits
wrapper_roles =
    codes "generic" ∷ codes "group" ∷ codes "none" ∷ codes "presentation" ∷ codes "directory" ∷ []

abbrev pub editable_value_roles : List CodeUnits
editable_value_roles =
    codes "textbox" ∷ codes "searchbox" ∷ codes "spinbutton" ∷ codes "combobox" ∷ []

pub data Checked : Type 0 where
  mixed : Checked
  is_checked : Bool → Checked

pub data Safety : Type 0 where
  safe password : Safety

pub record SnapshotNode : Type 0 where
  pub ref : Option CodeUnits
  pub role : CodeUnits
  pub name : Option CodeUnits
  pub value : Option CodeUnits
  pub description : Option CodeUnits
  pub disabled : Bool
  pub focused : Bool
  pub selected : Bool
  pub checked : Option Checked
  pub expanded : Option Bool
  pub level : Option ℕ

-- `axString` on a value that is a text, or has one.
unfoldable pub inner_string : Option Json → CodeUnits
unfolding utf16
inner_string (some (string s)) = utf16 (codes s)
inner_string (some (number n)) = digits n
inner_string (some (numeral text)) = utf16 (codes text)
inner_string (some (bool b)) = if b then codes "true" else codes "false"
inner_string _ = []

unfoldable pub ax_string : Option Json → CodeUnits
unfolding inner_string utf16
ax_string (some (string s)) = utf16 (codes s)
ax_string (some (object fs)) = inner_string (get (object fs) "value")
ax_string _ = []

unfoldable pub truncate_field : CodeUnits → CodeUnits
unfolding truncate
truncate_field value = truncate value snapshot_max_field_chars

-- `record["value"]?.["value"]`
unfoldable pub inner_value : Json → Option Json
inner_value record_ = elim (get record_ "value") [ none ↦ none | some value ↦ get value "value" ]

-- The value of the first property that has the name.
unfoldable pub property_in : (CodeUnits → CodeUnits) → CodeUnits → Items → Option Json
unfolding as_text
property_in lower wanted nil = none
property_in lower wanted (cons entry entries) =
    let rest = property_in lower wanted entries in
    elim (as_text (get entry "name")) [
      | none ↦ rest
      | some name ↦
          if text_eq (lower name) wanted
          then elim (get entry "value") [
            | none ↦ none
            | some value ↦ if is_record value then get value "value" else some value
          ]
          else rest
    ]

unfoldable pub as_items : Option Json → Items
as_items (some (array entries)) = entries
as_items _ = nil

unfoldable pub level_of : Option Json → Option ℕ
level_of (some (number n)) = if leb n 100 then some n else none
level_of _ = none

unfoldable pub checked_of : Option Json → Option Checked
checked_of (some (string s)) =
    if text_eq (utf16 (codes s)) (codes "mixed") then some mixed else none
checked_of (some (bool b)) = some (is_checked b)
checked_of _ = none

module _ (lower : CodeUnits → CodeUnits) where
  unfoldable pub property_value : Option Json → CodeUnits → Option Json
  unfolding property_in as_items
  property_value properties name = property_in lower (lower name) (as_items properties)

  unfoldable pub boolean_property : Option Json → CodeUnits → Option Bool
  unfolding property_value as_bool
  boolean_property properties name = as_bool (property_value properties name)

  unfoldable pub checked_property : Option Json → Option Checked
  unfolding property_value checked_of
  checked_property properties = checked_of (property_value properties (codes "checked"))

  -- The first of the names with a level.
  unfoldable pub level_property : Option Json → List CodeUnits → Option ℕ
  unfolding property_value level_of
  level_property properties [] = none
  level_property properties (name ∷ names) = elim (level_of (property_value properties name)) [
    | none ↦ level_property properties names
    | some n ↦ some n
  ]

-- A word somewhere in a text, in any case, as a regular expression finds it.
unfoldable pub finds : CodeUnits → CodeUnits → Bool
unfolding strip
finds word [] = elim (strip word []) [ none ↦ false | some rest ↦ true ]
finds word (c ∷ s) = elim (strip word (c ∷ s)) [ none ↦ finds word s | some rest ↦ true ]

-- PASSWORD_NAME_PATTERN
unfoldable pub has_password_name : CodeUnits → Bool
unfolding finds
has_password_name name =
    finds (codes "password") name
    || finds (codes "passcode") name
    || finds (codes "passphrase") name
    || finds (codes "current-password") name
    || finds (codes "new-password") name
    || finds (codes "passwd") name
    || finds (codes "pwd") name
    || finds (codes "pin-code") name

unfoldable pub is_yes : Option Json → Bool
is_yes (some (bool b)) = b
is_yes _ = false

unfoldable pub text_or_empty : Option Json → CodeUnits
unfolding as_text
text_or_empty raw = elim (as_text raw) [ none ↦ [] | some s ↦ s ]

-- The property `protected`: the inner value where that is a boolean, else the value itself.
unfoldable pub is_protected : Json → Bool
unfolding inner_value is_yes
is_protected entry = elim (as_bool (inner_value entry)) [
  | none ↦ is_yes (get entry "value")
  | some b ↦ b
]

unfoldable pub hint_text : Json → CodeUnits
unfolding inner_value text_or_empty
hint_text entry = elim (as_text (inner_value entry)) [
  | none ↦ text_or_empty (get entry "value")
  | some s ↦ s
]

module _ (lower : CodeUnits → CodeUnits) where
  -- What a property tells of a password; an entry that is not a record has no name.
  unfoldable pub tells_password : Json → Bool
  unfolding text_or_empty is_protected hint_text finds has_name
  tells_password entry =
      let name = lower (text_or_empty (get entry "name")) in
      (text_eq name (codes "protected") && is_protected entry)
      || (has_name name (codes "autocomplete" ∷ codes "invalid" ∷ codes "roledescription" ∷ [])
          && finds (codes "password") (hint_text entry))

  unfoldable pub any_password : Items → Bool
  unfolding tells_password
  any_password nil = false
  any_password (cons entry entries) = tells_password entry || any_password entries

  unfoldable pub ax_password_semantics : Json → Bool
  unfolding any_password as_items ax_string trim finds
  ax_password_semantics raw =
      any_password (as_items (get raw "properties"))
      || finds (codes "password") (lower (trim (ax_string (get raw "role"))))
      || finds (codes "password") (trim (ax_string (get raw "description")))

  unfoldable pub role_of : Json → CodeUnits
  unfolding ax_string trim
  role_of raw = lower (trim (ax_string (get raw "role")))

unfoldable pub field_of : Json → String → CodeUnits
unfolding truncate_field ax_string trim
field_of raw key = truncate_field (trim (ax_string (get raw key)))
