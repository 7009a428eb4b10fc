-- ===== src/Keys/Tests.antt =====
-- Key expressions with two modifiers.
use mathlib.Core.List.{Permᴰ}
use arc_browser_mcp.Prelude.{◌≡◌, refl, true, false, some, [], ◌∷◌, map}
use arc_browser_mcp.Text.{codes, text_eq, is_space}
use arc_browser_mcp.Interaction.{CodeUnits}
use arc_browser_mcp.Redaction.{ascii_lower, trim, has_name}
use arc_browser_mcp.Keys.{
  KeyValue, parse_press_key, resolve_key_name, add_modifiers, parse_parts, parse_key, split_plus,
}
use arc_browser_mcp.Keys.Order.{parse_press_key-perm}

abbrev lower : CodeUnits → CodeUnits
lower = map ascii_lower

control_shift :
    parse_press_key lower lower (codes "Ctrl+shift + a")
    ≡ some (record {
      key = KeyValue.text (codes "a");
      code = KeyValue.text (codes "KeyA");
      windows_virtual_key_code = 65;
      modifiers = 10;
      flags = record { control = true; shift = true; alt = false; meta = false };
    })
unfolding parse_press_key parse_parts parse_key resolve_key_name add_modifiers split_plus trim
    text_eq is_space has_name
control_shift = refl

parse_press_key-perm_example :
    parse_press_key lower lower (codes "Control+Shift+a")
    ≡ parse_press_key lower lower (codes "Shift+Control+a")
unfolding split_plus
parse_press_key-perm_example =
    parse_press_key-perm lower lower (codes "Control") (codes "Shift") (codes "Shift" ∷ [])
      (codes "Control" ∷ []) (codes "a") (codes "Control+Shift+a") (codes "Shift+Control+a") refl
      refl (Permᴰ.swap refl refl)
