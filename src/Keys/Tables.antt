-- ===== src/Keys/Tables.antt =====
-- src/browser/interactionPolicy.ts: the tables of keys and modifiers.
use arc_browser_mcp.Prelude.{ℕ, List, [], ◌∷◌}
use arc_browser_mcp.Text.{codes}
use arc_browser_mcp.Interaction.{CodeUnits}

abbrev pub supported_keys : List (CodeUnits × CodeUnits)
supported_keys =
    (codes "Enter", codes "Enter")
    ∷ (codes "Tab", codes "Tab")
    ∷ (codes "Escape", codes "Escape")
    ∷ (codes "Backspace", codes "Backspace")
    ∷ (codes "Delete", codes "Delete")
    ∷ (codes "ArrowUp", codes "ArrowUp")
    ∷ (codes "ArrowDown", codes "ArrowDown")
    ∷ (codes "ArrowLeft", codes "ArrowLeft")
    ∷ (codes "ArrowRight", codes "ArrowRight")
    ∷ (codes "Home", codes "Home")
    ∷ (codes "End", codes "End")
    ∷ (codes "PageUp", codes "PageUp")
    ∷ (codes "PageDown", codes "PageDown")
    ∷ (codes " ", codes "Space")
    ∷ (codes "Space", codes "Space")
    ∷ (codes "Spacebar", codes "Space")
    ∷ []

-- The names that an object literal inherits.
abbrev pub inherited_names : List CodeUnits
inherited_names =
    codes "constructor"
    ∷ codes "__defineGetter__"
    ∷ codes "__defineSetter__"
    ∷ codes "hasOwnProperty"
    ∷ codes "__lookupGetter__"
    ∷ codes "__lookupSetter__"
    ∷ codes "isPrototypeOf"
    ∷ codes "propertyIsEnumerable"
    ∷ codes "toString"
    ∷ codes "valueOf"
    ∷ codes "__proto__"
    ∷ codes "toLocaleString"
    ∷ []

pub data Modifier : Type 0 where
  control shift alt meta : Modifier

abbrev pub modifier_aliases : List (CodeUnits × Modifier)
modifier_aliases =
    (codes "Control", control)
    ∷ (codes "Ctrl", control)
    ∷ (codes "Shift", shift)
    ∷ (codes "Alt", alt)
    ∷ (codes "Meta", meta)
    ∷ (codes "Cmd", meta)
    ∷ (codes "Command", meta)
    ∷ []

abbrev pub virtual_key_codes : List (CodeUnits × ℕ)
virtual_key_codes =
    (codes "Enter", 13)
    ∷ (codes "Tab", 9)
    ∷ (codes "Escape", 27)
    ∷ (codes "Backspace", 8)
    ∷ (codes "Delete", 46)
    ∷ (codes "ArrowUp", 38)
    ∷ (codes "ArrowDown", 40)
    ∷ (codes "ArrowLeft", 37)
    ∷ (codes "ArrowRight", 39)
    ∷ (codes "Home", 36)
    ∷ (codes "End", 35)
    ∷ (codes "PageUp", 33)
    ∷ (codes "PageDown", 34)
    ∷ (codes "Space", 32)
    ∷ []

abbrev pub function_key_codes : List (CodeUnits × ℕ)
function_key_codes =
    (codes "F1", 112)
    ∷ (codes "F2", 113)
    ∷ (codes "F3", 114)
    ∷ (codes "F4", 115)
    ∷ (codes "F5", 116)
    ∷ (codes "F6", 117)
    ∷ (codes "F7", 118)
    ∷ (codes "F8", 119)
    ∷ (codes "F9", 120)
    ∷ (codes "F10", 121)
    ∷ (codes "F11", 122)
    ∷ (codes "F12", 123)
    ∷ []

abbrev pub punctuation_key_codes : List (CodeUnits × (CodeUnits × ℕ))
punctuation_key_codes =
    (codes ";", (codes "Semicolon", 186))
    ∷ (codes "=", (codes "Equal", 187))
    ∷ (codes ",", (codes "Comma", 188))
    ∷ (codes "-", (codes "Minus", 189))
    ∷ (codes ".", (codes "Period", 190))
    ∷ (codes "/", (codes "Slash", 191))
    ∷ (codes "`", (codes "Backquote", 192))
    ∷ (codes "[", (codes "BracketLeft", 219))
    ∷ (codes "\\", (codes "Backslash", 220))
    ∷ (codes "]", (codes "BracketRight", 221))
    ∷ (codes "'", (codes "Quote", 222))
    ∷ (codes ":", (codes "Semicolon", 186))
    ∷ (codes "!", (codes "Digit1", 49))
    ∷ (codes "?", (codes "Slash", 191))
    ∷ (codes "\"", (codes "Quote", 222))
    ∷ (codes "(", (codes "Digit9", 57))
    ∷ (codes ")", (codes "Digit0", 48))
    ∷ []
