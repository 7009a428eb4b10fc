-- ===== src/Json/Reads.antt =====
-- Reads of JSON values as texts of UTF-16 code units and as booleans.
use text.Mathlib.Text.{◌==◌ as str_eq}
use arc_browser_mcp.Prelude.{◌≡◌, Bool, false, Option, none, some, String}
use arc_browser_mcp.Text.{codes}
use arc_browser_mcp.Json.{Json, bool, string, get}
use arc_browser_mcp.Interaction.{CodeUnits}
use arc_browser_mcp.Interaction.Utf8.{utf16}

-- `typeof value === "string"`, and its code units.
unfoldable pub as_text : Option Json → Option CodeUnits
unfolding utf16
as_text (some (string s)) = some (utf16 (codes s))
as_text _ = none

unfoldable pub as_bool : Option Json → Option Bool
as_bool (some (bool b)) = some b
as_bool _ = none

-- Records with the same properties but for one.
abbrev pub AgreeBut : String → Json → Json → Type 0
AgreeBut key p q = (k : String) → str_eq key k ≡ false → get p k ≡ get q k
