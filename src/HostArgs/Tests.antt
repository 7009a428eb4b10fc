-- ===== src/HostArgs/Tests.antt =====
-- The arguments that a browser gives.
use arc_browser_mcp.Prelude.{◌≡◌, refl, some, List, [], ◌∷◌, All}
use arc_browser_mcp.Text.{codes, text_eq, is_space}
use arc_browser_mcp.Interaction.{CodeUnits}
use arc_browser_mcp.Protocol.{ok}
use arc_browser_mcp.HostArgs.{ParsedHostArgs, normalize_origin, parse_native_host_args}
use arc_browser_mcp.HostArgs.Arguments.{IsKnown, HasOrigin}
use arc_browser_mcp.HostArgs.Origin.{parse_native_host_args-IsExpected}

abbrev argv : List CodeUnits
argv = codes "chrome-extension://ab/" ∷ codes "--parent-window=0" ∷ codes " " ∷ []

abbrev expected_origin : CodeUnits
expected_origin = codes "chrome-extension://ab"

abbrev parsed : ParsedHostArgs
parsed = record { origin = codes "chrome-extension://ab/"; parent_window = some (codes "0") }

argv-parsed : parse_native_host_args (λ s. s) argv expected_origin ≡ ok parsed
unfolding parse_native_host_args text_eq is_space
argv-parsed = refl

parse_native_host_args-IsExpected_example :
    (parsed.origin ≡ normalize_origin expected_origin)
    × All (IsKnown (λ arg. normalize_origin arg ≡ parsed.origin)) argv
    × HasOrigin argv
parse_native_host_args-IsExpected_example =
    parse_native_host_args-IsExpected (λ s. s) expected_origin argv parsed argv-parsed
