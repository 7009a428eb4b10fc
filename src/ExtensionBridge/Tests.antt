-- ===== src/ExtensionBridge/Tests.antt =====
-- A bridge that fails to connect, connects, loses its port and is closed.
use arc_browser_mcp.Prelude.{◌≡◌, true, none, List, [], ◌∷◌}
use arc_browser_mcp.ExtensionBridge.{
  Options, connected, failed, new_bridge, ensure_connected, close,
}
use arc_browser_mcp.ExtensionBridge.Timers.{IsSound, is_alive}
use arc_browser_mcp.ExtensionBridge.Retrying.{
  Happening, ensures, disconnects, retries, run, run_alive, run_after_close,
}

abbrev options : Options
options = record { base_delay_ms = none; max_delay_ms = none; request_timeout_ms = none }

abbrev happenings : List Happening
happenings =
    retries 0 (connected 1)
    ∷ disconnects 1 none
    ∷ ensures "alarm" (failed "no host")
    ∷ retries 1 (connected 2)
    ∷ []

run_alive_example :
    let b = run (ensure_connected "startup" (failed "no host") (new_bridge options)) happenings in
    IsSound b × (is_alive b ≡ true)
run_alive_example = run_alive options "startup" (failed "no host") happenings

run_after_close_example :
    let b = run (ensure_connected "startup" (failed "no host") (new_bridge options)) happenings in
    ((run (close b).0 (ensures "late" (connected 3) ∷ retries 1 (connected 4) ∷ [])).port ≡ none)
    × ((run (close b).0 (ensures "late" (connected 3) ∷ retries 1 (connected 4) ∷ [])).running ≡ [])
run_after_close_example =
    run_after_close
      (run (ensure_connected "startup" (failed "no host") (new_bridge options)) happenings)
      (ensures "late" (connected 3) ∷ retries 1 (connected 4) ∷ [])
      (run_alive options "startup" (failed "no host") happenings).0
