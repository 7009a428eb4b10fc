-- ===== src/Console/Tests.antt =====
-- A small buffer, and a response that is cut.
use arc_browser_mcp.Prelude.{
  ℕ, ◌+◌, ◌*◌, ◌≤◌, ◌≡◌, none, List, [], ◌∷◌, String, length, drop, ltb, length-drop, arith,
}
use arc_browser_mcp.Console.{
  ConsoleEntry, log, Entries, max_serialized_bytes, new_monitor, newest_of, build_console_response,
}
use arc_browser_mcp.Console.Ring.{Action, ingests, resizes, acts, logs, acts_keep_newest}
use arc_browser_mcp.Console.Response.{IsLongest, build_console_response-IsLongest}

abbrev entry : String → ConsoleEntry
entry text = record {
  timestamp = "2026-01-01T00:00:00.000Z";
  level = log;
  text = text;
  source = none;
}

abbrev actions : List Action
actions =
    ingests (entry "a")
    ∷ ingests (entry "b")
    ∷ ingests (entry "c")
    ∷ resizes 1
    ∷ ingests (entry "d")
    ∷ []

acts_keep_newest_example :
    let m = acts actions (new_monitor 2) in
    (length m.entries ≤ m.capacity)
    × (m.dropped + length m.entries ≡ length (logs actions []))
    × (drop m.dropped (logs actions []) ≡ m.entries)
acts_keep_newest_example = acts_keep_newest 2 (omega arith) actions

-- Entries of 300,000 bytes each.
abbrev measure : Entries → ℕ
measure es = 300000 * length es

measure_shorter : (es : Entries) (i j : ℕ) → i ≤ j → measure (drop j es) ≤ measure (drop i es)
measure_shorter es i j le = omega (arith, length-drop i es, length-drop j es, le)

build_console_response-IsLongest_example :
    let (out, truncated) = build_console_response measure (entry "a" ∷ entry "b" ∷ []) 10 in
    IsLongest measure (newest_of 10 (entry "a" ∷ entry "b" ∷ [])) out
    × (truncated ≡ ltb max_serialized_bytes (measure (newest_of 10 (entry "a" ∷ entry "b" ∷ []))))
build_console_response-IsLongest_example =
    build_console_response-IsLongest measure (omega arith) measure_shorter
      (entry "a" ∷ entry "b" ∷ []) 10
