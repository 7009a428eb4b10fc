-- ===== src/HostArgs.antt =====
-- src/bridge/nativeHostArgs.ts: the arguments of the native host. A text is the list of its UTF-16
-- code units; `encode` is Buffer.from to UTF-8.
pub mod Arguments
pub mod Origin
mod Tests
use arc_browser_mcp.Prelude.{
  ℕ, ◌+◌, Bool, true, false, not, ◌&&◌, ◌||◌, Option, none, some, List, [], ◌∷◌, ◌++◌, String, map,
  length, drop, ltb, ◌==◌, if◌then◌else◌,
}
use arc_browser_mcp.Text.{codes, text_eq}
use arc_browser_mcp.Interaction.{CodeUnits}
use arc_browser_mcp.Protocol.{Result, ok, fail}
use arc_browser_mcp.Redaction.{trim}

abbrev pub origin_prefix : CodeUnits
origin_prefix = codes "chrome-extension://"

abbrev pub parent_window_prefix : CodeUnits
parent_window_prefix = codes "--parent-window="

pub record ParsedHostArgs : Type 0 where
  pub origin : CodeUnits
  pub parent_window : Option CodeUnits

unfoldable pub starts_with : CodeUnits → CodeUnits → Bool
starts_with [] s = true
starts_with (k ∷ word) [] = false
starts_with (k ∷ word) (c ∷ s) = k == c && starts_with word s

-- `origin.endsWith("/")`
unfoldable pub ends_in_slash : CodeUnits → Bool
ends_in_slash [] = false
ends_in_slash (c ∷ []) = c == 47
ends_in_slash (c ∷ d ∷ s) = ends_in_slash (d ∷ s)

unfoldable pub normalize_origin : CodeUnits → CodeUnits
unfolding ends_in_slash
normalize_origin origin = if ends_in_slash origin then origin else origin ++ codes "/"

-- `new Set(items)` by adding one item after the other.
unfoldable pub add_distinct : CodeUnits → List CodeUnits → List CodeUnits
add_distinct x [] = x ∷ []
add_distinct x (y ∷ ys) = if text_eq y x then y ∷ ys else y ∷ add_distinct x ys

unfoldable pub add_all : List CodeUnits → List CodeUnits → List CodeUnits
unfolding add_distinct
add_all [] set = set
add_all (x ∷ xs) set = add_all xs (add_distinct x set)

-- The loop over the arguments.
unfoldable pub collect :
    List CodeUnits → List CodeUnits → Option CodeUnits → Result (List CodeUnits × Option CodeUnits)
unfolding starts_with trim
collect [] origins parent_window = ok (origins, parent_window)
collect (arg ∷ argv) origins parent_window =
    let is_origin = starts_with origin_prefix arg in
    let is_parent = starts_with parent_window_prefix arg in
    let rest = collect argv (if is_origin then origins ++ arg ∷ [] else origins) (
      if is_origin
      then parent_window
      else if is_parent
      then some (drop (length parent_window_prefix) arg)
      else parent_window) in
    if is_origin || is_parent || text_eq (trim arg) [] then rest else fail "ORIGIN_REJECTED"

module _ (encode : CodeUnits → List ℕ) where
  unfoldable pub safe_equal_string : CodeUnits → CodeUnits → Bool
  safe_equal_string left right =
      if not (length (encode left) == length (encode right))
      then false
      else text_eq (encode left) (encode right)

  -- The tests on the origins that were found.
  unfoldable pub check_origins :
      List CodeUnits → Option CodeUnits → CodeUnits → Result ParsedHostArgs
  unfolding add_all normalize_origin safe_equal_string
  check_origins [] parent_window expected_origin = fail "ORIGIN_REJECTED"
  check_origins (first ∷ origins) parent_window expected_origin =
      if ltb 1 (length (add_all (map normalize_origin (first ∷ origins)) []))
      then fail "ORIGIN_REJECTED"
      else if not (safe_equal_string (normalize_origin first) (normalize_origin expected_origin))
      then fail "ORIGIN_REJECTED"
      else ok (record { origin = normalize_origin first; parent_window = parent_window })

  unfoldable pub parse_native_host_args : List CodeUnits → CodeUnits → Result ParsedHostArgs
  unfolding collect check_origins
  parse_native_host_args argv expected_origin = elim (collect argv [] none) [
    | Result.err e ↦ Result.err e
    | Result.ok (origins, parent_window) ↦ check_origins origins parent_window expected_origin
  ]
