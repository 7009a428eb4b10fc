-- ===== src/Console.antt =====
-- src/observability/ConsoleMonitor.ts: the ring buffer of console entries and the response that is
-- built from it, with the bounds of src/observability/observabilityPolicy.ts.
pub mod Ring
pub mod Response
mod Tests
use arc_browser_mcp.Prelude.{
  ℕ, zero, suc, ◌+◌, ◌-◌, ◌*◌, ◌/◌, Bool, true, false, Option, none, some, List, [], ◌∷◌, ◌++◌,
  String, length, drop, ltb, leb, if◌then◌else◌,
}

pub data ConsoleLevel : Type 0 where
  log info warning error debug : ConsoleLevel

pub record ConsoleSource : Type 0 where
  pub url : Option String
  pub line : Option ℕ
  pub column : Option ℕ

pub record ConsoleEntry : Type 0 where
  pub timestamp : String
  pub level : ConsoleLevel
  pub text : String
  pub source : Option ConsoleSource

abbrev pub Entries : Type 0
Entries = List ConsoleEntry

abbrev pub default_retrieval_limit : ℕ
default_retrieval_limit = 100

abbrev pub max_retrieval_limit : ℕ
max_retrieval_limit = 500

abbrev pub max_serialized_bytes : ℕ
max_serialized_bytes = 512 * 1024

pub record ConsoleMonitor : Type 0 where
  pub capacity : ℕ
  pub entries : Entries
  pub dropped : ℕ

unfoldable pub new_monitor : ℕ → ConsoleMonitor
new_monitor capacity = record { capacity = capacity; entries = []; dropped = 0 }

-- Array.shift
unfoldable pub shift : {E : Type 0} → List E → List E
shift [] = []
shift (entry ∷ entries) = entries

unfoldable pub ingest : ConsoleEntry → ConsoleMonitor → ConsoleMonitor
unfolding shift
ingest entry m =
    if leb m.capacity (length m.entries)
    then record m { entries = shift m.entries ++ entry ∷ []; dropped = suc m.dropped }
    else record m { entries = m.entries ++ entry ∷ [] }

-- A limit that is not a positive integer counts as the default.
unfoldable pub normalize_limit : ℕ → ℕ
normalize_limit zero = default_retrieval_limit
normalize_limit (suc n) = if ltb max_retrieval_limit (suc n) then max_retrieval_limit else suc n

unfoldable pub newest_of : {E : Type 0} → ℕ → List E → List E
unfolding normalize_limit
newest_of limit entries =
    let safe = normalize_limit limit in
    if leb (length entries) safe then entries else drop (length entries - safe) entries

unfoldable pub newest : ℕ → ConsoleMonitor → Entries
unfolding newest_of
newest limit m = newest_of limit m.entries

unfoldable pub clear : ConsoleMonitor → ConsoleMonitor × ℕ
clear m = (record m { entries = []; dropped = 0 }, length m.entries)

-- The loop of `resize`.
unfoldable pub shrink : {E : Type 0} → ℕ → List E → ℕ → List E × ℕ
shrink capacity [] dropped = ([], dropped)
shrink capacity (entry ∷ entries) dropped =
    let rest = shrink capacity entries (suc dropped) in
    if ltb capacity (length (entry ∷ entries)) then rest else (entry ∷ entries, dropped)

-- A capacity that is not a positive integer is ignored.
unfoldable pub resize : ℕ → ConsoleMonitor → ConsoleMonitor
unfolding shrink
resize zero m = m
resize (suc n) m =
    let (entries, dropped) = shrink (suc n) m.entries m.dropped in
    record { capacity = suc n; entries = entries; dropped = dropped }

-- The binary search of `buildConsoleResponse`; the range is halved, so its length is enough fuel.
unfoldable pub search_suffix : (ℕ → Bool) → ℕ → ℕ → ℕ → ℕ
search_suffix fits zero low high = low
search_suffix fits (suc fuel) low high =
    let mid = (low + high) / 2 in
    let enough = fits mid in
    let next =
      search_suffix fits fuel (if enough then low else suc mid) (if enough then mid else high) in
    if ltb low high then next else low

-- The entries of the response and whether they were cut; `measure` is the size of the response
-- with the entries that it is given.
module _ {E : Type 0} (measure : List E → ℕ) where
  unfoldable pub fits_from : List E → ℕ → Bool
  fits_from requested mid = leb (measure (drop mid requested)) max_serialized_bytes

  unfoldable pub cut_suffix : List E → List E
  unfolding search_suffix fits_from
  cut_suffix requested =
      let low = search_suffix (fits_from requested) (length requested) 0 (length requested) in
      if ltb max_serialized_bytes (measure (drop low requested)) then [] else drop low requested

  unfoldable pub build_response : List E → ℕ → List E × Bool
  unfolding newest_of cut_suffix
  build_response all_entries limit =
      let requested = newest_of limit all_entries in
      if ltb max_serialized_bytes (measure requested)
      then (cut_suffix requested, true)
      else (requested, false)

unfoldable pub build_console_response : (Entries → ℕ) → Entries → ℕ → Entries × Bool
unfolding build_response
build_console_response measure all_entries limit = build_response measure all_entries limit
