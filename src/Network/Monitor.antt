-- ===== src/Network/Monitor.antt =====
-- src/observability/NetworkMonitor.ts: the monitor. `pending` is a map in the order of insertion.
use arc_browser_mcp.Prelude.{
  ℕ, zero, suc, Bool, Option, none, some, List, [], ◌∷◌, ◌++◌, String, length, leb, if◌then◌else◌,
}
use arc_browser_mcp.Text.{text_eq}
use arc_browser_mcp.Json.{Json}
use arc_browser_mcp.Interaction.{CodeUnits}
use arc_browser_mcp.Console.{shift, shrink, newest_of, build_response}
use arc_browser_mcp.Redaction.Urls.{UrlApi}
use arc_browser_mcp.Network.{
  NetworkEntry, network_correlation_hard_max, request_entry, merge_redirect, merge_response,
  merge_failure,
}

pub record PendingRequest : Type 0 where
  pub entry : NetworkEntry
  pub redirect_count : ℕ

abbrev pub Pending : Type 0
Pending = List (CodeUnits × PendingRequest)

pub record NetworkMonitor : Type 0 where
  pub capacity : ℕ
  pub finished : List NetworkEntry
  pub pending : Pending
  pub dropped : ℕ
  pub observation_counter : ℕ

unfoldable pub new_monitor : ℕ → NetworkMonitor
new_monitor capacity = record {
  capacity = capacity;
  finished = [];
  pending = [];
  dropped = 0;
  observation_counter = 0;
}

-- Map.get, Map.set and Map.delete.
unfoldable pub find : CodeUnits → Pending → Option PendingRequest
find id [] = none
find id ((other, p) ∷ pending) = if text_eq other id then some p else find id pending

unfoldable pub set : CodeUnits → PendingRequest → Pending → Pending
set id p [] = (id, p) ∷ []
set id p ((other, q) ∷ pending) =
    if text_eq other id then (other, p) ∷ pending else (other, q) ∷ set id p pending

unfoldable pub delete : CodeUnits → Pending → Pending
delete id [] = []
delete id ((other, q) ∷ pending) =
    if text_eq other id then pending else (other, q) ∷ delete id pending

-- The first key of the map is deleted and counted.
unfoldable pub drop_oldest : NetworkMonitor → NetworkMonitor
unfolding delete
drop_oldest m = elim m.pending [
  | [] ↦ m
  | (oldest, p) ∷ rest ↦ record m {
    pending = delete oldest ((oldest, p) ∷ rest);
    dropped = suc m.dropped;
  }
]

unfoldable pub make_room : NetworkMonitor → NetworkMonitor
unfolding drop_oldest
make_room m = if leb network_correlation_hard_max (length m.pending) then drop_oldest m else m

unfoldable pub add_request : CodeUnits → NetworkEntry → NetworkMonitor → NetworkMonitor
unfolding find set make_room
add_request raw_request_id entry m = elim (find raw_request_id m.pending) [
  | some existing ↦ record m {
    pending =
        set raw_request_id
          (record {
            entry = merge_redirect existing.entry entry;
            redirect_count = suc existing.redirect_count;
          })
          m.pending;
  }
  | none ↦ record (make_room m) {
    pending =
        set raw_request_id (record { entry = entry; redirect_count = 0 }) (make_room m).pending;
  }
]

unfoldable pub push_finished : NetworkEntry → NetworkMonitor → NetworkMonitor
unfolding shift
push_finished entry m =
    if leb m.capacity (length m.finished)
    then record m { finished = shift m.finished ++ entry ∷ []; dropped = suc m.dropped }
    else record m { finished = m.finished ++ entry ∷ [] }

module _ (lower upper : CodeUnits → CodeUnits) (api : UrlApi) where
  unfoldable pub request_will_be_sent :
      CodeUnits → Json → CodeUnits → NetworkMonitor → NetworkMonitor
  unfolding add_request
  request_will_be_sent raw_request_id params started_at m =
      let counter = suc m.observation_counter in
      add_request raw_request_id (request_entry lower upper api counter params started_at)
        (record m { observation_counter = counter })

module _ (lower : CodeUnits → CodeUnits) (integral : String → Bool) where
  unfoldable pub response_received : CodeUnits → Json → NetworkMonitor → NetworkMonitor
  unfolding find set
  response_received raw_request_id params m = elim (find raw_request_id m.pending) [
    | none ↦ m
    | some p ↦ record m {
      pending =
          set raw_request_id
            (record {
              entry = merge_response lower integral params p.entry;
              redirect_count = p.redirect_count;
            })
            m.pending;
    }
  ]

unfoldable pub loading_finished : CodeUnits → NetworkMonitor → NetworkMonitor
unfolding find delete push_finished
loading_finished raw_request_id m = elim (find raw_request_id m.pending) [
  | none ↦ m
  | some p ↦ push_finished p.entry (record m { pending = delete raw_request_id m.pending })
]

unfoldable pub loading_failed : CodeUnits → Json → NetworkMonitor → NetworkMonitor
unfolding find delete push_finished
loading_failed raw_request_id params m = elim (find raw_request_id m.pending) [
  | none ↦ m
  | some p ↦
      push_finished (merge_failure params p.entry)
        (record m { pending = delete raw_request_id m.pending })
]

unfoldable pub newest : ℕ → NetworkMonitor → List NetworkEntry
unfolding newest_of
newest limit m = newest_of limit m.finished

unfoldable pub clear : NetworkMonitor → NetworkMonitor × ℕ
clear m = (record m { finished = []; pending = []; dropped = 0 }, length m.finished)

unfoldable pub remove_pending_for_tab_reset : NetworkMonitor → NetworkMonitor
remove_pending_for_tab_reset m = record m { pending = [] }

-- A capacity that is not a positive integer is ignored.
unfoldable pub resize : ℕ → NetworkMonitor → NetworkMonitor
unfolding shrink
resize zero m = m
resize (suc n) m =
    let (finished, dropped) = shrink (suc n) m.finished m.dropped in
    record m { capacity = suc n; finished = finished; dropped = dropped }

unfoldable pub build_network_response :
    (List NetworkEntry → ℕ) → List NetworkEntry → ℕ → List NetworkEntry × Bool
unfolding build_response
build_network_response measure all_entries limit = build_response measure all_entries limit

-- One call of the monitor.
pub data Event : Type 0 where
  sent : CodeUnits → Json → CodeUnits → Event
  received : CodeUnits → Json → Event
  loaded : CodeUnits → Event
  broken : CodeUnits → Json → Event
  cleared : Event
  tab_reset : Event
  resized : ℕ → Event

module _ (lower upper : CodeUnits → CodeUnits) (integral : String → Bool) (api : UrlApi) where
  unfoldable pub step : Event → NetworkMonitor → NetworkMonitor
  unfolding request_will_be_sent response_received loading_finished loading_failed clear
      remove_pending_for_tab_reset resize
  step (sent id params started_at) m = request_will_be_sent lower upper api id params started_at m
  step (received id params) m = response_received lower integral id params m
  step (loaded id) m = loading_finished id m
  step (broken id params) m = loading_failed id params m
  step cleared m = (clear m).0
  step tab_reset m = remove_pending_for_tab_reset m
  step (resized n) m = resize n m

  unfoldable pub run : List Event → NetworkMonitor → NetworkMonitor
  unfolding step
  run [] m = m
  run (event ∷ events) m = run events (step event m)
