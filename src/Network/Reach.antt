-- ===== src/Network/Reach.antt =====
-- What holds of the monitor in every run: its bounds, and what its entries show.
use arc_browser_mcp.Prelude.{
  ℕ, zero, suc, ◌-◌, ◌≤◌, ◌≡◌, inl, inr, Bool, some, List, [], ◌∷◌, ◌++◌, String, length,
  length-append, leb, choose, All, arith, Option-cases,
}
use arc_browser_mcp.Json.{Json}
use arc_browser_mcp.Interaction.{CodeUnits}
use arc_browser_mcp.Console.{shift}
use arc_browser_mcp.Redaction.Names.{LowersAscii}
use arc_browser_mcp.Redaction.Urls.{UrlApi}
use arc_browser_mcp.Network.{
  NetworkEntry, network_correlation_hard_max, request_entry, merge_redirect, merge_response,
  merge_failure,
}
use arc_browser_mcp.Network.Entries.{
  IsSafeEntry, request_entry-IsSafe, merge_redirect-IsSafe, merge_response-IsSafe,
  merge_failure-IsSafe,
}
use arc_browser_mcp.Network.Monitor.{
  PendingRequest, Pending, NetworkMonitor, new_monitor, find, set, delete, drop_oldest, make_room,
  add_request, push_finished, request_will_be_sent, response_received, loading_finished,
  loading_failed, clear, remove_pending_for_tab_reset, resize, Event, sent, received, loaded,
  broken, cleared, tab_reset, resized, step, run,
}
use arc_browser_mcp.Network.Pending.{
  length-set, length-set_found, length-delete, text_eq_refl, AllPending, find-AllPending,
  set-AllPending, delete-AllPending, append-All, shift-All, length-shrink, shrink-All,
}

pub record IsWell (m : NetworkMonitor) : Type 0 where
  pub pos : 1 ≤ m.capacity
  pub room : length m.finished ≤ m.capacity
  pub few : length m.pending ≤ network_correlation_hard_max
  pub published : All IsSafeEntry m.finished
  pub waiting : AllPending IsSafeEntry m.pending

length-shift : (es : List NetworkEntry) → length (shift es) ≡ length es - 1
unfolding shift
length-shift [] = omega arith
length-shift (e ∷ es) = omega arith

push_finished-IsWell :
    (entry : NetworkEntry) (m : NetworkMonitor)
    → IsSafeEntry entry
    → IsWell m
    → IsWell (push_finished entry m)
unfolding push_finished
push_finished-IsWell entry m h w =
    choose IsWell (record m { finished = shift m.finished ++ entry ∷ []; dropped = suc m.dropped })
      (record m { finished = m.finished ++ entry ∷ [] }) (leb m.capacity (length m.finished))
      (λ full. record {
        pos = w.pos;
        room = omega (
          arith,
          length-append (shift m.finished) (entry ∷ []),
          length-shift m.finished,
          w.room,
          w.pos,
        );
        few = w.few;
        published =
            append-All IsSafeEntry (shift m.finished) entry
              (shift-All IsSafeEntry m.finished w.published) h;
        waiting = w.waiting;
      })
      (λ free. record {
        pos = w.pos;
        room = ground (arith, length-append m.finished (entry ∷ []), free);
        few = w.few;
        published = append-All IsSafeEntry m.finished entry w.published h;
        waiting = w.waiting;
      })

abbrev HasRoom : NetworkMonitor → Type 0
HasRoom m = IsWell m × (suc (length m.pending) ≤ network_correlation_hard_max)

drop_oldest-HasRoom :
    (m : NetworkMonitor) (pending : Pending)
    → IsWell (record m { pending = pending })
    → HasRoom (drop_oldest (record m { pending = pending }))
unfolding drop_oldest delete
drop_oldest-HasRoom m [] w = (w, omega arith)
drop_oldest-HasRoom m ((oldest, p) ∷ rest) w = rw (text_eq_refl oldest) (
  record {
    pos = w.pos;
    room = w.room;
    few = omega (arith, w.few);
    published = w.published;
    waiting = w.waiting.1;
  },
  omega (arith, w.few),
)

make_room-HasRoom : (m : NetworkMonitor) → IsWell m → HasRoom (make_room m)
unfolding make_room
make_room-HasRoom m w =
    choose HasRoom (drop_oldest m) m (leb network_correlation_hard_max (length m.pending))
      (λ full. drop_oldest-HasRoom m m.pending w) (λ free. (w, ground (arith, free)))

-- The pending requests are replaced.
with_pending-IsWell :
    (m : NetworkMonitor) (pending : Pending)
    → length pending ≤ network_correlation_hard_max
    → AllPending IsSafeEntry pending
    → IsWell m
    → IsWell (record m { pending = pending })
with_pending-IsWell m pending few waiting w = record {
  pos = w.pos;
  room = w.room;
  few = few;
  published = w.published;
  waiting = waiting;
}

deleted-IsWell :
    (id : CodeUnits) (m : NetworkMonitor)
    → IsWell m
    → IsWell (record m { pending = delete id m.pending })
deleted-IsWell id m w =
    with_pending-IsWell m (delete id m.pending) (omega (arith, length-delete id m.pending, w.few))
      (delete-AllPending IsSafeEntry id m.pending w.waiting) w

-- The entry of a pending request is replaced.
replaced-IsWell :
    (id : CodeUnits) (p old : PendingRequest) (m : NetworkMonitor)
    → find id m.pending ≡ some old
    → IsSafeEntry p.entry
    → IsWell m
    → IsWell (record m { pending = set id p m.pending })
replaced-IsWell id p old m e h w =
    with_pending-IsWell m (set id p m.pending)
      (omega (arith, length-set_found id p old m.pending e, w.few))
      (set-AllPending IsSafeEntry id p m.pending h w.waiting) w

add_request-IsWell :
    (id : CodeUnits) (entry : NetworkEntry) (m : NetworkMonitor)
    → IsSafeEntry entry
    → IsWell m
    → IsWell (add_request id entry m)
unfolding add_request
add_request-IsWell id entry m h w = elim (Option-cases (find id m.pending)) [
  | inr (old, e) ↦
      rw (e, add_request)
        (replaced-IsWell id
          (record {
            entry = merge_redirect old.entry entry;
            redirect_count = suc old.redirect_count;
          })
          old m e
          (merge_redirect-IsSafe old.entry entry
            (find-AllPending IsSafeEntry id old m.pending e w.waiting) h)
          w)
  | inl e ↦
      rw (e, add_request)
        (let (made, room) = make_room-HasRoom m w in
          let new : PendingRequest = record { entry = entry; redirect_count = 0 } in
          with_pending-IsWell (make_room m) (set id new (make_room m).pending)
            (omega (arith, length-set id new (make_room m).pending, room))
            (set-AllPending IsSafeEntry id new (make_room m).pending h made.waiting) made)
]

loading_finished-IsWell :
    (id : CodeUnits) (m : NetworkMonitor) → IsWell m → IsWell (loading_finished id m)
unfolding loading_finished
loading_finished-IsWell id m w = elim (Option-cases (find id m.pending)) [
  | inl e ↦ rw (e, loading_finished) w
  | inr (p, e) ↦
      rw (e, loading_finished)
        (push_finished-IsWell p.entry (record m { pending = delete id m.pending })
          (find-AllPending IsSafeEntry id p m.pending e w.waiting) (deleted-IsWell id m w))
]

loading_failed-IsWell :
    (id : CodeUnits) (params : Json) (m : NetworkMonitor)
    → IsWell m
    → IsWell (loading_failed id params m)
unfolding loading_failed
loading_failed-IsWell id params m w = elim (Option-cases (find id m.pending)) [
  | inl e ↦ rw (e, loading_failed) w
  | inr (p, e) ↦
      rw (e, loading_failed)
        (push_finished-IsWell (merge_failure params p.entry)
          (record m { pending = delete id m.pending })
          (merge_failure-IsSafe params p.entry
            (find-AllPending IsSafeEntry id p m.pending e w.waiting))
          (deleted-IsWell id m w))
]

resize-IsWell : (n : ℕ) (m : NetworkMonitor) → IsWell m → IsWell (resize n m)
unfolding resize
resize-IsWell zero m w = w
resize-IsWell (suc n) m w = record {
  pos = omega arith;
  room = length-shrink (suc n) m.finished m.dropped;
  few = w.few;
  published = shrink-All IsSafeEntry (suc n) m.finished m.dropped w.published;
  waiting = w.waiting;
}

module _ (lower upper : CodeUnits → CodeUnits) (integral : String → Bool) (api : UrlApi)
    (lowers : LowersAscii lower) where
  response_received-IsWell :
      (id : CodeUnits) (params : Json) (m : NetworkMonitor)
      → IsWell m
      → IsWell (response_received lower integral id params m)
  unfolding response_received
  response_received-IsWell id params m w = elim (Option-cases (find id m.pending)) [
    | inl e ↦ rw (e, response_received) w
    | inr (p, e) ↦
        rw (e, response_received)
          (replaced-IsWell id
            (record {
              entry = merge_response lower integral params p.entry;
              redirect_count = p.redirect_count;
            })
            p m e
            (merge_response-IsSafe lower upper integral api lowers params p.entry
              (find-AllPending IsSafeEntry id p m.pending e w.waiting))
            w)
  ]

  step-IsWell :
      (event : Event) (m : NetworkMonitor)
      → IsWell m
      → IsWell (step lower upper integral api event m)
  unfolding step request_will_be_sent clear remove_pending_for_tab_reset
  step-IsWell (sent id params started_at) m w =
      add_request-IsWell id
        (request_entry lower upper api (suc m.observation_counter) params started_at)
        (record m { observation_counter = suc m.observation_counter })
        (request_entry-IsSafe lower upper integral api lowers (suc m.observation_counter) params
          started_at)
        (record {
          pos = w.pos;
          room = w.room;
          few = w.few;
          published = w.published;
          waiting = w.waiting;
        })
  step-IsWell (received id params) m w = response_received-IsWell id params m w
  step-IsWell (loaded id) m w = loading_finished-IsWell id m w
  step-IsWell (broken id params) m w = loading_failed-IsWell id params m w
  step-IsWell cleared m w = record {
    pos = w.pos;
    room = omega arith;
    few = omega arith;
    published = tt;
    waiting = tt;
  }
  step-IsWell tab_reset m w = with_pending-IsWell m [] (omega arith) tt w
  step-IsWell (resized n) m w = resize-IsWell n m w

  steps-IsWell :
      (events : List Event) (m : NetworkMonitor)
      → IsWell m
      → IsWell (run lower upper integral api events m)
  unfolding run
  steps-IsWell [] m w = w
  steps-IsWell (event ∷ events) m w =
      steps-IsWell events (step lower upper integral api event m) (step-IsWell event m w)

  -- If `toLowerCase` lowers ASCII texts letter by letter: a monitor that starts with a capacity of
  -- at least 1 never holds more finished entries than its capacity nor more than 2000 pending ones,
  -- and in all of them every header map has at most 64 headers, a header whose name is a credential's
  -- (in any case, with white space around it) has the value "[REDACTED]", values have at most 1024,
  -- names 128, the method 16 and the URL 2048 code units.
  pub run-IsWell :
      (capacity : ℕ)
      → 1 ≤ capacity
      → (events : List Event) → IsWell (run lower upper integral api events (new_monitor capacity))
  unfolding new_monitor
  run-IsWell capacity pos events =
      steps-IsWell events (new_monitor capacity)
        (record { pos = pos; room = omega arith; few = omega arith; published = tt; waiting = tt })
