-- ===== src/Network/Distinct.antt =====
-- The ids of entries are all different, in every run.
use arc_browser_mcp.Prelude.{
  ℕ, zero, suc, ◌+◌, ◌≤◌, ◌<◌, ◌≡◌, refl, sym, ap, subst, ◌∙◌, inl, inr, Bool, false, some, List,
  [], ◌∷◌, ◌++◌, String, length, leb, if◌then◌else◌, choose, arith, Bool-cases, Option-cases,
}
use arc_browser_mcp.Text.{text_eq, text_eq_iff}
use arc_browser_mcp.Json.{Json}
use arc_browser_mcp.Interaction.{CodeUnits}
use arc_browser_mcp.Console.{shift}
use arc_browser_mcp.Redaction.Urls.{UrlApi}
use arc_browser_mcp.Network.{
  NetworkEntry, new_observation_id, network_correlation_hard_max, request_entry, blank_entry,
  merge_redirect, merge_response, merge_failure,
}
use arc_browser_mcp.Network.Ids.{
  new_observation_id_inj, one, total, count-append, count-shift, count-shrink, count-delete,
  count-delete_found, count-set_found, count-set,
}
use arc_browser_mcp.Network.Monitor.{
  PendingRequest, Pending, NetworkMonitor, new_monitor, find, set, delete, drop_oldest, make_room,
  add_request, push_finished, request_will_be_sent, response_received, loading_finished,
  loading_failed, clear, remove_pending_for_tab_reset, resize, Event, sent, received, loaded,
  broken, cleared, tab_reset, resized, step, run,
}

push_finished-total :
    (id : CodeUnits) (entry : NetworkEntry) (m : NetworkMonitor)
    → total id (push_finished entry m) ≤ total id m + one id entry
unfolding push_finished
push_finished-total id entry m =
    choose (λ n. total id n ≤ total id m + one id entry)
      (record m { finished = shift m.finished ++ entry ∷ []; dropped = suc m.dropped })
      (record m { finished = m.finished ++ entry ∷ [] }) (leb m.capacity (length m.finished))
      (λ full. omega (arith, count-append id (shift m.finished) entry, count-shift id m.finished))
      (λ free. omega (arith, count-append id m.finished entry))

drop_oldest-total :
    (id : CodeUnits) (m : NetworkMonitor) (pending : Pending)
    → total id (drop_oldest (record m { pending = pending }))
      ≤ total id (record m { pending = pending })
unfolding drop_oldest
drop_oldest-total id m [] = omega arith
drop_oldest-total id m ((oldest, p) ∷ rest) =
    omega (arith, count-delete id oldest ((oldest, p) ∷ rest))

make_room-total : (id : CodeUnits) (m : NetworkMonitor) → total id (make_room m) ≤ total id m
unfolding make_room
make_room-total id m =
    choose (λ n. total id n ≤ total id m) (drop_oldest m) m
      (leb network_correlation_hard_max (length m.pending))
      (λ full. drop_oldest-total id m m.pending) (λ free. omega arith)

-- A new entry is counted at most once, and a redirect keeps the id that is there.
add_request-total :
    (id key : CodeUnits) (entry : NetworkEntry) (m : NetworkMonitor)
    → total id (add_request key entry m) ≤ total id m + one id entry
unfolding add_request
add_request-total id key entry m = elim (Option-cases (find key m.pending)) [
  | inr (old, e) ↦
      rw (e, add_request)
        (omega (
          arith,
          count-set_found id key old
              (record {
                entry = merge_redirect old.entry entry;
                redirect_count = suc old.redirect_count;
              })
              m.pending e (unfold merge_redirect in refl),
        ))
  | inl e ↦
      rw (e, add_request)
        (omega (
          arith,
          make_room-total id m,
          count-set id key (record { entry = entry; redirect_count = 0 }) (make_room m).pending,
        ))
]

-- No id is in two places.
abbrev pub IsDistinct : NetworkMonitor → Type 0
IsDistinct m = (id : CodeUnits) → total id m ≤ 1

-- No id of a counter that is still to come is there.
abbrev IsFresh : ℕ → NetworkMonitor → Type 0
IsFresh counter m = (c : ℕ) → counter < c → total (new_observation_id c) m ≡ 0

abbrev HasIds : NetworkMonitor → Type 0
HasIds m = IsDistinct m × IsFresh m.observation_counter m

shrinks-HasIds :
    (m n : NetworkMonitor)
    → n.observation_counter ≡ m.observation_counter
    → ((id : CodeUnits) → total id n ≤ total id m)
    → HasIds m
    → HasIds n
shrinks-HasIds m n e le (distinct, fresh) = (
  (λ id. omega (arith, le id, distinct id)),
  (λ c lt. omega (arith, le (new_observation_id c), fresh c (omega (arith, e, lt)))),
)

other_id : (c d : ℕ) → c < d → text_eq (new_observation_id c) (new_observation_id d) ≡ false
other_id c d lt = elim (Bool-cases (text_eq (new_observation_id c) (new_observation_id d))) [
  | inr h ↦ h
  | inl h ↦ absurd (
      omega (
        arith,
        lt,
        new_observation_id_inj c d
            ((text_eq_iff (new_observation_id c) (new_observation_id d)).0 h),
      ))
]

-- A new entry with the next id.
grows-HasIds :
    (m n : NetworkMonitor) (entry : NetworkEntry)
    → n.observation_counter ≡ suc m.observation_counter
    → entry.id ≡ new_observation_id (suc m.observation_counter)
    → ((id : CodeUnits) → total id n ≤ total id m + one id entry)
    → HasIds m
    → HasIds n
grows-HasIds m n entry e e2 le (distinct, fresh) = (
  (λ id. elim (Bool-cases (text_eq entry.id id)) [
    | inl hit ↦
        let same : new_observation_id (suc m.observation_counter) ≡ id =
          sym e2 ∙ (text_eq_iff entry.id id).0 hit in
        let none_yet : total id m ≡ 0 =
          subst (λ i. total i m ≡ 0) same (fresh (suc m.observation_counter) (omega arith)) in
        ground (arith, hit, le id, none_yet)
    | inr miss ↦ ground (arith, miss, le id, distinct id)
  ]),
  (λ c lt.
      let miss : text_eq entry.id (new_observation_id c) ≡ false =
        ap (λ i. text_eq i (new_observation_id c)) e2
        ∙ other_id (suc m.observation_counter) c (omega (arith, e, lt)) in
      ground (arith, miss, le (new_observation_id c), fresh c (omega (arith, e, lt)))),
)

drop_oldest_counter :
    (m : NetworkMonitor) (pending : Pending)
    → (drop_oldest (record m { pending = pending })).observation_counter ≡ m.observation_counter
unfolding drop_oldest
drop_oldest_counter m [] = refl
drop_oldest_counter m ((oldest, p) ∷ rest) = refl

make_room_counter : (m : NetworkMonitor) → (make_room m).observation_counter ≡ m.observation_counter
unfolding make_room
make_room_counter m =
    choose (λ (n : NetworkMonitor). n.observation_counter ≡ m.observation_counter) (drop_oldest m) m
      (leb network_correlation_hard_max (length m.pending))
      (λ full. drop_oldest_counter m m.pending) (λ free. refl)

add_request_counter :
    (key : CodeUnits) (entry : NetworkEntry) (m : NetworkMonitor)
    → (add_request key entry m).observation_counter ≡ m.observation_counter
unfolding add_request
add_request_counter key entry m = elim (Option-cases (find key m.pending)) [
  | inr (old, e) ↦ rw (e, add_request) refl
  | inl e ↦ rw (e, add_request) (make_room_counter m)
]

push_finished_counter :
    (entry : NetworkEntry) (m : NetworkMonitor)
    → (push_finished entry m).observation_counter ≡ m.observation_counter
unfolding push_finished
push_finished_counter entry m = ground arith

-- A pending request goes over to the finished ones with its id.
moves-HasIds :
    (key : CodeUnits) (p : PendingRequest) (entry : NetworkEntry) (m : NetworkMonitor)
    → find key m.pending ≡ some p
    → entry.id ≡ p.entry.id
    → HasIds m
    → HasIds (push_finished entry (record m { pending = delete key m.pending }))
moves-HasIds key p entry m e same =
    let deleted : NetworkMonitor = record m { pending = delete key m.pending } in
    shrinks-HasIds m (push_finished entry deleted) (push_finished_counter entry deleted) (λ id.
      let kept : one id entry ≡ one id p.entry = ap (λ i. if text_eq i id then 1 else 0) same in
      omega (
        arith,
        push_finished-total id entry deleted,
        count-delete_found id key p m.pending e,
        kept,
      ))

loading_finished-HasIds :
    (key : CodeUnits) (m : NetworkMonitor) → HasIds m → HasIds (loading_finished key m)
unfolding loading_finished
loading_finished-HasIds key m h = elim (Option-cases (find key m.pending)) [
  | inl e ↦ rw (e, loading_finished) h
  | inr (p, e) ↦ rw (e, loading_finished) (moves-HasIds key p p.entry m e refl h)
]

loading_failed-HasIds :
    (key : CodeUnits) (params : Json) (m : NetworkMonitor)
    → HasIds m
    → HasIds (loading_failed key params m)
unfolding loading_failed
loading_failed-HasIds key params m h = elim (Option-cases (find key m.pending)) [
  | inl e ↦ rw (e, loading_failed) h
  | inr (p, e) ↦
      rw (e, loading_failed)
        (moves-HasIds key p (merge_failure params p.entry) m e (unfold merge_failure in refl) h)
]

resize-HasIds : (n : ℕ) (m : NetworkMonitor) → HasIds m → HasIds (resize n m)
unfolding resize
resize-HasIds zero m h = h
resize-HasIds (suc n) m h =
    shrinks-HasIds m (resize (suc n) m) refl
      (λ id. omega (arith, count-shrink id (suc n) m.finished m.dropped)) h

module _ (lower upper : CodeUnits → CodeUnits) (integral : String → Bool) (api : UrlApi) where
  request_entry_id :
      (counter : ℕ) (params : Json) (started_at : CodeUnits)
      → (request_entry lower upper api counter params started_at).id ≡ new_observation_id counter
  unfolding request_entry blank_entry
  request_entry_id counter params started_at = refl

  response_received-HasIds :
      (key : CodeUnits) (params : Json) (m : NetworkMonitor)
      → HasIds m
      → HasIds (response_received lower integral key params m)
  unfolding response_received
  response_received-HasIds key params m h = elim (Option-cases (find key m.pending)) [
    | inl e ↦ rw (e, response_received) h
    | inr (p, e) ↦
        rw (e, response_received)
          (let next : PendingRequest = record {
            entry = merge_response lower integral params p.entry;
            redirect_count = p.redirect_count;
          } in
            shrinks-HasIds m (record m { pending = set key next m.pending }) refl
              (λ id.
                omega (
                  arith,
                  count-set_found id key p next m.pending e (unfold merge_response in refl),
                ))
              h)
  ]

  step-HasIds :
      (event : Event) (m : NetworkMonitor)
      → HasIds m
      → HasIds (step lower upper integral api event m)
  unfolding step request_will_be_sent clear remove_pending_for_tab_reset
  step-HasIds (sent key params started_at) m h =
      let counter = suc m.observation_counter in
      let entry = request_entry lower upper api counter params started_at in
      let counted : NetworkMonitor = record m { observation_counter = counter } in
      grows-HasIds m (add_request key entry counted) entry (add_request_counter key entry counted)
        (request_entry_id counter params started_at) (λ id. add_request-total id key entry counted)
        h
  step-HasIds (received key params) m h = response_received-HasIds key params m h
  step-HasIds (loaded key) m h = loading_finished-HasIds key m h
  step-HasIds (broken key params) m h = loading_failed-HasIds key params m h
  step-HasIds cleared m h = shrinks-HasIds m (clear m).0 refl (λ id. omega arith) h
  step-HasIds tab_reset m h =
      shrinks-HasIds m (remove_pending_for_tab_reset m) refl (λ id. omega arith) h
  step-HasIds (resized n) m h = resize-HasIds n m h

  steps-HasIds :
      (events : List Event) (m : NetworkMonitor)
      → HasIds m
      → HasIds (run lower upper integral api events m)
  unfolding run
  steps-HasIds [] m h = h
  steps-HasIds (event ∷ events) m h =
      steps-HasIds events (step lower upper integral api event m) (step-HasIds event m h)

  -- In every run of a monitor no two of its entries, finished or pending, have the same id.
  pub run-IsDistinct :
      (capacity : ℕ) (events : List Event)
      → IsDistinct (run lower upper integral api events (new_monitor capacity))
  unfolding new_monitor
  run-IsDistinct capacity events =
      (steps-HasIds events (new_monitor capacity) ((λ id. omega arith), (λ c lt. refl))).0
