-- ===== src/PipeServer/Orphans.antt =====
-- The relay that is there cannot be replaced, and the death of the parent is told once.
use arc_browser_mcp.Prelude.{
  ℕ, ◌+◌, ◌≤◌, ◌≡◌, refl, Bool, true, false, ◌||◌, some, List, [], ◌∷◌, ◌++◌, arith, ◌==◌,
  if◌then◌else◌,
}
use arc_browser_mcp.PipeServer.{
  McpPipeServer, Effect, orphaned, close_clients_server, add, is_empty, push_all, set_state,
  is_other, refuse, accept_relay, relay_hello, accept_client, client_hello, forward_request,
  handle_relay_request, handle_client_request,
}
use arc_browser_mcp.PipeServer.Sockets.{
  relay_gone, relay_closed, is_relay, disarm, call_orphaned, on_client_left, client_closed,
  watchdog_tick, drop_relay, drop_clients, begin_stop, continue_stop, end_stop, Happening,
  relay_asks, client_asks, relay_closes, client_closes, ticks, stops, continues_stop, ends_stop,
  step, run,
}

-- The relay's own socket closes, or the server stops.
unfoldable pub ends_relay : ℕ → Happening → Bool
ends_relay relay (relay_closes socket) = socket == relay
ends_relay relay stops = true
ends_relay relay _ = false

unfoldable pub ever_ends : ℕ → List Happening → Bool
ever_ends relay [] = false
ever_ends relay (h ∷ hs) = ends_relay relay h || ever_ends relay hs

step-keeps_relay :
    (h : Happening) (s : McpPipeServer) (r : ℕ)
    → s.relay ≡ some r
    → ends_relay r h ≡ false
    → (step h s).0.relay ≡ some r
unfolding step ends_relay handle_relay_request relay_hello refuse accept_relay handle_client_request
    client_hello accept_client forward_request set_state is_other relay_closed is_relay relay_gone
    client_closed on_client_left disarm watchdog_tick begin_stop continue_stop end_stop
step-keeps_relay (relay_asks socket method payload) s r here lasts = ground (arith, here)
step-keeps_relay (client_asks socket method payload) s r here lasts = ground (arith, here)
step-keeps_relay (relay_closes socket) s r here lasts = ground (arith, here, lasts)
step-keeps_relay (client_closes socket) s r here lasts = ground (arith, here)
step-keeps_relay (ticks alive) s r here lasts = ground (arith, here)
step-keeps_relay stops s r here lasts = cc
step-keeps_relay continues_stop s r here lasts = here
step-keeps_relay ends_stop s r here lasts = ground (arith, here)

-- A relay stays the relay until its own socket closes or the server stops, whoever else shows the
-- nonce.
pub run-keeps_relay :
    (hs : List Happening) (s : McpPipeServer) (r : ℕ)
    → s.relay ≡ some r
    → ever_ends r hs ≡ false
    → (run hs s).0.relay ≡ some r
unfolding run ever_ends
run-keeps_relay [] s r here lasts = here
run-keeps_relay (h ∷ hs) s r here lasts =
    run-keeps_relay hs (step h s).0 r (step-keeps_relay h s r here (ground (arith, lasts)))
      (ground (arith, lasts))

unfoldable pub one_if : Bool → ℕ
one_if true = 1
one_if false = 0

unfoldable pub is_orphaned : Effect → Bool
is_orphaned orphaned = true
is_orphaned _ = false

unfoldable pub count_orphaned : List Effect → ℕ
unfolding is_orphaned one_if
count_orphaned [] = 0
count_orphaned (e ∷ es) = one_if (is_orphaned e) + count_orphaned es

count_orphaned-append :
    (es fs : List Effect) → count_orphaned (es ++ fs) ≡ count_orphaned es + count_orphaned fs
unfolding count_orphaned
count_orphaned-append [] fs = omega arith
count_orphaned-append (e ∷ es) fs = omega (arith, count_orphaned-append es fs)

count_orphaned-push_all : (up : Bool) (clients : List ℕ) → count_orphaned (push_all up clients) ≡ 0
unfolding count_orphaned push_all is_orphaned
count_orphaned-push_all up [] = refl
count_orphaned-push_all up (d ∷ clients) = ground (arith, count_orphaned-push_all up clients)

count_orphaned-drop_clients : (clients : List ℕ) → count_orphaned (drop_clients clients) ≡ 0
unfolding count_orphaned drop_clients is_orphaned
count_orphaned-drop_clients [] = refl
count_orphaned-drop_clients (d ∷ clients) = ground (arith, count_orphaned-drop_clients clients)

count_orphaned-begin_stop : (s : McpPipeServer) → count_orphaned (begin_stop s).1 ≡ 0
unfolding begin_stop set_state disarm count_orphaned is_orphaned drop_relay
count_orphaned-begin_stop s =
    let closing : List Effect = if s.clients_server then close_clients_server ∷ [] else [] in
    ground (
      arith,
      count_orphaned-append (push_all false s.clients)
          (drop_relay s.relay ++ (drop_clients s.clients ++ closing)),
      count_orphaned-append (drop_relay s.relay) (drop_clients s.clients ++ closing),
      count_orphaned-append (drop_clients s.clients) closing,
      count_orphaned-push_all false s.clients,
      count_orphaned-drop_clients s.clients,
    )

is_empty-add : (c : ℕ) (clients : List ℕ) → is_empty (add c clients) ≡ false
unfolding is_empty add
is_empty-add c [] = refl
is_empty-add c (d ∷ clients) = ground arith

-- A death that is still to be told waits for a client to leave, with the watchdog armed.
pub record IsWatched (s : McpPipeServer) : Type 0 where
  pub armed : s.orphan_pending ≡ true → s.orphan_timer ≡ true
  pub waits : s.orphan_pending ≡ true → is_empty s.clients ≡ false

step-IsWatched : (h : Happening) (s : McpPipeServer) → IsWatched s → IsWatched (step h s).0
unfolding step handle_relay_request relay_hello refuse accept_relay handle_client_request
    client_hello accept_client forward_request set_state relay_closed relay_gone client_closed
    on_client_left disarm watchdog_tick begin_stop continue_stop end_stop
step-IsWatched (relay_asks socket method payload) s w = record {
  armed = λ e. ground (arith, e, w.armed);
  waits = λ e. ground (arith, e, w.waits);
}
step-IsWatched (client_asks socket method payload) s w = record {
  armed = λ e. ground (arith, e, w.armed);
  waits = λ e. ground (arith, e, w.waits, is_empty-add socket s.clients);
}
step-IsWatched (relay_closes socket) s w = record {
  armed = λ e. ground (arith, e, w.armed);
  waits = λ e. ground (arith, e, w.waits);
}
step-IsWatched (client_closes socket) s w = record {
  armed = λ e. ground (arith, e, w.armed);
  waits = λ e. ground (arith, e, w.waits);
}
step-IsWatched (ticks alive) s w = record {
  armed = λ e. ground (arith, e, w.armed);
  waits = λ e. ground (arith, e, w.waits);
}
step-IsWatched stops s w = record { armed = λ e. cc; waits = λ e. cc }
step-IsWatched continues_stop s w = record { armed = w.armed; waits = w.waits }
step-IsWatched ends_stop s w = record {
  armed = λ e. ground (arith, e, w.armed);
  waits = λ e. ground (arith, e, w.waits);
}

step-orphaned :
    (h : Happening) (s : McpPipeServer)
    → IsWatched s
    → count_orphaned (step h s).1 + one_if (step h s).0.orphan_timer ≤ one_if s.orphan_timer
unfolding step handle_relay_request relay_hello refuse accept_relay handle_client_request
    client_hello accept_client forward_request set_state relay_closed relay_gone client_closed
    on_client_left disarm call_orphaned watchdog_tick begin_stop continue_stop end_stop
    count_orphaned one_if is_orphaned
step-orphaned (relay_asks socket method payload) s w =
    ground (arith, count_orphaned-push_all true s.clients)
step-orphaned (client_asks socket method payload) s w = ground arith
step-orphaned (relay_closes socket) s w = ground (arith, count_orphaned-push_all false s.clients)
step-orphaned (client_closes socket) s w = ground (arith, w.armed)
step-orphaned (ticks alive) s w = ground arith
step-orphaned stops s w = ground (arith, count_orphaned-begin_stop s)
step-orphaned continues_stop s w = ground arith
step-orphaned ends_stop s w = ground arith

-- `onOrphaned` is called at most once, and only if the watchdog was armed, which it no longer is then.
pub run-orphaned_once :
    (hs : List Happening) (s : McpPipeServer)
    → IsWatched s
    → count_orphaned (run hs s).1 + one_if (run hs s).0.orphan_timer ≤ one_if s.orphan_timer
unfolding run count_orphaned
run-orphaned_once [] s w = omega arith
run-orphaned_once (h ∷ hs) s w = omega (
  arith,
  count_orphaned-append (step h s).1 (run hs (step h s).0).1,
  step-orphaned h s w,
  run-orphaned_once hs (step h s).0 (step-IsWatched h s w),
)
