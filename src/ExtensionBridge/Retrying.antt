-- ===== src/ExtensionBridge/Retrying.antt =====
-- The bridge is never stuck and holds at most one retry timer.
use arc_browser_mcp.Prelude.{
  ℕ, suc, ◌≡◌, ◌≢◌, refl, sym, ap, subst, ◌∙◌, inl, inr, Bool, true, false, Option, none, some,
  List, [], ◌∷◌, arith, String, ◌==◌, Bool-cases,
}
use arc_browser_mcp.Json.{Json}
use arc_browser_mcp.Rpc.{Timer}
use arc_browser_mcp.ExtensionBridge.{
  Options, ExtensionBridge, Connection, new_bridge, start_retry, schedule_reconnect, handle_failure,
  ensure_connected, stop, clear_retry, fail_pending, close, handle_disconnect, retry, is_running,
}
use arc_browser_mcp.ExtensionBridge.Requests.{
  request_remote, time_out, handle_native_message, handle_with_id, handle_response,
}
use arc_browser_mcp.ExtensionBridge.Timers.{
  keys, as_list, is_alive, IsSound, Good, keys-nil, stop-fired, schedule_reconnect-IsSound,
  schedule_reconnect-alive, ensure_connected-Good, close-Good,
}

-- What can happen to a bridge.
pub data Happening : Type 0 where
  ensures : String → Connection → Happening
  closes : Happening
  disconnects : ℕ → Option String → Happening
  retries : ℕ → Connection → Happening
  requests : String → String → Json → Option ℕ → Option String → Happening
  times_out : (String → String) → Timer → Happening
  receives : Json → Happening

unfoldable pub step : ExtensionBridge → Happening → ExtensionBridge
step b (ensures source outcome) = ensure_connected source outcome b
step b closes = (close b).0
step b (disconnects port error) = (handle_disconnect port error b).0
step b (retries t outcome) = retry t outcome b
step b (requests id method payload timeout_ms sent) =
    (request_remote id method payload timeout_ms sent b).0
step b (times_out text t) = (time_out text t b).0
step b (receives message) = (handle_native_message message b).0

unfoldable pub run : ExtensionBridge → List Happening → ExtensionBridge
run b [] = b
run b (h ∷ hs) = run (step b h) hs

is_own : Option ℕ → ℕ → Bool
is_own none port = false
is_own (some own) port = own == port

is_own-eq : (o : Option ℕ) (port : ℕ) → is_own o port ≡ true → o ≡ some port
unfolding is_own
is_own-eq none port h = cc
is_own-eq (some own) port h = ground (arith, h)

is_own-neq : (o : Option ℕ) (port : ℕ) → is_own o port ≡ false → o ≢ some port
unfolding is_own
is_own-neq none port h e = cc
is_own-neq (some own) port h e = ground (arith, h, e)

module _ (b : ExtensionBridge) (good : Good b) where
  module _ (port : ℕ) (error : Option String) where
    abbrev reason : String
    reason = elim error [ some e ↦ e | none ↦ "native host disconnected" ]

    abbrev left : ExtensionBridge
    left = record (fail_pending "bridge disconnected" (record b { port = none })).0 {
      last_error = some reason;
      attempts = suc b.attempts;
    }

    handle_disconnect-own :
        b.port ≡ some port → (handle_disconnect port error b).0 ≡ schedule_reconnect left
    unfolding handle_disconnect handle_failure fail_pending
    handle_disconnect-own here = ground (arith, here)

    handle_disconnect-other : b.port ≢ some port → (handle_disconnect port error b).0 ≡ b
    unfolding handle_disconnect
    handle_disconnect-other other = ground (arith, other)

    left-fields :
        (keys left.running ≡ as_list left.retry_timer)
        × (left.connecting ≡ false)
        × (left.closed ≡ b.closed)
    unfolding fail_pending
    left-fields = (good.0.held, good.0.idle, refl)

    handle_disconnect-Good : Good (handle_disconnect port error b).0
    handle_disconnect-Good = elim (Bool-cases (is_own b.port port)) [
      | inl own ↦
          let here = is_own-eq b.port port own in
          let open_ : b.closed ≡ false = ground (arith, good.0.over, here) in
          subst Good (sym (handle_disconnect-own here)) (
            schedule_reconnect-IsSound left left-fields.0 left-fields.1 (left-fields.2 ∙ open_),
            schedule_reconnect-alive left left-fields.0 left-fields.1 (left-fields.2 ∙ open_),
          )
      | inr other ↦ subst Good (sym (handle_disconnect-other (is_own-neq b.port port other))) good
    ]

  retry-running :
      (t : ℕ) (outcome : Connection)
      → is_running t b.running ≡ true
      → retry t outcome b
        ≡ ensure_connected "retry" outcome
            (record b { running = stop t b.running; retry_timer = none })
  unfolding retry
  retry-running t outcome fires = ground (arith, fires)

  retry-stopped :
      (t : ℕ) (outcome : Connection) → is_running t b.running ≡ false → retry t outcome b ≡ b
  unfolding retry
  retry-stopped t outcome gone = ground (arith, gone)

  fired-IsSound :
      (t : ℕ)
      → is_running t b.running ≡ true
      → IsSound (record b { running = stop t b.running; retry_timer = none })
  fired-IsSound t fires = record {
    held =
        unfold keys as_list in
        ground (arith, stop-fired b.running b.retry_timer t fires good.0.held);
    idle = good.0.idle;
    over = λ e. (ground (arith, good.0.over e), refl);
  }

  retry-Good : (t : ℕ) (outcome : Connection) → Good (retry t outcome b)
  retry-Good t outcome = elim (Bool-cases (is_running t b.running)) [
    | inl fires ↦
        subst Good (sym (retry-running t outcome fires))
          (ensure_connected-Good _ (fired-IsSound t fires) "retry" outcome)
    | inr gone ↦ subst Good (sym (retry-stopped t outcome gone)) good
  ]

abbrev Same : ExtensionBridge → ExtensionBridge → Type 0
Same b next =
    (next.running ≡ b.running)
    × (next.retry_timer ≡ b.retry_timer)
    × (next.connecting ≡ b.connecting)
    × (next.closed ≡ b.closed)
    × (next.port ≡ b.port)

Same-Good : (b next : ExtensionBridge) → Good b → Same b next → Good next
unfolding is_alive
Same-Good b next good same = (
  record {
    held = ground (arith, good.0.held, same);
    idle = ground (arith, good.0.idle, same);
    over = λ e. ground (arith, good.0.over, same, e);
  },
  ground (arith, good.1, same),
)

request_remote-Same :
    (b : ExtensionBridge) (id method : String) (payload : Json) (timeout_ms : Option ℕ)
    (sent : Option String)
    → Same b (request_remote id method payload timeout_ms sent b).0
unfolding request_remote
request_remote-Same b id method payload timeout_ms sent = ground arith

handle_native_message-Same :
    (b : ExtensionBridge) (message : Json) → Same b (handle_native_message message b).0
unfolding handle_native_message handle_with_id handle_response
handle_native_message-Same b message = ground arith

step-Good : (b : ExtensionBridge) (h : Happening) → Good b → Good (step b h)
unfolding step time_out
step-Good b (ensures source outcome) good = ensure_connected-Good b good.0 source outcome
step-Good b closes good = close-Good b good.0
step-Good b (disconnects port error) good = handle_disconnect-Good b good port error
step-Good b (retries t outcome) good = retry-Good b good t outcome
step-Good b (requests id method payload timeout_ms sent) good =
    Same-Good b _ good (request_remote-Same b id method payload timeout_ms sent)
step-Good b (times_out text t) good = Same-Good b _ good (refl, refl, refl, refl, refl)
step-Good b (receives message) good = Same-Good b _ good (handle_native_message-Same b message)

run-Good : (hs : List Happening) (b : ExtensionBridge) → Good b → Good (run b hs)
unfolding run
run-Good [] b good = good
run-Good (h ∷ hs) b good = run-Good hs (step b h) (step-Good b h good)

new_bridge-IsSound : (options : Options) → IsSound (new_bridge options)
unfolding new_bridge keys as_list
new_bridge-IsSound options = record { held = refl; idle = refl; over = λ e. (refl, refl) }

-- From the first call of `ensureConnected` on, whatever happens: the bridge is connected, waits for a
-- retry timer, or was closed; the browser holds no retry timer but the one that the bridge knows; no
-- attempt is left half done; and a closed bridge has neither a port nor a retry timer.
pub run_alive :
    (options : Options) (source : String) (outcome : Connection) (hs : List Happening)
    → let b = run (ensure_connected source outcome (new_bridge options)) hs in
      IsSound b × (is_alive b ≡ true)
run_alive options source outcome hs =
    run-Good hs _
      (ensure_connected-Good (new_bridge options) (new_bridge-IsSound options) source outcome)

step-closed : (b : ExtensionBridge) (h : Happening) → b.closed ≡ true → (step b h).closed ≡ true
unfolding step ensure_connected close clear_retry fail_pending handle_disconnect handle_failure
    schedule_reconnect start_retry retry request_remote time_out handle_native_message
    handle_with_id handle_response
step-closed b (ensures source outcome) over = ground (arith, over)
step-closed b closes over = ground (arith, over)
step-closed b (disconnects port error) over = ground (arith, over)
step-closed b (retries t outcome) over = ground (arith, over)
step-closed b (requests id method payload timeout_ms sent) over = ground (arith, over)
step-closed b (times_out text t) over = over
step-closed b (receives message) over = ground (arith, over)

run-closed :
    (hs : List Happening) (b : ExtensionBridge) → b.closed ≡ true → (run b hs).closed ≡ true
unfolding run
run-closed [] b over = over
run-closed (h ∷ hs) b over = run-closed hs (step b h) (step-closed b h over)

close-closed : (b : ExtensionBridge) → (close b).0.closed ≡ true
unfolding close clear_retry fail_pending
close-closed b = ground arith

-- After a sound bridge is closed, whatever happens, calls of `ensureConnected` and late callbacks
-- included, the bridge has no port, and the browser holds no retry timer of it.
pub run_after_close :
    (b : ExtensionBridge) (hs : List Happening)
    → IsSound b
    → ((run (close b).0 hs).port ≡ none) × ((run (close b).0 hs).running ≡ [])
unfolding as_list
run_after_close b hs sound =
    let (kept, alive) = run-Good hs (close b).0 (close-Good b sound) in
    let (no_port, no_retry) = kept.over (run-closed hs (close b).0 (close-closed b)) in
    (no_port, keys-nil _ (kept.held ∙ ap as_list no_retry))
