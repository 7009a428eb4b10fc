-- ===== src/ExtensionBridge/Timers.antt =====
-- The retry timer of a bridge, and what connecting and closing make of it.
use arc_browser_mcp.Prelude.{
  is_some, ℕ, suc, ◌≡◌, refl, sym, ap, subst, ◌∙◌, inl, inr, Bool, true, false, Option, none, some,
  List, [], ◌∷◌, ◌++◌, arith, String, Option-cases, Bool-cases, ◌||◌,
}
use arc_browser_mcp.ExtensionBridge.{
  ExtensionBridge, Connection, connected, failed, start_retry, schedule_reconnect, handle_failure,
  connect, ensure_connected, stop, clear_retry, fail_pending, close, is_running, retry_delay,
}

unfoldable pub keys : List (ℕ × ℕ) → List ℕ
keys [] = []
keys ((t, delay) ∷ running) = t ∷ keys running

unfoldable pub as_list : Option ℕ → List ℕ
as_list none = []
as_list (some t) = t ∷ []

-- Connected, waiting for a retry, or closed for good.
unfoldable pub is_alive : ExtensionBridge → Bool
unfolding is_some
is_alive b = b.closed || is_some b.port || is_some b.retry_timer

-- The timers that the browser holds are the one of `retry_timer`, if there is one; no attempt to
-- connect is left half done; and a closed bridge has neither a port nor a timer.
pub record IsSound (b : ExtensionBridge) : Type 0 where
  pub held : keys b.running ≡ as_list b.retry_timer
  pub idle : b.connecting ≡ false
  pub over : b.closed ≡ true → (b.port ≡ none) × (b.retry_timer ≡ none)

keys-append :
    (running : List (ℕ × ℕ)) (t delay : ℕ)
    → keys (running ++ (t, delay) ∷ []) ≡ keys running ++ t ∷ []
unfolding keys
keys-append [] t delay = refl
keys-append ((u, d) ∷ running) t delay = ap (λ x. u ∷ x) (keys-append running t delay)

stop-only : (running : List (ℕ × ℕ)) (t : ℕ) → keys running ≡ t ∷ [] → stop t running ≡ []
unfolding keys stop
stop-only [] t h = cc
stop-only ((u, d) ∷ []) t h = ground (arith, h)
stop-only ((u, d) ∷ (v, e) ∷ running) t h = cc h

pub keys-nil : (running : List (ℕ × ℕ)) → keys running ≡ [] → running ≡ []
unfolding keys
keys-nil [] h = refl
keys-nil ((t, delay) ∷ running) h = cc

pub stop-fired :
    (running : List (ℕ × ℕ)) (timer : Option ℕ) (t : ℕ)
    → is_running t running ≡ true
    → keys running ≡ as_list timer
    → stop t running ≡ []
unfolding keys stop as_list is_running
stop-fired [] timer t fires h = cc
stop-fired ((u, d) ∷ []) timer t fires h = ground (arith, fires)
stop-fired ((u, d) ∷ (v, e) ∷ running) none t fires h = cc
stop-fired ((u, d) ∷ (v, e) ∷ running) (some w) t fires h = cc

start_retry-held :
    (b : ExtensionBridge)
    → keys b.running ≡ []
    → keys (start_retry b).running ≡ as_list (start_retry b).retry_timer
unfolding start_retry as_list
start_retry-held b h =
    keys-append b.running b.next_timer (retry_delay b) ∙ ap (λ x. x ++ b.next_timer ∷ []) h

module _ (b : ExtensionBridge) (held : keys b.running ≡ as_list b.retry_timer)
    (idle : b.connecting ≡ false) (open_ : b.closed ≡ false) where
  schedule_reconnect-held :
      keys (schedule_reconnect b).running ≡ as_list (schedule_reconnect b).retry_timer
  unfolding schedule_reconnect as_list
  schedule_reconnect-held = ground (arith, held, open_, start_retry-held b)

  schedule_reconnect-rest :
      ((schedule_reconnect b).connecting ≡ false)
      × ((schedule_reconnect b).closed ≡ false)
      × (is_some (schedule_reconnect b).retry_timer ≡ true)
  unfolding schedule_reconnect start_retry is_some
  schedule_reconnect-rest = ground (arith, idle, open_)

  pub schedule_reconnect-IsSound : IsSound (schedule_reconnect b)
  schedule_reconnect-IsSound = record {
    held = schedule_reconnect-held;
    idle = schedule_reconnect-rest.0;
    over = λ e. ground (arith, e, schedule_reconnect-rest);
  }

  pub schedule_reconnect-alive : is_alive (schedule_reconnect b) ≡ true
  unfolding is_alive
  schedule_reconnect-alive = ground (arith, schedule_reconnect-rest)

abbrev pub Good : ExtensionBridge → Type 0
Good b = IsSound b × (is_alive b ≡ true)

connect-Good :
    (b : ExtensionBridge) (outcome : Connection)
    → keys b.running ≡ as_list b.retry_timer
    → b.closed ≡ false
    → Good (connect outcome b)
unfolding connect handle_failure is_alive is_some
connect-Good b (connected port) held open_ =
    (record { held = held; idle = refl; over = λ e. ground (arith, e, open_) }, ground arith)
connect-Good b (failed message) held open_ =
    let failing : ExtensionBridge = record b {
      connecting = false;
      last_error = some message;
      attempts = suc b.attempts;
    } in
    (
      schedule_reconnect-IsSound failing held refl open_,
      schedule_reconnect-alive failing held refl open_,
    )

module _ (b : ExtensionBridge) (sound : IsSound b) (source : String) (outcome : Connection) where
  abbrev attempt : ExtensionBridge
  attempt = record b { last_wake_source = some source; connecting = true }

  ensure_connected-attempt :
      b.closed ≡ false → b.port ≡ none → ensure_connected source outcome b ≡ connect outcome attempt
  unfolding ensure_connected
  ensure_connected-attempt open_ apart = ground (arith, open_, apart, sound.idle)

  ensure_connected-closed : b.closed ≡ true → ensure_connected source outcome b ≡ b
  unfolding ensure_connected
  ensure_connected-closed over = ground (arith, over)

  ensure_connected-connected :
      (port : ℕ) → b.closed ≡ false → b.port ≡ some port → ensure_connected source outcome b ≡ b
  unfolding ensure_connected
  ensure_connected-connected port open_ here = ground (arith, open_, here)

  pub ensure_connected-Good : Good (ensure_connected source outcome b)
  unfolding is_alive is_some
  ensure_connected-Good = elim (Bool-cases b.closed) [
    | inl over ↦ subst Good (sym (ensure_connected-closed over)) (sound, ground (arith, over))
    | inr open_ ↦ elim (Option-cases b.port) [
      | inl apart ↦
          subst Good (sym (ensure_connected-attempt open_ apart))
            (connect-Good attempt outcome sound.held open_)
      | inr (port, here) ↦
          subst Good (sym (ensure_connected-connected port open_ here))
            (sound, ground (arith, here))
    ]
  ]

clear_retry-stopped :
    (b : ExtensionBridge)
    → keys b.running ≡ as_list b.retry_timer
    → ((clear_retry b).running ≡ [])
      × ((clear_retry b).retry_timer ≡ none)
      × ((clear_retry b).connecting ≡ b.connecting)
      × ((clear_retry b).closed ≡ b.closed)
unfolding clear_retry as_list keys
clear_retry-stopped b held = elim (Option-cases b.retry_timer) [
  | inl never ↦ ground (arith, never, held, keys-nil b.running)
  | inr (t, set) ↦ ground (arith, set, held, stop-only b.running t)
]

pub close-Good : (b : ExtensionBridge) → IsSound b → Good (close b).0
unfolding close fail_pending is_alive
close-Good b sound =
    let closing : ExtensionBridge = record b { closed = true } in
    let stopped = clear_retry-stopped closing sound.held in
    (
      record {
        held = unfold keys as_list in ground (arith, stopped);
        idle = ground (arith, stopped, sound.idle);
        over = λ e. ground (arith, stopped);
      },
      ground (arith, stopped),
    )
