-- ===== src/Rpc/Settling.antt =====
-- Every promise that a peer hands out is settled exactly once, or still pending.
use text.Mathlib.TextEquality.{eq_iff}
use Prim.Native.String.{◌++◌ as str_append}
use mathlib.Core.List.{map-append}
use arc_browser_mcp.Prelude.{
  ℕ, suc, ◌+◌, ◌≡◌, refl, sym, ap, subst, ◌∙◌, ◌⊎◌, inl, inr, Bool, true, false, Option, none, some,
  List, [], ◌∷◌, ◌++◌, map, arith, String, ltb, ◌==◌, if◌then◌else◌, Option-cases, Bool-cases,
}
use arc_browser_mcp.Text.{is_blank}
use arc_browser_mcp.Json.{Json}
use arc_browser_mcp.Protocol.{
  BridgeError, Result, ok, err, error_response, BridgeMessage, request, event, response_ok,
  response_error, parse_bridge_message,
}
use arc_browser_mcp.Rpc.{
  RpcPeer, Timer, Effect, send, protocol_error, handle, Outcome, Failure, bridge_error, other_error,
  new_peer, lookup, delete, clear_timeout, request_detailed, fire_timeout, handle_response,
  handle_message, handle_incoming, handler_resolved, handler_rejected, clear_all, close, new_error,
}
use arc_browser_mcp.Rpc.Pending.{
  Pending, one_if, count_settled, count_pending, count_settled-append, count-delete, insert-absent,
  count_pending-append, count-reject_all, key, Distinct, IsConsistent, delete-clear,
  Fresh-lookup_id, Distinct-delete, below-delete, Distinct-append, below-append, below-suc,
}

-- What can happen to a peer: a call of one of its methods, its timers and its handler's promises.
-- Sends succeed.
pub data Happening : Type 0 where
  calls : String → String → Json → Option ℕ → Happening
  fires : Timer → Happening
  receives : Json → Happening
  resolves : String → Option Json → Happening
  rejects : String → Failure → Happening
  closes : Option BridgeError → Happening

unfoldable pub step : RpcPeer → Happening → RpcPeer × List Effect
step peer (calls id method payload timeout_ms) =
    request_detailed peer id method payload timeout_ms none
step peer (fires t) = fire_timeout peer t
step peer (receives raw) = handle_incoming peer raw
step peer (resolves id payload) = handler_resolved peer id payload
step peer (rejects id failure) = handler_rejected peer id failure
step peer (closes error) = close peer error

abbrev pub Running : Timer → List Timer → Type 0
Running t [] = ⊥
Running t (u ∷ ts) = (u ≡ t) ⊎ Running t ts

-- A generated id is not in use, and only a running timer fires.
abbrev pub Allowed : RpcPeer → Happening → Type 0
Allowed peer (calls id method payload timeout_ms) = lookup id peer.pending ≡ none
Allowed peer (fires t) = Running t peer.timers
Allowed peer (receives raw) = Unit
Allowed peer (resolves id payload) = Unit
Allowed peer (rejects id failure) = Unit
Allowed peer (closes error) = Unit

lookup-Running :
    (t : Timer) (ts : List Timer)
    → Distinct (map key ts)
    → Running t ts
    → lookup t.id (map key ts) ≡ some t.promise
unfolding lookup
lookup-Running t [] d r = absurd r
lookup-Running t (u ∷ ts) d (inl e) =
    subst (λ x. lookup x.id (map key (u ∷ ts)) ≡ some x.promise) e
      (ground (arith, eq_iff u.id u.id))
lookup-Running t (u ∷ ts) d (inr r) =
    let found = lookup-Running t ts d.1 r in
    ground (arith, eq_iff u.id t.id, Fresh-lookup_id (key u) t.id (map key ts) d.0 found)

delete-IsConsistent :
    (peer : RpcPeer) (id : String) (p : ℕ)
    → IsConsistent peer
    → lookup id peer.pending ≡ some p
    → IsConsistent
        (record peer { pending = delete id peer.pending; timers = clear_timeout p peer.timers })
delete-IsConsistent peer id p c h = record {
  matched =
      delete-clear id p peer.timers (subst Distinct (sym c.matched) c.distinct)
        (ap (lookup id) c.matched ∙ h)
      ∙ ap (delete id) c.matched;
  distinct = Distinct-delete id peer.pending c.distinct;
  below = below-delete peer.next_promise id peer.pending c.below;
}

clear_all-matched :
    (m : Pending) (ts : List Timer) → map key ts ≡ m → Distinct m → clear_all m ts ≡ []
unfolding clear_all clear_timeout
clear_all-matched [] [] e d = refl
clear_all-matched [] (t ∷ ts) e d = cc
clear_all-matched (x ∷ m) [] e d = cc
clear_all-matched (x ∷ m) (t ∷ ts) e d = ground (arith, clear_all-matched m ts)

-- How a happening changes the numbers of settlements and of waiting requests of a promise `q`.
abbrev issued : ℕ → RpcPeer → ℕ
issued q peer = one_if (ltb q peer.next_promise)

abbrev Balanced : RpcPeer → RpcPeer × List Effect → Type 0
Balanced peer (next, effects) =
    IsConsistent next
    × ((q : ℕ)
        → count_settled q effects + count_pending q next.pending + issued q peer
          ≡ count_pending q peer.pending + issued q next)

none_issued : (q : ℕ) → one_if (ltb q 0) ≡ 0
none_issued q = ground arith

issue : (q n : ℕ) → one_if (ltb q (suc n)) ≡ one_if (n == q) + one_if (ltb q n)
issue q n = ground arith

module _ (peer : RpcPeer) (c : IsConsistent peer) where
  open peer use {pending, timers, next_promise}

  calls-Balanced :
      (id method : String) (payload : Json) (timeout_ms : Option ℕ)
      → lookup id pending ≡ none
      → Balanced peer (request_detailed peer id method payload timeout_ms none)
  unfolding request_detailed
  calls-Balanced id method payload timeout_ms h = elim (Bool-cases (is_blank method)) [
    | inl blank ↦ rw blank (
      record {
        matched = c.matched;
        distinct = c.distinct;
        below = below-suc next_promise pending c.below;
      },
      λ q. omega (arith, issue q next_promise),
    )
    | inr given ↦
        rw (given, insert-absent id next_promise pending h)
          (
            record {
              matched = map-append key timers _ ∙ ap (λ m. m ++ (id, next_promise) ∷ []) c.matched;
              distinct = Distinct-append id next_promise pending h c.below c.distinct;
              below = below-append id next_promise pending c.below;
            },
            λ q. omega (
              arith,
              issue q next_promise,
              count_pending-append q pending ((id, next_promise) ∷ []),
            ),
          )
  ]

  fires-Balanced : (t : Timer) → Running t timers → Balanced peer (fire_timeout peer t)
  unfolding fire_timeout
  fires-Balanced t r =
      let found : lookup t.id pending ≡ some t.promise =
        ap (lookup t.id) (sym c.matched)
        ∙ lookup-Running t timers (subst Distinct (sym c.matched) c.distinct) r in
      (
        delete-IsConsistent peer t.id t.promise c found,
        λ q. omega (arith, count-delete q t.id pending found),
      )

  handle_response-Balanced :
      (id : String) (outcome : Outcome) → Balanced peer (handle_response peer id outcome)
  unfolding handle_response
  handle_response-Balanced id outcome = elim (Option-cases (lookup id pending)) [
    | inl missing ↦ rw (missing, handle_response) (c, λ q. omega arith)
    | inr (p, found) ↦
        rw (found, handle_response)
          (
            delete-IsConsistent peer id p c found,
            λ q. omega (arith, count-delete q id pending found),
          )
  ]

  handle_message-Balanced : (m : BridgeMessage) → Balanced peer (handle_message peer m)
  unfolding handle_message
  handle_message-Balanced (response_ok id payload) = handle_response-Balanced id _
  handle_message-Balanced (response_error id code message details) = handle_response-Balanced id _
  handle_message-Balanced (event id method payload) = (c, λ q. omega arith)
  handle_message-Balanced (request id method payload) =
      elim peer.has_handler
        as (λ b. Balanced peer (
          if b then (peer, handle id method payload ∷ []) else (
            peer,
            send (error_response id "UNKNOWN_METHOD" (str_append "no handler for " method) []) ∷ [],
          ))) [ true ↦ (c, λ q. omega arith) | false ↦ (c, λ q. omega arith) ]

  receives-Balanced : (raw : Json) → Balanced peer (handle_incoming peer raw)
  unfolding handle_incoming
  receives-Balanced raw = by_result (parse_bridge_message raw)
    where
      by_result :
          (r : Result BridgeMessage)
          → Balanced peer (elim r [
            | err e ↦ (peer, protocol_error e ∷ [])
            | ok message ↦ handle_message peer message
          ])
      by_result (err e) = (c, λ q. omega arith)
      by_result (ok m) = handle_message-Balanced m

  closes-Balanced : (error : Option BridgeError) → Balanced peer (close peer error)
  unfolding close
  closes-Balanced error = rw (clear_all-matched pending timers c.matched c.distinct) (
    record { matched = refl; distinct = tt; below = tt },
    λ q. omega (
      arith,
      count-reject_all q (elim error [ some e ↦ e | none ↦ new_error "NOT_CONNECTED" [] ]) pending,
    ),
  )

  step-Balanced : (h : Happening) → Allowed peer h → Balanced peer (step peer h)
  unfolding step
  step-Balanced (calls id method payload timeout_ms) a =
      calls-Balanced id method payload timeout_ms a
  step-Balanced (fires t) a = fires-Balanced t a
  step-Balanced (receives raw) a = receives-Balanced raw
  step-Balanced (resolves id payload) a = unfold handler_resolved in (c, λ q. omega arith)
  step-Balanced (rejects id (bridge_error e text)) a =
      unfold handler_rejected in (c, λ q. omega arith)
  step-Balanced (rejects id (other_error text)) a = unfold handler_rejected in (c, λ q. omega arith)
  step-Balanced (closes error) a = closes-Balanced error

-- The happenings one after the other, with all their effects.
unfoldable pub run : RpcPeer → List Happening → RpcPeer × List Effect
unfolding step
run peer [] = (peer, [])
run peer (h ∷ hs) =
    let (next, effects) = step peer h in let (last, more) = run next hs in (last, effects ++ more)

abbrev pub AllowedRun : RpcPeer → List Happening → Type 0
AllowedRun peer [] = Unit
AllowedRun peer (h ∷ hs) = Allowed peer h × AllowedRun (step peer h).0 hs

run-Balanced :
    (peer : RpcPeer) (hs : List Happening)
    → IsConsistent peer
    → AllowedRun peer hs
    → Balanced peer (run peer hs)
unfolding run
run-Balanced peer [] c a = (c, λ q. omega arith)
run-Balanced peer (h ∷ hs) c (a, as_) =
    let (next, effects) = step peer h in
    let (c', first) = step-Balanced peer c h a in
    let (last, rest) = run-Balanced next hs c' as_ in
    (last, λ q. omega (arith, count_settled-append q effects (run next hs).1, first q, rest q))

new_peer-IsConsistent : (d : Option ℕ) (h : Bool) → IsConsistent (new_peer d h)
unfolding new_peer
new_peer-IsConsistent d h = record { matched = refl; distinct = tt; below = tt }

-- Whatever happens to a new peer, in any order, as long as each generated id is not in use, only
-- running timers fire and sends succeed: every promise that was handed out has been settled exactly
-- once and is no longer waited for, or has not been settled and is waited for once; and no other
-- promise is ever settled.
pub run-settles_once :
    (default_timeout_ms : Option ℕ) (has_handler : Bool) (hs : List Happening)
    → AllowedRun (new_peer default_timeout_ms has_handler) hs
    → (q : ℕ)
    → let (peer, effects) = run (new_peer default_timeout_ms has_handler) hs in
      count_settled q effects + count_pending q peer.pending ≡ one_if (ltb q peer.next_promise)
unfolding new_peer
run-settles_once d h hs a q =
    omega (arith, none_issued q, (run-Balanced (new_peer d h) hs (new_peer-IsConsistent d h) a).1 q)
