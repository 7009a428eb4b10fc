-- ===== src/PipeServer/Reach.antt =====
-- Along every run of the pipe server: the relay and the clients were let in by a hello.
use arc_browser_mcp.Prelude.{
  ℕ, ◌≡◌, refl, ap, sym, ◌∙◌, ◌⊎◌, inl, inr, Bool, true, false, ◌||◌, Option, none, some, List, [],
  ◌∷◌, ◌++◌, String, arith, if◌then◌else◌, Bool-cases, subst,
}
use arc_browser_mcp.Json.{Json}
use arc_browser_mcp.PipeServer.{
  Outcome, is_connected, McpPipeServer, Effect, close_clients_server, has, push_all, set_state,
  current_nonce, is_other, accept_relay, accept_client,
}
use arc_browser_mcp.PipeServer.Sockets.{
  relay_gone, relay_closed, is_relay, disarm, call_orphaned, on_client_left, client_closed,
  watchdog_tick, drop_relay, drop_clients, begin_stop, continue_stop, end_stop, Happening,
  relay_asks, client_asks, relay_closes, client_closes, ticks, stops, continues_stop, ends_stop,
  step, run,
}
use arc_browser_mcp.PipeServer.Access.{
  has-add, has-remove, has_relay, IsSound, asks_hello, is_hello, presented, forwards, sent_on,
  sent_on-append, Asked, relay_asks-cases, client_asks-cases,
}

sent_on-push_all : (c : ℕ) (up : Bool) (clients : List ℕ) → sent_on c (push_all up clients) ≡ false
unfolding sent_on push_all forwards
sent_on-push_all c up [] = refl
sent_on-push_all c up (d ∷ clients) = sent_on-push_all c up clients

sent_on-drop_clients : (c : ℕ) (clients : List ℕ) → sent_on c (drop_clients clients) ≡ false
unfolding sent_on drop_clients forwards
sent_on-drop_clients c [] = refl
sent_on-drop_clients c (d ∷ clients) = sent_on-drop_clients c clients

sent_on-drop_relay : (c : ℕ) (relay : Option ℕ) → sent_on c (drop_relay relay) ≡ false
unfolding sent_on drop_relay forwards
sent_on-drop_relay c none = refl
sent_on-drop_relay c (some relay) = refl

sent_on-begin_stop : (c : ℕ) (s : McpPipeServer) → sent_on c (begin_stop s).1 ≡ false
unfolding begin_stop set_state disarm sent_on forwards
sent_on-begin_stop c s =
    let closing : List Effect = if s.clients_server then close_clients_server ∷ [] else [] in
    ground (
      arith,
      sent_on-append c (push_all false s.clients)
          (drop_relay s.relay ++ (drop_clients s.clients ++ closing)),
      sent_on-append c (drop_relay s.relay) (drop_clients s.clients ++ closing),
      sent_on-append c (drop_clients s.clients) closing,
      sent_on-push_all c false s.clients,
      sent_on-drop_relay c s.relay,
      sent_on-drop_clients c s.clients,
    )

is_hello-asked :
    (s : McpPipeServer) (socket : ℕ) (method : String) (payload : Json) (c : ℕ)
    → asks_hello socket method payload (current_nonce s) socket ≡ true
    → socket ≡ c
    → asks_hello socket method payload (current_nonce s) c ≡ true
is_hello-asked s socket method payload c h e =
    subst (λ x. asks_hello socket method payload (current_nonce s) x ≡ true) e h

-- Who is let in by a step has just shown the nonce.
step-authed :
    (h : Happening) (s : McpPipeServer) (c : ℕ)
    → has c (step h s).0.authed ≡ true
    → (has c s.authed ≡ true) ⊎ (is_hello (current_nonce s) c h ≡ true)
unfolding step is_hello accept_relay accept_client set_state relay_closed relay_gone client_closed
    on_client_left disarm watchdog_tick begin_stop continue_stop end_stop
step-authed (relay_asks socket method payload) s c h =
    elim (relay_asks-cases s socket method payload) [
      | inl (same, sent) ↦ inl (ground (arith, h, same))
      | inr (accepted, asked) ↦ elim (Bool-cases (has c s.authed)) [
        | inl known ↦ inl known
        | inr unknown ↦ inr (
            is_hello-asked s socket method payload c asked
              (ground (arith, h, accepted, unknown, has-add socket c s.authed)))
      ]
    ]
step-authed (client_asks socket method payload) s c h =
    elim (client_asks-cases s socket method payload) [
      | inl (same, sent) ↦ inl (ground (arith, h, same))
      | inr (accepted, asked) ↦ elim (Bool-cases (has c s.authed)) [
        | inl known ↦ inl known
        | inr unknown ↦ inr (
            is_hello-asked s socket method payload c asked
              (ground (arith, h, accepted, unknown, has-add socket c s.authed)))
      ]
    ]
step-authed (relay_closes socket) s c h = inl (ground (arith, h))
step-authed (client_closes socket) s c h = inl (ground (arith, h))
step-authed (ticks alive) s c h = inl (ground (arith, h))
step-authed stops s c h = inl h
step-authed continues_stop s c h = inl h
step-authed ends_stop s c h = inl (ground (arith, h))

-- What is sent on comes from a client that was let in before.
step-sent_on :
    (h : Happening) (s : McpPipeServer) (c : ℕ)
    → sent_on c (step h s).1 ≡ true
    → has c s.authed ≡ true
unfolding step accept_relay accept_client set_state relay_closed relay_gone client_closed
    on_client_left disarm call_orphaned watchdog_tick continue_stop end_stop sent_on forwards
step-sent_on (relay_asks socket method payload) s c h =
    elim (relay_asks-cases s socket method payload) [
      | inl (same, sent) ↦ ground (arith, sent c h)
      | inr (accepted, asked) ↦
          absurd (ground (arith, h, accepted, sent_on-push_all c true s.clients))
    ]
step-sent_on (client_asks socket method payload) s c h =
    elim (client_asks-cases s socket method payload) [
      | inl (same, sent) ↦ ground (arith, sent c h)
      | inr (accepted, asked) ↦ absurd (ground (arith, h, accepted))
    ]
step-sent_on (relay_closes socket) s c h =
    absurd (ground (arith, h, sent_on-push_all c false s.clients))
step-sent_on (client_closes socket) s c h = absurd (ground (arith, h))
step-sent_on (ticks alive) s c h = absurd (ground (arith, h))
step-sent_on stops s c h = absurd (ground (arith, h, sent_on-begin_stop c s))
step-sent_on continues_stop s c h = absurd (ground (arith, h))
step-sent_on ends_stop s c h = absurd (ground (arith, h))

step-session : (h : Happening) (s : McpPipeServer) → (step h s).0.session ≡ s.session
unfolding step accept_relay accept_client set_state relay_closed relay_gone client_closed
    on_client_left disarm watchdog_tick begin_stop continue_stop end_stop
step-session (relay_asks socket method payload) s =
    elim (relay_asks-cases s socket method payload) [
      | inl (same, sent) ↦ ground (arith, same)
      | inr (accepted, asked) ↦ ground (arith, accepted)
    ]
step-session (client_asks socket method payload) s =
    elim (client_asks-cases s socket method payload) [
      | inl (same, sent) ↦ ground (arith, same)
      | inr (accepted, asked) ↦ ground (arith, accepted)
    ]
step-session (relay_closes socket) s = ground arith
step-session (client_closes socket) s = ground arith
step-session (ticks alive) s = ground arith
step-session stops s = refl
step-session continues_stop s = refl
step-session ends_stop s = ground arith

run-authed :
    (hs : List Happening) (s : McpPipeServer) (c : ℕ)
    → has c (run hs s).0.authed ≡ true
    → (has c s.authed ≡ true) ⊎ (presented (current_nonce s) c hs ≡ true)
unfolding run presented current_nonce
run-authed [] s c h = inl h
run-authed (a ∷ hs) s c h = elim (run-authed hs (step a s).0 c h) [
  | inl before ↦ elim (step-authed a s c before) [
    | inl known ↦ inl known
    | inr shown ↦ inr (ground (arith, shown))
  ]
  | inr later ↦ inr (ground (arith, later, step-session a s))
]

run-sent_on :
    (hs : List Happening) (s : McpPipeServer) (c : ℕ)
    → sent_on c (run hs s).1 ≡ true
    → (has c s.authed ≡ true) ⊎ (presented (current_nonce s) c hs ≡ true)
unfolding run presented sent_on current_nonce
run-sent_on [] s c h = cc
run-sent_on (a ∷ hs) s c h = elim (Bool-cases (sent_on c (step a s).1)) [
  | inl now ↦ inl (step-sent_on a s c now)
  | inr not_now ↦
      elim (run-sent_on hs (step a s).0 c
        (ground (arith, h, not_now, sent_on-append c (step a s).1 (run hs (step a s).0).1))) [
          | inl before ↦ elim (step-authed a s c before) [
            | inl known ↦ inl known
            | inr shown ↦ inr (ground (arith, shown))
          ]
          | inr later ↦ inr (ground (arith, later, step-session a s))
        ]
]

module _ (s : McpPipeServer) (sound : IsSound s) where
  accept_relay-IsSound : (socket : ℕ) → IsSound (accept_relay socket s).0
  unfolding accept_relay set_state has_relay is_connected
  accept_relay-IsSound socket = record {
    up = refl;
    relay_authed = λ r e. ground (arith, e, has-add socket r s.authed);
    clients_authed = λ c h. ground (arith, h, sound.clients_authed c, has-add socket c s.authed);
  }

  accept_client-IsSound : (socket : ℕ) → IsSound (accept_client socket s).0
  unfolding accept_client
  accept_client-IsSound socket = record {
    up = ground (arith, sound.up);
    relay_authed = λ r e. ground (arith, e, sound.relay_authed r, has-add socket r s.authed);
    clients_authed = λ c h.
        ground
          (arith, h, sound.clients_authed c, has-add socket c s.authed, has-add socket c s.clients);
  }

  Asked-IsSound :
      (socket : ℕ) (method : String) (payload : Json) (accepted out : Outcome)
      → Asked s socket method payload accepted out
      → IsSound accepted.0
      → IsSound out.0
  Asked-IsSound socket method payload accepted out (inl (same, sent)) later =
      subst IsSound (sym same) sound
  Asked-IsSound socket method payload accepted out (inr (same, asked)) later =
      subst IsSound (ap (λ (o : Outcome). o.0) (sym same)) later

  relay_closed-IsSound : (socket : ℕ) → IsSound (relay_closed socket s).0
  unfolding relay_closed relay_gone set_state has_relay is_connected
  relay_closed-IsSound socket = record {
    up = ground (arith, sound.up);
    relay_authed = λ r e. ground (arith, e, sound.relay_authed r);
    clients_authed = λ c h. ground (arith, h, sound.clients_authed c);
  }

  client_closed-IsSound : (socket : ℕ) → IsSound (client_closed socket s).0
  unfolding client_closed on_client_left disarm
  client_closed-IsSound socket = record {
    up = ground (arith, sound.up);
    relay_authed = λ r e. ground (arith, e, sound.relay_authed r);
    clients_authed =
        λ c h. ground (arith, h, sound.clients_authed c, has-remove socket c s.clients);
  }

  rest-IsSound :
      (next : McpPipeServer)
      → next.relay ≡ s.relay
      → next.state ≡ s.state
      → next.clients ≡ s.clients
      → next.authed ≡ s.authed
      → IsSound next
  rest-IsSound next relay state clients authed = record {
    up = ground (arith, sound.up, relay, state);
    relay_authed = λ r e. ground (arith, e, sound.relay_authed r, relay, authed);
    clients_authed = λ c h. ground (arith, h, sound.clients_authed c, clients, authed);
  }

  begin_stop-IsSound : IsSound (begin_stop s).0
  unfolding begin_stop set_state disarm has_relay is_connected has
  begin_stop-IsSound = record { up = refl; relay_authed = λ r e. cc; clients_authed = λ c h. cc }

  step-IsSound : (h : Happening) → IsSound (step h s).0
  unfolding step watchdog_tick disarm continue_stop end_stop
  step-IsSound (relay_asks socket method payload) =
      Asked-IsSound socket method payload _ _ (relay_asks-cases s socket method payload)
        (accept_relay-IsSound socket)
  step-IsSound (client_asks socket method payload) =
      Asked-IsSound socket method payload _ _ (client_asks-cases s socket method payload)
        (accept_client-IsSound socket)
  step-IsSound (relay_closes socket) = relay_closed-IsSound socket
  step-IsSound (client_closes socket) = client_closed-IsSound socket
  step-IsSound (ticks alive) =
      rest-IsSound _ (ground arith) (ground arith) (ground arith) (ground arith)
  step-IsSound stops = begin_stop-IsSound
  step-IsSound continues_stop = rest-IsSound _ refl refl refl refl
  step-IsSound ends_stop =
      rest-IsSound _ (ground arith) (ground arith) (ground arith) (ground arith)

run-IsSound : (hs : List Happening) (s : McpPipeServer) → IsSound s → IsSound (run hs s).0
unfolding run
run-IsSound [] s sound = sound
run-IsSound (h ∷ hs) s sound = run-IsSound hs (step h s).0 (step-IsSound s sound h)

-- The socket is the relay, is joined as a proxy client, or had a request sent on to the relay.
unfoldable pub reaches : ℕ → McpPipeServer × List Effect → Bool
unfolding is_relay
reaches c (s, effects) = is_relay s.relay c || has c s.clients || sent_on c effects

is_relay-eq : (relay : Option ℕ) (c : ℕ) → is_relay relay c ≡ true → relay ≡ some c
unfolding is_relay is_other
is_relay-eq none c h = cc
is_relay-eq (some r) c h = ground (arith, h)

-- If the server is sound and no socket has been let in yet: a socket that, after whatever happens, is
-- the relay, is joined as a proxy client, or had a request sent on to the relay has shown the current
-- session's nonce and the protocol's version in a hello.
pub run-access :
    (s : McpPipeServer) (hs : List Happening) (c : ℕ)
    → IsSound s
    → s.authed ≡ []
    → reaches c (run hs s) ≡ true
    → presented (current_nonce s) c hs ≡ true
unfolding reaches
run-access s hs c sound nobody reached = elim (Bool-cases (is_relay (run hs s).0.relay c)) [
  | inl relay ↦
      outsider (run-authed hs s c (after.relay_authed c (is_relay-eq (run hs s).0.relay c relay)))
  | inr other ↦ elim (Bool-cases (has c (run hs s).0.clients)) [
    | inl joined ↦ outsider (run-authed hs s c (after.clients_authed c joined))
    | inr apart ↦ outsider (run-sent_on hs s c (ground (arith, reached, other, apart)))
  ]
]
  where
    after : IsSound (run hs s).0
    after = run-IsSound hs s sound

    outsider :
        (has c s.authed ≡ true) ⊎ (presented (current_nonce s) c hs ≡ true)
        → presented (current_nonce s) c hs ≡ true
    outsider (inl known) = absurd (unfold has in cc (sym (ap (has c) nobody) ∙ known))
    outsider (inr shown) = shown
