-- ===== src/PipeServer/Access.antt =====
-- Who gets at the relay: only sockets that showed the session's nonce, and one relay at a time.
use text.Mathlib.Text.{◌==◌ as str_eq}
use arc_browser_mcp.Prelude.{
  ℕ, ◌≡◌, refl, ◌⊎◌, inl, inr, Bool, true, false, not, ◌&&◌, ◌||◌, Option, none, some, List, [],
  ◌∷◌, ◌++◌, String, arith, ◌==◌, Bool-cases, Option-cases,
}
use arc_browser_mcp.Json.{Json, null, bool, number, numeral, string, array, object, get}
use arc_browser_mcp.Protocol.{BridgeError, Result, ok, err, is_version, is_text, as_string}
use arc_browser_mcp.PipeServer.{
  Outcome, is_connected, McpPipeServer, Effect, forward, has, add, remove, current_nonce, has_nonce,
  check_hello, is_other, refuse, accept_relay, relay_hello, handle_relay_request, accept_client,
  client_hello, forward_request, handle_client_request,
}
use arc_browser_mcp.PipeServer.Sockets.{Happening, relay_asks, client_asks}

pub has-add : (k j : ℕ) (s : List ℕ) → has j (add k s) ≡ (k == j || has j s)
unfolding has add
has-add k j [] = refl
has-add k j (i ∷ s) = ground (arith, has-add k j s)

pub has-remove : (k j : ℕ) (s : List ℕ) → has j (remove k s) ≡ (not (k == j) && has j s)
unfolding has remove
has-remove k j [] = ground arith
has-remove k j (i ∷ s) = ground (arith, has-remove k j s)

unfoldable pub has_relay : Option ℕ → Bool
has_relay none = false
has_relay (some relay) = true

-- There is a relay exactly while the state says so; the relay and the clients have been let in.
pub record IsSound (s : McpPipeServer) : Type 0 where
  pub up : has_relay s.relay ≡ is_connected s.state
  pub relay_authed : (r : ℕ) → s.relay ≡ some r → has r s.authed ≡ true
  pub clients_authed : (c : ℕ) → has c s.clients ≡ true → has c s.authed ≡ true

-- A socket asks for a hello with a nonce and the version of the protocol.
unfoldable pub asks_hello : ℕ → String → Json → String → ℕ → Bool
asks_hello socket method payload nonce c =
    socket == c
    && str_eq method "bridge.hello"
    && is_text (get payload "nonce") nonce
    && is_version (get payload "bridgeVersion")

unfoldable pub is_hello : String → ℕ → Happening → Bool
unfolding asks_hello
is_hello nonce c (relay_asks socket method payload) = asks_hello socket method payload nonce c
is_hello nonce c (client_asks socket method payload) = asks_hello socket method payload nonce c
is_hello nonce c _ = false

unfoldable pub presented : String → ℕ → List Happening → Bool
presented nonce c [] = false
presented nonce c (h ∷ hs) = is_hello nonce c h || presented nonce c hs

-- The requests of a client that are sent on to a relay.
unfoldable pub forwards : ℕ → Effect → Bool
forwards c (forward relay client method payload) = client == c
forwards c _ = false

unfoldable pub sent_on : ℕ → List Effect → Bool
unfolding forwards
sent_on c [] = false
sent_on c (e ∷ es) = forwards c e || sent_on c es

pub sent_on-append :
    (c : ℕ) (es fs : List Effect) → sent_on c (es ++ fs) ≡ (sent_on c es || sent_on c fs)
unfolding sent_on
sent_on-append c [] fs = refl
sent_on-append c (e ∷ es) fs = ground (arith, sent_on-append c es fs)

is_text-as_string :
    (o : Option Json) (nonce wanted : String)
    → as_string o ≡ some nonce
    → str_eq nonce wanted ≡ true
    → is_text o wanted ≡ true
unfolding is_text as_string
is_text-as_string none nonce wanted found same = cc
is_text-as_string (some null) nonce wanted found same = cc
is_text-as_string (some (bool b)) nonce wanted found same = cc
is_text-as_string (some (number n)) nonce wanted found same = cc
is_text-as_string (some (numeral t)) nonce wanted found same = cc
is_text-as_string (some (string t)) nonce wanted found same = ground (arith, found, same)
is_text-as_string (some (array vs)) nonce wanted found same = cc
is_text-as_string (some (object fs)) nonce wanted found same = cc

check_hello-ok :
    (s : McpPipeServer) (payload : Json)
    → check_hello s payload ≡ ok tt
    → (is_text (get payload "nonce") (current_nonce s) ≡ true)
      × (is_version (get payload "bridgeVersion") ≡ true)
unfolding check_hello has_nonce
check_hello-ok s payload h = elim (Option-cases (as_string (get payload "nonce"))) [
  | inl missing ↦ absurd (ground (arith, h, missing))
  | inr (nonce, found) ↦ (
    is_text-as_string (get payload "nonce") nonce (current_nonce s) found
        (ground (arith, h, found)),
    ground (arith, h, found),
  )
]

check_hello-cases :
    (s : McpPipeServer) (payload : Json)
    → (check_hello s payload ≡ ok tt) ⊎ ((e : BridgeError) × (check_hello s payload ≡ err e))
check_hello-cases s payload = go (check_hello s payload) refl
  where
    go :
        (r : Result (Unit {0}))
        → check_hello s payload ≡ r
        → (check_hello s payload ≡ ok tt) ⊎ ((e : BridgeError) × (check_hello s payload ≡ err e))
    go (ok done) h = inl h
    go (err e) h = inr (e, h)

-- What a handler makes of a request: nothing, or what `accepted` says, after a hello.
abbrev pub Asked : McpPipeServer → ℕ → String → Json → Outcome → Outcome → Type 0
Asked s socket method payload accepted out =
    ((out.0 ≡ s) × ((c : ℕ) → sent_on c out.1 ≡ true → (socket ≡ c) × (has socket s.authed ≡ true)))
    ⊎ ((out ≡ accepted) × (asks_hello socket method payload (current_nonce s) socket ≡ true))

module _ (s : McpPipeServer) (socket : ℕ) (method : String) (payload : Json) where
  hello_asked :
      str_eq method "bridge.hello" ≡ true
      → check_hello s payload ≡ ok tt
      → asks_hello socket method payload (current_nonce s) socket ≡ true
  unfolding asks_hello
  hello_asked named passed = ground (arith, named, check_hello-ok s payload passed)

  pub relay_asks-cases :
      Asked s socket method payload
        (accept_relay socket s)
        (handle_relay_request socket method payload s)
  unfolding handle_relay_request relay_hello refuse sent_on
  relay_asks-cases = elim (Bool-cases (str_eq method "bridge.hello")) [
    | inl named ↦ elim (check_hello-cases s payload) [
      | inl passed ↦ elim (Bool-cases (is_other s.relay socket)) [
        | inl other ↦ inl (
          ground (arith, named, passed, other),
          λ c h. absurd (ground (arith, named, passed, other, h)),
        )
        | inr own ↦ inr (ground (arith, named, passed, own), hello_asked named passed)
      ]
      | inr (e, refused) ↦
          inl (ground (arith, named, refused), λ c h. absurd (ground (arith, named, refused, h)))
    ]
    | inr other ↦ inl (ground (arith, other), λ c h. absurd (ground (arith, other, h)))
  ]

  pub client_asks-cases :
      Asked s socket method payload
        (accept_client socket s)
        (handle_client_request socket method payload s)
  unfolding handle_client_request client_hello forward_request refuse sent_on
  client_asks-cases = elim (Bool-cases (str_eq method "bridge.hello")) [
    | inl named ↦ elim (check_hello-cases s payload) [
      | inl passed ↦ inr (ground (arith, named, passed), hello_asked named passed)
      | inr (e, refused) ↦
          inl (ground (arith, named, refused), λ c h. absurd (ground (arith, named, refused, h)))
    ]
    | inr other ↦ inl (ground (arith, other), λ c h. ground (arith, other, h))
  ]
