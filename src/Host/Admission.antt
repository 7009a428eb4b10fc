-- ===== src/Host/Admission.antt =====
-- What the host asks for before it relays, and what it loses then.
use arc_browser_mcp.Prelude.{
  ℕ, ◌≡◌, ◌≢◌, refl, sym, ◌++◌, ap, ◌∙◌, ◌⊎◌, inl, inr, Bool, true, false, ◌||◌, ◌==◌, Option, none,
  some, is_some, List, [], ◌∷◌, arith, if◌then◌else◌,
}
use arc_browser_mcp.Json.{Json}
use arc_browser_mcp.Interaction.{CodeUnits}
use arc_browser_mcp.Framing.{
  Bytes, Codec, small, NativeFrameDecoder, new_decoder, encode_native_message, push,
}
use arc_browser_mcp.Framing
use arc_browser_mcp.Protocol.{BridgeMessage, parse_bridge_message, to_json}
use arc_browser_mcp.Protocol
use arc_browser_mcp.Session.{BridgeSession, is_session_stale}
use arc_browser_mcp.HostArgs.{ParsedHostArgs, parse_native_host_args}
use arc_browser_mcp.Host.{
  hello_request, Hello, HelloEvent, hello_data, hello_expired, new_hello, hello_answer,
  hello_frames, take_hello, on_hello_data, hello_step, hello_run, HostExit, exited, thrown, waits,
  HostRun, exits, HostRunOptions, relay_run, new_relay, relay_loop, authenticate_pipe,
  after_connect, with_session, run_host_inner,
}

-- The run ends as a relay does, or has written to the browser.
abbrev pub IsActive : HostRun → Type 0
IsActive run = (run.exit ≡ exited 0) ⊎ (run.exit ≡ exited 6) ⊎ (run.to_native ≢ [])

module _ (encode : CodeUnits → List ℕ) (codec : Codec Json) where
  abbrev pub IsAdmitted : HostRunOptions → Type 0
  IsAdmitted options =
      (parsed : ParsedHostArgs) × (session : BridgeSession) × (parse_native_host_args encode
          options.argv options.expected_origin
        ≡ Protocol.ok parsed)
      × (options.load_session ≡ Protocol.ok (some session))
      × (is_session_stale options.is_pid_alive session ≡ false)
      × (options.connects ≡ true)
      × ((hello_run codec options.hello_events new_hello).outcome ≡ some true)

  not_active :
      (exit : HostExit) (to_pipe : Bytes)
      → exit ≢ exited 0
      → exit ≢ exited 6
      → IsActive (record { exit = exit; to_pipe = to_pipe; to_native = [] })
      → ⊥
  not_active exit to_pipe h k (inl e) = h e
  not_active exit to_pipe h k (inr (inl e)) = k e
  not_active exit to_pipe h k (inr (inr written)) = written refl

  exited-inj : (m n : ℕ) → exited m ≡ exited n → m ≡ n
  exited-inj m n h = cc

  exits-inactive :
      (code : ℕ) (to_pipe : Bytes)
      → (code == 0 || code == 6) ≡ false
      → IsActive (exits code to_pipe)
      → ⊥
  unfolding exits
  exits-inactive code to_pipe other =
      not_active (exited code) to_pipe (λ e. ground (arith, exited-inj code 0 e, other))
        (λ e. ground (arith, exited-inj code 6 e, other))

  authenticate_pipe-admits :
      (options : HostRunOptions) (frame : Bytes)
      → IsActive (authenticate_pipe codec options frame)
      → (hello_run codec options.hello_events new_hello).outcome ≡ some true
  unfolding authenticate_pipe
  authenticate_pipe-admits options frame active =
      by_outcome (hello_run codec options.hello_events new_hello).outcome active
    where
      by_outcome :
          (o : Option Bool)
          → IsActive (elim o as (λ x. HostRun) [
            | none ↦ record { exit = waits; to_pipe = frame; to_native = [] }
            | some false ↦ exits 5 frame
            | some true ↦ relay_loop codec options frame
          ])
          → o ≡ some true
      by_outcome none h = absurd (not_active waits frame (λ e. cc) (λ e. cc) h)
      by_outcome (some false) h = absurd (exits-inactive 5 frame refl h)
      by_outcome (some true) h = refl

  after_connect-admits :
      (options : HostRunOptions) (session : BridgeSession)
      → IsActive (after_connect codec options session)
      → (hello_run codec options.hello_events new_hello).outcome ≡ some true
  unfolding after_connect
  after_connect-admits options session active =
      by_frame (encode_native_message codec small (to_json (hello_request session.nonce_hex)))
        active
    where
      by_frame :
          (x : Framing.Result Bytes)
          → IsActive (elim x as (λ y. HostRun) [
            | Framing.err e ↦ record { exit = thrown; to_pipe = []; to_native = [] }
            | Framing.ok frame ↦ authenticate_pipe codec options frame
          ])
          → (hello_run codec options.hello_events new_hello).outcome ≡ some true
      by_frame (Framing.err e) h = absurd (not_active thrown [] (λ k. cc) (λ k. cc) h)
      by_frame (Framing.ok frame) h = authenticate_pipe-admits options frame h

  with_session-admits :
      (options : HostRunOptions) (session : BridgeSession)
      → IsActive (with_session codec options session)
      → (is_session_stale options.is_pid_alive session ≡ false)
        × (options.connects ≡ true)
        × ((hello_run codec options.hello_events new_hello).outcome ≡ some true)
  unfolding with_session
  with_session-admits options session active =
      by_tests (is_session_stale options.is_pid_alive session) options.connects active
    where
      by_tests :
          (stale connects : Bool)
          → IsActive (
              if stale
              then exits 3 []
              else if connects
              then after_connect codec options session
              else exits 4 [])
          → (stale ≡ false)
            × (connects ≡ true)
            × ((hello_run codec options.hello_events new_hello).outcome ≡ some true)
      by_tests true connects h = absurd (exits-inactive 3 [] refl h)
      by_tests false true h = (refl, refl, after_connect-admits options session h)
      by_tests false false h = absurd (exits-inactive 4 [] refl h)

-- If the host ends as a relay does, with code 0 or 6, or has written anything to the browser: its
-- arguments were accepted, there is a session that is not stale, the pipe was reached, and the hello
-- was answered with success.
pub run_host_inner-IsAdmitted :
    (encode : CodeUnits → List ℕ) (codec : Codec Json) (options : HostRunOptions)
    → IsActive (run_host_inner codec encode options)
    → IsAdmitted encode codec options
unfolding run_host_inner
run_host_inner-IsAdmitted encode codec options active =
    by_args (parse_native_host_args encode options.argv options.expected_origin) refl active
  where
    by_session :
        (parsed : ParsedHostArgs)
        → parse_native_host_args encode options.argv options.expected_origin ≡ Protocol.ok parsed
        → (y : Protocol.Result (Option BridgeSession)) → options.load_session ≡ y
        → IsActive (elim y as (λ z. HostRun) [
          | Protocol.err e ↦ exits 2 []
          | Protocol.ok none ↦ exits 2 []
          | Protocol.ok (some session) ↦ with_session codec options session
        ])
        → IsAdmitted encode codec options
    by_session parsed e (Protocol.err f) k h = absurd (exits-inactive encode codec 2 [] refl h)
    by_session parsed e (Protocol.ok none) k h = absurd (exits-inactive encode codec 2 [] refl h)
    by_session parsed e (Protocol.ok (some session)) k h =
        let (fresh, connects, welcome) = with_session-admits encode codec options session h in
        (parsed, session, e, k, fresh, connects, welcome)

    by_args :
        (x : Protocol.Result ParsedHostArgs)
        → parse_native_host_args encode options.argv options.expected_origin ≡ x
        → IsActive (elim x as (λ z. HostRun) [
          | Protocol.err e ↦ exits 1 []
          | Protocol.ok parsed ↦ elim options.load_session [
            | Protocol.err e ↦ exits 2 []
            | Protocol.ok none ↦ exits 2 []
            | Protocol.ok (some session) ↦ with_session codec options session
          ]
        ])
        → IsAdmitted encode codec options
    by_args (Protocol.err f) e h = absurd (exits-inactive encode codec 1 [] refl h)
    by_args (Protocol.ok parsed) e h = by_session parsed e options.load_session refl h

module _ (codec : Codec Json) where
  settled_hello :
      (events : List HelloEvent) (h : Hello) (ok : Bool)
      → h.outcome ≡ some ok
      → (hello_run codec events h).outcome ≡ some ok
  unfolding hello_run hello_step is_some
  settled_hello [] h ok e = e
  settled_hello (event ∷ events) h ok e =
      settled_hello events (hello_step codec event h) ok (stays event)
    where
      stays : (event : HelloEvent) → (hello_step codec event h).outcome ≡ some ok
      stays (hello_data chunk) =
          ap (λ (o : Option Bool). (if is_some o then h else on_hello_data codec chunk h).outcome) e
          ∙ e
      stays hello_expired =
          ap
            (λ (o : Option Bool).
              (if is_some o then h else record h { outcome = some false }).outcome)
            e
          ∙ e

  -- An answer that comes first decides, and the frames behind it are not read.
  first_answer :
      (value : Json) (more : List Json) (m : BridgeMessage) (ok : Bool)
      → parse_bridge_message value ≡ Protocol.ok m
      → hello_answer m ≡ some ok
      → hello_frames (value ∷ more) ≡ some ok
  unfolding hello_frames
  first_answer value more m ok h k =
      ap
        (λ (x : Protocol.Result BridgeMessage). elim x as (λ y. Option Bool) [
          | Protocol.err e ↦ some false
          | Protocol.ok message ↦ elim (hello_answer message) as (λ z. Option Bool) [
            | some b ↦ some b
            | none ↦ hello_frames more
          ]
        ])
        h
      ∙ ap
          (λ (o : Option Bool). elim o as (λ z. Option Bool) [
            | some b ↦ some b
            | none ↦ hello_frames more
          ])
          k

module _ (codec : Codec Json) (options : HostRunOptions) (hello_frame : Bytes) where
  -- If the first chunk begins with the frame of an answer that accepts the hello, the host relays.
  authenticate_pipe-relays :
      (chunk : Bytes) (events : List HelloEvent) (value : Json) (more : List Json)
      (decoder : NativeFrameDecoder) (m : BridgeMessage)
      → options.hello_events ≡ hello_data chunk ∷ events
      → push codec (new_decoder small) chunk ≡ (Framing.ok (value ∷ more), decoder)
      → parse_bridge_message value ≡ Protocol.ok m
      → hello_answer m ≡ some true
      → authenticate_pipe codec options hello_frame ≡ relay_loop codec options hello_frame
  unfolding authenticate_pipe hello_run hello_step new_hello on_hello_data take_hello is_some
  authenticate_pipe-relays chunk events value more decoder m at first h k =
      let step : (hello_step codec (hello_data chunk) new_hello).outcome ≡ some true =
        ap (λ x. (take_hello codec x).outcome) first ∙ first_answer codec value more m true h k in
      let welcome : (hello_run codec options.hello_events new_hello).outcome ≡ some true =
        ap (λ es. (hello_run codec es new_hello).outcome) at
        ∙ settled_hello codec events (hello_step codec (hello_data chunk) new_hello) true step in
      ap
        (λ (o : Option Bool). elim o as (λ x. HostRun) [
          | none ↦ record { exit = waits; to_pipe = hello_frame; to_native = [] }
          | some false ↦ exits 5 hello_frame
          | some true ↦ relay_loop codec options hello_frame
        ])
        welcome

module _ (codec : Codec Json) (options : HostRunOptions) (hello_frame : Bytes) where
  -- The run in which this is what comes from the pipe before the relay.
  abbrev pub with_hello : List HelloEvent → HostRun
  with_hello events = authenticate_pipe codec (record options { hello_events = events }) hello_frame

  -- If the first chunk from the pipe begins with the frame of an answer that accepts the hello, what
  -- stands behind that frame and what comes until the relay starts are lost: the run is the same as
  -- with a chunk that holds the answer alone, and each side gets, after the hello, what a new relay
  -- writes for the later events.
  pub authenticate_pipe-drops_rest :
      (chunk alone : Bytes) (events : List HelloEvent) (value : Json) (more : List Json)
      (decoder bare : NativeFrameDecoder) (m : BridgeMessage)
      → push codec (new_decoder small) chunk ≡ (Framing.ok (value ∷ more), decoder)
      → push codec (new_decoder small) alone ≡ (Framing.ok (value ∷ []), bare)
      → parse_bridge_message value ≡ Protocol.ok m
      → hello_answer m ≡ some true
      → let run = with_hello (hello_data chunk ∷ events) in
        let relay = relay_run codec options.relay_events new_relay in
        (run ≡ with_hello (hello_data alone ∷ []))
        × (run.to_native ≡ relay.to_native)
        × (run.to_pipe ≡ hello_frame ++ relay.to_pipe)
  unfolding relay_loop
  authenticate_pipe-drops_rest chunk alone events value more decoder bare m first only h k =
      let relays = relaying chunk events more decoder first in
      (
        relays ∙ sym (relaying alone [] [] bare only),
        ap (λ run. run.to_native) relays,
        ap (λ run. run.to_pipe) relays,
      )
    where
      relaying :
          (chunk : Bytes) (events : List HelloEvent) (more : List Json)
          (decoder : NativeFrameDecoder)
          → push codec (new_decoder small) chunk ≡ (Framing.ok (value ∷ more), decoder)
          → with_hello (hello_data chunk ∷ events) ≡ relay_loop codec options hello_frame
      relaying chunk events more decoder first =
          authenticate_pipe-relays codec
            (record options { hello_events = hello_data chunk ∷ events }) hello_frame chunk events
            value more decoder m refl first h k
