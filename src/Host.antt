-- ===== src/Host.antt =====
-- src/bridge/native-host/host.ts: the relay between the browser's native port and the MCP process.
-- Arguments: `codec` as in Framing, `encode` as in HostArgs, what the session file and the connection
-- to the pipe come to, and the events of the two streams in their order. What is written to a stream
-- is the list of all bytes so far. The texts of the log and the journal are left out.
pub mod Pieces
pub mod Admission
mod Tests
pub mod Forwarding
pub mod Written
use text.Mathlib.Text.{◌==◌ as str_eq}
use arc_browser_mcp.Prelude.{
  ℕ, Bool, true, false, Option, none, some, is_some, List, [], ◌∷◌, ◌++◌, String, if◌then◌else◌,
}
use arc_browser_mcp.Json.{Json, number, string, object, end, field}
use arc_browser_mcp.Interaction.{CodeUnits}
use arc_browser_mcp.Framing.{
  Bytes, Codec, FrameDirection, small, large_response, encode_native_message, NativeFrameDecoder,
  new_decoder, push,
}
use arc_browser_mcp.Framing
use arc_browser_mcp.Protocol.{
  BridgeMessage, request, event, response_ok, response_error, bridge_protocol_version,
  parse_bridge_message, to_json,
}
use arc_browser_mcp.Protocol
use arc_browser_mcp.Session.{BridgeSession, is_session_stale}
use arc_browser_mcp.HostArgs.{parse_native_host_args}

abbrev pub hello_id : String
hello_id = "host-hello"

unfoldable pub hello_request : String → BridgeMessage
hello_request nonce_hex = request hello_id "bridge.hello" (
    object (
      field "nonce" (string nonce_hex)
        (field "bridgeVersion" (number bridge_protocol_version) end)))

-- The wait for the answer to the hello: `outcome` is what the promise resolves with.
pub record Hello : Type 0 where
  pub decoder : NativeFrameDecoder
  pub outcome : Option Bool

pub data HelloEvent : Type 0 where
  hello_data : Bytes → HelloEvent
  hello_expired : HelloEvent

unfoldable pub new_hello : Hello
unfolding new_decoder
new_hello = record { decoder = new_decoder small; outcome = none }

-- `message.ok` of the response to the hello.
unfoldable pub hello_answer : BridgeMessage → Option Bool
hello_answer (response_ok id payload) = if str_eq id hello_id then some true else none
hello_answer (response_error id code message details) =
    if str_eq id hello_id then some false else none
hello_answer _ = none

-- The loop over the frames; frames behind the answer are left unread.
unfoldable pub hello_frames : List Json → Option Bool
unfolding hello_answer
hello_frames [] = none
hello_frames (frame ∷ frames) =
    let rest = hello_frames frames in
    elim (parse_bridge_message frame) [
      | Protocol.err e ↦ some false
      | Protocol.ok message ↦ elim (hello_answer message) [ some ok ↦ some ok | none ↦ rest ]
    ]

pub record Relay : Type 0 where
  pub stdin_decoder : NativeFrameDecoder
  pub pipe_decoder : NativeFrameDecoder
  pub settled : Option ℕ
  pub to_pipe : Bytes
  pub to_native : Bytes

pub data RelayEvent : Type 0 where
  stdin_data pipe_data : Bytes → RelayEvent
  stdin_end pipe_close : RelayEvent

unfoldable pub new_relay : Relay
unfolding new_decoder
new_relay = record {
  stdin_decoder = new_decoder large_response;
  pipe_decoder = new_decoder small;
  settled = none;
  to_pipe = [];
  to_native = [];
}

unfoldable pub finish : ℕ → Relay → Relay
finish code r = elim r.settled [ none ↦ record r { settled = some code } | some before ↦ r ]

module _ (codec : Codec Json) where
  unfoldable pub take_hello : Framing.Result (List Json) × NativeFrameDecoder → Hello
  unfolding hello_frames
  take_hello (Framing.err e, decoder) = record { decoder = decoder; outcome = some false }
  take_hello (Framing.ok frames, decoder) = record {
    decoder = decoder;
    outcome = hello_frames frames;
  }

  -- A chunk that is read while nothing is settled; afterwards nobody listens.
  unfoldable pub on_hello_data : Bytes → Hello → Hello
  unfolding take_hello
  on_hello_data chunk h = take_hello (push codec h.decoder chunk)

  unfoldable pub hello_step : HelloEvent → Hello → Hello
  unfolding on_hello_data is_some
  hello_step (hello_data chunk) h = if is_some h.outcome then h else on_hello_data chunk h
  hello_step hello_expired h = if is_some h.outcome then h else record h { outcome = some false }

  unfoldable pub hello_run : List HelloEvent → Hello → Hello
  unfolding hello_step
  hello_run [] h = h
  hello_run (e ∷ events) h = hello_run events (hello_step e h)

  -- What is written for a frame, or `none` where the relay ends with code 6.
  unfoldable pub forward_frame : FrameDirection → Json → Option Bytes
  forward_frame direction frame = elim (parse_bridge_message frame) [
    | Protocol.err e ↦ none
    | Protocol.ok message ↦ elim (encode_native_message codec direction (to_json message)) [
      | Framing.err e ↦ none
      | Framing.ok encoded ↦ some encoded
    ]
  ]

  -- The loop over the frames: what is written, and whether none failed.
  unfoldable pub forward_all : FrameDirection → List Json → Bytes × Bool
  unfolding forward_frame
  forward_all direction [] = ([], true)
  forward_all direction (frame ∷ frames) =
      let (written, sound) = forward_all direction frames in
      elim (forward_frame direction frame) [
        | none ↦ ([], false)
        | some encoded ↦ (encoded ++ written, sound)
      ]

  -- What is done with the outcome of reading a chunk of stdin.
  unfoldable pub take_stdin : Framing.Result (List Json) × NativeFrameDecoder → Relay → Relay
  unfolding forward_all finish
  take_stdin (Framing.err e, decoder) r = finish 6 (record r { stdin_decoder = decoder })
  take_stdin (Framing.ok frames, decoder) r =
      let (written, sound) = forward_all large_response frames in
      let next = record r { stdin_decoder = decoder; to_pipe = r.to_pipe ++ written } in
      if sound then next else finish 6 next

  unfoldable pub on_stdin_data : Bytes → Relay → Relay
  unfolding take_stdin
  on_stdin_data chunk r = take_stdin (push codec r.stdin_decoder chunk) r

  unfoldable pub take_pipe : Framing.Result (List Json) × NativeFrameDecoder → Relay → Relay
  unfolding forward_all finish
  take_pipe (Framing.err e, decoder) r = finish 6 (record r { pipe_decoder = decoder })
  take_pipe (Framing.ok frames, decoder) r =
      let (written, sound) = forward_all small frames in
      let next = record r { pipe_decoder = decoder; to_native = r.to_native ++ written } in
      if sound then next else finish 6 next

  unfoldable pub on_pipe_data : Bytes → Relay → Relay
  unfolding take_pipe
  on_pipe_data chunk r = take_pipe (push codec r.pipe_decoder chunk) r

  -- The listeners are taken off when the relay is settled.
  unfoldable pub relay_step : RelayEvent → Relay → Relay
  unfolding on_stdin_data on_pipe_data finish is_some
  relay_step (stdin_data chunk) r = if is_some r.settled then r else on_stdin_data chunk r
  relay_step (pipe_data chunk) r = if is_some r.settled then r else on_pipe_data chunk r
  relay_step stdin_end r = if is_some r.settled then r else finish 0 r
  relay_step pipe_close r = if is_some r.settled then r else finish 0 r

  unfoldable pub relay_run : List RelayEvent → Relay → Relay
  unfolding relay_step
  relay_run [] r = r
  relay_run (e ∷ events) r = relay_run events (relay_step e r)

-- What the host comes to: its exit code, an exception, or that it still waits; with what it wrote.
pub data HostExit : Type 0 where
  exited : ℕ → HostExit
  thrown waits : HostExit

pub record HostRun : Type 0 where
  pub exit : HostExit
  pub to_pipe : Bytes
  pub to_native : Bytes

unfoldable pub exits : ℕ → Bytes → HostRun
exits code to_pipe = record { exit = exited code; to_pipe = to_pipe; to_native = [] }

unfoldable pub relay_exit : Option ℕ → HostExit
relay_exit none = waits
relay_exit (some code) = exited code

-- What the host is given.
pub record HostRunOptions : Type 0 where
  pub argv : List CodeUnits
  pub expected_origin : CodeUnits
  pub load_session : Protocol.Result (Option BridgeSession)
  pub is_pid_alive : Json → Option Bool
  pub connects : Bool
  pub hello_events : List HelloEvent
  pub relay_events : List RelayEvent

module _ (codec : Codec Json) where
  -- The host from an open pipe on.
  unfoldable pub relay_loop : HostRunOptions → Bytes → HostRun
  unfolding relay_run new_relay relay_exit
  relay_loop options hello_frame =
      let r = relay_run codec options.relay_events new_relay in
      record {
        exit = relay_exit r.settled;
        to_pipe = hello_frame ++ r.to_pipe;
        to_native = r.to_native;
      }

  unfoldable pub authenticate_pipe : HostRunOptions → Bytes → HostRun
  unfolding hello_run new_hello relay_loop exits
  authenticate_pipe options hello_frame =
      elim (hello_run codec options.hello_events new_hello).outcome [
        | none ↦ record { exit = waits; to_pipe = hello_frame; to_native = [] }
        | some false ↦ exits 5 hello_frame
        | some true ↦ relay_loop options hello_frame
      ]

  unfoldable pub after_connect : HostRunOptions → BridgeSession → HostRun
  unfolding authenticate_pipe hello_request
  after_connect options session =
      elim (encode_native_message codec small (to_json (hello_request session.nonce_hex))) [
        | Framing.err e ↦ record { exit = thrown; to_pipe = []; to_native = [] }
        | Framing.ok frame ↦ authenticate_pipe options frame
      ]

  unfoldable pub with_session : HostRunOptions → BridgeSession → HostRun
  unfolding after_connect exits
  with_session options session =
      if is_session_stale options.is_pid_alive session
      then exits 3 []
      else if options.connects
      then after_connect options session
      else exits 4 []

  unfoldable pub run_host_inner : (CodeUnits → List ℕ) → HostRunOptions → HostRun
  unfolding with_session exits
  run_host_inner encode options =
      elim (parse_native_host_args encode options.argv options.expected_origin) [
        | Protocol.err e ↦ exits 1 []
        | Protocol.ok parsed ↦ elim options.load_session [
          | Protocol.err e ↦ exits 2 []
          | Protocol.ok none ↦ exits 2 []
          | Protocol.ok (some session) ↦ with_session options session
        ]
      ]
