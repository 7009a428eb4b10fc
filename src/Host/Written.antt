-- ===== src/Host/Written.antt =====
-- What the relay writes, whatever comes.
use arc_browser_mcp.Prelude.{
  ℕ, ◌≡◌, refl, sym, subst, ◌⊎◌, inl, inr, Bool, false, Option, none, some, is_some, List, [], ◌∷◌,
  ◌++◌, append_assoc, choose,
}
use arc_browser_mcp.Json.{Json}
use arc_browser_mcp.Framing.{
  Bytes, Codec, FrameDirection, small, large_response, NativeFrameDecoder, encode_native_message,
  push,
}
use arc_browser_mcp.Framing
use arc_browser_mcp.Protocol.{BridgeMessage, parse_bridge_message, to_json}
use arc_browser_mcp.Protocol
use arc_browser_mcp.Protocol.Gate.{IsWellFormed}
use arc_browser_mcp.Protocol.Sound.{parse_sound}
use arc_browser_mcp.Host.{
  Relay, RelayEvent, stdin_data, pipe_data, stdin_end, pipe_close, new_relay, finish, forward_frame,
  forward_all, take_stdin, take_pipe, on_stdin_data, on_pipe_data, relay_step, relay_run,
}

-- Whole frames of well-formed messages within the limit of a direction.
pub data IsFrames (codec : Codec Json) (d : FrameDirection) : Bytes → Type 0 where
  no_frames : IsFrames codec d []
  one_more :
      (m : BridgeMessage) (frame rest : Bytes)
      → IsWellFormed m
      → encode_native_message codec d (to_json m) ≡ Framing.ok frame
      → IsFrames codec d rest
      → IsFrames codec d (frame ++ rest)

abbrev pub IsExitCode : Option ℕ → Type 0
IsExitCode none = Unit
IsExitCode (some code) = (code ≡ 0) ⊎ (code ≡ 6)

abbrev pub IsSound : Codec Json → Relay → Type 0
IsSound codec r =
    IsFrames codec large_response r.to_pipe
    × IsFrames codec small r.to_native
    × IsExitCode r.settled

module _ (codec : Codec Json) where
  append-IsFrames :
      (d : FrameDirection) (a b : Bytes)
      → IsFrames codec d a
      → IsFrames codec d b
      → IsFrames codec d (a ++ b)
  append-IsFrames d _ b no_frames more = more
  append-IsFrames d _ b (one_more m frame rest well e frames) more =
      subst (IsFrames codec d) (sym (append_assoc frame rest b))
        (one_more m frame (rest ++ b) well e (append-IsFrames d rest b frames more))

  -- What is forwarded is the frame of an accepted message.
  forward_frame-ok :
      (d : FrameDirection) (value : Json) (frame : Bytes)
      → forward_frame codec d value ≡ some frame
      → (m : BridgeMessage) × IsWellFormed m
        × (encode_native_message codec d (to_json m) ≡ Framing.ok frame)
  unfolding forward_frame
  forward_frame-ok d value frame h = parsed (parse_bridge_message value) refl h
    where
      encoded : Framing.Result Bytes → Option Bytes
      encoded y = elim y [ Framing.err e ↦ none | Framing.ok bytes ↦ some bytes ]

      written :
          (m : BridgeMessage)
          → IsWellFormed m
          → (y : Framing.Result Bytes) → encode_native_message codec d (to_json m) ≡ y
          → encoded y ≡ some frame
          → (m : BridgeMessage) × IsWellFormed m
            × (encode_native_message codec d (to_json m) ≡ Framing.ok frame)
      written m well (Framing.err e) k same = absurd (cc)
      written m well (Framing.ok bytes) k same = (m, well, cc)

      parsed :
          (x : Protocol.Result BridgeMessage)
          → parse_bridge_message value ≡ x
          → (elim x [
            | Protocol.err e ↦ none
            | Protocol.ok message ↦ encoded (encode_native_message codec d (to_json message))
          ])
            ≡ some frame
          → (m : BridgeMessage) × IsWellFormed m
            × (encode_native_message codec d (to_json m) ≡ Framing.ok frame)
      parsed (Protocol.err e) k same = absurd (cc)
      parsed (Protocol.ok m) k same =
          written m (parse_sound value k).0 (encode_native_message codec d (to_json m)) refl same

  forward_all-IsFrames :
      (d : FrameDirection) (values : List Json) → IsFrames codec d (forward_all codec d values).0
  unfolding forward_all
  forward_all-IsFrames d [] = no_frames
  forward_all-IsFrames d (value ∷ values) =
      head (forward_frame codec d value) refl (forward_all-IsFrames d values)
    where
      head :
          (o : Option Bytes)
          → forward_frame codec d value ≡ o
          → IsFrames codec d (forward_all codec d values).0
          → IsFrames codec d
              (elim o as (λ x. Bytes × Bool) [
                | none ↦ ([], false)
                | some encoded ↦
                    (encoded ++ (forward_all codec d values).0, (forward_all codec d values).1)
              ]).0
      head none e rest = no_frames
      head (some frame) e rest =
          let (m, well, same) = forward_frame-ok d value frame e in
          one_more m frame (forward_all codec d values).0 well same rest

  finish-IsSound :
      (code : ℕ) (r : Relay)
      → (code ≡ 0) ⊎ (code ≡ 6)
      → IsSound codec r
      → IsSound codec (finish code r)
  unfolding finish
  finish-IsSound code r is_code (pipe, native, exit) = settled r.settled refl
    where
      settled :
          (o : Option ℕ)
          → r.settled ≡ o
          → IsSound codec
              (elim o as (λ x. Relay) [ none ↦ record r { settled = some code } | some before ↦ r ])
      settled none e = (pipe, native, is_code)
      settled (some before) e = (pipe, native, exit)

  take_stdin-IsSound :
      (x : Framing.Result (List Json) × NativeFrameDecoder) (r : Relay)
      → IsSound codec r
      → IsSound codec (take_stdin codec x r)
  unfolding take_stdin
  take_stdin-IsSound (Framing.err e, d) r h =
      finish-IsSound 6 (record r { stdin_decoder = d }) (inr refl) h
  take_stdin-IsSound (Framing.ok values, d) r (pipe, native, exit) =
      let (written, sound) = forward_all codec large_response values in
      let next = record r { stdin_decoder = d; to_pipe = r.to_pipe ++ written } in
      let more : IsSound codec next = (
        append-IsFrames large_response r.to_pipe written pipe
            (forward_all-IsFrames large_response values),
        native,
        exit,
      ) in
      choose (IsSound codec) next (finish 6 next) sound (λ fine. more)
        (λ failed. finish-IsSound 6 next (inr refl) more)

  take_pipe-IsSound :
      (x : Framing.Result (List Json) × NativeFrameDecoder) (r : Relay)
      → IsSound codec r
      → IsSound codec (take_pipe codec x r)
  unfolding take_pipe
  take_pipe-IsSound (Framing.err e, d) r h =
      finish-IsSound 6 (record r { pipe_decoder = d }) (inr refl) h
  take_pipe-IsSound (Framing.ok values, d) r (pipe, native, exit) =
      let (written, sound) = forward_all codec small values in
      let next = record r { pipe_decoder = d; to_native = r.to_native ++ written } in
      let more : IsSound codec next = (
        pipe,
        append-IsFrames small r.to_native written native (forward_all-IsFrames small values),
        exit,
      ) in
      choose (IsSound codec) next (finish 6 next) sound (λ fine. more)
        (λ failed. finish-IsSound 6 next (inr refl) more)

  relay_step-IsSound :
      (e : RelayEvent) (r : Relay) → IsSound codec r → IsSound codec (relay_step codec e r)
  unfolding relay_step on_stdin_data on_pipe_data
  relay_step-IsSound (stdin_data chunk) r h =
      choose (IsSound codec) r (on_stdin_data codec chunk r) (is_some r.settled) (λ settled. h)
        (λ free. take_stdin-IsSound (push codec r.stdin_decoder chunk) r h)
  relay_step-IsSound (pipe_data chunk) r h =
      choose (IsSound codec) r (on_pipe_data codec chunk r) (is_some r.settled) (λ settled. h)
        (λ free. take_pipe-IsSound (push codec r.pipe_decoder chunk) r h)
  relay_step-IsSound stdin_end r h =
      choose (IsSound codec) r (finish 0 r) (is_some r.settled) (λ settled. h)
        (λ free. finish-IsSound 0 r (inl refl) h)
  relay_step-IsSound pipe_close r h =
      choose (IsSound codec) r (finish 0 r) (is_some r.settled) (λ settled. h)
        (λ free. finish-IsSound 0 r (inl refl) h)

  run_from-IsSound :
      (events : List RelayEvent) (r : Relay)
      → IsSound codec r
      → IsSound codec (relay_run codec events r)
  unfolding relay_run
  run_from-IsSound [] r h = h
  run_from-IsSound (e ∷ events) r h =
      run_from-IsSound events (relay_step codec e r) (relay_step-IsSound e r h)

-- Whatever comes on the two sides, in whatever pieces: each side is only ever written whole frames of
-- well-formed messages, the browser's within the small limit and the pipe's within the large one; and
-- the relay ends with code 0 or 6.
pub relay_run-IsSound :
    (codec : Codec Json) (events : List RelayEvent)
    → IsSound codec (relay_run codec events new_relay)
unfolding new_relay
relay_run-IsSound codec events = run_from-IsSound codec events new_relay (no_frames, no_frames, tt)
