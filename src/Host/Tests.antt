-- ===== src/Host/Tests.antt =====
-- A host with a session, whose hello is answered, and frames in pieces on both sides.
use arc_browser_mcp.Prelude.{
  ◌≡◌, refl, ap, inl, Bool, true, Option, none, some, List, [], ◌∷◌, ◌++◌, ◌==◌, if◌then◌else◌,
}
use arc_browser_mcp.Text.{codes, text_eq, is_space}
use arc_browser_mcp.Json.{Json, object, end, get, get_field, is_record, non_empty_string}
use arc_browser_mcp.Framing.{
  Bytes, Codec, small, large_response, NativeFrameDecoder, new_decoder, push, push_loop, scan_frame,
  scan_body, read_uint32_le, write_uint32_le, encode_native_message, max_for,
}
use arc_browser_mcp.Framing
use arc_browser_mcp.Protocol.{
  BridgeMessage, event, response_ok, parse_bridge_message, parse_body, parse_call, parse_response,
  is_version, is_text, is_bool, as_payload, to_json,
}
use arc_browser_mcp.Protocol
use arc_browser_mcp.Session.{is_session_stale}
use arc_browser_mcp.Session.Tests.{session}
use arc_browser_mcp.HostArgs.{parse_native_host_args}
use arc_browser_mcp.Host.{
  hello_id, hello_answer, hello_data, RelayEvent, stdin_data, pipe_data, stdin_end, new_relay,
  forward_frame, forward_all, relay_run, HostRunOptions, exited, run_host_inner,
}
use arc_browser_mcp.Host.Forwarding.{stdin_bytes, pipe_bytes, are_open, relay_run-forwards}
use arc_browser_mcp.Host.Written.{IsSound, relay_run-IsSound}
use arc_browser_mcp.Host.Admission.{
  with_hello, IsAdmitted, run_host_inner-IsAdmitted, authenticate_pipe-drops_rest,
}

abbrev empty : Json
empty = object end

abbrev ping : BridgeMessage
ping = event "id-1" "ping" empty

abbrev accepted : BridgeMessage
accepted = response_ok hello_id empty

-- A codec that knows two values.
abbrev read_value : Bytes → Option Json
read_value [] = none
read_value (c ∷ bytes) = if c == 1 then some (to_json accepted) else some (to_json ping)

abbrev codec : Codec Json
codec = record { stringify = λ v. 2 ∷ []; parse = read_value }

abbrev frame : Bytes
frame = 1 ∷ 0 ∷ 0 ∷ 0 ∷ 2 ∷ []

abbrev events : List RelayEvent
events =
    stdin_data (1 ∷ 0 ∷ [])
    ∷ pipe_data (1 ∷ 0 ∷ 0 ∷ 0 ∷ 2 ∷ 1 ∷ [])
    ∷ stdin_data (0 ∷ 0 ∷ 2 ∷ [])
    ∷ []

abbrev half_read : NativeFrameDecoder
half_read = record { direction = small; pending = 1 ∷ [] }

ping_sound : parse_bridge_message (to_json ping) ≡ Protocol.ok ping
unfolding parse_bridge_message parse_body parse_call is_version is_text as_payload to_json is_record
    get get_field non_empty_string
ping_sound = refl

accepted_sound : parse_bridge_message (to_json accepted) ≡ Protocol.ok accepted
unfolding parse_bridge_message parse_body parse_response is_version is_text is_bool as_payload
    to_json is_record get get_field non_empty_string
accepted_sound = refl

events-open : are_open events ≡ true
unfolding are_open
events-open = refl

stdin-read :
    push codec (new_decoder large_response) (stdin_bytes events)
    ≡ (Framing.ok (to_json ping ∷ []), new_decoder large_response)
unfolding push new_decoder push_loop scan_frame scan_body read_uint32_le max_for stdin_bytes
stdin-read = refl

pipe-read :
    push codec (new_decoder small) (pipe_bytes events) ≡ (Framing.ok (to_json ping ∷ []), half_read)
unfolding push new_decoder push_loop scan_frame scan_body read_uint32_le max_for pipe_bytes
pipe-read = refl

ping-forwarded : forward_all codec small (to_json ping ∷ []) ≡ (frame, true)
unfolding forward_all forward_frame parse_bridge_message parse_body parse_call is_version is_text
    as_payload to_json is_record get get_field non_empty_string encode_native_message max_for
    write_uint32_le
ping-forwarded = refl

ping-forwarded_large : forward_all codec large_response (to_json ping ∷ []) ≡ (frame, true)
unfolding forward_all forward_frame parse_bridge_message parse_body parse_call is_version is_text
    as_payload to_json is_record get get_field non_empty_string encode_native_message max_for
    write_uint32_le
ping-forwarded_large = refl

relay_run-forwards_example : relay_run codec events new_relay ≡ record {
  stdin_decoder = new_decoder large_response;
  pipe_decoder = half_read;
  settled = none;
  to_pipe = (forward_all codec large_response (to_json ping ∷ [])).0;
  to_native = (forward_all codec small (to_json ping ∷ [])).0;
}
relay_run-forwards_example =
    relay_run-forwards codec events (to_json ping ∷ []) (to_json ping ∷ [])
      (new_decoder large_response) half_read events-open stdin-read pipe-read
      (ap (λ (x : Bytes × Bool). x.1) ping-forwarded_large)
      (ap (λ (x : Bytes × Bool). x.1) ping-forwarded)

relay_run-IsSound_example : IsSound codec (relay_run codec events new_relay)
relay_run-IsSound_example = relay_run-IsSound codec events

abbrev options : HostRunOptions
options = record {
  argv = codes "chrome-extension://ab/" ∷ [];
  expected_origin = codes "chrome-extension://ab";
  load_session = Protocol.ok (some session);
  is_pid_alive = λ pid. some true;
  connects = true;
  hello_events = hello_data (1 ∷ 0 ∷ 0 ∷ 0 ∷ 1 ∷ 1 ∷ 0 ∷ 0 ∷ 0 ∷ 2 ∷ 9 ∷ []) ∷ [];
  relay_events = stdin_end ∷ [];
}

-- Behind the answer stand another frame and a part of a third one.
hello-read : push codec (new_decoder small) (1 ∷ 0 ∷ 0 ∷ 0 ∷ 1 ∷ 1 ∷ 0 ∷ 0 ∷ 0 ∷ 2 ∷ 9 ∷ []) ≡ (
  Framing.ok (to_json accepted ∷ to_json ping ∷ []),
  record { direction = small; pending = 9 ∷ [] },
)
unfolding push new_decoder push_loop scan_frame scan_body read_uint32_le max_for
hello-read = refl

accepted-answers : hello_answer accepted ≡ some true
unfolding hello_answer
accepted-answers = refl

bare-read :
    push codec (new_decoder small) (1 ∷ 0 ∷ 0 ∷ 0 ∷ 1 ∷ [])
    ≡ (Framing.ok (to_json accepted ∷ []), record { direction = small; pending = [] })
unfolding push new_decoder push_loop scan_frame scan_body read_uint32_le max_for
bare-read = refl

authenticate_pipe-drops_rest_example :
    let run =
      with_hello codec options frame
        (hello_data (1 ∷ 0 ∷ 0 ∷ 0 ∷ 1 ∷ 1 ∷ 0 ∷ 0 ∷ 0 ∷ 2 ∷ 9 ∷ []) ∷ []) in
    let relay = relay_run codec options.relay_events new_relay in
    (run ≡ with_hello codec options frame (hello_data (1 ∷ 0 ∷ 0 ∷ 0 ∷ 1 ∷ []) ∷ []))
    × (run.to_native ≡ relay.to_native)
    × (run.to_pipe ≡ frame ++ relay.to_pipe)
authenticate_pipe-drops_rest_example =
    authenticate_pipe-drops_rest codec options frame
      (1 ∷ 0 ∷ 0 ∷ 0 ∷ 1 ∷ 1 ∷ 0 ∷ 0 ∷ 0 ∷ 2 ∷ 9 ∷ []) (1 ∷ 0 ∷ 0 ∷ 0 ∷ 1 ∷ []) []
      (to_json accepted) (to_json ping ∷ []) (record { direction = small; pending = 9 ∷ [] })
      (record { direction = small; pending = [] }) accepted hello-read bare-read accepted_sound
      accepted-answers

host-runs : (run_host_inner codec (λ s. s) options).exit ≡ exited 0
unfolding run_host_inner parse_native_host_args text_eq is_space is_session_stale
    encode_native_message max_for write_uint32_le push push_loop scan_frame scan_body read_uint32_le
    new_decoder parse_bridge_message parse_body parse_response is_record to_json is_version is_text
    is_bool as_payload get get_field non_empty_string hello_answer
host-runs = refl

run_host_inner-IsAdmitted_example : IsAdmitted (λ s. s) codec options
run_host_inner-IsAdmitted_example = run_host_inner-IsAdmitted (λ s. s) codec options (inl host-runs)
