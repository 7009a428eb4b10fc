-- ===== src/Host/Forwarding.antt =====
-- The two directions of the relay, in whatever pieces the streams come.
use arc_browser_mcp.Prelude.{
  ℕ, ◌≡◌, refl, sym, ap, ap₂, ◌∙◌, if◌then◌else◌, Bool, true, false, Option, none, is_some, List,
  [], ◌∷◌, ◌++◌, append_assoc, append-nil,
}
use arc_browser_mcp.Json.{Json}
use arc_browser_mcp.Framing.{
  Bytes, Codec, small, large_response, NativeFrameDecoder, new_decoder, Result, ok, push,
}
use arc_browser_mcp.Host.{
  Relay, RelayEvent, stdin_data, pipe_data, stdin_end, pipe_close, new_relay, forward_all,
  take_stdin, take_pipe, on_stdin_data, on_pipe_data, relay_step, relay_run,
}
use arc_browser_mcp.Host.Pieces.{
  IsIdle, new_decoder-IsIdle, push-split, push-IsIdle, forward_all-split,
}

-- What has come on each side.
unfoldable pub stdin_bytes : List RelayEvent → Bytes
stdin_bytes [] = []
stdin_bytes (stdin_data chunk ∷ events) = chunk ++ stdin_bytes events
stdin_bytes (_ ∷ events) = stdin_bytes events

unfoldable pub pipe_bytes : List RelayEvent → Bytes
pipe_bytes [] = []
pipe_bytes (pipe_data chunk ∷ events) = chunk ++ pipe_bytes events
pipe_bytes (_ ∷ events) = pipe_bytes events

-- Both streams are still open.
unfoldable pub are_open : List RelayEvent → Bool
are_open [] = true
are_open (stdin_data chunk ∷ events) = are_open events
are_open (pipe_data chunk ∷ events) = are_open events
are_open (_ ∷ events) = false

module _ (codec : Codec Json) where
  take_stdin_sound :
      (r : Relay) (vs : List Json) (d : NativeFrameDecoder)
      → (forward_all codec large_response vs).1 ≡ true
      → take_stdin codec (ok vs, d) r ≡ record r {
        stdin_decoder = d;
        to_pipe = r.to_pipe ++ (forward_all codec large_response vs).0;
      }
  unfolding take_stdin
  take_stdin_sound r vs d sound = rw (sound) refl

  on_stdin_data_sound :
      (chunk : Bytes) (r : Relay) {vs : List Json} {d : NativeFrameDecoder}
      → push codec r.stdin_decoder chunk ≡ (ok vs, d)
      → (forward_all codec large_response vs).1 ≡ true
      → on_stdin_data codec chunk r ≡ record r {
        stdin_decoder = d;
        to_pipe = r.to_pipe ++ (forward_all codec large_response vs).0;
      }
  unfolding on_stdin_data
  on_stdin_data_sound chunk r {vs} {d} h sound =
      ap (λ x. take_stdin codec x r) h ∙ take_stdin_sound r vs d sound

  take_pipe_sound :
      (r : Relay) (vs : List Json) (d : NativeFrameDecoder)
      → (forward_all codec small vs).1 ≡ true
      → take_pipe codec (ok vs, d) r
        ≡ record r { pipe_decoder = d; to_native = r.to_native ++ (forward_all codec small vs).0 }
  unfolding take_pipe
  take_pipe_sound r vs d sound = rw (sound) refl

  on_pipe_data_sound :
      (chunk : Bytes) (r : Relay) {vs : List Json} {d : NativeFrameDecoder}
      → push codec r.pipe_decoder chunk ≡ (ok vs, d)
      → (forward_all codec small vs).1 ≡ true
      → on_pipe_data codec chunk r
        ≡ record r { pipe_decoder = d; to_native = r.to_native ++ (forward_all codec small vs).0 }
  unfolding on_pipe_data
  on_pipe_data_sound chunk r {vs} {d} h sound =
      ap (λ x. take_pipe codec x r) h ∙ take_pipe_sound r vs d sound

  -- The relay `r` after the frames `vs` on one side and `ws` on the other.
  abbrev forwarded : Relay → List Json → NativeFrameDecoder → List Json → NativeFrameDecoder → Relay
  forwarded r vs d ws e = record r {
    stdin_decoder = d;
    pipe_decoder = e;
    to_pipe = r.to_pipe ++ (forward_all codec large_response vs).0;
    to_native = r.to_native ++ (forward_all codec small ws).0;
  }

  -- A step on stdin, then the rest.
  step_stdin :
      (chunk : Bytes) (r : Relay) {us : List Json} {next : NativeFrameDecoder}
      → r.settled ≡ none
      → push codec r.stdin_decoder chunk ≡ (ok us, next)
      → (forward_all codec large_response us).1 ≡ true
      → relay_step codec (stdin_data chunk) r ≡ record r {
        stdin_decoder = next;
        to_pipe = r.to_pipe ++ (forward_all codec large_response us).0;
      }
  unfolding relay_step is_some
  step_stdin chunk r free h sound =
      ap (λ (o : Option ℕ). if is_some o then r else on_stdin_data codec chunk r) free
      ∙ on_stdin_data_sound chunk r h sound

  step_pipe :
      (chunk : Bytes) (r : Relay) {us : List Json} {next : NativeFrameDecoder}
      → r.settled ≡ none
      → push codec r.pipe_decoder chunk ≡ (ok us, next)
      → (forward_all codec small us).1 ≡ true
      → relay_step codec (pipe_data chunk) r ≡ record r {
        pipe_decoder = next;
        to_native = r.to_native ++ (forward_all codec small us).0;
      }
  unfolding relay_step is_some
  step_pipe chunk r free h sound =
      ap (λ (o : Option ℕ). if is_some o then r else on_pipe_data codec chunk r) free
      ∙ on_pipe_data_sound chunk r h sound

  forwarded_nothing : (r : Relay) → forwarded r [] r.stdin_decoder [] r.pipe_decoder ≡ r
  unfolding forward_all
  forwarded_nothing r =
      ap₂ (λ a b. record r { to_pipe = a; to_native = b }) (append-nil r.to_pipe)
        (append-nil r.to_native)

  same_push :
      (us vs : List Json) (a b : NativeFrameDecoder)
      → ◌≡◌ {A = Result (List Json) × NativeFrameDecoder} (ok us, a) (ok vs, b)
      → (us ≡ vs) × (a ≡ b)
  same_push us vs a b h = (cc (h), cc (h))

  run_from :
      (events : List RelayEvent) (r : Relay) (vs ws : List Json) (d e : NativeFrameDecoder)
      → are_open events ≡ true
      → r.settled ≡ none
      → IsIdle codec r.stdin_decoder
      → IsIdle codec r.pipe_decoder
      → push codec r.stdin_decoder (stdin_bytes events) ≡ (ok vs, d)
      → push codec r.pipe_decoder (pipe_bytes events) ≡ (ok ws, e)
      → (forward_all codec large_response vs).1 ≡ true
      → (forward_all codec small ws).1 ≡ true
      → relay_run codec events r ≡ forwarded r vs d ws e
  unfolding relay_run are_open stdin_bytes pipe_bytes
  run_from [] r vs ws d e opened free idle_in idle_pipe hv hw sv sw =
      let at_stdin = same_push [] vs r.stdin_decoder d (sym idle_in ∙ hv) in
      let at_pipe = same_push [] ws r.pipe_decoder e (sym idle_pipe ∙ hw) in
      sym (forwarded_nothing r)
      ∙ ap₂ (λ us next. forwarded r us next [] r.pipe_decoder) at_stdin.0 at_stdin.1
      ∙ ap₂ (λ us next. forwarded r vs d us next) at_pipe.0 at_pipe.1
  run_from (stdin_data chunk ∷ events) r vs ws d e opened free idle_in idle_pipe hv hw sv sw =
      let (us, next, rest, first, later, both) =
        push-split codec r.stdin_decoder chunk (stdin_bytes events) hv in
      let (left, right, parts) =
        forward_all-split codec large_response us rest
          (ap (λ frames. (forward_all codec large_response frames).1) (sym both) ∙ sv) in
      let mid = record r {
        stdin_decoder = next;
        to_pipe = r.to_pipe ++ (forward_all codec large_response us).0;
      } in
      ap (relay_run codec events) (step_stdin chunk r free first left)
      ∙ run_from events mid rest ws d e opened free (push-IsIdle codec r.stdin_decoder chunk first)
          idle_pipe later hw right sw
      ∙ ap (λ out. record (forwarded r vs d ws e) { to_pipe = out })
          (append_assoc r.to_pipe (forward_all codec large_response us).0
              (forward_all codec large_response rest).0
            ∙ ap (◌++◌ r.to_pipe)
                (sym parts ∙ ap (λ frames. (forward_all codec large_response frames).0) (sym both)))
  run_from (pipe_data chunk ∷ events) r vs ws d e opened free idle_in idle_pipe hv hw sv sw =
      let (us, next, rest, first, later, both) =
        push-split codec r.pipe_decoder chunk (pipe_bytes events) hw in
      let (left, right, parts) =
        forward_all-split codec small us rest
          (ap (λ frames. (forward_all codec small frames).1) (sym both) ∙ sw) in
      let mid = record r {
        pipe_decoder = next;
        to_native = r.to_native ++ (forward_all codec small us).0;
      } in
      ap (relay_run codec events) (step_pipe chunk r free first left)
      ∙ run_from events mid vs rest d e opened free idle_in
          (push-IsIdle codec r.pipe_decoder chunk first) hv later sv right
      ∙ ap (λ out. record (forwarded r vs d ws e) { to_native = out })
          (append_assoc r.to_native (forward_all codec small us).0 (forward_all codec small rest).0
            ∙ ap (◌++◌ r.to_native)
                (sym parts ∙ ap (λ frames. (forward_all codec small frames).0) (sym both)))
  run_from (stdin_end ∷ events) r vs ws d e opened free idle_in idle_pipe hv hw sv sw = absurd (cc)
  run_from (pipe_close ∷ events) r vs ws d e opened free idle_in idle_pipe hv hw sv sw = absurd (cc)

-- If the bytes that come on each side, taken as one piece, are read as frames that are all accepted
-- and printed again within the limits: the relay, given the bytes in any pieces and the two sides in
-- any order, goes on and has written to each side the frames of the other, printed again.
pub relay_run-forwards :
    (codec : Codec Json) (events : List RelayEvent) (vs ws : List Json) (d e : NativeFrameDecoder)
    → are_open events ≡ true
    → push codec (new_decoder large_response) (stdin_bytes events) ≡ (ok vs, d)
    → push codec (new_decoder small) (pipe_bytes events) ≡ (ok ws, e)
    → (forward_all codec large_response vs).1 ≡ true
    → (forward_all codec small ws).1 ≡ true
    → relay_run codec events new_relay ≡ record {
      stdin_decoder = d;
      pipe_decoder = e;
      settled = none;
      to_pipe = (forward_all codec large_response vs).0;
      to_native = (forward_all codec small ws).0;
    }
unfolding new_relay
relay_run-forwards codec events vs ws d e opened hv hw sv sw =
    run_from codec events new_relay vs ws d e opened refl (new_decoder-IsIdle codec large_response)
      (new_decoder-IsIdle codec small) hv hw sv sw
