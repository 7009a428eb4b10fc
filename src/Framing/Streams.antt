-- ===== src/Framing/Streams.antt =====
-- What a decoder makes of a stream that is cut into chunks.
use arc_browser_mcp.Prelude.{
  Option, none, some, is_some, if◌then◌else◌, suc, ◌≡◌, refl, sym, ap, ◌∙◌, List, [], ◌++◌,
  append_assoc, append-nil, arith, length,
}
use arc_browser_mcp.Framing.{
  Bytes, Codec, FrameDirection, FrameError, Result, ok, err, push_loop, push, NativeFrameDecoder,
}
use arc_browser_mcp.Framing.Chunks.{
  prepend, push_loop-append, push_loop-append_err, push_loop-prepend,
}

-- What `push` makes of its loop's outcome.
abbrev with_direction :
    {V : Type 0} → FrameDirection → Result (List V) × Bytes → Result (List V) × NativeFrameDecoder
with_direction d (r, kept) = (r, record { direction = d; pending = kept })

with_direction-prepend :
    {V : Type 0} (d : FrameDirection) (ms : List V) (x : Result (List V) × Bytes)
    → with_direction d (prepend ms x) ≡ prepend ms (with_direction d x)
with_direction-prepend d ms (ok ns, kept) = refl
with_direction-prepend d ms (err e, kept) = refl

abbrev pub error_of : {V : Type 0} → Result (List V) → Option FrameError
error_of (ok ms) = none
error_of (err e) = some e

-- The messages that a push returns; where it throws, it returns none.
abbrev pub returned : {V : Type 0} → Result (List V) → List V
returned (ok ms) = ms
returned (err e) = []

module _ {V : Type 0} (codec : Codec V) (decoder : NativeFrameDecoder) (a b : Bytes) where
  open decoder use {direction, pending}

  -- If the first push does not throw, a push of two chunks as one returns the messages of both, or
  -- throws what the second push throws, and leaves the decoder that the second push leaves.
  pub push-append :
      {ms : List V} {next : NativeFrameDecoder}
      → push codec decoder a ≡ (ok ms, next)
      → push codec decoder (a ++ b) ≡ prepend ms (push codec next b)
  unfolding push
  push-append {ms} {next} h =
      rw (← append_assoc pending a b, more, whole)
        (with_direction-prepend direction ms rest
          ∙ ap
              (λ d. prepend ms (
                with_direction d
                  (push_loop codec (suc (length (next.pending ++ b))) d (next.pending ++ b) [])))
              (λ i. (h i).1.direction))
    where
      run :
          push_loop codec (suc (length (pending ++ a))) direction (pending ++ a) []
          ≡ (ok ms, next.pending)
      run = λ i. ((h i).0, (h i).1.pending)

      rest : Result (List V) × Bytes
      rest = push_loop codec (suc (length (next.pending ++ b))) direction (next.pending ++ b) []

      more :
          push_loop codec (suc (length ((pending ++ a) ++ b))) direction ((pending ++ a) ++ b) []
          ≡ push_loop codec (suc (length (next.pending ++ b))) direction (next.pending ++ b) ms
      more =
          push_loop-append codec direction (suc (length (pending ++ a))) (pending ++ a) b []
            (omega arith) run (suc (length ((pending ++ a) ++ b)))
            (suc (length (next.pending ++ b))) (omega arith) (omega arith)

      whole :
          push_loop codec (suc (length (next.pending ++ b))) direction (next.pending ++ b) ms
          ≡ prepend ms rest
      whole =
          ap (push_loop codec (suc (length (next.pending ++ b))) direction (next.pending ++ b))
            (sym (append-nil ms))
          ∙ push_loop-prepend codec direction (suc (length (next.pending ++ b))) (next.pending ++ b)
              ms []

  -- If the first of two pushes does not throw, a push of both chunks as one ends as the second push
  -- does: it leaves the same decoder and throws the same error or none. If none is thrown it returns
  -- the messages of both pushes, in order; if one is thrown it returns none, so the messages that the
  -- first of two pushes returns are lost.
  pub push-joined :
      {ms : List V} {next : NativeFrameDecoder}
      → push codec decoder a ≡ (ok ms, next)
      → let (one, last) = push codec decoder (a ++ b) in
        let (second, end) = push codec next b in
        (last ≡ end)
        × (error_of one ≡ error_of second)
        × (returned one ≡ (if is_some (error_of second) then [] else ms ++ returned second))
  unfolding is_some
  push-joined {ms} {next} h = by_second (push codec next b) (push-append h)
    where
      by_second :
          (x : Result (List V) × NativeFrameDecoder)
          → push codec decoder (a ++ b) ≡ prepend ms x
          → let (one, last) = push codec decoder (a ++ b) in
            (last ≡ x.1)
            × (error_of one ≡ error_of x.0)
            × (returned one ≡ (if is_some (error_of x.0) then [] else ms ++ returned x.0))
      by_second (ok ns, end) e =
          (ap (λ y. y.1) e, ap (λ y. error_of y.0) e, ap (λ y. returned y.0) e)
      by_second (err f, end) e =
          (ap (λ y. y.1) e, ap (λ y. error_of y.0) e, ap (λ y. returned y.0) e)

  -- A first chunk that makes `push` throw makes it throw the same error with more bytes behind it.
  pub push-append_err :
      {e : FrameError} {next : NativeFrameDecoder}
      → push codec decoder a ≡ (err e, next)
      → (push codec decoder (a ++ b)).0 ≡ err e
  unfolding push
  push-append_err {e} {next} h =
      let d = decoder.direction in
      let p = decoder.pending in
      let run : push_loop codec (suc (length (p ++ a))) d (p ++ a) [] ≡ (err e, next.pending) =
        λ i. ((h i).0, (h i).1.pending) in
      rw (← append_assoc p a b)
        (push_loop-append_err codec d _ (p ++ a) b [] (omega arith) run _ (omega arith))
