-- ===== src/Framing/Bounds.antt =====
-- What a decoder keeps between pushes: less than one frame, and `end_of_input` reports it.
use arc_browser_mcp.Prelude.{
  ℕ, zero, suc, ◌+◌, ◌*◌, ◌<◌, ◌≡◌, sym, ap, ◌∙◌, inl, inr, List, [], ◌∷◌, ◌++◌, append-nil, arith,
  length, length-append,
}
use arc_browser_mcp.Framing.{
  Bytes, Codec, FrameDirection, max_for, native_frame_incomplete, ok, err, Scan, wait, take_message,
  encode_native_message, scan_body, scan_frame, read_uint32_le, push_loop, push, NativeFrameDecoder,
  new_decoder, end_of_input, native_frame_header_bytes,
}
use arc_browser_mcp.Framing.Chunks.{
  Scan-cases, scan_frame-shrinks, scan_frame-append, scan_frame-throw, push_loop-wait,
  push_loop-throw, push_loop-take,
}
use arc_browser_mcp.Framing.Streams.{push-append}
use arc_browser_mcp.Framing.RoundTrip.{IsLawful, encode_all, scan_frame-encode, push-encode_all}

module _ {V : Type 0} (codec : Codec V) (d : FrameDirection) where
  scan_body-ne-wait : (n : ℕ) (p : Bytes) → scan_body codec n p ≡ wait → ⊥
  unfolding scan_body
  scan_body-ne-wait n p h = ground arith

  -- Bytes that make the loop wait are fewer than a frame of the greatest size.
  scan_frame-wait-lt :
      (p : Bytes) → scan_frame codec d p ≡ wait → length p < native_frame_header_bytes + max_for d
  unfolding scan_frame read_uint32_le
  scan_frame-wait-lt [] h = omega arith
  scan_frame-wait-lt (x ∷ []) h = omega arith
  scan_frame-wait-lt (x ∷ y ∷ []) h = omega arith
  scan_frame-wait-lt (x ∷ y ∷ z ∷ []) h = omega arith
  scan_frame-wait-lt (x ∷ y ∷ z ∷ w ∷ p) h =
      let n : ℕ = x + 256 * y + 65536 * z + 16777216 * w in ground (arith, scan_body-ne-wait n p)

  push_loop-waits :
      (f : ℕ) (p : Bytes) (ms : List V) {ms' : List V} {r : Bytes}
      → length p < f
      → push_loop codec f d p ms ≡ (ok ms', r)
      → scan_frame codec d r ≡ wait
  push_loop-waits zero p ms lt h = absurd (omega arith)
  push_loop-waits (suc f) p ms lt h = elim (Scan-cases (scan_frame codec d p)) [
    | inl w ↦ rw (← ap (λ x. x.1) (sym (push_loop-wait codec d f p ms w) ∙ h)) w
    | inr (inl (_, _, w)) ↦ cc (sym (push_loop-throw codec d f p ms w) ∙ h)
    | inr (inr (v, r, w)) ↦
        let shorter = scan_frame-shrinks codec d p w in
        push_loop-waits f r (ms ++ v ∷ []) (omega arith) (sym (push_loop-take codec d f p ms w) ∙ h)
  ]

module _ {V : Type 0} (codec : Codec V) (decoder : NativeFrameDecoder) where
  open decoder use {direction, pending}

  -- After a push that does not throw, no complete frame is left unread, and the bytes that are kept
  -- are fewer than a header and a body of the direction's limit, however long the chunk was.
  pub push-kept_bounds :
      (chunk : Bytes) {ms : List V} {next : NativeFrameDecoder}
      → push codec decoder chunk ≡ (ok ms, next)
      → (scan_frame codec direction next.pending ≡ wait)
        × (length next.pending < native_frame_header_bytes + max_for direction)
  unfolding push
  push-kept_bounds chunk {ms} {next} h =
      let bytes = pending ++ chunk in
      let waits =
        push_loop-waits codec direction (suc (length bytes)) bytes [] {ms' = ms} {r = next.pending}
          (omega arith) (λ i. ((h i).0, (h i).1.pending)) in
      (waits, scan_frame-wait-lt codec direction next.pending waits)

module _ {V : Type 0} (codec : Codec V) (lawful : IsLawful codec) (d : FrameDirection) where
  -- A proper part of a frame makes the loop wait.
  scan_frame-part :
      (v : V) (part rest : Bytes)
      → encode_native_message codec d v ≡ ok (part ++ rest)
      → 0 < length rest
      → scan_frame codec d part ≡ wait
  scan_frame-part v part rest h pos = elim (Scan-cases (scan_frame codec d part)) [
    | inl w ↦ w
    | inr (inl (_, _, w)) ↦ cc (scan_frame-throw codec d part rest w, whole)
    | inr (inr (u, r, w)) ↦ absurd (
        omega (
          arith,
          length-append r rest,
          ap left (sym (scan_frame-append codec d part rest w) ∙ whole),
        ))
  ]
    where
      whole : scan_frame codec d (part ++ rest) ≡ take_message v []
      whole =
          ap (scan_frame codec d) (sym (append-nil (part ++ rest)))
          ∙ scan_frame-encode codec lawful d v [] h

      left : Scan V → ℕ
      left (take_message v r) = length r
      left _ = 0

  push-part :
      (v : V) (part rest : Bytes)
      → encode_native_message codec d v ≡ ok (part ++ rest)
      → 0 < length rest
      → push codec (new_decoder d) part ≡ (ok [], record { direction = d; pending = part })
  unfolding push new_decoder
  push-part v part rest h pos =
      rw (push_loop-wait codec d (length part) part [] (scan_frame-part v part rest h pos))

  -- With a lawful codec, a stream that stops inside a frame: the messages before it are returned,
  -- and `end_of_input` throws the number of bytes that are left and empties the decoder.
  pub end_of_input-truncated :
      (vs : List V) (v : V) (bytes part rest : Bytes)
      → encode_all codec d vs ≡ ok bytes
      → encode_native_message codec d v ≡ ok (part ++ rest)
      → 0 < length part
      → 0 < length rest
      → let (result, decoder) = push codec (new_decoder d) (bytes ++ part) in
        (result ≡ ok vs)
        × (end_of_input decoder ≡ (err (native_frame_incomplete (length part)), new_decoder d))
  unfolding end_of_input new_decoder
  end_of_input-truncated vs v bytes part rest hs h some_part some_rest =
      rw
        (
          push-append codec (new_decoder d) bytes part (push-encode_all codec lawful d vs hs),
          push-part v part rest h some_rest,
        )
        (ap ok (append-nil vs), ground arith)
