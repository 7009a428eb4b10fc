-- ===== src/Framing/RoundTrip.antt =====
-- What `encode_native_message` writes, `push` reads back.
use arc_browser_mcp.Prelude.{
  ℕ, zero, suc, ◌+◌, ◌*◌, ◌/◌, ◌%◌, ◌≤◌, ◌<◌, ◌≡◌, refl, ap, some, List, [], ◌∷◌, ◌++◌,
  append_assoc, append-nil, arith, length, length-append, take-append_length, drop-append_length,
}
use arc_browser_mcp.Framing.{
  Bytes, Codec, FrameDirection, small, large_response, max_for, Result, ok, err, wait, take_message,
  write_uint32_le, read_uint32_le, encode_native_message, scan_body, scan_frame, push_loop, push,
  new_decoder,
}
use arc_browser_mcp.Framing.Chunks.{push_loop-take, push_loop-wait}

-- What the code relies on in JSON.stringify and JSON.parse: parsing gives back the value that was
-- printed, and no value prints as an empty text.
pub record IsLawful {V : Type 0} (codec : Codec V) : Type 0 where
  pub parse-stringify : (v : V) → codec.parse (codec.stringify v) ≡ some v
  pub stringify_nonempty : (v : V) → 0 < length (codec.stringify v)

pub max_for-lt : (d : FrameDirection) → max_for d < 4294967296
unfolding max_for
max_for-lt small = omega arith
max_for-lt large_response = omega arith

uint32_parts :
    (n : ℕ)
    → n < 4294967296
    → n % 256 + 256 * (n / 256 % 256) + 65536 * (n / 65536 % 256) + 16777216 * (n / 16777216 % 256)
      ≡ n
uint32_parts n h = omega arith

-- A header that was written reads back.
pub read-write_uint32_le :
    (n : ℕ) (rest : Bytes) → n < 4294967296 → read_uint32_le (write_uint32_le n ++ rest) ≡ some n
unfolding read_uint32_le write_uint32_le
read-write_uint32_le n rest h = ap some (uint32_parts n h)

-- The messages of a sender, one frame after the other.
unfoldable pub encode_all : {V : Type 0} → Codec V → FrameDirection → List V → Result Bytes
encode_all codec d [] = ok []
encode_all codec d (v ∷ vs) = elim (encode_native_message codec d v) [
  | err e ↦ err e
  | ok frame ↦ elim (encode_all codec d vs) [ err e ↦ err e | ok frames ↦ ok (frame ++ frames) ]
]

module _ {V : Type 0} (codec : Codec V) (lawful : IsLawful codec) (d : FrameDirection) where
  scan_body-framed :
      (body rest : Bytes) {v : V}
      → codec.parse body ≡ some v
      → scan_body codec (length body) (body ++ rest) ≡ take_message v rest
  unfolding scan_body
  scan_body-framed body rest h =
      ground (arith, take-append_length body rest, drop-append_length body rest)

  -- A whole frame at the head of the pending bytes is taken off.
  scan_frame-framed :
      (body rest : Bytes) {v : V}
      → 0 < length body
      → length body ≤ max_for d
      → codec.parse body ≡ some v
      → scan_frame codec d (write_uint32_le (length body) ++ (body ++ rest)) ≡ take_message v rest
  unfolding scan_frame write_uint32_le
  scan_frame-framed body rest {v} pos fits h =
      let small_enough = max_for-lt d in
      ground (
        arith,
        read-write_uint32_le (length body) (body ++ rest),
        scan_body-framed body rest {v = v},
        length-append body rest,
      )

  pub encode-eq :
      (v : V) {frame : Bytes}
      → encode_native_message codec d v ≡ ok frame
      → (length (codec.stringify v) ≤ max_for d)
        × (frame ≡ write_uint32_le (length (codec.stringify v)) ++ codec.stringify v)
  unfolding encode_native_message
  encode-eq v h = ground arith

  pub scan_frame-encode :
      (v : V) (rest : Bytes) {frame : Bytes}
      → encode_native_message codec d v ≡ ok frame
      → scan_frame codec d (frame ++ rest) ≡ take_message v rest
  scan_frame-encode v rest {frame} h =
      let body = codec.stringify v in
      let parts = encode-eq v h in
      rw (parts.1, append_assoc (write_uint32_le (length body)) body rest)
        (scan_frame-framed body rest (lawful.stringify_nonempty v) parts.0
          (lawful.parse-stringify v))

  encode_all-cons :
      (v : V) (vs : List V) {bytes : Bytes}
      → encode_all codec d (v ∷ vs) ≡ ok bytes
      → (frame : Bytes) × (frames : Bytes) × (encode_native_message codec d v ≡ ok frame)
        × (encode_all codec d vs ≡ ok frames)
        × (bytes ≡ frame ++ frames)
  unfolding encode_all
  encode_all-cons v vs h = both _ _ h
    where
      both :
          (x y : Result Bytes) {bytes : Bytes}
          → ◌≡◌ {A = Result Bytes}
              (elim x [
                | err e ↦ err e
                | ok frame ↦ elim y [ err e ↦ err e | ok frames ↦ ok (frame ++ frames) ]
              ])
              (ok bytes)
          → (frame : Bytes) × (frames : Bytes) × (x ≡ ok frame)
            × (y ≡ ok frames)
            × (bytes ≡ frame ++ frames)
      both (err e) y h = cc
      both (ok frame) (err e) h = cc
      both (ok frame) (ok frames) h = (frame, frames, refl, refl, cc)

  -- A frame is never empty.
  encode_pos :
      (v : V) {frame : Bytes} → encode_native_message codec d v ≡ ok frame → 0 < length frame
  unfolding write_uint32_le
  encode_pos v h = rw ((encode-eq v h).1) (omega arith)

  scan_frame-nil : scan_frame codec d [] ≡ wait
  unfolding scan_frame read_uint32_le
  scan_frame-nil = refl

  push_loop-encode_all :
      (vs ms : List V) {bytes : Bytes} (f : ℕ)
      → encode_all codec d vs ≡ ok bytes
      → length bytes < f
      → push_loop codec f d bytes ms ≡ (ok (ms ++ vs), [])
  push_loop-encode_all vs ms zero h lt = absurd (omega arith)
  push_loop-encode_all [] ms {bytes} (suc f) h lt =
      rw (nothing h, push_loop-wait codec d f [] ms scan_frame-nil, append-nil ms)
    where
      nothing : {b : Bytes} → encode_all codec d [] ≡ ok b → b ≡ []
      nothing h = unfold encode_all in cc
  push_loop-encode_all (v ∷ vs) ms {bytes} (suc f) h lt =
      let (frame, frames, ev, evs, e) = encode_all-cons v vs h in
      let pos = encode_pos v ev in
      let fits : length frames < f = omega (arith, ap length e, length-append frame frames) in
      rw
        (
          e,
          push_loop-take codec d f (frame ++ frames) ms (scan_frame-encode v frames ev),
          ← append_assoc ms (v ∷ []) vs,
        )
        (push_loop-encode_all vs (ms ++ v ∷ []) f evs fits)

  -- If a lawful codec's messages all encode in a direction, then a new decoder of that direction,
  -- given the frames one after the other, returns exactly these messages in order and keeps nothing.
  pub push-encode_all :
      (vs : List V) {bytes : Bytes}
      → encode_all codec d vs ≡ ok bytes
      → push codec (new_decoder d) bytes ≡ (ok vs, new_decoder d)
  unfolding push new_decoder
  push-encode_all vs {bytes} h =
      rw (push_loop-encode_all vs [] (suc (length bytes)) h (omega arith))
