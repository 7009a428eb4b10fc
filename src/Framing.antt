-- ===== src/Framing.antt =====
-- src/bridge/nativeFraming.ts and src/bridge/frameLimits.ts: messages as length-prefixed frames.
-- Bytes are numbers. JSON.stringify and JSON.parse, with the UTF-8 coding around them, are the
-- argument `codec`; `none` of `parse` is the exception that JSON.parse throws.
pub mod Chunks
pub mod Streams
pub mod RoundTrip
pub mod Bounds
mod Tests
use arc_browser_mcp.Prelude.{
  ℕ, zero, suc, ◌+◌, ◌*◌, ◌/◌, ◌%◌, ◌||◌, Option, none, some, List, [], ◌∷◌, ◌++◌, length, take,
  drop, ltb, ◌==◌, if◌then◌else◌,
}

abbrev pub Bytes : Type 0
Bytes = List ℕ

pub record Codec (V : Type 0) : Type 0 where
  pub stringify : V → Bytes
  pub parse : Bytes → Option V

pub data FrameDirection : Type 0 where
  small large_response : FrameDirection

abbrev pub small_frame_max_bytes : ℕ
small_frame_max_bytes = 256 * 1024

abbrev pub large_response_frame_max_bytes : ℕ
large_response_frame_max_bytes = 16 * 1024 * 1024

abbrev pub native_frame_header_bytes : ℕ
native_frame_header_bytes = 4

unfoldable pub max_for : FrameDirection → ℕ
max_for large_response = large_response_frame_max_bytes
max_for small = small_frame_max_bytes

-- The `bytes` detail travels with the error.
pub data FrameError : Type 0 where
  native_frame_too_large : ℕ → FrameError
  native_frame_malformed : FrameError
  native_frame_incomplete : ℕ → FrameError

pub data Result {ℓ} (A : Type ℓ) : Type ℓ where
  ok : A → Result A
  err : FrameError → Result A

-- writeUInt32LE; the lengths that reach it are far below 2^32.
unfoldable pub write_uint32_le : ℕ → Bytes
write_uint32_le n = n % 256 ∷ n / 256 % 256 ∷ n / 65536 % 256 ∷ n / 16777216 % 256 ∷ []

-- readUInt32LE of the first four bytes; `none` when fewer are there.
unfoldable pub read_uint32_le : Bytes → Option ℕ
read_uint32_le (a ∷ b ∷ c ∷ d ∷ rest) = some (a + 256 * b + 65536 * c + 16777216 * d)
read_uint32_le _ = none

module _ {V : Type 0} (codec : Codec V) where
  unfoldable pub encode_native_message : FrameDirection → V → Result Bytes
  encode_native_message direction value =
      let body = codec.stringify value in
      if ltb (max_for direction) (length body)
      then err (native_frame_too_large (length body))
      else ok (write_uint32_le (length body) ++ body)

pub record NativeFrameDecoder : Type 0 where
  pub direction : FrameDirection
  pub pending : Bytes

unfoldable pub new_decoder : FrameDirection → NativeFrameDecoder
new_decoder direction = record { direction = direction; pending = [] }

-- One pass of the loop in `push`: stop and wait, throw with the pending bytes that are kept, or
-- take one message off.
pub data Scan (V : Type 0) : Type 0 where
  wait : Scan V
  throw : FrameError → Bytes → Scan V
  take_message : V → Bytes → Scan V

module _ {V : Type 0} (codec : Codec V) where
  unfoldable pub scan_body : ℕ → Bytes → Scan V
  scan_body n rest = elim (codec.parse (take n rest)) [
    | none ↦ throw native_frame_malformed (drop n rest)
    | some value ↦ take_message value (drop n rest)
  ]

  unfoldable pub scan_frame : FrameDirection → Bytes → Scan V
  scan_frame direction pending = elim (read_uint32_le pending) [
    | none ↦ wait
    | some n ↦
        if n == 0 || ltb (max_for direction) n
        then throw (native_frame_too_large n) []
        else if ltb (length pending) (native_frame_header_bytes + n)
        then wait
        else scan_body n (drop native_frame_header_bytes pending)
  ]

  -- The loop `for (;;)`, with the messages taken so far. Every pass that goes on takes at least one
  -- byte off, so one round of fuel for each pending byte and one more is enough.
  unfoldable pub push_loop : ℕ → FrameDirection → Bytes → List V → Result (List V) × Bytes
  push_loop zero direction pending messages = (ok messages, pending)
  push_loop (suc fuel) direction pending messages = elim (scan_frame direction pending) [
    | wait ↦ (ok messages, pending)
    | throw e kept ↦ (err e, kept)
    | take_message value rest ↦ push_loop fuel direction rest (messages ++ value ∷ [])
  ]

  -- What `push` returns or throws, and the decoder that it leaves.
  unfoldable pub push : NativeFrameDecoder → Bytes → Result (List V) × NativeFrameDecoder
  push decoder chunk =
      let bytes = decoder.pending ++ chunk in
      let (result, kept) = push_loop (suc (length bytes)) decoder.direction bytes [] in
      (result, record decoder { pending = kept })

unfoldable pub end_of_input : NativeFrameDecoder → Result (Unit {0}) × NativeFrameDecoder
end_of_input decoder =
    if ltb 0 (length decoder.pending)
    then (err (native_frame_incomplete (length decoder.pending)), record decoder { pending = [] })
    else (ok tt, decoder)
