-- ===== src/Framing/Tests.antt =====
-- Frames of a small codec: how nativeFraming.ts cuts a stream into messages.
use arc_browser_mcp.Prelude.{
  ◌≡◌, refl, Option, none, some, is_some, [], ◌∷◌, ◌++◌, arith, ◌==◌, if◌then◌else◌,
}
use arc_browser_mcp.Framing.{
  Bytes, Codec, small, large_response, max_for, native_frame_too_large, native_frame_malformed, ok,
  err, write_uint32_le, read_uint32_le, encode_native_message, NativeFrameDecoder, new_decoder,
  scan_body, scan_frame, push_loop, push,
}
use arc_browser_mcp.Framing.Streams.{error_of, returned, push-joined}
use arc_browser_mcp.Framing.RoundTrip.{IsLawful, encode_all, push-encode_all}

-- Values print behind an opening bracket.
bracketed : Bytes → Option Bytes
bracketed [] = none
bracketed (c ∷ v) = if c == 91 then some v else none

abbrev codec : Codec Bytes
codec = record { stringify = λ v. 91 ∷ v; parse = bracketed }

codec-IsLawful : IsLawful codec
unfolding bracketed
codec-IsLawful = record { parse-stringify = λ v. refl; stringify_nonempty = λ v. omega arith }

-- A frame of two values, cut inside the second one.
abbrev first_chunk : Bytes
first_chunk = 2 ∷ 0 ∷ 0 ∷ 0 ∷ 91 ∷ 7 ∷ 2 ∷ 0 ∷ 0 ∷ []

abbrev second_chunk : Bytes
second_chunk = 0 ∷ 91 ∷ 8 ∷ []

abbrev half_read : NativeFrameDecoder
half_read = record { direction = small; pending = 2 ∷ 0 ∷ 0 ∷ [] }

first_chunk-push : push codec (new_decoder small) first_chunk ≡ (ok ((7 ∷ []) ∷ []), half_read)
unfolding push new_decoder push_loop scan_frame scan_body read_uint32_le max_for bracketed
first_chunk-push = refl

push-joined_example :
    let (one, last) = push codec (new_decoder small) (first_chunk ++ second_chunk) in
    let (second, end) = push codec half_read second_chunk in
    (last ≡ end)
    × (error_of one ≡ error_of second)
    × (returned one ≡ (if is_some (error_of second) then [] else (7 ∷ []) ∷ returned second))
push-joined_example =
    push-joined codec (new_decoder small) first_chunk second_chunk first_chunk-push

-- A body that is not JSON is dropped with its header; what follows it is kept.
abbrev bad_chunk : Bytes
bad_chunk = 1 ∷ 0 ∷ 0 ∷ 0 ∷ 5 ∷ 2 ∷ []

bad_chunk-push :
    push codec (new_decoder small) bad_chunk
    ≡ (err native_frame_malformed, record { direction = small; pending = 2 ∷ [] })
unfolding push new_decoder push_loop scan_frame scan_body read_uint32_le max_for bracketed
bad_chunk-push = refl

two_values : encode_all codec small ((7 ∷ []) ∷ (8 ∷ []) ∷ []) ≡ ok (first_chunk ++ second_chunk)
unfolding encode_all encode_native_message write_uint32_le max_for
two_values = refl

push-encode_all_example :
    push codec (new_decoder small) (first_chunk ++ second_chunk)
    ≡ (ok ((7 ∷ []) ∷ (8 ∷ []) ∷ []), new_decoder small)
push-encode_all_example =
    push-encode_all codec codec-IsLawful small ((7 ∷ []) ∷ (8 ∷ []) ∷ []) two_values

one_value : encode_all codec small ((7 ∷ []) ∷ []) ≡ ok (2 ∷ 0 ∷ 0 ∷ 0 ∷ 91 ∷ 7 ∷ [])
unfolding encode_all encode_native_message write_uint32_le max_for
one_value = refl

split_value : encode_native_message codec small (8 ∷ []) ≡ ok ((2 ∷ 0 ∷ 0 ∷ []) ++ second_chunk)
unfolding encode_native_message write_uint32_le max_for
split_value = refl

-- A length past the limit is refused and the pending bytes are dropped.
too_large :
    push codec (new_decoder small) (1 ∷ 0 ∷ 4 ∷ 0 ∷ 9 ∷ [])
    ≡ (err (native_frame_too_large 262145), new_decoder small)
unfolding push new_decoder push_loop scan_frame scan_body read_uint32_le max_for bracketed
too_large = refl

not_too_large : (push codec (new_decoder large_response) (1 ∷ 0 ∷ 4 ∷ 0 ∷ 9 ∷ [])).0 ≡ ok []
unfolding push new_decoder push_loop scan_frame scan_body read_uint32_le max_for bracketed
not_too_large = refl
