-- ===== src/Host/Pieces.antt =====
-- A stream in two pieces: what the decoder gives, and what is forwarded.
use arc_browser_mcp.Prelude.{
  ◌≡◌, refl, sym, ap, ◌∙◌, Bool, true, false, Option, none, some, List, [], ◌∷◌, ◌++◌, append_assoc,
  append-nil, length, length-append, arith,
}
use arc_browser_mcp.Json.{Json}
use arc_browser_mcp.Framing.{
  Bytes, Codec, FrameDirection, NativeFrameDecoder, new_decoder, Result, ok, err, push, push_loop,
  scan_frame, read_uint32_le,
}
use arc_browser_mcp.Framing.Chunks.{prepend}
use arc_browser_mcp.Framing.Streams.{push-append, push-append_err}
use arc_browser_mcp.Host.{forward_frame, forward_all}

module _ (codec : Codec Json) where
  -- The decoder keeps no complete frame.
  abbrev pub IsIdle : NativeFrameDecoder → Type 0
  IsIdle decoder = push codec decoder [] ≡ (ok [], decoder)

  pub new_decoder-IsIdle : (d : FrameDirection) → IsIdle (new_decoder d)
  unfolding new_decoder push push_loop scan_frame read_uint32_le
  new_decoder-IsIdle d = refl

  -- A push that succeeds is one on the first part and one on the rest.
  pub push-split :
      (decoder : NativeFrameDecoder) (a b : Bytes) {vs : List Json} {last : NativeFrameDecoder}
      → push codec decoder (a ++ b) ≡ (ok vs, last)
      → (us : List Json) × (next : NativeFrameDecoder) × (ws : List Json) × (push codec decoder a
          ≡ (ok us, next))
        × (push codec next b ≡ (ok ws, last))
        × (vs ≡ us ++ ws)
  push-split decoder a b {vs} {last} h = first (push codec decoder a) refl
    where
      Split : Type 0
      Split =
          (us : List Json) × (next : NativeFrameDecoder) × (ws : List Json) × (push codec decoder a
            ≡ (ok us, next))
          × (push codec next b ≡ (ok ws, last))
          × (vs ≡ us ++ ws)

      second :
          (us : List Json) (next : NativeFrameDecoder)
          → push codec decoder a ≡ (ok us, next)
          → (y : Result (List Json) × NativeFrameDecoder) → push codec next b ≡ y
          → Split
      second us next e (err f, s) k =
          absurd (cc (push-append codec decoder a b e, ap (prepend us) k, h))
      second us next e (ok ws, s) k =
          let both : (ok vs, last) ≡ (ok (us ++ ws), s) =
            sym h ∙ push-append codec decoder a b e ∙ ap (prepend us) k in
          (us, next, ws, e, cc (k, both), cc (both))

      first : (x : Result (List Json) × NativeFrameDecoder) → push codec decoder a ≡ x → Split
      first (err f, next) e = absurd (cc (push-append_err codec decoder a b e, h))
      first (ok us, next) e = second us next e (push codec next b) refl

  no_more : (us ws : List Json) → us ≡ us ++ ws → ws ≡ []
  no_more us [] e = refl
  no_more us (w ∷ ws) e = absurd (omega (arith, ap length e, length-append us (w ∷ ws)))

  pub push-IsIdle :
      (decoder : NativeFrameDecoder) (a : Bytes) {us : List Json} {next : NativeFrameDecoder}
      → push codec decoder a ≡ (ok us, next)
      → IsIdle next
  push-IsIdle decoder a {us} {next} h =
      let (xs, mid, ws, e, k, s) =
        push-split decoder a [] (ap (push codec decoder) (append-nil a) ∙ h) in
      let same : (ok xs, mid) ≡ (ok us, next) = sym e ∙ h in
      let empty = no_more xs ws (cc (same, s)) in cc (k, same, empty)

  -- Frames that are all forwarded are so in two parts.
  pub forward_all-split :
      (d : FrameDirection) (us ws : List Json)
      → (forward_all codec d (us ++ ws)).1 ≡ true
      → ((forward_all codec d us).1 ≡ true)
        × ((forward_all codec d ws).1 ≡ true)
        × ((forward_all codec d (us ++ ws)).0
            ≡ (forward_all codec d us).0 ++ (forward_all codec d ws).0)
  unfolding forward_all
  forward_all-split d [] ws h = (refl, h, refl)
  forward_all-split d (u ∷ us) ws h = head (forward_frame codec d u) h (forward_all-split d us ws)
    where
      add : Option Bytes → Bytes × Bool → Bytes × Bool
      add o rest = elim o [ none ↦ ([], false) | some encoded ↦ (encoded ++ rest.0, rest.1) ]

      head :
          (o : Option Bytes)
          → (add o (forward_all codec d (us ++ ws))).1 ≡ true
          → ((forward_all codec d (us ++ ws)).1 ≡ true
              → ((forward_all codec d us).1 ≡ true)
                × ((forward_all codec d ws).1 ≡ true)
                × ((forward_all codec d (us ++ ws)).0
                    ≡ (forward_all codec d us).0 ++ (forward_all codec d ws).0))
          → ((add o (forward_all codec d us)).1 ≡ true)
            × ((forward_all codec d ws).1 ≡ true)
            × ((add o (forward_all codec d (us ++ ws))).0
                ≡ (add o (forward_all codec d us)).0 ++ (forward_all codec d ws).0)
      head none k rec = absurd (cc)
      head (some encoded) k rec =
          let (left, right, e) = rec k in
          (
            left,
            right,
            ap (◌++◌ encoded) e
                ∙ sym (append_assoc encoded (forward_all codec d us).0 (forward_all codec d ws).0),
          )
