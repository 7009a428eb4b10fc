-- ===== src/Framing/Chunks.antt =====
-- How `push` reads a stream: its fuel suffices, and a stream may be cut anywhere.
use arc_browser_mcp.Prelude.{
  ℕ, zero, suc, ◌+◌, ◌*◌, ◌≤◌, ◌<◌, ◌≡◌, refl, sym, ap, ◌∙◌, ◌⊎◌, inl, inr, List, [], ◌∷◌, ◌++◌,
  append_assoc, arith, length, drop, length-append, length-drop, take-append, drop-append,
}
use arc_browser_mcp.Framing.{
  Bytes, Codec, FrameDirection, FrameError, Result, ok, err, Scan, wait, throw, take_message,
  scan_body, scan_frame, push_loop, read_uint32_le,
}

-- What one pass does, with the equation for it.
pub Scan-cases :
    {V : Type 0} (s : Scan V)
    → (s ≡ wait)
      ⊎ ((e : FrameError) × (k : Bytes) × (s ≡ throw e k))
      ⊎ ((v : V) × (r : Bytes) × (s ≡ take_message v r))
Scan-cases wait = inl refl
Scan-cases (throw e k) = inr (inl (e, k, refl))
Scan-cases (take_message v r) = inr (inr (v, r, refl))

abbrev pub kept : {V : Type 0} → Scan V → Bytes
kept (throw e k) = k
kept wait = []
kept (take_message v r) = []

module _ {V : Type 0} (codec : Codec V) (d : FrameDirection) where
  scan_body-rest :
      (n : ℕ) (p : Bytes) {v : V} {r : Bytes}
      → scan_body codec n p ≡ take_message v r
      → r ≡ drop n p
  unfolding scan_body
  scan_body-rest n p h = ground arith

  -- A message that is taken shortens the pending bytes.
  pub scan_frame-shrinks :
      (p : Bytes) {v : V} {r : Bytes}
      → scan_frame codec d p ≡ take_message v r
      → length r < length p
  unfolding scan_frame read_uint32_le
  scan_frame-shrinks [] h = cc
  scan_frame-shrinks (x ∷ []) h = cc
  scan_frame-shrinks (x ∷ y ∷ []) h = cc
  scan_frame-shrinks (x ∷ y ∷ z ∷ []) h = cc
  scan_frame-shrinks (x ∷ y ∷ z ∷ w ∷ p) {v} {r} h =
      let n : ℕ = x + 256 * y + 65536 * z + 16777216 * w in
      ground (arith, scan_body-rest n p {v = v} {r = r}, length-drop n p)

  -- More bytes behind a complete frame stay where they are.
  scan_body-append :
      (n : ℕ) (p b : Bytes) {v : V} {r : Bytes}
      → n ≤ length p
      → scan_body codec n p ≡ take_message v r
      → scan_body codec n (p ++ b) ≡ take_message v (r ++ b)
  unfolding scan_body
  scan_body-append n p b le h = ground (arith, take-append n p b le, drop-append n p b le)

  pub scan_frame-append :
      (p b : Bytes) {v : V} {r : Bytes}
      → scan_frame codec d p ≡ take_message v r
      → scan_frame codec d (p ++ b) ≡ take_message v (r ++ b)
  unfolding scan_frame read_uint32_le
  scan_frame-append [] b h = cc
  scan_frame-append (x ∷ []) b h = cc
  scan_frame-append (x ∷ y ∷ []) b h = cc
  scan_frame-append (x ∷ y ∷ z ∷ []) b h = cc
  scan_frame-append (x ∷ y ∷ z ∷ w ∷ p) b {v} {r} h =
      let n : ℕ = x + 256 * y + 65536 * z + 16777216 * w in
      ground (arith, scan_body-append n p b {v = v} {r = r}, length-append p b)

  -- The passes of the loop, as equations.
  module _ (f : ℕ) (p : Bytes) (ms : List V) where
    pub push_loop-wait : scan_frame codec d p ≡ wait → push_loop codec (suc f) d p ms ≡ (ok ms, p)
    unfolding push_loop
    push_loop-wait e = rw (e, push_loop)

    pub push_loop-throw :
        {x : FrameError} {k : Bytes}
        → scan_frame codec d p ≡ throw x k
        → push_loop codec (suc f) d p ms ≡ (err x, k)
    unfolding push_loop
    push_loop-throw e = rw (e, push_loop)

    pub push_loop-take :
        {v : V} {r : Bytes}
        → scan_frame codec d p ≡ take_message v r
        → push_loop codec (suc f) d p ms ≡ push_loop codec f d r (ms ++ v ∷ [])
    unfolding push_loop
    push_loop-take e = rw (e, push_loop)

  -- Any two amounts of fuel above the number of pending bytes give the same result.
  pub push_loop-fuel :
      (f g : ℕ) (p : Bytes) (ms : List V)
      → length p < f
      → length p < g
      → push_loop codec f d p ms ≡ push_loop codec g d p ms
  push_loop-fuel zero g p ms hf hg = absurd (omega arith)
  push_loop-fuel (suc f) zero p ms hf hg = absurd (omega arith)
  push_loop-fuel (suc f) (suc g) p ms hf hg = elim (Scan-cases (scan_frame codec d p)) [
    | inl e ↦ push_loop-wait f p ms e ∙ sym (push_loop-wait g p ms e)
    | inr (inl (_, _, e)) ↦ push_loop-throw f p ms e ∙ sym (push_loop-throw g p ms e)
    | inr (inr (v, r, e)) ↦
        let lt = scan_frame-shrinks p e in
        push_loop-take f p ms e
        ∙ push_loop-fuel f g r (ms ++ v ∷ []) (omega arith) (omega arith)
        ∙ sym (push_loop-take g p ms e)
  ]

  -- A run that ends well can be cut off and taken up again with more bytes.
  pub push_loop-append :
      (f : ℕ) (p b : Bytes) (ms : List V) {ms' : List V} {r : Bytes}
      → length p < f
      → push_loop codec f d p ms ≡ (ok ms', r)
      → (g h : ℕ) → length (p ++ b) < g
      → length (r ++ b) < h
      → push_loop codec g d (p ++ b) ms ≡ push_loop codec h d (r ++ b) ms'
  push_loop-append zero p b ms hf e g h hg hh = absurd (omega arith)
  push_loop-append (suc f) p b ms hf e zero h hg hh = absurd (omega arith)
  push_loop-append (suc f) p b ms {ms'} {r} hf e (suc g) h hg hh =
      elim (Scan-cases (scan_frame codec d p)) [
        | inl w ↦
            let same = sym (push_loop-wait f p ms w) ∙ e in
            let fits : length (p ++ b) < h = rw (ap (λ x. x.1) same) hh in
            cc (push_loop-fuel (suc g) h (p ++ b) ms hg fits)
        | inr (inl (_, _, w)) ↦ cc (sym (push_loop-throw f p ms w) ∙ e)
        | inr (inr (v, s, w)) ↦
            let lt = scan_frame-shrinks p w in
            rw (push_loop-take g (p ++ b) ms (scan_frame-append p b w)) (
              push_loop-append f s b (ms ++ v ∷ []) (omega arith)
                (sym (push_loop-take f p ms w) ∙ e) g h
                (omega (arith, length-append p b, length-append s b)) hh)
      ]

  -- A run that throws throws the same with more bytes behind.
  scan_body-throw :
      (n : ℕ) (p b : Bytes) {x : FrameError} {k : Bytes}
      → n ≤ length p
      → scan_body codec n p ≡ throw x k
      → scan_body codec n (p ++ b) ≡ throw x (kept (scan_body codec n (p ++ b)))
  unfolding scan_body
  scan_body-throw n p b le h = ground (arith, take-append n p b le, drop-append n p b le)

  pub scan_frame-throw :
      (p b : Bytes) {x : FrameError} {k : Bytes}
      → scan_frame codec d p ≡ throw x k
      → scan_frame codec d (p ++ b) ≡ throw x (kept (scan_frame codec d (p ++ b)))
  unfolding scan_frame read_uint32_le
  scan_frame-throw [] b h = cc
  scan_frame-throw (x ∷ []) b h = cc
  scan_frame-throw (x ∷ y ∷ []) b h = cc
  scan_frame-throw (x ∷ y ∷ z ∷ []) b h = cc
  scan_frame-throw (x ∷ y ∷ z ∷ w ∷ p) b {x = e} {k} h =
      let n : ℕ = x + 256 * y + 65536 * z + 16777216 * w in
      ground (arith, scan_body-throw n p b {x = e} {k = k}, length-append p b)

  pub push_loop-append_err :
      (f : ℕ) (p b : Bytes) (ms : List V) {x : FrameError} {k : Bytes}
      → length p < f
      → push_loop codec f d p ms ≡ (err x, k)
      → (g : ℕ) → length (p ++ b) < g
      → (push_loop codec g d (p ++ b) ms).0 ≡ err x
  push_loop-append_err zero p b ms hf e g hg = absurd (omega arith)
  push_loop-append_err (suc f) p b ms hf e zero hg = absurd (omega arith)
  push_loop-append_err (suc f) p b ms hf e (suc g) hg = elim (Scan-cases (scan_frame codec d p)) [
    | inl w ↦ cc (sym (push_loop-wait f p ms w) ∙ e)
    | inr (inl (y, j, w)) ↦
        let again = push_loop-throw g (p ++ b) ms (scan_frame-throw p b w) in
        ap (λ r. r.0) again ∙ cc (sym (push_loop-throw f p ms w) ∙ e)
    | inr (inr (v, s, w)) ↦
        let lt = scan_frame-shrinks p w in
        rw (push_loop-take g (p ++ b) ms (scan_frame-append p b w)) (
          push_loop-append_err f s b (ms ++ v ∷ []) (omega arith)
            (sym (push_loop-take f p ms w) ∙ e) g
            (omega (arith, length-append p b, length-append s b)))
  ]

-- A result of the loop that had these messages already: where it throws, it returns none.
abbrev pub prepend {ℓ} :
    {V : Type 0} {S : Type ℓ} → List V → Result (List V) × S → Result (List V) × S
prepend ms (ok ns, s) = (ok (ms ++ ns), s)
prepend ms (err e, s) = (err e, s)

module _ {V : Type 0} (codec : Codec V) (d : FrameDirection) where
  -- The messages taken before the loop started stand before its own.
  pub push_loop-prepend :
      (f : ℕ) (p : Bytes) (ms ns : List V)
      → push_loop codec f d p (ms ++ ns) ≡ prepend ms (push_loop codec f d p ns)
  unfolding push_loop
  push_loop-prepend zero p ms ns = refl
  push_loop-prepend (suc f) p ms ns = elim (Scan-cases (scan_frame codec d p)) [
    | inl w ↦ rw (w, push_loop)
    | inr (inl (_, _, w)) ↦ rw (w, push_loop)
    | inr (inr (v, r, w)) ↦
        rw (w, push_loop, append_assoc ms ns (v ∷ [])) (push_loop-prepend f r ms (ns ++ v ∷ []))
  ]
