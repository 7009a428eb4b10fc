-- ===== src/Interaction/Utf8.antt =====
-- `utf8ByteLength` against the encodings UTF-16 and UTF-8 of the Unicode standard.
use arc_browser_mcp.Prelude.{
  ℕ, ◌+◌, ◌-◌, ◌/◌, ◌%◌, ◌≡◌, refl, sym, ap, ◌∙◌, ◌≤◌, ◌<◌, ◌⊎◌, false, List, [], ◌∷◌, ◌++◌, length,
  length-append, ltb, if◌then◌else◌, All, arith,
}
use arc_browser_mcp.Interaction.{
  CodeUnits, starts_pair, unit_bytes, byte_length_loop, utf8_byte_length,
}

-- A code point that is not a surrogate.
abbrev pub IsScalar : ℕ → Type 0
IsScalar c = (c < 0xd800) ⊎ ((0xe000 ≤ c) × (c < 0x110000))

abbrev pub utf16_of : ℕ → CodeUnits
utf16_of c =
    if ltb c 0x10000
    then c ∷ []
    else (0xd800 + (c - 0x10000) / 0x400) ∷ (0xdc00 + (c - 0x10000) % 0x400) ∷ []

abbrev pub utf8_of : ℕ → List ℕ
utf8_of c =
    if ltb c 0x80
    then c ∷ []
    else if ltb c 0x800
    then (0xc0 + c / 0x40) ∷ (0x80 + c % 0x40) ∷ []
    else if ltb c 0x10000
    then (0xe0 + c / 0x1000) ∷ (0x80 + c / 0x40 % 0x40) ∷ (0x80 + c % 0x40) ∷ []
    else (0xf0 + c / 0x40000)
      ∷ (0x80 + c / 0x1000 % 0x40)
      ∷ (0x80 + c / 0x40 % 0x40)
      ∷ (0x80 + c % 0x40)
      ∷ []

unfoldable pub utf16 : List ℕ → CodeUnits
utf16 [] = []
utf16 (c ∷ cs) = utf16_of c ++ utf16 cs

unfoldable pub utf8 : List ℕ → List ℕ
utf8 [] = []
utf8 (c ∷ cs) = utf8_of c ++ utf8 cs

byte_length-scalar :
    (c : ℕ) (rest : CodeUnits)
    → IsScalar c
    → byte_length_loop false (utf16_of c ++ rest) ≡ length (utf8_of c) + byte_length_loop false rest
unfolding byte_length_loop unit_bytes starts_pair
byte_length-scalar c [] h = ground (arith, h)
byte_length-scalar c (d ∷ rest) h = ground (arith, h)

-- The length that is computed from the UTF-16 code units of a text without lone surrogates is the
-- number of bytes of its UTF-8 encoding.
pub utf8_byte_length-utf16 :
    (text : List ℕ) → All IsScalar text → utf8_byte_length (utf16 text) ≡ length (utf8 text)
unfolding utf8_byte_length utf16 utf8 byte_length_loop
utf8_byte_length-utf16 [] h = refl
utf8_byte_length-utf16 (c ∷ cs) h =
    byte_length-scalar c (utf16 cs) h.0
    ∙ ap (λ n. length (utf8_of c) + n) (utf8_byte_length-utf16 cs h.1)
    ∙ sym (length-append (utf8_of c) (utf8 cs))
