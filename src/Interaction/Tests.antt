-- ===== src/Interaction/Tests.antt =====
-- A text of four code points, and its pieces.
use arc_browser_mcp.Prelude.{ℕ, ◌≡◌, refl, inl, inr, List, [], ◌∷◌, length, All, arith}
use arc_browser_mcp.Interaction.{utf8_byte_length, byte_length_loop, starts_pair, unit_bytes}
use arc_browser_mcp.Interaction.Utf8.{IsScalar, utf16, utf8, utf8_byte_length-utf16}

abbrev text : List ℕ
text = 0x61 ∷ 0xe9 ∷ 0x20ac ∷ 0x1f600 ∷ []

text_scalars : All IsScalar text
text_scalars = (
  inl (omega arith),
  (inl (omega arith), (inl (omega arith), (inr (omega arith, omega arith), tt))),
)

utf8_byte_length-utf16_example : utf8_byte_length (utf16 text) ≡ length (utf8 text)
utf8_byte_length-utf16_example = utf8_byte_length-utf16 text text_scalars

ten_bytes : utf8_byte_length (0x61 ∷ 0xe9 ∷ 0x20ac ∷ 0xd83d ∷ 0xde00 ∷ []) ≡ 10
unfolding utf8_byte_length byte_length_loop starts_pair unit_bytes
ten_bytes = refl
