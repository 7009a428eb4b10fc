-- ===== src/Interaction.antt =====
-- src/browser/interactionPolicy.ts: the length of a text in UTF-8, and the pieces in which it is
-- typed. A text is the list of its UTF-16 code units.
pub mod Utf8
pub mod Chunking
mod Tests
use arc_browser_mcp.Prelude.{
  ℕ, zero, suc, ◌+◌, Bool, true, false, ◌&&◌, List, [], ◌∷◌, length, take, drop, ltb, leb, ◌==◌,
  if◌then◌else◌,
}

abbrev pub CodeUnits : Type 0
CodeUnits = List ℕ

-- A high surrogate with a low one behind it.
unfoldable pub starts_pair : ℕ → CodeUnits → Bool
starts_pair code [] = false
starts_pair code (next ∷ rest) =
    leb 0xd800 code && leb code 0xdbff && leb 0xdc00 next && leb next 0xdfff

unfoldable pub unit_bytes : ℕ → Bool → ℕ
unit_bytes code pair =
    if ltb code 0x80 then 1 else if ltb code 0x800 then 2 else if pair then 4 else 3

-- The loop of `utf8ByteLength`; `skip` is the second `index += 1`.
unfoldable pub byte_length_loop : Bool → CodeUnits → ℕ
unfolding starts_pair unit_bytes
byte_length_loop skip [] = 0
byte_length_loop true (code ∷ rest) = byte_length_loop false rest
byte_length_loop false (code ∷ rest) =
    unit_bytes code (starts_pair code rest) + byte_length_loop (starts_pair code rest) rest

unfoldable pub utf8_byte_length : CodeUnits → ℕ
unfolding byte_length_loop
utf8_byte_length value = byte_length_loop false value

abbrev pub type_human_chunk_size : ℕ
type_human_chunk_size = 4

-- A size that is not a positive integer counts as the default.
unfoldable pub chunk_size_of : ℕ → ℕ
chunk_size_of zero = type_human_chunk_size
chunk_size_of (suc n) = suc n

-- The loop of `chunkTextForHumanize` on the text that is left; each round takes at least one unit,
-- so a round of fuel for each unit is enough.
unfoldable pub chunk_loop : ℕ → ℕ → CodeUnits → List CodeUnits
chunk_loop zero size text = []
chunk_loop (suc fuel) size [] = []
chunk_loop (suc fuel) size (unit ∷ text) =
    take size (unit ∷ text) ∷ chunk_loop fuel size (drop size (unit ∷ text))

unfoldable pub chunk_text_for_humanize : CodeUnits → ℕ → List CodeUnits
unfolding chunk_loop chunk_size_of
chunk_text_for_humanize text chunk_size = chunk_loop (length text) (chunk_size_of chunk_size) text
