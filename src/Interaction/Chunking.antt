-- ===== src/Interaction/Chunking.antt =====
-- The pieces of `chunkTextForHumanize`.
use arc_browser_mcp.Prelude.{
  ℕ, zero, suc, ◌≤◌, ◌≡◌, refl, ap, ◌∙◌, List, [], ◌∷◌, ◌++◌, length, take, drop, length-take,
  length-drop, take-append-drop, All, arith,
}
use arc_browser_mcp.Interaction.{CodeUnits, chunk_size_of, chunk_loop, chunk_text_for_humanize}

unfoldable pub concat : List CodeUnits → CodeUnits
concat [] = []
concat (chunk ∷ chunks) = chunk ++ concat chunks

abbrev pub IsChunk : ℕ → CodeUnits → Type 0
IsChunk size chunk = (1 ≤ length chunk) × (length chunk ≤ size)

chunk_loop-concat :
    (fuel size : ℕ) (text : CodeUnits)
    → 1 ≤ size
    → length text ≤ fuel
    → concat (chunk_loop fuel size text) ≡ text
unfolding chunk_loop concat
chunk_loop-concat zero size [] pos enough = refl
chunk_loop-concat zero size (unit ∷ text) pos enough = absurd (omega (arith, enough))
chunk_loop-concat (suc fuel) size [] pos enough = refl
chunk_loop-concat (suc fuel) size (unit ∷ text) pos enough =
    ap (λ s. take size (unit ∷ text) ++ s)
      (chunk_loop-concat fuel size (drop size (unit ∷ text)) pos
        (omega (arith, length-drop size (unit ∷ text), enough, pos)))
    ∙ take-append-drop size (unit ∷ text)

chunk_loop-IsChunk :
    (fuel size : ℕ) (text : CodeUnits) → 1 ≤ size → All (IsChunk size) (chunk_loop fuel size text)
unfolding chunk_loop
chunk_loop-IsChunk zero size text pos = tt
chunk_loop-IsChunk (suc fuel) size [] pos = tt
chunk_loop-IsChunk (suc fuel) size (unit ∷ text) pos = (
  ground (arith, length-take size (unit ∷ text), pos),
  chunk_loop-IsChunk fuel size (drop size (unit ∷ text)) pos,
)

chunk_size_of-pos : (n : ℕ) → 1 ≤ chunk_size_of n
unfolding chunk_size_of
chunk_size_of-pos zero = omega arith
chunk_size_of-pos (suc n) = omega arith

-- The pieces give the text again, one after the other, and each has at least one code unit and at
-- most the size that counts.
pub chunk_text_for_humanize-concat :
    (text : CodeUnits) (chunk_size : ℕ)
    → (concat (chunk_text_for_humanize text chunk_size) ≡ text)
      × All (IsChunk (chunk_size_of chunk_size)) (chunk_text_for_humanize text chunk_size)
unfolding chunk_text_for_humanize
chunk_text_for_humanize-concat text chunk_size =
    let pos = chunk_size_of-pos chunk_size in
    (
      chunk_loop-concat (length text) (chunk_size_of chunk_size) text pos (omega arith),
      chunk_loop-IsChunk (length text) (chunk_size_of chunk_size) text pos,
    )
