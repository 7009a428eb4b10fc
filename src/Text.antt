-- ===== src/Text.antt =====
-- What the code uses of JavaScript's strings: `trim`, and a text as the list of its code units.
use Prim.Native.Char.{code}
use Prim.Native.String.{String}
use arc_browser_mcp.Prelude.{
  ℕ, ◌≡◌, ◌↔◌, arith, Bool, true, false, ◌&&◌, ◌||◌, List, [], ◌∷◌, leb, ◌==◌,
}

-- The code units of a text, where all its characters are below U+10000; the texts of the source
-- are ASCII.
abbrev pub codes : String → List ℕ
codes (String.◌∷◌ unit rest) = code unit ∷ codes rest
codes String.[] = []

-- The white space and line ends that `trim` removes.
unfoldable pub is_space : ℕ → Bool
is_space c =
    (leb 9 c && leb c 13)
    || c == 32
    || c == 160
    || c == 0x1680
    || (leb 0x2000 c && leb c 0x200a)
    || c == 0x2028
    || c == 0x2029
    || c == 0x202f
    || c == 0x205f
    || c == 0x3000
    || c == 0xfeff

all_space : List ℕ → Bool
unfolding is_space
all_space [] = true
all_space (c ∷ s) = is_space c && all_space s

-- `text.trim() === ""`
unfoldable pub is_blank : String → Bool
unfolding all_space
is_blank s = all_space (codes s)

-- The `===` of two texts given by their code units.
unfoldable pub text_eq : List ℕ → List ℕ → Bool
text_eq [] [] = true
text_eq (c ∷ s) (d ∷ t) = c == d && text_eq s t
text_eq _ _ = false

pub text_eq_iff : (s t : List ℕ) → (text_eq s t ≡ true) ↔ (s ≡ t)
unfolding text_eq
text_eq_iff [] [] = ground arith
text_eq_iff [] (d ∷ t) = ground arith
text_eq_iff (c ∷ s) [] = ground arith
text_eq_iff (c ∷ s) (d ∷ t) = ground (arith, text_eq_iff s t)
