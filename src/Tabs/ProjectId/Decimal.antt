-- ===== src/Tabs/ProjectId/Decimal.antt =====
-- Decimal numbers in texts: `String(n)`, the matches of `\d+` and `Number.parseInt(text, 10)`.
use arc_browser_mcp.Prelude.{
  ℕ, zero, suc, ◌+◌, ◌-◌, ◌*◌, ◌/◌, ◌%◌, ◌<◌, ◌≡◌, refl, ◌∙◌, Bool, true, false, ◌&&◌, List, [],
  ◌∷◌, ◌++◌, arith, ltb, leb, if◌then◌else◌, All, Bool-cases, inl, inr,
}

abbrev pub Text : Type 0
Text = List ℕ

-- One of 0 to 9.
abbrev pub is_digit : ℕ → Bool
is_digit c = leb b'0' c && leb c b'9'

-- One round of fuel for each digit; n + 1 rounds are enough.
digits_from : ℕ → ℕ → Text
digits_from zero n = []
digits_from (suc fuel) n =
    let front = digits_from fuel (n / 10) in
    if ltb n 10 then (b'0' + n) ∷ [] else front ++ (b'0' + n % 10) ∷ []

-- String(n)
unfoldable pub digits : ℕ → Text
unfolding digits_from
digits n = digits_from (suc n) n

-- The longest start of digits, and what follows it.
unfoldable pub span_digits : Text → Text × Text
span_digits [] = ([], [])
span_digits (c ∷ s) =
    let (front, rest) = span_digits s in if is_digit c then (c ∷ front, rest) else ([], c ∷ s)

-- Number.parseInt of a text of digits
unfoldable pub value_from : ℕ → Text → ℕ
value_from n [] = n
value_from n (c ∷ s) = value_from (10 * n + (c - b'0')) s

unfoldable pub value_of : Text → ℕ
value_of = value_from 0

abbrev pub AllDigits : Text → Type 0
AllDigits = All (λ c. is_digit c ≡ true)

AllDigits-append : (s t : Text) → AllDigits s → AllDigits t → AllDigits (s ++ t)
AllDigits-append [] t h k = k
AllDigits-append (c ∷ s) t h k = (h.0, AllDigits-append s t h.1 k)

value_from-append : (n : ℕ) (s t : Text) → value_from n (s ++ t) ≡ value_from (value_from n s) t
unfolding value_from
value_from-append n [] t = refl
value_from-append n (c ∷ s) t = value_from-append (10 * n + (c - b'0')) s t

digits_from-AllDigits : (f n : ℕ) → AllDigits (digits_from f n)
unfolding digits_from
digits_from-AllDigits zero n = tt
digits_from-AllDigits (suc f) n = elim (Bool-cases (ltb n 10)) [
  | inl small ↦ rw small (ground arith, tt)
  | inr large ↦ rw large (
      AllDigits-append (digits_from f (n / 10)) _ (digits_from-AllDigits f (n / 10))
        (ground arith, tt))
]

digits_from-value : (f n : ℕ) → n < f → value_from 0 (digits_from f n) ≡ n
unfolding digits_from value_from
digits_from-value zero n h = absurd (omega arith)
digits_from-value (suc f) n h = elim (Bool-cases (ltb n 10)) [
  | inl small ↦ rw small (omega arith)
  | inr large ↦ rw large (
      value_from-append 0 (digits_from f (n / 10)) _
      ∙ omega (arith, digits_from-value f (n / 10) (ground arith)))
]

pub digits-AllDigits : (n : ℕ) → AllDigits (digits n)
unfolding digits
digits-AllDigits n = digits_from-AllDigits (suc n) n

-- A number that is printed reads back.
pub value_of-digits : (n : ℕ) → value_of (digits n) ≡ n
unfolding value_of digits
value_of-digits n = digits_from-value (suc n) n (omega arith)

-- The digits end where a text that begins with no digit follows.
pub span_digits-append :
    (s rest : Text)
    → AllDigits s
    → span_digits rest ≡ ([], rest)
    → span_digits (s ++ rest) ≡ (s, rest)
unfolding span_digits
span_digits-append [] rest h e = e
span_digits-append (c ∷ s) rest h e = rw (h.0, span_digits-append s rest h.1 e)

unfoldable pub is_empty : Text → Bool
is_empty [] = true
is_empty (c ∷ s) = false

is_empty-append : (s : Text) (c : ℕ) (t : Text) → is_empty (s ++ c ∷ t) ≡ false
unfolding is_empty
is_empty-append [] c t = refl
is_empty-append (x ∷ s) c t = refl

pub is_empty-digits : (n : ℕ) → is_empty (digits n) ≡ false
unfolding digits digits_from
is_empty-digits n = elim (Bool-cases (ltb n 10)) [
  | inl small ↦ rw small (unfold is_empty in refl)
  | inr large ↦ rw large (is_empty-append (digits_from n (n / 10)) _ [])
]
