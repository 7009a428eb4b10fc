-- ===== src/Tabs/ProjectId/Parsing.antt =====
-- `PROJECT_ID_PATTERN`, `parseProjectId`, `EPOCH_PATTERN` and `generateTabEpoch`.
use arc_browser_mcp.Prelude.{
  ℕ, ◌+◌, ◌-◌, ◌/◌, ◌%◌, ◌≡◌, refl, sym, ap, ◌∙◌, Bool, true, ◌&&◌, ◌||◌, Option, none, some, List,
  [], ◌∷◌, ◌++◌, append-nil, arith, ltb, leb, ◌==◌, if◌then◌else◌, length, take, drop,
  take-append_length, drop-append_length,
}
use arc_browser_mcp.Text.{codes}
use arc_browser_mcp.Tabs.ProjectId.Decimal.{
  Text, digits, span_digits, value_of, is_empty, is_digit, digits-AllDigits, value_of-digits,
  span_digits-append, is_empty-digits,
}

is_hex : ℕ → Bool
is_hex c = is_digit c || leb b'a' c && leb c b'f'

unfoldable pub all_hex : Text → Bool
unfolding is_hex
all_hex [] = true
all_hex (c ∷ s) = is_hex c && all_hex s

-- EPOCH_PATTERN: 32 lower-case hexadecimal digits.
unfoldable pub is_epoch : Text → Bool
unfolding all_hex
is_epoch s = length s == 32 && all_hex s

hex_digit : ℕ → ℕ
hex_digit n = if ltb n 10 then b'0' + n else b'a' + (n - 10)

hex_bytes : List ℕ → Text
unfolding hex_digit
hex_bytes [] = []
hex_bytes (b ∷ bs) = hex_digit (b / 16) ∷ hex_digit (b % 16) ∷ hex_bytes bs

-- The argument is what the random source fills the array of 16 bytes with.
unfoldable pub generate_tab_epoch : List ℕ → Text
unfolding hex_bytes
generate_tab_epoch bytes = hex_bytes bytes

-- The suffix of an id that was given on reuse of a number.
pub suffix_text : Option ℕ → Text
suffix_text none = []
suffix_text (some n) = codes "-r" ++ digits n

-- t-${epoch}-${String(chromeId)}, with -r${String(n)} behind it on reuse.
pub project_id : Text → ℕ → Option ℕ → Text
unfolding suffix_text
project_id epoch chrome_id suffix =
    codes "t-" ++ (epoch ++ (codes "-" ++ (digits chrome_id ++ suffix_text suffix)))

pub record ParsedId : Type 0 where
  pub epoch : Text
  pub chrome_id : ℕ
  pub suffix : Option ℕ

-- `text` behind a given start.
strip_prefix : Text → Text → Option Text
strip_prefix [] s = some s
strip_prefix (c ∷ p) [] = none
strip_prefix (c ∷ p) (d ∷ s) = let rest = strip_prefix p s in if d == c then rest else none

-- `\d+` and what follows.
number_prefix : Text → Option (ℕ × Text)
number_prefix s =
    let (front, rest) = span_digits s in
    if is_empty front then none else some (value_of front, rest)

parse_reuse : Text → Option ℕ
parse_reuse s = elim (number_prefix s) [
  | none ↦ none
  | some (n, rest) ↦ if is_empty rest then some n else none
]

parse_suffix : Text → Text → ℕ → Option ParsedId
unfolding parse_reuse
parse_suffix epoch [] chrome_id =
    some (record { epoch = epoch; chrome_id = chrome_id; suffix = none })
parse_suffix epoch (c ∷ s) chrome_id = elim (strip_prefix (codes "-r") (c ∷ s)) [
  | none ↦ none
  | some rest ↦ elim (parse_reuse rest) [
    | none ↦ none
    | some n ↦ some (record { epoch = epoch; chrome_id = chrome_id; suffix = some n })
  ]
]

parse_number : Text → Text → Option ParsedId
unfolding parse_suffix
parse_number epoch s = elim (number_prefix s) [
  | none ↦ none
  | some (chrome_id, rest) ↦ parse_suffix epoch rest chrome_id
]

parse_epoch : Text → Option ParsedId
unfolding parse_number
parse_epoch s =
    if is_epoch (take 32 s)
    then (elim (strip_prefix (codes "-") (drop 32 s)) [
      | none ↦ none
      | some rest ↦ parse_number (take 32 s) rest
    ])
    else none

unfoldable pub parse_project_id : Text → Option ParsedId
unfolding parse_epoch strip_prefix number_prefix
parse_project_id s = elim (strip_prefix (codes "t-") s) [
  | none ↦ none
  | some rest ↦ parse_epoch rest
]

number_prefix-digits :
    (n : ℕ) (rest : Text)
    → span_digits rest ≡ ([], rest)
    → number_prefix (digits n ++ rest) ≡ some (n, rest)
unfolding number_prefix
number_prefix-digits n rest h = rw (
  span_digits-append (digits n) rest (digits-AllDigits n) h,
  is_empty-digits n,
  value_of-digits n,
)

parse_reuse-digits : (n : ℕ) → parse_reuse (digits n) ≡ some n
unfolding parse_reuse is_empty span_digits
parse_reuse-digits n =
    rw
      (ap number_prefix (sym (append-nil (digits n))) ∙ number_prefix-digits n [] refl, parse_reuse)

parse_suffix-text :
    (epoch : Text) (chrome_id : ℕ) (suffix : Option ℕ)
    → parse_suffix epoch (suffix_text suffix) chrome_id
      ≡ some (record { epoch = epoch; chrome_id = chrome_id; suffix = suffix })
unfolding parse_suffix suffix_text strip_prefix
parse_suffix-text epoch chrome_id none = refl
parse_suffix-text epoch chrome_id (some n) = rw (parse_reuse-digits n, parse_suffix)

suffix_text-span : (suffix : Option ℕ) → span_digits (suffix_text suffix) ≡ ([], suffix_text suffix)
unfolding suffix_text span_digits
suffix_text-span none = refl
suffix_text-span (some n) = refl

is_epoch-length : (e : Text) → is_epoch e ≡ true → length e ≡ 32
unfolding is_epoch
is_epoch-length e h = ground arith

parse_number-text :
    (epoch : Text) (chrome_id : ℕ) (suffix : Option ℕ)
    → parse_number epoch (digits chrome_id ++ suffix_text suffix)
      ≡ some (record { epoch = epoch; chrome_id = chrome_id; suffix = suffix })
unfolding parse_number
parse_number-text epoch chrome_id suffix =
    rw (number_prefix-digits chrome_id (suffix_text suffix) (suffix_text-span suffix), parse_number)
      (parse_suffix-text epoch chrome_id suffix)

parse_epoch-eq :
    (s e rest : Text)
    → take 32 s ≡ e
    → drop 32 s ≡ b'-' ∷ rest
    → is_epoch e ≡ true
    → parse_epoch s ≡ parse_number e rest
unfolding parse_epoch strip_prefix
parse_epoch-eq s e rest front back h = rw (front, h, back) (ap (λ x. parse_number x rest) front)

-- A project id that is rendered from an epoch of 32 hexadecimal digits, a number and an optional
-- reuse counter is parsed into the same three parts.
pub parse-project_id :
    (epoch : Text) (chrome_id : ℕ) (suffix : Option ℕ)
    → is_epoch epoch ≡ true
    → parse_project_id (project_id epoch chrome_id suffix)
      ≡ some (record { epoch = epoch; chrome_id = chrome_id; suffix = suffix })
unfolding parse_project_id project_id
parse-project_id epoch chrome_id suffix h =
    let rest = digits chrome_id ++ suffix_text suffix in
    let n = is_epoch-length epoch h in
    parse_epoch-eq (epoch ++ b'-' ∷ rest) epoch rest
      (ap (λ k. take k (epoch ++ b'-' ∷ rest)) (sym n) ∙ take-append_length epoch (b'-' ∷ rest))
      (ap (λ k. drop k (epoch ++ b'-' ∷ rest)) (sym n) ∙ drop-append_length epoch (b'-' ∷ rest)) h
    ∙ parse_number-text epoch chrome_id suffix
