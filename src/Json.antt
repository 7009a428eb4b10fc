-- ===== src/Json.antt =====
-- JSON values as JavaScript holds them after JSON.parse, and the reads that the bridge makes of
-- them: src/bridge/protocol.ts (`isRecord`, `nonEmptyString`) and its property accesses.
-- A number is a natural number or, for any other, the text that it prints as. The order of an
-- object's properties is that of the list; no code depends on it.
pub mod Reads
use text.Mathlib.Text.{◌==◌ as str_eq}
use Prim.Native.String.{◌++◌ as str_append}
use arc_browser_mcp.Prelude.{
  ℕ, zero, suc, ◌/◌, ◌%◌, ltb, Bool, true, false, Option, none, some, List, [], ◌∷◌, String,
  if◌then◌else◌,
}

mutual
  pub data Json : Type 0 where
    null : Json
    bool : Bool → Json
    number : ℕ → Json
    numeral : String → Json
    string : String → Json
    array : Items → Json
    object : Fields → Json

  pub data Items : Type 0 where
    nil : Items
    cons : Json → Items → Items

  pub data Fields : Type 0 where
    end : Fields
    field : String → Json → Fields → Fields

-- `typeof value === "object" && value !== null`: arrays are records too.
unfoldable pub is_record : Json → Bool
is_record (array _) = true
is_record (object _) = true
is_record _ = false

unfoldable pub get_field : String → Fields → Option Json
get_field k end = none
get_field k (field j v fs) = if str_eq j k then some v else get_field k fs

-- `value[key]` for the keys that the code reads; `none` is undefined. None of these keys is an
-- index of an array or a property that arrays and objects inherit.
unfoldable pub get : Json → String → Option Json
get (object fs) k = get_field k fs
get _ k = none

unfoldable pub non_empty_string : Option Json → Option String
non_empty_string (some (string s)) = if str_eq s "" then none else some s
non_empty_string _ = none

digit_text : ℕ → String
digit_text zero = "0"
digit_text (suc zero) = "1"
digit_text (suc (suc zero)) = "2"
digit_text (suc (suc (suc zero))) = "3"
digit_text (suc (suc (suc (suc zero)))) = "4"
digit_text (suc (suc (suc (suc (suc zero))))) = "5"
digit_text (suc (suc (suc (suc (suc (suc zero)))))) = "6"
digit_text (suc (suc (suc (suc (suc (suc (suc zero))))))) = "7"
digit_text (suc (suc (suc (suc (suc (suc (suc (suc zero)))))))) = "8"
digit_text _ = "9"

-- The decimal text of a number; one round of fuel for each digit, and n + 1 rounds are enough.
decimal : ℕ → ℕ → String
decimal zero n = ""
decimal (suc fuel) n =
    let front = decimal fuel (n / 10) in
    if ltb n 10 then digit_text n else str_append front (digit_text (n % 10))

-- The keys of an array are its indices, printed.
unfoldable pub items_entries : ℕ → Items → List (String × Json)
unfolding decimal digit_text
items_entries i nil = []
items_entries i (cons v vs) = (decimal (suc i) i, v) ∷ items_entries (suc i) vs

unfoldable pub fields_entries : Fields → List (String × Json)
fields_entries end = []
fields_entries (field k v fs) = (k, v) ∷ fields_entries fs

-- Object.entries
unfoldable pub entries : Json → List (String × Json)
entries (object fs) = fields_entries fs
entries (array vs) = items_entries 0 vs
entries _ = []
