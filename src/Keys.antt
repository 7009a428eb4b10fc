-- ===== src/Keys.antt =====
-- src/browser/interactionPolicy.ts: `parsePressKey`. Parameters: `lower` and `upper` are toLowerCase
-- and toUpperCase.

pub mod Tables
pub mod Order
mod Tests
use arc_browser_mcp.Prelude.{
  ℕ, zero, suc, ◌+◌, ◌-◌, Bool, true, false, not, ◌&&◌, ◌||◌, Option, none, some, List, [], ◌∷◌,
  ◌++◌, map, leb, ltb, ◌==◌, if◌then◌else◌,
}
use arc_browser_mcp.Text.{codes, text_eq}
use arc_browser_mcp.Interaction.{CodeUnits}
use arc_browser_mcp.Redaction.{trim, has_name}
use arc_browser_mcp.Keys.Tables.{
  supported_keys, inherited_names, Modifier, modifier_aliases, virtual_key_codes,
  function_key_codes, punctuation_key_codes,
}

-- A value that is given for a name.
unfoldable pub lookup {ℓ} : {A : Type ℓ} → CodeUnits → List (CodeUnits × A) → Option A
lookup name [] = none
lookup name ((other, value) ∷ entries) =
    if text_eq other name then some value else lookup name entries

-- What stands for a key: a text, or what an object literal inherits under a name.
pub data KeyValue : Type 0 where
  text : CodeUnits → KeyValue
  inherited : CodeUnits → KeyValue

pub record ResolvedKey : Type 0 where
  pub canonical : KeyValue
  pub key : KeyValue
  pub code : KeyValue
  pub vk : ℕ

unfoldable pub or_zero : Option ℕ → ℕ
or_zero none = 0
or_zero (some n) = n

unfoldable pub supported_key : CodeUnits → ResolvedKey
unfolding or_zero lookup
supported_key canonical =
    if text_eq canonical (codes "Space")
    then record {
      canonical = text canonical;
      key = text (codes " ");
      code = text (codes "Space");
      vk = 32;
    }
    else record {
      canonical = text canonical;
      key = text canonical;
      code = text canonical;
      vk = or_zero (lookup canonical virtual_key_codes);
    }

abbrev ascii_upper : ℕ → ℕ
ascii_upper c = if leb 97 c && leb c 122 then c - 32 else c

-- /^[a-zA-Z]$/ and /^[0-9]$/ on one code unit.
unfoldable pub letter_or_digit : ℕ → Option ResolvedKey
letter_or_digit c =
    if (leb 97 c && leb c 122) || (leb 65 c && leb c 90)
    then some (record {
      canonical = text (c ∷ []);
      key = text (c ∷ []);
      code = text (codes "Key" ++ ascii_upper c ∷ []);
      vk = ascii_upper c;
    })
    else if leb 48 c && leb c 57
    then some (record {
      canonical = text (c ∷ []);
      key = text (c ∷ []);
      code = text (codes "Digit" ++ c ∷ []);
      vk = c;
    })
    else none

unfoldable pub one_unit : CodeUnits → Option ResolvedKey
unfolding letter_or_digit
one_unit (c ∷ []) = letter_or_digit c
one_unit _ = none

module _ (upper : CodeUnits → CodeUnits) where
  unfoldable pub function_key : CodeUnits → Option ResolvedKey
  unfolding lookup
  function_key key_name = elim (lookup (upper key_name) function_key_codes) [
    | none ↦ none
    | some vk ↦ some (record {
      canonical = text (upper key_name);
      key = text (upper key_name);
      code = text (upper key_name);
      vk = vk;
    })
  ]

  unfoldable pub punctuation_or_function : CodeUnits → Option ResolvedKey
  unfolding lookup function_key
  punctuation_or_function key_name = elim (lookup key_name punctuation_key_codes) [
    | some (code, vk) ↦
        some (record { canonical = text key_name; key = text key_name; code = text code; vk = vk })
    | none ↦ function_key key_name
  ]

  unfoldable pub resolve_key_name : CodeUnits → Option ResolvedKey
  unfolding lookup supported_key one_unit punctuation_or_function has_name
  resolve_key_name key_name = elim (lookup key_name supported_keys) [
    | some canonical ↦ some (supported_key canonical)
    | none ↦
        if has_name key_name inherited_names
        then some (record {
          canonical = inherited key_name;
          key = inherited key_name;
          code = inherited key_name;
          vk = 0;
        })
        else elim (one_unit key_name) [
          | some resolved ↦ some resolved
          | none ↦ punctuation_or_function key_name
        ]
  ]

pub record Flags : Type 0 where
  pub control : Bool
  pub shift : Bool
  pub alt : Bool
  pub meta : Bool

pub record ParsedKey : Type 0 where
  pub key : KeyValue
  pub code : KeyValue
  pub windows_virtual_key_code : ℕ
  pub modifiers : ℕ
  pub flags : Flags

-- A modifier may be given once.
unfoldable pub set_flag : Modifier → Flags → Option Flags
set_flag Modifier.control f = if f.control then none else some (record f { control = true })
set_flag Modifier.shift f = if f.shift then none else some (record f { shift = true })
set_flag Modifier.alt f = if f.alt then none else some (record f { alt = true })
set_flag Modifier.meta f = if f.meta then none else some (record f { meta = true })

-- String.prototype.split at "+".
unfoldable pub split_plus : CodeUnits → List CodeUnits
split_plus [] = [] ∷ []
split_plus (c ∷ s) = elim (split_plus s) [
  | [] ↦ (c ∷ []) ∷ []
  | part ∷ parts ↦ if c == 43 then [] ∷ part ∷ parts else (c ∷ part) ∷ parts
]

-- All parts but the last, and the last.
unfoldable pub split_last : List CodeUnits → Option (List CodeUnits × CodeUnits)
split_last [] = none
split_last (part ∷ parts) = elim (split_last parts) [
  | none ↦ some ([], part)
  | some (front, last) ↦ some (part ∷ front, last)
]

unfoldable pub bit : Bool → ℕ → ℕ
bit b n = if b then n else 0

unfoldable pub modifier_bits : Flags → ℕ
unfolding bit
modifier_bits f = bit f.alt 1 + bit f.control 2 + bit f.meta 4 + bit f.shift 8

unfoldable pub has_empty : List CodeUnits → Bool
has_empty [] = false
has_empty (part ∷ parts) = text_eq part [] || has_empty parts

module _ (lower : CodeUnits → CodeUnits) where
  unfoldable pub find_alias : CodeUnits → List (CodeUnits × Modifier) → Option Modifier
  find_alias lowered [] = none
  find_alias lowered ((name, target) ∷ aliases) =
      if text_eq (lower name) lowered then some target else find_alias lowered aliases

  unfoldable pub add_modifier : CodeUnits → Flags → Option Flags
  unfolding find_alias set_flag
  add_modifier modifier f = elim (find_alias (lower modifier) modifier_aliases) [
    | none ↦ none
    | some target ↦ set_flag target f
  ]

  -- The loop over the modifiers.
  unfoldable pub add_modifiers : List CodeUnits → Flags → Option Flags
  unfolding add_modifier
  add_modifiers [] f = some f
  add_modifiers (modifier ∷ modifiers) f = elim (add_modifier modifier f) [
    | none ↦ none
    | some g ↦ add_modifiers modifiers g
  ]

unfoldable pub key_of : ResolvedKey → Flags → ParsedKey
unfolding modifier_bits
key_of resolved f = record {
  key = resolved.key;
  code = resolved.code;
  windows_virtual_key_code = resolved.vk;
  modifiers = modifier_bits f;
  flags = f;
}

abbrev pub no_flags : Flags
no_flags = record { control = false; shift = false; alt = false; meta = false }

unfoldable pub with_flags : ResolvedKey → Option Flags → Option ParsedKey
unfolding key_of
with_flags resolved none = none
with_flags resolved (some f) = some (key_of resolved f)

module _ (lower upper : CodeUnits → CodeUnits) where
  unfoldable pub parse_key : List CodeUnits → CodeUnits → Option ParsedKey
  unfolding with_flags
  parse_key modifiers key_name = elim (resolve_key_name upper key_name) [
    | none ↦ none
    | some resolved ↦ with_flags resolved (add_modifiers lower modifiers no_flags)
  ]

  unfoldable pub parse_parts : List CodeUnits → Option ParsedKey
  unfolding has_empty split_last
  parse_parts parts = if has_empty parts then none else elim (split_last parts) [
    | none ↦ none
    | some (modifiers, key_name) ↦ parse_key modifiers key_name
  ]

  unfoldable pub parse_press_key : CodeUnits → Option ParsedKey
  parse_press_key raw =
      if text_eq raw []
      then none
      else if text_eq raw (codes " ")
      then some (record {
        key = text (codes " ");
        code = text (codes "Space");
        windows_virtual_key_code = 32;
        modifiers = 0;
        flags = no_flags;
      })
      else parse_parts (map trim (split_plus raw))
