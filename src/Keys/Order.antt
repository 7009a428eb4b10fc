-- ===== src/Keys/Order.antt =====
-- The order of the modifiers of a key expression makes no difference.
use mathlib.Core.List.{Permᴰ}
use arc_browser_mcp.Prelude.{
  ◌≡◌, refl, sym, ap, ap₂, ◌∙◌, inl, inr, false, ◌||◌, Option, none, some, List, [], ◌∷◌, ◌++◌, map,
  length, length-append, if◌then◌else◌, arith, Bool-cases,
}
use arc_browser_mcp.Text.{codes, text_eq, text_eq_iff}
use arc_browser_mcp.Interaction.{CodeUnits}
use arc_browser_mcp.Redaction.{trim}
use arc_browser_mcp.Keys.Tables.{Modifier, modifier_aliases}
use arc_browser_mcp.Keys.{
  Flags, set_flag, split_plus, split_last, has_empty, find_alias, add_modifier, add_modifiers,
  parse_key, with_flags, no_flags, ParsedKey, parse_parts, parse_press_key, resolve_key_name,
}

-- One modifier after another.
abbrev then_set : Modifier → Option Flags → Option Flags
then_set m none = none
then_set m (some f) = set_flag m f

set_flag_comm : (m n : Modifier) (f : Flags) → then_set n (set_flag m f) ≡ then_set m (set_flag n f)
unfolding set_flag
set_flag_comm Modifier.control Modifier.control f = refl
set_flag_comm Modifier.control Modifier.shift f = ground arith
set_flag_comm Modifier.control Modifier.alt f = ground arith
set_flag_comm Modifier.control Modifier.meta f = ground arith
set_flag_comm Modifier.shift Modifier.control f = ground arith
set_flag_comm Modifier.shift Modifier.shift f = refl
set_flag_comm Modifier.shift Modifier.alt f = ground arith
set_flag_comm Modifier.shift Modifier.meta f = ground arith
set_flag_comm Modifier.alt Modifier.control f = ground arith
set_flag_comm Modifier.alt Modifier.shift f = ground arith
set_flag_comm Modifier.alt Modifier.alt f = refl
set_flag_comm Modifier.alt Modifier.meta f = ground arith
set_flag_comm Modifier.meta Modifier.control f = ground arith
set_flag_comm Modifier.meta Modifier.shift f = ground arith
set_flag_comm Modifier.meta Modifier.alt f = ground arith
set_flag_comm Modifier.meta Modifier.meta f = refl

has_empty-append : (xs ys : List CodeUnits) → has_empty (xs ++ ys) ≡ (has_empty xs || has_empty ys)
unfolding has_empty
has_empty-append [] ys = refl
has_empty-append (x ∷ xs) ys = ground (arith, has_empty-append xs ys)

has_empty-perm :
    (f : CodeUnits → CodeUnits) (xs ys : List CodeUnits)
    → Permᴰ xs ys
    → has_empty (map f xs) ≡ has_empty (map f ys)
unfolding has_empty
has_empty-perm f _ _ Permᴰ.nil = refl
has_empty-perm f (x ∷ xs) (y ∷ ys) (Permᴰ.cons e p) =
    ap₂ (λ z b. text_eq (f z) [] || b) e (has_empty-perm f xs ys p)
has_empty-perm f (a ∷ b ∷ xs) (c ∷ d ∷ _) (Permᴰ.swap e g) = rw (sym e, sym g) (ground arith)
has_empty-perm f xs ys (Permᴰ.trans p q) = has_empty-perm f xs _ p ∙ has_empty-perm f _ ys q

split_last-append : (xs : List CodeUnits) (x : CodeUnits) → split_last (xs ++ x ∷ []) ≡ some (xs, x)
unfolding split_last
split_last-append [] x = refl
split_last-append (y ∷ ys) x = rw (split_last-append ys x) refl

map-append :
    (f : CodeUnits → CodeUnits) (xs ys : List CodeUnits) → map f (xs ++ ys) ≡ map f xs ++ map f ys
map-append f [] ys = refl
map-append f (x ∷ xs) ys = ap (◌∷◌ (f x)) (map-append f xs ys)

map-Permᴰ :
    (f : CodeUnits → CodeUnits) (xs ys : List CodeUnits) → Permᴰ xs ys → Permᴰ (map f xs) (map f ys)
map-Permᴰ f _ _ Permᴰ.nil = Permᴰ.nil
map-Permᴰ f (x ∷ xs) (y ∷ ys) (Permᴰ.cons e p) = Permᴰ.cons (ap f e) (map-Permᴰ f xs ys p)
map-Permᴰ f (a ∷ b ∷ xs) (c ∷ d ∷ _) (Permᴰ.swap e g) = Permᴰ.swap (ap f e) (ap f g)
map-Permᴰ f xs ys (Permᴰ.trans p q) = Permᴰ.trans (map-Permᴰ f xs _ p) (map-Permᴰ f _ ys q)

module _ (lower : CodeUnits → CodeUnits) where
  -- What a modifier that is found, or not, does to the flags.
  abbrev set_found : Option Modifier → Option Flags → Option Flags
  set_found none o = none
  set_found (some m) o = then_set m o

  set_found_comm :
      (a b : Option Modifier) (f : Flags)
      → set_found b (set_found a (some f)) ≡ set_found a (set_found b (some f))
  set_found_comm none none f = refl
  set_found_comm none (some n) f = by_flags (set_flag n f)
    where
      by_flags : (o : Option Flags) → then_set n none ≡ none
      by_flags o = refl
  set_found_comm (some m) none f = refl
  set_found_comm (some m) (some n) f = set_flag_comm m n f

  target : CodeUnits → Option Modifier
  target modifier = find_alias lower (lower modifier) modifier_aliases

  add_modifiers_found :
      (a : CodeUnits) (xs : List CodeUnits) (f : Flags)
      → add_modifiers lower (a ∷ xs) f
        ≡ elim (set_found (target a) (some f)) as (λ t. Option Flags) [
          | none ↦ none
          | some g ↦ add_modifiers lower xs g
        ]
  unfolding add_modifiers add_modifier target
  add_modifiers_found a xs f = by_target (find_alias lower (lower a) modifier_aliases)
    where
      by_target :
          (o : Option Modifier)
          → elim (elim o as (λ t. Option Flags) [ none ↦ none | some m ↦ set_flag m f ])
              as (λ t. Option Flags) [ none ↦ none | some g ↦ add_modifiers lower xs g ]
            ≡ elim (set_found o (some f)) as (λ t. Option Flags) [
              | none ↦ none
              | some g ↦ add_modifiers lower xs g
            ]
      by_target none = refl
      by_target (some m) = refl

  -- Adding on from flags that may have failed.
  add_from : List CodeUnits → Option Flags → Option Flags
  add_from xs none = none
  add_from xs (some f) = add_modifiers lower xs f

  add_from_found :
      (a : CodeUnits) (xs : List CodeUnits) (o : Option Flags)
      → add_from (a ∷ xs) o ≡ add_from xs (set_found (target a) o)
  unfolding add_from
  add_from_found a xs none = by_target (target a)
    where
      by_target : (t : Option Modifier) → none ≡ add_from xs (set_found t none)
      by_target none = refl
      by_target (some m) = refl
  add_from_found a xs (some f) =
      add_modifiers_found a xs f ∙ by_flags (set_found (target a) (some f))
    where
      by_flags :
          (o : Option Flags)
          → elim o as (λ t. Option Flags) [ none ↦ none | some g ↦ add_modifiers lower xs g ]
            ≡ add_from xs o
      by_flags none = refl
      by_flags (some g) = refl

  add_two :
      (a b : CodeUnits) (xs : List CodeUnits) (f : Flags)
      → add_from (a ∷ b ∷ xs) (some f) ≡ add_from (b ∷ a ∷ xs) (some f)
  add_two a b xs f =
      add_from_found a (b ∷ xs) (some f)
      ∙ add_from_found b xs (set_found (target a) (some f))
      ∙ ap (add_from xs) (set_found_comm (target a) (target b) f)
      ∙ sym (add_from_found a xs (set_found (target b) (some f)))
      ∙ sym (add_from_found b (a ∷ xs) (some f))

  add_from-perm :
      (xs ys : List CodeUnits) (o : Option Flags) → Permᴰ xs ys → add_from xs o ≡ add_from ys o
  add_from-perm _ _ o Permᴰ.nil = refl
  add_from-perm (x ∷ xs) (y ∷ ys) o (Permᴰ.cons e p) =
      add_from_found x xs o
      ∙ add_from-perm xs ys (set_found (target x) o) p
      ∙ ap (λ z. add_from ys (set_found (target z) o)) e
      ∙ sym (add_from_found y ys o)
  add_from-perm (a ∷ b ∷ xs) (c ∷ d ∷ _) none (Permᴰ.swap e g) = unfold add_from in refl
  add_from-perm (a ∷ b ∷ xs) (c ∷ d ∷ _) (some f) (Permᴰ.swap e g) =
      add_two a b xs f ∙ ap₂ (λ x y. add_from (x ∷ y ∷ xs) (some f)) g e
  add_from-perm xs ys o (Permᴰ.trans p q) = add_from-perm xs _ o p ∙ add_from-perm _ ys o q

  add_modifiers-perm :
      (xs ys : List CodeUnits) (f : Flags)
      → Permᴰ xs ys
      → add_modifiers lower xs f ≡ add_modifiers lower ys f
  unfolding add_from
  add_modifiers-perm xs ys f p = add_from-perm xs ys (some f) p

module _ (lower upper : CodeUnits → CodeUnits) where
  parse_key-perm :
      (xs ys : List CodeUnits) (key : CodeUnits)
      → Permᴰ xs ys
      → parse_key lower upper xs key ≡ parse_key lower upper ys key
  unfolding parse_key
  parse_key-perm xs ys key p =
      ap
        (λ o. elim (resolve_key_name upper key) as (λ t. Option ParsedKey) [
          | none ↦ none
          | some resolved ↦ with_flags resolved o
        ])
        (add_modifiers-perm lower xs ys no_flags p)

  parse_parts-append :
      (xs : List CodeUnits) (key : CodeUnits)
      → parse_parts lower upper (map trim (xs ++ key ∷ [])) ≡ (
          if has_empty (map trim xs) || has_empty (trim key ∷ [])
          then none
          else parse_key lower upper (map trim xs) (trim key))
  unfolding parse_parts
  parse_parts-append xs key =
      rw
        (
          map-append trim xs (key ∷ []),
          has_empty-append (map trim xs) (trim key ∷ []),
          split_last-append (map trim xs) (trim key),
        )
        refl

  parse_parts-perm :
      (xs ys : List CodeUnits) (key : CodeUnits)
      → Permᴰ xs ys
      → parse_parts lower upper (map trim (xs ++ key ∷ []))
        ≡ parse_parts lower upper (map trim (ys ++ key ∷ []))
  parse_parts-perm xs ys key p =
      parse_parts-append xs key
      ∙ ap₂ (λ b o. if b || has_empty (trim key ∷ []) then none else o)
          (has_empty-perm trim xs ys p)
          (parse_key-perm (map trim xs) (map trim ys) (trim key) (map-Permᴰ trim xs ys p))
      ∙ sym (parse_parts-append ys key)

  -- One part only.
  split_alone :
      (x : CodeUnits) (xs : List CodeUnits) (key raw short : CodeUnits)
      → split_plus raw ≡ (x ∷ xs) ++ key ∷ []
      → split_plus short ≡ short ∷ []
      → text_eq raw short ≡ false
  split_alone x xs key raw short h g = elim (Bool-cases (text_eq raw short)) [
    | inr other ↦ other
    | inl same ↦
        let e = ap split_plus (sym ((text_eq_iff raw short).0 same)) ∙ h in
        absurd (
          omega
            (arith, ap (λ (l : List CodeUnits). length l) (sym g ∙ e), length-append xs (key ∷ [])))
  ]

  parse_press_key_parts :
      (raw : CodeUnits)
      → text_eq raw [] ≡ false
      → text_eq raw (codes " ") ≡ false
      → parse_press_key lower upper raw ≡ parse_parts lower upper (map trim (split_plus raw))
  unfolding parse_press_key
  parse_press_key_parts raw h g = rw (h, g) refl

  -- Two key expressions that have the same parts between "+", but for the order of the parts in
  -- front of the last, of which there is at least one, parse alike: both to the same key or neither.
  pub parse_press_key-perm :
      (x y : CodeUnits) (xs ys : List CodeUnits) (key raw raw2 : CodeUnits)
      → split_plus raw ≡ (x ∷ xs) ++ key ∷ []
      → split_plus raw2 ≡ (y ∷ ys) ++ key ∷ []
      → Permᴰ (x ∷ xs) (y ∷ ys)
      → parse_press_key lower upper raw ≡ parse_press_key lower upper raw2
  unfolding split_plus
  parse_press_key-perm x y xs ys key raw raw2 h g p =
      parse_press_key_parts raw (split_alone x xs key raw [] h refl)
        (split_alone x xs key raw (codes " ") h refl)
      ∙ ap (λ parts. parse_parts lower upper (map trim parts)) h
      ∙ parse_parts-perm (x ∷ xs) (y ∷ ys) key p
      ∙ ap (λ parts. parse_parts lower upper (map trim parts)) (sym g)
      ∙ sym (
          parse_press_key_parts raw2 (split_alone y ys key raw2 [] g refl)
            (split_alone y ys key raw2 (codes " ") g refl))
