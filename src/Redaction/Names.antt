-- ===== src/Redaction/Names.antt =====
-- The names that `isSensitiveHeaderName` finds, described without its code.
use arc_browser_mcp.Prelude.{
  ℕ, ◌<◌, ◌≡◌, refl, sym, ap, subst, ◌∙◌, ◌⊎◌, inl, inr, Bool, true, false, ◌&&◌, [], ◌∷◌, ◌++◌,
  map, append-nil, ltb, if◌then◌else◌, All, arith,
}
use arc_browser_mcp.Text.{codes, is_space, text_eq}
use arc_browser_mcp.Interaction.{CodeUnits}
use arc_browser_mcp.Redaction.{
  ascii_lower, skip_spaces, drop_spaces, trim, has_name, is_sensitive_header_name,
}

abbrev pub IsBlank : CodeUnits → Type 0
IsBlank = All (λ c. is_space c ≡ true)

-- One of the names of HTTP's credential headers, and the two of API keys.
abbrev pub IsCredentialName : CodeUnits → Type 0
IsCredentialName name =
    (name ≡ codes "authorization")
    ⊎ (name ≡ codes "cookie")
    ⊎ (name ≡ codes "set-cookie")
    ⊎ (name ≡ codes "proxy-authorization")
    ⊎ (name ≡ codes "x-api-key")
    ⊎ (name ≡ codes "x-auth-token")

-- Such a name in any case, with white space around it.
pub record IsSecret (name : CodeUnits) : Type 0 where
  pub front : CodeUnits
  pub core : CodeUnits
  pub back : CodeUnits
  pub split : name ≡ front ++ (core ++ back)
  pub front_blank : IsBlank front
  pub back_blank : IsBlank back
  pub is_name : IsCredentialName (map ascii_lower core)

abbrev pub IsPlain : CodeUnits → Type 0
IsPlain = All (λ c. (is_space c ≡ false) × (c < 128))

-- What `lower` does on ASCII.
abbrev pub LowersAscii : (CodeUnits → CodeUnits) → Type 0
LowersAscii lower = (s : CodeUnits) → All (λ c. c < 128) s → lower s ≡ map ascii_lower s

skip_spaces-append :
    (front s : CodeUnits) → IsBlank front → skip_spaces (front ++ s) ≡ skip_spaces s
unfolding skip_spaces
skip_spaces-append [] s blank = refl
skip_spaces-append (c ∷ front) s (h, blank) =
    ap (λ b. if b then skip_spaces (front ++ s) else c ∷ (front ++ s)) h
    ∙ skip_spaces-append front s blank

skip_spaces_plain : (c : ℕ) (s : CodeUnits) → is_space c ≡ false → skip_spaces (c ∷ s) ≡ c ∷ s
unfolding skip_spaces
skip_spaces_plain c s h = ap (λ b. if b then skip_spaces s else c ∷ s) h

drop_spaces_blank : (s : CodeUnits) → IsBlank s → drop_spaces s ≡ []
unfolding drop_spaces
drop_spaces_blank [] blank = refl
drop_spaces_blank (c ∷ s) (h, blank) = rw (drop_spaces_blank s blank, h) refl

drop_spaces-append : (s back : CodeUnits) → IsPlain s → IsBlank back → drop_spaces (s ++ back) ≡ s
unfolding drop_spaces
drop_spaces-append [] back plain blank = drop_spaces_blank back blank
drop_spaces-append (c ∷ []) back ((h, _), plain) blank = rw (drop_spaces_blank back blank, h) refl
drop_spaces-append (c ∷ d ∷ s) back (h, plain) blank =
    rw (drop_spaces-append (d ∷ s) back plain blank) refl

pub trim_core :
    (front core back : CodeUnits)
    → IsBlank front
    → IsPlain core
    → IsBlank back
    → trim (front ++ (core ++ back)) ≡ core
unfolding trim
trim_core front [] back f plain b =
    ap drop_spaces (skip_spaces-append front back f)
    ∙ ap drop_spaces (ap skip_spaces (sym (append-nil back)) ∙ skip_spaces-append back [] b)
trim_core front (c ∷ core) back f plain b =
    ap drop_spaces (
      skip_spaces-append front ((c ∷ core) ++ back) f
      ∙ skip_spaces_plain c (core ++ back) plain.0.0)
    ∙ drop_spaces-append (c ∷ core) back plain b

plain_unit :
    (c d : ℕ) → ascii_lower c ≡ d → is_space d ≡ false → d < 128 → (is_space c ≡ false) × (c < 128)
unfolding is_space
plain_unit c d e h l = ground (arith, e, h, l)

pub core-IsPlain :
    (core name : CodeUnits) → map ascii_lower core ≡ name → IsPlain name → IsPlain core
core-IsPlain core name e plain = go core (subst IsPlain (sym e) plain)
  where
    go : (core : CodeUnits) → IsPlain (map ascii_lower core) → IsPlain core
    go [] h = h
    go (c ∷ core) ((h, l), rest) = (plain_unit c (ascii_lower c) refl h l, go core rest)

pub IsPlain-ascii : (s : CodeUnits) → IsPlain s → All (λ c. c < 128) s
IsPlain-ascii [] h = h
IsPlain-ascii (c ∷ s) (h, rest) = (h.1, IsPlain-ascii s rest)

unfoldable pub plain_text : CodeUnits → Bool
plain_text [] = true
plain_text (c ∷ s) = (if is_space c then false else ltb c 128) && plain_text s

pub plain_text-IsPlain : (s : CodeUnits) → plain_text s ≡ true → IsPlain s
unfolding plain_text
plain_text-IsPlain [] h = tt
plain_text-IsPlain (c ∷ s) h =
    ((ground (arith, h), ground (arith, h)), plain_text-IsPlain s (ground (arith, h)))

credential-IsPlain : (name : CodeUnits) → IsCredentialName name → IsPlain name
unfolding plain_text is_space
credential-IsPlain name h = plain_text-IsPlain name (by_name h)
  where
    by_name : IsCredentialName name → plain_text name ≡ true
    by_name (inl e) = ap plain_text e
    by_name (inr (inl e)) = ap plain_text e
    by_name (inr (inr (inl e))) = ap plain_text e
    by_name (inr (inr (inr (inl e)))) = ap plain_text e
    by_name (inr (inr (inr (inr (inl e))))) = ap plain_text e
    by_name (inr (inr (inr (inr (inr e))))) = ap plain_text e

module _ (lower : CodeUnits → CodeUnits) (lowers : LowersAscii lower) where
  credential_found :
      (name s : CodeUnits)
      → lower (trim s) ≡ name
      → IsCredentialName name
      → is_sensitive_header_name lower s ≡ true
  unfolding is_sensitive_header_name has_name text_eq
  credential_found name s e (inl h) = rw (e, h) refl
  credential_found name s e (inr (inl h)) = rw (e, h) refl
  credential_found name s e (inr (inr (inl h))) = rw (e, h) refl
  credential_found name s e (inr (inr (inr (inl h)))) = rw (e, h) refl
  credential_found name s e (inr (inr (inr (inr (inl h))))) = rw (e, h) refl
  credential_found name s e (inr (inr (inr (inr (inr h))))) = rw (e, h) refl

  pub secret_found : (name : CodeUnits) → IsSecret name → is_sensitive_header_name lower name ≡ true
  secret_found name secret =
      let plain =
        core-IsPlain secret.core (map ascii_lower secret.core) refl
          (credential-IsPlain (map ascii_lower secret.core) secret.is_name) in
      credential_found (map ascii_lower secret.core) name
        (ap lower (
            ap trim secret.split
            ∙ trim_core secret.front secret.core secret.back secret.front_blank plain
                secret.back_blank)
          ∙ lowers secret.core (IsPlain-ascii secret.core plain))
        secret.is_name
