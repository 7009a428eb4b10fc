-- ===== src/Redaction/Cleaning.antt =====
-- The URL that `sanitizeUrl` prints has no credentials.
use arc_browser_mcp.Prelude.{
  ℕ, ◌+◌, ◌≡◌, refl, sym, ap, subst, ◌∙◌, ◌⊎◌, inl, inr, true, false, not, ◌||◌, ◌&&◌, some, List,
  [], ◌∷◌, map, append-nil, if◌then◌else◌, choose, All, arith, Bool-cases,
}
use arc_browser_mcp.Text.{text_eq, text_eq_iff, is_space}
use arc_browser_mcp.Interaction.{CodeUnits}
use arc_browser_mcp.Redaction.{
  ascii_lower, truncate, trim, has_name, redacted_value, sensitive_query_params,
  is_sensitive_query_param,
}
use arc_browser_mcp.Redaction.Names.{
  LowersAscii, IsPlain, trim_core, core-IsPlain, plain_text, plain_text-IsPlain, IsPlain-ascii,
}
use arc_browser_mcp.Redaction.Assignments.{IsAmong, among}
use arc_browser_mcp.Redaction.Urls.{
  UrlApi, strip_credentials, redact_hash, redact_params, cleaned, serialized, sanitize_url,
  redact_fragment_secrets,
}

-- What the setters of the URL class do; `get_all` is URLSearchParams.getAll.
pub record UrlLaws (api : UrlApi) : Type 0 where
  pub get_all : api.Url → CodeUnits → List CodeUnits
  pub get_all_set :
      (u : api.Url) (k v j : CodeUnits)
      → get_all (api.set_param k v u) j ≡ (if text_eq k j then v ∷ [] else get_all u j)
  pub get_all_none :
      (u : api.Url) (k : CodeUnits) → has_name k (api.keys u) ≡ false → get_all u k ≡ []
  pub no_username : (u : api.Url) → api.username (api.set_username [] u) ≡ []
  pub no_password : (u : api.Url) → api.password (api.set_password [] u) ≡ []
  pub username_password :
      (u : api.Url) (v : CodeUnits) → api.username (api.set_password v u) ≡ api.username u
  pub username_hash :
      (u : api.Url) (v : CodeUnits) → api.username (api.set_hash v u) ≡ api.username u
  pub password_hash :
      (u : api.Url) (v : CodeUnits) → api.password (api.set_hash v u) ≡ api.password u
  pub username_param :
      (u : api.Url) (k v : CodeUnits) → api.username (api.set_param k v u) ≡ api.username u
  pub password_param :
      (u : api.Url) (k v : CodeUnits) → api.password (api.set_param k v u) ≡ api.password u

-- The name of a credential in any case.
abbrev pub IsSecretParam : CodeUnits → Type 0
IsSecretParam key = IsAmong (map ascii_lower key) sensitive_query_params

among_found :
    (name : CodeUnits) (names : List CodeUnits) → IsAmong name names → has_name name names ≡ true
unfolding has_name
among_found name [] h = absurd h
among_found name (other ∷ names) (inl e) = ground (arith, (text_eq_iff other name).1 (sym e))
among_found name (other ∷ names) (inr h) = ground (arith, among_found name names h)

among-IsPlain : (name : CodeUnits) → IsAmong name sensitive_query_params → IsPlain name
unfolding plain_text is_space
among-IsPlain name h = plain_text-IsPlain name (
    among (λ n. plain_text n ≡ true) name sensitive_query_params
      (refl, (refl, (refl, (refl, (refl, (refl, (refl, (refl, (refl, (refl, (refl, tt))))))))))) h)

module _ (lower : CodeUnits → CodeUnits) (lowers : LowersAscii lower) where
  secret_param_found :
      (key : CodeUnits) → IsSecretParam key → is_sensitive_query_param lower key ≡ true
  unfolding is_sensitive_query_param
  secret_param_found key h =
      let plain =
        core-IsPlain key (map ascii_lower key) refl (among-IsPlain (map ascii_lower key) h) in
      let trimmed : trim key ≡ key =
        ap trim (sym (append-nil key)) ∙ trim_core [] key [] tt plain tt in
      ap (λ s. has_name s sensitive_query_params)
        (ap lower trimmed ∙ lowers key (IsPlain-ascii key plain))
      ∙ among_found (map ascii_lower key) sensitive_query_params h

  module _ (api : UrlApi) (laws : UrlLaws api) where
    -- No user name, no password, and only redacted values for the names of credentials.
    abbrev pub HasNoCredentials : api.Url → Type 0
    HasNoCredentials u = (api.username u ≡ []) × (api.password u ≡ [])

    strip-HasNoCredentials : (u : api.Url) → HasNoCredentials (strip_credentials lower api u)
    unfolding strip_credentials
    strip-HasNoCredentials u =
        choose HasNoCredentials (api.set_password [] (api.set_username [] u)) u
          (not (text_eq (api.username u) []) || not (text_eq (api.password u) []))
          (λ hit. (
            laws.username_password (api.set_username [] u) [] ∙ laws.no_username u,
            laws.no_password (api.set_username [] u),
          ))
          (λ miss. (
            (text_eq_iff (api.username u) []).0 (ground (arith, miss)),
            (text_eq_iff (api.password u) []).0 (ground (arith, miss)),
          ))

    hash-HasNoCredentials :
        (u : api.Url) → HasNoCredentials u → HasNoCredentials (redact_hash lower api u)
    unfolding redact_hash
    hash-HasNoCredentials u (h, g) =
        choose HasNoCredentials (api.set_hash (redact_fragment_secrets (api.hash u)) u) u
          (not (text_eq (api.hash u) [])
            && not (text_eq (redact_fragment_secrets (api.hash u)) (api.hash u)))
          (λ hit. (
            laws.username_hash u (redact_fragment_secrets (api.hash u)) ∙ h,
            laws.password_hash u (redact_fragment_secrets (api.hash u)) ∙ g,
          ))
          (λ miss. (h, g))

    params-HasNoCredentials :
        (names : List CodeUnits) (u : api.Url)
        → HasNoCredentials u
        → HasNoCredentials (redact_params lower api names u)
    unfolding redact_params
    params-HasNoCredentials [] u h = h
    params-HasNoCredentials (key ∷ names) u (h, g) =
        let set = api.set_param key redacted_value u in
        params-HasNoCredentials names (if is_sensitive_query_param lower key then set else u) (
          choose HasNoCredentials set u (is_sensitive_query_param lower key)
            (λ hit. (
              laws.username_param u key redacted_value ∙ h,
              laws.password_param u key redacted_value ∙ g,
            ))
            (λ miss. (h, g)))

    cleaned-HasNoCredentials : (u : api.Url) → HasNoCredentials (cleaned lower api u)
    unfolding cleaned
    cleaned-HasNoCredentials u =
        let kept = redact_hash lower api (strip_credentials lower api u) in
        params-HasNoCredentials (api.keys kept) kept
          (hash-HasNoCredentials (strip_credentials lower api u) (strip-HasNoCredentials u))

    abbrev Redacts : CodeUnits → api.Url → Type 0
    Redacts k u = All (λ value. value ≡ redacted_value) (laws.get_all u k)

    set-Redacts :
        (key k : CodeUnits) (u : api.Url)
        → text_eq key k ≡ true ⊎ Redacts k u
        → Redacts k (api.set_param key redacted_value u)
    set-Redacts key k u h =
        subst (All (λ value. value ≡ redacted_value))
          (sym (laws.get_all_set u key redacted_value k))
          (choose (All (λ value. value ≡ redacted_value)) (redacted_value ∷ []) (laws.get_all u k)
            (text_eq key k) (λ hit. (refl, tt)) (λ miss. kept h miss))
      where
        kept : text_eq key k ≡ true ⊎ Redacts k u → text_eq key k ≡ false → Redacts k u
        kept (inl hit) miss = absurd (ground (arith, hit, miss))
        kept (inr old) miss = old

    params-Redacts :
        (names : List CodeUnits) (k : CodeUnits) (u : api.Url)
        → is_sensitive_query_param lower k ≡ true
        → (has_name k names ≡ true) ⊎ Redacts k u
        → Redacts k (redact_params lower api names u)
    unfolding redact_params has_name
    params-Redacts [] k u s (inl h) = absurd (ground (arith, h))
    params-Redacts [] k u s (inr h) = h
    params-Redacts (key ∷ names) k u s (inr h) =
        let set = api.set_param key redacted_value u in
        params-Redacts names k (if is_sensitive_query_param lower key then set else u) s (
          inr (
            choose (Redacts k) set u (is_sensitive_query_param lower key)
              (λ hit. set-Redacts key k u (inr h)) (λ miss. h)))
    params-Redacts (key ∷ names) k u s (inl h) =
        let set = api.set_param key redacted_value u in
        params-Redacts names k (if is_sensitive_query_param lower key then set else u) s
          (elim (Bool-cases (text_eq key k)) [
            | inr miss ↦ inl (ground (arith, h, miss))
            | inl same ↦
                let sens : is_sensitive_query_param lower key ≡ true =
                  ap (is_sensitive_query_param lower) ((text_eq_iff key k).0 same) ∙ s in
                inr (
                  subst (λ b. Redacts k (if b then set else u)) (sym sens)
                    (set-Redacts key k u (inl same)))
          ])

    cleaned-Redacts :
        (u : api.Url) (k : CodeUnits) → IsSecretParam k → Redacts k (cleaned lower api u)
    unfolding cleaned
    cleaned-Redacts u k secret =
        let kept = redact_hash lower api (strip_credentials lower api u) in
        params-Redacts (api.keys kept) k kept (secret_param_found k secret)
          (elim (Bool-cases (has_name k (api.keys kept))) [
            | inl known ↦ inl known
            | inr unknown ↦ inr (
                subst (All (λ value. value ≡ redacted_value))
                  (sym (laws.get_all_none kept k unknown)) tt)
          ])

    -- If `toLowerCase` lowers ASCII texts letter by letter and the URL class obeys the laws of its
    -- setters: for a text that, cut to 512 code units more than the limit, is a URL, `sanitizeUrl`
    -- prints a URL that has no user name and no password, and in which every value of a query
    -- parameter with a credential's name, in any case, is "[REDACTED]"; the printed text has the
    -- sentinel decoded and is cut to the limit.
    pub sanitize_url-cleaned :
        (raw_url : CodeUnits) (max_chars : ℕ) (u : api.Url)
        → api.parse (truncate raw_url (max_chars + 512)) ≡ some u
        → (w : api.Url) × (sanitize_url lower api raw_url max_chars
            ≡ truncate (serialized lower api w) max_chars)
          × (api.username w ≡ [])
          × (api.password w ≡ [])
          × ((k : CodeUnits)
              → IsAmong (map ascii_lower k) sensitive_query_params
              → All (λ value. value ≡ redacted_value) (laws.get_all w k))
    unfolding sanitize_url
    sanitize_url-cleaned raw_url max_chars u e =
        let (h, g) = cleaned-HasNoCredentials u in
        (cleaned lower api u, rw (e, sanitize_url) refl, h, g, cleaned-Redacts u)
