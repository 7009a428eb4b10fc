-- ===== src/Redaction/Tests.antt =====
-- A URL class that keeps what it is told, a URL with a password, and a text with a token.
use arc_browser_mcp.Prelude.{
  ◌≡◌, refl, false, some, List, [], ◌∷◌, ◌++◌, map, if◌then◌else◌, All, arith,
}
use arc_browser_mcp.Text.{codes, text_eq}
use arc_browser_mcp.Interaction.{CodeUnits}
use arc_browser_mcp.Redaction.{
  ascii_lower, truncate, has_name, redacted_value, sensitive_query_params,
}
use arc_browser_mcp.Redaction.Names.{LowersAscii}
use arc_browser_mcp.Redaction.Assignments.{IsAmong}
use arc_browser_mcp.Redaction.Urls.{UrlApi, sanitize_url, serialized}
use arc_browser_mcp.Redaction.Cleaning.{UrlLaws, sanitize_url-cleaned}

record PlainUrl : Type 0 where
  username : CodeUnits
  password : CodeUnits
  keys : List CodeUnits
  values : CodeUnits → List CodeUnits

abbrev url : PlainUrl
url = record {
  username = codes "u";
  password = codes "p";
  keys = codes "Token" ∷ [];
  values = λ k. codes "x" ∷ [];
}

abbrev api : UrlApi
api = record {
  Url = PlainUrl;
  parse = λ s. some url;
  username = λ u. u.username;
  password = λ u. u.password;
  hash = λ u. [];
  keys = λ u. u.keys;
  set_username = λ t u. record u { username = t };
  set_password = λ t u. record u { password = t };
  set_hash = λ t u. u;
  set_param = λ k v u. record u {
    keys = k ∷ u.keys;
    values = λ j. if text_eq k j then v ∷ [] else u.values j;
  };
  to_string = λ u. u.username ++ u.password;
}

abbrev get_all : PlainUrl → CodeUnits → List CodeUnits
get_all u k = if has_name k u.keys then u.values k else []

get_all_set :
    (u : PlainUrl) (k v j : CodeUnits)
    → get_all (api.set_param k v u) j ≡ (if text_eq k j then v ∷ [] else get_all u j)
unfolding has_name
get_all_set u k v j = ground arith

get_all_none : (u : PlainUrl) (k : CodeUnits) → has_name k u.keys ≡ false → get_all u k ≡ []
get_all_none u k h = rw h refl

laws : UrlLaws api
laws = record {
  get_all = get_all;
  get_all_set = get_all_set;
  get_all_none = get_all_none;
  no_username = λ u. refl;
  no_password = λ u. refl;
  username_password = λ u v. refl;
  username_hash = λ u v. refl;
  password_hash = λ u v. refl;
  username_param = λ u k v. refl;
  password_param = λ u k v. refl;
}

lower-LowersAscii : LowersAscii (map ascii_lower)
lower-LowersAscii s ascii = refl

sanitize_url-cleaned_example :
    (w : PlainUrl) × (sanitize_url (map ascii_lower) api (codes "http://u:p@h/?Token=x") 2048
      ≡ truncate (serialized (map ascii_lower) api w) 2048)
    × (w.username ≡ [])
    × (w.password ≡ [])
    × ((k : CodeUnits)
        → IsAmong (map ascii_lower k) sensitive_query_params
        → All (λ value. value ≡ redacted_value) (laws.get_all w k))
sanitize_url-cleaned_example =
    sanitize_url-cleaned (map ascii_lower) lower-LowersAscii api laws
      (codes "http://u:p@h/?Token=x") 2048 url refl
