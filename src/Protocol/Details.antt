-- ===== src/Protocol/Details.antt =====
-- The details of an error response: what `collect_details` builds, and that it reads back.
use text.Mathlib.Text.{◌==◌ as str_eq}
use text.Mathlib.TextEquality.{eq_iff}
use arc_browser_mcp.Prelude.{
  ◌≡◌, ◌≢◌, refl, sym, ap, true, Option, none, some, is_some, if◌then◌else◌, subst, ◌∙◌, List, [],
  ◌∷◌, ◌++◌, append_assoc, append-nil, arith, String,
}
use arc_browser_mcp.Json.{Json, null, bool, number, numeral, string, array, object, fields_entries}
use arc_browser_mcp.Protocol.{Details, ok, set_detail, collect_details, details_fields}

-- `k` is no key of the details.
abbrev pub Absent : String → Details → Type 0
Absent k [] = Unit
Absent k ((j, w) ∷ ds) = (j ≢ k) × Absent k ds

-- The keys are distinct, and none is the one that assignment drops.
abbrev pub IsDetails : Details → Type 0
IsDetails [] = Unit
IsDetails ((k, v) ∷ ds) = (k ≢ "__proto__") × Absent k ds × IsDetails ds

set_detail-Absent :
    (ds : Details) (i k v : String) → i ≢ k → Absent i ds → Absent i (set_detail ds k v)
unfolding set_detail
set_detail-Absent [] i k v ne a = ground (arith, eq_iff k "__proto__")
set_detail-Absent ((j, w) ∷ ds) i k v ne a = ground (arith, eq_iff j k, set_detail-Absent ds i k v)

set_detail-IsDetails : (ds : Details) (k v : String) → IsDetails ds → IsDetails (set_detail ds k v)
unfolding set_detail
set_detail-IsDetails [] k v h = ground (arith, eq_iff k "__proto__")
set_detail-IsDetails ((j, w) ∷ ds) k v h =
    ground (arith, eq_iff j k, set_detail-IsDetails ds k v, set_detail-Absent ds j k v)

set_detail-Absent_self :
    (ds : Details) (k v : String)
    → Absent k ds
    → k ≢ "__proto__"
    → set_detail ds k v ≡ ds ++ (k, v) ∷ []
unfolding set_detail
set_detail-Absent_self [] k v a ne = ground (arith, eq_iff k "__proto__")
set_detail-Absent_self ((j, w) ∷ ds) k v a ne =
    ground (arith, eq_iff j k, set_detail-Absent_self ds k v)

-- What is collected has distinct keys.
pub collect_details-IsDetails :
    (es : List (String × Json)) (ds : Details) {found : Details}
    → IsDetails ds
    → collect_details es ds ≡ ok found
    → IsDetails found
unfolding collect_details
collect_details-IsDetails [] ds {found} h e = let same : ds ≡ found = cc in subst IsDetails same h
collect_details-IsDetails ((k, string v) ∷ es) ds h e =
    collect_details-IsDetails es (set_detail ds k v) (set_detail-IsDetails ds k v h) e
collect_details-IsDetails ((k, null) ∷ es) ds h e = cc
collect_details-IsDetails ((k, bool _) ∷ es) ds h e = cc
collect_details-IsDetails ((k, number _) ∷ es) ds h e = cc
collect_details-IsDetails ((k, numeral _) ∷ es) ds h e = cc
collect_details-IsDetails ((k, array _) ∷ es) ds h e = cc
collect_details-IsDetails ((k, object _) ∷ es) ds h e = cc

Absent-middle :
    (acc : Details) (k v : String) (ds : Details) → IsDetails (acc ++ (k, v) ∷ ds) → Absent k acc
Absent-middle [] k v ds h = tt
Absent-middle ((j, w) ∷ acc) k v ds h = (Absent-head acc j k v ds h.1, Absent-middle acc k v ds h.2)
  where
    Absent-head :
        (acc : Details) (j k v : String) (ds : Details) → Absent j (acc ++ (k, v) ∷ ds) → j ≢ k
    Absent-head [] j k v ds a e = a.0 (sym e)
    Absent-head (_ ∷ acc) j k v ds a e = Absent-head acc j k v ds a.1 e

IsDetails-middle :
    (acc : Details) (k v : String) (ds : Details) → IsDetails (acc ++ (k, v) ∷ ds) → k ≢ "__proto__"
IsDetails-middle [] k v ds h = h.0
IsDetails-middle (_ ∷ acc) k v ds h = IsDetails-middle acc k v ds h.2

-- Details with distinct keys are collected as they are.
pub collect_details-fields :
    (ds acc : Details)
    → IsDetails (acc ++ ds)
    → collect_details (fields_entries (details_fields ds)) acc ≡ ok (acc ++ ds)
unfolding collect_details fields_entries details_fields
collect_details-fields [] acc h = ap ok (sym (append-nil acc))
collect_details-fields ((k, v) ∷ ds) acc h =
    let absent = Absent-middle acc k v ds h in
    let other = IsDetails-middle acc k v ds h in
    ap (collect_details (fields_entries (details_fields ds)))
      (set_detail-Absent_self acc k v absent other)
    ∙ collect_details-fields ds (acc ++ (k, v) ∷ []) (rw (append_assoc acc ((k, v) ∷ []) ds) h)
    ∙ ap ok (append_assoc acc ((k, v) ∷ []) ds)

-- The text of a key in details, and that of the last entry with the key in an object or array.
abbrev pub detail : String → Details → Option String
detail k [] = none
detail k ((j, w) ∷ ds) = if str_eq j k then some w else detail k ds

abbrev pub text_of : Json → Option String
text_of (string s) = some s
text_of _ = none

abbrev pub last_text : String → List (String × Json) → Option String → Option String
last_text k [] given = given
last_text k ((j, v) ∷ es) given = last_text k es (if str_eq j k then text_of v else given)

abbrev pub AllTexts : List (String × Json) → Type 0
AllTexts [] = Unit
AllTexts ((k, v) ∷ es) = (is_some (text_of v) ≡ true) × AllTexts es

detail-set_detail :
    (ds : Details) (j v k : String)
    → k ≢ "__proto__"
    → detail k (set_detail ds j v) ≡ (if str_eq j k then some v else detail k ds)
unfolding set_detail
detail-set_detail [] j v k ne = ground (arith, eq_iff j "__proto__", eq_iff j k)
detail-set_detail ((i, w) ∷ ds) j v k ne =
    ground (arith, eq_iff i j, eq_iff i k, eq_iff j k, detail-set_detail ds j v k ne)

-- What is collected under a key is the last text that the entries have under it.
pub collect_details-last :
    (es : List (String × Json)) (ds : Details) {found : Details} (k : String)
    → k ≢ "__proto__"
    → collect_details es ds ≡ ok found
    → detail k found ≡ last_text k es (detail k ds)
unfolding collect_details
collect_details-last [] ds {found} k ne e = let same : found ≡ ds = cc in ap (detail k) same
collect_details-last ((j, string v) ∷ es) ds k ne e =
    collect_details-last es (set_detail ds j v) k ne e
    ∙ ap (last_text k es) (detail-set_detail ds j v k ne)
collect_details-last ((j, null) ∷ es) ds k ne e = cc
collect_details-last ((j, bool _) ∷ es) ds k ne e = cc
collect_details-last ((j, number _) ∷ es) ds k ne e = cc
collect_details-last ((j, numeral _) ∷ es) ds k ne e = cc
collect_details-last ((j, array _) ∷ es) ds k ne e = cc
collect_details-last ((j, object _) ∷ es) ds k ne e = cc

pub collect_details-AllTexts :
    (es : List (String × Json)) (ds : Details) {found : Details}
    → collect_details es ds ≡ ok found
    → AllTexts es
unfolding collect_details is_some
collect_details-AllTexts [] ds e = tt
collect_details-AllTexts ((j, string v) ∷ es) ds e =
    (refl, collect_details-AllTexts es (set_detail ds j v) e)
collect_details-AllTexts ((j, null) ∷ es) ds e = cc
collect_details-AllTexts ((j, bool _) ∷ es) ds e = cc
collect_details-AllTexts ((j, number _) ∷ es) ds e = cc
collect_details-AllTexts ((j, numeral _) ∷ es) ds e = cc
collect_details-AllTexts ((j, array _) ∷ es) ds e = cc
collect_details-AllTexts ((j, object _) ∷ es) ds e = cc
