-- ===== src/Protocol/Reads.antt =====
-- What each read of `parse_bridge_message` tells of the value that it read.
use text.Mathlib.TextEquality.{eq_iff}
use arc_browser_mcp.Prelude.{◌≡◌, ◌≢◌, Bool, true, false, Option, some, arith, String}
use arc_browser_mcp.Json.{Json, bool, number, string, is_record, non_empty_string}
use arc_browser_mcp.Protocol.{is_version, is_text, is_bool, as_string, as_payload}

-- What each read tells of the value that it read.
pub non_empty_string-eq :
    (o : Option Json) (s : String) → non_empty_string o ≡ some s → (o ≡ some (string s)) × (s ≢ "")
unfolding non_empty_string
non_empty_string-eq (some (string t)) s h = ground (arith, eq_iff t "")
non_empty_string-eq _ s h = cc

pub as_payload-eq :
    (o : Option Json) (v : Json) → as_payload o ≡ some v → (o ≡ some v) × (is_record v ≡ true)
unfolding as_payload
as_payload-eq o v h = ground arith

pub is_version-eq : (o : Option Json) → is_version o ≡ true → o ≡ some (number 1)
unfolding is_version
is_version-eq (some (number n)) h = ground arith
is_version-eq _ h = cc

pub is_text-eq : (o : Option Json) (t : String) → is_text o t ≡ true → o ≡ some (string t)
unfolding is_text
is_text-eq (some (string s)) t h = ground (arith, eq_iff s t)
is_text-eq _ t h = cc

pub is_bool-eq : (o : Option Json) (b : Bool) → is_bool o b ≡ true → o ≡ some (bool b)
unfolding is_bool
is_bool-eq (some (bool true)) b h = ground arith
is_bool-eq (some (bool false)) b h = ground arith
is_bool-eq _ b h = cc

pub as_string-eq : (o : Option Json) (s : String) → as_string o ≡ some s → o ≡ some (string s)
unfolding as_string
as_string-eq (some (string t)) s h = ground arith
as_string-eq _ s h = cc
