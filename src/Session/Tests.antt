-- ===== src/Session/Tests.antt =====
-- A descriptor, and what reading it back gives.
use arc_browser_mcp.Prelude.{◌≡◌, ◌≢◌, refl, Bool, false, some, String}
use text.Mathlib.Text.{◌==◌ as str_eq}
use text.Mathlib.TextEquality.{eq_iff}
use arc_browser_mcp.Prelude.{arith}
use arc_browser_mcp.Json.{number}
use arc_browser_mcp.Protocol.{ok}
use arc_browser_mcp.Session.{
  BridgeSession, is_nonce, as_integer, contents, session_json, load_session_descriptor,
}
use arc_browser_mcp.Session.RoundTrip.{IsValid, load-session_json, load_sound}
use arc_browser_mcp.Tabs.ProjectId.Parsing.{all_hex}

abbrev pub session : BridgeSession
session = record {
  pipe_name = "\\\\.\\pipe\\arc-mcp-bridge-v1-user";
  nonce_hex = "00112233445566778899aabbccddeeff00112233445566778899aabbccddeeff";
  mcp_pid = number 4242;
  created_at = "2026-01-01T00:00:00.000Z";
}

abbrev pub no_numeral : String → Bool
no_numeral text = false

differ : (s t : String) → str_eq s t ≡ false → s ≢ t
differ s t h e = ground (arith, eq_iff s t, h, e)

pub session-IsValid : IsValid no_numeral session
unfolding is_nonce all_hex as_integer
session-IsValid = record {
  named = differ "\\\\.\\pipe\\arc-mcp-bridge-v1-user" "" refl;
  nonce = refl;
  pid = refl;
}

load-session_json_example :
    load_session_descriptor no_numeral (contents (some (session_json session))) ≡ ok (some session)
load-session_json_example = load-session_json no_numeral session session-IsValid

load_sound_example : IsValid no_numeral session
load_sound_example =
    load_sound no_numeral (some (session_json session))
      (load-session_json no_numeral session session-IsValid)
