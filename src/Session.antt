-- ===== src/Session.antt =====
-- src/bridge/session.ts: the descriptor by which an MCP process and the native host find each other.
-- The file itself, the clock, random bytes and process.kill are arguments; a text of a file is given
-- as what JSON.parse makes of it, `none` where that throws.
pub mod RoundTrip
pub mod Tests
use text.Mathlib.Text.{◌==◌ as str_eq}
use arc_browser_mcp.Prelude.{
  ℕ, Bool, true, false, not, ◌&&◌, Option, none, some, List, [], ◌∷◌, String, length, ◌==◌,
  if◌then◌else◌,
}
use arc_browser_mcp.Text.{codes, is_blank}
use arc_browser_mcp.Json.{
  Json, number, numeral, string, object, end, field, is_record, get, non_empty_string,
}
use arc_browser_mcp.Protocol.{
  Result, ok, err, BridgeError, fail, guard, or_fail, ◌>>=◌, ◌>>◌, is_version, as_string,
}
use arc_browser_mcp.Tabs.ProjectId.Parsing.{all_hex}

-- The PID is a JSON number.
pub record BridgeSession : Type 0 where
  pub pipe_name : String
  pub nonce_hex : String
  pub mcp_pid : Json
  pub created_at : String

abbrev pub session_nonce_bytes : ℕ
session_nonce_bytes = 32

-- /^[0-9a-f]{64}$/
unfoldable pub is_nonce : String → Bool
is_nonce text = length (codes text) == 64 && all_hex (codes text)

-- `defaultSessionDir`: the directory that LOCALAPPDATA names, or `none` where it throws.
unfoldable pub default_session_dir : Option String → Option String
default_session_dir none = none
default_session_dir (some dir) = if is_blank dir then none else some dir

-- Number.isInteger on a JSON value; `integral` tells it for a number that is not a natural one.
unfoldable pub as_integer : (String → Bool) → Option Json → Option Json
as_integer integral (some (number n)) = some (number n)
as_integer integral (some (numeral text)) = if integral text then some (numeral text) else none
as_integer integral _ = none

unfoldable pub as_nonce : Option Json → Option String
as_nonce (some (string text)) = if is_nonce text then some text else none
as_nonce _ = none

unfoldable pub parse_session_descriptor : (String → Bool) → Option Json → Result BridgeSession
parse_session_descriptor integral none = fail "SESSION_CORRUPT"
parse_session_descriptor integral (some parsed) = do
  guard (is_record parsed && is_version (get parsed "version")) "SESSION_CORRUPT"
  pipe_name ← or_fail (non_empty_string (get parsed "pipeName")) "SESSION_CORRUPT"
  nonce_hex ← or_fail (as_nonce (get parsed "nonceHex")) "SESSION_CORRUPT"
  mcp_pid ← or_fail (as_integer integral (get parsed "mcpPid")) "SESSION_CORRUPT"
  created_at ← or_fail (as_string (get parsed "createdAt")) "SESSION_CORRUPT"
  ok (record {
    pipe_name = pipe_name;
    nonce_hex = nonce_hex;
    mcp_pid = mcp_pid;
    created_at = created_at;
  })

-- What reading the file comes to: it is absent, cannot be read, or has a text.
pub data FileRead : Type 0 where
  absent unreadable : FileRead
  contents : Option Json → FileRead

-- `loadSessionDescriptor`; an error that is not ENOENT is thrown on.
unfoldable pub load_session_descriptor : (String → Bool) → FileRead → Result (Option BridgeSession)
load_session_descriptor integral absent = ok none
load_session_descriptor integral unreadable = fail "UNREADABLE"
load_session_descriptor integral (contents parsed) = do
  session ← parse_session_descriptor integral parsed
  ok (some session)

-- What a test of a process comes to: an answer, or an exception.
unfoldable pub is_session_stale : (Json → Option Bool) → BridgeSession → Bool
is_session_stale is_pid_alive session = elim (is_pid_alive session.mcp_pid) [
  | none ↦ true
  | some alive ↦ not alive
]

-- `defaultIsPidAlive`, from the code of the error that process.kill throws, if it throws.
unfoldable pub default_is_pid_alive : Option String → Bool
default_is_pid_alive none = true
default_is_pid_alive (some code) = str_eq code "EPERM"

-- The object that `writeSessionAtomic` prints.
unfoldable pub session_json : BridgeSession → Json
session_json session = object (
    field "version" (number 1) (
      field "pipeName" (string session.pipe_name) (
        field "nonceHex" (string session.nonce_hex)
          (field "mcpPid" session.mcp_pid (field "createdAt" (string session.created_at) end)))))
