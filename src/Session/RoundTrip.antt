-- ===== src/Session/RoundTrip.antt =====
-- The descriptor that the owner writes is the one that the host reads.
use text.Mathlib.TextEquality.{eq_iff}
use arc_browser_mcp.Prelude.{
  ◌≡◌, ◌≢◌, refl, Bool, true, Option, none, some, String, arith, Option-cases, inl, inr,
}
use arc_browser_mcp.Json.{
  Json, null, bool, number, numeral, string, array, object, is_record, get, get_field,
  non_empty_string,
}
use arc_browser_mcp.Protocol.{ok, is_version, as_string}
use arc_browser_mcp.Protocol.Reads.{non_empty_string-eq}
use arc_browser_mcp.Session.{
  BridgeSession, is_nonce, as_integer, as_nonce, parse_session_descriptor, session_json,
  load_session_descriptor, contents,
}

pub record IsValid (integral : String → Bool) (session : BridgeSession) : Type 0 where
  pub named : session.pipe_name ≢ ""
  pub nonce : is_nonce session.nonce_hex ≡ true
  pub pid : as_integer integral (some session.mcp_pid) ≡ some session.mcp_pid

-- A descriptor with a pipe name, a nonce of 64 hexadecimal digits and an integer as PID is loaded as it
-- is from the text that is printed for it.
pub load-session_json :
    (integral : String → Bool) (session : BridgeSession)
    → IsValid integral session
    → load_session_descriptor integral (contents (some (session_json session))) ≡ ok (some session)
unfolding load_session_descriptor parse_session_descriptor session_json get get_field is_record
    non_empty_string is_version as_string as_nonce
load-session_json integral session v =
    ground (arith, eq_iff session.pipe_name "", v.named, v.nonce, v.pid)

as_integer-eq :
    (integral : String → Bool) (o : Option Json) (n : Json)
    → as_integer integral o ≡ some n
    → as_integer integral (some n) ≡ some n
unfolding as_integer
as_integer-eq integral none n h = cc
as_integer-eq integral (some null) n h = cc
as_integer-eq integral (some (bool b)) n h = cc
as_integer-eq integral (some (number m)) n h = let same : number m ≡ n = cc in rw (← same) refl
as_integer-eq integral (some (numeral text)) n h =
    let same : numeral text ≡ n = ground (arith, h) in rw (← same) (ground (arith, h))
as_integer-eq integral (some (string text)) n h = cc
as_integer-eq integral (some (array vs)) n h = cc
as_integer-eq integral (some (object fs)) n h = cc

as_nonce-eq : (o : Option Json) (text : String) → as_nonce o ≡ some text → is_nonce text ≡ true
unfolding as_nonce
as_nonce-eq none text h = cc
as_nonce-eq (some null) text h = cc
as_nonce-eq (some (bool b)) text h = cc
as_nonce-eq (some (number m)) text h = cc
as_nonce-eq (some (numeral t)) text h = cc
as_nonce-eq (some (string t)) text h = ground (arith, h)
as_nonce-eq (some (array vs)) text h = cc
as_nonce-eq (some (object fs)) text h = cc

-- A descriptor that is loaded is valid, and so it is loaded as it is from its own text again.
pub load_sound :
    (integral : String → Bool) (parsed : Option Json) {session : BridgeSession}
    → load_session_descriptor integral (contents parsed) ≡ ok (some session)
    → IsValid integral session
unfolding load_session_descriptor parse_session_descriptor
load_sound integral none h = absurd (ground (arith, h))
load_sound integral (some v) {session} h =
    elim (Option-cases (non_empty_string (get v "pipeName"))) [
      | inl missing ↦ absurd (ground (arith, h, missing))
      | inr (pipe, p) ↦ elim (Option-cases (as_nonce (get v "nonceHex"))) [
        | inl missing ↦ absurd (ground (arith, h, missing, p))
        | inr (nonce, n) ↦ elim (Option-cases (as_integer integral (get v "mcpPid"))) [
          | inl missing ↦ absurd (ground (arith, h, missing, p, n))
          | inr (pid, i) ↦ elim (Option-cases (as_string (get v "createdAt"))) [
            | inl missing ↦ absurd (ground (arith, h, missing, p, n, i))
            | inr (at, a) ↦
                let same : (session.pipe_name ≡ pipe)
                    × (session.nonce_hex ≡ nonce)
                    × (session.mcp_pid ≡ pid) =
                  ground (arith, h, p, n, i, a) in
                record {
                  named = ground (arith, same, non_empty_string-eq (get v "pipeName") pipe p);
                  nonce = ground (arith, same, as_nonce-eq (get v "nonceHex") nonce n);
                  pid = ground (arith, same, as_integer-eq integral (get v "mcpPid") pid i);
                }
          ]
        ]
      ]
    ]
