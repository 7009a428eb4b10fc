-- ===== src/Rpc/Tests.antt =====
-- Two requests of a peer: one times out, the other is answered.
use arc_browser_mcp.Prelude.{◌+◌, ◌≡◌, refl, inl, inr, true, false, none, some, List, [], ◌∷◌, ltb}
use arc_browser_mcp.Text.{is_blank}
use arc_browser_mcp.Json.{Json, bool, number, string, object, end, field}
use arc_browser_mcp.Rpc.{Timer, new_peer, lookup, insert, request_detailed, timeout_of}
use arc_browser_mcp.Rpc.Pending.{one_if, count_settled, count_pending}
use arc_browser_mcp.Rpc.Settling.{
  Happening, calls, fires, receives, closes, step, AllowedRun, run, run-settles_once,
}

abbrev answer : Json
answer = object (
    field "version" (number 1) (
      field "id" (string "a") (
        field "type" (string "response")
          (field "ok" (bool true) (field "payload" (object end) end)))))

abbrev second_timer : Timer
second_timer = record { id = "b"; promise = 1; method = "bridge.status"; timeout = 50 }

abbrev happenings : List Happening
happenings =
    calls "a" "bridge.ping" (object end) none
    ∷ calls "b" "bridge.status" (object end) (some 50)
    ∷ fires second_timer
    ∷ receives answer
    ∷ receives answer
    ∷ closes none
    ∷ []

happenings-AllowedRun : AllowedRun (new_peer none false) happenings
unfolding new_peer step request_detailed lookup is_blank insert timeout_of
happenings-AllowedRun = (refl, (refl, (inr (inl refl), (tt, (tt, (tt, tt))))))

run-settles_once_example :
    let (peer, effects) = run (new_peer none false) happenings in
    count_settled 0 effects + count_pending 0 peer.pending ≡ one_if (ltb 0 peer.next_promise)
run-settles_once_example = run-settles_once none false happenings happenings-AllowedRun 0
