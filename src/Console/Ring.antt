-- ===== src/Console/Ring.antt =====
-- The ring buffer keeps the newest entries and counts the others.
use arc_browser_mcp.Prelude.{
  ℕ, zero, suc, ◌+◌, ◌≤◌, ◌≡◌, refl, sym, ap, ◌∙◌, Bool, true, false, List, [], ◌∷◌, ◌++◌, length,
  drop, length-append, drop-append_length, append_assoc, arith, ltb, leb, choose, if◌then◌else◌,
}
use arc_browser_mcp.Console.{
  ConsoleEntry, Entries, ConsoleMonitor, new_monitor, shift, ingest, clear, shrink, resize,
}

pub data Action : Type 0 where
  ingests : ConsoleEntry → Action
  resizes : ℕ → Action
  clears : Action

unfoldable pub act : Action → ConsoleMonitor → ConsoleMonitor
act (ingests entry) m = ingest entry m
act (resizes n) m = resize n m
act clears m = (clear m).0

-- The entries that came in since the last `clear`.
unfoldable pub logged : Action → Entries → Entries
logged (ingests entry) log = log ++ entry ∷ []
logged (resizes n) log = log
logged clears log = []

unfoldable pub acts : List Action → ConsoleMonitor → ConsoleMonitor
acts [] m = m
acts (a ∷ as_) m = acts as_ (act a m)

unfoldable pub logs : List Action → Entries → Entries
logs [] log = log
logs (a ∷ as_) log = logs as_ (logged a log)

record IsRing (log : Entries) (m : ConsoleMonitor) : Type 0 where
  old : Entries
  split : log ≡ old ++ m.entries
  counted : length old ≡ m.dropped
  bounded : length m.entries ≤ m.capacity
  pos : 1 ≤ m.capacity

-- What `shrink` gives, and how it splits the log.
record IsShrunk (capacity : ℕ) (log : Entries) (out : Entries × ℕ) : Type 0 where
  old : Entries
  split : log ≡ old ++ out.0
  counted : length old ≡ out.1
  bounded : length out.0 ≤ capacity

shrink-IsShrunk :
    (capacity : ℕ) (log old entries : Entries) (dropped : ℕ)
    → log ≡ old ++ entries
    → length old ≡ dropped
    → IsShrunk capacity log (shrink capacity entries dropped)
unfolding shrink
shrink-IsShrunk capacity log old [] dropped split counted = record {
  old = old;
  split = split;
  counted = counted;
  bounded = omega arith;
}
shrink-IsShrunk capacity log old (entry ∷ entries) dropped split counted =
    choose (IsShrunk capacity log) (shrink capacity entries (suc dropped))
      (entry ∷ entries, dropped) (ltb capacity (length (entry ∷ entries)))
      (λ h.
        shrink-IsShrunk capacity log (old ++ entry ∷ []) entries (suc dropped)
          (split ∙ sym (append_assoc old (entry ∷ []) entries))
          (length-append old (entry ∷ []) ∙ omega (arith, counted)))
      (λ h. record { old = old; split = split; counted = counted; bounded = ground (arith, h) })

module _ (entry : ConsoleEntry) (log : Entries) (capacity dropped : ℕ) where
  abbrev monitor : Entries → ConsoleMonitor
  monitor entries = record { capacity = capacity; entries = entries; dropped = dropped }

  ingest-IsRing :
      (entries : Entries)
      → IsRing log (monitor entries)
      → IsRing (log ++ entry ∷ []) (ingest entry (monitor entries))
  unfolding ingest shift
  ingest-IsRing entries ring = by_test (leb capacity (length entries)) refl
    where
      split_more : log ++ entry ∷ [] ≡ ring.old ++ (entries ++ entry ∷ [])
      split_more = ap (λ x. x ++ entry ∷ []) ring.split ∙ append_assoc ring.old entries (entry ∷ [])

      by_full :
          (es : Entries)
          → entries ≡ es
          → capacity ≤ length es
          → IsRing (log ++ entry ∷ []) (record {
            capacity = capacity;
            entries = shift es ++ entry ∷ [];
            dropped = suc dropped;
          })
      by_full [] e full = absurd (omega (arith, full, ring.pos))
      by_full (first ∷ es) e full = record {
        old = ring.old ++ first ∷ [];
        split =
            split_more
            ∙ ap (λ x. ring.old ++ (x ++ entry ∷ [])) e
            ∙ sym (append_assoc ring.old (first ∷ []) (es ++ entry ∷ []));
        counted = length-append ring.old (first ∷ []) ∙ omega (arith, ring.counted);
        bounded = omega (arith, length-append es (entry ∷ []), ring.bounded, ap (λ x. length x) e);
        pos = ring.pos;
      }

      by_test :
          (b : Bool)
          → leb capacity (length entries) ≡ b
          → IsRing (log ++ entry ∷ []) (
              if b
              then record {
                capacity = capacity;
                entries = shift entries ++ entry ∷ [];
                dropped = suc dropped;
              }
              else record {
                capacity = capacity;
                entries = entries ++ entry ∷ [];
                dropped = dropped;
              })
      by_test true h = by_full entries refl (ground (arith, h))
      by_test false h = record {
        old = ring.old;
        split = split_more;
        counted = ring.counted;
        bounded = ground (arith, length-append entries (entry ∷ []), h);
        pos = ring.pos;
      }

act-IsRing :
    (a : Action) (log : Entries) (m : ConsoleMonitor)
    → IsRing log m
    → IsRing (logged a log) (act a m)
unfolding act logged clear resize
act-IsRing (ingests entry) log m ring = ingest-IsRing entry log m.capacity m.dropped m.entries ring
act-IsRing (resizes zero) log m ring = ring
act-IsRing (resizes (suc n)) log m ring =
    let shrunk = shrink-IsShrunk (suc n) log ring.old m.entries m.dropped ring.split ring.counted in
    record {
      old = shrunk.old;
      split = shrunk.split;
      counted = shrunk.counted;
      bounded = shrunk.bounded;
      pos = omega arith;
    }
act-IsRing clears log m ring = record {
  old = [];
  split = refl;
  counted = refl;
  bounded = omega arith;
  pos = ring.pos;
}

acts-IsRing :
    (as_ : List Action) (log : Entries) (m : ConsoleMonitor)
    → IsRing log m
    → IsRing (logs as_ log) (acts as_ m)
unfolding acts logs
acts-IsRing [] log m ring = ring
acts-IsRing (a ∷ as_) log m ring =
    acts-IsRing as_ (logged a log) (act a m) (act-IsRing a log m ring)

new_monitor-IsRing : (capacity : ℕ) → 1 ≤ capacity → IsRing [] (new_monitor capacity)
unfolding new_monitor
new_monitor-IsRing capacity pos = record {
  old = [];
  split = refl;
  counted = refl;
  bounded = omega arith;
  pos = pos;
}

-- Whatever entries come in, and however the buffer is resized and cleared: a buffer that starts with
-- a capacity of at least 1 holds at most as many entries as its capacity, and they are what is left
-- of the entries since the last `clear` after the dropped ones, of which the count is exact.
pub acts_keep_newest :
    (capacity : ℕ)
    → 1 ≤ capacity
    → (as_ : List Action)
    → let m = acts as_ (new_monitor capacity) in
      (length m.entries ≤ m.capacity)
      × (m.dropped + length m.entries ≡ length (logs as_ []))
      × (drop m.dropped (logs as_ []) ≡ m.entries)
acts_keep_newest capacity pos as_ =
    let m = acts as_ (new_monitor capacity) in
    let ring = acts-IsRing as_ [] (new_monitor capacity) (new_monitor-IsRing capacity pos) in
    (
      ring.bounded,
      omega (arith, ring.counted, length-append ring.old m.entries, ap (λ x. length x) ring.split),
      ap (λ n. drop n (logs as_ [])) (sym ring.counted)
          ∙ ap (drop (length ring.old)) ring.split
          ∙ drop-append_length ring.old m.entries,
    )
