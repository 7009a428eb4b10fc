-- ===== src/ExtensionBridge/Backoff.antt =====
-- `reconnectDelayMs` in closed form.
use native.Mathlib.Nat.{mul_assoc, mul_comm, mul-suc}
use arc_browser_mcp.Prelude.{
  ℕ, zero, suc, ◌*◌, ◌^◌, ◌≤◌, ◌≡◌, refl, ap, ◌∙◌, Bool, true, false, arith, leb, if◌then◌else◌,
}
use arc_browser_mcp.ExtensionBridge.{min, backoff_loop, reconnect_delay_ms}

min-≤ : (a b : ℕ) → min a b ≤ b
unfolding min
min-≤ a b = ground arith

min-min_double : (a p m : ℕ) → 1 ≤ p → min (min (a * 2) m * p) m ≡ min (a * (p * 2)) m
unfolding min
min-min_double a zero m h = omega (arith, h)
min-min_double a (suc q) m h =
    ground (arith, mul-suc m q, mul-suc (a * 2) q, mul_assoc a 2 (suc q), mul_comm 2 (suc q))

doubled : (n : ℕ) → 2 ^ n * 2 ≡ 2 ^ suc n
doubled n = omega arith

one_le_pow : (n : ℕ) → 1 ≤ 2 ^ n
one_le_pow zero = omega arith
one_le_pow (suc n) = omega (arith, one_le_pow n)

min_grown : (n p m : ℕ) → 1 ≤ p → leb m n ≡ true → min n m ≡ min (n * p) m
unfolding min
min_grown n zero m h g = omega (arith, h)
min_grown n (suc q) m h g = ground (arith, g, mul-suc n q)

-- One round of the loop, with the value that the next rounds come to.
by_round :
    (next rest goal p m : ℕ) (stops : Bool)
    → 1 ≤ p
    → leb m next ≡ stops
    → min rest m ≡ min (next * p) m
    → min (next * p) m ≡ goal
    → min (if stops then next else rest) m ≡ goal
by_round next rest goal p m true pos stops more whole = min_grown next p m pos stops ∙ whole
by_round next rest goal p m false pos stops more whole = more ∙ whole

backoff_loop-capped :
    (left delay max_ms : ℕ)
    → min (backoff_loop left delay max_ms) max_ms ≡ min (delay * 2 ^ left) max_ms
unfolding backoff_loop
backoff_loop-capped zero delay max_ms = unfold min in ground arith
backoff_loop-capped (suc left) delay max_ms =
    let next = min (delay * 2) max_ms in
    by_round next (backoff_loop left next max_ms) (min (delay * 2 ^ suc left) max_ms) (2 ^ left)
      max_ms (leb max_ms next) (one_le_pow left) refl (backoff_loop-capped left next max_ms)
      (min-min_double delay (2 ^ left) max_ms (one_le_pow left)
        ∙ ap (λ x. min (delay * x) max_ms) (doubled left))

-- The delay before a retry is the base doubled once for each attempt, and the maximum at most.
pub reconnect_delay_ms-closed_form :
    (attempt base_ms max_ms : ℕ)
    → reconnect_delay_ms attempt base_ms max_ms ≡ min (base_ms * 2 ^ attempt) max_ms
unfolding reconnect_delay_ms
reconnect_delay_ms-closed_form attempt base_ms max_ms = backoff_loop-capped attempt base_ms max_ms
