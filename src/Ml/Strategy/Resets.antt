-- ===== src/Ml/Strategy/Resets.antt =====
-- The window of the breaker of a new ML strategy, from the seconds of the configuration. Times are in
-- nanoseconds.
use neura_balancer.Common.{
  ℕ, ◌+◌, ◌-◌, ◌*◌, ◌%◌, ◌<◌, ◌≤◌, ◌≡◌, refl, ap, ◌∙◌, true, false, none, some, Option, List, ℤ,
  pos, negsuc, ltb, wrap_int, arith,
}
use neura_balancer.Ml.CircuitBreaker.{is_open}
use neura_balancer.Ml.CircuitBreaker.Window.{Event, Ordered, run, last_trip, in_window, is_open-run}
use neura_balancer.Ml.Lru.{Lru}
use neura_balancer.Ml.Strategy.{new_ml_strategy}

wrap_small : (n : ℕ) → n < 9223372036854775808 → wrap_int (pos n) ≡ pos n
wrap_small n h =
    let same : (n + 18446744073709551616) % 18446744073709551616 ≡ n = omega (arith, h) in
    let low : ltb n 9223372036854775808 ≡ true = ground (arith, h) in rw (same, low) refl

-- After any history of calls whose times do not fall, the breaker of a new ML strategy with a reset of
-- `s` seconds, which must fit a 64-bit number of nanoseconds, is open exactly if the last recorded
-- outcome is a failure less than `s` seconds before.
pub is_open-new_ml_strategy :
    {V : Type 0} (lru : Lru V) (s : ℕ) (cache_size : ℤ) (es : List (ℕ × Event)) (now : ℕ)
    → s ≤ 9223372036
    → Ordered 0 es now
    → (is_open (run (new_ml_strategy lru (pos s) cache_size).breaker es) now).1
      ≡ in_window (pos (s * 1_000_000_000)) (last_trip none es) now
unfolding new_ml_strategy
is_open-new_ml_strategy lru s cache_size es now fits ordered =
    let window : wrap_int (pos (s * 1_000_000_000)) ≡ pos (s * 1_000_000_000) =
      wrap_small (s * 1_000_000_000) (omega (arith, fits)) in
    is_open-run (wrap_int (pos (s * 1_000_000_000))) es now ordered
    ∙ ap (λ w. in_window w (last_trip none es) now) window

in_window_negative : (n : ℕ) (t : Option ℕ) (now : ℕ) → in_window (negsuc n) t now ≡ false
in_window_negative n none now = refl
in_window_negative n (some t) now = ground arith

wrap_large :
    (n : ℕ)
    → 9223372036854775808 ≤ n
    → n < 18446744073709551616
    → (m : ℕ) × (wrap_int (pos n) ≡ negsuc m)
wrap_large n low high =
    let same : (n + 18446744073709551616) % 18446744073709551616 ≡ n = omega (arith, high) in
    let above : ltb n 9223372036854775808 ≡ false = ground (arith, low) in
    (18446744073709551615 - n, rw (same, above) refl)

-- With more seconds than fit, up to twice as many, the breaker is never open.
pub is_open_overflow :
    {V : Type 0} (lru : Lru V) (s : ℕ) (cache_size : ℤ) (es : List (ℕ × Event)) (now : ℕ)
    → 9223372037 ≤ s
    → s ≤ 18446744073
    → Ordered 0 es now
    → (is_open (run (new_ml_strategy lru (pos s) cache_size).breaker es) now).1 ≡ false
unfolding new_ml_strategy
is_open_overflow lru s cache_size es now low high ordered =
    let (m, window) = wrap_large (s * 1_000_000_000) (omega (arith, low)) (omega (arith, high)) in
    is_open-run (wrap_int (pos (s * 1_000_000_000))) es now ordered
    ∙ ap (λ w. in_window w (last_trip none es) now) window
    ∙ in_window_negative m (last_trip none es) now
