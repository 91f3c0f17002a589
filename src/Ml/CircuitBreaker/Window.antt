-- ===== src/Ml/CircuitBreaker/Window.antt =====
-- The breaker against its contract: after any history of calls at times that do not fall, it is open
-- exactly during the window after the last failure that no success has followed.
use neura_balancer.Common.{
  ℕ, ◌-◌, ◌≤◌, ◌≡◌, ◌⊎◌, refl, Bool, true, false, Option, none, some, List, [], ◌∷◌, ◌++◌, ℤ, pos,
  ltb_ℤ, leb_ℤ, arith,
}
use mathlib.Core.List.{append-nil}
use neura_balancer.Ml.CircuitBreaker.{
  CircuitBreaker, new_circuit_breaker, is_open, record_failure, record_success,
}

pub data Event : Type 0 where
  asked failed succeeded : Event

unfoldable pub step : CircuitBreaker → ℕ × Event → CircuitBreaker
step cb (now, asked) = (is_open cb now).0
step cb (now, failed) = record_failure cb now
step cb (now, succeeded) = record_success cb

unfoldable pub run : CircuitBreaker → List (ℕ × Event) → CircuitBreaker
run cb [] = cb
run cb (e ∷ es) = run (step cb e) es

-- The time of the last failure with no success behind it.
unfoldable pub trip : Option ℕ → ℕ × Event → Option ℕ
trip t (now, asked) = t
trip t (now, failed) = some now
trip t (now, succeeded) = none

unfoldable pub last_trip : Option ℕ → List (ℕ × Event) → Option ℕ
last_trip t [] = t
last_trip t (e ∷ es) = last_trip (trip t e) es

abbrev pub in_window : ℤ → Option ℕ → ℕ → Bool
in_window reset_after none now = false
in_window reset_after (some t) now = ltb_ℤ (pos (now - t)) reset_after

-- The times do not fall, from `start` on to `now`.
abbrev pub Ordered : ℕ → List (ℕ × Event) → ℕ → Type 0
Ordered start [] now = start ≤ now
Ordered start ((t, e) ∷ es) now = (start ≤ t) × Ordered t es now

pub run-append :
    (b : CircuitBreaker) (log more : List (ℕ × Event)) → run b (log ++ more) ≡ run (run b log) more
unfolding run
run-append b [] more = refl
run-append b (e ∷ log) more = run-append (step b e) log more

pub Ordered-later :
    (start : ℕ) (log : List (ℕ × Event)) (t now : ℕ)
    → Ordered start log t
    → t ≤ now
    → Ordered start log now
Ordered-later start [] t now o le = omega (arith, o, le)
Ordered-later start ((m, e) ∷ log) t now o le = (o.0, Ordered-later m log t now o.1 le)

pub Ordered-added :
    (start : ℕ) (log : List (ℕ × Event)) (t now : ℕ) (e : Event)
    → Ordered start log t
    → t ≤ now
    → Ordered start (log ++ (now, e) ∷ []) now
Ordered-added start [] t now e o le = (omega (arith, o, le), omega arith)
Ordered-added start ((m, e') ∷ log) t now e o le = (o.0, Ordered-added m log t now e o.1 le)

pub Ordered-quiet :
    (log : List (ℕ × Event)) (t now : ℕ) → Ordered 0 log t → t ≤ now → Ordered 0 (log ++ []) now
Ordered-quiet log t now o le = rw append-nil (Ordered-later 0 log t now o le)

-- At time `now` the breaker stands for the trip `t`; one that has closed by itself is past its window.
abbrev Tracks : CircuitBreaker → Option ℕ → ℕ → Type 0
Tracks cb none now = cb.opened ≡ false
Tracks cb (some t) now =
    (t ≤ now)
    × (((cb.opened ≡ true) × (cb.last_failure ≡ t))
        ⊎ ((cb.opened ≡ false) × (leb_ℤ cb.reset_after (pos (now - t)) ≡ true)))

step-Tracks :
    (cb : CircuitBreaker) (t : Option ℕ) (start now : ℕ) (e : Event)
    → start ≤ now
    → Tracks cb t start
    → Tracks (step cb (now, e)) (trip t (now, e)) now
unfolding step trip is_open record_failure record_success
step-Tracks cb none start now asked le k = ground arith
step-Tracks cb (some t) start now asked le k = ground arith
step-Tracks cb t start now failed le k = ground arith
step-Tracks cb t start now succeeded le k = refl

step-reset_after : (cb : CircuitBreaker) (e : ℕ × Event) → (step cb e).reset_after ≡ cb.reset_after
unfolding step is_open record_failure record_success
step-reset_after cb (now, asked) = ground arith
step-reset_after cb (now, failed) = refl
step-reset_after cb (now, succeeded) = refl

is_open_tracked :
    (cb : CircuitBreaker) (t : Option ℕ) (start now : ℕ)
    → start ≤ now
    → Tracks cb t start
    → (is_open cb now).1 ≡ in_window cb.reset_after t now
unfolding is_open
is_open_tracked cb none start now le k = ground arith
is_open_tracked cb (some t) start now le k = ground arith

run_tracked :
    (cb : CircuitBreaker) (t : Option ℕ) (start now : ℕ) (es : List (ℕ × Event))
    → Ordered start es now
    → Tracks cb t start
    → (is_open (run cb es) now).1 ≡ in_window cb.reset_after (last_trip t es) now
unfolding run last_trip step
run_tracked cb t start now [] o k = is_open_tracked cb t start now o k
run_tracked cb t start now ((m, e) ∷ es) o k =
    rw (← step-reset_after cb (m, e))
      (run_tracked (step cb (m, e)) (trip t (m, e)) m now es o.1 (step-Tracks cb t start m e o.0 k))

-- After any history of calls whose times do not fall, a new breaker is open at a later time `now`
-- exactly if the last recorded outcome is a failure less than `reset_after` before `now`.
pub is_open-run :
    (reset_after : ℤ) (es : List (ℕ × Event)) (now : ℕ)
    → Ordered 0 es now
    → (is_open (run (new_circuit_breaker reset_after) es) now).1
      ≡ in_window reset_after (last_trip none es) now
unfolding new_circuit_breaker
is_open-run reset_after es now o =
    run_tracked (record { opened = false; last_failure = 0; reset_after = reset_after }) none 0 now
      es o refl
