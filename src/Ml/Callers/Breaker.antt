-- ===== src/Ml/Callers/Breaker.antt =====
-- The breaker under any number of calls at once.
use neura_balancer.Common.{
  ℕ, ◌*◌, ◌≤◌, ◌≡◌, refl, sym, ap, ◌∙◌, Option, none, some, List, [], ◌∷◌, ◌++◌, get_elem?, Ensures,
  ℤ, pos, arith,
}
use neura_balancer.Common.Float32.{Float32}
use neura_balancer.Common.Text.{Text}
use neura_balancer.Ml.Callers.{
  Phase, asking, keying, looking, fetching, failing, succeeding, storing, choosing, falling,
  decided, Input, Moved, found_in_cache, look_up, store, fetched, move, tells, System, settle,
  resume, Turn, calls, moves, step, run,
}
use neura_balancer.Ml.CircuitBreaker.{CircuitBreaker, is_open}
use neura_balancer.Ml.CircuitBreaker.Window.{
  Event, Ordered, in_window, last_trip, run-append, Ordered-later, Ordered-added, Ordered-quiet,
}
use neura_balancer.Ml.CircuitBreaker.Window
use neura_balancer.Ml.Exchange as Fetch
use neura_balancer.Ml.Exchange.{Fetched, fetch_predictions}
use neura_balancer.Ml.Lru.{Lru}
use neura_balancer.Ml.Strategy.{MlStrategy, new_ml_strategy}
use neura_balancer.Ml.Strategy.Resets.{is_open-new_ml_strategy}
use neura_balancer.Server.{Ref}

module _ (fl : Float32) {D : Type 0} (format_float : D → Text) (lru : Lru (List fl.Carrier)) where
  look_up-breaker :
      (s : MlStrategy lru.Cache) (rs : List Ref) (key : Text) (cache : Option lru.Cache)
      → (look_up fl format_float lru s rs key cache).0.breaker ≡ s.breaker
  look_up-breaker s rs key none = refl
  look_up-breaker s rs key (some c) = of_found (lru.get c key)
    where
      of_found :
          (found : lru.Cache × Option (List fl.Carrier))
          → (found_in_cache fl format_float lru s rs key found).0.breaker ≡ s.breaker
      of_found (c', none) = refl
      of_found (c', some ps) = refl

  store-breaker :
      (s : MlStrategy lru.Cache) (rs : List Ref) (key : Text) (ps : List fl.Carrier)
      (cache : Option lru.Cache)
      → (store fl format_float lru s rs key ps cache).0.breaker ≡ s.breaker
  store-breaker s rs key ps none = refl
  store-breaker s rs key ps (some c) = refl

  fetched-breaker :
      (s : MlStrategy lru.Cache) (rs : List Ref) (key : Text) (f : Fetched fl.Carrier)
      → (fetched fl format_float lru s rs key f).0.breaker ≡ s.breaker
  fetched-breaker s rs key (Fetch.predictions ps) = refl
  fetched-breaker s rs key (Fetch.failed e) = refl

  -- A step does to the breaker what it tells it.
  move-breaker :
      (x : Input fl.Carrier D) (s : MlStrategy lru.Cache) (p : Phase fl.Carrier)
      → Ensures
          (λ (out : Moved fl format_float lru).
            out.0.breaker ≡ Window.run s.breaker (tells fl format_float lru x.now p))
          (move fl format_float lru x s p)
  unfolding move Window.run Window.step
  move-breaker x s (asking rs) = refl
  move-breaker x s (keying rs) = refl
  move-breaker x s (looking rs key) = look_up-breaker s rs key s.cache
  move-breaker x s (fetching rs key) =
      fetched-breaker s rs key (fetch_predictions x.send x.heap x.readings x.now rs)
  move-breaker x s (failing rs) = refl
  move-breaker x s (succeeding rs key ps) = refl
  move-breaker x s (storing rs key ps) = store-breaker s rs key ps s.cache
  move-breaker x s (choosing rs ps with_fallback) = refl
  move-breaker x s (falling rs) = refl
  move-breaker x s (decided p) = tt

  tells-Ordered :
      (log : List (ℕ × Event)) (t now : ℕ) (p : Phase fl.Carrier)
      → Ordered 0 log t
      → t ≤ now
      → Ordered 0 (log ++ tells fl format_float lru now p) now
  tells-Ordered log t now (asking rs) o le = Ordered-added 0 log t now _ o le
  tells-Ordered log t now (keying rs) o le = Ordered-quiet log t now o le
  tells-Ordered log t now (looking rs key) o le = Ordered-quiet log t now o le
  tells-Ordered log t now (fetching rs key) o le = Ordered-quiet log t now o le
  tells-Ordered log t now (failing rs) o le = Ordered-added 0 log t now _ o le
  tells-Ordered log t now (succeeding rs key ps) o le = Ordered-added 0 log t now _ o le
  tells-Ordered log t now (storing rs key ps) o le = Ordered-quiet log t now o le
  tells-Ordered log t now (choosing rs ps b) o le = Ordered-quiet log t now o le
  tells-Ordered log t now (falling rs) o le = Ordered-quiet log t now o le
  tells-Ordered log t now (decided p) o le = Ordered-quiet log t now o le

  -- The breaker is what a new one becomes by the log, and the log is in order.
  abbrev Logged : CircuitBreaker → System fl format_float lru → ℕ → Type 0
  Logged b y now = (y.strategy.breaker ≡ Window.run b y.log) × Ordered 0 y.log now

  settle-Logged :
      (b : CircuitBreaker) (y : System fl format_float lru) (i t now : ℕ) (p : Phase fl.Carrier)
      (out : Option (Moved fl format_float lru))
      → Logged b y t
      → t ≤ now
      → Ensures
          (λ (o : Moved fl format_float lru).
            o.0.breaker ≡ Window.run y.strategy.breaker (tells fl format_float lru now p))
          out
      → Logged b (settle fl format_float lru y i (tells fl format_float lru now p) out) now
  settle-Logged b y i t now p none (same, o) le done = (same, Ordered-later 0 y.log t now o le)
  settle-Logged b y i t now p (some (s', p', told)) (same, o) le done = (
    done
        ∙ ap (λ c. Window.run c (tells fl format_float lru now p)) same
        ∙ sym (run-append b y.log (tells fl format_float lru now p)),
    tells-Ordered y.log t now p o le,
  )

  resume-Logged :
      (b : CircuitBreaker) (y : System fl format_float lru) (i t : ℕ) (x : Input fl.Carrier D)
      (o : Option (Phase fl.Carrier))
      → Logged b y t
      → t ≤ x.now
      → Logged b (resume fl format_float lru y i x o) x.now
  unfolding resume
  resume-Logged b y i t x none (same, o) le = (same, Ordered-later 0 y.log t x.now o le)
  resume-Logged b y i t x (some p) logged le =
      settle-Logged b y i t x.now p (move fl format_float lru x y.strategy p) logged le
        (move-breaker x y.strategy p)

  -- The clock does not go back.
  abbrev pub Timed : ℕ → List (Turn fl format_float lru) → ℕ → Type 0
  Timed start [] now = start ≤ now
  Timed start (calls rs ∷ ts) now = Timed start ts now
  Timed start (moves i x ∷ ts) now = (start ≤ x.now) × Timed x.now ts now

  run-Logged :
      (b : CircuitBreaker) (y : System fl format_float lru) (ts : List (Turn fl format_float lru))
      (t now : ℕ)
      → Logged b y t
      → Timed t ts now
      → Logged b (run fl format_float lru y ts) now
  unfolding run step
  run-Logged b y [] t now (same, o) timed = (same, Ordered-later 0 y.log t now o timed)
  run-Logged b y (calls rs ∷ ts) t now logged timed =
      run-Logged b (step fl format_float lru y (calls rs)) ts t now logged timed
  run-Logged b y (moves i x ∷ ts) t now logged timed =
      run-Logged b (step fl format_float lru y (moves i x)) ts x.now now
        (resume-Logged b y i t x (get_elem? y.callers i) logged timed.0) timed.1

  abbrev pub idle : MlStrategy lru.Cache → System fl format_float lru
  idle s = record { strategy = s; callers = []; told = []; log = [] }

  -- In every interleaving of any number of calls of a new ML strategy, with a clock that does not go
  -- back, the breaker is open at the end exactly if the last outcome that a call has recorded is a
  -- failure less than the configured seconds before, which must fit a 64-bit number of nanoseconds.
  pub is_open-run_interleaved :
      (seconds : ℕ) (cache_size : ℤ) (ts : List (Turn fl format_float lru)) (now : ℕ)
      → seconds ≤ 9223372036
      → Timed 0 ts now
      → let y = run fl format_float lru (idle (new_ml_strategy lru (pos seconds) cache_size)) ts in
        (is_open y.strategy.breaker now).1
        ≡ in_window (pos (seconds * 1_000_000_000)) (last_trip none y.log) now
  unfolding Window.run
  is_open-run_interleaved seconds cache_size ts now fits timed =
      let s = new_ml_strategy lru (pos seconds) cache_size in
      let y = run fl format_float lru (idle s) ts in
      let (same, ordered) = run-Logged s.breaker (idle s) ts 0 now (refl, omega arith) timed in
      ap (λ b. (is_open b now).1) same
      ∙ is_open-new_ml_strategy lru seconds cache_size y.log now fits ordered
