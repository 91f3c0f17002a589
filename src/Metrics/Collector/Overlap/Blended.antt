-- ===== src/Metrics/Collector/Overlap/Blended.antt =====
-- The error rate of a server, whatever the order in which the calls of `RecordRequest` get their turns.
use neura_balancer.Common.{
  ℕ, zero, suc, ◌⊎◌, ◌+◌, ◌-◌, ◌≤◌, ◌≡◌, refl, sym, ap, ◌∙◌, inl, inr, Bool, Bool-cases,
  eq_of_int_eq, true, false, not, ◌&&◌, if◌then◌else◌, Option, none, some, List, [], ◌∷◌, ◌++◌,
  get_elem?, get_elem?-All, set_elem, All, All-set_elem, All-append, Ensures, sum, sum-append,
  sum-set_elem, ℤ, int_eq, arith,
}
use neura_balancer.Metrics.Collector.{Collector, Request, blend, set_gauge, get_gauge_value}
use neura_balancer.Metrics.Collector.ErrorRate.{iterate, iterate-iterate}
use neura_balancer.Metrics.Collector.Overlap.{
  Phase, counting, timing, summing, reading, setting, inserting, ended, Moved, move, System, settle,
  resume, Turn, records, moves, step, run,
}
use neura_balancer.Metrics.Float64.{Float64}

All-weaken {ℓ κ μ} :
    {A : Type ℓ} {P : A → Type κ} {Q : A → Type μ} (xs : List A)
    → ((a : A) → P a → Q a)
    → All P xs
    → All Q xs
All-weaken [] h all = tt
All-weaken (x ∷ xs) h all = (h x all.0, All-weaken xs h all.1)

module _ (fl : Float64) where
  -- A failed request of a server that has set its error rate.
  abbrev pub wrote : ℤ → Phase fl.Carrier → ℕ
  wrote id (counting r) = 0
  wrote id (timing r) = 0
  wrote id (summing r) = 0
  wrote id (reading r) = 0
  wrote id (setting r v) = 0
  wrote id (inserting r) = if not r.success && int_eq id r.server_id then 1 else 0
  wrote id (ended r) = if not r.success && int_eq id r.server_id then 1 else 0

  abbrev pub starting : Collector fl.Carrier → System fl
  starting c = record { collector = c; callers = []; inserts = [] }

  module _ (a : fl.Carrier) (id : ℤ) where
    -- A value of the gauge when `w` requests have set it.
    abbrev Between : ℕ → fl.Carrier → Type 0
    Between w v = (n : ℕ) × (v ≡ iterate n (blend fl) a) × (n ≤ w) × (1 ≤ w → 1 ≤ n)

    -- A value that a request has read, before `w` requests had set the gauge or since.
    abbrev Read : ℕ → fl.Carrier → Type 0
    Read w v = (n : ℕ) × (v ≡ iterate n (blend fl) a) × (n ≤ w)

    abbrev IsBlended : ℕ → Phase fl.Carrier → Type 0
    IsBlended w (counting r) = Unit
    IsBlended w (timing r) = Unit
    IsBlended w (summing r) = Unit
    IsBlended w (reading r) = r.success ≡ false
    IsBlended w (setting r v) = (r.success ≡ false) × (int_eq id r.server_id ≡ true → Read w v)
    IsBlended w (inserting r) = Unit
    IsBlended w (ended r) = Unit

    IsBlended-later : (w w' : ℕ) (p : Phase fl.Carrier) → w ≤ w' → IsBlended w p → IsBlended w' p
    IsBlended-later w w' (counting r) le h = tt
    IsBlended-later w w' (timing r) le h = tt
    IsBlended-later w w' (summing r) le h = tt
    IsBlended-later w w' (reading r) le h = h
    IsBlended-later w w' (setting r v) le (failed, read) =
        (failed, λ same. let (n, e, below) = read same in (n, e, omega (arith, below, le)))
    IsBlended-later w w' (inserting r) le h = tt
    IsBlended-later w w' (ended r) le h = tt

    -- What a step of a call leaves, when `w` requests had set the gauge before it.
    abbrev Steps : ℕ → Phase fl.Carrier → Moved fl → Type 0
    Steps w p (c', p', inserts) =
        (wrote id p ≤ wrote id p')
        × Between (w + (wrote id p' - wrote id p)) (c'.error_rate id)
        × IsBlended (w + (wrote id p' - wrote id p)) p'

    silent :
        (w : ℕ) (p p' : Phase fl.Carrier) (c : Collector fl.Carrier)
        → wrote id p ≡ wrote id p'
        → Between w (c.error_rate id)
        → IsBlended w p'
        → Steps w p (c, p', [])
    silent w p p' c same (n, e, below, some_write) ok = (
      omega (arith, same),
      (n, e, omega (arith, below), λ h. some_write (omega (arith, h, same))),
      IsBlended-later w (w + (wrote id p' - wrote id p)) p' (omega arith) ok,
    )

    set_Between :
        (w : ℕ) (r : Request fl.Carrier) (v : fl.Carrier) (c : Collector fl.Carrier)
        → Between w (c.error_rate id)
        → IsBlended w (setting r v)
        → Between
            (w + (wrote id (inserting r) - 0))
            (set_gauge c.error_rate r.server_id (blend fl v) id)
    set_Between w r v c (n, e, below, some_write) (failed, read) =
        elim (Bool-cases (int_eq id r.server_id)) [
          | inl same ↦
              let (m, e', below') = read same in
              rw (same, failed)
                (
                  m + 1,
                  ap (blend fl) e' ∙ iterate-iterate fl m 1 a,
                  omega (arith, below'),
                  λ h. omega arith,
                )
          | inr apart ↦
              rw (apart, failed) (n, e, omega (arith, below), λ h. some_write (omega (arith, h)))
        ]

    summed :
        (w : ℕ) (r : Request fl.Carrier) (c : Collector fl.Carrier) (b : Bool)
        → r.success ≡ b
        → Between w (c.error_rate id)
        → Steps w (summing r) (c, (if b then inserting r else reading r), [])
    summed w r c true well rate = silent w (summing r) (inserting r) c (rw well refl) rate tt
    summed w r c false failed rate = silent w (summing r) (reading r) c refl rate failed

    read-IsBlended :
        (w : ℕ) (r : Request fl.Carrier) (c : Collector fl.Carrier)
        → Between w (c.error_rate id)
        → r.success ≡ false
        → IsBlended w (setting r (get_gauge_value c.error_rate r.server_id))
    read-IsBlended w r c (n, e, below, some_write) failed =
        (failed, λ same. (n, ap c.error_rate (sym (eq_of_int_eq id r.server_id same)) ∙ e, below))

    move-Steps :
        (w : ℕ) (c : Collector fl.Carrier) (p : Phase fl.Carrier)
        → Between w (c.error_rate id)
        → IsBlended w p
        → Ensures (Steps w p) (move fl c p)
    unfolding move
    move-Steps w c (counting r) rate ok = silent w (counting r) (timing r) c refl rate tt
    move-Steps w c (timing r) rate ok = silent w (timing r) (summing r) c refl rate tt
    move-Steps w c (summing r) rate ok = summed w r c r.success refl rate
    move-Steps w c (reading r) rate failed =
        silent w (reading r) (setting r (get_gauge_value c.error_rate r.server_id)) c refl rate
          (read-IsBlended w r c rate failed)
    move-Steps w c (setting r v) rate ok = (omega arith, set_Between w r v c rate ok, tt)
    move-Steps w c (inserting r) rate ok = silent w (inserting r) (ended r) c refl rate tt
    move-Steps w c (ended r) rate ok = tt

    -- With as many requests as have set the gauge, its value and what the others have read.
    abbrev IsBlendedBy : System fl → Type 0
    IsBlendedBy y =
        let w = sum (wrote id) y.callers in
        Between w (y.collector.error_rate id) × All (IsBlended w) y.callers

    settle-IsBlendedBy :
        (y : System fl) (i : ℕ) (p : Phase fl.Carrier) (out : Option (Moved fl))
        → get_elem? y.callers i ≡ some p
        → IsBlendedBy y
        → Ensures (Steps (sum (wrote id) y.callers) p) out
        → IsBlendedBy (settle fl y i out)
    settle-IsBlendedBy y i p none here h done = h
    settle-IsBlendedBy y i p (some (c', p', inserts)) here h (le, rate, ok) =
        let w = sum (wrote id) y.callers in
        let moved : w + (wrote id p' - wrote id p) ≡ sum (wrote id) (set_elem y.callers i p') =
          omega (arith, sum-set_elem (wrote id) y.callers i p p' here, le) in
        let others =
          All-weaken y.callers
            (λ q ok'. IsBlended-later w (w + (wrote id p' - wrote id p)) q (omega arith) ok') h.1 in
        rw⁻¹ moved
          (rate, All-set_elem (IsBlended (w + (wrote id p' - wrote id p))) y.callers i p' others ok)

    resume-IsBlendedBy :
        (y : System fl) (i : ℕ) (o : Option (Phase fl.Carrier))
        → get_elem? y.callers i ≡ o
        → IsBlendedBy y
        → IsBlendedBy (resume fl y i o)
    unfolding resume
    resume-IsBlendedBy y i none here h = h
    resume-IsBlendedBy y i (some p) here h =
        let w = sum (wrote id) y.callers in
        settle-IsBlendedBy y i p (move fl y.collector p) here h
          (move-Steps w y.collector p h.0 (get_elem?-All (IsBlended w) y.callers i h.1 here))

    joined-IsBlendedBy :
        (y : System fl) (r : Request fl.Carrier)
        → IsBlendedBy y
        → IsBlendedBy (record y { callers = y.callers ++ counting r ∷ [] })
    joined-IsBlendedBy y r h =
        let w = sum (wrote id) y.callers in
        let same : w ≡ sum (wrote id) (y.callers ++ counting r ∷ []) =
          omega (arith, sum-append (wrote id) y.callers (counting r ∷ [])) in
        rw⁻¹ same (h.0, All-append (IsBlended w) y.callers (counting r ∷ []) h.1 (tt, tt))

    run-IsBlendedBy :
        (y : System fl) (ts : List (Turn fl)) → IsBlendedBy y → IsBlendedBy (run fl y ts)
    unfolding run step
    run-IsBlendedBy y [] h = h
    run-IsBlendedBy y (records r ∷ ts) h =
        run-IsBlendedBy (step fl y (records r)) ts (joined-IsBlendedBy y r h)
    run-IsBlendedBy y (moves i ∷ ts) h =
        run-IsBlendedBy (step fl y (moves i)) ts
          (resume-IsBlendedBy y i (get_elem? y.callers i) refl h)

  within : (n w : ℕ) → n ≤ w → (1 ≤ w → 1 ≤ n) → ((n ≡ 0) × (w ≡ 0)) ⊎ ((1 ≤ n) × (n ≤ w))
  within n zero below some_write = inl (omega (arith, below), refl)
  within n (suc w) below some_write = inr (some_write (omega arith), below)

  -- In every interleaving of any number of calls of RecordRequest, the error rate of a server is the
  -- blend of the one before, at most as often as failed requests of the server have set it, and at
  -- least once where one has; a request that succeeds leaves it as it is.
  pub error_rate-run :
      (c : Collector fl.Carrier) (id : ℤ) (ts : List (Turn fl))
      → let y = run fl (starting c) ts in
        let w = sum (wrote id) y.callers in
        (n : ℕ) × (y.collector.error_rate id ≡ iterate n (blend fl) (c.error_rate id))
        × (((n ≡ 0) × (w ≡ 0)) ⊎ ((1 ≤ n) × (n ≤ w)))
  error_rate-run c id ts =
      let y = run fl (starting c) ts in
      let start : Between (c.error_rate id) id 0 (c.error_rate id) =
        (0, refl, omega arith, λ h. h) in
      let (n, e, below, some_write) =
        (run-IsBlendedBy (c.error_rate id) id (starting c) ts (start, tt)).0 in
      (n, e, within n (sum (wrote id) y.callers) below some_write)
