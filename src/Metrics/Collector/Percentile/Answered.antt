-- ===== src/Metrics/Collector/Percentile/Answered.antt =====
-- The reader's answer, whatever the order of the goroutines' turns.
use neura_balancer.Common.{
  ℕ, zero, suc, ◌+◌, ◌<◌, ◌≤◌, ◌≡◌, ◌⊎◌, refl, sym, ap, ◌∙◌, inl, inr, Bool, true, false, Option,
  none, some, List, [], ◌∷◌, ◌++◌, length, ℤ, arith,
}
use neura_balancer.Metrics.Collector.{Summary, find_quantile, get_response_percentile}
use neura_balancer.Metrics.Collector.Percentile.{
  Exchange, Turn, sender, reader, exchange, start, send, read, step, run,
}
use neura_balancer.Metrics.Float64.{Float64}

-- Turns of both, n times.
abbrev pub rounds : ℕ → List Turn
rounds zero = []
rounds (suc n) = sender ∷ reader ∷ rounds n

module _ (fl : Float64) (id : ℤ) (quantile answer : fl.Carrier) where
  -- The reader has returned the answer, or what is still to be read has it.
  abbrev Holds : List (Summary fl.Carrier) → Option fl.Carrier → Type 0
  Holds pending none = get_response_percentile fl pending id quantile ≡ answer
  Holds pending (some v) = v ≡ answer

  answer_of :
      (pending : List (Summary fl.Carrier)) (returned : Option fl.Carrier) (v : fl.Carrier)
      → Holds pending returned
      → returned ≡ some v
      → v ≡ answer
  answer_of pending none v holds e = cc
  answer_of pending (some w) v holds e = cc

  abbrev IsSound : Exchange fl.Carrier → Type 0
  IsSound s = (s.closed ≡ true → s.unsent ≡ []) × Holds (s.buffer ++ s.unsent) s.returned

  send-IsSound :
      (unsent : List (Summary fl.Carrier)) (closed : Bool) (buffer : List (Summary fl.Carrier))
      (returned : Option fl.Carrier)
      → IsSound (exchange unsent closed buffer returned)
      → IsSound (send unsent closed buffer returned)
  send-IsSound [] closed buffer returned (ends, holds) = ((λ e. refl), holds)
  send-IsSound (m ∷ ms) closed [] returned (ends, holds) =
      ((λ e. absurd (let h = ends e in cc)), holds)
  send-IsSound (m ∷ ms) closed (b ∷ bs) returned sound = sound

  first-Holds :
      (m : Summary fl.Carrier) (rest : List (Summary fl.Carrier)) (found : Option fl.Carrier)
      → find_quantile fl quantile m ≡ found
      → Holds (m ∷ rest) none
      → Holds rest found
  unfolding get_response_percentile
  first-Holds m rest none e holds =
      let behind : get_response_percentile fl (m ∷ rest) id quantile
          ≡ get_response_percentile fl rest id quantile =
        rw (get_response_percentile, e) refl in
      sym behind ∙ holds
  first-Holds m rest (some v) e holds =
      let first : get_response_percentile fl (m ∷ rest) id quantile ≡ v =
        rw (get_response_percentile, e) refl in
      sym first ∙ holds

  read-IsSound :
      (unsent : List (Summary fl.Carrier)) (closed : Bool) (buffer : List (Summary fl.Carrier))
      (returned : Option fl.Carrier)
      → IsSound (exchange unsent closed buffer returned)
      → IsSound (read fl quantile unsent closed buffer returned)
  unfolding get_response_percentile
  read-IsSound unsent closed buffer (some v) sound = sound
  read-IsSound unsent true [] none (ends, holds) =
      let over : unsent ≡ [] = ends refl in
      ((λ e. over), sym (ap (λ u. get_response_percentile fl u id quantile) over) ∙ holds)
  read-IsSound unsent false [] none sound = sound
  read-IsSound unsent closed (m ∷ ms) none (ends, holds) =
      (ends, first-Holds m (ms ++ unsent) (find_quantile fl quantile m) refl holds)

  run-IsSound :
      (s : Exchange fl.Carrier) (ts : List Turn) → IsSound s → IsSound (run fl quantile s ts)
  unfolding run step
  run-IsSound s [] sound = sound
  run-IsSound s (sender ∷ ts) sound =
      run-IsSound (step fl quantile s sender) ts
        (send-IsSound s.unsent s.closed s.buffer s.returned sound)
  run-IsSound s (reader ∷ ts) sound =
      run-IsSound (step fl quantile s reader) ts
        (read-IsSound s.unsent s.closed s.buffer s.returned sound)

module _ (fl : Float64) (quantile : fl.Carrier) where
  -- What is still to be read.
  abbrev pending : Exchange fl.Carrier → ℕ
  pending s = length s.buffer + length s.unsent

  send-pending :
      (unsent : List (Summary fl.Carrier)) (closed : Bool) (buffer : List (Summary fl.Carrier))
      (returned : Option fl.Carrier)
      → pending (send unsent closed buffer returned)
        ≡ pending (exchange unsent closed buffer returned)
  send-pending [] closed buffer returned = refl
  send-pending (m ∷ ms) closed [] returned = omega arith
  send-pending (m ∷ ms) closed (b ∷ bs) returned = refl

  read-pending :
      (unsent : List (Summary fl.Carrier)) (closed : Bool) (buffer : List (Summary fl.Carrier))
      (returned : Option fl.Carrier)
      → pending (read fl quantile unsent closed buffer returned)
        ≤ pending (exchange unsent closed buffer returned)
  read-pending unsent closed buffer (some v) = omega arith
  read-pending unsent closed [] none = omega arith
  read-pending unsent closed (m ∷ ms) none = omega arith

  run-pending :
      (s : Exchange fl.Carrier) (ts : List Turn) → pending (run fl quantile s ts) ≤ pending s
  unfolding run step
  run-pending s [] = omega arith
  run-pending s (sender ∷ ts) = omega (
    arith,
    run-pending (step fl quantile s sender) ts,
    send-pending s.unsent s.closed s.buffer s.returned,
  )
  run-pending s (reader ∷ ts) = omega (
    arith,
    run-pending (step fl quantile s reader) ts,
    read-pending s.unsent s.closed s.buffer s.returned,
  )

  abbrev HasReturned : Exchange fl.Carrier → Type 0
  HasReturned s = (v : fl.Carrier) × (s.returned ≡ some v)

  run_returned :
      (s : Exchange fl.Carrier) (ts : List Turn) (v : fl.Carrier)
      → s.returned ≡ some v
      → (run fl quantile s ts).returned ≡ some v
  unfolding run step
  run_returned s [] v e = e
  run_returned s (sender ∷ ts) v e =
      run_returned (step fl quantile s sender) ts v (send_keeps s.unsent s.buffer ∙ e)
    where
      send_keeps :
          (unsent buffer : List (Summary fl.Carrier))
          → (send unsent s.closed buffer s.returned).returned ≡ s.returned
      send_keeps [] buffer = refl
      send_keeps (m ∷ ms) [] = refl
      send_keeps (m ∷ ms) (b ∷ bs) = refl
  run_returned s (reader ∷ ts) v e =
      run_returned (step fl quantile s reader) ts v (read_keeps s.returned e)
    where
      read_keeps :
          (returned : Option fl.Carrier)
          → returned ≡ some v
          → (read fl quantile s.unsent s.closed s.buffer returned).returned ≡ some v
      read_keeps none h = cc
      read_keeps (some w) h = h

  round_lem :
      (unsent : List (Summary fl.Carrier)) (closed : Bool) (buffer : List (Summary fl.Carrier))
      → let s = exchange unsent closed buffer none in
        let s' = run fl quantile s (sender ∷ reader ∷ []) in
        HasReturned s' ⊎ (pending s' + 1 ≡ pending s)
  unfolding run step
  round_lem [] closed [] = inl (fl.zero_value, refl)
  round_lem [] closed (b ∷ bs) = inr (omega arith)
  round_lem (m ∷ ms) closed [] = inr (omega arith)
  round_lem (m ∷ ms) closed (b ∷ bs) = inr (omega arith)

  -- The reader returns after as many turns of both as there is to read, and one more.
  run-rounds :
      (n : ℕ) (unsent : List (Summary fl.Carrier)) (closed : Bool)
      (buffer : List (Summary fl.Carrier)) (returned : Option fl.Carrier)
      → length buffer + length unsent < n
      → HasReturned (run fl quantile (exchange unsent closed buffer returned) (rounds n))
  unfolding run
  run-rounds n unsent closed buffer (some v) h =
      (v, run_returned (exchange unsent closed buffer (some v)) (rounds n) v refl)
  run-rounds zero unsent closed buffer none h = absurd (omega (arith, h))
  run-rounds (suc n) unsent closed buffer none h =
      let s' = run fl quantile (exchange unsent closed buffer none) (sender ∷ reader ∷ []) in
      elim (round_lem unsent closed buffer) [
        | inl (v, e) ↦ (v, run_returned s' (rounds n) v e)
        | inr fewer ↦
            run-rounds n s'.unsent s'.closed s'.buffer s'.returned (omega (arith, fewer, h))
      ]

  run-append :
      (s : Exchange fl.Carrier) (ts us : List Turn)
      → run fl quantile s (ts ++ us) ≡ run fl quantile (run fl quantile s ts) us
  unfolding run
  run-append s [] us = refl
  run-append s (t ∷ ts) us = run-append (step fl quantile s t) ts us

-- Whatever the order of the turns of the two goroutines, once more rounds of both have followed than
-- there are summaries the reader has returned, and what it returns is the value of the quantile in the
-- first summary that has it, or 0.
pub run-get_response_percentile :
    (fl : Float64) (summaries : List (Summary fl.Carrier)) (id : ℤ) (quantile : fl.Carrier)
    (ts : List Turn) (n : ℕ)
    → length summaries < n
    → (run fl quantile (start summaries) (ts ++ rounds n)).returned
      ≡ some (get_response_percentile fl summaries id quantile)
run-get_response_percentile fl summaries id quantile ts n enough =
    let s = run fl quantile (start summaries) ts in
    let answer = get_response_percentile fl summaries id quantile in
    let (v, e) =
      run-rounds fl quantile n s.unsent s.closed s.buffer s.returned
        (omega (arith, enough, run-pending fl quantile (start summaries) ts)) in
    let sound =
      run-IsSound fl id quantile answer (start summaries) (ts ++ rounds n)
        ((λ h. absurd (let g : false ≡ true = h in cc)), refl) in
    let t = run fl quantile (start summaries) (ts ++ rounds n) in
    let returns : t.returned ≡ some v =
      ap (λ u. u.returned) (run-append fl quantile (start summaries) ts (rounds n)) ∙ e in
    returns
    ∙ ap some (answer_of fl id quantile answer (t.buffer ++ t.unsent) t.returned v sound.1 returns)
