-- ===== src/Metrics/Collector/Percentile/Leaks.antt =====
-- When the sending goroutine never ends.
use neura_balancer.Common.{
  ℕ, suc, ◌≤◌, ◌≡◌, ◌≢◌, refl, ◌∙◌, Bool, true, false, Option, none, some, List, [], ◌∷◌, ◌++◌,
  length, arith,
}
use neura_balancer.Metrics.Collector.{Summary, find_quantile}
use neura_balancer.Metrics.Collector.Percentile.{
  Exchange, Turn, sender, reader, exchange, start, send, read, step, run,
}
use neura_balancer.Metrics.Float64.{Float64}

module _ (fl : Float64) (quantile : fl.Carrier) where
  -- How many summaries come after the first that has the quantile.
  abbrev after : Option fl.Carrier → ℕ → ℕ → ℕ
  after none behind rest = behind
  after (some v) behind rest = rest

  unfoldable pub behind_first : List (Summary fl.Carrier) → ℕ
  behind_first [] = 0
  behind_first (m ∷ ms) = after (find_quantile fl quantile m) (behind_first ms) (length ms)

  -- What is still to come: those after the first while the reader reads, and all once it has returned.
  abbrev left : Option fl.Carrier → List (Summary fl.Carrier) → ℕ
  left none pending = behind_first pending
  left (some v) pending = length pending

  behind_le : (ms : List (Summary fl.Carrier)) → behind_first ms ≤ length ms
  unfolding behind_first
  behind_le [] = omega arith
  behind_le (m ∷ ms) = of_found (find_quantile fl quantile m) (behind_le ms)
    where
      of_found :
          (found : Option fl.Carrier)
          → behind_first ms ≤ length ms
          → after found (behind_first ms) (length ms) ≤ suc (length ms)
      of_found none h = omega (arith, h)
      of_found (some v) h = omega arith

  left_le :
      (returned : Option fl.Carrier) (ms : List (Summary fl.Carrier)) → left returned ms ≤ length ms
  left_le none ms = behind_le ms
  left_le (some v) ms = omega arith

  -- The channel holds one summary at most, it is closed after the last, and `k` are left.
  abbrev Leaves : ℕ → Exchange fl.Carrier → Type 0
  Leaves k s =
      (s.closed ≡ true → s.unsent ≡ [])
      × (length s.buffer ≤ 1)
      × (left s.returned (s.buffer ++ s.unsent) ≡ k)

  send-Leaves :
      (k : ℕ) (unsent : List (Summary fl.Carrier)) (closed : Bool)
      (buffer : List (Summary fl.Carrier)) (returned : Option fl.Carrier)
      → Leaves k (exchange unsent closed buffer returned)
      → Leaves k (send unsent closed buffer returned)
  send-Leaves k [] closed buffer returned (ends, few, same) = ((λ e. refl), few, same)
  send-Leaves k (m ∷ ms) closed [] returned (ends, few, same) =
      ((λ e. absurd (let h : m ∷ ms ≡ [] = ends e in cc)), omega arith, same)
  send-Leaves k (m ∷ ms) closed (b ∷ bs) returned leaves = leaves

  left-after :
      (found : Option fl.Carrier) (rest : List (Summary fl.Carrier))
      → left found rest ≡ after found (behind_first rest) (length rest)
  left-after none rest = refl
  left-after (some v) rest = refl

  closed-Leaves :
      (k : ℕ) (unsent : List (Summary fl.Carrier))
      → unsent ≡ []
      → behind_first unsent ≡ k
      → length unsent ≡ k
  unfolding behind_first
  closed-Leaves k [] over same = same
  closed-Leaves k (m ∷ ms) over same = cc

  read-Leaves :
      (k : ℕ) (unsent : List (Summary fl.Carrier)) (closed : Bool)
      (buffer : List (Summary fl.Carrier)) (returned : Option fl.Carrier)
      → Leaves k (exchange unsent closed buffer returned)
      → Leaves k (read fl quantile unsent closed buffer returned)
  unfolding behind_first
  read-Leaves k unsent closed buffer (some v) leaves = leaves
  read-Leaves k unsent true [] none (ends, few, same) =
      (ends, few, closed-Leaves k unsent (ends refl) same)
  read-Leaves k unsent false [] none leaves = leaves
  read-Leaves k unsent closed (m ∷ ms) none (ends, few, same) =
      (ends, omega (arith, few), left-after (find_quantile fl quantile m) (ms ++ unsent) ∙ same)

  run-Leaves :
      (k : ℕ) (s : Exchange fl.Carrier) (ts : List Turn)
      → Leaves k s
      → Leaves k (run fl quantile s ts)
  unfolding run step
  run-Leaves k s [] leaves = leaves
  run-Leaves k s (sender ∷ ts) leaves =
      run-Leaves k (step fl quantile s sender) ts
        (send-Leaves k s.unsent s.closed s.buffer s.returned leaves)
  run-Leaves k s (reader ∷ ts) leaves =
      run-Leaves k (step fl quantile s reader) ts
        (read-Leaves k s.unsent s.closed s.buffer s.returned leaves)

  unsent_left :
      (unsent buffer : List (Summary fl.Carrier)) (returned : Option fl.Carrier)
      → length buffer ≤ 1
      → 2 ≤ left returned (buffer ++ unsent)
      → unsent ≢ []
  unsent_left [] [] returned few many e = absurd (omega (arith, left_le returned [], many))
  unsent_left [] (b ∷ []) returned few many e =
      absurd (omega (arith, left_le returned (b ∷ []), many))
  unsent_left [] (b ∷ c ∷ bs) returned few many e = absurd (omega (arith, few))
  unsent_left (m ∷ ms) buffer returned few many e = cc

-- The goroutine that collects the summaries never ends, whatever the order of the turns and however
-- many there are, if two or more summaries come after the first that has the quantile: it always has
-- one that it has not sent.
pub run_leaks :
    (fl : Float64) (summaries : List (Summary fl.Carrier)) (quantile : fl.Carrier) (ts : List Turn)
    → 2 ≤ behind_first fl quantile summaries
    → (run fl quantile (start summaries) ts).unsent ≢ []
run_leaks fl summaries quantile ts many =
    let s = run fl quantile (start summaries) ts in
    let (ends, few, same) =
      run-Leaves fl quantile (behind_first fl quantile summaries) (start summaries) ts
        ((λ h. absurd (let g : false ≡ true = h in cc)), omega arith, refl) in
    unsent_left fl quantile s.unsent s.buffer s.returned few (omega (arith, same, many))
