-- ===== src/Metrics/Collector/Overlap/Orders.antt =====
-- Calls of `RecordRequest` whose turns come in a given order: one call alone, and two that overlap.
use neura_balancer.Common.{
  ◌≡◌, refl, inl, inr, Bool-cases, false, List, [], ◌∷◌, ◌++◌, replicate, int_eq_refl,
}
use neura_balancer.Metrics.Collector.{Collector, Request, blend, record_request, update_error_rate}
use neura_balancer.Metrics.Collector.Overlap.{Turn, records, moves, ended, step, run, resume, move}
use neura_balancer.Metrics.Collector.Overlap.Blended.{starting}
use neura_balancer.Metrics.Float64.{Float64}

module _ (fl : Float64) where
  -- A call that no other call comes between leaves what `record_request` leaves.
  run-record_request :
      (c : Collector fl.Carrier) (r : Request fl.Carrier)
      → run fl (starting fl c) (records r ∷ replicate 6 (moves 0)) ≡ record {
        collector = (record_request fl c r).0;
        callers = ended r ∷ [];
        inserts = (record_request fl c r).1 ∷ [];
      }
  unfolding run step resume move record_request update_error_rate
  run-record_request c r = elim (Bool-cases r.success) [
    | inl well ↦ rw well refl
    | inr failed ↦ rw failed refl
  ]

  abbrev pub overtaking : Request fl.Carrier → Request fl.Carrier → List (Turn fl)
  overtaking r q =
      records r
      ∷ records q
      ∷ (replicate 4 (moves 0) ++ (replicate 6 (moves 1) ++ replicate 2 (moves 0)))

  -- Of two failed requests of one server, where one gets its turns between the other's reading and
  -- setting the error rate, only one is in the rate.
  pub error_rate-run_lost :
      (c : Collector fl.Carrier) (r q : Request fl.Carrier)
      → r.success ≡ false
      → q.success ≡ false
      → q.server_id ≡ r.server_id
      → (run fl (starting fl c) (overtaking r q)).collector.error_rate r.server_id
        ≡ blend fl (c.error_rate r.server_id)
  unfolding run step resume move
  error_rate-run_lost c r q failed failed' same = rw (failed, failed', int_eq_refl r.server_id) refl
