-- ===== src/Strategies/Cycle.antt =====
-- The picks of a strategy that walks round a list of slots, one slot a call: the loop that round
-- robin and weighted round robin share in backend/internal/loadbalancer/strategies.go.
use neura_balancer.Common.{
  ℕ, zero, suc, ◌+◌, ◌*◌, ◌%◌, ◌^◌, ◌≤◌, ◌<◌, ◌≡◌, ◌∙◌, refl, List, length, get_elem?,
  get_elem?_total, count, holds, total, total-cycle, arith,
}
use native.Mathlib.Nat.{mod-lt}
use neura_balancer.Server.{Ref}
use neura_balancer.Strategies.Pick.{Pick, pick_at, picks, hits, hit}

module _ {S : Type 0} (select : S → S × Pick) (state : ℕ → S) (slots : List Ref)
    (some_slot : 0 < length slots)
    (step : (c : ℕ)
      → c < 2 ^ 63
      → select (state c) ≡ (state (suc c), pick_at (get_elem? slots (c % length slots)))) where
  hit-slot :
      (r c : ℕ)
      → hit r (pick_at (get_elem? slots (c % length slots)))
        ≡ holds r (get_elem? slots (c % length slots))
  hit-slot r c = let (q, e) = get_elem?_total slots (c % length slots) (mod-lt c some_slot) in rw e

  hits-picks :
      (r m c : ℕ)
      → c + m ≤ 2 ^ 63
      → hits r (picks select m (state c))
        ≡ total (λ j. holds r (get_elem? slots (j % length slots))) c m
  unfolding picks hits total
  hits-picks r zero c h = refl
  hits-picks r (suc m) c h =
      rw (step c (omega arith)) (omega (arith, hit-slot r c, hits-picks r m (suc c) (omega arith)))

  -- In `k` rounds each server is picked `k` times for each of its slots.
  pub hits-picks-rounds :
      (r k c : ℕ)
      → c + k * length slots ≤ 2 ^ 63
      → hits r (picks select (k * length slots) (state c)) ≡ k * count r slots
  hits-picks-rounds r k c h = hits-picks r (k * length slots) c h ∙ total-cycle r slots k c
