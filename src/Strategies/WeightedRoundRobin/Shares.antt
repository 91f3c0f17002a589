-- ===== src/Strategies/WeightedRoundRobin/Shares.antt =====
-- Weighted round robin serves each server in proportion to its weight, and keeps serving an old list.
use neura_balancer.Common.{
  ℕ, zero, suc, ◌+◌, ◌*◌, ◌%◌, ◌^◌, ◌≤◌, ◌<◌, ◌≡◌, ◌∙◌, ap, refl, List, [], ◌∷◌, ◌++◌, length,
  replicate, get_elem?, count, count-append, count-replicate, pos, negsuc, ℤ, arith,
}
use neura_balancer.Server.{Ref, Heap}
use neura_balancer.Strategies.Cycle.{hits-picks-rounds}
use neura_balancer.Strategies.Pick.{index_mod-get_elem?, pick_at, picks, hits}
use neura_balancer.Strategies.WeightedRoundRobin.{
  WeightedRoundRobin, share, build_slots, refresh, advance, select,
}

pub share-pos : (w : ℤ) → 0 < share w
unfolding share
share-pos (pos zero) = omega arith
share-pos (pos (suc n)) = omega arith
share-pos (negsuc n) = omega arith

length-replicate_pos : (n x : ℕ) (rest : List ℕ) → 0 < n → 0 < length (replicate n x ++ rest)
length-replicate_pos zero x rest h = elim h [ ]
length-replicate_pos (suc n) x rest h = omega arith

-- Each server holds as many slots as its share, for each place that it has in the list.
pub count-build_slots :
    (h : Heap) (r : Ref) (servers : List Ref)
    → count r (build_slots h servers) ≡ count r servers * share (h r).weight
unfolding build_slots
count-build_slots h r [] = omega arith
count-build_slots h r (q ∷ qs) = ground (
  arith,
  count-append r (replicate (share (h q).weight) q) (build_slots h qs),
  count-replicate r (share (h q).weight) q,
  count-build_slots h r qs,
)

pub build_slots_pos :
    (h : Heap) (servers : List Ref) → 0 < length servers → 0 < length (build_slots h servers)
unfolding build_slots
build_slots_pos h [] p = elim p [ ]
build_slots_pos h (r ∷ rs) p =
    length-replicate_pos (share (h r).weight) r (build_slots h rs) (share-pos (h r).weight)

-- The state after `c` calls since the slots were built.
abbrev pub settled : Heap → List Ref → ℕ → WeightedRoundRobin
settled h servers c = record {
  current = c;
  slots = build_slots h servers;
  last_pool_size = length servers;
}

advance_lem :
    (w : WeightedRoundRobin) (first : Ref) (slots : List Ref)
    → 0 < length slots
    → w.current < 2 ^ 63
    → advance w first slots
      ≡ (record w { current = suc w.current }, pick_at (get_elem? slots (w.current % length slots)))
unfolding advance
advance_lem w first [] p h = elim p [ ]
advance_lem w first (s ∷ ss) p h = ground (arith, index_mod-get_elem? (s ∷ ss) w.current)

-- A list as long as the last one leaves the slots as they are.
pub refresh_same :
    (w : WeightedRoundRobin) (h : Heap) (servers : List Ref)
    → length servers ≡ w.last_pool_size
    → refresh w h servers ≡ w
unfolding refresh
refresh_same w h servers e = ground arith

-- One call on a list as long as the one that the slots were built from.
pub select_settled :
    (h h' : Heap) (servers now : List Ref) (c : ℕ)
    → 0 < length servers
    → length now ≡ length servers
    → c < 2 ^ 63
    → select (settled h servers c) h' now ≡ (
      settled h servers (suc c),
      pick_at (get_elem? (build_slots h servers) (c % length (build_slots h servers))),
    )
unfolding select refresh
select_settled h h' servers [] c p e q = absurd (omega arith)
select_settled h h' servers (r ∷ rs) c p e q =
    rw (refresh_same (settled h servers c) h' (r ∷ rs) e)
      (advance_lem (settled h servers c) r (build_slots h servers) (build_slots_pos h servers p) q)

-- In `k` rounds over the slots of a server list that does not change, started at any place from
-- which the counter does not pass 2^63, each server is picked `k` times its weight (1 where the
-- weight is below 1) for each of its places in the list.
pub hits-picks_weighted :
    (h : Heap) (servers : List Ref) (r k c : ℕ)
    → 0 < length servers
    → c + k * length (build_slots h servers) ≤ 2 ^ 63
    → hits r
        (picks (λ w. select w h servers) (k * length (build_slots h servers)) (settled h servers c))
      ≡ k * (count r servers * share (h r).weight)
hits-picks_weighted h servers r k c p b =
    hits-picks-rounds (λ w. select w h servers) (settled h servers) (build_slots h servers)
      (build_slots_pos h servers p) (λ c q. select_settled h h servers servers c p refl q) r k c b
    ∙ ap (λ t. k * t) (count-build_slots h r servers)
