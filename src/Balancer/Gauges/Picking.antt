-- ===== src/Balancer/Gauges/Picking.antt =====
-- The strategies pick from the list of servers.
use neura_balancer.Common.{
  ℕ, ◌≡◌, refl, sym, ◌∙◌, inl, inr, List, [], ◌∷◌, length, In, subst, ◌⊎◌, Bool-cases, Option-cases,
  ◌==◌, get_elem?, get_elem?-In, arith,
}
use neura_balancer.Balancer.Gauges.Watching.{PicksFrom}
use neura_balancer.Balancer.Selection.Alive.{EarliestLeast-In}
use neura_balancer.Factory.{least_connections, weighted_round_robin}
use neura_balancer.Server.{Ref, Heap}
use neura_balancer.Strategies.LeastConnections
use neura_balancer.Strategies.WeightedRoundRobin
use neura_balancer.Strategies.WeightedRoundRobin.{WeightedRoundRobin, build_slots, refresh, advance}
use neura_balancer.Strategies.WeightedRoundRobin.Stale.{In-build_slots}
use neura_balancer.Strategies.LeastConnections.Minimal.{select_least}
use neura_balancer.Strategies.Pick.{server, index_mod, int_rem, pick_at}

pub least-In :
    (h : Heap) (alive : List Ref) (r : Ref)
    → LeastConnections.select h alive ≡ server r
    → In r alive
unfolding LeastConnections.select LeastConnections.scan
least-In h [] r e = ground arith
least-In h (q ∷ qs) r e =
    let (p, f, least) = select_least h (q ∷ qs) (omega arith) in
    let same : p ≡ r = ground (arith, sym f ∙ e) in
    subst (λ x. In x (q ∷ qs)) same (EarliestLeast-In h p (q ∷ qs) least)

abbrev pub least_connections-PicksFrom : PicksFrom least_connections
least_connections-PicksFrom = record {
  Good = λ servers s. Unit {0};
  picks = λ servers s world h alive r good sub e. sub r (least-In h alive r e);
  keeps = λ servers s world h alive good sub. tt;
}

pick_at-In :
    (slots : List Ref) (i : ℕ) (r : Ref) → pick_at (get_elem? slots i) ≡ server r → In r slots
pick_at-In slots i r e = elim (Option-cases (get_elem? slots i)) [
  | inl missing ↦ absurd (ground (arith, rw missing at e))
  | inr (q, found) ↦ get_elem?-In slots i (ground (arith, found, e))
]

index_mod-In : (slots : List Ref) (x : ℕ) (r : Ref) → index_mod slots x ≡ server r → In r slots
unfolding index_mod
index_mod-In slots x r e = elim (Option-cases (int_rem x (length slots))) [
  | inl negative ↦ absurd (ground (arith, rw (negative, index_mod) at e))
  | inr (i, place) ↦ pick_at-In slots i r (rw (place, index_mod) at e)
]

refresh-In :
    (w : WeightedRoundRobin) (h : Heap) (servers alive : List Ref)
    → ((q : Ref) → In q w.slots → In q servers)
    → ((q : Ref) → In q alive → In q servers)
    → (q : Ref) → In q (refresh w h alive).slots
    → In q servers
unfolding refresh
refresh-In w h servers alive old sub q i = elim (Bool-cases (length alive == w.last_pool_size)) [
  | inl same ↦ old q (rw same at i)
  | inr other ↦ sub q (In-build_slots h q alive (rw other at i))
]

advance-In :
    (w : WeightedRoundRobin) (first : Ref) (slots : List Ref) (r : Ref)
    → (advance w first slots).1 ≡ server r
    → (r ≡ first) ⊎ In r slots
unfolding advance
advance-In w first [] r e = inl (ground arith)
advance-In w first (s ∷ ss) r e = inr (index_mod-In (s ∷ ss) w.current r e)

advance-slots :
    (w : WeightedRoundRobin) (first : Ref) (slots : List Ref)
    → (advance w first slots).0.slots ≡ w.slots
unfolding advance
advance-slots w first [] = refl
advance-slots w first (s ∷ ss) = refl

pub weighted-In :
    (servers : List Ref) (w : WeightedRoundRobin) (h : Heap) (alive : List Ref) (r : Ref)
    → ((q : Ref) → In q w.slots → In q servers)
    → ((q : Ref) → In q alive → In q servers)
    → (WeightedRoundRobin.select w h alive).1 ≡ server r
    → In r servers
unfolding WeightedRoundRobin.select
weighted-In servers w h [] r old sub e = ground arith
weighted-In servers w h (q ∷ qs) r old sub e =
    let w' = refresh w h (q ∷ qs) in
    elim (advance-In w' q w'.slots r e) [
      | inl first ↦ sub r (inl first)
      | inr i ↦ refresh-In w h servers (q ∷ qs) old sub r i
    ]

pub weighted-slots :
    (servers : List Ref) (w : WeightedRoundRobin) (h : Heap) (alive : List Ref)
    → ((q : Ref) → In q w.slots → In q servers)
    → ((q : Ref) → In q alive → In q servers)
    → (q : Ref) → In q (WeightedRoundRobin.select w h alive).0.slots
    → In q servers
unfolding WeightedRoundRobin.select
weighted-slots servers w h [] old sub q i = old q i
weighted-slots servers w h (r ∷ rs) old sub q i =
    let w' = refresh w h (r ∷ rs) in
    refresh-In w h servers (r ∷ rs) old sub q (rw (advance-slots w' r w'.slots) at i)

abbrev pub weighted_round_robin-PicksFrom : PicksFrom weighted_round_robin
weighted_round_robin-PicksFrom = record {
  Good = λ servers w. (q : Ref) → In q w.slots → In q servers;
  picks = λ servers w world h alive r good sub e. weighted-In servers w h alive r good sub e;
  keeps = λ servers w world h alive good sub. weighted-slots servers w h alive good sub;
}
