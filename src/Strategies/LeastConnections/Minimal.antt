-- ===== src/Strategies/LeastConnections/Minimal.antt =====
-- Least connections picks the earliest server with the fewest open requests.
use neura_balancer.Common.{
  ◌≤◌, ◌<◌, ◌≡◌, refl, ◌⊎◌, inl, inr, Bool-cases, some, List, [], ◌∷◌, length, All, pos, ltb_ℤ,
  arith,
}
use neura_balancer.Server.{Ref, Heap}
use neura_balancer.Strategies.Pick.{server}
use neura_balancer.Strategies.LeastConnections.{scan, select}

-- `r` has fewer connections than each server before it and no more than each server behind it.
abbrev pub EarliestLeast : Heap → Ref → List Ref → Type 0
EarliestLeast h r [] = ⊥
EarliestLeast h r (q ∷ qs) =
    ((r ≡ q) × All (λ p. (h q).connections ≤ (h p).connections) qs)
    ⊎ (((h r).connections < (h q).connections) × EarliestLeast h r qs)

skip_one :
    (h : Heap) (r b x : Ref) (qs : List Ref)
    → (h b).connections ≤ (h x).connections
    → EarliestLeast h r (b ∷ qs)
    → EarliestLeast h r (b ∷ x ∷ qs)
skip_one h r b x qs le (inl (e, all)) = inl (e, (le, all))
skip_one h r b x qs le (inr (lt, rest)) = inr (lt, inr (omega arith, rest))

least-le :
    (h : Heap) (r b : Ref) (qs : List Ref)
    → EarliestLeast h r (b ∷ qs)
    → (h r).connections ≤ (h b).connections
least-le h r b qs (inl (e, all)) = rw e (omega arith)
least-le h r b qs (inr (lt, rest)) = omega arith

scan_least :
    (h : Heap) (b : Ref) (rs : List Ref)
    → (r : Ref) × (scan h (some b) (pos (h b).connections) rs ≡ some r) × EarliestLeast h r (b ∷ rs)
unfolding scan
scan_least h b [] = (b, refl, inl (refl, tt))
scan_least h b (x ∷ rs) =
    elim (Bool-cases (ltb_ℤ (pos (h x).connections) (pos (h b).connections))) [
      | inl less ↦
          let (r, e, least) = scan_least h x rs in
          let lt : (h x).connections < (h b).connections = ground arith in
          let le : (h r).connections ≤ (h x).connections = least-le h r x rs least in
          (r, rw less e, inr (omega arith, least))
      | inr more ↦
          let (r, e, least) = scan_least h b rs in
          (r, rw more e, skip_one h r b x rs (ground arith) least)
    ]

-- On a list that is not empty the pick is the earliest server with the fewest connections.
pub select_least :
    (h : Heap) (servers : List Ref)
    → 0 < length servers
    → (r : Ref) × (select h servers ≡ server r) × EarliestLeast h r servers
unfolding select scan
select_least h [] p = elim p [ ]
select_least h (b ∷ rs) p = let (r, e, least) = scan_least h b rs in (r, rw e, least)
