-- ===== src/Balancer/Selection/Totals.antt =====
-- The open requests on the servers of a list, in all.
use neura_balancer.Common.{
  ℕ, ◌+◌, ◌*◌, ◌<◌, ◌≤◌, ◌≡◌, refl, sym, inl, inr, List, [], ◌∷◌, length, All, In, count, subst,
  arith,
}
use neura_balancer.Balancer.{healthy}
use neura_balancer.Balancer.Sessions.{conns-increment}
use neura_balancer.Server.{Ref, Heap, increment_conns}
use neura_balancer.Strategies.LeastConnections.Minimal.{EarliestLeast}

-- All open requests on the servers of a list.
pub sum_conns : Heap → List Ref → ℕ
sum_conns h [] = 0
sum_conns h (r ∷ rs) = (h r).connections + sum_conns h rs

All-In : (P : Ref → Type 0) (rs : List Ref) (q : Ref) → All P rs → In q rs → P q
All-In P [] q all i = elim i [ ]
All-In P (r ∷ rs) q (p, ps) (inl e) = subst P (sym e) p
All-In P (r ∷ rs) q (p, ps) (inr i) = All-In P rs q ps i

pub EarliestLeast-le :
    (h : Heap) (r : Ref) (rs : List Ref) (q : Ref)
    → EarliestLeast h r rs
    → In q rs
    → (h r).connections ≤ (h q).connections
EarliestLeast-le h r [] q l i = elim i [ ]
EarliestLeast-le h r (b ∷ rs) q (inl (e, all)) (inl f) = rw (e, f) (omega arith)
EarliestLeast-le h r (b ∷ rs) q (inl (e, all)) (inr i) =
    rw e (All-In (λ p. (h b).connections ≤ (h p).connections) rs q all i)
EarliestLeast-le h r (b ∷ rs) q (inr (lt, l)) (inl f) = rw f (omega arith)
EarliestLeast-le h r (b ∷ rs) q (inr (lt, l)) (inr i) = EarliestLeast-le h r rs q l i

pub In-length : (q : Ref) (rs : List Ref) → In q rs → 0 < length rs
In-length q [] i = elim i [ ]
In-length q (r ∷ rs) i = omega arith

alive-increment : (h : Heap) (r q : Ref) → (increment_conns h r q).alive ≡ (h q).alive
unfolding increment_conns
alive-increment h r q = ground arith

pub healthy-increment :
    (h : Heap) (r : Ref) (rs : List Ref) → healthy (increment_conns h r) rs ≡ healthy h rs
unfolding healthy
healthy-increment h r [] = refl
healthy-increment h r (q ∷ qs) = rw (alive-increment h r q, healthy-increment h r qs) refl

pub sum_conns-increment :
    (h : Heap) (r : Ref) (rs : List Ref)
    → sum_conns (increment_conns h r) rs ≡ sum_conns h rs + count r rs
unfolding sum_conns
sum_conns-increment h r [] = refl
sum_conns-increment h r (q ∷ qs) = ground (arith, conns-increment h r q, sum_conns-increment h r qs)

-- Bounds of a sum whose terms are bounded, strict if one term is.
sum_conns-le :
    (h : Heap) (b : ℕ) (rs : List Ref)
    → ((r : Ref) → In r rs → (h r).connections ≤ b)
    → sum_conns h rs ≤ length rs * b
unfolding sum_conns
sum_conns-le h b [] bounds = omega arith
sum_conns-le h b (r ∷ rs) bounds =
    omega (arith, bounds r (inl refl), sum_conns-le h b rs (λ q i. bounds q (inr i)))

pub sum_conns-lt :
    (h : Heap) (b : ℕ) (rs : List Ref) (q : Ref)
    → ((r : Ref) → In r rs → (h r).connections ≤ b)
    → In q rs
    → (h q).connections < b
    → sum_conns h rs < length rs * b
unfolding sum_conns
sum_conns-lt h b [] q bounds i lt = elim i [ ]
sum_conns-lt h b (r ∷ rs) q bounds (inl e) lt =
    let lt' : (h r).connections < b = rw (sym e) lt in
    omega (arith, lt', sum_conns-le h b rs (λ p i. bounds p (inr i)))
sum_conns-lt h b (r ∷ rs) q bounds (inr i) lt =
    omega (arith, bounds r (inl refl), sum_conns-lt h b rs q (λ p j. bounds p (inr j)) i lt)

sum_conns-gt :
    (h : Heap) (b : ℕ) (rs : List Ref)
    → ((r : Ref) → In r rs → b ≤ (h r).connections + 1)
    → length rs * b ≤ sum_conns h rs + length rs
unfolding sum_conns
sum_conns-gt h b [] bounds = omega arith
sum_conns-gt h b (r ∷ rs) bounds =
    omega (arith, bounds r (inl refl), sum_conns-gt h b rs (λ q i. bounds q (inr i)))

pub sum_conns-above :
    (h : Heap) (b : ℕ) (rs : List Ref) (q : Ref)
    → ((r : Ref) → In r rs → b ≤ (h r).connections + 1)
    → In q rs
    → b ≤ (h q).connections
    → length rs * b < sum_conns h rs + length rs
unfolding sum_conns
sum_conns-above h b [] q bounds i le = elim i [ ]
sum_conns-above h b (r ∷ rs) q bounds (inl e) le =
    let le' : b ≤ (h r).connections = rw (sym e) le in
    omega (arith, le', sum_conns-gt h b rs (λ p i. bounds p (inr i)))
sum_conns-above h b (r ∷ rs) q bounds (inr i) le =
    omega (arith, bounds r (inl refl), sum_conns-above h b rs q (λ p j. bounds p (inr j)) i le)

pub sum_conns-idle :
    (h : Heap) (rs : List Ref) → ((r : Ref) → In r rs → (h r).connections ≡ 0) → sum_conns h rs ≡ 0
unfolding sum_conns
sum_conns-idle h [] idle = refl
sum_conns-idle h (r ∷ rs) idle =
    omega (arith, idle r (inl refl), sum_conns-idle h rs (λ q i. idle q (inr i)))
