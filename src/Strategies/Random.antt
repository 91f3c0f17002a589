-- ===== src/Strategies/Random.antt =====
-- `Random` of backend/internal/loadbalancer/strategies.go. `intn` stands for the call of
-- `rand.Intn`, the number that it draws below its argument.
use neura_balancer.Common.{
  ℕ, ◌<◌, ◌≡◌, List, [], ◌∷◌, length, get_elem?, get_elem?_total, get_elem?-In, In,
}
use neura_balancer.Server.{Ref}
use neura_balancer.Strategies.Pick.{Pick, nil_server, server, pick_at}

unfoldable pub select : (ℕ → ℕ) → List Ref → Pick
select intn [] = nil_server
select intn (s ∷ ss) = pick_at (get_elem? (s ∷ ss) (intn (length (s ∷ ss))))

-- With a draw in range the pick is an element of the list.
pub select-In :
    (intn : ℕ → ℕ) (servers : List Ref)
    → ((n : ℕ) → 0 < n → intn n < n)
    → 0 < length servers
    → (r : Ref) × (select intn servers ≡ server r) × In r servers
unfolding select
select-In intn [] law p = elim p [ ]
select-In intn (s ∷ ss) law p =
    let (r, e) = get_elem?_total (s ∷ ss) (intn (length (s ∷ ss))) (law _ p) in
    (r, rw e, get_elem?-In (s ∷ ss) (intn (length (s ∷ ss))) e)
