-- ===== src/Strategies/RoundRobin/Fairness.antt =====
-- Round robin serves every server alike, and what happens when its counter passes 2^63.
use neura_balancer.Common.{
  ℕ, suc, ◌+◌, ◌-◌, ◌*◌, ◌%◌, ◌^◌, ◌≤◌, ◌<◌, ◌≡◌, ◌≢◌, ◌∙◌, sym, In, List, [], ◌∷◌, length,
  get_elem?, count, arith,
}
use neura_balancer.Server.{Ref}
use neura_balancer.Strategies.Cycle.{hits-picks-rounds}
use neura_balancer.Strategies.Pick.{
  run_time_panic, index_mod-get_elem?, index_mod_panics, index_mod_total, server, pick_at, picks,
  hits,
}
use neura_balancer.Strategies.RoundRobin.{RoundRobin, select}

-- One call before the counter passes 2^63.
pub select_lem :
    (r : RoundRobin) (servers : List Ref)
    → 0 < length servers
    → r.counter < 2 ^ 63
    → select r servers ≡ (
      record { counter = suc r.counter },
      pick_at (get_elem? servers (r.counter % length servers)),
    )
unfolding select
select_lem r [] p h = elim p [ ]
select_lem r (s ∷ ss) p h = ground (arith, index_mod-get_elem? (s ∷ ss) r.counter)

-- Below 2^63 the pick is an element of the list.
pub select_total :
    (st : RoundRobin) (servers : List Ref)
    → 0 < length servers
    → st.counter < 2 ^ 63
    → (r : Ref) × ((select st servers).1 ≡ server r) × In r servers
select_total st servers p h =
    let (r, e, i) = index_mod_total servers st.counter p h in
    (r, rw (select_lem st servers p h) (sym (index_mod-get_elem? servers st.counter h) ∙ e), i)

-- Over `k` rounds of a server list that does not change, started at any counter from which they
-- do not pass 2^63, each server is picked `k` times for each of its places in the list.
pub hits-picks_even :
    (servers : List Ref) (r k c : ℕ)
    → 0 < length servers
    → c + k * length servers ≤ 2 ^ 63
    → hits r (picks (λ st. select st servers) (k * length servers) (record { counter = c }))
      ≡ k * count r servers
hits-picks_even servers r k c p h =
    hits-picks-rounds (λ st. select st servers) (λ c. record { counter = c }) servers p
      (λ c h. select_lem (record { counter = c }) servers p h) r k c h

-- From 2^63 on the converted counter is negative: where its distance to 2^64 is no multiple of the
-- number of servers, the call panics.
pub select_panics :
    (c : ℕ) (servers : List Ref)
    → 0 < length servers
    → 2 ^ 63 ≤ c
    → c < 2 ^ 64
    → (2 ^ 64 - c) % length servers ≢ 0
    → (select (record { counter = c }) servers).1 ≡ run_time_panic
unfolding select
select_panics c [] n p q h = elim n [ ]
select_panics c (s ∷ ss) n p q h =
    let e : ((c + 1) % 2 ^ 64 + 2 ^ 64 - 1) % 2 ^ 64 ≡ c = omega arith in
    rw e (index_mod_panics (s ∷ ss) c p h)
