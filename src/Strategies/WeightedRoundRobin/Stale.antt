-- ===== src/Strategies/WeightedRoundRobin/Stale.antt =====
-- The slots of weighted round robin are those of the list that they were built from, as long as the
-- length of the list stays the same.
use neura_balancer.Common.{
  ℕ, ◌^◌, ◌<◌, ◌≡◌, ◌≢◌, ◌∙◌, refl, sym, ◌⊎◌, inl, inr, List, [], ◌∷◌, ◌++◌, zero, suc, length,
  replicate, In, ◌%◌, get_elem?_total, get_elem?-In, arith,
}
use native.Mathlib.Nat.{mod-lt}
use neura_balancer.Server.{Ref, Heap}
use neura_balancer.Strategies.Pick.{server}
use neura_balancer.Strategies.WeightedRoundRobin.{
  WeightedRoundRobin, share, build_slots, refresh, select,
}
use neura_balancer.Strategies.WeightedRoundRobin.Shares.{settled, select_settled, build_slots_pos}

-- A list of another length than the last one starts a new cycle over its own slots.
pub refresh_new :
    (w : WeightedRoundRobin) (h : Heap) (servers : List Ref)
    → length servers ≢ w.last_pool_size
    → refresh w h servers ≡ settled h servers 0
unfolding refresh
refresh_new w h servers e = ground arith

In-append-replicate :
    (r x n : ℕ) (rest : List ℕ) → In r (replicate n x ++ rest) → (r ≡ x) ⊎ In r rest
In-append-replicate r x zero rest i = inr i
In-append-replicate r x (suc n) rest (inl e) = inl e
In-append-replicate r x (suc n) rest (inr i) = In-append-replicate r x n rest i

-- Only servers of the list have slots.
pub In-build_slots :
    (h : Heap) (r : Ref) (servers : List Ref) → In r (build_slots h servers) → In r servers
unfolding build_slots
In-build_slots h r [] i = i
In-build_slots h r (q ∷ qs) i =
    elim (In-append-replicate r q (share (h q).weight) (build_slots h qs) i) [
      | inl e ↦ inl e
      | inr j ↦ inr (In-build_slots h r qs j)
    ]

module _ (h h' : Heap) (old now : List Ref) (c : ℕ) (some_server : 0 < length old)
    (same_length : length now ≡ length old) (small : c < 2 ^ 63) where
  -- What a call picks, and the state that it leaves, depend on the list that it is given by its
  -- length only.
  pub select_old_list : select (settled h old c) h' now ≡ select (settled h old c) h old
  select_old_list =
      select_settled h h' old now c some_server same_length small
      ∙ sym (select_settled h h old old c some_server refl small)

  -- A list of the same length as the last one gets a server of the last one.
  pub select_In_old : (r : Ref) × ((select (settled h old c) h' now).1 ≡ server r) × In r old
  select_In_old =
      let slots = build_slots h old in
      let (r, e) =
        get_elem?_total slots (c % length slots) (mod-lt c (build_slots_pos h old some_server)) in
      (
        r,
        rw (select_settled h h' old now c some_server same_length small, e),
        In-build_slots h r old (get_elem?-In slots (c % length slots) e),
      )
