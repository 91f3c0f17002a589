-- ===== src/Strategies/Pick.antt =====
-- What `Select` of backend/internal/loadbalancer/strategies.go comes to, and Go's indexing by an
-- integer that may have wrapped.
use neura_balancer.Common.{
  ℕ, zero, suc, ◌+◌, ◌-◌, ◌%◌, ◌^◌, ◌<◌, ◌≡◌, refl, Option, none, some, List, [], ◌∷◌, ◌≢◌, ◌≤◌,
  length, get_elem?, get_elem?_total, get_elem?-In, In, holds, ltb, ◌==◌, if◌then◌else◌, arith,
}
use native.Mathlib.Nat.{mod-lt}
use neura_balancer.Server.{Ref}

-- `run_time_panic` is the run-time panic of an index out of range.
pub data Pick : Type 0 where
  nil_server : Pick
  server : Ref → Pick
  run_time_panic : Pick

-- `int(x) % n` for the 64-bit pattern `x` and `0 < n`, where it is no negative number: from 2^63
-- on the pattern stands for x - 2^64, and Go's remainder takes its sign from there.
unfoldable pub int_rem : ℕ → ℕ → Option ℕ
int_rem x n =
    if ltb x (2 ^ 63) then some (x % n) else (if (2 ^ 64 - x) % n == 0 then some 0 else none)

abbrev pub pick_at : Option Ref → Pick
pick_at none = run_time_panic
pick_at (some r) = server r

-- `servers[int(x)%len(servers)]`
unfoldable pub index_mod : List Ref → ℕ → Pick
unfolding int_rem
index_mod servers x = elim (int_rem x (length servers)) [
  | none ↦ run_time_panic
  | some i ↦ pick_at (get_elem? servers i)
]

-- Below 2^63 the index is the remainder.
pub index_mod-get_elem? :
    (servers : List Ref) (x : ℕ)
    → x < 2 ^ 63
    → index_mod servers x ≡ pick_at (get_elem? servers (x % length servers))
unfolding index_mod
index_mod-get_elem? servers x h = ground arith

-- Below 2^63, on a list that is not empty, the pick is an element of the list.
pub index_mod_total :
    (servers : List Ref) (x : ℕ)
    → 0 < length servers
    → x < 2 ^ 63
    → (r : Ref) × (index_mod servers x ≡ server r) × In r servers
index_mod_total servers x p h =
    let (r, e) = get_elem?_total servers (x % length servers) (mod-lt x p) in
    (r, rw (index_mod-get_elem? servers x h, e), get_elem?-In servers (x % length servers) e)

-- A panic comes exactly where the counter has passed 2^63 at no multiple of the length.
pub index_mod_panics :
    (servers : List Ref) (x : ℕ)
    → 2 ^ 63 ≤ x
    → (2 ^ 64 - x) % length servers ≢ 0
    → index_mod servers x ≡ run_time_panic
unfolding index_mod
index_mod_panics servers x p h = ground arith

-- The picks of `m` calls in a row, of a `Select` that carries a state.
unfoldable pub picks {ℓ} : {S : Type ℓ} → (S → S × Pick) → ℕ → S → List Pick
picks f zero s = []
picks f (suc m) s = let (s', p) = f s in p ∷ picks f m s'

abbrev pub hit : Ref → Pick → ℕ
hit r nil_server = 0
hit r (server q) = if r == q then 1 else 0
hit r run_time_panic = 0

-- How many of the picks are the server `r`.
unfoldable pub hits : Ref → List Pick → ℕ
hits r [] = 0
hits r (p ∷ ps) = hit r p + hits r ps

pub hit-pick_at : (r : Ref) (o : Option Ref) → o ≢ none → hit r (pick_at o) ≡ holds r o
hit-pick_at r none h = absurd (h refl)
hit-pick_at r (some q) h = refl
