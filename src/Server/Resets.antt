-- ===== src/Server/Resets.antt =====
-- `Connections` of one server of backend/internal/loadbalancer/balancer.go, an access at a time:
-- `incrementConns` and `decrementConns` hold the mutex of the server, and the reset of a health check
-- writes the field without it. The field is an `int`, and may be negative here.
use neura_balancer.Common.{
  ℕ, zero, suc, ◌≡◌, refl, Bool, true, false, if◌then◌else◌, List, [], ◌∷◌, ℤ, pos, negsuc, leb_ℤ,
  arith,
}

-- Who holds the mutex, and where: before the write of `++` with the value that was read, behind the
-- guard of the decrement, or before the write of `--`.
pub data Holder : Type 0 where
  free guarded : Holder
  raising lowering : ℤ → Holder

pub record Count : Type 0 where
  pub connections : ℤ
  pub holder : Holder

-- A goroutine locks the mutex for an increment or for a decrement, the one that holds it goes on, or
-- a health check resets the count.
pub data Access : Type 0 where
  increments decrements proceeds resets : Access

abbrev pub successor : ℤ → ℤ
successor (pos n) = pos (suc n)
successor (negsuc zero) = pos 0
successor (negsuc (suc n)) = negsuc n

abbrev pub predecessor : ℤ → ℤ
predecessor (pos zero) = negsuc 0
predecessor (pos (suc n)) = pos n
predecessor (negsuc n) = negsuc (suc n)

abbrev pub is_positive : ℤ → Bool
is_positive (pos zero) = false
is_positive (pos (suc n)) = true
is_positive (negsuc n) = false

-- A goroutine that finds the mutex taken waits.
abbrev pub lock : Holder → Holder → Holder
lock free wanted = wanted
lock guarded wanted = guarded
lock (raising v) wanted = raising v
lock (lowering v) wanted = lowering v

abbrev pub proceed : ℤ → Holder → Count
proceed c free = record { connections = c; holder = free }
proceed c guarded = record { connections = c; holder = lowering c }
proceed c (raising v) = record { connections = successor v; holder = free }
proceed c (lowering v) = record { connections = predecessor v; holder = free }

unfoldable pub access : Count → Access → Count
access y increments = record y { holder = lock y.holder (raising y.connections) }
access y decrements = record y {
  holder = lock y.holder (if is_positive y.connections then guarded else free);
}
access y proceeds = proceed y.connections y.holder
access y resets = record y { connections = pos 0 }

unfoldable pub run : Count → List Access → Count
unfolding access
run y [] = y
run y (a ∷ accesses) = run (access y a) accesses

abbrev IsNatural : ℤ → Type 0
IsNatural (pos n) = Unit
IsNatural (negsuc n) = ⊥

abbrev IsAlmostNatural : ℤ → Type 0
IsAlmostNatural (pos n) = Unit
IsAlmostNatural (negsuc zero) = Unit
IsAlmostNatural (negsuc (suc n)) = ⊥

almost : (c : ℤ) → IsNatural c → IsAlmostNatural c
almost (pos n) h = tt
almost (negsuc n) h = elim h [ ]

-- Behind the guard the count and the value read are natural: only resets come between.
abbrev IsWithin : ℤ → Holder → Type 0
IsWithin c free = IsAlmostNatural c
IsWithin c guarded = IsNatural c
IsWithin c (raising v) = IsAlmostNatural c × IsAlmostNatural v
IsWithin c (lowering v) = IsNatural c × IsNatural v

raised : (v : ℤ) → IsAlmostNatural v → IsAlmostNatural (successor v)
raised (pos n) h = tt
raised (negsuc zero) h = tt
raised (negsuc (suc n)) h = elim h [ ]

lowered : (v : ℤ) → IsNatural v → IsAlmostNatural (predecessor v)
lowered (pos zero) h = tt
lowered (pos (suc n)) h = tt
lowered (negsuc n) h = elim h [ ]

guard-IsWithin : (c : ℤ) → IsAlmostNatural c → IsWithin c (if is_positive c then guarded else free)
guard-IsWithin (pos zero) h = tt
guard-IsWithin (pos (suc n)) h = tt
guard-IsWithin (negsuc n) h = h

increments-IsWithin :
    (c : ℤ) (holder : Holder) → IsWithin c holder → IsWithin c (lock holder (raising c))
increments-IsWithin c free h = (h, h)
increments-IsWithin c guarded h = h
increments-IsWithin c (raising v) h = h
increments-IsWithin c (lowering v) h = h

decrements-IsWithin :
    (c : ℤ) (holder : Holder)
    → IsWithin c holder
    → IsWithin c (lock holder (if is_positive c then guarded else free))
decrements-IsWithin c free h = guard-IsWithin c h
decrements-IsWithin c guarded h = h
decrements-IsWithin c (raising v) h = h
decrements-IsWithin c (lowering v) h = h

proceeds-IsWithin :
    (c : ℤ) (holder : Holder)
    → IsWithin c holder
    → IsWithin (proceed c holder).connections (proceed c holder).holder
proceeds-IsWithin c free h = h
proceeds-IsWithin c guarded h = (h, h)
proceeds-IsWithin c (raising v) h = raised v h.1
proceeds-IsWithin c (lowering v) h = lowered v h.1

resets-IsWithin : (c : ℤ) (holder : Holder) → IsWithin c holder → IsWithin (pos 0) holder
resets-IsWithin c free h = tt
resets-IsWithin c guarded h = tt
resets-IsWithin c (raising v) h = (tt, h.1)
resets-IsWithin c (lowering v) h = (tt, h.1)

access-IsWithin :
    (y : Count) (a : Access)
    → IsWithin y.connections y.holder
    → IsWithin (access y a).connections (access y a).holder
unfolding access
access-IsWithin y increments h = increments-IsWithin y.connections y.holder h
access-IsWithin y decrements h = decrements-IsWithin y.connections y.holder h
access-IsWithin y proceeds h = proceeds-IsWithin y.connections y.holder h
access-IsWithin y resets h = resets-IsWithin y.connections y.holder h

run-IsWithin :
    (y : Count) (accesses : List Access)
    → IsWithin y.connections y.holder
    → IsWithin (run y accesses).connections (run y accesses).holder
unfolding run
run-IsWithin y [] h = h
run-IsWithin y (a ∷ accesses) h = run-IsWithin (access y a) accesses (access-IsWithin y a h)

within-IsAlmostNatural : (c : ℤ) (holder : Holder) → IsWithin c holder → IsAlmostNatural c
within-IsAlmostNatural c free h = h
within-IsAlmostNatural c guarded h = almost c h
within-IsAlmostNatural c (raising v) h = h.0
within-IsAlmostNatural c (lowering v) h = almost c h.0

leb-IsAlmostNatural : (c : ℤ) → IsAlmostNatural c → leb_ℤ (negsuc 0) c ≡ true
leb-IsAlmostNatural (pos n) h = ground arith
leb-IsAlmostNatural (negsuc zero) h = refl
leb-IsAlmostNatural (negsuc (suc n)) h = elim h [ ]

abbrev pub resting : ℕ → Count
resting n = record { connections = pos n; holder = free }

-- From a count that is not negative, in every interleaving of any number of increments, decrements
-- and resets, the count never falls below -1.
pub run_bounded :
    (n : ℕ) (accesses : List Access)
    → leb_ℤ (negsuc 0) (run (resting n) accesses).connections ≡ true
run_bounded n accesses =
    let y = run (resting n) accesses in
    leb-IsAlmostNatural y.connections
      (within-IsAlmostNatural y.connections y.holder (run-IsWithin (resting n) accesses tt))
