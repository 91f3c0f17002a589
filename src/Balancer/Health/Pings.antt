-- ===== src/Balancer/Health/Pings.antt =====
-- When a ping succeeds.
use neura_balancer.Common.{
  ℕ, zero, suc, ◌+◌, ◌<◌, ◌≡◌, ◌≢◌, ◌⊎◌, ◌↔◌, inl, inr, ◌∙◌, ap, sym, true, ℤ, pos_part, arith,
}
use native.Mathlib.Nat.{add-zero, zero-add}
use neura_balancer.Common.Text.{Text}
use neura_balancer.Balancer.Health.{
  Attempt, not_created, not_answered, answered, ping_url, ping_from, ping_server,
}
use neura_balancer.Server.{Server}

Attempt-cases : (a : Attempt) → (a ≡ answered 200) ⊎ ((a ≢ answered 200))
Attempt-cases not_created = inr (λ e. cc)
Attempt-cases not_answered = inr (λ e. cc)
Attempt-cases (answered n) = ground arith

shift : (attempt : ℕ → Attempt) (i k : ℕ) → attempt (suc i + k) ≡ attempt (i + suc k)
shift attempt i k = ap attempt (omega arith)

ping_from-true :
    (rounds i k : ℕ) (attempt : ℕ → Attempt)
    → k < rounds
    → attempt (i + k) ≡ answered 200
    → ((j : ℕ) → j < k → attempt (i + j) ≢ not_created)
    → ping_from rounds i attempt ≡ true
unfolding ping_from
ping_from-true zero i k attempt lt ok made = elim lt [ ]
ping_from-true (suc rounds) i zero attempt lt ok made =
    let now : attempt i ≡ answered 200 = rw (add-zero i) at ok in rw (now, ping_from)
ping_from-true (suc rounds) i (suc k) attempt lt ok made =
    let rest =
      ping_from-true rounds (suc i) k attempt (omega arith) (shift attempt i k ∙ ok)
        (λ j l. rw (shift attempt i j) (made (suc j) (omega arith))) in
    let first : attempt i ≢ not_created = rw (add-zero i) at (made 0 (omega arith)) in ground arith

-- The first attempt that is answered with 200, with all before it created.
abbrev pub SucceedsAt : ℕ → ℕ → (ℕ → Attempt) → ℕ → Type 0
SucceedsAt rounds i attempt k =
    (k < rounds)
    × (attempt (i + k) ≡ answered 200)
    × ((j : ℕ) → j < k → attempt (i + j) ≢ not_created)

created_before :
    (attempt : ℕ → Attempt) (i k : ℕ)
    → attempt i ≢ not_created
    → ((j : ℕ) → j < k → attempt (suc i + j) ≢ not_created)
    → (j : ℕ) → j < suc k
    → attempt (i + j) ≢ not_created
created_before attempt i k first before zero l = rw (add-zero i) first
created_before attempt i k first before (suc j) l =
    rw (← shift attempt i j) (before j (omega arith))

ping_from_reached :
    (rounds i : ℕ) (attempt : ℕ → Attempt)
    → ping_from rounds i attempt ≡ true
    → (k : ℕ) × SucceedsAt rounds i attempt k
unfolding ping_from
ping_from_reached zero i attempt e = absurd (ground arith)
ping_from_reached (suc rounds) i attempt e = elim (Attempt-cases (attempt i)) [
  | inl now ↦ (0, (omega arith, ap attempt (add-zero i) ∙ now, λ j l. absurd (omega arith)))
  | inr other ↦
      let (k, (l, f, before)) = ping_from_reached rounds (suc i) attempt (ground arith) in
      let first : attempt i ≢ not_created = λ n. absurd (ground arith) in
      (suc k, (omega arith, sym (shift attempt i k) ∙ f, created_before attempt i k first before))
]

from_zero : (attempt : ℕ → Attempt) (k : ℕ) → attempt (0 + k) ≡ attempt k
from_zero attempt k = ap attempt (zero-add k)

-- A ping succeeds exactly if one of its attempts is answered with 200 and all attempts before it
-- could at least be created.
pub ping_server_iff :
    (retries : ℤ) (network : Text → ℕ → Attempt) (s : Server)
    → (ping_server retries network s ≡ true) ↔ (
        (k : ℕ) × (k < pos_part retries)
        × (network (ping_url s) k ≡ answered 200)
        × ((j : ℕ) → j < k → network (ping_url s) j ≢ not_created))
unfolding ping_server
ping_server_iff retries network s = (
  (λ e.
      let (k, (l, f, before)) = ping_from_reached (pos_part retries) 0 (network (ping_url s)) e in
      (
        k,
        l,
        sym (from_zero (network (ping_url s)) k) ∙ f,
        λ j m n. before j m (from_zero (network (ping_url s)) j ∙ n),
      )),
  (λ (k, l, f, before).
      ping_from-true (pos_part retries) 0 k (network (ping_url s)) l
        (from_zero (network (ping_url s)) k ∙ f)
        (λ j m n. before j m (sym (from_zero (network (ping_url s)) j) ∙ n))),
)
