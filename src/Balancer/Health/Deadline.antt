-- ===== src/Balancer/Health/Deadline.antt =====
-- `checkAllServers` and `pingServer` of backend/internal/loadbalancer/balancer.go with the time that
-- their attempts take: the context of a round, with its deadline, is one for all servers.
use neura_balancer.Common.{
  ℕ, zero, suc, ◌+◌, ◌<◌, ◌≤◌, ◌≡◌, ◌≢◌, ◌⊎◌, refl, Bool, true, false, if◌then◌else◌, ltb, leb,
  ◌==◌, inl, inr, List, [], ◌∷◌, In, ℤ, pos_part, arith,
}
use neura_balancer.Common.Text.{Text}
use neura_balancer.Balancer.{LoadBalancer}
use neura_balancer.Balancer.Health.{
  Attempt, not_created, not_answered, answered, ping_url, check_server,
}
use neura_balancer.Balancer.Health.Checks.{check_server_lem}
use neura_balancer.Server.{Ref, Heap}

-- How the network would answer an attempt, by the URL, the number of the attempt and the time, and
-- how long that would take, in milliseconds.
abbrev pub Network : Type 0
Network = Text → ℕ → ℕ → Attempt × ℕ

-- An attempt at time `t` that may end at the deadline. The client's own timeout is as long as that
-- of the round, so it never ends first.
unfoldable pub attempt_until : ℕ → ℕ → Attempt × ℕ → Attempt × ℕ
attempt_until deadline t (not_created, took) = (not_created, t)
attempt_until deadline t (not_answered, took) = (
  not_answered,
  if ltb (t + took) deadline then t + took else (if leb deadline t then t else deadline),
)
attempt_until deadline t (answered status, took) =
    if ltb (t + took) deadline
    then (answered status, t + took)
    else (not_answered, if leb deadline t then t else deadline)

-- What follows an attempt that ended at a time, by what the further attempts give.
unfoldable pub after_attempt : Attempt → ℕ → Bool × ℕ → Bool × ℕ
after_attempt not_created t further = (false, t)
after_attempt not_answered t further = further
after_attempt (answered status) t further = if status == 200 then (true, t) else further

-- The loop of a ping, with its sleep of half a second.
unfoldable pub ping_timed : ℕ → ℕ → ℕ → (ℕ → ℕ → Attempt × ℕ) → ℕ → Bool × ℕ
unfolding after_attempt
ping_timed deadline zero i attempt t = (false, t)
ping_timed deadline (suc left) i attempt t =
    let (outcome, t') = attempt_until deadline t (attempt i t) in
    after_attempt outcome t' (ping_timed deadline left (suc i) attempt (t' + 500))

unfoldable pub check_timed : ℤ → ℕ → Network → Heap → List Ref → ℕ → Heap
unfolding ping_timed
check_timed retries deadline network h [] t = h
check_timed retries deadline network h (r ∷ rs) t =
    let (alive, t') = ping_timed deadline (pos_part retries) 0 (network (ping_url (h r))) t in
    check_timed retries deadline network (check_server h r alive).0 rs t'

-- A round that begins at time `now`, with a timeout in milliseconds.
unfoldable pub check_all_timed :
    {S : Type 0} → LoadBalancer S → ℤ → ℕ → Network → ℕ → LoadBalancer S
unfolding check_timed
check_all_timed lb retries timeout network now = record lb {
  heap = check_timed retries (now + timeout) network lb.heap lb.servers now;
}

-- An attempt that is still under way at the deadline gives no answer, and ends no earlier.
late_attempt :
    (deadline t : ℕ) (a : Attempt × ℕ)
    → a.0 ≢ not_created
    → deadline ≤ t + a.1
    → ((attempt_until deadline t a).0 ≡ not_answered) × (deadline ≤ (attempt_until deadline t a).1)
unfolding attempt_until
late_attempt deadline t (not_created, took) c h = absurd (c refl)
late_attempt deadline t (not_answered, took) c h = ground arith
late_attempt deadline t (answered status, took) c h = ground arith

attempt_until_later : (deadline t : ℕ) (a : Attempt × ℕ) → t ≤ (attempt_until deadline t a).1
unfolding attempt_until
attempt_until_later deadline t (not_created, took) = omega arith
attempt_until_later deadline t (not_answered, took) = ground arith
attempt_until_later deadline t (answered status, took) = ground arith

-- A ping has failed, and the deadline is past.
abbrev IsLate : ℕ → Bool × ℕ → Type 0
IsLate deadline p = (p.0 ≡ false) × (deadline ≤ p.1)

after_attempt-IsLate :
    (deadline t : ℕ) (a : Attempt × ℕ) (further : Bool × ℕ)
    → deadline ≤ t
    → IsLate deadline further
    → IsLate deadline
        (after_attempt (attempt_until deadline t a).0 (attempt_until deadline t a).1 further)
unfolding after_attempt attempt_until
after_attempt-IsLate deadline t (not_created, took) further h l = (refl, h)
after_attempt-IsLate deadline t (not_answered, took) further h l = l
after_attempt-IsLate deadline t (answered status, took) further h l = ground arith

-- A ping that begins at the deadline or later fails.
ping_timed-IsLate :
    (deadline left i : ℕ) (attempt : ℕ → ℕ → Attempt × ℕ) (t : ℕ)
    → deadline ≤ t
    → IsLate deadline (ping_timed deadline left i attempt t)
unfolding ping_timed
ping_timed-IsLate deadline zero i attempt t h = (refl, h)
ping_timed-IsLate deadline (suc left) i attempt t h =
    let later = attempt_until_later deadline t (attempt i t) in
    after_attempt-IsLate deadline t (attempt i t) _ h (
      ping_timed-IsLate deadline left (suc i) attempt
        ((attempt_until deadline t (attempt i t)).1 + 500) (omega arith))

-- So does one whose first attempt is under way at the deadline.
ping_timed_hung :
    (deadline left : ℕ) (attempt : ℕ → ℕ → Attempt × ℕ) (t : ℕ)
    → (attempt 0 t).0 ≢ not_created
    → deadline ≤ t + (attempt 0 t).1
    → 0 < left
    → IsLate deadline (ping_timed deadline left 0 attempt t)
unfolding ping_timed after_attempt
ping_timed_hung deadline zero attempt t c h p = elim p [ ]
ping_timed_hung deadline (suc left) attempt t c h p =
    let (lost, late) = late_attempt deadline t (attempt 0 t) c h in
    rw lost (
      ping_timed-IsLate deadline left 1 attempt ((attempt_until deadline t (attempt 0 t)).1 + 500)
        (omega arith))

-- After a failed ping, a server that was down is still down.
stays_down :
    (h : Heap) (r q : Ref) → (h q).alive ≡ false → ((check_server h r false).0 q).alive ≡ false
stays_down h r q down = ground (arith, check_server_lem h r q false)

goes_down : (h : Heap) (r : Ref) → ((check_server h r false).0 r).alive ≡ false
goes_down h r = ground (arith, check_server_lem h r r false)

down_or_next :
    (h : Heap) (r : Ref) (rs : List Ref) (q : Ref) {alive : Bool}
    → In q (r ∷ rs) ⊎ ((h q).alive ≡ false)
    → alive ≡ false
    → In q rs ⊎ (((check_server h r alive).0 q).alive ≡ false)
down_or_next h r rs q (inl (inl e)) failed = inr (rw failed (rw e (goes_down h r)))
down_or_next h r rs q (inl (inr i)) failed = inl i
down_or_next h r rs q (inr down) failed = inr (rw failed (stays_down h r q down))

check_timed-late :
    (retries : ℤ) (deadline : ℕ) (network : Network) (h : Heap) (rs : List Ref) (t : ℕ) (q : Ref)
    → deadline ≤ t
    → In q rs ⊎ ((h q).alive ≡ false)
    → (check_timed retries deadline network h rs t q).alive ≡ false
unfolding check_timed
check_timed-late retries deadline network h [] t q late (inl i) = elim i [ ]
check_timed-late retries deadline network h [] t q late (inr down) = down
check_timed-late retries deadline network h (r ∷ rs) t q late which =
    let (failed, t') =
      ping_timed-IsLate deadline (pos_part retries) 0 (network (ping_url (h r))) t late in
    let p = ping_timed deadline (pos_part retries) 0 (network (ping_url (h r))) t in
    check_timed-late retries deadline network (check_server h r p.0).0 rs p.1 q t'
      (down_or_next h r rs q which failed)

-- If the first attempt at the first server of the list is still under way when the timeout of the
-- round is over, the round takes every server of the list down, whatever the others would answer.
pub check_all_timed_hung :
    {S : Type 0} (lb : LoadBalancer S) (retries : ℤ) (timeout : ℕ) (network : Network) (now : ℕ)
    (first : Ref) (rest : List Ref) (q : Ref)
    → lb.servers ≡ first ∷ rest
    → 0 < pos_part retries
    → (network (ping_url (lb.heap first)) 0 now).0 ≢ not_created
    → timeout ≤ (network (ping_url (lb.heap first)) 0 now).1
    → In q lb.servers
    → ((check_all_timed lb retries timeout network now).heap q).alive ≡ false
unfolding check_all_timed check_timed
check_all_timed_hung lb retries timeout network now first rest q listed tries created hung i =
    let attempts = network (ping_url (lb.heap first)) in
    let (failed, late) =
      ping_timed_hung (now + timeout) (pos_part retries) attempts now created (omega arith) tries in
    let p = ping_timed (now + timeout) (pos_part retries) 0 attempts now in
    rw listed (
      check_timed-late retries (now + timeout) network (check_server lb.heap first p.0).0 rest p.1 q
        late (down_or_next lb.heap first rest q (inl (rw listed at i)) failed))
