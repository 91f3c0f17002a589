-- ===== src/Balancer/Gauges/Watching.antt =====
-- The collector along the histories of Balancer.Sessions, where each operation tells it at once.
use neura_balancer.Common.{◌≡◌, refl, Bool, inl, inr, List, [], ◌∷◌, ◌++◌, In, arith}
use neura_balancer.Balancer.{Strategy, LoadBalancer, Effect, choose, release_server, healthy}
use neura_balancer.Balancer.Gauges.{tell_all, HasOwnIds}
use neura_balancer.Balancer.Health.{check_server, mark_server_down}
use neura_balancer.Balancer.Sessions.{
  System, Checks, Step, begins, refused, marks_down, ends, checks, Reach, here, next,
}
use neura_balancer.Metrics.Collector.{Collector}
use neura_balancer.Metrics.Float64.{Float64}
use neura_balancer.Server.{Ref, Heap}
use neura_balancer.Strategies.Pick.{server}

-- The strategy picks servers of the balancer's list, by a property of its state that it keeps.
pub record PicksFrom (strat : Strategy) : Type 1 where
  pub Good : List Ref → strat.State → Type 0
  pub picks :
      (servers : List Ref) (s : strat.State) (world : strat.World) (h : Heap) (alive : List Ref)
      (r : Ref)
      → Good servers s
      → ((q : Ref) → In q alive → In q servers)
      → (strat.select s world h alive).1 ≡ server r
      → In r servers
  pub keeps :
      (servers : List Ref) (s : strat.State) (world : strat.World) (h : Heap) (alive : List Ref)
      → Good servers s
      → ((q : Ref) → In q alive → In q servers)
      → Good servers (strat.select s world h alive).0

module _ (strat : Strategy) (Allowed : Checks) where
  -- What a step tells the collector and the database.
  unfoldable pub step_effects : {s t : System strat.State} → Step strat Allowed s t → List Effect
  step_effects {s} (begins seen world r e eq) =
      (choose strat s.lb world (healthy seen s.lb.servers)).2
  step_effects {s} (refused seen world never eq) =
      (choose strat s.lb world (healthy seen s.lb.servers)).2
  step_effects {s} (marks_down r eq) = (mark_server_down s.lb r).1
  step_effects {s} (ends r before after split eq) = (release_server s.lb r).1
  step_effects {s} (checks r alive ok eq) = (check_server s.lb.heap r alive).1

  -- The collector after a history.
  unfoldable pub watch :
      (fl : Float64)
      → fl.Carrier
      → Collector fl.Carrier
      → {s t : System strat.State} → Reach strat Allowed s t
      → Collector fl.Carrier
  unfolding step_effects
  watch fl seconds c here = c
  watch fl seconds c (next reach step) =
      tell_all fl seconds (watch fl seconds c reach) (step_effects step)

pub HasOwnIds-same :
    (h h' : Heap) (servers : List Ref)
    → ((q : Ref) → (h' q).id ≡ (h q).id)
    → HasOwnIds h servers
    → HasOwnIds h' servers
HasOwnIds-same h h' servers ids own r q i j e = own r q i j (rw (ids r, ids q) at e)

pub ids-mark_server_down :
    {S : Type 0} (lb : LoadBalancer S) (r q : Ref)
    → ((mark_server_down lb r).0.heap q).id ≡ (lb.heap q).id
unfolding mark_server_down
ids-mark_server_down lb r q = ground arith

pub ids-check_server :
    (h : Heap) (r q : Ref) (alive : Bool) → ((check_server h r alive).0 q).id ≡ (h q).id
unfolding check_server
ids-check_server h r q alive = ground arith

pub In-split : (r : Ref) (before after : List Ref) → In r (before ++ r ∷ after)
In-split r [] after = inl refl
In-split r (b ∷ before) after = inr (In-split r before after)

pub In-without :
    (q r : Ref) (before after : List Ref) → In q (before ++ after) → In q (before ++ r ∷ after)
In-without q r [] after i = inr i
In-without q r (b ∷ before) after (inl e) = inl e
In-without q r (b ∷ before) after (inr i) = inr (In-without q r before after i)
