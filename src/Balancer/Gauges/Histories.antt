-- ===== src/Balancer/Gauges/Histories.antt =====
-- The gauges in the histories of Balancer.Sessions.
use neura_balancer.Common.{◌≡◌, ap, ◌∙◌, inl, inr, In, count}
use neura_balancer.Balancer.{Strategy, release_server}
use neura_balancer.Balancer.Gauges.{tell_all}
use neura_balancer.Balancer.Health.{mark_server_down}
use neura_balancer.Balancer.Sessions.{
  System, Step, begins, refused, marks_down, ends, checks, Reach, here, next, no_reset, Exact,
}
use neura_balancer.Balancer.Sessions.Counts.{Reach-Exact}
use neura_balancer.Metrics.Collector.{Collector}
use neura_balancer.Metrics.Float64.{Float64}
use neura_balancer.Server.{Ref}
use neura_balancer.Balancer.Gauges.Watching.{PicksFrom, step_effects, watch, In-split, In-without}
use neura_balancer.Balancer.Gauges.Steps.{
  Watches, choose-Watched, selected-In, release-Watched, mark-Watched, check-Watched,
}

module _ (fl : Float64) (seconds : fl.Carrier) (strat : Strategy) (law : PicksFrom strat) where
  Step-Watches :
      (s t : System strat.State) (c : Collector fl.Carrier) (step : Step strat no_reset s t)
      → Watches fl seconds strat law s c
      → Watches fl seconds strat law t (tell_all fl seconds c (step_effects strat no_reset step))
  unfolding step_effects release_server mark_server_down
  Step-Watches s t c (begins seen world r e eq) (w, from) =
      let (w', kept) = choose-Watched fl seconds strat law s.lb c seen world w in
      let i = selected-In fl seconds strat law s.lb seen world r w.1 e in
      rw (eq, kept) ((rw kept at w'), λ q j. elim j [ inl same ↦ rw same i | inr k ↦ from q k ])
  Step-Watches s t c (refused seen world never eq) (w, from) =
      let (w', kept) = choose-Watched fl seconds strat law s.lb c seen world w in
      rw eq (w', λ q j. rw kept (from q j))
  Step-Watches s t c (marks_down r eq) (w, from) =
      rw eq (mark-Watched fl seconds strat law s.lb c r w, from)
  Step-Watches s t c (ends r before after split eq) (w, from) =
      let i = from r (rw split (In-split r before after)) in
      rw eq (
        release-Watched fl seconds strat law s.lb c r i w,
        λ q j. from q (rw split (In-without q r before after j)),
      )
  Step-Watches s t c (checks r alive ok eq) (w, from) =
      rw eq (check-Watched fl seconds strat law s.lb c r alive ok w, from)

  Reach-Watches :
      (s t : System strat.State) (c : Collector fl.Carrier) (reach : Reach strat no_reset s t)
      → Watches fl seconds strat law s c
      → Watches fl seconds strat law t (watch strat no_reset fl seconds c reach)
  unfolding watch
  Reach-Watches s t c here w = w
  Reach-Watches s t c (next {t = u} reach step) w =
      Step-Watches u t (watch strat no_reset fl seconds c reach) step (Reach-Watches s u c reach w)

  -- In every interleaving in which each operation tells the collector at once and no health check
  -- takes down a server that was alive, the gauge of each server of the list shows the number of the
  -- requests that are open on it. It must do so at the start, the servers must have identifiers of
  -- their own, and the strategy must pick from the list.
  pub Reach-IsShown :
      (s t : System strat.State) (c : Collector fl.Carrier) (reach : Reach strat no_reset s t)
      (r : Ref)
      → Watches fl seconds strat law s c
      → Exact s
      → In r t.lb.servers
      → (watch strat no_reset fl seconds c reach).active_conns (t.lb.heap r).id
        ≡ fl.of_count (count r t.pending)
  Reach-IsShown s t c reach r w exact i =
      (Reach-Watches s t c reach w).0.2 r i ∙ ap fl.of_count (Reach-Exact strat s t exact reach r)
