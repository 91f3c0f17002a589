-- ===== src/Balancer/Threads/Alone.antt =====
-- A request that no other goroutine comes between.
use neura_balancer.Common.{ℕ, none, some, true, List, ◌∷◌, replicate}
use neura_balancer.Balancer.{Strategy, LoadBalancer, Effect}
use neura_balancer.Balancer.Proxy.{Request, Forwarded}
use neura_balancer.Balancer.Proxy.Copy.{Sink}
use neura_balancer.Balancer.Threads.{Phase, Input, System, Event, moves}
use neura_balancer.Server.{Heap}
use neura_balancer.Strategies.Pick.{Pick}

module _ (strat : Strategy) (rest : List Phase) (seen : Heap) (world : strat.World)
    (req : Request) where
  abbrev input : Forwarded → Input strat
  input f = record { seen = seen; world = world; request = req; outcome = some f }

  abbrev at_phase : LoadBalancer strat.State → Phase → List Effect → System strat.State
  at_phase lb p told = record { lb = lb; round = none; threads = p ∷ rest; told = told }

  abbrev turns : ℕ → Forwarded → List (Event strat)
  turns n f = replicate n (moves 0 (input f))

-- A client that takes nothing; the balancer does not depend on it.
abbrev deaf : Sink
deaf n b = (0, true)
