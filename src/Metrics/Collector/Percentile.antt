-- ===== src/Metrics/Collector/Percentile.antt =====
-- `GetResponsePercentile` of backend/internal/metrics/collector.go as its two goroutines: one sends
-- what `Collect` finds into a channel of capacity 1 and closes it, the other reads from it and returns
-- at the first value of the quantile.
pub mod Answered
pub mod Leaks
use neura_balancer.Common.{Bool, true, false, if◌then◌else◌, Option, none, some, List, [], ◌∷◌}
use neura_balancer.Metrics.Collector.{Summary, find_quantile}
use neura_balancer.Metrics.Float64.{Float64}

-- What is not sent yet, the channel, and what the reader has returned.
pub record Exchange (D : Type 0) : Type 0 where
  pub unsent : List (Summary D)
  pub closed : Bool
  pub buffer : List (Summary D)
  pub returned : Option D

pub data Turn : Type 0 where
  sender : Turn
  reader : Turn

abbrev pub exchange :
    {D : Type 0} → List (Summary D) → Bool → List (Summary D) → Option D → Exchange D
exchange unsent closed buffer returned = record {
  unsent = unsent;
  closed = closed;
  buffer = buffer;
  returned = returned;
}

abbrev pub start : {D : Type 0} → List (Summary D) → Exchange D
start summaries = exchange summaries false [] none

-- A turn of the sender: it closes the channel after the last summary, and waits at a full one.
abbrev pub send : {D : Type 0} → List (Summary D) → Bool → List (Summary D) → Option D → Exchange D
send [] closed buffer returned = exchange [] true buffer returned
send (m ∷ ms) closed [] returned = exchange ms closed (m ∷ []) returned
send (m ∷ ms) closed (b ∷ bs) returned = exchange (m ∷ ms) closed (b ∷ bs) returned

module _ (fl : Float64) (quantile : fl.Carrier) where
  abbrev pub read :
      List (Summary fl.Carrier)
      → Bool
      → List (Summary fl.Carrier)
      → Option fl.Carrier
      → Exchange fl.Carrier
  read unsent closed buffer (some v) = exchange unsent closed buffer (some v)
  read unsent closed [] none =
      exchange unsent closed [] (if closed then some fl.zero_value else none)
  read unsent closed (m ∷ ms) none = exchange unsent closed ms (find_quantile fl quantile m)

  unfoldable pub step : Exchange fl.Carrier → Turn → Exchange fl.Carrier
  step s sender = send s.unsent s.closed s.buffer s.returned
  step s reader = read s.unsent s.closed s.buffer s.returned

  unfoldable pub run : Exchange fl.Carrier → List Turn → Exchange fl.Carrier
  unfolding step
  run s [] = s
  run s (t ∷ ts) = run (step s t) ts
