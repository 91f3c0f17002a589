-- ===== src/Tracer.antt =====
-- backend/internal/tracer/tracer.go. What the gRPC and OpenTelemetry libraries answer within the time
-- that `main` gives them is an argument.
use neura_balancer.Common.{Bool, if◌then◌else◌, Option, none, some, List, [], ◌∷◌}
use neura_balancer.Common.Text.{Text}

-- A provider that exports the spans of a service to an endpoint, or one that does nothing.
pub data Provider : Type 0 where
  exporting : Text → Text → Provider
  no_export : Provider

-- Whether the connection, the exporter and the resource can be made.
pub record Telemetry : Type 0 where
  pub connects : Bool
  pub exports : Bool
  pub describes : Bool

pub data Propagator : Type 0 where
  trace_context : Propagator
  baggage : Propagator

-- What the OpenTelemetry library keeps for the whole program.
pub record Globals : Type 0 where
  pub provider : Provider
  pub propagators : List Propagator

-- Before anything is set.
abbrev pub unset : Globals
unset = record { provider = no_export; propagators = [] }

-- `Init`; `none` is an error.
unfoldable pub init : Telemetry → Text → Text → Globals → Globals × Option Provider
init world service endpoint g =
    if world.connects
    then (if world.exports
        then (if world.describes
            then (
              record {
                provider = exporting service endpoint;
                propagators = trace_context ∷ baggage ∷ [];
              },
              some (exporting service endpoint),
            )
            else (g, none))
        else (g, none))
    else (g, none)

unfoldable pub noop_provider : Provider
noop_provider = no_export

-- A tracer of the provider that is set when it is asked for.
pub record NamedTracer : Type 0 where
  pub provider : Provider
  pub name : Text

unfoldable pub tracer : Globals → Text → NamedTracer
tracer g name = record { provider = g.provider; name = name }
