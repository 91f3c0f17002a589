-- ===== src/Entry/Traces.antt =====
-- Where the spans of the requests go.
use neura_balancer.Common.{◌≡◌, refl, Bool-cases, inl, inr}
use neura_balancer.Common.Text.{Text}
use neura_balancer.Config.{Config}
use neura_balancer.Entry.{World, or_noop, trace, provider_of}
use neura_balancer.Tracer.{Telemetry, unset, init, noop_provider, tracer}

init-provider :
    (world : Telemetry) (service endpoint : Text)
    → let out = init world service endpoint unset in out.0.provider ≡ or_noop out.1
unfolding init noop_provider
init-provider world service endpoint = elim (Bool-cases world.connects) [
  | inr fails ↦ rw fails refl
  | inl connects ↦ elim (Bool-cases world.exports) [
    | inr fails ↦ rw (connects, fails) refl
    | inl exports ↦ elim (Bool-cases world.describes) [
      | inr fails ↦ rw (connects, exports, fails) refl
      | inl describes ↦ rw (connects, exports, describes) refl
    ]
  ]
]

-- Every tracer that is asked for after the start belongs to the provider that `main` shuts down at its
-- end, so that no span is lost in another one.
pub tracer-trace :
    (w : World) (c : Config) (name : Text) → (tracer (trace w c).0 name).provider ≡ provider_of w c
unfolding tracer trace provider_of noop_provider
tracer-trace w c name = elim (Bool-cases c.telemetry.otel_enabled) [
  | inr off ↦ rw off refl
  | inl on ↦ rw on (init-provider w.telemetry c.telemetry.service_name c.telemetry.otlp_endpoint)
]
