-- ===== src/Tests.antt =====
-- Tests of the definitions and the theorems at concrete inputs, a module for each component.
mod Fixtures
mod StrategyCases
mod ThreadCases
mod CallerCases
mod PercentileCases
mod ServingCases
mod MlCases
mod BalancerCases
mod ConfigCases
mod WrittenCases
mod ServiceCases
mod CollectorCases
mod GaugeCases
mod HealthCases
mod EntryCases
