-- ===== src/Config/Validation.antt =====
-- What a configuration that loads is known to have, and what the factory makes of it.
use neura_balancer.Common.{
  Bool, true, false, List-cases, if◌then◌else◌, ◌||◌, ◌≡◌, ◌≢◌, refl, ap, ◌∙◌, sym, inl, inr,
  Option, none, some, List, [], arith, ℤ,
}
use neura_balancer.Common.Float32.{Float32}
use neura_balancer.Common.Text.{Text, codes, text_eq}
use neura_balancer.Config.{
  Environment, Config, ok, ConfigError, invalid_strategy, is_valid_strategy, validate, read_config,
  load, loaded,
}
use neura_balancer.Factory.{new_strategy}
use neura_balancer.Ml.Lru.{Lru}

pub loaded-ok :
    (c0 : Config) (e : Option ConfigError) {c : Config} → loaded c0 e ≡ ok c → (e ≡ none) × (c0 ≡ c)
unfolding loaded
loaded-ok c0 none h = (refl, ground arith)
loaded-ok c0 (some e) h = absurd (ground arith)

validate-load : (env : Environment) {c : Config} → load env ≡ ok c → validate c ≡ none
unfolding load
validate-load env {c} h =
    let (none', same) = loaded-ok (read_config env) (validate (read_config env)) h in
    ap validate (sym same) ∙ none'

validate-servers : (c : Config) → validate c ≡ none → c.lb.servers ≢ []
unfolding validate
validate-servers c v e = absurd (ground arith)

if_none : (b : Bool) (e : ConfigError) → (if b then none else some e) ≡ none → b ≡ true
if_none true e h = refl
if_none false e h = cc

validate-strategy : (c : Config) → validate c ≡ none → is_valid_strategy c.lb.strategy ≡ true
unfolding validate
validate-strategy c v = elim (List-cases c.lb.servers) [
  | inl empty ↦ absurd (validate-servers c v empty)
  | inr (u, us, e) ↦
      if_none (is_valid_strategy c.lb.strategy) (invalid_strategy c.lb.strategy) (sym (rw e) ∙ v)
]

first_of_five {ℓ} :
    {A : Type ℓ} (a b c d e : Bool) (p q r s t : A)
    → (a || b || c || d || e) ≡ true
    → (if a
        then some p
        else (if b
            then some q
            else (if c then some r else (if d then some s else (if e then some t else none)))))
      ≢ none
first_of_five true b c d e p q r s t h eq = ground arith
first_of_five false true c d e p q r s t h eq = ground arith
first_of_five false false true d e p q r s t h eq = ground arith
first_of_five false false false true e p q r s t h eq = ground arith
first_of_five false false false false true p q r s t h eq = ground arith
first_of_five false false false false false p q r s t h eq = cc

new_strategy-total :
    (fl : Float32) (D : Type 0) (format_float : D → Text) (lru : Lru (List fl.Carrier))
    (name : Text) (reset cache : ℤ)
    → is_valid_strategy name ≡ true
    → new_strategy fl D format_float lru name reset cache ≢ none
unfolding is_valid_strategy new_strategy
new_strategy-total fl D format_float lru name reset cache h =
    first_of_five (text_eq name (codes "round_robin")) (text_eq name (codes "weighted_round_robin"))
      (text_eq name (codes "least_connections")) (text_eq name (codes "random"))
      (text_eq name (codes "ml")) _ _ _ _ _ h

-- A configuration that loads names a server, and the factory has a strategy for its strategy's name.
pub load-new_strategy :
    (fl : Float32) (D : Type 0) (format_float : D → Text) (lru : Lru (List fl.Carrier))
    (env : Environment) {c : Config}
    → load env ≡ ok c
    → (c.lb.servers ≢ [])
      × (new_strategy fl D format_float lru c.lb.strategy c.ml.circuit_breaker_reset_sec
            c.ml.cache_size
          ≢ none)
load-new_strategy fl D format_float lru env {c} h =
    let v = validate-load env h in
    (
      validate-servers c v,
      new_strategy-total fl D format_float lru c.lb.strategy c.ml.circuit_breaker_reset_sec
          c.ml.cache_size (validate-strategy c v),
    )
