-- ===== src/Tests/ConfigCases.antt =====
-- The configuration at concrete inputs.
use neura_balancer.Common.{pos, ◌≡◌, refl, Option, none, some, List, [], ◌∷◌, ℕ, if◌then◌else◌}
use neura_balancer.Common.Text.{Text, codes, text_eq}
use neura_balancer.Common.Text.Numbers.{
  split, split_parts, to_lower, split_once, replace_all, atoi, digits, digits_from, to_int,
}
use neura_balancer.Common.Text.Spaces.{is_space, trim_left, trim_space}
use neura_balancer.Config.{
  Environment, ok, get_env, is_valid_strategy, validate, read_config, loaded, load,
}
use neura_balancer.Config.Servers.{clean_parts, parse_server_list}
use neura_balancer.Config.Weights.{
  parse_weights, read_weights, weight_of, strip_prefix, trim_prefix, put,
}
use neura_balancer.Ml.Lru.{Lru, one_entry}

abbrev pub variables : Text → Option Text
variables key = if text_eq key (codes "SERVERS") then some (codes "a:1, b:2") else none

abbrev pub cache : Lru (List ℕ)
cache = one_entry (List ℕ)

abbrev pub environment : Environment
environment = record {
  lookup_env = variables;
  environ = codes "SERVER_WEIGHT_b_2=3" ∷ codes "SERVER_WEIGHT_a_1=0" ∷ [];
  unicode_lower = λ c. c;
}

-- The weight that is not positive is dropped.
weights_read : parse_weights environment.environ ≡ (codes "b:2", pos 3) ∷ []
unfolding parse_weights read_weights weight_of strip_prefix trim_prefix put split_once replace_all
    atoi digits digits_from to_int
weights_read = refl

-- The list of servers that a text in SERVERS is read as.
servers_read : parse_server_list (codes " a:1,, b:2 ") ≡ codes "a:1" ∷ codes "b:2" ∷ []
unfolding parse_server_list clean_parts split split_parts is_space trim_left trim_space
servers_read = refl

pub environment_loads : load environment ≡ ok (read_config environment)
unfolding load loaded validate is_valid_strategy read_config get_env to_lower parse_server_list
    clean_parts split split_parts is_space trim_left trim_space text_eq
environment_loads = refl
