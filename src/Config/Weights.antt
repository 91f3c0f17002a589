-- ===== src/Config/Weights.antt =====
-- `parseWeights` of backend/internal/config/config.go.
pub mod Lookup
use neura_balancer.Common.{
  Bool-cases, true, ◌==◌, ==_iff, if◌then◌else◌, ◌≡◌, refl, ap, ◌∙◌, sym, inl, inr, Option, none,
  some, List, [], ◌∷◌, ℕ, ℤ, pos, ltb_ℤ, arith, All,
}
use neura_balancer.Common.Text.{Text, codes, text_eq}
use neura_balancer.Common.Text.Numbers.{atoi, split_once, replace_all}

-- What follows a prefix, where the text has it.
unfoldable pub strip_prefix : Text → Text → Option Text
strip_prefix [] t = some t
strip_prefix (p ∷ ps) [] = none
strip_prefix (p ∷ ps) (c ∷ cs) = let rest = strip_prefix ps cs in if c == p then rest else none

-- `strings.TrimPrefix`
unfoldable pub trim_prefix : Text → Text → Text
unfolding strip_prefix
trim_prefix p t = elim (strip_prefix p t) [ none ↦ t | some rest ↦ rest ]

abbrev pub weight_prefix : Text
weight_prefix = codes "SERVER_WEIGHT_"

positive_weight : Text → Option ℤ → Option (Text × ℤ)
positive_weight key none = none
positive_weight key (some w) = if ltb_ℤ (pos 0) w then some (key, w) else none

-- The key and the weight of one variable `SERVER_WEIGHT_<key>=<weight>`.
unfoldable pub weight_of : Text → Option (Text × ℤ)
unfolding strip_prefix trim_prefix positive_weight
weight_of env = elim (strip_prefix weight_prefix env) [
  | none ↦ none
  | some _ ↦ elim (split_once b'=' env) [
    | none ↦ none
    | some (name, value) ↦
        positive_weight (replace_all b'_' b':' (trim_prefix weight_prefix name)) (atoi value)
  ]
]

-- The assignment of a map.
unfoldable pub put : Text → ℤ → List (Text × ℤ) → List (Text × ℤ)
put key w [] = (key, w) ∷ []
put key w ((k, v) ∷ rest) =
    let rest' = put key w rest in if text_eq key k then (key, w) ∷ rest else (k, v) ∷ rest'

unfoldable pub get : Text → List (Text × ℤ) → Option ℤ
get key [] = none
get key ((k, v) ∷ rest) = let found = get key rest in if text_eq key k then some v else found

assign : Option (Text × ℤ) → List (Text × ℤ) → List (Text × ℤ)
unfolding put
assign none ws = ws
assign (some (key, w)) ws = put key w ws

unfoldable pub read_weights : List (Text × ℤ) → List Text → List (Text × ℤ)
unfolding assign
read_weights ws [] = ws
read_weights ws (env ∷ envs) = read_weights (assign (weight_of env) ws) envs

-- The weights as a map of keys, from the variables of the environment.
unfoldable pub parse_weights : List Text → List (Text × ℤ)
unfolding read_weights
parse_weights envs = read_weights [] envs
