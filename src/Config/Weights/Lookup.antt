-- ===== src/Config/Weights/Lookup.antt =====
-- The weights of `parseWeights` as a map: what a key is mapped to.
use neura_balancer.Common.{
  true, false, Bool-cases, if◌then◌else◌, ◌≡◌, refl, ap, ◌∙◌, sym, inl, inr, Option, none, some,
  List, [], ◌∷◌, ℤ, pos, ltb_ℤ, All, Option-cases,
}
use neura_balancer.Common.Text.{Text, text_eq, text_eq_refl, eq_of_text_eq}
use neura_balancer.Config.Weights.{
  weight_of, strip_prefix, weight_prefix, positive_weight, put, get, assign, read_weights,
  parse_weights,
}
use neura_balancer.Common.Text.Numbers.{atoi, split_once}

get_put_same : (key : Text) (w : ℤ) (ws : List (Text × ℤ)) → get key (put key w ws) ≡ some w
unfolding get put
get_put_same key w [] = rw (text_eq_refl key)
get_put_same key w ((k, v) ∷ ws) = elim (Bool-cases (text_eq key k)) [
  | inl same ↦ rw (same, text_eq_refl key)
  | inr other ↦ rw (other, other) (get_put_same key w ws)
]

get_put_other :
    (key other : Text) (w : ℤ) (ws : List (Text × ℤ))
    → text_eq key other ≡ false
    → get key (put other w ws) ≡ get key ws
unfolding get put
get_put_other key other w [] differ = rw differ
get_put_other key other w ((k, v) ∷ ws) differ = elim (Bool-cases (text_eq other k)) [
  | inl same ↦
      let differ' : text_eq key k ≡ false =
        ap (text_eq key) (sym (eq_of_text_eq other k same)) ∙ differ in
      rw (same, differ, differ')
  | inr apart ↦ rw (apart, get_put_other key other w ws differ)
]

-- What one variable says of a key.
abbrev pub own_weight : Text → Option (Text × ℤ) → Option ℤ
own_weight key none = none
own_weight key (some (k, w)) = if text_eq key k then some w else none

abbrev pub or_else {ℓ} : {A : Type ℓ} → Option A → Option A → Option A
or_else none b = b
or_else (some a) b = some a

-- What the last variable that speaks of a key says.
unfoldable pub last_weight : Text → List Text → Option ℤ
last_weight key [] = none
last_weight key (env ∷ envs) = or_else (last_weight key envs) (own_weight key (weight_of env))

or_else_assoc {ℓ} :
    {A : Type ℓ} (a b c : Option A) → or_else (or_else a b) c ≡ or_else a (or_else b c)
or_else_assoc none b c = refl
or_else_assoc (some a) b c = refl

get-assign :
    (key : Text) (e : Option (Text × ℤ)) (ws : List (Text × ℤ))
    → get key (assign e ws) ≡ or_else (own_weight key e) (get key ws)
unfolding assign
get-assign key none ws = refl
get-assign key (some (k, w)) ws = elim (Bool-cases (text_eq key k)) [
  | inl same ↦
      rw same
        (ap (λ t. get key (put t w ws)) (sym (eq_of_text_eq key k same)) ∙ get_put_same key w ws)
  | inr differ ↦ rw differ (get_put_other key k w ws differ)
]

get-read_weights :
    (key : Text) (ws : List (Text × ℤ)) (envs : List Text)
    → get key (read_weights ws envs) ≡ or_else (last_weight key envs) (get key ws)
unfolding read_weights last_weight
get-read_weights key ws [] = refl
get-read_weights key ws (env ∷ envs) =
    get-read_weights key (assign (weight_of env) ws) envs
    ∙ ap (or_else (last_weight key envs)) (get-assign key (weight_of env) ws)
    ∙ sym (or_else_assoc (last_weight key envs) (own_weight key (weight_of env)) (get key ws))

or_else-none {ℓ} : {A : Type ℓ} (a : Option A) → or_else a none ≡ a
or_else-none none = refl
or_else-none (some a) = refl

-- A key has the weight of the last variable that gives it a positive one, and none without such
-- a variable.
pub get-parse_weights :
    (key : Text) (envs : List Text) → get key (parse_weights envs) ≡ last_weight key envs
unfolding parse_weights get
get-parse_weights key envs = get-read_weights key [] envs ∙ or_else-none (last_weight key envs)

abbrev pub IsPositive : Text × ℤ → Type 0
IsPositive entry = ltb_ℤ (pos 0) entry.1 ≡ true

abbrev AllPositive : Option (Text × ℤ) → Type 0
AllPositive none = Unit
AllPositive (some e) = IsPositive e

weight_of-AllPositive : (env : Text) → AllPositive (weight_of env)
unfolding weight_of positive_weight
weight_of-AllPositive env = elim (Option-cases (strip_prefix weight_prefix env)) [
  | inl missing ↦ rw missing tt
  | inr (t, found) ↦ elim (Option-cases (split_once b'=' env)) [
    | inl missing ↦ rw (found, missing) tt
    | inr ((name, value), parts) ↦ elim (Option-cases (atoi value)) [
      | inl bad ↦ rw (found, parts, bad) tt
      | inr (w, good) ↦ elim (Bool-cases (ltb_ℤ (pos 0) w)) [
        | inl above ↦ rw (found, parts, good, above) above
        | inr below ↦ rw (found, parts, good, below) tt
      ]
    ]
  ]
]

put-AllPositive :
    (key : Text) (w : ℤ) (ws : List (Text × ℤ))
    → ltb_ℤ (pos 0) w ≡ true
    → All IsPositive ws
    → All IsPositive (put key w ws)
unfolding put
put-AllPositive key w [] h all = (h, tt)
put-AllPositive key w ((k, v) ∷ ws) h all = elim (Bool-cases (text_eq key k)) [
  | inl same ↦ rw same (h, all.1)
  | inr differ ↦ rw differ (all.0, put-AllPositive key w ws h all.1)
]

assign-AllPositive :
    (e : Option (Text × ℤ)) (ws : List (Text × ℤ))
    → AllPositive e
    → All IsPositive ws
    → All IsPositive (assign e ws)
unfolding assign
assign-AllPositive none ws h all = all
assign-AllPositive (some (key, w)) ws h all = put-AllPositive key w ws h all

read_weights-AllPositive :
    (ws : List (Text × ℤ)) (envs : List Text)
    → All IsPositive ws
    → All IsPositive (read_weights ws envs)
unfolding read_weights
read_weights-AllPositive ws [] all = all
read_weights-AllPositive ws (env ∷ envs) all =
    read_weights-AllPositive (assign (weight_of env) ws) envs
      (assign-AllPositive (weight_of env) ws (weight_of-AllPositive env) all)

-- Every weight that is read is positive.
pub parse_weights-IsPositive : (envs : List Text) → All IsPositive (parse_weights envs)
unfolding parse_weights
parse_weights-IsPositive envs = read_weights-AllPositive [] envs tt
