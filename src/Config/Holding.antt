-- ===== src/Config/Holding.antt =====
-- What a variable of the environment holds, against what the readers of the configuration make of it.
use neura_balancer.Common.{◌≡◌, ◌≢◌, refl, Bool, true, false, if◌then◌else◌, some, [], ◌∷◌, ℤ}
use neura_balancer.Common.Text.{Text, codes, format_int, text_eq}
use neura_balancer.Common.Text.Numbers.{atoi}
use neura_balancer.Common.Text.Printed.{IsInt64, atoi-format_int, format_int_nonempty}
use neura_balancer.Config.{Environment, get_env, get_env_int, get_env_bool, parse_bool}

-- A variable holds a text that is not empty, any text, an integer, or a truth value.
abbrev pub HoldsText : Environment → Text → Text → Type 0
HoldsText env key t = (env.lookup_env key ≡ some t) × (t ≢ [])

abbrev pub HoldsRaw : Environment → Text → Text → Type 0
HoldsRaw env key t = env.lookup_env key ≡ some t

abbrev pub HoldsInt : Environment → Text → ℤ → Type 0
HoldsInt env key a = (env.lookup_env key ≡ some (format_int a)) × IsInt64 a

abbrev pub HoldsBool : Environment → Text → Bool → Type 0
HoldsBool env key b = env.lookup_env key ≡ some (if b then codes "true" else codes "false")

pub get_env-HoldsText :
    (env : Environment) (key fallback t : Text) → HoldsText env key t → get_env env key fallback ≡ t
unfolding get_env
get_env-HoldsText env key fallback [] (h, some_text) = absurd (some_text refl)
get_env-HoldsText env key fallback (c ∷ cs) (h, some_text) = rw h refl

pub get_env-HoldsRaw :
    (env : Environment) (key t : Text) → HoldsRaw env key t → get_env env key [] ≡ t
unfolding get_env
get_env-HoldsRaw env key [] h = rw h refl
get_env-HoldsRaw env key (c ∷ cs) h = rw h refl

or_parsed :
    (env : Environment) (key t : Text) (fallback a : ℤ)
    → HoldsText env key t
    → atoi t ≡ some a
    → get_env_int env key fallback ≡ a
unfolding get_env_int get_env
or_parsed env key [] fallback a (h, some_text) e = absurd (some_text refl)
or_parsed env key (c ∷ cs) fallback a (h, some_text) e =
    rw (h, get_env_int) (rw (e, get_env_int) refl)

pub get_env_int-HoldsInt :
    (env : Environment) (key : Text) (fallback a : ℤ)
    → HoldsInt env key a
    → get_env_int env key fallback ≡ a
get_env_int-HoldsInt env key fallback a (h, small) =
    or_parsed env key (format_int a) fallback a (h, format_int_nonempty a) (atoi-format_int a small)

pub get_env_bool-HoldsBool :
    (env : Environment) (key : Text) (fallback b : Bool)
    → HoldsBool env key b
    → get_env_bool env key fallback ≡ b
unfolding get_env_bool get_env parse_bool text_eq
get_env_bool-HoldsBool env key fallback true h = rw (h, get_env_bool) refl
get_env_bool-HoldsBool env key fallback false h = rw (h, get_env_bool) refl
