-- ===== src/Config/Variables.antt =====
-- The environment and its readers, `getEnv`, `getEnvInt` and `getEnvBool` of
-- backend/internal/config/config.go.
use neura_balancer.Common.{
  ℕ, Bool, true, false, ◌||◌, if◌then◌else◌, Option, none, some, List, [], ◌∷◌, ℤ,
}
use neura_balancer.Common.Text.{Text, codes, text_eq}
use neura_balancer.Common.Text.Numbers.{atoi}

-- The operating system's environment: `os.LookupEnv` and `os.Environ`, after the `.env` file has been
-- read. `unicode_lower` is the table that `strings.ToLower` uses beyond ASCII.
pub record Environment : Type 0 where
  pub lookup_env : Text → Option Text
  pub environ : List Text
  pub unicode_lower : ℕ → ℕ

abbrev pub non_empty : Option Text → Text → Text
non_empty none fallback = fallback
non_empty (some []) fallback = fallback
non_empty (some (c ∷ cs)) fallback = c ∷ cs

unfoldable pub get_env : Environment → Text → Text → Text
get_env env key fallback = non_empty (env.lookup_env key) fallback

abbrev or_fallback {ℓ} : {A : Type ℓ} → Option A → A → A
or_fallback none fallback = fallback
or_fallback (some a) fallback = a

-- The empty text is no number, so it takes the fallback too.
unfoldable pub get_env_int : Environment → Text → ℤ → ℤ
unfolding get_env
get_env_int env key fallback = elim (get_env env key []) [
  | [] ↦ fallback
  | c ∷ cs ↦ or_fallback (atoi (c ∷ cs)) fallback
]

unfoldable pub parse_bool : Text → Option Bool
parse_bool t =
    let is = λ (s : Text). text_eq t s in
    if is (codes "1")
      || is (codes "t")
      || is (codes "T")
      || is (codes "true")
      || is (codes "TRUE")
      || is (codes "True")
    then some true
    else (if is (codes "0")
          || is (codes "f")
          || is (codes "F")
          || is (codes "false")
          || is (codes "FALSE")
          || is (codes "False")
        then some false
        else none)

unfoldable pub get_env_bool : Environment → Text → Bool → Bool
unfolding get_env parse_bool
get_env_bool env key fallback = elim (get_env env key []) [
  | [] ↦ fallback
  | c ∷ cs ↦ or_fallback (parse_bool (c ∷ cs)) fallback
]
