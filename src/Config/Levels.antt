-- ===== src/Config/Levels.antt =====
-- `parseLevel` of backend/internal/config/logger.go.
use neura_balancer.Common.{ℕ, Bool, true, false, ◌||◌, if◌then◌else◌, Option, none, some}
use neura_balancer.Common.Text.{Text, codes, text_eq}
use neura_balancer.Common.Text.Numbers.{to_lower}

pub data Level : Type 0 where
  debug_level : Level
  info_level : Level
  warn_level : Level
  error_level : Level

-- The level, and the text of one that is not known.
unfoldable pub level_named : Text → Text → Level × Option Text
level_named level name =
    if text_eq name (codes "debug")
    then (debug_level, none)
    else (if text_eq name (codes "info") || text_eq name (codes "")
        then (info_level, none)
        else (if text_eq name (codes "warn") || text_eq name (codes "warning")
            then (warn_level, none)
            else (if text_eq name (codes "error")
                then (error_level, none)
                else (info_level, some level))))

unfoldable pub parse_level : (ℕ → ℕ) → Text → Level × Option Text
unfolding level_named to_lower
parse_level unicode_lower level = level_named level (to_lower unicode_lower level)

-- What `NewLogger` configures: the level, and JSON or the console.
pub record LoggerConfig : Type 0 where
  pub level : Level
  pub json : Bool

abbrev build : Bool → LoggerConfig → Option LoggerConfig
build true c = some c
build false c = none

-- `none` is an error; `builds` is whether zap can build the logger.
abbrev logger_of : Bool → Text → Level × Option Text → Option LoggerConfig
logger_of builds format (level, some unknown) = none
logger_of builds format (level, none) =
    build builds (record { level = level; json = text_eq format (codes "json") })

unfoldable pub new_logger : (ℕ → ℕ) → Bool → Text → Text → Option LoggerConfig
unfolding parse_level
new_logger unicode_lower builds level format =
    logger_of builds (to_lower unicode_lower format) (parse_level unicode_lower level)
