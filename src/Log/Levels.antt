-- ===== src/Log/Levels.antt =====
-- The level of the log: `parse_loglevel`, `log_init`, `log_level_up`, `log_level_down`,
-- `log_level_set` and `log_loggable` of log.cpp.
pub mod Bounds
use prefix_match_server.Prelude.{
  ℕ, ◌+◌, ◌-◌, ℤ, pos, negsuc, Bool, not, Option, none, some, List, [], ◌∷◌, Bytes, codes, ltb,
  if◌then◌else◌,
}

-- `LOG_EMERG` and `LOG_DEBUG`
abbrev pub log_emerg : ℕ
log_emerg = 0

abbrev pub log_debug : ℕ
log_debug = 7

-- `log_conf`
pub record LogConf : Type 0 where
  pub cfg_key : Bytes
  pub cfg_shift : ℕ

unfoldable pub log_cfg : List LogConf
log_cfg =
    record { cfg_key = codes "LOG_EMERG"; cfg_shift = 0 }
    ∷ record { cfg_key = codes "LOG_ALERT"; cfg_shift = 1 }
    ∷ record { cfg_key = codes "LOG_CRIT"; cfg_shift = 2 }
    ∷ record { cfg_key = codes "LOG_ERR"; cfg_shift = 3 }
    ∷ record { cfg_key = codes "LOG_WARN"; cfg_shift = 4 }
    ∷ record { cfg_key = codes "LOG_NOTICE"; cfg_shift = 5 }
    ∷ record { cfg_key = codes "LOG_INFO"; cfg_shift = 6 }
    ∷ record { cfg_key = codes "LOG_DEBUG"; cfg_shift = 7 }
    ∷ []

-- The loop over the table; `strcasestr` is whether a key is found in the text, and -1 is returned if
-- none is.
unfoldable pub parse_table : (Bytes → Bytes → Bool) → List LogConf → Bytes → ℤ
parse_table strcasestr [] loglevel = negsuc 0
parse_table strcasestr (entry ∷ table) loglevel =
    if strcasestr loglevel entry.cfg_key
    then pos entry.cfg_shift
    else parse_table strcasestr table loglevel

unfoldable pub parse_loglevel : (Bytes → Bytes → Bool) → Bytes → ℤ
unfolding log_cfg parse_table
parse_loglevel strcasestr loglevel = parse_table strcasestr log_cfg loglevel

-- `MAX(LOG_EMERG, MIN(level, LOG_DEBUG))`
unfoldable pub clamp_level : ℤ → ℕ
clamp_level (pos n) = if ltb n log_debug then n else log_debug
clamp_level (negsuc n) = log_emerg

-- The level that `log_init` sets.
unfoldable pub init_level : (Bytes → Bytes → Bool) → Bytes → ℕ
unfolding parse_loglevel clamp_level
init_level strcasestr loglevel = clamp_level (parse_loglevel strcasestr loglevel)

unfoldable pub log_level_up : ℕ → ℕ
log_level_up level = if ltb level log_debug then level + 1 else level

unfoldable pub log_level_down : ℕ → ℕ
log_level_down level = if ltb log_emerg level then level - 1 else level

unfoldable pub log_level_set : ℤ → ℕ → ℕ
unfolding clamp_level
log_level_set to level = clamp_level to

-- Whether a message of a level is logged.
unfoldable pub log_loggable : ℕ → ℕ → Bool
log_loggable level_of_message level = not (ltb level level_of_message)
