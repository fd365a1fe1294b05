-- ===== src/Log/Levels/Bounds.antt =====
-- The level that the log can have.
use prefix_match_server.Prelude.{
  ℕ, ◌≤◌, ◌<◌, ◌≡◌, refl, ap, inl, inr, ℤ, pos, negsuc, Bool, true, false, List, [], ◌∷◌, ◌++◌,
  arith, Bytes, All, Bool-cases,
}
use prefix_match_server.Log.Levels.{
  log_emerg, log_debug, LogConf, log_cfg, parse_table, parse_loglevel, clamp_level, init_level,
  log_level_up, log_level_down, log_level_set, log_loggable,
}

-- The calls that change the level after `log_init`, in order.
pub data Leveled (from : ℕ) : ℕ → Type 0 where
  as_set_up : Leveled from from
  up : {level : ℕ} → Leveled from level → Leveled from (log_level_up level)
  down : {level : ℕ} → Leveled from level → Leveled from (log_level_down level)
  set_to : {level : ℕ} (to : ℤ) → Leveled from level → Leveled from (log_level_set to level)

clamp_level-le : (to : ℤ) → clamp_level to ≤ 7
unfolding clamp_level
clamp_level-le (pos n) = ground arith
clamp_level-le (negsuc n) = omega arith

up-le : (level : ℕ) → level ≤ 7 → log_level_up level ≤ 7
unfolding log_level_up
up-le level h = ground arith

down-le : (level : ℕ) → level ≤ 7 → log_level_down level ≤ 7
unfolding log_level_down
down-le level h = ground arith

Leveled-le : (from level : ℕ) → from ≤ 7 → Leveled from level → level ≤ 7
Leveled-le from level h as_set_up = h
Leveled-le from _ h (up {level = l} r) = up-le l (Leveled-le from l h r)
Leveled-le from _ h (down {level = l} r) = down-le l (Leveled-le from l h r)
Leveled-le from _ h (set_to {level = l} to r) = unfold log_level_set in clamp_level-le to

-- Whatever level is read at the start, and for every `strcasestr`: after any calls that change the
-- level, in any order, it is one of those from LOG_EMERG to LOG_DEBUG; so a message of LOG_EMERG is
-- logged, and none above LOG_DEBUG is.
pub init_level-bounds :
    (strcasestr : Bytes → Bytes → Bool) (loglevel : Bytes) (level : ℕ)
    → Leveled (init_level strcasestr loglevel) level
    → (level ≤ log_debug)
      × (log_loggable log_emerg level ≡ true)
      × ((m : ℕ) → log_debug < m → log_loggable m level ≡ false)
unfolding init_level log_loggable
init_level-bounds strcasestr loglevel level r =
    let le =
      Leveled-le (init_level strcasestr loglevel) level
        (clamp_level-le (parse_loglevel strcasestr loglevel)) r in
    (le, ground (arith, le), λ m h. ground (arith, le, h))

-- What the search of the table returns.
abbrev pub Finds : (Bytes → Bool) → List LogConf → ℤ → Type 0
Finds occurs table (pos n) =
    (before : List LogConf) × (entry : LogConf) × (rest : List LogConf) × (table
      ≡ before ++ entry ∷ rest)
    × All (λ (e : LogConf). occurs e.cfg_key ≡ false) before
    × (occurs entry.cfg_key ≡ true)
    × (entry.cfg_shift ≡ n)
Finds occurs table (negsuc n) = All (λ (e : LogConf). occurs e.cfg_key ≡ false) table

-- For every table: the number of the first entry whose key is found is returned, and -1 if none is.
parse_table-Finds :
    (strcasestr : Bytes → Bytes → Bool) (table : List LogConf) (loglevel : Bytes)
    → Finds (strcasestr loglevel) table (parse_table strcasestr table loglevel)
unfolding parse_table
parse_table-Finds strcasestr [] loglevel = tt
parse_table-Finds strcasestr (e ∷ table) loglevel =
    elim (Bool-cases (strcasestr loglevel e.cfg_key)) [
      | inl y ↦ rw y ([], e, table, refl, tt, y, refl)
      | inr y ↦ rw y (
          later (parse_table strcasestr table loglevel) y
            (parse_table-Finds strcasestr table loglevel))
    ]
  where
    later :
        (r : ℤ)
        → strcasestr loglevel e.cfg_key ≡ false
        → Finds (strcasestr loglevel) table r
        → Finds (strcasestr loglevel) (e ∷ table) r
    later (pos n) y (before, entry, rest, same, all, found, shift) =
        (e ∷ before, entry, rest, ap (λ t. e ∷ t) same, (y, all), found, shift)
    later (negsuc n) y all = (y, all)

-- For every `strcasestr`, `parse_loglevel` returns the level of the first entry of the table whose key
-- is found in the text, and -1 only if none is found.
pub parse_loglevel-Finds :
    (strcasestr : Bytes → Bytes → Bool) (loglevel : Bytes)
    → Finds (strcasestr loglevel) log_cfg (parse_loglevel strcasestr loglevel)
unfolding parse_loglevel
parse_loglevel-Finds strcasestr loglevel = parse_table-Finds strcasestr log_cfg loglevel
