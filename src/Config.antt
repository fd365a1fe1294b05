-- ===== src/Config.antt =====
-- The settings of config.cpp and the file that they are read from.
pub mod Texts
pub mod Reads
use prefix_match_server.Prelude.{
  ℕ, zero, suc, ◌%◌, ◌^◌, Bool, true, false, Option, none, some, List, [], ◌∷◌, Bytes, codes, ◌==◌,
  if◌then◌else◌, length, take,
}
use prefix_match_server.Util.Delstr.{delstr}
use prefix_match_server.Util.Fields.{parse_string_fast}

-- `struct settings`, what `parse_config` sets of it. A string is `none` while it is NULL, and an int is
-- the 32 bits that hold it.
pub record Settings : Type 0 where
  pub username : Option Bytes
  pub pidfile : Option Bytes
  pub maxconns : ℕ
  pub port : ℕ
  pub socketpath : Option Bytes
  pub num_threads : ℕ
  pub reqs_per_event : ℕ
  pub backlog : ℕ
  pub verbose : ℕ
  pub index_path : Option Bytes
  pub chinese_map_file : Option Bytes
  pub max_depth : ℕ
  pub log_path : Option Bytes
  pub log_level : Option Bytes
  pub monitor_port : ℕ
  pub monitor_timeout : ℕ

-- `settings_init`; what it does not set is 0 from the start.
unfoldable pub settings_init : Settings
settings_init = record {
  username = none;
  pidfile = none;
  maxconns = 1024;
  port = 10000;
  socketpath = none;
  num_threads = 4;
  reqs_per_event = 20;
  backlog = 1024;
  verbose = 0;
  index_path = none;
  chinese_map_file = none;
  max_depth = 1024;
  log_path = none;
  log_level = none;
  monitor_port = 0;
  monitor_timeout = 10;
}

-- `bufsize`, less the NUL that `fgets` writes.
abbrev pub line_limit : ℕ
line_limit = 1023

-- `fgets`: the line with its newline, or as much of it as there is room for, and what is left.
unfoldable pub next_line : ℕ → Bytes → Bytes × Bytes
next_line zero file = ([], file)
next_line (suc room) [] = ([], [])
next_line (suc room) (c ∷ file) =
    let (buf, rest) = next_line room file in if c == 10 then (c ∷ [], file) else (c ∷ buf, rest)

-- The text that a buffer holds, up to its first NUL.
unfoldable pub c_string : Bytes → Bytes
c_string [] = []
c_string (c ∷ buf) = if c == 0 then [] else c ∷ c_string buf

-- `buf[strlen(buf) - 1] = '\0'`; `none` if that is an access in front of the buffer.
unfoldable pub cut_last : Bytes → Option Bytes
cut_last [] = none
cut_last (c ∷ []) = some []
cut_last (c ∷ d ∷ buf) = elim (cut_last (d ∷ buf)) [ none ↦ none | some s ↦ some (c ∷ s) ]

-- `if (buf[strlen(buf) - 1] == '\r') buf[strlen(buf) - 1] = '\0';`
unfoldable pub cut_return : Bytes → Option Bytes
cut_return [] = none
cut_return (c ∷ []) = some (if c == 13 then [] else c ∷ [])
cut_return (c ∷ d ∷ buf) = elim (cut_return (d ∷ buf)) [ none ↦ none | some s ↦ some (c ∷ s) ]

-- `!strncmp(str, key, strlen(str))`
unfoldable pub begins : Bytes → Bytes → Bool
begins [] key = true
begins (c ∷ str) [] = false
begins (c ∷ str) (d ∷ key) = if c == d then begins str key else false

-- What follows an access that may be none.
infixl 1 ◌>>=◌
unfoldable ◌>>=◌ : {A B : Type 0} → Option A → (A → Option B) → Option B
none >>= f = none
some a >>= f = f a

-- `set_config_str`: what a setting becomes.
unfoldable pub set_config_str : Bytes → Bytes → Bytes → Option Bytes → Option Bytes
set_config_str str key value old = if begins str key then some value else old

module _ (atoi : Bytes → ℕ) where
  -- `set_config_int`
  unfoldable pub set_config_int : Bytes → Bytes → Bytes → ℕ → ℕ
  set_config_int str key value old = if begins str key then atoi value else old

  -- `set_config_short`; `monitor_port` has 16 bits.
  unfoldable pub set_config_short : Bytes → Bytes → Bytes → ℕ → ℕ
  set_config_short str key value old = if begins str key then atoi value % 2 ^ 16 else old

  -- The macros in turn; each sets a field of its own.
  unfoldable pub set_config : Bytes → Bytes → Settings → Settings
  unfolding set_config_str set_config_int set_config_short
  set_config key value s = record {
    username = set_config_str (codes "username") key value s.username;
    pidfile = set_config_str (codes "pidfile") key value s.pidfile;
    socketpath = set_config_str (codes "unixpath") key value s.socketpath;
    port = set_config_int (codes "port") key value s.port;
    verbose = set_config_int (codes "verbose") key value s.verbose;
    maxconns = set_config_int (codes "maxconn") key value s.maxconns;
    num_threads = set_config_int (codes "threads") key value s.num_threads;
    backlog = set_config_int (codes "backlog") key value s.backlog;
    reqs_per_event = set_config_int (codes "max_requests") key value s.reqs_per_event;
    chinese_map_file = set_config_str (codes "chinese_map_file") key value s.chinese_map_file;
    index_path = set_config_str (codes "index_file") key value s.index_path;
    max_depth = set_config_int (codes "max_depth") key value s.max_depth;
    log_path = set_config_str (codes "log_path") key value s.log_path;
    log_level = set_config_str (codes "log_level") key value s.log_level;
    monitor_port = set_config_short (codes "monitor_port") key value s.monitor_port;
    monitor_timeout = set_config_int (codes "monitor_timeout") key value s.monitor_timeout;
  }

  -- `if (size != 2) continue;`
  unfoldable pub set_fields : List Bytes → Settings → Settings
  unfolding set_config
  set_fields [] s = s
  set_fields (key ∷ []) s = s
  set_fields (key ∷ value ∷ []) s = set_config key value s
  set_fields (key ∷ value ∷ more ∷ result) s = s

  -- A line without blanks, which is passed over if it is empty or a comment.
  unfoldable pub set_line : Bytes → Settings → Settings
  unfolding set_fields
  set_line [] s = s
  set_line (c ∷ buf) s = if c == 35 then s else set_fields (parse_string_fast (c ∷ buf) 61) s

  -- A round, from what `fgets` has put into `buf`.
  unfoldable pub parse_line : Bytes → Settings → Option Settings
  unfolding c_string cut_last cut_return set_line ◌>>=◌
  parse_line buf s = do
    cut ← cut_last (c_string buf)
    text ← cut_return cut
    let (left, size) = delstr text (codes " \t")
    some (set_line (take size left) s)

  -- `while (fgets(buf, bufsize, fp) != NULL)`, on fuel: a round takes a byte at least.
  unfoldable pub parse_lines : ℕ → Bytes → Settings → Option Settings
  unfolding next_line parse_line ◌>>=◌
  parse_lines fuel [] s = some s
  parse_lines zero (c ∷ file) s = none
  parse_lines (suc fuel) (c ∷ file) s = do
    let (buf, rest) = next_line line_limit (c ∷ file)
    t ← parse_line buf s
    parse_lines fuel rest t

  -- `none` is an access through NULL or in front of `buf`. The file is `none` if it cannot be opened.
  unfoldable pub parse_config : Option Bytes → Option Bytes → Settings → Option Settings
  unfolding parse_lines
  parse_config none file s = none
  parse_config (some []) file s = some s
  parse_config (some (c ∷ cfgpath)) none s = some s
  parse_config (some (c ∷ cfgpath)) (some file) s = parse_lines (length file) file s

-- `CHECK`: an access through NULL, -1 for an empty string, or the checks that follow.
unfoldable pub check : Option Bytes → Option Bool → Option Bool
check none rest = none
check (some []) rest = some false
check (some (c ∷ s)) rest = rest

-- `true` is 0, and `none` an access through NULL.
unfoldable pub check_settings : Option Bytes → Settings → Option Bool
unfolding check
check_settings cfgpath s = check cfgpath (check s.index_path (check s.chinese_map_file (some true)))
