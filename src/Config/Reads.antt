-- ===== src/Config/Reads.antt =====
-- Settings that are printed into a file and read back.
use prefix_match_server.Prelude.{
  ℕ, zero, suc, ◌+◌, ◌≤◌, ◌<◌, ◌%◌, ◌^◌, ◌≡◌, refl, ap, ◌∙◌, Bool, true, false, Option, none, some,
  List, [], ◌∷◌, ◌++◌, arith, Bytes, codes, if◌then◌else◌, length, length-append, All,
}
use prefix_match_server.Config.{
  Settings, line_limit, next_line, begins, set_config_str, set_config_int, set_config_short,
  set_config, parse_line, parse_lines, parse_config,
}
use prefix_match_server.Config.Texts.{
  IsPlain, setting, setting-InLine, next_line-InLine, parse_line-setting,
}

-- A file with a line `key = value` for each entry.
unfoldable pub print : List (Bytes × Bytes) → Bytes
print [] = []
print ((key, value) ∷ entries) = setting key value ++ 10 ∷ print entries

-- An entry of plain characters that fits into the buffer.
abbrev pub IsEntry : Bytes × Bytes → Type 0
IsEntry (key, value) =
    All IsPlain key × All IsPlain value × (length (setting key value) < line_limit)

-- The value of the last entry whose key begins with a name.
unfoldable pub later : Bool → Option Bytes → Bytes → Option Bytes
later b (some v) value = some v
later true none value = some value
later false none value = none

unfoldable pub latest : Bytes → List (Bytes × Bytes) → Option Bytes
unfolding later
latest name [] = none
latest name ((key, value) ∷ entries) = later (begins name key) (latest name entries) value

-- What a value sets, or what there was.
unfoldable pub chosen {ℓ} : {A : Type ℓ} → (Bytes → A) → Option Bytes → A → A
chosen f none old = old
chosen f (some v) old = f v

chosen-later :
    {A : Type 0} (f : Bytes → A) (b : Bool) (o : Option Bytes) (value : Bytes) (old : A)
    → chosen f o (if b then f value else old) ≡ chosen f (later b o value) old
unfolding chosen later
chosen-later f true none value old = refl
chosen-later f false none value old = refl
chosen-later f b (some v) value old = refl

chosen-set_config_str :
    (name key value : Bytes) (entries : List (Bytes × Bytes)) (old : Option Bytes)
    → chosen some (latest name entries) (set_config_str name key value old)
      ≡ chosen some (latest name ((key, value) ∷ entries)) old
unfolding latest set_config_str
chosen-set_config_str name key value entries old =
    chosen-later some (begins name key) (latest name entries) value old

module _ (atoi : Bytes → ℕ) where
  -- Each setting from the last entry whose key begins with its name, or as it was.
  unfoldable pub settings_of : List (Bytes × Bytes) → Settings → Settings
  settings_of entries s = record {
    username = chosen some (latest (codes "username") entries) s.username;
    pidfile = chosen some (latest (codes "pidfile") entries) s.pidfile;
    maxconns = chosen atoi (latest (codes "maxconn") entries) s.maxconns;
    port = chosen atoi (latest (codes "port") entries) s.port;
    socketpath = chosen some (latest (codes "unixpath") entries) s.socketpath;
    num_threads = chosen atoi (latest (codes "threads") entries) s.num_threads;
    reqs_per_event = chosen atoi (latest (codes "max_requests") entries) s.reqs_per_event;
    backlog = chosen atoi (latest (codes "backlog") entries) s.backlog;
    verbose = chosen atoi (latest (codes "verbose") entries) s.verbose;
    index_path = chosen some (latest (codes "index_file") entries) s.index_path;
    chinese_map_file = chosen some (latest (codes "chinese_map_file") entries) s.chinese_map_file;
    max_depth = chosen atoi (latest (codes "max_depth") entries) s.max_depth;
    log_path = chosen some (latest (codes "log_path") entries) s.log_path;
    log_level = chosen some (latest (codes "log_level") entries) s.log_level;
    monitor_port =
        chosen (λ v. atoi v % 2 ^ 16) (latest (codes "monitor_port") entries) s.monitor_port;
    monitor_timeout = chosen atoi (latest (codes "monitor_timeout") entries) s.monitor_timeout;
  }

  chosen-set_config_int :
      (name key value : Bytes) (entries : List (Bytes × Bytes)) (old : ℕ)
      → chosen atoi (latest name entries) (set_config_int atoi name key value old)
        ≡ chosen atoi (latest name ((key, value) ∷ entries)) old
  unfolding latest set_config_int
  chosen-set_config_int name key value entries old =
      chosen-later atoi (begins name key) (latest name entries) value old

  chosen-set_config_short :
      (name key value : Bytes) (entries : List (Bytes × Bytes)) (old : ℕ)
      → chosen
          (λ v. atoi v % 2 ^ 16)
          (latest name entries)
          (set_config_short atoi name key value old)
        ≡ chosen (λ v. atoi v % 2 ^ 16) (latest name ((key, value) ∷ entries)) old
  unfolding latest set_config_short
  chosen-set_config_short name key value entries old =
      chosen-later (λ v. atoi v % 2 ^ 16) (begins name key) (latest name entries) value old

  settings_of-cons :
      (key value : Bytes) (entries : List (Bytes × Bytes)) (s : Settings)
      → settings_of entries (set_config atoi key value s) ≡ settings_of ((key, value) ∷ entries) s
  unfolding settings_of set_config
  settings_of-cons key value entries s =
      rw
        (
          chosen-set_config_str (codes "username") key value entries s.username,
          chosen-set_config_str (codes "pidfile") key value entries s.pidfile,
          chosen-set_config_str (codes "unixpath") key value entries s.socketpath,
          chosen-set_config_str (codes "index_file") key value entries s.index_path,
          chosen-set_config_str (codes "chinese_map_file") key value entries s.chinese_map_file,
          chosen-set_config_str (codes "log_path") key value entries s.log_path,
          chosen-set_config_str (codes "log_level") key value entries s.log_level,
          chosen-set_config_int (codes "maxconn") key value entries s.maxconns,
          chosen-set_config_int (codes "port") key value entries s.port,
          chosen-set_config_int (codes "threads") key value entries s.num_threads,
          chosen-set_config_int (codes "max_requests") key value entries s.reqs_per_event,
          chosen-set_config_int (codes "backlog") key value entries s.backlog,
          chosen-set_config_int (codes "verbose") key value entries s.verbose,
          chosen-set_config_int (codes "max_depth") key value entries s.max_depth,
          chosen-set_config_int (codes "monitor_timeout") key value entries s.monitor_timeout,
          chosen-set_config_short (codes "monitor_port") key value entries s.monitor_port,
        )
        refl

  settings_of-nil : (s : Settings) → s ≡ settings_of [] s
  unfolding settings_of latest chosen
  settings_of-nil s = refl

  -- A round of the loop.
  parse_round :
      (fuel : ℕ) (file buf rest : Bytes) (s t : Settings)
      → 0 < length file
      → next_line line_limit file ≡ (buf, rest)
      → parse_line atoi buf s ≡ some t
      → parse_lines atoi (suc fuel) file s ≡ parse_lines atoi fuel rest t
  unfolding parse_lines
  parse_round fuel [] buf rest s t lt e f = absurd (omega arith)
  parse_round fuel (c ∷ file) buf rest s t lt e f = rw (e, f, parse_lines) refl

  parse_lines-print :
      (entries : List (Bytes × Bytes)) (fuel : ℕ) (s : Settings)
      → All IsEntry entries
      → length (print entries) ≤ fuel
      → parse_lines atoi fuel (print entries) s ≡ some (settings_of entries s)
  unfolding print
  parse_lines-print [] fuel s h le = unfold parse_lines in ap some (settings_of-nil s)
  parse_lines-print ((key, value) ∷ entries) zero s h le =
      absurd (omega (arith, length-append (setting key value) (10 ∷ print entries)))
  parse_lines-print ((key, value) ∷ entries) (suc fuel) s h le =
      let n : length (setting key value ++ 10 ∷ print entries)
          ≡ length (setting key value) + suc (length (print entries)) =
        length-append (setting key value) (10 ∷ print entries) in
      parse_round fuel _ _ _ s _ (omega (arith, n))
        (next_line-InLine (setting key value) (print entries) line_limit
          (setting-InLine key value h.0.0 h.0.1) h.0.2)
        (parse_line-setting atoi key value s h.0.0 h.0.1)
      ∙ parse_lines-print entries fuel (set_config atoi key value s) h.1 (omega (arith, n))
      ∙ ap some (settings_of-cons key value entries s)

  -- A file with a line `key = value` for each entry, of plain characters and short enough for the
  -- buffer, is read without an access out of bounds: each setting is then that of the last entry whose
  -- key begins with its name, and stays as it was if there is none.
  pub parse_config-print :
      (c : ℕ) (cfgpath : Bytes) (entries : List (Bytes × Bytes)) (s : Settings)
      → All IsEntry entries
      → parse_config atoi (some (c ∷ cfgpath)) (some (print entries)) s
        ≡ some (settings_of entries s)
  unfolding parse_config
  parse_config-print c cfgpath entries s h =
      parse_lines-print entries (length (print entries)) s h (omega arith)
