-- ===== src/Tests/Settings.antt =====
-- The theorem on the settings at a concrete file.
use prefix_match_server.Prelude.{
  none, ◌≡◌, refl, some, List, [], ◌∷◌, Bytes, length, All, arith, codes,
}
use prefix_match_server.Config.{check_settings, Settings, settings_init, parse_config}
use prefix_match_server.Config.Texts.{IsPlain}
use prefix_match_server.Config.Reads.{print, IsEntry, settings_of, parse_config-print}

abbrev entries : List (Bytes × Bytes)
entries =
    (codes "port", codes "80") ∷ (codes "port", codes "9999") ∷ (codes "log_path", codes "/l") ∷ []

entries-IsEntry : All IsEntry entries
unfolding prefix_match_server.Config.Texts.setting
entries-IsEntry = ground arith

parse_config-print_example :
    parse_config length (some (codes "c")) (some (print entries)) settings_init
    ≡ some (settings_of length entries settings_init)
parse_config-print_example = parse_config-print length 99 [] entries settings_init entries-IsEntry

-- The later port is kept. A number is the length of its text.
settings_port : (settings_of length entries settings_init).port ≡ 4
unfolding settings_of prefix_match_server.Config.Reads.latest
    prefix_match_server.Config.Reads.chosen prefix_match_server.Config.begins
settings_port = refl

-- A file that sets no index.
checked : check_settings (some (codes "c")) (settings_of length entries settings_init) ≡ none
unfolding check_settings settings_of settings_init prefix_match_server.Config.Reads.latest
    prefix_match_server.Config.Reads.chosen prefix_match_server.Config.begins
checked = refl
