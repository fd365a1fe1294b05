-- ===== src/Util/Fields.antt =====
-- `parse_string_fast` of util.cpp.
pub mod Split
use prefix_match_server.Prelude.{
  ℕ, zero, suc, ◌+◌, Option, none, some, List, [], ◌∷◌, Bytes, take, drop,
}
use prefix_match_server.Util.Sep.{find_first_of}

-- `MAX_KEYWORD_LENGTH`
abbrev pub max_keyword_length : ℕ
max_keyword_length = 1024

-- `while (head != NULL)`: the count is of the places left in `dest`, and the list is `head`. The
-- separator is overwritten by a NUL, so a field ends in front of it.
unfoldable pub fields_loop : ℕ → ℕ → Bytes → List Bytes
unfolding find_first_of
fields_loop split zero head = []
fields_loop split (suc room) head = elim (find_first_of (split ∷ []) head 0) [
  | none ↦ head ∷ []
  | some k ↦ take k head ∷ fields_loop split room (drop (k + 1) head)
]

-- The entries of `dest`; `*size` is their number.
unfoldable pub parse_string_fast : Bytes → ℕ → List Bytes
unfolding fields_loop
parse_string_fast str split = fields_loop split max_keyword_length str
