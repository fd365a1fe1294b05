-- ===== src/Letters/Table.antt =====
-- The Chinese map: `hashMap` and `read_chinese_map`.
pub mod Entries
use prefix_match_server.Prelude.{
  ℕ, Bool, true, false, Option, none, some, List, [], ◌∷◌, Bytes, codes, if◌then◌else◌, bytes_eq,
}
use prefix_match_server.Util.Trim.{trim}
use prefix_match_server.Util.Sep.{sepstr}

-- `unordered_map<string, vector<string> >`, as an association list.
abbrev pub HashMap : Type 0
HashMap = List (Bytes × List Bytes)

-- `find`
unfoldable pub lookup : Bytes → HashMap → Option (List Bytes)
lookup k [] = none
lookup k ((j, v) ∷ m) = if bytes_eq j k then some v else lookup k m

-- `chinese_map[k] = v`
unfoldable pub insert : Bytes → List Bytes → HashMap → HashMap
insert k v [] = (k, v) ∷ []
insert k v ((j, w) ∷ m) = if bytes_eq j k then (j, v) ∷ m else (j, w) ∷ insert k v m

-- A line of fewer than two fields is passed over.
store : List Bytes → HashMap → HashMap
store [] m = m
store (k ∷ []) m = m
store (k ∷ v ∷ vs) m = insert k (v ∷ vs) m

-- `while (getline(inf, strLine))`; `none` if `sepstr` does not return.
read_lines : List Bytes → HashMap → Option HashMap
unfolding store
read_lines [] m = some m
read_lines (line ∷ lines) m = elim (sepstr (trim line (codes " \t\r") true) (codes " ") false) [
  | none ↦ none
  | some fields ↦ read_lines lines (store fields m)
]

-- The lines of the file, or `none` if it cannot be opened, which the code reports by -1.
unfoldable pub read_chinese_map : Option (List Bytes) → HashMap → Option HashMap
unfolding read_lines
read_chinese_map none m = none
read_chinese_map (some lines) m = read_lines lines m
