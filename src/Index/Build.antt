-- ===== src/Index/Build.antt =====
-- `create_index` of indexer.cpp. `atof` is a parameter, and so is what `operator<<` makes of an item.
pub mod Items
pub mod Lines
pub mod Records
use prefix_match_server.Prelude.{
  ℕ, suc, false, Option, none, some, List, [], ◌∷◌, ◌++◌, Bytes, codes, if◌then◌else◌, length,
}
use prefix_match_server.Util.Sep.{sepstr}
use prefix_match_server.Util.Utf8.{Walk, finished, overread, unfinished}
use prefix_match_server.Letters.Table.{HashMap}
use prefix_match_server.Letters.Convert.{and_then, index_letters}
use prefix_match_server.Search.Order.{str_lt}
use prefix_match_server.Search.Set.{NodeItem}

-- What `create_index` returns: -1, a call of `build` with an empty vector, whose behaviour is not
-- defined, or 0 with the records that `build` gets.
pub data Created (F : Type 0) : Type 0 where
  not_opened : Created F
  no_records : Created F
  created : List (Bytes × List (NodeItem F)) → Created F

-- `map<string, string_array>`, in the order of its keys.
abbrev pub Entries : Type 0 → Type 0
Entries F = List (Bytes × List (NodeItem F))

module _ {F : Type 0} where
  -- `mLetterToItems[key].push_back(item)`
  unfoldable pub push_item : Bytes → NodeItem F → Entries F → Entries F
  push_item key item [] = (key, item ∷ []) ∷ []
  push_item key item ((j, v) ∷ entries) =
      if str_lt key j
      then (key, item ∷ []) ∷ (j, v) ∷ entries
      else if str_lt j key
      then (j, v) ∷ push_item key item entries
      else (j, v ++ item ∷ []) ∷ entries

  -- The loop over `vChinese`.
  unfoldable pub push_all : List Bytes → NodeItem F → Entries F → Entries F
  push_all [] item entries = entries
  push_all (key ∷ keys) item entries = push_all keys item (push_item key item entries)

  -- A line by its fields: one that does not have two is passed over.
  unfoldable pub index_fields :
      (Bytes → F) → HashMap → Bytes → List Bytes → Entries F → Walk (Entries F)
  unfolding and_then
  index_fields atof table line [] entries = finished entries
  index_fields atof table line (name ∷ []) entries = finished entries
  index_fields atof table line (name ∷ weight ∷ []) entries =
      and_then (index_letters (suc (length line)) line table)
        (λ keys. push_all keys (record { name = name; rank = atof weight }) entries)
  index_fields atof table line (name ∷ weight ∷ more ∷ fields) entries = finished entries

  unfoldable pub index_line : (Bytes → F) → HashMap → Bytes → Entries F → Walk (Entries F)
  index_line atof table line entries = elim (sepstr line (codes "\t") false) [
    | none ↦ unfinished
    | some fields ↦ index_fields atof table line fields entries
  ]

  -- `while (getline(infile, strLine))`
  unfoldable pub index_lines : (Bytes → F) → HashMap → List Bytes → Entries F → Walk (Entries F)
  index_lines atof table [] entries = finished entries
  index_lines atof table (line ∷ lines) entries = elim (index_line atof table line entries) [
    | finished next ↦ index_lines atof table lines next
    | overread ↦ overread
    | unfinished ↦ unfinished
  ]

  -- The entries but the last.
  unfoldable pub before_last : Bytes × List (NodeItem F) → Entries F → Entries F
  before_last e [] = []
  before_last e (f ∷ entries) = e ∷ before_last f entries

  -- `build(&allRecords[0], &allRecords[allRecords.size() - 1])`: `build` stops before the second.
  unfoldable pub build_range : Entries F → Created F
  unfolding before_last
  build_range [] = no_records
  build_range (e ∷ entries) = created (before_last e entries)

  -- The lines of the input, or `none` if it cannot be opened.
  unfoldable pub create_index : (Bytes → F) → HashMap → Option (List Bytes) → Walk (Created F)
  unfolding and_then
  create_index atof table none = finished not_opened
  create_index atof table (some lines) = and_then (index_lines atof table lines []) build_range
