-- ===== src/Letters/Table/Entries.antt =====
-- The entries of the Chinese map and the lines of its file.
use prefix_match_server.Prelude.{
  ◌≡◌, ◌≢◌, refl, sym, ap, ◌∙◌, true, false, inl, inr, Option, none, some, List, [], ◌∷◌, arith,
  Bytes, codes, if◌then◌else◌, bytes_eq, bytes_eq_refl, bytes_eq_sound, All, Bool-cases,
}
use mathlib.Core.Path.{subst}
use prefix_match_server.Util.Trim.{trim}
use prefix_match_server.Util.Sep.Pieces.{pieces, nonempty, sepstr-pieces}
use prefix_match_server.Letters.Table.{HashMap, lookup, insert, store, read_lines, read_chinese_map}

-- The key and the readings of a line: its fields between spaces, if there are two or more.
fields : Bytes → List Bytes
fields line = nonempty (pieces (codes " ") (trim line (codes " \t\r") true))

reading_if : Bytes → List Bytes → Option (List Bytes)
reading_if k [] = none
reading_if k (j ∷ []) = none
reading_if k (j ∷ v ∷ vs) = if bytes_eq j k then some (v ∷ vs) else none

unfoldable pub line_reading : Bytes → Bytes → Option (List Bytes)
unfolding fields reading_if
line_reading k line = reading_if k (fields line)

-- The reading that a file gives a key: the last line counts, and without one the old value stays.
unfoldable pub file_reading : Bytes → List Bytes → Option (List Bytes) → Option (List Bytes)
file_reading k [] old = old
file_reading k (line ∷ lines) old =
    file_reading k lines (elim (line_reading k line) [ none ↦ old | some v ↦ some v ])

bytes_eq_trans_false : (i j k : Bytes) → bytes_eq i j ≡ true → bytes_eq i k ≡ bytes_eq j k
bytes_eq_trans_false i j k h = ap (λ x. bytes_eq x k) (bytes_eq_sound i j h)

lookup-insert :
    (k j : Bytes) (v : List Bytes) (m : HashMap)
    → lookup j (insert k v m) ≡ (if bytes_eq k j then some v else lookup j m)
unfolding lookup insert
lookup-insert k j v [] = refl
lookup-insert k j v ((i, w) ∷ m) = elim (Bool-cases (bytes_eq i k)) [
  | inl e ↦ rw (e, bytes_eq_trans_false i k j e) (ground arith)
  | inr e ↦
      rw (e, lookup-insert k j v m)
        (ground (arith, bytes_eq_sound i j, bytes_eq_sound k j, bytes_eq_refl j))
]

lookup-store :
    (k : Bytes) (fs : List Bytes) (m : HashMap)
    → lookup k (store fs m) ≡ elim (reading_if k fs) [ none ↦ lookup k m | some v ↦ some v ]
unfolding store reading_if
lookup-store k [] m = refl
lookup-store k (j ∷ []) m = refl
lookup-store k (j ∷ v ∷ vs) m = ground (arith, lookup-insert j k (v ∷ vs) m)

read_step :
    (line : Bytes) (lines : List Bytes) (m : HashMap)
    → read_lines (line ∷ lines) m ≡ read_lines lines (store (fields line) m)
unfolding read_lines fields
read_step line lines m =
    rw (sepstr-pieces (trim line (codes " \t\r") true) (codes " ") false, read_lines)

-- What reading lines into a map returns, and what it then holds.
abbrev Reads : List Bytes → HashMap → Type 0
Reads lines m =
    (m' : HashMap) × (read_lines lines m ≡ some m')
    × ((k : Bytes) → lookup k m' ≡ file_reading k lines (lookup k m))

read_lines-Reads : (lines : List Bytes) (m : HashMap) → Reads lines m
unfolding read_lines file_reading line_reading reading_if
read_lines-Reads [] m = (m, refl, λ k. refl)
read_lines-Reads (line ∷ lines) m =
    let r = read_lines-Reads lines (store (fields line) m) in
    (
      r.0,
      read_step line lines m ∙ r.1,
      λ k. r.2 k ∙ ap (file_reading k lines) (lookup-store k (fields line) m),
    )

-- For every file that can be opened, `read_chinese_map` ends, and a key is then mapped to the fields
-- behind it in the last line that begins with it and has two fields or more; a key that no such line
-- begins with keeps the value it had.
pub read_chinese_map-reading :
    (lines : List Bytes) (m : HashMap)
    → (m' : HashMap) × (read_chinese_map (some lines) m ≡ some m')
      × ((k : Bytes) → lookup k m' ≡ file_reading k lines (lookup k m))
unfolding read_chinese_map
read_chinese_map-reading lines m = read_lines-Reads lines m

-- Every value of the map has an item.
abbrev pub HasReadings : HashMap → Type 0
HasReadings m = All (λ (e : Bytes × List Bytes). e.1 ≢ []) m

insert-HasReadings :
    (k : Bytes) (v : List Bytes) (m : HashMap) → v ≢ [] → HasReadings m → HasReadings (insert k v m)
unfolding insert
insert-HasReadings k v [] ne h = (ne, tt)
insert-HasReadings k v ((j, w) ∷ m) ne h = elim (Bool-cases (bytes_eq j k)) [
  | inl e ↦ rw (e, insert) (ne, h.1)
  | inr e ↦ rw (e, insert) (h.0, insert-HasReadings k v m ne h.1)
]

store-HasReadings : (fs : List Bytes) (m : HashMap) → HasReadings m → HasReadings (store fs m)
unfolding store
store-HasReadings [] m h = h
store-HasReadings (k ∷ []) m h = h
store-HasReadings (k ∷ v ∷ vs) m h = insert-HasReadings k (v ∷ vs) m (λ e. cc) h

read_lines-HasReadings :
    (lines : List Bytes) (m m' : HashMap)
    → HasReadings m
    → read_lines lines m ≡ some m'
    → HasReadings m'
unfolding read_lines
read_lines-HasReadings [] m m' h e = let q : m ≡ m' = cc in subst HasReadings q h
read_lines-HasReadings (line ∷ lines) m m' h e =
    read_lines-HasReadings lines (store (fields line) m) m' (store-HasReadings (fields line) m h)
      (sym (read_step line lines m) ∙ e)

-- `read_chinese_map` never stores a key without a reading.
pub read_chinese_map-HasReadings :
    (file : Option (List Bytes)) (m m' : HashMap)
    → HasReadings m
    → read_chinese_map file m ≡ some m'
    → HasReadings m'
unfolding read_chinese_map
read_chinese_map-HasReadings none m m' h e = cc
read_chinese_map-HasReadings (some lines) m m' h e = read_lines-HasReadings lines m m' h e

-- So a key that is found has a reading.
pub lookup-HasReadings :
    (k : Bytes) (m : HashMap) (v : List Bytes) → HasReadings m → lookup k m ≡ some v → v ≢ []
unfolding lookup
lookup-HasReadings k [] v h e = absurd (cc)
lookup-HasReadings k ((j, w) ∷ m) v h e = elim (Bool-cases (bytes_eq j k)) [
  | inl t ↦ let q : w ≡ v = ground arith in subst (λ x. x ≢ []) q h.0
  | inr t ↦ lookup-HasReadings k m v h.1 (ground arith)
]
