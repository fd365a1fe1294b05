-- ===== src/Util/Sep.antt =====
-- `sepstr` of util.cpp. The list is `sStr` from `pos` on, so `substr(pos)` is the list itself.
pub mod Pieces
use prefix_match_server.Prelude.{
  ℕ, zero, suc, ◌+◌, ◌≡◌, Bool, true, false, Option, none, some, List, [], ◌∷◌, ◌++◌, Bytes, ◌==◌,
  if◌then◌else◌, length, take, drop,
}
use prefix_match_server.Util.Chars.{contains}

-- `find_first_of(sSep, pos)`, counted from `pos`; `i` is the offset reached.
unfoldable pub find_first_of : Bytes → Bytes → ℕ → Option ℕ
find_first_of sep [] i = none
find_first_of sep (c ∷ rest) i = if contains sep c then some i else find_first_of sep rest (i + 1)

unfoldable pub is_empty : Bytes → Bool
is_empty [] = true
is_empty (c ∷ s) = false

-- `vt.push_back(strto(s))`, with the test on `withEmpty`.
push_piece : Bool → Bytes → List Bytes → List Bytes
unfolding is_empty
push_piece true s vt = vt ++ s ∷ []
push_piece false s vt = if is_empty s then vt else vt ++ s ∷ []

-- The piece that ends at the offset `pos1`, which is "" if the separator stands at `pos`.
piece : Bytes → ℕ → Bytes
piece rest pos1 = if pos1 == 0 then [] else take pos1 rest

-- `while (true)`, on fuel; `none` means that the fuel ran out.
sep_loop : Bytes → Bool → ℕ → Bytes → List Bytes → Option (List Bytes)
unfolding find_first_of push_piece piece
sep_loop sep with_empty zero rest vt = none
sep_loop sep with_empty (suc fuel) rest vt = elim (find_first_of sep rest 0) [
  | none ↦ some (push_piece with_empty rest vt)
  | some pos1 ↦
      sep_loop sep with_empty fuel (drop (pos1 + 1) rest)
        (push_piece with_empty (piece rest pos1) vt)
]

-- Every round but the last passes a separator, so `length + 1` rounds are enough.
unfoldable pub sepstr : Bytes → Bytes → Bool → Option (List Bytes)
unfolding sep_loop
sepstr str sep with_empty = sep_loop sep with_empty (suc (length str)) str []
