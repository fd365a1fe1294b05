-- ===== src/Util/Trim.antt =====
-- `trimleft`, `trimright` and `trim` of util.cpp.
pub mod Ends
use prefix_match_server.Prelude.{
  ℕ, zero, suc, ◌+◌, ◌-◌, ◌≤◌, ◌≡◌, refl, Bool, true, false, List, [], ◌∷◌, ◌++◌, arith, Bytes, ltb,
  ◌==◌, if◌then◌else◌, bytes_eq, length, get_or, take, drop,
}
use prefix_match_server.Util.Chars.{contains}

-- The loop of `trimleft`: the list is `sStr` from `pos` on.
scan_left : Bytes → Bytes → ℕ → ℕ
scan_left set [] pos = pos
scan_left set (c ∷ rest) pos = if contains set c then scan_left set rest (pos + 1) else pos

-- The loop of `trimright`, which walks `pos` down.
scan_right : Bytes → Bytes → ℕ → ℕ
scan_right set str zero = 0
scan_right set str (suc p) = if contains set (get_or str p 0) then scan_right set str p else suc p

unfoldable pub trim_left_word : Bytes → Bytes → Bytes
trim_left_word str s =
    if ltb (length str) (length s)
    then str
    else if bytes_eq (take (length s) str) s
    then drop (length s) str
    else str

unfoldable pub trimleft : Bytes → Bytes → Bool → Bytes
unfolding scan_left trim_left_word
trimleft [] s by_char = []
trimleft (c ∷ str) s false = trim_left_word (c ∷ str) s
trimleft (c ∷ str) s true =
    let pos = scan_left s (c ∷ str) 0 in if pos == 0 then c ∷ str else drop pos (c ∷ str)

unfoldable pub trim_right_word : Bytes → Bytes → Bytes
trim_right_word str s =
    if ltb (length str) (length s)
    then str
    else if bytes_eq (drop (length str - length s) str) s
    then take (length str - length s) str
    else str

unfoldable pub trimright : Bytes → Bytes → Bool → Bytes
unfolding scan_right trim_right_word
trimright [] s by_char = []
trimright (c ∷ str) s false = trim_right_word (c ∷ str) s
trimright (c ∷ str) s true =
    let pos = scan_right s (c ∷ str) (length (c ∷ str)) in
    if pos == length (c ∷ str) then c ∷ str else take pos (c ∷ str)

unfoldable pub trim : Bytes → Bytes → Bool → Bytes
unfolding trimleft trimright
trim [] s by_char = []
trim (c ∷ str) s false = trimright (trimleft (c ∷ str) s false) s false
trim (c ∷ str) s true = trimright (trimleft (c ∷ str) s true) s true
