-- ===== src/Util/Chars.antt =====
-- The tests of std::string that util.cpp calls on a set of characters.
use prefix_match_server.Prelude.{ℕ, ◌≡◌, Bool, true, false, ◌||◌, [], ◌∷◌, Bytes, ◌==◌}

-- `s.find_first_of(c) != npos`, and `strchr(s, c) != NULL` for a character other than NUL.
unfoldable pub contains : Bytes → ℕ → Bool
contains [] c = false
contains (x ∷ xs) c = x == c || contains xs c

-- The character is in the set, or is not.
abbrev pub In : Bytes → ℕ → Type 0
In set c = contains set c ≡ true

abbrev pub NotIn : Bytes → ℕ → Type 0
NotIn set c = contains set c ≡ false
