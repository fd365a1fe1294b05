-- ===== src/Util/Delstr.antt =====
-- `delstr` of util.cpp, which compacts a buffer in place.
pub mod InPlace
use prefix_match_server.Prelude.{
  ℕ, zero, suc, ◌+◌, ◌-◌, ◌≡◌, Bool, true, false, List, [], ◌∷◌, ◌++◌, Bytes, ◌==◌, if◌then◌else◌,
  length, get_or, set,
}
use prefix_match_server.Util.Chars.{contains}

-- The buffer and `span`, the number of characters deleted so far.
pub record Sweep : Type 0 where
  pub str : Bytes
  pub span : ℕ

-- A round at `i`; each of its branches steps `i`. A NUL is no character of the text.
sweep_at : Bytes → ℕ → Sweep → Sweep
sweep_at delchs i s =
    if contains delchs (get_or s.str i 0)
    then record s { span = s.span + 1 }
    else if s.span == 0
    then s
    else record s { str = set s.str (i - s.span) (get_or s.str i 0) }

-- `for (i = 0; i < size;)`: the count is of the rounds left.
sweep : Bytes → ℕ → ℕ → Sweep → Sweep
sweep delchs zero i s = s
sweep delchs (suc n) i s = sweep delchs n (i + 1) (sweep_at delchs i s)

-- `for (i = size - span; i < size; i++) str[i] = '\0'`
clear : ℕ → ℕ → Bytes → Bytes
clear zero i str = str
clear (suc n) i str = clear n (i + 1) (set str i 0)

-- The text without its terminator; the result is the buffer left behind, of the same size, and the
-- new length.
unfoldable pub delstr : Bytes → Bytes → Bytes × ℕ
unfolding sweep sweep_at clear
delstr str delchs =
    let s = sweep delchs (length str) 0 (record { str = str; span = 0 }) in
    (clear s.span (length str - s.span) s.str, length str - s.span)
