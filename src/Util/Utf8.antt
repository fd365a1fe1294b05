-- ===== src/Util/Utf8.antt =====
-- `getUTF8Len` of util.cpp, and the loops `while (p < pEnd)` of prefixmatch.cpp and indexer.cpp that
-- walk a text with it.
pub mod Encoding
use prefix_match_server.Prelude.{
  ℕ, zero, suc, ◌+◌, ◌/◌, ◌≡◌, Bool, List, [], ◌∷◌, ◌++◌, Bytes, ltb, ◌==◌, if◌then◌else◌, length,
  take, drop,
}

-- The list is the text from `p` on, and the NUL byte behind it is its end.
unfoldable pub utf8_len : Bytes → ℕ
utf8_len [] = 0
utf8_len (b ∷ rest) =
    if b == 0
    then 0
    else if ltb b 0x80
    then 1
    else if b / 32 == 0x6
    then 2
    else if b / 16 == 0xe
    then 3
    else if b / 8 == 0x1e
    then 4
    else 0

-- How a loop leaves off: by its test, by a read behind the terminator of the text, or not within
-- the rounds given.
pub data Walk {ℓ} (A : Type ℓ) : Type ℓ where
  finished : A → Walk A
  overread : Walk A
  unfinished : Walk A

-- `while (p < pEnd) { i = getUTF8Len(p); …string(p, i)…; p += i; }`. What a round does with the
-- character is `emit`. The character may take in the terminator, and nothing behind it.
unfoldable pub walk {ℓ} : {A : Type ℓ} → (A → Bytes → A) → ℕ → Bytes → A → Walk A
walk emit zero str acc = unfinished
walk emit (suc fuel) [] acc = finished acc
walk emit (suc fuel) (b ∷ rest) acc =
    let i = utf8_len (b ∷ rest) in
    if ltb (suc (length (b ∷ rest))) i
    then overread
    else walk emit fuel (drop i (b ∷ rest)) (emit acc (take i (b ∷ rest ++ 0 ∷ [])))
