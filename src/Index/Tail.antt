-- ===== src/Index/Tail.antt =====
-- `operator<<` and `operator>>` of `string_array`, in prefixmatch.cpp and indexer.cpp, over the tail
-- arrays of dastrie.h, whose operators are parameters.
pub mod RoundTrip
use prefix_match_server.Prelude.{
  ℕ, zero, suc, ◌+◌, ◌%◌, ◌^◌, ◌<◌, ◌≡◌, ◌≢◌, List, [], ◌∷◌, ◌++◌, Bytes, length, All,
}
use prefix_match_server.Search.Set.{NodeItem}

-- What `otail` writes for a value, and what `itail` reads and leaves.
pub record Tails (F : Type 0) : Type 0 where
  pub put_uint32 : ℕ → Bytes
  pub put_string : Bytes → Bytes
  pub put_float : F → Bytes
  pub get_uint32 : Bytes → ℕ × Bytes
  pub get_string : Bytes → Bytes × Bytes
  pub get_float : Bytes → F × Bytes

-- A string is written with the NUL behind it, so it holds none.
abbrev pub NoNul : Bytes → Type 0
NoNul = All (λ b. b ≢ 0)

-- A value is read back, whatever stands behind it.
pub record TailsLaws {F : Type 0} (tails : Tails F) : Type 0 where
  pub uint32 :
      (n : ℕ) (rest : Bytes)
      → n < 2 ^ 32
      → tails.get_uint32 (tails.put_uint32 n ++ rest) ≡ (n, rest)
  pub string :
      (s rest : Bytes) → NoNul s → tails.get_string (tails.put_string s ++ rest) ≡ (s, rest)
  pub float : (x : F) (rest : Bytes) → tails.get_float (tails.put_float x ++ rest) ≡ (x, rest)

module _ {F : Type 0} (tails : Tails F) where
  -- The loop over the items. The list is what is in the tail, which is written at its end.
  unfoldable pub put_items : List (NodeItem F) → Bytes → Bytes
  put_items [] os = os
  put_items (item ∷ obj) os =
      put_items obj (os ++ tails.put_string item.name ++ tails.put_float item.rank)

  -- `operator<<`
  unfoldable pub put_array : List (NodeItem F) → Bytes → Bytes
  put_array obj os = put_items obj (os ++ tails.put_uint32 (length obj % 2 ^ 32))

  -- `for (uint32_t i = 0; i < n; ++i)`, by the rounds that are left.
  unfoldable pub get_items : ℕ → List (NodeItem F) → Bytes → List (NodeItem F) × Bytes
  get_items zero obj is = (obj, is)
  get_items (suc n) obj is =
      let (name, is2) = tails.get_string is in
      let (rank, is3) = tails.get_float is2 in
      get_items n (obj ++ record { name = name; rank = rank } ∷ []) is3

  -- `operator>>`
  unfoldable pub get_array : Bytes → List (NodeItem F) × Bytes
  get_array is = let (n, is2) = tails.get_uint32 is in get_items n [] is2
