-- ===== src/Search/Filter.antt =====
-- `filter_result`. `std::sort` and the weights' `operator<` are parameters.
pub mod Find
pub mod Answer
use prefix_match_server.Prelude.{
  ℕ, Bool, true, false, ◌||◌, List, [], ◌∷◌, ◌++◌, Bytes, ◌==◌, if◌then◌else◌, take,
}
use prefix_match_server.Search.Set.{NodeItem, names, set_insert}

-- The pattern stands at the front of the text.
unfoldable pub stands_at : Bytes → Bytes → Bool
stands_at [] text = true
stands_at (p ∷ pattern) [] = false
stands_at (p ∷ pattern) (c ∷ text) = if p == c then stands_at pattern text else false

-- `text.find(pattern) != npos`
unfoldable pub find : Bytes → Bytes → Bool
unfolding stands_at
find pattern [] = stands_at pattern []
find pattern (c ∷ text) = stands_at pattern (c ∷ text) || find pattern text

-- The loop over `j`, which leaves at the first rule that is not found.
unfoldable pub passes : Bytes → List Bytes → Bool
passes name [] = true
passes name (rule ∷ rules) = if find rule name then passes name rules else false

module _ {F : Type 0} where
  -- The loop over `i`, from the set that it has built.
  unfoldable pub collect : List Bytes → List (NodeItem F) → List (NodeItem F) → List (NodeItem F)
  collect rules [] set = set
  collect rules (node ∷ results) set =
      collect rules results (if passes node.name rules then set_insert node set else set)

-- What `std::sort` makes of a range, for a comparison.
abbrev pub Sort : Type 0 → Type 0
Sort F = (NodeItem F → NodeItem F → Bool) → List (NodeItem F) → List (NodeItem F)

module _ {F : Type 0} (weight_lt : F → F → Bool) where
  unfoldable pub rank_compare : NodeItem F → NodeItem F → Bool
  rank_compare s t = weight_lt s.rank t.rank

module _ {F : Type 0} (weight_lt : F → F → Bool) (sort : Sort F) where
  -- `max` is `nMaxNumToGet` as the comparison with a `size_t` reads it.
  unfoldable pub filter_result : List (NodeItem F) → List Bytes → List Bytes → ℕ → List Bytes
  filter_result results rules out max =
      out ++ names (take max (sort (rank_compare weight_lt) (collect rules results [])))
