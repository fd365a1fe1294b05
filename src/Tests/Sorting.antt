-- ===== src/Tests/Sorting.antt =====
-- A sort that keeps what `std::sort` promises, at weights that are numbers.
use prefix_match_server.Prelude.{
  ℕ, inl, inr, Bool, List, [], ◌∷◌, arith, ltb, if◌then◌else◌, Bool-cases,
}
use prefix_match_server.Prelude.Permutes.{Permutes, nil, skip, swap, trans, Permutes-refl}
use prefix_match_server.Search.Set.{NodeItem}
use prefix_match_server.Search.Filter.{Sort, rank_compare}
use prefix_match_server.Search.Filter.Answer.{Ordered, Sorts}

put_in : (NodeItem ℕ → NodeItem ℕ → Bool) → NodeItem ℕ → List (NodeItem ℕ) → List (NodeItem ℕ)
put_in lt x [] = x ∷ []
put_in lt x (y ∷ ys) = if lt y x then y ∷ put_in lt x ys else x ∷ y ∷ ys

unfoldable pub insertion_sort : Sort ℕ
unfolding put_in
insertion_sort lt [] = []
insertion_sort lt (x ∷ xs) = put_in lt x (insertion_sort lt xs)

abbrev by_weight : NodeItem ℕ → NodeItem ℕ → Bool
by_weight = rank_compare ltb

put_in-Permutes :
    (x : NodeItem ℕ) (xs : List (NodeItem ℕ)) → Permutes (x ∷ xs) (put_in by_weight x xs)
unfolding put_in
put_in-Permutes x [] = Permutes-refl (x ∷ [])
put_in-Permutes x (y ∷ ys) = elim (Bool-cases (by_weight y x)) [
  | inl e ↦ rw e (trans (swap x y ys) (skip y (put_in-Permutes x ys)))
  | inr e ↦ rw e (Permutes-refl (x ∷ y ∷ ys))
]

put_in-Ordered :
    (x : NodeItem ℕ) (xs : List (NodeItem ℕ))
    → Ordered by_weight xs
    → Ordered by_weight (put_in by_weight x xs)
unfolding put_in rank_compare
put_in-Ordered x [] o = tt
put_in-Ordered x (y ∷ []) o = ground arith
put_in-Ordered x (y ∷ z ∷ zs) o = ground (arith, put_in-Ordered x (z ∷ zs))

pub insertion_sort-Sorts : Sorts (rank_compare ltb) insertion_sort
unfolding insertion_sort
insertion_sort-Sorts [] = (nil, tt)
insertion_sort-Sorts (x ∷ xs) =
    let r = insertion_sort-Sorts xs in
    (
      trans (skip x r.0) (put_in-Permutes x (insertion_sort by_weight xs)),
      put_in-Ordered x (insertion_sort by_weight xs) r.1,
    )
