-- ===== src/Letters/Product.antt =====
-- `get_all_results`: the words that choose one item from each list.
pub mod Loops
pub mod Choices
use prefix_match_server.Prelude.{
  ℕ, zero, suc, ◌+◌, ◌-◌, ◌*◌, ◌%◌, ◌^◌, List, [], ◌∷◌, ◌++◌, Bytes, length, get_or, set,
}

-- `for (k = 0; k < uOutCount; ++k) vOut.push_back(vOut[k]);` The count is of the rounds left.
push_copies : ℕ → ℕ → List Bytes → List Bytes
push_copies zero k out = out
push_copies (suc n) k out = push_copies n (k + 1) (out ++ get_or out k [] ∷ [])

-- `for (j = 0; j < uItemCount - 1; ++j)`
copy_rounds : ℕ → ℕ → List Bytes → List Bytes
copy_rounds zero out_count out = out
copy_rounds (suc n) out_count out = copy_rounds n out_count (push_copies out_count 0 out)

-- `for (k = j * uOutCount; k < (j + 1) * uOutCount; ++k) vOut[k].append(vecAll[i][j]);`
append_at : ℕ → ℕ → Bytes → List Bytes → List Bytes
append_at zero k item out = out
append_at (suc n) k item out = append_at n (k + 1) item (set out k (get_or out k [] ++ item))

-- `for (j = 0; j < uItemCount; ++j)`: the list is the items from `j` on.
append_rounds : List Bytes → ℕ → ℕ → List Bytes → List Bytes
append_rounds [] j out_count out = out
append_rounds (item ∷ items) j out_count out =
    append_rounds items (j + 1) out_count (append_at out_count (j * out_count) item out)

-- `uItemCount - 1` in `size_t`, which wraps for an empty list.
copies_needed : List Bytes → ℕ
copies_needed items = (length items + 2 ^ 64 - 1) % 2 ^ 64

-- A round of the outer loop.
grow : List Bytes → List Bytes → List Bytes
grow out items =
    append_rounds items 0 (length out) (copy_rounds (copies_needed items) (length out) out)

pub grow_all : List Bytes → List (List Bytes) → List Bytes
grow_all out [] = out
grow_all out (items ∷ all) = grow_all (grow out items) all

-- The vector handed in is left alone when there is no list at all.
unfoldable pub get_all_results : List (List Bytes) → List Bytes → List Bytes
unfolding grow_all grow copies_needed copy_rounds push_copies append_rounds append_at
get_all_results [] out = out
get_all_results (first ∷ all) out = grow_all first all
