-- ===== src/Http/Listing.antt =====
-- The lines that a `get` of the HTTP monitor lists.
use prefix_match_server.Prelude.{
  ℤ, pos, negsuc, ℕ, zero, suc, ◌+◌, ◌-◌, ◌%◌, ◌^◌, ◌≤◌, ◌<◌, ◌≡◌, refl, sym, ap, ◌∙◌, inl, inr,
  true, some, List, [], ◌∷◌, arith, Bytes, ltb, length, take, drop, map, get_elem?, take_all,
  Bool-cases,
}
use prefix_match_server.Search.Query.{concat}
use prefix_match_server.Http.{as_size, as_int, clamp, rounds, item, item_at, items}

-- The results that a count asks for: all of them if it is negative.
unfoldable pub wanted : ℤ → List Bytes → List Bytes
wanted (pos n) res = take n res
wanted (negsuc n) res = res

-- What an `int` can be.
abbrev pub IsInt : ℤ → Type 0
IsInt (pos n) = n < 2 ^ 31
IsInt (negsuc n) = n < 2 ^ 31

get_elem-drop :
    (res : List Bytes) (i : ℕ)
    → i < length res
    → (v : Bytes) × (get_elem? res i ≡ some v) × (drop i res ≡ v ∷ drop (i + 1) res)
get_elem-drop [] i h = absurd (omega arith)
get_elem-drop (x ∷ res) zero h = (x, refl, refl)
get_elem-drop (x ∷ res) (suc i) h =
    let (v, e, d) = get_elem-drop res i (omega arith) in
    let k : suc i + 1 ≡ suc (i + 1) = omega arith in (v, e, rw k d)

item_at-some :
    (res : List Bytes) (i : ℕ) (v : Bytes) → get_elem? res i ≡ some v → item_at res i ≡ item v
unfolding item_at
item_at-some res i v e = rw (e, item_at) refl

items_lem :
    (k i : ℕ) (res : List Bytes)
    → i + k ≤ length res
    → items k i res ≡ concat (map item (take k (drop i res)))
unfolding items concat
items_lem zero i res h = refl
items_lem (suc k) i res h =
    let (v, e, d) = get_elem-drop res i (omega arith) in
    rw (d, items_lem k (i + 1) res (omega arith), item_at-some res i v e) refl

as_int_small : (n : ℕ) → n < 2 ^ 31 → as_int n ≡ pos n
unfolding as_int
as_int_small n h =
    let m : n % 2 ^ 32 ≡ n = omega arith in
    let l : ltb n (2 ^ 31) ≡ true = ground arith in rw (m, l) refl

-- The count that is left is that of the results that are wanted.
clamp-wanted :
    (number : ℤ) (res : List Bytes)
    → IsInt number
    → length res < 2 ^ 31
    → (rounds (clamp number (length res)) ≤ length res)
      × (take (rounds (clamp number (length res))) res ≡ wanted number res)
unfolding clamp as_size wanted rounds
clamp-wanted (pos n) res h small = elim (Bool-cases (ltb (length res) n)) [
  | inl e ↦
      rw (e, as_int_small (length res) small)
        (omega arith, take_all res (length res) (omega arith) ∙ sym (take_all res n (ground arith)))
  | inr e ↦ rw e (ground arith, refl)
]
clamp-wanted (negsuc n) res h small =
    let e : ltb (length res) (2 ^ 64 - suc n) ≡ true = ground arith in
    rw (e, as_int_small (length res) small) (omega arith, take_all res (length res) (omega arith))

-- For a count that is an int, and results whose number is one: the loop of a `get` reads no result
-- behind the end, and lists, in order, as many of them as the count asks for, or all of them if there
-- are fewer or the count is negative.
pub items-wanted :
    (number : ℤ) (res : List Bytes)
    → IsInt number
    → length res < 2 ^ 31
    → items (rounds (clamp number (length res))) 0 res ≡ concat (map item (wanted number res))
items-wanted number res h small =
    let (le, e) = clamp-wanted number res h small in
    items_lem (rounds (clamp number (length res))) 0 res (omega (arith, le))
    ∙ ap (λ r. concat (map item r)) e
