-- ===== src/Index/Tail/RoundTrip.antt =====
-- Reading back what was written.
use prefix_match_server.Prelude.{
  ℕ, suc, ◌%◌, ◌^◌, ◌<◌, ◌≡◌, refl, sym, ap, ◌∙◌, List, [], ◌∷◌, ◌++◌, append-nil, append_assoc,
  Bytes, length, All, arith,
}
use prefix_match_server.Search.Set.{NodeItem}
use prefix_match_server.Index.Tail.{
  Tails, TailsLaws, NoNul, put_items, put_array, get_items, get_array,
}

module _ {F : Type 0} (tails : Tails F) (laws : TailsLaws tails) where
  -- What the loop appends.
  items_bytes : List (NodeItem F) → Bytes
  items_bytes [] = []
  items_bytes (item ∷ obj) =
      tails.put_string item.name ++ (tails.put_float item.rank ++ items_bytes obj)

  put_items-Appends :
      (obj : List (NodeItem F)) (os : Bytes) → put_items tails obj os ≡ os ++ items_bytes obj
  unfolding put_items items_bytes
  put_items-Appends [] os = sym (append-nil os)
  put_items-Appends (item ∷ obj) os =
      put_items-Appends obj _
      ∙ append_assoc (os ++ tails.put_string item.name) (tails.put_float item.rank)
          (items_bytes obj)
      ∙ append_assoc os (tails.put_string item.name) (tails.put_float item.rank ++ items_bytes obj)

  -- A round of the loop.
  get_items_round :
      (n : ℕ) (got : List (NodeItem F)) (is is2 is3 name : Bytes) (rank : F)
      → tails.get_string is ≡ (name, is2)
      → tails.get_float is2 ≡ (rank, is3)
      → get_items tails (suc n) got is
        ≡ get_items tails n (got ++ record { name = name; rank = rank } ∷ []) is3
  unfolding get_items
  get_items_round n got is is2 is3 name rank e f = rw (e, f, get_items) refl

  get_items_lem :
      (obj got : List (NodeItem F)) (rest : Bytes)
      → All (λ item. NoNul item.name) obj
      → get_items tails (length obj) got (items_bytes obj ++ rest) ≡ (got ++ obj, rest)
  unfolding items_bytes
  get_items_lem [] got rest h = unfold get_items in ap (λ x. (x, rest)) (sym (append-nil got))
  get_items_lem (item ∷ obj) got rest h =
      get_items_round (length obj) got _ _ (items_bytes obj ++ rest) item.name item.rank string
        float
      ∙ get_items_lem obj (got ++ item ∷ []) rest h.1
      ∙ ap (λ x. (x, rest)) (append_assoc got (item ∷ []) obj)
    where
      string :
          tails.get_string
            ((tails.put_string item.name ++ (tails.put_float item.rank ++ items_bytes obj)) ++ rest)
          ≡ (item.name, (tails.put_float item.rank ++ items_bytes obj) ++ rest)
      string =
          ap tails.get_string (
            append_assoc (tails.put_string item.name) (tails.put_float item.rank ++ items_bytes obj)
              rest)
          ∙ laws.string item.name ((tails.put_float item.rank ++ items_bytes obj) ++ rest) h.0

      float :
          tails.get_float ((tails.put_float item.rank ++ items_bytes obj) ++ rest)
          ≡ (item.rank, items_bytes obj ++ rest)
      float =
          ap tails.get_float (append_assoc (tails.put_float item.rank) (items_bytes obj) rest)
          ∙ laws.float item.rank (items_bytes obj ++ rest)

  -- If there are fewer than 2 ^ 32 items and their names have no NUL: what `operator<<` appends to a
  -- tail, `operator>>` reads as the same items in the same order, and it leaves what stands behind.
  pub get_array-put_array :
      (obj : List (NodeItem F)) (os rest : Bytes)
      → length obj < 2 ^ 32
      → All (λ item. NoNul item.name) obj
      → (bytes : Bytes) × (put_array tails obj os ≡ os ++ bytes)
        × (get_array tails (bytes ++ rest) ≡ (obj, rest))
  unfolding put_array get_array
  get_array-put_array obj os rest lt h = (
    tails.put_uint32 (length obj % 2 ^ 32) ++ items_bytes obj,
    put_items-Appends obj _ ∙ append_assoc os _ _,
    rw
        (
          append_assoc (tails.put_uint32 (length obj % 2 ^ 32)) (items_bytes obj) rest,
          small,
          laws.uint32 (length obj) (items_bytes obj ++ rest) lt,
        )
        (get_items_lem obj [] rest h),
  )
    where
      small : length obj % 2 ^ 32 ≡ length obj
      small = omega arith
