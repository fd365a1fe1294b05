-- ===== src/Letters/Product/Loops.antt =====
-- The in-place loops of `get_all_results` against the growth of a list of words.
use mathlib.Core.Path.{ap₂}
use prefix_match_server.Prelude.{
  ℕ, zero, suc, ◌+◌, ◌*◌, ◌<◌, ◌^◌, ◌≡◌, ◌≢◌, refl, sym, ap, ◌∙◌, List, [], ◌∷◌, ◌++◌, append-nil,
  append_assoc, arith, Bytes, length, get_or, set, All, length-append, set-append, get_or-append,
}
use prefix_match_server.Letters.Product.{
  push_copies, copy_rounds, append_at, append_rounds, copies_needed, grow, grow_all,
}

-- Each word with the item behind it.
unfoldable pub extend : Bytes → List Bytes → List Bytes
extend item [] = []
extend item (w ∷ out) = (w ++ item) ∷ extend item out

-- The words with one of the items behind each, item by item.
unfoldable pub extend_by : List Bytes → List Bytes → List Bytes
unfolding extend
extend_by [] out = []
extend_by (item ∷ items) out = extend item out ++ extend_by items out

-- As many copies in a row.
copies : ℕ → List Bytes → List Bytes
copies zero out = []
copies (suc n) out = out ++ copies n out

-- Reading on behind a prefix.
get_or-append_at :
    (pre : List Bytes) (w : Bytes) (post : List Bytes) (k : ℕ)
    → k ≡ length pre
    → get_or (pre ++ w ∷ post) k [] ≡ w
get_or-append_at pre w post k e = rw e (get_or-append pre w post [])

-- The copying loop reads the original words, which stay in front.
push_copies_lem :
    (done rest more : List Bytes)
    → push_copies (length rest) (length done) (done ++ (rest ++ more))
      ≡ done ++ (rest ++ (more ++ rest))
unfolding push_copies
push_copies_lem done [] more = simp append-nil
push_copies_lem done (w ∷ rest) more =
    ap₂ (push_copies (length rest)) next (
      ap (λ x. done ++ (w ∷ (rest ++ more)) ++ x ∷ []) (get_or-append done w (rest ++ more) [])
      ∙ simp append_assoc)
    ∙ push_copies_lem (done ++ w ∷ []) rest (more ++ w ∷ [])
    ∙ simp append_assoc
  where
    next : length done + 1 ≡ length (done ++ w ∷ [])
    next = omega (arith, length-append done (w ∷ []))

copy_rounds_lem :
    (n : ℕ) (out more : List Bytes)
    → copy_rounds n (length out) (out ++ more) ≡ out ++ (more ++ copies n out)
unfolding copy_rounds copies
copy_rounds_lem zero out more = simp append-nil
copy_rounds_lem (suc n) out more =
    ap (copy_rounds n (length out)) (push_copies_lem [] out more)
    ∙ copy_rounds_lem n out (more ++ out)
    ∙ simp append_assoc

append_at_lem :
    (pre block post : List Bytes) (item : Bytes) (k : ℕ)
    → k ≡ length pre
    → append_at (length block) k item (pre ++ (block ++ post)) ≡ pre ++ (extend item block ++ post)
unfolding append_at extend
append_at_lem pre [] post item k e = refl
append_at_lem pre (w ∷ block) post item k e =
    ap (append_at (length block) (k + 1) item) (
      ap₂ (λ i x. set (pre ++ w ∷ (block ++ post)) i (x ++ item)) e
        (get_or-append_at pre w (block ++ post) k e)
      ∙ set-append pre w (block ++ post) (w ++ item)
      ∙ sym (append_assoc pre ((w ++ item) ∷ []) (block ++ post)))
    ∙ append_at_lem (pre ++ (w ++ item) ∷ []) block post item (k + 1)
        (omega (arith, length-append pre ((w ++ item) ∷ [])))
    ∙ append_assoc pre ((w ++ item) ∷ []) _

pub length-extend : (item : Bytes) (out : List Bytes) → length (extend item out) ≡ length out
unfolding extend
length-extend item [] = refl
length-extend item (w ∷ out) = ap suc (length-extend item out)

append_rounds_lem :
    (items : List Bytes) (j : ℕ) (pre out : List Bytes)
    → length pre ≡ j * length out
    → append_rounds items j (length out) (pre ++ copies (length items) out)
      ≡ pre ++ extend_by items out
unfolding append_rounds copies extend_by
append_rounds_lem [] j pre out e = refl
append_rounds_lem (item ∷ items) j pre out e =
    ap (append_rounds items (j + 1) (length out)) (
      append_at_lem pre out (copies (length items) out) item (j * length out) (sym e)
      ∙ sym (append_assoc pre (extend item out) _))
    ∙ append_rounds_lem items (j + 1) (pre ++ extend item out) out
        (omega (arith, length-append pre (extend item out), length-extend item out, e))
    ∙ append_assoc pre (extend item out) _

-- A round of the outer loop, for a list that is not empty.
grow_lem :
    (out items : List Bytes)
    → items ≢ []
    → length items < 2 ^ 64
    → grow out items ≡ extend_by items out
unfolding grow copies
grow_lem out [] ne lt = absurd (ne refl)
grow_lem out (item ∷ items) ne lt =
    ap₂ (λ n o. append_rounds (item ∷ items) 0 (length out) (copy_rounds n (length out) o)) needed
      (sym (append-nil out))
    ∙ ap (append_rounds (item ∷ items) 0 (length out)) (copy_rounds_lem (length items) out [])
    ∙ append_rounds_lem (item ∷ items) 0 [] out (omega arith)
  where
    needed : copies_needed (item ∷ items) ≡ length items
    needed = unfold copies_needed in omega arith

-- No list is empty, and each has a length that fits a `size_t`.
abbrev pub Proper : List Bytes → Type 0
Proper items = (items ≢ []) × (length items < 2 ^ 64)

unfoldable pub extend_all : List Bytes → List (List Bytes) → List Bytes
extend_all out [] = out
extend_all out (items ∷ all) = extend_all (extend_by items out) all

pub grow_all_lem :
    (out : List Bytes) (all : List (List Bytes))
    → All Proper all
    → grow_all out all ≡ extend_all out all
unfolding grow_all extend_all
grow_all_lem out [] h = refl
grow_all_lem out (items ∷ all) h =
    ap (λ o. grow_all o all) (grow_lem out items h.0.0 h.0.1)
    ∙ grow_all_lem (extend_by items out) all h.1
