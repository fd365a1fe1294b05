-- ===== src/Letters/Product/Choices.antt =====
-- The words of `get_all_results` and the choices of one item from each list.
use prefix_match_server.Prelude.{
  ℕ, ◌*◌, ◌≡◌, ◌↔◌, inl, inr, refl, sym, ap, ◌∙◌, List, [], ◌∷◌, ◌++◌, append-nil, append_assoc,
  arith, Bytes, length, All, length-append, subst, Elem, Elem-append_left, Elem-append_right,
  Elem-append,
}
use prefix_match_server.Letters.Product.{get_all_results}
use prefix_match_server.Letters.Product.Loops.{
  extend, extend_by, extend_all, grow_all_lem, length-extend, Proper,
}

-- `w` puts together one item of each list, in order.
abbrev pub Chooses : List (List Bytes) → Bytes → Type 0
Chooses [] w = w ≡ []
Chooses (items ∷ all) w =
    (item : Bytes) × (rest : Bytes) × Elem item items × Chooses all rest × (w ≡ item ++ rest)

Elem-extend :
    (item w : Bytes) (out : List Bytes)
    → Elem w (extend item out)
    → (o : Bytes) × Elem o out × (w ≡ o ++ item)
unfolding extend
Elem-extend item w [] h = elim h [ ]
Elem-extend item w (o ∷ out) (inl e) = (o, inl refl, e)
Elem-extend item w (o ∷ out) (inr h) = let r = Elem-extend item w out h in (r.0, inr r.1, r.2)

extend-Elem : (item o : Bytes) (out : List Bytes) → Elem o out → Elem (o ++ item) (extend item out)
unfolding extend
extend-Elem item o [] h = elim h [ ]
extend-Elem item o (p ∷ out) (inl e) = inl (ap (λ x. x ++ item) e)
extend-Elem item o (p ∷ out) (inr h) = inr (extend-Elem item o out h)

abbrev Extends : List Bytes → List Bytes → Bytes → Type 0
Extends items out w = (o : Bytes) × (item : Bytes) × Elem o out × Elem item items × (w ≡ o ++ item)

Elem-extend_by :
    (items out : List Bytes) (w : Bytes) → Elem w (extend_by items out) → Extends items out w
unfolding extend_by
Elem-extend_by [] out w h = elim h [ ]
Elem-extend_by (item ∷ items) out w h =
    elim (Elem-append w (extend item out) (extend_by items out) h) [
      | inl l ↦ let r = Elem-extend item w out l in (r.0, item, r.1, inl refl, r.2)
      | inr m ↦ let r = Elem-extend_by items out w m in (r.0, r.1, r.2, inr r.3, r.4)
    ]

extend_by-Elem :
    (items out : List Bytes) (o item : Bytes)
    → Elem o out
    → Elem item items
    → Elem (o ++ item) (extend_by items out)
unfolding extend_by
extend_by-Elem [] out o item h k = elim k [ ]
extend_by-Elem (i ∷ items) out o item h (inl e) =
    Elem-append_left _ (extend i out) _ (rw e (extend-Elem i o out h))
extend_by-Elem (i ∷ items) out o item h (inr k) =
    Elem-append_right _ (extend i out) _ (extend_by-Elem items out o item h k)

abbrev Continues : List (List Bytes) → List Bytes → Bytes → Type 0
Continues all out w = (o : Bytes) × (rest : Bytes) × Elem o out × Chooses all rest × (w ≡ o ++ rest)

Elem-extend_all :
    (all : List (List Bytes)) (out : List Bytes) (w : Bytes)
    → Elem w (extend_all out all)
    → Continues all out w
unfolding extend_all
Elem-extend_all [] out w h = (w, [], h, refl, sym (append-nil w))
Elem-extend_all (items ∷ all) out w h =
    let r = Elem-extend_all all (extend_by items out) w h in
    let s = Elem-extend_by items out r.0 r.2 in
    (
      s.0,
      s.1 ++ r.1,
      s.2,
      (s.1, r.1, s.3, r.3, refl),
      r.4 ∙ ap (λ x. x ++ r.1) s.4 ∙ append_assoc s.0 s.1 r.1,
    )

extend_all-Elem :
    (all : List (List Bytes)) (out : List Bytes) (w : Bytes)
    → Continues all out w
    → Elem w (extend_all out all)
unfolding extend_all
extend_all-Elem [] out w (o, rest, h, c, e) =
    subst (λ x. Elem x out) (sym (e ∙ ap (◌++◌ o) c ∙ append-nil o)) h
extend_all-Elem (items ∷ all) out w (o, rest, h, (item, tail, k, c, f), e) =
    extend_all-Elem all (extend_by items out) w (
      o ++ item,
      tail,
      extend_by-Elem items out o item h k,
      c,
      e ∙ ap (◌++◌ o) f ∙ sym (append_assoc o item tail),
    )

-- For at least one list, none of them empty and each of a length below 2 ^ 64, the in-place loops of
-- `get_all_results` produce a word exactly if it puts together one item of each list in order.
pub get_all_results-Chooses :
    (first : List Bytes) (all : List (List Bytes)) (out : List Bytes) (w : Bytes)
    → All Proper all
    → Elem w (get_all_results (first ∷ all) out) ↔ Chooses (first ∷ all) w
unfolding get_all_results
get_all_results-Chooses first all out w h = (
  λ m.
      let r = Elem-extend_all all first w (subst (Elem w) (grow_all_lem first all h) m) in
      (r.0, r.1, r.2, r.3, r.4),
  λ c. subst (Elem w) (sym (grow_all_lem first all h)) (extend_all-Elem all first w c),
)

-- The number of words is the product of the numbers of items.
unfoldable pub product : List (List Bytes) → ℕ
product [] = 1
product (items ∷ all) = length items * product all

length-extend_by :
    (items out : List Bytes) → length (extend_by items out) ≡ length items * length out
unfolding extend_by
length-extend_by [] out = omega arith
length-extend_by (item ∷ items) out = omega (
  arith,
  length-append (extend item out) (extend_by items out),
  length-extend item out,
  length-extend_by items out,
)

length-extend_all :
    (all : List (List Bytes)) (out : List Bytes)
    → length (extend_all out all) ≡ length out * product all
unfolding extend_all product
length-extend_all [] out = omega arith
length-extend_all (items ∷ all) out =
    length-extend_all all (extend_by items out)
    ∙ ap (λ n. n * product all) (length-extend_by items out)
    ∙ grind arith

pub length-get_all_results :
    (first : List Bytes) (all : List (List Bytes)) (out : List Bytes)
    → All Proper all
    → length (get_all_results (first ∷ all) out) ≡ product (first ∷ all)
unfolding get_all_results product
length-get_all_results first all out h =
    ap length (grow_all_lem first all h) ∙ length-extend_all all first
