-- ===== src/Queue/Fifo.antt =====
-- The connection queue as a list of items.
use prefix_match_server.Prelude.{
  ℕ, ◌==◌, true, false, none, some, List, [], ◌∷◌, ◌++◌, ◌≡◌, ◌≢◌, refl, sym, ap, ◌∙◌, arith, subst,
}
use prefix_match_server.Queue.{Pointer, Heap, set_next, Cq, behind, cq_pop, link, cq_push}

-- The items from a pointer on, by their `next`.
abbrev pub Links : Heap → Pointer → List ℕ → Type 0
Links h p [] = p ≡ none
Links h p (x ∷ xs) = (p ≡ some x) × Links h (h x).next xs

-- An item that is not in the list.
abbrev pub Fresh : ℕ → List ℕ → Type 0
Fresh x [] = Unit {0}
Fresh x (y ∷ ys) = (x ≢ y) × Fresh x ys

abbrev pub Distinct : List ℕ → Type 0
Distinct [] = Unit {0}
Distinct (x ∷ xs) = Fresh x xs × Distinct xs

abbrev pub last : List ℕ → Pointer
last [] = none
last (x ∷ []) = some x
last (x ∷ y ∷ xs) = last (y ∷ xs)

-- The queue holds these items in this order.
pub record Holds (h : Heap) (cq : Cq) (xs : List ℕ) : Type 0 where
  pub links : Links h cq.head xs
  pub ends : cq.tail ≡ last xs
  pub distinct : Distinct xs

pub next-other :
    (h : Heap) (a : ℕ) (p : Pointer) (b : ℕ) → a ≢ b → (set_next h a p b).next ≡ (h b).next
unfolding set_next
next-other h a p b ne = let e : (b == a) ≡ false = ground arith in rw e refl

pub next-same : (h : Heap) (a : ℕ) (p : Pointer) → (set_next h a p a).next ≡ p
unfolding set_next
next-same h a p = let e : (a == a) ≡ true = ground arith in rw e refl

-- Writing elsewhere keeps a chain.
pub Links-other :
    (h : Heap) (a : ℕ) (q p : Pointer) (xs : List ℕ)
    → Fresh a xs
    → Links h p xs
    → Links (set_next h a q) p xs
Links-other h a q p [] f l = l
Links-other h a q p (x ∷ xs) (ne, f) (e, l) = (
  e,
  subst (λ r. Links (set_next h a q) r xs) (sym (next-other h a q x ne))
      (Links-other h a q (h x).next xs f l),
)

Fresh-last : (x y : ℕ) (ys : List ℕ) (l : ℕ) → Fresh x (y ∷ ys) → last (y ∷ ys) ≡ some l → x ≢ l
Fresh-last x y [] l (ne, f) e = λ xl. ne (let yl : y ≡ l = cc in xl ∙ sym yl)
Fresh-last x y (z ∷ ys) l (ne, f) e = Fresh-last x z ys l f e

-- A chain grows behind its last item.
Links-append :
    (h : Heap) (item : ℕ) (p : Pointer) (x : ℕ) (xs : List ℕ) (l : ℕ)
    → Links h p (x ∷ xs)
    → Distinct (x ∷ xs)
    → last (x ∷ xs) ≡ some l
    → (h item).next ≡ none
    → Fresh item (x ∷ xs)
    → Links (set_next h l (some item)) p (x ∷ xs ++ item ∷ [])
Links-append h item p x [] l (e, n) d la z (ne, f) =
    let xl : x ≡ l = cc in
    (
      e,
      (
        ap (λ a. (set_next h l (some item) a).next) xl ∙ next-same h l (some item),
        next-other h l (some item) item (λ li. ne (sym li ∙ sym xl)) ∙ z,
      ),
    )
Links-append h item p x (y ∷ ys) l (e, n) (fx, d) la z (ne, f) = (
  e,
  subst (λ r. Links (set_next h l (some item)) r (y ∷ ys ++ item ∷ []))
      (sym (next-other h l (some item) x (λ lx. Fresh-last x y ys l fx la (sym lx))))
      (Links-append h item (h x).next y ys l n d la z f),
)

last-append : (xs : List ℕ) (x : ℕ) → last (xs ++ x ∷ []) ≡ some x
last-append [] x = refl
last-append (y ∷ []) x = refl
last-append (y ∷ z ∷ ys) x = last-append (z ∷ ys) x

pub Fresh-append : (x : ℕ) (xs : List ℕ) (y : ℕ) → Fresh x xs → x ≢ y → Fresh x (xs ++ y ∷ [])
Fresh-append x [] y f ne = (ne, tt)
Fresh-append x (z ∷ zs) y (nz, f) ne = (nz, Fresh-append x zs y f ne)

Distinct-append : (xs : List ℕ) (y : ℕ) → Distinct xs → Fresh y xs → Distinct (xs ++ y ∷ [])
Distinct-append [] y d f = (tt, tt)
Distinct-append (x ∷ xs) y (fx, d) (ne, f) =
    (Fresh-append x xs y fx (λ e. ne (sym e)), Distinct-append xs y d f)

pub last-cons : (x : ℕ) (xs : List ℕ) → (l : ℕ) × (last (x ∷ xs) ≡ some l)
last-cons x [] = (x, refl)
last-cons x (y ∷ xs) = last-cons y xs

-- For a queue that holds the items `xs` and an item that is not one of them: after `cq_push` of
-- that item, the queue holds `xs` with the item behind.
pub cq_push-Holds :
    (h : Heap) (cq : Cq) (xs : List ℕ) (item : ℕ)
    → Holds h cq xs
    → Fresh item xs
    → Holds (cq_push h cq item).0 (cq_push h cq item).1 (xs ++ item ∷ [])
unfolding cq_push link
cq_push-Holds h cq [] item q f =
    rw q.ends record { links = (refl, next-same h item none); ends = refl; distinct = (tt, tt) }
cq_push-Holds h cq (x ∷ xs) item q f =
    let (l, e) = last-cons x xs in
    rw (q.ends ∙ e) record {
      links =
          Links-append (set_next h item none) item cq.head x xs l
            (Links-other h item none cq.head (x ∷ xs) f q.links) q.distinct e
            (next-same h item none) f;
      ends = sym (last-append (x ∷ xs) item);
      distinct = Distinct-append (x ∷ xs) item q.distinct f;
    }

-- What `cq_pop` returns, and what the queue holds then.
abbrev pub Pops : Heap → List ℕ → Pointer × Cq → Type 0
Pops h [] (p, cq) = (p ≡ none) × Holds h cq []
Pops h (x ∷ xs) (p, cq) = (p ≡ some x) × Holds h cq xs

behind-Holds :
    (h : Heap) (cq : Cq) (x : ℕ) (xs : List ℕ)
    → Holds h cq (x ∷ xs)
    → Holds h (behind cq (h x).next) xs
unfolding behind
behind-Holds h cq x [] q = rw (q.links.1) record { links = refl; ends = refl; distinct = tt }
behind-Holds h cq x (y ∷ ys) q =
    rw (q.links.1.0) record { links = (refl, q.links.1.1); ends = q.ends; distinct = q.distinct.1 }

-- For a queue that holds some items, `cq_pop` returns the first of them, and the queue holds the
-- others in their order; it returns NULL exactly for the queue that holds none, which it leaves so.
pub cq_pop-Holds : (h : Heap) (cq : Cq) (xs : List ℕ) → Holds h cq xs → Pops h xs (cq_pop h cq)
unfolding cq_pop
cq_pop-Holds h cq [] q = rw q.links (refl, record { links = refl; ends = q.ends; distinct = tt })
cq_pop-Holds h cq (x ∷ xs) q = rw (q.links.0) (refl, behind-Holds h cq x xs q)
