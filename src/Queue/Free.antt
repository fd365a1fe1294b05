-- ===== src/Queue/Free.antt =====
-- The free list of queue items, and the blocks that are added to it.
use prefix_match_server.Prelude.{
  ℕ, zero, suc, ◌+◌, ◌==◌, ◌≤◌, ◌<◌, none, some, List, [], ◌∷◌, ◌≡◌, refl, sym, ap, ◌∙◌, arith,
  Bool-cases, subst, inl, inr,
}
use prefix_match_server.Queue.{Pointer, Heap, set_next, link_block, add_block, cqi_new, cqi_free}
use prefix_match_server.Queue.Fifo.{Links, Fresh, next-other, next-same, Links-other}

-- Addresses in a row.
abbrev pub row : ℕ → ℕ → List ℕ
row zero a = []
row (suc n) a = a ∷ row n (a + 1)

row-Links :
    (h : Heap) (n a : ℕ)
    → ((b : ℕ) → a ≤ b → b < a + n → (h b).next ≡ some (b + 1))
    → (h (a + n)).next ≡ none
    → Links h (some a) (row (suc n) a)
row-Links h zero a f e = (refl, (let z : a ≡ a + 0 = omega arith in ap (λ b. (h b).next) z ∙ e))
row-Links h (suc n) a f e = (
  refl,
  subst (λ r. Links h r (row (suc n) (a + 1))) (sym (f a (omega arith) (omega arith)))
      (row-Links h n (a + 1) (λ b le lt. f b (omega arith) (omega arith))
        (let z : a + 1 + n ≡ a + suc n = omega arith in ap (λ b. (h b).next) z ∙ e)),
)

link_block-before : (n a : ℕ) (h : Heap) (b : ℕ) → b < a → (link_block n a h b).next ≡ (h b).next
unfolding link_block
link_block-before zero a h b lt = refl
link_block-before (suc n) a h b lt =
    link_block-before n (a + 1) (set_next h a (some (a + 1))) b (omega arith)
    ∙ next-other h a (some (a + 1)) b (λ e. omega arith)

link_block-next :
    (n a : ℕ) (h : Heap) (b : ℕ) → a ≤ b → b < a + n → (link_block n a h b).next ≡ some (b + 1)
unfolding link_block
link_block-next zero a h b le lt = absurd (omega arith)
link_block-next (suc n) a h b le lt = elim (Bool-cases (a == b)) [
  | inl e ↦
      let ab : a ≡ b = ground arith in
      ap (λ x. (link_block n (a + 1) (set_next h a (some (a + 1))) x).next) (sym ab)
      ∙ link_block-before n (a + 1) (set_next h a (some (a + 1))) a (omega arith)
      ∙ next-same h a (some (a + 1))
      ∙ ap (λ x. some (x + 1)) ab
  | inr e ↦ link_block-next n (a + 1) (set_next h a (some (a + 1))) b (ground arith) (omega arith)
]

-- A block of items behind the first one.
block-Links :
    (n a : ℕ) (h : Heap) → Links (set_next (link_block n a h) (a + n) none) (some a) (row (suc n) a)
block-Links n a h =
    row-Links (set_next (link_block n a h) (a + n) none) n a
      (λ b le lt.
        next-other (link_block n a h) (a + n) none b (λ e. omega arith)
        ∙ link_block-next n a h b le lt)
      (next-same (link_block n a h) (a + n) none)

-- What `cqi_new` returns for the free items and the answer of `malloc`, and what is free then.
abbrev pub Takes : List ℕ → Pointer → Pointer × Heap × Pointer → Type 0
Takes (x ∷ xs) block (p, h, freelist) = (p ≡ some x) × Links h freelist xs
Takes [] none (p, h, freelist) = (p ≡ none) × Links h freelist []
Takes [] (some a) (p, h, freelist) = (p ≡ some a) × Links h freelist (row 63 (a + 1))

-- For a free list of some items, to which no other thread adds in the meantime: `cqi_new` returns the
-- first of them and leaves the others; if there is none, it returns the first item of a block of 64
-- that `malloc` returns, and the other 63 are free, in the order of their addresses; and it returns
-- NULL if `malloc` does.
pub cqi_new-Takes :
    (block : Pointer) (h : Heap) (freelist : Pointer) (xs : List ℕ)
    → Links h freelist xs
    → Takes xs block (cqi_new (record { block = block; found = none }) h freelist)
unfolding cqi_new add_block
cqi_new-Takes block h freelist (x ∷ xs) l = rw (l.0) (refl, l.1)
cqi_new-Takes none h freelist [] l = rw l (refl, refl)
cqi_new-Takes (some a) h freelist [] l = rw l (
  refl,
  (let z : a + 1 + 62 ≡ a + 63 = omega arith in
      subst (λ b. Links (set_next (link_block 62 (a + 1) h) b none) (some (a + 1)) (row 63 (a + 1)))
        z (block-Links 62 (a + 1) h)),
)

-- For a free list of some items and an item that is not one of them: after `cqi_free` of that item,
-- the free list has it in front of them.
pub cqi_free-Links :
    (h : Heap) (freelist : Pointer) (xs : List ℕ) (item : ℕ)
    → Links h freelist xs
    → Fresh item xs
    → Links (cqi_free h freelist item).0 (cqi_free h freelist item).1 (item ∷ xs)
unfolding cqi_free
cqi_free-Links h freelist xs item l f = (
  refl,
  subst (λ r. Links (set_next h item freelist) r xs) (sym (next-same h item freelist))
      (Links-other h item freelist freelist xs f l),
)
