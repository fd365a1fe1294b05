-- ===== src/Queue/Dispatch/Contents.antt =====
-- What the items of the queues of thread.cpp say, whatever their links.
use prefix_match_server.Prelude.{
  ℕ, true, zero, suc, ◌+◌, ◌==◌, ◌≤◌, ◌<◌, ◌≡◌, ◌≢◌, refl, ◌∙◌, none, some, List, Bool-cases, inl,
  inr, arith,
}
use prefix_match_server.Queue.{
  Pointer, CqItem, Heap, Cq, NewBlock, set_next, link, cq_push, link_block, add_block, cqi_new,
}
use prefix_match_server.Queue.Fifo.{Links, Fresh, Holds, Links-other}
use prefix_match_server.Queue.Dispatch.{set_item}

-- An item without its link.
unfoldable pub told : CqItem → CqItem
told i = record i { next = none }

told-set_next :
    (h : Heap) (item : ℕ) (p : Pointer) (a : ℕ) → told (set_next h item p a) ≡ told (h a)
unfolding told set_next
told-set_next h item p a = elim (Bool-cases (a == item)) [ inl e ↦ rw e refl | inr e ↦ rw e refl ]

pub told-cq_push : (h : Heap) (cq : Cq) (item a : ℕ) → told ((cq_push h cq item).0 a) ≡ told (h a)
unfolding cq_push
told-cq_push h cq item a = by_tail cq.tail
  where
    by_tail : (p : Pointer) → told ((link (set_next h item none) cq item p).0 a) ≡ told (h a)
    by_tail none = unfold link in told-set_next h item none a
    by_tail (some last) =
        unfold link in
        told-set_next (set_next h item none) last (some item) a ∙ told-set_next h item none a

told-link_block : (n i : ℕ) (h : Heap) (a : ℕ) → told (link_block n i h a) ≡ told (h a)
unfolding link_block
told-link_block zero i h a = refl
told-link_block (suc n) i h a =
    told-link_block n (i + 1) (set_next h i (some (i + 1))) a ∙ told-set_next h i (some (i + 1)) a

told-add_block :
    (block found : Pointer) (h : Heap) (a : ℕ) → told ((add_block block found h).1 a) ≡ told (h a)
unfolding add_block
told-add_block none found h a = refl
told-add_block (some item) found h a =
    told-set_next (link_block 62 (item + 1) h) (item + 63) found a
    ∙ told-link_block 62 (item + 1) h a

pub told-cqi_new :
    (b : NewBlock) (h : Heap) (freelist : Pointer) (a : ℕ)
    → told ((cqi_new b h freelist).1 a) ≡ told (h a)
unfolding cqi_new
told-cqi_new b h none a = told-add_block b.block b.found h a
told-cqi_new b h (some item) a = refl

pub told-set_item :
    (h : Heap) (item : ℕ) (says : CqItem) → told (set_item h item says item) ≡ told says
unfolding told set_item
told-set_item h item says = let same : (item == item) ≡ true = ground arith in rw same refl

pub told-set_other :
    (h : Heap) (item : ℕ) (says : CqItem) (a : ℕ)
    → a ≢ item
    → told (set_item h item says a) ≡ told (h a)
unfolding told set_item
told-set_other h item says a ne = elim (Bool-cases (a == item)) [
  | inl e ↦ absurd (ne (ground arith))
  | inr e ↦ rw e refl
]

-- Memory that `malloc` returns is of no item of a list.
abbrev pub IsOutside : Pointer → List ℕ → Type 0
IsOutside none xs = Unit {0}
IsOutside (some block) xs = (i : ℕ) → block ≤ i → i < block + 64 → Fresh i xs

Links-link_block :
    (n i : ℕ) (h : Heap) (p : Pointer) (xs : List ℕ)
    → ((j : ℕ) → i ≤ j → j < i + n → Fresh j xs)
    → Links h p xs
    → Links (link_block n i h) p xs
unfolding link_block
Links-link_block zero i h p xs f l = l
Links-link_block (suc n) i h p xs f l =
    Links-link_block n (i + 1) (set_next h i (some (i + 1))) p xs
      (λ j le lt. f j (omega arith) (omega arith))
      (Links-other h i (some (i + 1)) p xs (f i (omega arith) (omega arith)) l)

Links-add_block :
    (block found : Pointer) (h : Heap) (p : Pointer) (xs : List ℕ)
    → IsOutside block xs
    → Links h p xs
    → Links (add_block block found h).1 p xs
unfolding add_block
Links-add_block none found h p xs f l = l
Links-add_block (some item) found h p xs f l =
    Links-other (link_block 62 (item + 1) h) (item + 63) found p xs
      (f (item + 63) (omega arith) (omega arith))
      (Links-link_block 62 (item + 1) h p xs (λ j le lt. f j (omega arith) (omega arith)) l)

-- A queue is as it was after `cqi_new`.
pub Holds-cqi_new :
    (b : NewBlock) (h : Heap) (freelist : Pointer) (cq : Cq) (xs : List ℕ)
    → IsOutside b.block xs
    → Holds h cq xs
    → Holds (cqi_new b h freelist).1 cq xs
unfolding cqi_new
Holds-cqi_new b h (some item) cq xs f q = q
Holds-cqi_new b h none cq xs f q = record {
  links = Links-add_block b.block b.found h cq.head xs f q.links;
  ends = q.ends;
  distinct = q.distinct;
}
