-- ===== src/Queue.antt =====
-- The connection queue of thread.cpp, and the free list of its items.
pub mod Dispatch
pub mod Fifo
pub mod Free
use prefix_match_server.Prelude.{
  ℕ, zero, suc, ◌+◌, ◌==◌, if◌then◌else◌, Bool, Option, none, some, List, [], ◌∷◌,
}
use prefix_match_server.Conn.State.{ConnStates}

-- An address of an item; `none` stands for NULL.
abbrev pub Pointer : Type 0
Pointer = Option ℕ

-- `CQ_ITEM`; `transport` is not kept, since every connection is a TCP one.
pub record CqItem : Type 0 where
  pub sfd : ℕ
  pub init_state : ConnStates
  pub event_flags : ℕ
  pub read_buffer_size : ℕ
  pub next : Pointer

-- The items in memory, by their addresses.
abbrev pub Heap : Type 0
Heap = ℕ → CqItem

-- `item->next = p`
unfoldable pub set_next : Heap → ℕ → Pointer → Heap
set_next h item p a = if a == item then record (h a) { next = p } else h a

-- `CQ`
pub record Cq : Type 0 where
  pub head : Pointer
  pub tail : Pointer

unfoldable pub cq_init : Cq
cq_init = record { head = none; tail = none }

-- The queue behind its first item, whose `next` is given.
unfoldable pub behind : Cq → Pointer → Cq
behind cq none = record { head = none; tail = none }
behind cq (some item) = record { head = some item; tail = cq.tail }

unfoldable pub cq_pop : Heap → Cq → Pointer × Cq
unfolding behind
cq_pop h cq = elim cq.head [ none ↦ (none, cq) | some item ↦ (some item, behind cq (h item).next) ]

-- The item behind the last one, or in front if there is none.
unfoldable pub link : Heap → Cq → ℕ → Pointer → Heap × Cq
link h cq item none = (h, record { head = some item; tail = some item })
link h cq item (some last) =
    (set_next h last (some item), record { head = cq.head; tail = some item })

unfoldable pub cq_push : Heap → Cq → ℕ → Heap × Cq
unfolding set_next link
cq_push h cq item = link (set_next h item none) cq item cq.tail

-- `ITEMS_PER_ALLOC`
abbrev pub items_per_alloc : ℕ
items_per_alloc = 64

-- The loop that links a block of items: `n` rounds, the next of which links `item[i - 1]`, for the
-- address of that.
unfoldable pub link_block : ℕ → ℕ → Heap → Heap
unfolding set_next
link_block zero a h = h
link_block (suc n) a h = link_block n (a + 1) (set_next h a (some (a + 1)))

-- What `cqi_new` meets if the free list is empty: what `malloc` returns, the address of as many items
-- as it is asked for, and the free list when its lock is taken again, to which other threads may have
-- added since.
pub record NewBlock : Type 0 where
  pub block : Pointer
  pub found : Pointer

-- `if (NULL == item)`: the new items but the first one go in front of the free list.
unfoldable pub add_block : Pointer → Pointer → Heap → Pointer × Heap × Pointer
unfolding set_next link_block
add_block none found h = (none, h, found)
add_block (some item) found h =
    (some item, set_next (link_block 62 (item + 1) h) (item + 63) found, some (item + 1))

-- `cqi_new`: the item, the items in memory and the free list. The items given are those in memory when
-- the lock is taken for the last time, and the free list is that of the first time.
unfoldable pub cqi_new : NewBlock → Heap → Pointer → Pointer × Heap × Pointer
unfolding add_block
cqi_new b h (some item) = (some item, h, (h item).next)
cqi_new b h none = add_block b.block b.found h

unfoldable pub cqi_free : Heap → Pointer → ℕ → Heap × Pointer
unfolding set_next
cqi_free h freelist item = (set_next h item freelist, some item)
