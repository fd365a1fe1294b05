-- ===== src/Queue/Dispatch.antt =====
-- `dispatch_conn_new` of thread.cpp, which hands a connection to the queue of a thread.
pub mod Contents
pub mod Process
pub mod Turns
use prefix_match_server.Prelude.{
  ℕ, zero, suc, ◌+◌, ◌%◌, ◌==◌, if◌then◌else◌, Bool, Option, none, some, List, [], ◌∷◌,
}
use prefix_match_server.Conn.State.{ConnStates}
use prefix_match_server.Queue.{Pointer, CqItem, Heap, Cq, NewBlock, cq_push, cqi_new}

-- The items in memory, `cqi_freelist`, the queue of each thread and `last_thread`, which is `none`
-- for -1.
pub record Threads : Type 0 where
  pub heap : Heap
  pub cqi_freelist : Pointer
  pub queues : ℕ → Cq
  pub last_thread : Option ℕ

-- `(last_thread + 1) % g_settings.num_threads`; `none` is a division by zero.
unfoldable pub turn_of : Option ℕ → ℕ → Option ℕ
turn_of last zero = none
turn_of none (suc n) = some (0 % suc n)
turn_of (some t) (suc n) = some ((t + 1) % suc n)

-- What the item is to say of the connection; its `next` is set by the queue.
unfoldable pub set_item : Heap → ℕ → CqItem → Heap
set_item h item says a = if a == item then record says { next = (h a).next } else h a

unfoldable pub put_queue : ℕ → Cq → (ℕ → Cq) → ℕ → Cq
put_queue tid cq queues t = if t == tid then cq else queues t

-- From the item that `cqi_new` returns and the turn on; `none` is a write through NULL or a division
-- by zero.
unfoldable pub hand_over : Pointer × Heap × Pointer → CqItem → Option ℕ → Threads → Option Threads
unfolding cq_push set_item put_queue
hand_over (none, h, freelist) says turn s = none
hand_over (some item, h, freelist) says none s = none
hand_over (some item, h, freelist) says (some tid) s =
    let (heap, cq) = cq_push (set_item h item says) (s.queues tid) item in
    some (record {
      heap = heap;
      cqi_freelist = freelist;
      queues = put_queue tid cq s.queues;
      last_thread = some tid;
    })

unfoldable pub dispatch_conn_new : NewBlock → ℕ → CqItem → Threads → Option Threads
unfolding cqi_new turn_of hand_over
dispatch_conn_new b num_threads says s =
    hand_over (cqi_new b s.heap s.cqi_freelist) says (turn_of s.last_thread num_threads) s
