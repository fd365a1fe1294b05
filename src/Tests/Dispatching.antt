-- ===== src/Tests/Dispatching.antt =====
-- The theorem on the queues of the threads at a concrete state.
use prefix_match_server.Prelude.{
  ℕ, ◌==◌, ◌≡◌, ◌≢◌, if◌then◌else◌, refl, none, some, List, [], ◌∷◌, Bool-cases, false, inl, inr,
  arith,
}
use prefix_match_server.Queue.{Cq, NewBlock, cqi_new}
use prefix_match_server.Queue.Fifo.{Holds, Fresh}
use prefix_match_server.Queue.Dispatch.{Threads, dispatch_conn_new}
use prefix_match_server.Queue.Dispatch.Turns.{IsApart, AllHold, Hands, dispatch_conn_new-AllHold}
use prefix_match_server.Queue.Dispatch.Contents.{IsOutside}
use prefix_match_server.Queue.Dispatch.Process.{
  Wakes, thread_libevent_process, thread_libevent_process-Wakes,
}
use prefix_match_server.Tests.Queues.{heap, queue, queue-Holds, seven-Fresh}

-- Four threads, of which the first has items; the fourth has had its turn, and item 7 is free.
abbrev pub queues : ℕ → Cq
queues t = if t == 0 then queue else record { head = none; tail = none }

abbrev pub items : ℕ → List ℕ
items t = if t == 0 then 3 ∷ 5 ∷ [] else []

abbrev pub threads : Threads
threads = record { heap = heap; cqi_freelist = some 7; queues = queues; last_thread = some 3 }

pub items-AllHold : AllHold heap queues items
items-AllHold = record { holds = holds; apart = apart }
  where
    holds : (t : ℕ) → Holds heap (queues t) (items t)
    holds t = elim (Bool-cases (t == 0)) [
      | inl e ↦ rw e queue-Holds
      | inr e ↦ rw e (record { links = refl; ends = refl; distinct = tt })
    ]

    apart : (t u : ℕ) → t ≢ u → IsApart (items t) (items u)
    apart t u ne = elim (Bool-cases (t == 0)) [
      | inl e ↦ let g : (u == 0) ≡ false = ground (arith, ne) in rw (e, g) (tt, (tt, tt))
      | inr e ↦ rw e tt
    ]

pub seven-free : (t : ℕ) → Fresh 7 (items t)
seven-free t = elim (Bool-cases (t == 0)) [ inl e ↦ rw e seven-Fresh | inr e ↦ rw e tt ]

-- What a free list that is empty would get: 64 items from 100 on.
abbrev pub fresh : NewBlock
fresh = record { block = some 100; found = none }

pub items-IsOutside : (t : ℕ) → IsOutside (some 100) (items t)
items-IsOutside t = elim (Bool-cases (t == 0)) [
  | inl e ↦ rw e (λ i le lt. (λ q. omega arith, (λ q. omega arith, tt)))
  | inr e ↦ rw e (λ i le lt. tt)
]

dispatch_conn_new-AllHold_example :
    (u : Threads) × (dispatch_conn_new fresh 4 (heap 9) threads ≡ some u)
    × Hands 4 (heap 9) threads items 7 u
dispatch_conn_new-AllHold_example =
    dispatch_conn_new-AllHold fresh 4 (heap 9) threads items 7 heap none (omega arith)
      (unfold cqi_new in refl) items-AllHold seven-free items-IsOutside

thread_libevent_process-Wakes_example :
    Wakes false 0 threads items (3 ∷ 5 ∷ []) (thread_libevent_process false 99 0 threads)
thread_libevent_process-Wakes_example =
    thread_libevent_process-Wakes false 0 threads items items-AllHold
