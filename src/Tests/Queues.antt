-- ===== src/Tests/Queues.antt =====
-- The theorems on the connection queue at a queue of two items.
use prefix_match_server.Prelude.{◌==◌, if◌then◌else◌, none, some, [], ◌∷◌, refl, arith}
use prefix_match_server.Conn.State.{conn_new_cmd}
use prefix_match_server.Queue.{Heap, Cq}
use prefix_match_server.Queue.Fifo.{Holds, Fresh}

-- Item 3 is in front of item 5.
abbrev pub heap : Heap
heap a = record {
  sfd = a;
  init_state = conn_new_cmd;
  event_flags = 0x12;
  read_buffer_size = 2048;
  next = if a == 3 then some 5 else none;
}

abbrev pub queue : Cq
queue = record { head = some 3; tail = some 5 }

pub queue-Holds : Holds heap queue (3 ∷ 5 ∷ [])
queue-Holds = record {
  links = (refl, (refl, refl));
  ends = refl;
  distinct = ((λ e. omega arith, tt), (tt, tt));
}

pub seven-Fresh : Fresh 7 (3 ∷ 5 ∷ [])
seven-Fresh = (λ e. omega arith, (λ e. omega arith, tt))
