-- ===== src/Conn/Machine/Sound/Turns.antt =====
-- Every turn of `drive_machine` keeps a connection sound.
use prefix_match_server.Prelude.{ℕ, zero, suc, ◌≡◌, refl, inr, Option, none, some, List, Bytes}
use prefix_match_server.Conn.State.{
  ConnStates, conn_listening, conn_new_cmd, conn_waiting, conn_read, conn_parse_cmd, conn_write,
  conn_nread, conn_swallow, conn_closing, conn_mwrite, conn_max_state, Conn, World, ev_read_persist,
}
use prefix_match_server.Conn.Machine.{
  Turn, next_turn, stopped, closed, stuck, overrun, turn_in, turn, drive_machine,
}
use prefix_match_server.Conn.Machine.Sound.{Sound, Keeps, Overlong, wait_for-Keeps}
use prefix_match_server.Conn.Machine.Sound.Input.{on_read-Keeps, on_parse_cmd-Keeps}
use prefix_match_server.Conn.Machine.Sound.Reading.{on_nread-Keeps, on_swallow-Keeps}
use prefix_match_server.Conn.Machine.Sound.Writing.{
  on_new_cmd-Keeps, on_mwrite-Keeps, on_write-Keeps,
}

turn_in-Keeps :
    (s : ConnStates) (get : Bytes → Option (List Bytes)) (c : Conn) (w : World) (n : ℕ)
    → c.state ≡ s
    → Sound c
    → Keeps (Overlong get c) (turn_in s get c w n)
unfolding turn_in
turn_in-Keeps conn_listening get c w n e h = h.client.0 e
turn_in-Keeps conn_max_state get c w n e h = h.client.1 e
turn_in-Keeps conn_waiting get c w n e h =
    wait_for-Keeps (Overlong get c) conn_read ev_read_persist c w n h.fits h.goes tt
turn_in-Keeps conn_read get c w n e h = on_read-Keeps (Overlong get c) c w n h
turn_in-Keeps conn_parse_cmd get c w n e h = on_parse_cmd-Keeps get c w n h e
turn_in-Keeps conn_new_cmd get c w n e h = on_new_cmd-Keeps (Overlong get c) c w n h e
turn_in-Keeps conn_swallow get c w n e h = on_swallow-Keeps (Overlong get c) c w n h e
turn_in-Keeps conn_write get c w n e h = on_write-Keeps (Overlong get c) c w n h e
turn_in-Keeps conn_mwrite get c w n e h =
    on_mwrite-Keeps (Overlong get c) c w n h.fits h.goes (inr e)
turn_in-Keeps conn_closing get c w n e h = h
turn_in-Keeps conn_nread get c w n e h =
    on_nread-Keeps (Overlong get c) get c w n (h.reading e) e h.goes
      (λ res found long. inr (e, res, found, long))

-- What any number of turns leaves.
abbrev pub Leads : Option Turn → Type 0
Leads none = Unit {0}
Leads (some (next_turn d w n)) = ⊥
Leads (some (stopped d w n)) = Sound d
Leads (some (closed d w)) = Sound d
Leads (some stuck) = ⊥
Leads (some overrun) = Unit {0}

-- For a sound connection of a client, one whose unread bytes lie in its buffer and of whose body,
-- while one is read, the rest has room: a turn of `drive_machine` in any state leaves it sound,
-- whatever reads, writes, allocations and events answer; it is stuck in no state, and makes a size or a
-- count negative, or a size 0, only in `conn_parse_cmd` for a header that announces more than
-- 2 ^ 30 - 8 bytes, and writes behind the buffer of an answer only in `conn_nread` for results whose
-- length `rlen`, with a byte more, is 2 ^ 32 or more.
pub turn-Keeps :
    (get : Bytes → Option (List Bytes)) (c : Conn) (w : World) (n : ℕ)
    → Sound c
    → Keeps (Overlong get c) (turn get c w n)
unfolding turn
turn-Keeps get c w n h = turn_in-Keeps c.state get c w n refl h

drive_machine-Leads :
    (fuel : ℕ) (get : Bytes → Option (List Bytes)) (c : Conn) (w : World) (n : ℕ)
    → Sound c
    → Leads (drive_machine fuel get c w n)
unfolding drive_machine
drive_machine-Leads zero get c w n h = tt
drive_machine-Leads (suc fuel) get c w n h =
    goes_on (turn get c w n) (turn-Keeps get c w n h) (drive_machine-Leads fuel get)
  where
    goes_on :
        (t : Turn)
        → Keeps (Overlong get c) t
        → ((d : Conn) (v : World) (m : ℕ) → Sound d → Leads (drive_machine fuel get d v m))
        → Leads (elim t [
          | next_turn d v m ↦ drive_machine fuel get d v m
          | stopped d v m ↦ some (stopped d v m)
          | closed d v ↦ some (closed d v)
          | stuck ↦ some stuck
          | overrun ↦ some overrun
        ])
    goes_on (next_turn d v m) k ih = ih d v m k
    goes_on (stopped d v m) k ih = k
    goes_on (closed d v) k ih = k
    goes_on stuck k ih = k
    goes_on overrun k ih = tt
