-- ===== src/Conn/Machine.antt =====
-- `drive_machine` of server.cpp on a connection with a client: one step for each turn of its loop.
pub mod Body
pub mod Bounds
pub mod Sound
pub mod Stream
pub mod Untouched
use prefix_match_server.Prelude.{
  ℕ, zero, suc, ◌+◌, ◌-◌, Bool, true, false, Option, none, some, List, [], ◌∷◌, ◌++◌, Bytes, ltb,
  leb, ◌==◌, if◌then◌else◌, length, take, drop, tests,
}
use prefix_match_server.Conn.State.{
  int_limit, ConnStates, conn_listening, conn_new_cmd, conn_waiting, conn_read, conn_parse_cmd,
  conn_write, conn_nread, conn_swallow, conn_closing, conn_mwrite, conn_max_state, Conn, World, Io,
  received, would_block, failed, read, move, write_at, conn_set_state, update_event,
  ev_read_persist, ev_write_persist,
}
use prefix_match_server.Conn.Output.{
  Ret, ret_ok, ret_error, ret_unfinished, add_iov_all, TransmitResult, transmit_complete,
  transmit_incomplete, transmit_soft_error, transmit_hard_error, transmit,
}
use prefix_match_server.Conn.Read.{
  TryReadResult, read_data_received, read_no_data_received, read_error, read_memory_error,
  try_read_network,
}
use prefix_match_server.Conn.Command.{
  reset_cmd_handler, complete_nread, Parsed, need_more_data, bad_magic, command, no_int,
  try_read_command,
}

-- What a turn ends with: another turn, the end of the loop with `stop`, or the end behind
-- `conn_close`. `overrun` is a turn that makes `rlbytes` negative, or `rsize` negative or 0, or
-- writes behind the buffer of an answer; what the source does then is not modelled. `stuck` stands
-- for a state that is not a client's, and for fuel that runs out.
pub data Turn : Type 0 where
  next_turn stopped : Conn → World → ℕ → Turn
  closed : Conn → World → Turn
  stuck overrun : Turn

-- Waiting for an event: `stop`, or the connection closes if the events cannot be changed.
unfoldable pub wait_for : ConnStates → ℕ → Conn → World → ℕ → Turn
wait_for state flags c w nreqs =
    let (ok, d, w') = update_event c flags w in
    if ok
    then stopped (conn_set_state d state) w' nreqs
    else next_turn (conn_set_state d conn_closing) w' nreqs

-- Bytes that are in the buffer already are copied behind the value.
unfoldable pub copy_leftovers : Conn → Conn
copy_leftovers c =
    let tocopy = if ltb c.rlbytes c.rbytes then c.rlbytes else c.rbytes in
    record c {
      rbuf = if c.ritem == c.rcurr then c.rbuf else move c.rbuf c.ritem c.rcurr tocopy;
      ritem = c.ritem + tocopy;
      rlbytes = c.rlbytes - tocopy;
      rcurr = c.rcurr + tocopy;
      rbytes = c.rbytes - tocopy;
    }

-- Bytes that `read` delivered to `ritem`.
unfoldable pub store_item : Conn → Bytes → Conn
store_item c bytes = record c {
  rbuf = write_at c.rbuf c.ritem bytes;
  rcurr = if c.rcurr == c.ritem then c.rcurr + length bytes else c.rcurr;
  ritem = c.ritem + length bytes;
  rlbytes = c.rlbytes - length bytes;
}

-- What the answer of a `read` in `conn_nread` or `conn_swallow` leads to, with what is done to bytes.
unfoldable pub after_read : (Bytes → Conn) → ConnStates → Conn → Io → World → ℕ → Turn
unfolding wait_for
after_read store state c (received bytes) w nreqs =
    if length bytes == 0
    then next_turn (conn_set_state c conn_closing) w nreqs
    else next_turn (store bytes) w nreqs
after_read store state c would_block w nreqs = wait_for state ev_read_persist c w nreqs
after_read store state c failed w nreqs = next_turn (conn_set_state c conn_closing) w nreqs

unfoldable pub read_item : Conn → World → ℕ → Turn
unfolding store_item after_read
read_item c w nreqs =
    let (io, ios) = read c.rlbytes w.reads in
    after_read (store_item c) conn_nread c io (record w { reads = ios }) nreqs

unfoldable pub on_nread : (Bytes → Option (List Bytes)) → Conn → World → ℕ → Turn
unfolding copy_leftovers read_item
on_nread get c w nreqs =
    if c.rlbytes == 0
    then elim (complete_nread get c w) [ none ↦ overrun | some (d, w') ↦ next_turn d w' nreqs ]
    else if ltb 0 c.rbytes
    then if (copy_leftovers c).rlbytes == 0
      then next_turn (copy_leftovers c) w nreqs
      else read_item (copy_leftovers c) w nreqs
    else read_item c w nreqs

-- Bytes in the buffer are passed over.
unfoldable pub swallow_leftovers : Conn → Conn
swallow_leftovers c =
    let tocopy = if ltb c.sbytes c.rbytes then c.sbytes else c.rbytes in
    record c { sbytes = c.sbytes - tocopy; rcurr = c.rcurr + tocopy; rbytes = c.rbytes - tocopy }

-- Bytes that are read to the front of the buffer and thrown away.
unfoldable pub swallow_bytes : Conn → Bytes → Conn
swallow_bytes c bytes = record c {
  rbuf = write_at c.rbuf 0 bytes;
  sbytes = c.sbytes - length bytes;
}

unfoldable pub on_swallow : Conn → World → ℕ → Turn
unfolding swallow_leftovers swallow_bytes after_read
on_swallow c w nreqs =
    if c.sbytes == 0
    then next_turn (conn_set_state c conn_new_cmd) w nreqs
    else if ltb 0 c.rbytes
    then next_turn (swallow_leftovers c) w nreqs
    else let (io, ios) = read (if ltb c.sbytes c.rsize then c.sbytes else c.rsize) w.reads in
      after_read (swallow_bytes c) conn_swallow c io (record w { reads = ios }) nreqs

-- The inner `switch` on what `try_read_network` returned.
unfoldable pub read_turn : TryReadResult → Conn → World → ℕ → Turn
read_turn read_no_data_received c w nreqs = next_turn (conn_set_state c conn_waiting) w nreqs
read_turn read_data_received c w nreqs = next_turn (conn_set_state c conn_parse_cmd) w nreqs
read_turn read_error c w nreqs = next_turn (conn_set_state c conn_closing) w nreqs
read_turn read_memory_error c w nreqs = next_turn c w nreqs

unfoldable pub on_read : Conn → World → ℕ → Turn
unfolding read_turn
on_read c w nreqs = elim (try_read_network c w) [
  | none ↦ stuck
  | some (res, d, w') ↦ read_turn res d w' nreqs
]

unfoldable pub parse_turn : Parsed → Conn → World → ℕ → Turn
parse_turn need_more_data c w nreqs = next_turn (conn_set_state c conn_waiting) w nreqs
parse_turn bad_magic c w nreqs = next_turn c w nreqs
parse_turn command c w nreqs = next_turn c w nreqs
parse_turn no_int c w nreqs = overrun

unfoldable pub on_parse_cmd : Conn → World → ℕ → Turn
unfolding parse_turn
on_parse_cmd c w nreqs = let (parsed, d, w') = try_read_command c w in parse_turn parsed d w' nreqs

-- `nreqs` counts down the requests that this call of `drive_machine` may still take.
unfoldable pub on_new_cmd : Conn → World → ℕ → Turn
on_new_cmd c w zero =
    if ltb 0 c.rbytes
    then (let (ok, d, w') = update_event c ev_write_persist w in
        stopped (if ok then d else conn_set_state d conn_closing) w' zero)
    else stopped c w zero
on_new_cmd c w (suc nreqs) = let (d, w') = reset_cmd_handler c w in next_turn d w' nreqs

-- The buffer of the answer is freed first, and another turn leaves `conn_mwrite`.
unfoldable pub free_answer : Option Bytes → Conn → Conn
free_answer none c = conn_set_state c conn_new_cmd
free_answer (some buf) c = record c { write_and_free = none }

-- All bytes are sent, in a given state.
unfoldable pub complete_in : ConnStates → Conn → Conn
unfolding free_answer
complete_in conn_mwrite c = free_answer c.write_and_free c
complete_in conn_write c = record c { write_and_free = none; state = c.write_and_go }
complete_in s c = conn_set_state c conn_closing

unfoldable pub after_complete : Conn → Conn
unfolding complete_in
after_complete c = complete_in c.state c

unfoldable pub on_mwrite : Conn → World → ℕ → Turn
unfolding after_complete
on_mwrite c w nreqs =
    let (result, d, w') = transmit c w in
    elim result [
      | transmit_complete ↦ next_turn (after_complete d) w' nreqs
      | transmit_incomplete ↦ next_turn d w' nreqs
      | transmit_hard_error ↦ next_turn d w' nreqs
      | transmit_soft_error ↦ stopped d w' nreqs
    ]

unfoldable pub on_write : Conn → World → ℕ → Turn
unfolding on_mwrite
on_write c w nreqs =
    if c.iovused == 0
    then elim (add_iov_all c w c.wpending) [
      | ret_ok d w' ↦ on_mwrite d w' nreqs
      | ret_error d w' ↦ next_turn (conn_set_state d conn_closing) w' nreqs
      | ret_unfinished d w' ↦ stuck
    ]
    else on_mwrite c w nreqs

-- One turn, by the state. A listening socket is another loop, and `conn_max_state` an assertion.
unfoldable pub turn_in : ConnStates → (Bytes → Option (List Bytes)) → Conn → World → ℕ → Turn
unfolding wait_for on_nread on_swallow on_read on_parse_cmd on_new_cmd on_write on_mwrite
turn_in conn_listening get c w nreqs = stuck
turn_in conn_waiting get c w nreqs = wait_for conn_read ev_read_persist c w nreqs
turn_in conn_read get c w nreqs = on_read c w nreqs
turn_in conn_parse_cmd get c w nreqs = on_parse_cmd c w nreqs
turn_in conn_new_cmd get c w nreqs = on_new_cmd c w nreqs
turn_in conn_nread get c w nreqs = on_nread get c w nreqs
turn_in conn_swallow get c w nreqs = on_swallow c w nreqs
turn_in conn_write get c w nreqs = on_write c w nreqs
turn_in conn_mwrite get c w nreqs = on_mwrite c w nreqs
turn_in conn_closing get c w nreqs = closed c w
turn_in conn_max_state get c w nreqs = stuck

unfoldable pub turn : (Bytes → Option (List Bytes)) → Conn → World → ℕ → Turn
unfolding turn_in
turn get c w nreqs = turn_in c.state get c w nreqs

-- `while (!stop)`, on fuel: `none` is a loop that has not come to an end.
unfoldable pub drive_machine : ℕ → (Bytes → Option (List Bytes)) → Conn → World → ℕ → Option Turn
unfolding turn
drive_machine zero get c w nreqs = none
drive_machine (suc fuel) get c w nreqs = elim (turn get c w nreqs) [
  | next_turn d w' n ↦ drive_machine fuel get d w' n
  | stopped d w' n ↦ some (stopped d w' n)
  | closed d w' ↦ some (closed d w')
  | stuck ↦ some stuck
  | overrun ↦ some overrun
]
