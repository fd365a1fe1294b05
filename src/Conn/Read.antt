-- ===== src/Conn/Read.antt =====
-- `try_read_network` of network.cpp, and `conn_shrink` of conn.cpp.
pub mod Ends
pub mod Fits
pub mod Incoming
use prefix_match_server.Prelude.{
  ℕ, zero, suc, ◌+◌, ◌-◌, ◌*◌, Bool, true, false, ◌&&◌, Option, none, some, List, [], ◌∷◌, ◌++◌,
  Bytes, codes, ltb, leb, ◌==◌, if◌then◌else◌, length, take, drop, replicate,
}
use prefix_match_server.Conn.State.{
  int_limit, ConnStates, conn_closing, Conn, World, Io, received, would_block, failed, head_flag,
  tail_flags, read, move, write_at, data_buffer_size, read_buffer_highwat,
}
use prefix_match_server.Conn.Output.{out_string}

-- `enum try_read_result`
pub data TryReadResult : Type 0 where
  read_data_received read_no_data_received read_error read_memory_error : TryReadResult

-- The fragment of a command is moved to the front of the buffer.
unfoldable pub pack : Conn → Conn
pack c = if c.rcurr == 0 then c else record c {
  rbuf = if c.rbytes == 0 then c.rbuf else move c.rbuf 0 c.rcurr c.rbytes;
  rcurr = 0;
}

-- The buffer at twice its size; what `realloc` adds is not initialised, and stands as zeros.
unfoldable pub grow : Conn → Conn
grow c = record c { rbuf = c.rbuf ++ replicate c.rsize 0; rsize = c.rsize * 2; rcurr = 0 }

-- No memory: what was read is dropped, and a line is written before the connection closes.
unfoldable pub out_of_memory : Conn → World → TryReadResult × Conn × World
out_of_memory c w =
    let (d, w') =
      out_string (record c { rbytes = 0 }) w (codes "SERVER_ERROR out of memory reading request") in
    (read_memory_error, record d { write_and_go = conn_closing }, w')

-- The bytes that a `read` delivered go behind those that are there.
unfoldable pub store_read : Conn → Bytes → Conn
store_read c bytes = record c {
  rbuf = write_at c.rbuf c.rbytes bytes;
  rbytes = c.rbytes + length bytes;
}

abbrev pub Reader : Type 0
Reader = Conn → World → TryReadResult → Option (TryReadResult × Conn × World)

-- The second part of a round: one `read`, and what its answer leads to. `again` is the next round.
unfoldable pub read_once : Reader → Reader
unfolding store_read
read_once again c w gotdata =
    let (io, ios) = read (c.rsize - c.rbytes) w.reads in
    let w' = record w { reads = ios } in
    elim io [
      | received bytes ↦
          if length bytes == 0
          then some (read_error, c, w')
          else if length bytes == c.rsize - c.rbytes
          then again (store_read c bytes) w' read_data_received
          else some (read_data_received, store_read c bytes, w')
      | would_block ↦ some (gotdata, c, w')
      | failed ↦ some (read_error, c, w')
    ]

-- `while (1)`, on fuel, with `4 - num_allocs` as the second count. `c->rsize * 2` is an int: where it
-- is negative, `realloc` is asked for more than there can be, and fails.
unfoldable pub read_loop : ℕ → ℕ → Reader
unfolding grow out_of_memory read_once
read_loop zero allocs c w gotdata = none
read_loop (suc fuel) zero c w gotdata =
    if leb c.rsize c.rbytes
    then some (gotdata, c, w)
    else read_once (read_loop fuel zero) c w gotdata
read_loop (suc fuel) (suc allocs) c w gotdata =
    let w' = record w { allocs = tail_flags w.allocs } in
    if leb c.rsize c.rbytes
    then if head_flag w.allocs && ltb (c.rsize * 2) int_limit
      then read_once (read_loop fuel allocs) (grow c) w' gotdata
      else some (out_of_memory c w')
    else read_once (read_loop fuel (suc allocs)) c w gotdata

-- A round that goes on has filled the buffer, so the next one grows it or ends: six rounds are
-- enough for four growths.
unfoldable pub try_read_network : Conn → World → Option (TryReadResult × Conn × World)
unfolding pack read_loop
try_read_network c w = read_loop 6 4 (pack c) w read_no_data_received

-- `memmove` of the unread bytes to the front, if they are not there.
unfoldable pub move_front : Conn → Conn
move_front c = if c.rcurr == 0 then c else record c { rbuf = move c.rbuf 0 c.rcurr c.rbytes }

-- The part of `conn_shrink` on the read buffer; a `realloc` to a smaller size that fails leaves the
-- buffer as large as it was.
unfoldable pub shrink_rbuf : Conn → World → Conn × World
unfolding move_front
shrink_rbuf c w =
    if ltb read_buffer_highwat c.rsize && ltb c.rbytes data_buffer_size
    then (
      if head_flag w.allocs
          then record (move_front c) {
            rbuf = take data_buffer_size (move_front c).rbuf;
            rsize = data_buffer_size;
            rcurr = 0;
          }
          else record (move_front c) { rcurr = 0 },
      record w { allocs = tail_flags w.allocs },
    )
    else (c, w)
