-- ===== src/Tests/Connections.antt =====
-- The theorems on connections at a concrete connection and system.
use prefix_match_server.Prelude.{◌^◌, ◌≤◌, ◌+◌, ◌≢◌, refl, none, [], ◌∷◌, Bytes, arith}
use prefix_match_server.Conn.State.{
  Conn, World, conn_read, conn_nread, conn_new_cmd, received, would_block, sent, ev_read_persist,
}
use prefix_match_server.Conn.Output.{transmit, next_send}
use prefix_match_server.Conn.Output.Sent.{Sends, unsent, transmit-Sends}
use prefix_match_server.Conn.Pool.{FreeConns}
use prefix_match_server.Conn.Pool.Reuse.{InArray}
use prefix_match_server.Conn.Read.{try_read_network}
use prefix_match_server.Conn.Command.{header_size, read_header, try_read_command}
use prefix_match_server.Conn.Command.Parses.{Parses, try_read_command-Parses}
use prefix_match_server.Conn.Command.Placed.{HasRoom}
use prefix_match_server.Conn.Read.Fits.{Fits, Ends}
use prefix_match_server.Conn.Read.Ends.{try_read_network-Ends}

-- A buffer of four bytes with two of them unread, and a message of one chunk.
abbrev pub connection : Conn
connection = record {
  state = conn_read;
  ev_flags = ev_read_persist;
  rbuf = 1 ∷ 2 ∷ 3 ∷ 4 ∷ [];
  rcurr = 1;
  rsize = 4;
  rbytes = 2;
  ritem = 0;
  rlbytes = 0;
  sbytes = 0;
  wbuf = [];
  wsize = 0;
  wpending = [];
  write_and_go = conn_new_cmd;
  write_and_free = none;
  messages = ((7 ∷ 8 ∷ []) ∷ []) ∷ [];
  msgcurr = 0;
  msgbytes = 2;
  iovused = 1;
  iovsize = 1;
  msgsize = 1;
  opcode = 0;
  bodylen = 0;
}

abbrev pub system : World
system = record {
  reads = received (5 ∷ 6 ∷ 7 ∷ []) ∷ would_block ∷ [];
  sends = sent 1 ∷ [];
  allocs = [];
  events = [];
}

abbrev buffer : Bytes
buffer = 9 ∷ 10 ∷ []

has_message : connection.messages ≢ []
has_message e = absurd (cc)

transmit-Sends_example :
    Sends (unsent connection) (next_send system.sends) (transmit connection system)
transmit-Sends_example = transmit-Sends connection system

connection-Fits : Fits connection
connection-Fits = record {
  sized = refl;
  within = omega arith;
  room = omega arith;
  small = omega arith;
}

try_read_network-Ends_example : Ends 4 connection system (try_read_network connection system)
try_read_network-Ends_example = try_read_network-Ends connection system connection-Fits

-- A request with a body of five bytes, of which one is there, in a buffer that is full.
abbrev requesting : Conn
requesting = record connection {
  rbuf = 0x80 ∷ 0 ∷ 0 ∷ 0 ∷ 0 ∷ 0 ∷ 0 ∷ 5 ∷ 9 ∷ [];
  rcurr = 0;
  rsize = 9;
  rbytes = 9;
}

requesting-Fits : Fits requesting
requesting-Fits = record {
  sized = refl;
  within = omega arith;
  room = omega arith;
  small = omega arith;
}

short_body : (read_header requesting).bodylen + header_size ≤ 2 ^ 30
unfolding read_header prefix_match_server.Wire.Words.get32
short_body = omega arith

try_read_command-Parses_example : Parses requesting system (try_read_command requesting system)
try_read_command-Parses_example =
    try_read_command-Parses requesting system requesting-Fits short_body

-- A body of which two bytes are left to read, and one is in the buffer.
abbrev reading : Conn
reading = record connection { state = conn_nread; rcurr = 1; ritem = 1; rlbytes = 2; rbytes = 1 }

reading-HasRoom : HasRoom reading
reading-HasRoom = record {
  fits = record { sized = refl; within = omega arith; room = omega arith; small = omega arith };
  at_rcurr = refl;
  room = omega arith;
}

abbrev full_pool : FreeConns
full_pool = record { conns = 4 ∷ []; freetotal = 1 }

full_pool-InArray : InArray full_pool
full_pool-InArray = record { within = omega arith; some_place = omega arith }
