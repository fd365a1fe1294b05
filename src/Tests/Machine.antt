-- ===== src/Tests/Machine.antt =====
-- The theorems on the state machine at concrete connections.
use prefix_match_server.Prelude.{
  ◌≡◌, refl, inl, none, Bytes, List, Option, arith, ◌++◌, length, take,
}
use prefix_match_server.Conn.State.{
  int_limit, Conn, World, conn_nread, conn_parse_cmd, received, would_block, sent,
}
use prefix_match_server.Conn.Command.Placed.{HasRoom}
use prefix_match_server.Conn.Machine.{
  Turn, next_turn, stopped, closed, stuck, overrun, on_nread, turn,
}
use prefix_match_server.Conn.Machine.Body.{Left, here, more, item_value-Arrives}
use prefix_match_server.Conn.Machine.Stream.{stream}
use prefix_match_server.Conn.Command.{item_value}
use prefix_match_server.Conn.Machine.Sound.{Sound, Keeps, Overlong}
use prefix_match_server.Conn.Machine.Sound.Turns.{turn-Keeps}
use prefix_match_server.Tests.Connections.{connection, system}

abbrev no_result : Bytes → Option (List Bytes)
no_result key = none

-- A body of two bytes, of which one is in the buffer.
abbrev pub expecting : Conn
expecting = record connection {
  state = conn_nread;
  rcurr = 1;
  ritem = 1;
  rlbytes = 2;
  rbytes = 1;
  bodylen = 2;
}

expecting-HasRoom : HasRoom expecting
expecting-HasRoom = record {
  fits = record { sized = refl; within = omega arith; room = omega arith; small = omega arith };
  at_rcurr = refl;
  room = omega arith;
}

pub expecting-Sound : Sound expecting
expecting-Sound = record {
  fits = expecting-HasRoom.fits;
  client = (λ e. cc, λ e. cc);
  goes = inl refl;
  reading = λ e. expecting-HasRoom;
}

turn-Keeps_example : Keeps (Overlong no_result expecting) (turn no_result expecting system 20)
turn-Keeps_example = turn-Keeps no_result expecting system 20 expecting-Sound

-- The connection and the system that a turn leaves.
abbrev left_conn : Turn → Conn
left_conn (next_turn d w n) = d
left_conn (stopped d w n) = d
left_conn (closed d w) = d
left_conn stuck = connection
left_conn overrun = connection

abbrev left_world : Turn → World
left_world (next_turn d w n) = w
left_world (stopped d w n) = w
left_world (closed d w) = w
left_world stuck = system
left_world overrun = system

abbrev one_turn : Turn
unfolding on_nread
one_turn = on_nread no_result expecting system 20

one_turn-Left :
    Left (left_conn one_turn) (left_world one_turn) (on_nread no_result expecting system 20)
unfolding on_nread prefix_match_server.Conn.State.read
one_turn-Left = (refl, refl)

none_left : (left_conn one_turn).rlbytes ≡ 0
unfolding on_nread prefix_match_server.Conn.State.read
none_left = refl

item_value-Arrives_example :
    let d = left_conn one_turn in
    (length (take d.bodylen (item_value d)) ≡ 2)
    × (take d.bodylen (item_value d) ++ stream d (left_world one_turn) ≡ stream expecting system)
item_value-Arrives_example =
    item_value-Arrives no_result expecting system (left_conn one_turn) (left_world one_turn)
      expecting-HasRoom refl (more 20 here (omega arith) one_turn-Left) none_left
