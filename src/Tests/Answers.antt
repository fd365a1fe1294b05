-- ===== src/Tests/Answers.antt =====
-- The theorems on a request and its answer at a concrete connection.
use prefix_match_server.Prelude.{
  ℕ, zero, suc, ◌≤◌, ◌<◌, ◌+◌, ◌≡◌, refl, some, List, [], ◌∷◌, ◌++◌, Bytes, Option, length,
  replicate, drop, arith,
}
use prefix_match_server.Wire.Words.{put32, htonl}
use prefix_match_server.Wire.Response.{client_read, response_body, response_header}
use prefix_match_server.Conn.State.{int_limit, Conn, World, sent, conn_nread, conn_parse_cmd}
use prefix_match_server.Conn.Command.{reply_to, header_size}
use prefix_match_server.Conn.Command.Placed.{HasRoom}
use prefix_match_server.Conn.Machine.{on_nread, turn, next_turn}
use prefix_match_server.Conn.Machine.Body.{here, more, Arrives, Left}
use prefix_match_server.Conn.Machine.Stream.{stream}
use prefix_match_server.Conn.Answer.Comes.{Comes, Takes}
use prefix_match_server.Conn.Answer.Whole.{turn-Expects}
use prefix_match_server.Conn.Answer.Exchange.{Expects, answer, exchange, exchange_comes}
use prefix_match_server.Tests.Connections.{connection, system}

-- One result, of two bytes.
abbrev found : List Bytes
found = (97 ∷ 98 ∷ []) ∷ []

abbrev find : Bytes → Option (List Bytes)
find key = some found

-- A request for one result of the key "a", with a byte of the next request behind it.
abbrev expecting : Conn
expecting = record connection {
  state = conn_nread;
  rbuf = 1 ∷ 0 ∷ 0 ∷ 0 ∷ 97 ∷ 9 ∷ [];
  rcurr = 0;
  rsize = 6;
  rbytes = 6;
  ritem = 0;
  rlbytes = 5;
  bodylen = 5;
  wbuf = 0 ∷ 0 ∷ 0 ∷ 0 ∷ [];
  wsize = 4;
}

abbrev whole : Conn
whole = record expecting { ritem = 5; rlbytes = 0; rcurr = 5; rbytes = 1 }

-- `sendmsg` takes a byte at a time.
abbrev slow : World
slow = record system { reads = []; sends = replicate 18 (sent 1) }

slow-Takes : (n : ℕ) → Takes (replicate n (sent 1))
slow-Takes zero = tt
slow-Takes (suc n) = ((1, refl, omega arith), slow-Takes n)

expecting-HasRoom : HasRoom expecting
expecting-HasRoom = record {
  fits = record { sized = refl; within = omega arith; room = omega arith; small = omega arith };
  at_rcurr = refl;
  room = omega arith;
}

arrived : Arrives find expecting slow whole slow
arrived = more 20 here (omega arith) left
  where
    left : Left whole slow (on_nread find expecting slow 20)
    left = unfold on_nread in (refl, refl)

request : stream expecting slow ≡ (put32 1 ++ 97 ∷ []) ++ 9 ∷ []
unfolding put32
request = refl

waits : Expects 5 ((put32 1 ++ 97 ∷ []) ++ 9 ∷ []) expecting slow
waits = record {
  state = refl;
  has_room = expecting-HasRoom;
  all = refl;
  announced = refl;
  body = request;
}

enough : length (answer whole 1 found) ≤ 18
unfolding response_header response_body put32
enough = omega arith

small_answer : length (response_body 1 found) + 1 < int_limit
unfolding response_body put32
small_answer = omega arith

exchange_comes_example :
    (turn find whole slow 20
      ≡ next_turn (reply_to find whole slow).0 (reply_to find whole slow).1 20)
    × (s : Comes find (reply_to find whole slow).0 (reply_to find whole slow).1) × (s.bytes
        ≡ answer whole 1 found)
exchange_comes_example =
    exchange_comes find expecting whole slow slow 1 (97 ∷ []) (9 ∷ []) found waits arrived refl
      (omega arith) refl refl small_answer 20 refl enough (slow-Takes 18)

-- Turns that send the answer.
coming : Comes find (reply_to find whole slow).0 (reply_to find whole slow).1
coming =
    (exchange_comes find expecting whole slow slow 1 (97 ∷ []) (9 ∷ []) found waits arrived refl
      (omega arith) refl refl small_answer 20 refl enough (slow-Takes 18)).1

exchange_example :
    (turn find whole slow 20
      ≡ next_turn (reply_to find whole slow).0 (reply_to find whole slow).1 20)
    × (coming.bytes ≡ answer whole 1 found)
    × (client_read (drop header_size coming.bytes) ≡ some found)
exchange_example =
    exchange find expecting whole slow slow 1 (97 ∷ []) (9 ∷ []) found waits arrived refl
      (omega arith) refl refl small_answer 20 coming.bytes coming.last coming.world refl
      (omega arith) (omega arith) (omega arith, tt) coming.delivers coming.new

-- The same request with its header, of which all has been read.
abbrev incoming_request : Conn
incoming_request = record connection {
  state = conn_parse_cmd;
  rbuf = 0x80 ∷ 0 ∷ 0 ∷ 0 ∷ 0 ∷ 0 ∷ 0 ∷ 5 ∷ 1 ∷ 0 ∷ 0 ∷ 0 ∷ 97 ∷ 9 ∷ [];
  rcurr = 0;
  rsize = 14;
  rbytes = 14;
}

turn-Expects_example :
    (d : Conn) × (v : World) × (turn find incoming_request slow 20 ≡ next_turn d v 20)
    × Expects 5 (1 ∷ 0 ∷ 0 ∷ 0 ∷ 97 ∷ 9 ∷ []) d v
turn-Expects_example =
    turn-Expects find incoming_request slow 20 0 0 0 5 (1 ∷ 0 ∷ 0 ∷ 0 ∷ 97 ∷ 9 ∷ []) refl
      (record { sized = refl; within = omega arith; room = omega arith; small = omega arith })
      (omega arith) (unfold put32 htonl in refl) (omega arith) refl
