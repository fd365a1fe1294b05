-- ===== src/Conn/State.antt =====
-- `conn` of conn.h, and what a connection asks of the system.
use prefix_match_server.Prelude.{
  ℕ, ◌+◌, ◌==◌, if◌then◌else◌, Bool, true, false, Option, List, [], ◌∷◌, ◌++◌, Bytes, length, take,
  drop,
}

-- `enum conn_states`
pub data ConnStates : Type 0 where
  conn_listening conn_new_cmd conn_waiting conn_read conn_parse_cmd conn_write : ConnStates
  conn_nread conn_swallow conn_closing conn_mwrite conn_max_state : ConnStates

-- What an `int` stays below.
abbrev pub int_limit : ℕ
int_limit = 0x80000000

-- A message of `msglist` with its part of `iov`: the chunks that are left to send, in order.
abbrev pub Message : Type 0
Message = List Bytes

-- `rbuf` is the bytes of the buffer, as many as `rsize`; `rcurr` and `ritem` are offsets in it. The
-- messages are those of `msglist` up to `msgused`, and `wpending` is the `wbytes` bytes at `wcurr`.
-- An offset, a size or a count is a number: the ints `rlbytes` and `rsize` are below `int_limit`, and
-- where the source makes one negative is written out.
pub record Conn : Type 0 where
  pub state : ConnStates
  pub ev_flags : ℕ
  pub rbuf : Bytes
  pub rcurr : ℕ
  pub rsize : ℕ
  pub rbytes : ℕ
  pub ritem : ℕ
  pub rlbytes : ℕ
  pub sbytes : ℕ
  pub wbuf : Bytes
  pub wsize : ℕ
  pub wpending : Bytes
  pub write_and_go : ConnStates
  pub write_and_free : Option Bytes
  pub messages : List Message
  pub msgcurr : ℕ
  pub msgbytes : ℕ
  pub iovused : ℕ
  pub iovsize : ℕ
  pub msgsize : ℕ
  pub opcode : ℕ
  pub bodylen : ℕ

-- `DATA_BUFFER_SIZE`, `READ_BUFFER_HIGHWAT` and the event flags.
abbrev pub data_buffer_size : ℕ
data_buffer_size = 2048

abbrev pub read_buffer_highwat : ℕ
read_buffer_highwat = 8192

abbrev pub ev_read_persist : ℕ
ev_read_persist = 0x12

abbrev pub ev_write_persist : ℕ
ev_write_persist = 0x14

-- What `read` and `sendmsg` answer; a read of no bytes is the end of the stream.
pub data Io : Type 0 where
  received : Bytes → Io
  would_block : Io
  failed : Io

pub data SendReply : Type 0 where
  sent : ℕ → SendReply
  send_blocks : SendReply
  send_fails : SendReply

-- The answers of the system, in the order in which they are asked for: `allocs` and `events` say
-- whether an allocation and a change of the events succeed. Past the end of a list, those succeed,
-- and input and output would block.
pub record World : Type 0 where
  pub reads : List Io
  pub sends : List SendReply
  pub allocs : List Bool
  pub events : List Bool

abbrev pub head_flag : List Bool → Bool
head_flag [] = true
head_flag (b ∷ bs) = b

abbrev pub tail_flags : List Bool → List Bool
tail_flags [] = []
tail_flags (b ∷ bs) = bs

-- What `read(sfd, p, avail)` leaves of a packet for the next call.
unfoldable pub put_back : Bytes → List Io → List Io
put_back [] ios = ios
put_back (c ∷ rest) ios = received (c ∷ rest) ∷ ios

unfoldable pub read : ℕ → List Io → Io × List Io
unfolding put_back
read avail [] = (would_block, [])
read avail (received bytes ∷ ios) = (received (take avail bytes), put_back (drop avail bytes) ios)
read avail (would_block ∷ ios) = (would_block, ios)
read avail (failed ∷ ios) = (failed, ios)

-- `conn_set_state` on a valid state; it also logs.
abbrev pub conn_set_state : Conn → ConnStates → Conn
conn_set_state c s = record c { state = s }

-- `update_event`: deleting and adding the event may each fail.
unfoldable pub update_event : Conn → ℕ → World → Bool × Conn × World
update_event c flags w =
    if c.ev_flags == flags
    then (true, c, w)
    else if head_flag w.events
    then (
      head_flag (tail_flags w.events),
      record c { ev_flags = flags },
      record w { events = tail_flags (tail_flags w.events) },
    )
    else (false, c, record w { events = tail_flags w.events })

-- `memmove` within a buffer: `n` bytes from `from` to `to`.
unfoldable pub move : Bytes → ℕ → ℕ → ℕ → Bytes
move buf to from n = take to buf ++ (take n (drop from buf) ++ drop (to + n) buf)

-- Bytes written at an offset.
unfoldable pub write_at : Bytes → ℕ → Bytes → Bytes
write_at buf to bytes = take to buf ++ (bytes ++ drop (to + length bytes) buf)
