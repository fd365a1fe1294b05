-- ===== src/Conn/Command.antt =====
-- A request: `reset_cmd_handler`, `complete_nread`, `bin_read_key` and `try_read_command` of
-- server.cpp, and `conn_shrink` of conn.cpp.
pub mod Parses
pub mod Placed
use prefix_match_server.Prelude.{
  ◌&&◌, ℕ, zero, suc, ◌+◌, ◌-◌, ◌*◌, ◌%◌, ◌^◌, Bool, true, false, Option, none, some, List, [], ◌∷◌,
  ◌++◌, Bytes, codes, ltb, leb, ◌==◌, if◌then◌else◌, length, take, drop, replicate,
}
use prefix_match_server.Search.Query.{c_str}
use prefix_match_server.Wire.Words.{get32, htonl}
use prefix_match_server.Wire.Response.{reply_length, response_body}
use prefix_match_server.Conn.State.{
  ConnStates, conn_waiting, conn_parse_cmd, conn_nread, conn_closing, Conn, World, head_flag,
  tail_flags, move, conn_set_state, int_limit,
}
use prefix_match_server.Conn.Output.{
  add_msghdr, clear_messages, out_string, write_bin_error, write_bin_response,
}
use prefix_match_server.Conn.Read.{shrink_rbuf}

-- `IOV_LIST_INITIAL`, `MSG_LIST_INITIAL` and the high water marks.
abbrev pub iov_list_initial : ℕ
iov_list_initial = 400

abbrev pub msg_list_initial : ℕ
msg_list_initial = 10

abbrev iov_list_highwat : ℕ
iov_list_highwat = 600

abbrev msg_list_highwat : ℕ
msg_list_highwat = 100

unfoldable pub shrink_msglist : Conn × World → Conn × World
shrink_msglist (c, w) =
    if ltb msg_list_highwat c.msgsize
    then (
      if head_flag w.allocs then record c { msgsize = msg_list_initial } else c,
      record w { allocs = tail_flags w.allocs },
    )
    else (c, w)

unfoldable pub shrink_iov : Conn × World → Conn × World
shrink_iov (c, w) =
    if ltb iov_list_highwat c.iovsize
    then (
      if head_flag w.allocs then record c { iovsize = iov_list_initial } else c,
      record w { allocs = tail_flags w.allocs },
    )
    else (c, w)

unfoldable pub conn_shrink : Conn → World → Conn × World
unfolding shrink_rbuf shrink_msglist shrink_iov
conn_shrink c w = shrink_iov (shrink_msglist (shrink_rbuf c w))

-- `cmd` is not kept: nothing reads it.
unfoldable pub reset_cmd_handler : Conn → World → Conn × World
unfolding conn_shrink
reset_cmd_handler c w =
    let (d, w') = conn_shrink c w in
    (conn_set_state d (if ltb 0 d.rbytes then conn_parse_cmd else conn_waiting), w')

-- `sizeof(request_header)`
abbrev pub header_size : ℕ
header_size = 8

-- `*(uint32_t *)p`, with zeros behind the end of the buffer.
unfoldable pub word_at : Bytes → ℕ
word_at p = elim (get32 p) [ none ↦ 0 | some (n, rest) ↦ n ]

-- The key: the bytes up to the first NUL, and at most `vlen - sizeof(uint32_t)` of them, which wraps
-- round to more than there are if `vlen` is below 4.
unfoldable pub request_key : ℕ → Bytes → Bytes
unfolding c_str
request_key vlen value = if ltb vlen 4 then c_str value else take (vlen - 4) (c_str value)

-- `(char *)c->ritem - vlen`: the body that was read, and what stands behind it.
unfoldable pub item_value : Conn → Bytes
item_value c = drop (c.ritem - c.bodylen) c.rbuf

-- The key that is looked up.
unfoldable pub asked_key : Conn → Bytes
unfolding request_key item_value
asked_key c = request_key c.bodylen (drop 4 (item_value c))

-- `rlen + 1`, an int, as 32 bits.
unfoldable pub calloc_size : List Bytes → ℕ
unfolding reply_length
calloc_size res = (reply_length res 4 + 1) % 2 ^ 32

-- `calloc` grants a size that is not negative, and fewer bytes than are written.
unfoldable pub writes_behind : World → Option (List Bytes) → Bool
unfolding calloc_size
writes_behind w none = false
writes_behind w (some res) =
    head_flag w.allocs && (ltb (calloc_size res) int_limit && leb (2 ^ 32) (reply_length res 4 + 1))

-- What `complete_nread` does with the answer of `Get`, where `rlen` has not wrapped round to a size
-- that is too small. A negative size is more than there can be, and `calloc` fails.
unfoldable pub reply_to : (Bytes → Option (List Bytes)) → Conn → World → Conn × World
unfolding word_at asked_key calloc_size
reply_to get c w =
    let value = item_value c in
    elim (get (asked_key c)) [
      | none ↦ write_bin_error c w 0
      | some res ↦
          let w' = record w { allocs = tail_flags w.allocs } in
          if head_flag w.allocs && ltb (calloc_size res) int_limit
          then write_bin_response
              (record c { write_and_free = some (response_body (word_at value) res) }) w'
              (response_body (word_at value) res)
          else write_bin_error c w' 0
    ]

-- `get` is the call of `Get`; `none` is a return value other than 0. A result of `none` is a write
-- behind the buffer.
unfoldable pub complete_nread : (Bytes → Option (List Bytes)) → Conn → World → Option (Conn × World)
unfolding asked_key writes_behind reply_to
complete_nread get c w =
    if writes_behind w (get (asked_key c)) then none else some (reply_to get c w)

-- `while (size > nsize)`, on fuel: a size above 0 is doubled at most `size` times.
unfoldable pub double_to : ℕ → ℕ → ℕ → ℕ
double_to zero size nsize = nsize
double_to (suc fuel) size nsize = if ltb nsize size then double_to fuel size (nsize * 2) else nsize

-- The read buffer with `nsize` bytes; what is added is not initialised, and stands as zeros.
unfoldable pub enlarge : Conn → ℕ → Conn
enlarge c nsize = record c { rbuf = c.rbuf ++ replicate (nsize - c.rsize) 0; rsize = nsize }

-- The packet is moved to the front of the buffer.
unfoldable pub repack : Conn → Conn
repack c = if c.rcurr == 0 then c else record c { rbuf = move c.rbuf 0 c.rcurr c.rbytes; rcurr = 0 }

unfoldable pub expect_body : Conn → Conn
expect_body c = record c { ritem = c.rcurr + header_size; state = conn_nread }

-- The size of the buffer for a body.
unfoldable pub grown_size : Conn → ℕ
unfolding double_to
grown_size c = double_to (c.bodylen + header_size) (c.bodylen + header_size) c.rsize

-- The assignment to `rlbytes`, or one to `rsize`, is of a number that is no int.
unfoldable pub leaves_int : Conn → World → Bool
unfolding grown_size
leaves_int c w =
    if ltb c.bodylen int_limit
    then ltb c.rsize (c.rcurr + header_size + c.bodylen)
      && (head_flag w.allocs && leb int_limit (grown_size c))
    else true

-- The rest of `bin_read_key` where `rlbytes` and `rsize` remain ints.
unfoldable pub place_body : Conn → World → Conn × World
unfolding enlarge repack expect_body grown_size
place_body c w =
    let d = record c { rlbytes = c.bodylen } in
    let nsize = grown_size c in
    if ltb c.rsize (c.rcurr + header_size + c.bodylen)
    then if nsize == c.rsize
      then (expect_body (repack d), w)
      else if head_flag w.allocs
      then (expect_body (repack (enlarge d nsize)), record w { allocs = tail_flags w.allocs })
      else (conn_set_state d conn_closing, record w { allocs = tail_flags w.allocs })
    else (expect_body d, w)

-- `none` is a length with which `rlbytes` or `rsize` becomes negative or 0; the source goes on with it.
unfoldable pub bin_read_key : Conn → World → Option (Conn × World)
unfolding leaves_int place_body
bin_read_key c w = if leaves_int c w then none else some (place_body c w)

-- The return value: 0 is "need more data", and -1 a packet that is no request. `no_int` stands for a
-- request that `bin_read_key` takes with a negative `rlbytes`, or with an `rsize` that is negative or
-- 0.
pub data Parsed : Type 0 where
  need_more_data bad_magic command no_int : Parsed

-- The byte at an offset, with zeros behind the end of the buffer.
unfoldable pub byte_at : Bytes → ℕ → ℕ
byte_at [] n = 0
byte_at (c ∷ s) zero = c
byte_at (c ∷ s) (suc n) = byte_at s n

-- The header is behind `rcurr`.
unfoldable pub pass_header : Conn → Conn
pass_header c = record c { rbytes = c.rbytes - header_size; rcurr = c.rcurr + header_size }

-- The header as it is kept, its length in host order.
unfoldable pub read_header : Conn → Conn
unfolding word_at byte_at htonl
read_header c =
    let req = drop c.rcurr c.rbuf in
    record c { opcode = byte_at req 1; bodylen = htonl (word_at (drop 4 req)) }

-- The header is passed once the body has its place.
unfoldable pub after_key : Conn → World → Option (Conn × World) → Parsed × Conn × World
unfolding pass_header
after_key d w none = (no_int, d, w)
after_key d w (some (e, w')) = (command, pass_header e, w')

-- A request whose message is set up, or was not for want of memory.
unfoldable pub run_command : Bool × Conn × World → Parsed × Conn × World
unfolding after_key
run_command (true, d, w) = after_key d w (bin_read_key d w)
run_command (false, d, w) =
    let (e, w') = out_string d w (codes "SERVER_ERROR out of memory") in (need_more_data, e, w')

unfoldable pub try_read_command : Conn → World → Parsed × Conn × World
unfolding byte_at read_header run_command
try_read_command c w =
    if ltb c.rbytes header_size
    then (need_more_data, c, w)
    else if byte_at (drop c.rcurr c.rbuf) 0 == 0x80
    then run_command (add_msghdr (clear_messages (read_header c)) w)
    else (bad_magic, conn_set_state c conn_closing, w)
