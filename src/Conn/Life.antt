-- ===== src/Conn/Life.antt =====
-- `conn_new` and `conn_close` of conn.cpp.
pub mod Pooled
use prefix_match_server.Prelude.{
  ℕ, Bool, true, false, Option, none, some, List, [], ◌∷◌, Bytes, length, ltb, ◌==◌, if◌then◌else◌,
}
use prefix_match_server.Conn.State.{ConnStates, Conn, data_buffer_size, read_buffer_highwat}
use prefix_match_server.Conn.Command.{iov_list_initial, msg_list_initial}
use prefix_match_server.Conn.Pool.{FreeConns, conn_from_freelist, conn_add_to_freelist}

-- The connections in memory, by their addresses, and the free ones.
pub record Conns : Type 0 where
  pub conns : ℕ → Conn
  pub free_conns : FreeConns

-- What the system answers: the address that `calloc` returns, what the buffers for input and output
-- hold if the four calls of `malloc` succeed, and whether `event_add` and `realloc` do.
pub record Grants : Type 0 where
  pub calloc : Option ℕ
  pub mallocs : Option (Bytes × Bytes)
  pub event_add : Bool
  pub realloc : Bool

unfoldable pub put_conn : ℕ → Conn → Conns → Conns
put_conn c conn s = record s { conns = λ d. if d == c then conn else s.conns d }

-- `calloc` and the sizes and buffers that follow.
unfoldable pub fresh_conn : ConnStates → ℕ → Bytes → Bytes → Conn
fresh_conn init size rbuf wbuf = record {
  state = init;
  ev_flags = 0;
  rbuf = rbuf;
  rcurr = 0;
  rsize = size;
  rbytes = 0;
  ritem = 0;
  rlbytes = 0;
  sbytes = 0;
  wbuf = wbuf;
  wsize = data_buffer_size;
  wpending = [];
  write_and_go = init;
  write_and_free = none;
  messages = [];
  msgcurr = 0;
  msgbytes = 0;
  iovused = 0;
  iovsize = iov_list_initial;
  msgsize = msg_list_initial;
  opcode = 0;
  bodylen = 0;
}

-- What `conn_new` sets of every connection.
unfoldable pub reset_conn : ConnStates → ℕ → Conn → Conn
reset_conn init flags c = record c {
  state = init;
  rlbytes = 0;
  rbytes = 0;
  wpending = [];
  rcurr = 0;
  ritem = 0;
  iovused = 0;
  msgcurr = 0;
  messages = [];
  write_and_go = init;
  write_and_free = none;
  ev_flags = flags;
}

-- `if (NULL == c)`: a new connection, unless one came from the free list.
unfoldable pub obtain :
    Option ℕ → Option ℕ → Option (Bytes × Bytes) → ConnStates → ℕ → Conns → Option ℕ × Conns
unfolding put_conn fresh_conn
obtain (some c) calloc mallocs init size s = (some c, s)
obtain none none mallocs init size s = (none, s)
obtain none (some c) none init size s = (none, s)
obtain none (some c) (some (rbuf, wbuf)) init size s =
    (some c, put_conn c (fresh_conn init size rbuf wbuf) s)

-- A connection that is given up is put on the free list, or freed if there is no memory for that.
unfoldable pub give_up : ℕ → Bool → Conns → Conns
give_up c realloc s = record s { free_conns = (conn_add_to_freelist s.free_conns c realloc).1 }

-- From the set-up of the fields on; `none` is NULL.
unfoldable pub set_up : Option ℕ × Conns → Bool → Bool → ConnStates → ℕ → Option ℕ × Conns
unfolding put_conn reset_conn give_up
set_up (none, s) event_add realloc init flags = (none, s)
set_up (some c, s) true realloc init flags =
    (some c, put_conn c (reset_conn init flags (s.conns c)) s)
set_up (some c, s) false realloc init flags =
    (none, give_up c realloc (put_conn c (reset_conn init flags (s.conns c)) s))

unfoldable pub conn_new : Grants → ConnStates → ℕ → ℕ → Conns → Option ℕ × Conns
unfolding obtain set_up
conn_new g init flags size s =
    let (c, free) = conn_from_freelist s.free_conns in
    set_up (obtain c g.calloc g.mallocs init size (record s { free_conns = free })) g.event_add
      g.realloc init flags

-- `conn_close`; the event and the socket are gone then.
unfoldable pub conn_close : ℕ → Bool → Conns → Conns
unfolding put_conn give_up
conn_close c realloc s =
    let t = put_conn c (record (s.conns c) { write_and_free = none }) s in
    if ltb read_buffer_highwat (s.conns c).rsize then t else give_up c realloc t
