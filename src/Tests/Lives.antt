-- ===== src/Tests/Lives.antt =====
-- The theorems on opening and closing connections at concrete ones.
use prefix_match_server.Prelude.{false, true, none, [], ◌∷◌, arith}
use prefix_match_server.Conn.State.{conn_new_cmd, ev_read_persist, data_buffer_size}
use prefix_match_server.Conn.Life.{Conns, Grants, conn_new}
use prefix_match_server.Conn.Life.Pooled.{IsPooled, Opens, Answers, conn_new-Opens}
use prefix_match_server.Tests.Machine.{expecting, expecting-Sound}

-- One connection is free.
abbrev one_free : Conns
one_free = record {
  conns = λ c. expecting;
  free_conns = record { conns = 7 ∷ []; freetotal = 200 };
}

-- No memory, but `event_add` succeeds.
abbrev grants : Grants
grants = record { calloc = none; mallocs = none; event_add = true; realloc = false }

one_free-IsPooled : IsPooled one_free
one_free-IsPooled = (
  record {
    sized = expecting-Sound.fits.sized;
    room = expecting-Sound.fits.room;
    small = expecting-Sound.fits.small;
  },
  tt,
)

conn_new-Opens_example :
    Opens (conn_new grants conn_new_cmd ev_read_persist data_buffer_size one_free)
    × Answers grants one_free
        (conn_new grants conn_new_cmd ev_read_persist data_buffer_size one_free).0
conn_new-Opens_example =
    conn_new-Opens grants ev_read_persist data_buffer_size one_free (omega arith) (omega arith) tt
      one_free-IsPooled
