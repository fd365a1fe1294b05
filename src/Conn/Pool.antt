-- ===== src/Conn/Pool.antt =====
-- The free connections of conn.cpp: `conn_init`, `conn_from_freelist` and `conn_add_to_freelist`.
pub mod Reuse
use prefix_match_server.Prelude.{
  ℕ, ◌*◌, Bool, true, false, Option, none, some, List, [], ◌∷◌, length, ltb, if◌then◌else◌,
}

-- `freeconns` up to `freecurr`, the last one first, and `freetotal`; a connection is a number.
pub record FreeConns : Type 0 where
  pub conns : List ℕ
  pub freetotal : ℕ

unfoldable pub conn_init : FreeConns
conn_init = record { conns = []; freetotal = 200 }

unfoldable pub from_stack : ℕ → List ℕ → Option ℕ × FreeConns
from_stack total [] = (none, record { conns = []; freetotal = total })
from_stack total (c ∷ conns) = (some c, record { conns = conns; freetotal = total })

unfoldable pub conn_from_freelist : FreeConns → Option ℕ × FreeConns
unfolding from_stack
conn_from_freelist s = from_stack s.freetotal s.conns

-- The return value is `false` for success; `alloc` says whether `realloc` succeeds.
unfoldable pub conn_add_to_freelist : FreeConns → ℕ → Bool → Bool × FreeConns
conn_add_to_freelist s c alloc =
    if ltb (length s.conns) s.freetotal
    then (false, record { conns = c ∷ s.conns; freetotal = s.freetotal })
    else if alloc
    then (false, record { conns = c ∷ s.conns; freetotal = s.freetotal * 2 })
    else (true, s)
