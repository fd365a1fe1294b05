-- ===== src/Conn/Machine/Sound.antt =====
-- What holds of a connection between the turns of `drive_machine`, and how parts of turns keep it.
pub mod Input
pub mod Reading
pub mod Turns
pub mod Writing
use prefix_match_server.Prelude.{
  ℕ, ◌^◌, zero, suc, ◌+◌, ◌-◌, ◌≤◌, ◌<◌, ◌≡◌, ◌≢◌, refl, ap, sym, ◌∙◌, ◌⊎◌, inl, inr, Bool, true,
  false, ◌&&◌, Option, none, some, List, [], ◌∷◌, ◌++◌, arith, tests, Bytes, ltb, leb, ◌==◌,
  if◌then◌else◌, length, take, drop, Bool-cases, length-take, subst,
}
use prefix_match_server.Wire.Response.{reply_length}
use prefix_match_server.Conn.State.{
  int_limit, ConnStates, conn_listening, conn_new_cmd, conn_waiting, conn_read, conn_parse_cmd,
  conn_write, conn_nread, conn_swallow, conn_closing, conn_mwrite, conn_max_state, Conn, World, Io,
  received, would_block, failed, update_event, conn_set_state, head_flag, data_buffer_size,
  read_buffer_highwat, move,
}
use prefix_match_server.Conn.Read.{shrink_rbuf, move_front}
use prefix_match_server.Conn.Read.Fits.{Fits, length-move}
use prefix_match_server.Conn.Read.Ends.{SameBuffer}
use prefix_match_server.Conn.Command.{
  header_size, read_header, asked_key, shrink_msglist, shrink_iov, conn_shrink, reset_cmd_handler,
}
use prefix_match_server.Conn.Command.Placed.{HasRoom}
use prefix_match_server.Conn.Command.Parses.{Fits-same}
use prefix_match_server.Conn.Machine.{
  Turn, next_turn, stopped, closed, stuck, overrun, wait_for, after_read,
}
use prefix_match_server.Conn.Machine.Untouched.{Same, Same-trans, Same-refl, update_event-Same}

-- The states that a write may lead to.
abbrev pub Goes : ConnStates → Type 0
Goes s = (s ≡ conn_new_cmd) ⊎ (s ≡ conn_closing)

-- The states of a client.
abbrev pub IsClient : ConnStates → Type 0
IsClient s = (s ≢ conn_listening) × (s ≢ conn_max_state)

-- The read buffer is in bounds, also while a body is read.
pub record Sound (c : Conn) : Type 0 where
  pub fits : Fits c
  pub client : IsClient c.state
  pub goes : Goes c.write_and_go
  pub reading : c.state ≡ conn_nread → HasRoom c

-- The client's states but `conn_nread`.
abbrev pub Quiet : ConnStates → Type 0
Quiet conn_listening = ⊥
Quiet conn_max_state = ⊥
Quiet conn_nread = ⊥
Quiet conn_new_cmd = Unit {0}
Quiet conn_waiting = Unit {0}
Quiet conn_read = Unit {0}
Quiet conn_parse_cmd = Unit {0}
Quiet conn_write = Unit {0}
Quiet conn_swallow = Unit {0}
Quiet conn_closing = Unit {0}
Quiet conn_mwrite = Unit {0}

pub Quiet-Sound : (d : Conn) → Fits d → Quiet d.state → Goes d.write_and_go → Sound d
Quiet-Sound d f q g = record {
  fits = f;
  client = ((λ e. subst Quiet e q), (λ e. subst Quiet e q));
  goes = g;
  reading = λ e. absurd (subst Quiet e q);
}

-- A connection with the buffer of another.
pub same-Sound :
    (c d : Conn) → Fits c → SameBuffer c d → Quiet d.state → Goes d.write_and_go → Sound d
same-Sound c d f b q g = Quiet-Sound d (Fits-same c d f b).0 q g

-- What a turn leaves is sound; it overruns only for a given reason.
abbrev pub Keeps : Type 0 → Turn → Type 0
Keeps why (next_turn d w n) = Sound d
Keeps why (stopped d w n) = Sound d
Keeps why (closed d w) = Sound d
Keeps why stuck = ⊥
Keeps why overrun = why

-- A header announces a long body, or `Get` finds a long answer.
abbrev pub Overlong : (Bytes → Option (List Bytes)) → Conn → Type 0
Overlong get c =
    ((c.state ≡ conn_parse_cmd) × (2 ^ 30 < (read_header c).bodylen + header_size))
    ⊎ ((c.state ≡ conn_nread)
        × (res : List Bytes) × (get (asked_key c) ≡ some res)
        × (2 ^ 32 ≤ reply_length res 4 + 1))

pub Fits-state : (c : Conn) (s : ConnStates) → Fits c → Fits (conn_set_state c s)
Fits-state c s f = record { sized = f.sized; within = f.within; room = f.room; small = f.small }

pub wait_for-Keeps :
    (o : Type 0) (s : ConnStates) (flags : ℕ) (c : Conn) (w : World) (n : ℕ)
    → Fits c
    → Goes c.write_and_go
    → Quiet s
    → Keeps o (wait_for s flags c w n)
unfolding wait_for
wait_for-Keeps o s flags c w n f g q =
    let d = (update_event c flags w).1 in
    let (b, st, go) = update_event-Same c flags w in
    let g' = subst Goes (sym go) g in
    let f' = (Fits-same c d f b).0 in
    elim (Bool-cases (update_event c flags w).0) [
      | inl e ↦ rw e (Quiet-Sound (conn_set_state d s) (Fits-state d s f') q g')
      | inr e ↦
          rw e (Quiet-Sound (conn_set_state d conn_closing) (Fits-state d conn_closing f') tt g')
    ]

Fits-move_front : (c : Conn) → Fits c → Fits (record (move_front c) { rcurr = 0 })
unfolding move_front
Fits-move_front c f = elim (Bool-cases (c.rcurr == 0)) [
  | inl e ↦
      rw e (record {
        sized = f.sized;
        within = omega (arith, f.within);
        room = f.room;
        small = f.small;
      })
  | inr e ↦ rw e (record {
    sized = length-move c.rbuf c.rcurr c.rbytes (omega (arith, f.within, f.sized)) ∙ f.sized;
    within = omega (arith, f.within);
    room = f.room;
    small = f.small;
  })
]

move_front-Same :
    (c : Conn)
    → ((move_front c).state ≡ c.state)
      × ((move_front c).write_and_go ≡ c.write_and_go)
      × ((move_front c).rsize ≡ c.rsize)
      × ((move_front c).rbytes ≡ c.rbytes)
unfolding move_front
move_front-Same c = ground arith

Fits-shrink_rbuf : (c : Conn) (w : World) → Fits c → Fits (shrink_rbuf c w).0
unfolding shrink_rbuf
Fits-shrink_rbuf c w f =
    elim (Bool-cases (ltb read_buffer_highwat c.rsize && ltb c.rbytes data_buffer_size)) [
      | inr e ↦ rw e f
      | inl e ↦ rw e (elim (Bool-cases (head_flag w.allocs)) [
        | inr e2 ↦ rw e2 (Fits-move_front c f)
        | inl e2 ↦ rw e2 (
            let g = Fits-move_front c f in
            let m = move_front-Same c in
            record {
              sized =
                  omega
                    (arith, length-take data_buffer_size (move_front c).rbuf, g.sized, m.2, big e);
              within = omega (arith, m.3, small e);
              room = omega arith;
              small = omega arith;
            })
      ])
    ]
  where
    big :
        ltb read_buffer_highwat c.rsize && ltb c.rbytes data_buffer_size ≡ true
        → read_buffer_highwat < c.rsize
    big e = ground arith

    small :
        ltb read_buffer_highwat c.rsize && ltb c.rbytes data_buffer_size ≡ true
        → c.rbytes < data_buffer_size
    small e = ground arith

shrink_rbuf-go : (c : Conn) (w : World) → (shrink_rbuf c w).0.write_and_go ≡ c.write_and_go
unfolding shrink_rbuf
shrink_rbuf-go c w =
    elim (Bool-cases (ltb read_buffer_highwat c.rsize && ltb c.rbytes data_buffer_size)) [
      | inr e ↦ rw e refl
      | inl e ↦ rw e (elim (Bool-cases (head_flag w.allocs)) [
        | inl e2 ↦ rw e2 (move_front-Same c).1
        | inr e2 ↦ rw e2 (move_front-Same c).1
      ])
    ]

shrink_msglist-Same : (p : Conn × World) → Same p.0 (shrink_msglist p).0
unfolding shrink_msglist
shrink_msglist-Same (c, w) = ground arith

shrink_iov-Same : (p : Conn × World) → Same p.0 (shrink_iov p).0
unfolding shrink_iov
shrink_iov-Same (c, w) = ground arith

pub reset_cmd_handler-Sound : (c : Conn) (w : World) → Sound c → Sound (reset_cmd_handler c w).0
unfolding reset_cmd_handler conn_shrink
reset_cmd_handler-Sound c w h =
    let p = shrink_rbuf c w in
    let q = shrink_msglist p in
    let (b, st, go) =
      Same-trans p.0 q.0 (shrink_iov q).0 (shrink_msglist-Same p) (shrink_iov-Same q) in
    let f = (Fits-same p.0 (shrink_iov q).0 (Fits-shrink_rbuf c w h.fits) b).0 in
    let s : ConnStates = if ltb 0 (shrink_iov q).0.rbytes then conn_parse_cmd else conn_waiting in
    Quiet-Sound (conn_set_state (shrink_iov q).0 s) (Fits-state (shrink_iov q).0 s f)
      (quiet (ltb 0 (shrink_iov q).0.rbytes)) (subst Goes (sym (go ∙ shrink_rbuf-go c w)) h.goes)
  where
    quiet : (b : Bool) → Quiet (if b then conn_parse_cmd else conn_waiting)
    quiet true = tt
    quiet false = tt
