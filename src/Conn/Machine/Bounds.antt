-- ===== src/Conn/Machine/Bounds.antt =====
-- The state `conn_nread` and the bounds of the read buffer.
use prefix_match_server.Prelude.{
  ℕ, ◌+◌, ◌≤◌, ◌<◌, ◌≡◌, refl, ◌∙◌, inl, inr, true, false, Option, List, arith, Bytes, ltb, ◌==◌,
  length, Bool-cases,
}
use prefix_match_server.Conn.State.{
  ConnStates, conn_nread, conn_closing, Conn, World, Io, received, would_block, failed, read,
  conn_set_state, update_event, ev_read_persist, head_flag,
}
use prefix_match_server.Conn.Read.Fits.{length-write_at, read-le}
use prefix_match_server.Conn.Command.Placed.{HasRoom}
use prefix_match_server.Conn.Machine.{
  Turn, next_turn, stopped, closed, stuck, overrun, wait_for, copy_leftovers, store_item,
  after_read, read_item, on_nread,
}

-- A property of the connection that a turn leaves.
abbrev pub Leaves : (Conn → Type 0) → Turn → Type 0
Leaves P (next_turn d w n) = P d
Leaves P (stopped d w n) = P d
Leaves P (closed d w) = P d
Leaves P stuck = ⊥
Leaves P overrun = ⊥

-- The body has room, and ends where it is to end.
abbrev pub Within : ℕ → Conn → Type 0
Within end d = HasRoom d × (d.ritem + d.rlbytes ≡ end)

pub copy_leftovers-Within : (end : ℕ) (c : Conn) → Within end c → Within end (copy_leftovers c)
unfolding copy_leftovers
copy_leftovers-Within end c (h, e) =
    let at : (c.ritem == c.rcurr) ≡ true = ground (arith, h.at_rcurr) in
    let p = h.fits in
    (
      record {
        fits = record {
          sized = rw at p.sized;
          within = ground (arith, p.within);
          room = p.room;
          small = p.small;
        };
        at_rcurr = ground (arith, h.at_rcurr);
        room = ground (arith, h.room);
      },
      ground (arith, e),
    )

pub no_leftovers :
    (c : Conn) → ((copy_leftovers c).rlbytes == 0) ≡ false → (copy_leftovers c).rbytes ≡ 0
unfolding copy_leftovers
no_leftovers c h = ground arith

pub store_item-Within :
    (end : ℕ) (c : Conn) (bytes : Bytes)
    → Within end c
    → c.rbytes ≡ 0
    → length bytes ≤ c.rlbytes
    → Within end (store_item c bytes)
unfolding store_item
store_item-Within end c bytes (h, e) z le =
    let at : (c.rcurr == c.ritem) ≡ true = ground (arith, h.at_rcurr) in
    (
      rw at record {
        fits = record {
          sized =
              length-write_at c.rbuf bytes c.ritem (omega (arith, h.room, h.fits.sized))
              ∙ h.fits.sized;
          within = omega (arith, h.at_rcurr, h.room);
          room = h.fits.room;
          small = h.fits.small;
        };
        at_rcurr = omega (arith, h.at_rcurr);
        room = omega (arith, h.room);
      },
      omega (arith, e),
    )

pub set_state-Within :
    (end : ℕ) (c : Conn) (s : ConnStates) → Within end c → Within end (conn_set_state c s)
set_state-Within end c s (h, e) = (
  record {
    fits = record {
      sized = h.fits.sized;
      within = h.fits.within;
      room = h.fits.room;
      small = h.fits.small;
    };
    at_rcurr = h.at_rcurr;
    room = h.room;
  },
  e,
)

pub update_event-Within :
    (end : ℕ) (c : Conn) (flags : ℕ) (w : World)
    → Within end c
    → Within end (update_event c flags w).1
unfolding update_event
update_event-Within end c flags w (h, e) = elim (Bool-cases (c.ev_flags == flags)) [
  | inl e1 ↦ rw e1 (h, e)
  | inr e1 ↦
      rw e1 (elim (Bool-cases (head_flag w.events)) [ inl e2 ↦ rw e2 kept | inr e2 ↦ rw e2 (h, e) ])
]
  where
    kept : Within end (record c { ev_flags = flags })
    kept = (
      record {
        fits = record {
          sized = h.fits.sized;
          within = h.fits.within;
          room = h.fits.room;
          small = h.fits.small;
        };
        at_rcurr = h.at_rcurr;
        room = h.room;
      },
      e,
    )

wait_for-Within :
    (end : ℕ) (s : ConnStates) (flags : ℕ) (c : Conn) (w : World) (n : ℕ)
    → Within end c
    → Leaves (Within end) (wait_for s flags c w n)
unfolding wait_for
wait_for-Within end s flags c w n h = elim (Bool-cases (update_event c flags w).0) [
  | inl e ↦ rw e (set_state-Within end _ s (update_event-Within end c flags w h))
  | inr e ↦ rw e (set_state-Within end _ conn_closing (update_event-Within end c flags w h))
]

after_read-Within :
    (end : ℕ) (c : Conn) (io : Io) (w : World) (n : ℕ)
    → Within end c
    → c.rbytes ≡ 0
    → ((bytes : Bytes) → io ≡ received bytes → length bytes ≤ c.rlbytes)
    → Leaves (Within end) (after_read (store_item c) conn_nread c io w n)
unfolding after_read
after_read-Within end c (received bytes) w n h z le = elim (Bool-cases (length bytes == 0)) [
  | inl e ↦ rw e (set_state-Within end c conn_closing h)
  | inr e ↦ rw e (store_item-Within end c bytes h z (le bytes refl))
]
after_read-Within end c would_block w n h z le =
    wait_for-Within end conn_nread ev_read_persist c w n h
after_read-Within end c failed w n h z le = set_state-Within end c conn_closing h

read_item-Within :
    (end : ℕ) (c : Conn) (w : World) (n : ℕ)
    → Within end c
    → c.rbytes ≡ 0
    → Leaves (Within end) (read_item c w n)
unfolding read_item
read_item-Within end c w n h z =
    after_read-Within end c (read c.rlbytes w.reads).0 _ n h z
      (λ bytes e. read-le c.rlbytes w.reads bytes e)

-- For a connection whose body goes to where the unread bytes begin and has room in the buffer, and
-- of whose body some is left to read: a turn in `conn_nread` keeps that so, and the place where the
-- body ends does not move.
pub on_nread-HasRoom :
    (get : Bytes → Option (List Bytes)) (c : Conn) (w : World) (nreqs : ℕ)
    → HasRoom c
    → 0 < c.rlbytes
    → Leaves (Within (c.ritem + c.rlbytes)) (on_nread get c w nreqs)
unfolding on_nread
on_nread-HasRoom get c w n h pos =
    let e0 : (c.rlbytes == 0) ≡ false = ground arith in
    rw e0 (elim (Bool-cases (ltb 0 c.rbytes)) [
      | inr e ↦ rw e (read_item-Within end c w n (h, refl) (ground arith))
      | inl e ↦ rw e (elim (Bool-cases ((copy_leftovers c).rlbytes == 0)) [
        | inl e2 ↦ rw e2 (copy_leftovers-Within end c (h, refl))
        | inr e2 ↦ rw e2 (
            read_item-Within end (copy_leftovers c) w n (copy_leftovers-Within end c (h, refl))
              (no_leftovers c e2))
      ])
    ])
  where
    end : ℕ
    end = c.ritem + c.rlbytes
