-- ===== src/Conn/Machine/Body.antt =====
-- The body of a request, from the turns that read it to `complete_nread`.
use prefix_match_server.Prelude.{
  ℕ, ◌+◌, ◌-◌, ◌<◌, ◌≡◌, refl, sym, ap, ◌∙◌, inl, inr, false, Option, List, [], ◌++◌, arith, Bytes,
  ltb, ◌==◌, length, take, drop, Bool-cases, append-nil, length-append, length-take,
  drop-length_append, subst,
}
use mathlib.Core.Path.{ap₂}
use prefix_match_server.Conn.State.{
  Conn, World, Io, received, would_block, failed, read, update_event, conn_nread, ev_read_persist,
}
use prefix_match_server.Conn.Command.Placed.{HasRoom, take_sub}
use prefix_match_server.Conn.Command.{item_value}
use prefix_match_server.Conn.Machine.{
  Turn, next_turn, stopped, closed, stuck, overrun, wait_for, copy_leftovers, store_item,
  after_read, read_item, on_nread,
}
use prefix_match_server.Conn.Machine.Bounds.{Leaves, Within, on_nread-HasRoom}
use prefix_match_server.Conn.Machine.Stream.{
  Moved, Moves, Moved-after, filled, stream, on_nread-Moves,
}

-- A turn leaves this connection and system, whether the loop goes on or waits.
abbrev pub Left : Conn → World → Turn → Type 0
Left d v (next_turn e u n) = (e ≡ d) × (u ≡ v)
Left d v (stopped e u n) = (e ≡ d) × (u ≡ v)
Left d v (closed e u) = ⊥
Left d v stuck = ⊥
Left d v overrun = ⊥

-- Turns that read the body, for as long as some of it is left.
pub data Arrives (get : Bytes → Option (List Bytes)) (c : Conn) (w : World)
    : Conn → World → Type 0 where
  here : Arrives get c w c w
  more :
      {d e : Conn} {v u : World} (n : ℕ)
      → Arrives get c w d v
      → 0 < d.rlbytes
      → Left e u (on_nread get d v n)
      → Arrives get c w e u

update_event-bodylen :
    (c : Conn) (flags : ℕ) (w : World) → (update_event c flags w).1.bodylen ≡ c.bodylen
unfolding update_event
update_event-bodylen c flags w = ground arith

after_read-bodylen :
    (c : Conn) (io : Io) (w : World) (n : ℕ)
    → Leaves (λ d. d.bodylen ≡ c.bodylen) (after_read (store_item c) conn_nread c io w n)
unfolding after_read wait_for store_item
after_read-bodylen c (received bytes) w n = elim (Bool-cases (length bytes == 0)) [
  | inl e ↦ rw e refl
  | inr e ↦ rw e refl
]
after_read-bodylen c would_block w n = elim (Bool-cases (update_event c ev_read_persist w).0) [
  | inl e ↦ rw e (update_event-bodylen c ev_read_persist w)
  | inr e ↦ rw e (update_event-bodylen c ev_read_persist w)
]
after_read-bodylen c failed w n = refl

on_nread-bodylen :
    (get : Bytes → Option (List Bytes)) (c : Conn) (w : World) (n : ℕ)
    → 0 < c.rlbytes
    → Leaves (λ d. d.bodylen ≡ c.bodylen) (on_nread get c w n)
unfolding on_nread read_item copy_leftovers
on_nread-bodylen get c w n pos =
    let e0 : (c.rlbytes == 0) ≡ false = ground arith in
    rw e0 (elim (Bool-cases (ltb 0 c.rbytes)) [
      | inr e ↦ rw e (after_read-bodylen c (read c.rlbytes w.reads).0 _ n)
      | inl e ↦ rw e (elim (Bool-cases ((copy_leftovers c).rlbytes == 0)) [
        | inl e2 ↦ rw e2 refl
        | inr e2 ↦
            rw e2 (
              after_read-bodylen (copy_leftovers c) (read (copy_leftovers c).rlbytes w.reads).0 _ n)
      ])
    ])

pub Leaves-Left :
    (P : Conn → Type 0) (d : Conn) (v : World) (t : Turn) → Left d v t → Leaves P t → P d
Leaves-Left P d v (next_turn e u n) (h, k) p = subst P h p
Leaves-Left P d v (stopped e u n) (h, k) p = subst P h p
Leaves-Left P d v (closed e u) h p = absurd h
Leaves-Left P d v stuck h p = absurd h
Leaves-Left P d v overrun h p = absurd h

Moves-Left :
    (body str : Bytes) (d : Conn) (v : World) (t : Turn)
    → Left d v t
    → Moves body str t
    → Moved body str d v
Moves-Left body str d v (next_turn e u n) (h, k) p =
    subst (λ x. Moved body str d x) k (subst (λ x. Moved body str x u) h p)
Moves-Left body str d v (stopped e u n) (h, k) p =
    subst (λ x. Moved body str d x) k (subst (λ x. Moved body str x u) h p)
Moves-Left body str d v (closed e u) h p = absurd h
Moves-Left body str d v stuck h p = absurd h
Moves-Left body str d v overrun h p = absurd h

-- What has arrived is in the buffer, and the rest of the body has room.
pub Arrives-Moved :
    (get : Bytes → Option (List Bytes)) (c : Conn) (w : World) {d : Conn} {v : World}
    → HasRoom c
    → Arrives get c w d v
    → Within (c.ritem + c.rlbytes) d × Moved (filled c) (stream c w) d v × (d.bodylen ≡ c.bodylen)
Arrives-Moved get c w h here = ((h, refl), ([], sym (append-nil _), refl), refl)
Arrives-Moved get c w {d = e} {v = u} h (more {d = d} {v = v} n r pos l) =
    let (wi, m, b) = Arrives-Moved get c w h r in
    let wi' =
      Leaves-Left (Within (d.ritem + d.rlbytes)) e u (on_nread get d v n) l
        (on_nread-HasRoom get d v n wi.0 pos) in
    let m' =
      Moves-Left (filled d) (stream d v) e u (on_nread get d v n) l
        (on_nread-Moves get d v n wi.0 pos) in
    let b' =
      Leaves-Left (λ x. x.bodylen ≡ d.bodylen) e u (on_nread get d v n) l
        (on_nread-bodylen get d v n pos) in
    ((wi'.0, wi'.1 ∙ wi.1), Moved-after d v e u (filled c) (stream c w) m m', b' ∙ b)

-- For a connection that is to read a body, of which nothing has arrived, with room for it: after any
-- turns that read until none of it is left, what `complete_nread` takes for the body is the next
-- bytes of the stream, as many as the header announced, and the rest of the stream is left.
pub item_value-Arrives :
    (get : Bytes → Option (List Bytes)) (c : Conn) (w : World) (d : Conn) (v : World)
    → HasRoom c
    → c.rlbytes ≡ c.bodylen
    → Arrives get c w d v
    → d.rlbytes ≡ 0
    → (length (take d.bodylen (item_value d)) ≡ c.bodylen)
      × (take d.bodylen (item_value d) ++ stream d v ≡ stream c w)
unfolding item_value
item_value-Arrives get c w d v h all r none_left =
    let (wi, (bytes, f, s), b) = Arrives-Moved get c w h r in
    let lc : length (filled c) ≡ c.ritem =
      omega (arith, length-take c.ritem c.rbuf, h.fits.sized, h.room) in
    let ld : length (filled d) ≡ d.ritem =
      omega (arith, length-take d.ritem d.rbuf, wi.0.fits.sized, wi.0.room) in
    let lb : length bytes ≡ c.bodylen =
      omega (arith, lc, ld, ap length f, length-append (filled c) bytes, wi.1, none_left, all) in
    let start : d.ritem - d.bodylen ≡ length (filled c) =
      omega (arith, lc, b, wi.1, none_left, all) in
    let n : d.bodylen ≡ d.ritem - (d.ritem - d.bodylen) = omega (arith, b, wi.1, none_left, all) in
    let e : take d.bodylen (item_value d) ≡ bytes =
      ap (λ k. take k (drop (d.ritem - d.bodylen) d.rbuf)) n
      ∙ take_sub d.ritem (d.ritem - d.bodylen) d.rbuf
      ∙ ap₂ drop start f
      ∙ drop-length_append (filled c) bytes in
    (ap length e ∙ lb, ap (λ x. x ++ stream d v) e ∙ s)
