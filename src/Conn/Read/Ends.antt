-- ===== src/Conn/Read/Ends.antt =====
-- The rounds of `try_read_network`.
use prefix_match_server.Prelude.{
  ℕ, zero, suc, ◌+◌, ◌-◌, ◌*◌, ◌&&◌, false, ltb, subst, ◌≤◌, ◌<◌, ◌≡◌, refl, sym, ap, ◌∙◌, ◌⊎◌, inl,
  inr, some, [], ◌++◌, append-nil, arith, Bytes, leb, ◌==◌, if◌then◌else◌, length, Bool-cases,
}
use prefix_match_server.Conn.State.{
  Conn, World, Io, received, would_block, failed, head_flag, tail_flags, int_limit, read,
}
use prefix_match_server.Conn.Output.{out_string, add_msghdr, clear_messages}
use prefix_match_server.Conn.Read.{
  TryReadResult, read_data_received, read_no_data_received, read_error, read_memory_error, pack,
  grow, out_of_memory, store_read, read_once, read_loop, try_read_network, Reader,
}
use prefix_match_server.Conn.Read.Incoming.{
  incoming, got, incoming-read, no_bytes, Refused, Refused-head, Refused-tail,
}
use prefix_match_server.Conn.Read.Fits.{
  Fits, unread, Outcome, NoMemory, Ends, Front, bound-ge, store_read-Front, grow-Front, read-le,
  unchanged, Outcome-after, pack-Front,
}

pub Io-cases :
    (io : Io) → ((bytes : Bytes) × (io ≡ received bytes)) ⊎ (io ≡ would_block) ⊎ (io ≡ failed)
Io-cases (received bytes) = inl (bytes, refl)
Io-cases would_block = inr (inl refl)
Io-cases failed = inr (inr refl)

-- One `read` with room, if the next round ends when this one fills the buffer.
read_once-Ends :
    (k : ℕ) (again : Reader) (c : Conn) (w : World) (g : TryReadResult)
    → Front c
    → c.rbytes < c.rsize
    → ((bytes : Bytes) (w' : World)
        → length bytes ≡ c.rsize - c.rbytes
        → Ends k (store_read c bytes) w' (again (store_read c bytes) w' read_data_received))
    → Ends k c w (read_once again c w g)
unfolding read_once
read_once-Ends k again c w g front lt next = elim (Io-cases (read (c.rsize - c.rbytes) w.reads).0) [
  | inl (bytes, e) ↦
      let le = read-le (c.rsize - c.rbytes) w.reads bytes e in
      let s = store_read-Front c bytes front (omega (arith, le, lt)) in
      rw (e, read_once)
        (delivered bytes (record w { reads = (read (c.rsize - c.rbytes) w.reads).1 }) s
          (next bytes (record w { reads = (read (c.rsize - c.rbytes) w.reads).1 })) le (came e)
          (λ z. z))
  | inr (inl e) ↦ rw (e, read_once) (g, c, _, refl, unchanged k c w g _ front.0 (came e))
  | inr (inr e) ↦
      rw (e, read_once) (read_error, c, _, refl, unchanged k c w read_error _ front.0 (came e))
]
  where
    came :
        {io : Io}
        → (read (c.rsize - c.rbytes) w.reads).0 ≡ io
        → got io ++ incoming (read (c.rsize - c.rbytes) w.reads).1 ≡ incoming w.reads
    came e =
        subst (λ x. got x ++ incoming (read (c.rsize - c.rbytes) w.reads).1 ≡ incoming w.reads) e
          (incoming-read (c.rsize - c.rbytes) w.reads)

    delivered :
        (bytes : Bytes) (w' : World)
        → Front (store_read c bytes) × (unread (store_read c bytes) ≡ unread c ++ bytes)
        → (length bytes ≡ c.rsize - c.rbytes
            → Ends k (store_read c bytes) w' (again (store_read c bytes) w' read_data_received))
        → length bytes ≤ c.rsize - c.rbytes
        → bytes ++ incoming w'.reads ≡ incoming w.reads
        → (Refused w'.allocs → Refused w.allocs)
        → Ends k c w (
            if length bytes == 0
            then some (read_error, c, w')
            else if length bytes == c.rsize - c.rbytes
            then again (store_read c bytes) w' read_data_received
            else some (read_data_received, store_read c bytes, w'))
    delivered bytes w' s n le i z = elim (Bool-cases (length bytes == 0)) [
      | inl e ↦
          let none_came : incoming w'.reads ≡ incoming w.reads =
            subst (λ b. b ++ incoming w'.reads ≡ incoming w.reads) (no_bytes bytes (ground arith))
              i in
          rw e (read_error, c, w', refl, unchanged k c w read_error w' front.0 none_came)
      | inr e ↦ rw e (elim (Bool-cases (length bytes == c.rsize - c.rbytes)) [
        | inl e2 ↦ rw e2 (
            let (r, d, w'', eq, o) = n (ground arith) in
            (
              r,
              d,
              w'',
              eq,
              Outcome-after k k c w (store_read c bytes) w' d w'' bytes r
                  (unfold store_read in omega arith) s.1 i z o,
            ))
        | inr e2 ↦ rw e2 (
          read_data_received,
          store_read c bytes,
          w',
          refl,
          Outcome-after k k c w (store_read c bytes) w' (store_read c bytes) w' bytes
              read_data_received (unfold store_read in omega arith) s.1 i z
              (unchanged k (store_read c bytes) w' read_data_received w' s.0.0 refl),
        )
      ])
    ]

-- The read buffer is as it was.
abbrev pub SameBuffer : Conn → Conn → Type 0
SameBuffer c d =
    (d.rbuf ≡ c.rbuf) × (d.rcurr ≡ c.rcurr) × (d.rsize ≡ c.rsize) × (d.rbytes ≡ c.rbytes)

pub add_msghdr-SameBuffer : (c : Conn) (w : World) → SameBuffer c (add_msghdr c w).1
unfolding add_msghdr
add_msghdr-SameBuffer c w = elim (Bool-cases (c.msgsize == length c.messages)) [
  | inl e ↦ rw e (elim (Bool-cases (head_flag w.allocs)) [
    | inl e2 ↦ rw e2 (refl, refl, refl, refl)
    | inr e2 ↦ rw e2 (refl, refl, refl, refl)
  ])
  | inr e ↦ rw e (refl, refl, refl, refl)
]

Outcome-dropped :
    (k : ℕ) (c : Conn) (w : World) (d : Conn) (v : World)
    → Front c
    → NoMemory k c w
    → SameBuffer (record c { rbytes = 0 }) d
    → Outcome k c w read_memory_error d v
Outcome-dropped k c w d v (f, z) why (b, cu, si, by) = record {
  fits = record {
    sized = ap length b ∙ f.sized ∙ sym si;
    within = omega (arith, cu, by, z);
    room = omega (arith, si, f.room);
    small = omega (arith, si, f.small);
  };
  grown = omega (arith, si, bound-ge k c.rsize);
  appended = inl (refl, why);
}

out_of_memory-Ends :
    (k : ℕ) (c : Conn) (w v : World)
    → Front c
    → NoMemory k c w
    → Ends k c w (some (out_of_memory c v))
unfolding out_of_memory out_string clear_messages
out_of_memory-Ends k c w v f why = (
  _,
  _,
  _,
  refl,
  Outcome-dropped k c w _ _ f why
      (add_msghdr-SameBuffer (clear_messages (record c { rbytes = 0 })) v),
)

-- The rounds left are enough: one more than the growths, and two more if there is room.
abbrev Enough : ℕ → ℕ → Conn → Type 0
Enough fuel allocs c = (allocs + 1 ≤ fuel) × ((allocs + 2 ≤ fuel) ⊎ (c.rsize ≤ c.rbytes))

full-store_read :
    (c : Conn) (bytes : Bytes)
    → c.rbytes < c.rsize
    → length bytes ≡ c.rsize - c.rbytes
    → (store_read c bytes).rsize ≤ (store_read c bytes).rbytes
unfolding store_read
full-store_read c bytes lt h = omega arith

-- The rounds after a read that fills the buffer.
Enough-full :
    (fuel allocs : ℕ) (c : Conn) (bytes : Bytes)
    → c.rbytes < c.rsize
    → allocs + 1 ≤ fuel
    → length bytes ≡ c.rsize - c.rbytes
    → Enough fuel allocs (store_read c bytes)
Enough-full fuel allocs c bytes lt le eq = (le, inr (full-store_read c bytes lt eq))

-- A loop of a given fuel ends whenever that is enough.
abbrev LoopEnds : ℕ → ℕ → Type 0
LoopEnds fuel allocs =
    (c : Conn) (w : World) (g : TryReadResult)
    → Front c
    → Enough fuel allocs c
    → Ends allocs c w (read_loop fuel allocs c w g)

-- A round with room.
round-Ends :
    (fuel allocs : ℕ) (c : Conn) (w : World) (g : TryReadResult)
    → LoopEnds fuel allocs
    → Front c
    → c.rbytes < c.rsize
    → allocs + 1 ≤ fuel
    → Ends allocs c w (read_once (read_loop fuel allocs) c w g)
round-Ends fuel allocs c w g ih f lt le =
    read_once-Ends allocs (read_loop fuel allocs) c w g f lt (λ bytes w' eq.
      ih (store_read c bytes) w' read_data_received
        (store_read-Front c bytes f (omega (arith, lt, eq))).0
        (Enough-full fuel allocs c bytes lt le eq))

-- A round that grows the buffer.
grow-Ends :
    (fuel allocs : ℕ) (c : Conn) (w : World) (g : TryReadResult)
    → LoopEnds fuel allocs
    → Front c
    → c.rsize * 2 < int_limit
    → allocs + 1 ≤ fuel
    → Ends
        (suc allocs)
        c
        w
        (read_once (read_loop fuel allocs) (grow c) (record w { allocs = tail_flags w.allocs }) g)
grow-Ends fuel allocs c w g ih f less le =
    let (f', u) = grow-Front c f less in
    let v = record w { allocs = tail_flags w.allocs } in
    let (r, d, w', e, o) =
      round-Ends fuel allocs (grow c) v g ih f' (unfold grow in omega (arith, f.0.within, f.0.room))
        le in
    (
      r,
      d,
      w',
      e,
      Outcome-after allocs (suc allocs) c w (grow c) v d w' [] r (unfold grow in omega arith)
          (u ∙ sym (append-nil _)) refl (Refused-tail w.allocs) o,
    )

-- Why a growth is refused.
refused_growth :
    (allocs : ℕ) (c : Conn) (w : World)
    → head_flag w.allocs && ltb (c.rsize * 2) int_limit ≡ false
    → NoMemory (suc allocs) c w
refused_growth allocs c w e = elim (Bool-cases (head_flag w.allocs)) [
  | inr a ↦ inl (Refused-head w.allocs a)
  | inl a ↦ inr (ground (arith, bound-ge allocs (c.rsize * 2)))
]

read_loop-Ends : (fuel allocs : ℕ) → LoopEnds fuel allocs
unfolding read_loop
read_loop-Ends zero allocs c w g f (h, h2) = absurd (omega arith)
read_loop-Ends (suc fuel) zero c w g f (h, h2) = elim (Bool-cases (leb c.rsize c.rbytes)) [
  | inl e ↦ rw e (g, c, w, refl, unchanged zero c w g w f.0 refl)
  | inr e ↦
      rw e (round-Ends fuel zero c w g (read_loop-Ends fuel zero) f (ground arith) (ground arith))
]
read_loop-Ends (suc fuel) (suc allocs) c w g f (h, h2) = elim (Bool-cases (leb c.rsize c.rbytes)) [
  | inl e ↦ rw e (elim (Bool-cases (head_flag w.allocs && ltb (c.rsize * 2) int_limit)) [
    | inl e2 ↦
        rw e2
          (grow-Ends fuel allocs c w g (read_loop-Ends fuel allocs) f (ground arith) (omega arith))
    | inr e2 ↦ rw e2 (out_of_memory-Ends (suc allocs) c w _ f (refused_growth allocs c w e2))
  ])
  | inr e ↦ rw e (
      round-Ends fuel (suc allocs) c w g (read_loop-Ends fuel (suc allocs)) f (ground arith)
        (ground arith))
]

-- If the unread bytes lie within a buffer that is not empty and whose size is an int,
-- `try_read_network` returns; they then lie within such a buffer again, which has at most 16 times the
-- size; and the unread bytes are those from before with those behind them that `read` delivered, which
-- with those still to come are the ones that were to come; or it returns "memory error", and then an
-- allocation fails, or 16 times the size is no int.
pub try_read_network-Ends : (c : Conn) (w : World) → Fits c → Ends 4 c w (try_read_network c w)
unfolding try_read_network
try_read_network-Ends c w f =
    let (f', u, size) = pack-Front c f in
    let (r, d, w', e, o) =
      read_loop-Ends 6 4 (pack c) w read_no_data_received f' (omega arith, inl (omega arith)) in
    (
      r,
      d,
      w',
      e,
      Outcome-after 4 4 c w (pack c) w d w' [] r (omega (arith, size)) (u ∙ sym (append-nil _)) refl
          (λ z. z) o,
    )
