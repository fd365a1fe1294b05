-- ===== src/Conn/Read/Fits.antt =====
-- The read buffer and its unread bytes in the steps of `try_read_network`.
use prefix_match_server.Prelude.{
  ℕ, zero, suc, ◌+◌, ◌*◌, ◌≤◌, ◌<◌, ◌≡◌, refl, sym, ap, ◌∙◌, ◌⊎◌, inl, inr, Option, some, List, [],
  ◌∷◌, ◌++◌, append-nil, append_assoc, arith, Bytes, ◌==◌, length, take, drop, replicate,
  Bool-cases, length-append, length-take, length-drop, length-replicate, take-length_append,
}
use prefix_match_server.Conn.State.{
  int_limit, Conn, World, Io, received, would_block, failed, read, move, write_at,
}
use prefix_match_server.Conn.Read.Incoming.{incoming, Refused}
use prefix_match_server.Conn.Read.{TryReadResult, read_memory_error, pack, grow, store_read}

-- The unread bytes lie within the buffer, which has room, and its size is an int.
pub record Fits (c : Conn) : Type 0 where
  pub sized : length c.rbuf ≡ c.rsize
  pub within : c.rcurr + c.rbytes ≤ c.rsize
  pub room : 0 < c.rsize
  pub small : c.rsize < int_limit

-- The unread bytes.
abbrev pub unread : Conn → Bytes
unread c = take c.rbytes (drop c.rcurr c.rbuf)

-- A size that is doubled at most so many times.
abbrev pub bound : ℕ → ℕ → ℕ
bound zero n = n
bound (suc k) n = bound k (n * 2)

pub bound-ge : (k n : ℕ) → n ≤ bound k n
bound-ge zero n = omega arith
bound-ge (suc k) n = omega (arith, bound-ge k (n * 2))

pub take-append : (n : ℕ) (xs ys : Bytes) → n ≤ length xs → take n (xs ++ ys) ≡ take n xs
take-append zero xs ys h = refl
take-append (suc n) [] ys h = absurd (omega arith)
take-append (suc n) (x ∷ xs) ys h = ap (◌∷◌ x) (take-append n xs ys (omega arith))

-- Bytes written behind the first `n`.
pub take-write_at :
    (buf bytes : Bytes) (n : ℕ)
    → n + length bytes ≤ length buf
    → take (n + length bytes) (write_at buf n bytes) ≡ take n buf ++ bytes
unfolding write_at
take-write_at buf bytes n h =
    ap (take (n + length bytes)) (sym (append_assoc (take n buf) bytes _))
    ∙ ap (λ k. take k (take n buf ++ bytes ++ drop (n + length bytes) buf)) size
    ∙ take-length_append (take n buf ++ bytes) _
  where
    size : n + length bytes ≡ length (take n buf ++ bytes)
    size = omega (arith, length-append (take n buf) bytes, length-take n buf)

pub length-write_at :
    (buf bytes : Bytes) (n : ℕ)
    → n + length bytes ≤ length buf
    → length (write_at buf n bytes) ≡ length buf
unfolding write_at
length-write_at buf bytes n h = omega (
  arith,
  length-append (take n buf) (bytes ++ drop (n + length bytes) buf),
  length-append bytes (drop (n + length bytes) buf),
  length-take n buf,
  length-drop (n + length bytes) buf,
)

-- An allocation fails, or a size that is doubled at most `k` times is no int.
abbrev pub NoMemory : ℕ → Conn → World → Type 0
NoMemory k c w = Refused w.allocs ⊎ (int_limit ≤ bound k c.rsize)

-- What a read brings the caller, `k` more growths allowed: bytes that `read` delivers go behind those
-- that are unread, and the other ones are still to come.
pub record Outcome (k : ℕ) (c : Conn) (w : World) (r : TryReadResult) (d : Conn) (v : World)
    : Type 0 where
  pub fits : Fits d
  pub grown : d.rsize ≤ bound k c.rsize
  pub appended :
      ((r ≡ read_memory_error) × NoMemory k c w)
      ⊎ ((bytes : Bytes) × (unread d ≡ unread c ++ bytes)
          × (bytes ++ incoming v.reads ≡ incoming w.reads))

abbrev pub Ends : ℕ → Conn → World → Option (TryReadResult × Conn × World) → Type 0
Ends k c w o =
    (r : TryReadResult) × (d : Conn) × (v : World) × (o ≡ some (r, d, v)) × Outcome k c w r d v

-- Ready to read: the unread bytes are at the front.
abbrev pub Front : Conn → Type 0
Front c = Fits c × (c.rcurr ≡ 0)

pub store_read-Front :
    (c : Conn) (bytes : Bytes)
    → Front c
    → c.rbytes + length bytes ≤ c.rsize
    → Front (store_read c bytes) × (unread (store_read c bytes) ≡ unread c ++ bytes)
unfolding store_read
store_read-Front c bytes (f, z) h = (
  (
    record {
      sized = length-write_at c.rbuf bytes c.rbytes (omega (arith, f.sized)) ∙ f.sized;
      within = omega arith;
      room = f.room;
      small = f.small;
    },
    z,
  ),
  rw z (take-write_at c.rbuf bytes c.rbytes (omega (arith, f.sized))),
)

pub grow-Front :
    (c : Conn) → Front c → c.rsize * 2 < int_limit → Front (grow c) × (unread (grow c) ≡ unread c)
unfolding grow
grow-Front c (f, z) less = (
  (
    record {
      sized = omega (
        arith,
        length-append c.rbuf (replicate c.rsize 0),
        length-replicate {A = ℕ} c.rsize 0,
        f.sized,
      );
      within = omega (arith, f.within);
      room = omega (arith, f.room);
      small = less;
    },
    refl,
  ),
  rw z (take-append c.rbytes c.rbuf (replicate c.rsize 0) (omega (arith, f.sized, f.within))),
)

pub read-le :
    (avail : ℕ) (ios : List Io) (bytes : Bytes)
    → (read avail ios).0 ≡ received bytes
    → length bytes ≤ avail
unfolding read
read-le avail [] bytes h = absurd (cc)
read-le avail (received b ∷ ios) bytes h =
    let e : take avail b ≡ bytes = cc in omega (arith, ap length e, length-take avail b)
read-le avail (would_block ∷ ios) bytes h = absurd (cc)
read-le avail (failed ∷ ios) bytes h = absurd (cc)

-- Nothing was read.
pub unchanged :
    (k : ℕ) (c : Conn) (w : World) (r : TryReadResult) (v : World)
    → Fits c
    → incoming v.reads ≡ incoming w.reads
    → Outcome k c w r c v
unchanged k c w r v f i = record {
  fits = f;
  grown = bound-ge k c.rsize;
  appended = inr ([], sym (append-nil _), i);
}

-- What comes after a read adds to it.
pub Outcome-after :
    (j k : ℕ) (c : Conn) (w : World) (d : Conn) (v : World) (e : Conn) (x : World) (bytes : Bytes)
    (r : TryReadResult)
    → bound j d.rsize ≤ bound k c.rsize
    → unread d ≡ unread c ++ bytes
    → bytes ++ incoming v.reads ≡ incoming w.reads
    → (Refused v.allocs → Refused w.allocs)
    → Outcome j d v r e x
    → Outcome k c w r e x
Outcome-after j k c w d v e x bytes r le u i refused o = record {
  fits = o.fits;
  grown = omega (arith, o.grown);
  appended = elim o.appended [
    | inl (m, why) ↦ inl (m, elim why [ inl z ↦ inl (refused z) | inr z ↦ inr (omega arith) ])
    | inr (more, h, i') ↦ inr (
      bytes ++ more,
      h ∙ ap (λ b. b ++ more) u ∙ append_assoc (unread c) bytes more,
      append_assoc bytes more (incoming x.reads) ∙ ap (◌++◌ bytes) i' ∙ i,
    )
  ];
}

-- `memmove` to the front.
move_to_front :
    (buf : Bytes) (from n : ℕ) → move buf 0 from n ≡ take n (drop from buf) ++ drop n buf
unfolding move
move_to_front buf from n = ap (λ k. take n (drop from buf) ++ drop k buf) (omega arith)

pub length-move :
    (buf : Bytes) (from n : ℕ) → from + n ≤ length buf → length (move buf 0 from n) ≡ length buf
length-move buf from n h = omega (
  arith,
  ap length (move_to_front buf from n),
  length-append (take n (drop from buf)) (drop n buf),
  length-take n (drop from buf),
  length-drop from buf,
  length-drop n buf,
)

pub take-move :
    (buf : Bytes) (from n : ℕ)
    → from + n ≤ length buf
    → take n (move buf 0 from n) ≡ take n (drop from buf)
take-move buf from n h =
    ap (take n) (move_to_front buf from n)
    ∙ ap (λ k. take k (take n (drop from buf) ++ drop n buf)) size
    ∙ take-length_append (take n (drop from buf)) (drop n buf)
  where
    size : n ≡ length (take n (drop from buf))
    size = omega (arith, length-take n (drop from buf), length-drop from buf)

pub pack-Front :
    (c : Conn) → Fits c → Front (pack c) × (unread (pack c) ≡ unread c) × ((pack c).rsize ≡ c.rsize)
unfolding pack
pack-Front c f = elim (Bool-cases (c.rcurr == 0)) [
  | inl e ↦ rw e ((f, ground arith), refl, refl)
  | inr e ↦ rw e (elim (Bool-cases (c.rbytes == 0)) [
    | inl e2 ↦
        let z : c.rbytes ≡ 0 = ground arith in
        rw e2 (
          (
            record {
              sized = f.sized;
              within = omega (arith, f.within);
              room = f.room;
              small = f.small;
            },
            refl,
          ),
          rw z refl,
          refl,
        )
    | inr e2 ↦ rw e2 (
      (
        record {
          sized = length-move c.rbuf c.rcurr c.rbytes (omega (arith, f.within, f.sized)) ∙ f.sized;
          within = omega (arith, f.within);
          room = f.room;
          small = f.small;
        },
        refl,
      ),
      take-move c.rbuf c.rcurr c.rbytes (omega (arith, f.within, f.sized)),
      refl,
    )
  ])
]
