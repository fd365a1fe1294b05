-- ===== src/Conn/Command/Placed.antt =====
-- The room in the buffer for the body of a request, by `bin_read_key`.
use prefix_match_server.Prelude.{
  ◌^◌, false, ℕ, zero, suc, ◌+◌, ◌-◌, ◌*◌, ◌≤◌, ◌<◌, ◌≡◌, refl, sym, ap, ◌∙◌, ◌⊎◌, inl, inr, [],
  ◌∷◌, arith, Bytes, ltb, ◌==◌, take, drop, replicate, Bool-cases, length-append, length-drop,
  length-replicate,
}
use prefix_match_server.Conn.State.{int_limit, Conn, World, conn_nread, conn_closing, head_flag}
use prefix_match_server.Conn.Output.Sent.{drop-append, drop-nil}
use prefix_match_server.Conn.Read.Fits.{Fits, unread, length-move, take-move, take-append}
use prefix_match_server.Conn.Command.{
  header_size, double_to, enlarge, repack, expect_body, place_body, leaves_int, grown_size,
  pass_header,
}

-- While a body is read, it goes to where the unread bytes begin, and the rest of it has room.
pub record HasRoom (c : Conn) : Type 0 where
  pub fits : Fits c
  pub at_rcurr : c.ritem ≡ c.rcurr
  pub room : c.ritem + c.rlbytes ≤ c.rsize

pub drop_add : (n k : ℕ) (xs : Bytes) → drop (n + k) xs ≡ drop k (drop n xs)
drop_add zero k xs = let e : zero + k ≡ k = omega arith in ap (λ m. drop m xs) e
drop_add (suc n) k [] = drop-nil (suc n + k) ∙ sym (drop-nil k)
drop_add (suc n) k (x ∷ xs) =
    let e : suc n + k ≡ suc (n + k) = omega arith in ap (λ m. drop m (x ∷ xs)) e ∙ drop_add n k xs

take-nil : (n : ℕ) → take {A = ℕ} n [] ≡ []
take-nil zero = refl
take-nil (suc n) = refl

pub take_sub : (n k : ℕ) (xs : Bytes) → take (n - k) (drop k xs) ≡ drop k (take n xs)
take_sub n zero xs = let e : n - zero ≡ n = omega arith in ap (λ m. take m xs) e
take_sub zero (suc k) xs =
    let e : zero - suc k ≡ zero = omega arith in ap (λ m. take m (drop (suc k) xs)) e
take_sub (suc n) (suc k) [] = take-nil (suc n - suc k)
take_sub (suc n) (suc k) (x ∷ xs) =
    let e : suc n - suc k ≡ n - k = omega arith in ap (λ m. take m (drop k xs)) e ∙ take_sub n k xs

pub double_to-ge :
    (fuel size n : ℕ)
    → 0 < n
    → size ≤ n + fuel
    → (size ≤ double_to fuel size n) × (n ≤ double_to fuel size n)
unfolding double_to
double_to-ge zero size n h le = (omega arith, omega arith)
double_to-ge (suc fuel) size n h le = elim (Bool-cases (ltb n size)) [
  | inl e ↦
      rw e (
        let (a, b) = double_to-ge fuel size (n * 2) (omega arith) (omega arith) in (a, omega arith))
  | inr e ↦ rw e (ground arith, omega arith)
]

pub double_to-le :
    (fuel size n : ℕ) → n < int_limit → size * 2 ≤ int_limit → double_to fuel size n < int_limit
unfolding double_to
double_to-le zero size n h le = h
double_to-le (suc fuel) size n h le = elim (Bool-cases (ltb n size)) [
  | inl e ↦ rw e (double_to-le fuel size (n * 2) (ground arith) le)
  | inr e ↦ rw e h
]

-- A body of less than 2 ^ 30 - 7 bytes leaves the ints as they are.
pub leaves_int-small :
    (c : Conn) (w : World) → Fits c → c.bodylen + 8 ≤ 2 ^ 30 → leaves_int c w ≡ false
unfolding leaves_int grown_size
leaves_int-small c w f le =
    let size = double_to-le (c.bodylen + 8) (c.bodylen + 8) c.rsize f.small (omega arith) in
    ground (arith, size)

enlarge-Fits :
    (c : Conn) (n : ℕ)
    → Fits c
    → c.rsize ≤ n
    → n < int_limit
    → Fits (enlarge c n) × (unread (enlarge c n) ≡ unread c)
unfolding enlarge
enlarge-Fits c n f le less = (
  record {
    sized = omega (
      arith,
      f.sized,
      length-append c.rbuf (replicate (n - c.rsize) 0),
      length-replicate {A = ℕ} (n - c.rsize) 0,
    );
    within = omega (arith, f.within);
    room = omega (arith, f.room);
    small = less;
  },
  ap (take c.rbytes)
        (drop-append c.rcurr c.rbuf (replicate (n - c.rsize) 0) (omega (arith, f.sized, f.within)))
      ∙ take-append c.rbytes (drop c.rcurr c.rbuf) (replicate (n - c.rsize) 0)
          (omega (arith, length-drop c.rcurr c.rbuf, f.sized, f.within)),
)

repack-Fits :
    (c : Conn) → Fits c → Fits (repack c) × (unread (repack c) ≡ unread c) × ((repack c).rcurr ≡ 0)
unfolding repack
repack-Fits c f = elim (Bool-cases (c.rcurr == 0)) [
  | inl e ↦ rw e (f, refl, ground arith)
  | inr e ↦ rw e (
    record {
      sized = length-move c.rbuf c.rcurr c.rbytes (omega (arith, f.within, f.sized)) ∙ f.sized;
      within = omega (arith, f.within);
      room = f.room;
      small = f.small;
    },
    take-move c.rbuf c.rcurr c.rbytes (omega (arith, f.within, f.sized)),
    refl,
  )
]

-- The request is placed: its body is read behind the header, and what is unread is what was, less
-- the header.
pub record Placed (before : Bytes) (bodylen : ℕ) (d : Conn) : Type 0 where
  pub reading : d.state ≡ conn_nread
  pub has_room : HasRoom d
  pub body : d.rlbytes ≡ bodylen
  pub rest : unread d ≡ drop header_size before

expect_body-Placed :
    (e : Conn)
    → Fits e
    → header_size ≤ e.rbytes
    → e.rcurr + header_size + e.rlbytes ≤ e.rsize
    → Placed (unread e) e.rlbytes (pass_header (expect_body e))
unfolding expect_body pass_header
expect_body-Placed e f h room = record {
  reading = refl;
  has_room = record {
    fits = record {
      sized = f.sized;
      within = omega (arith, f.within);
      room = f.room;
      small = f.small;
    };
    at_rcurr = refl;
    room = room;
  };
  body = refl;
  rest =
      ap (take (e.rbytes - 8)) (drop_add e.rcurr 8 e.rbuf)
      ∙ take_sub e.rbytes 8 (drop e.rcurr e.rbuf);
}

pub Placed-at :
    (before after : Bytes) (n m : ℕ) (d : Conn)
    → after ≡ before
    → m ≡ n
    → Placed after m d
    → Placed before n d
Placed-at before after n m d u e p = record {
  reading = p.reading;
  has_room = p.has_room;
  body = p.body ∙ e;
  rest = p.rest ∙ ap (drop 8) u;
}

repack-same :
    (d : Conn)
    → ((repack d).rbytes ≡ d.rbytes)
      × ((repack d).rlbytes ≡ d.rlbytes)
      × ((repack d).rsize ≡ d.rsize)
unfolding repack
repack-same d = elim (Bool-cases (d.rcurr == 0)) [
  | inl e ↦ rw e (refl, refl, refl)
  | inr e ↦ rw e (refl, refl, refl)
]

repacked-Placed :
    (d : Conn)
    → Fits d
    → header_size ≤ d.rbytes
    → d.rlbytes + header_size ≤ d.rsize
    → Placed (unread d) d.rlbytes (pass_header (expect_body (repack d)))
repacked-Placed d f h room =
    let (g, u, z) = repack-Fits d f in
    let (by, rl, si) = repack-same d in
    Placed-at (unread d) (unread (repack d)) d.rlbytes (repack d).rlbytes _ u rl
      (expect_body-Placed (repack d) g (omega (arith, by)) (omega (arith, z, rl, si)))

-- What `bin_read_key` leads to once the header is passed.
pub place_body-Placed :
    (c : Conn) (w : World)
    → Fits c
    → header_size ≤ c.rbytes
    → leaves_int c w ≡ false
    → ((place_body c w).0.state ≡ conn_closing)
      ⊎ Placed (unread c) c.bodylen (pass_header (place_body c w).0)
unfolding place_body leaves_int grown_size
place_body-Placed c w f h int = (elim (Bool-cases (ltb c.rsize (c.rcurr + 8 + c.bodylen))) [
  | inr e ↦ rw e (inr (expect_body-Placed (record c { rlbytes = c.bodylen }) same h (ground arith)))
  | inl e ↦ rw e (elim (Bool-cases (double_to (c.bodylen + 8) (c.bodylen + 8) c.rsize == c.rsize)) [
    | inl e2 ↦
        rw e2
          (inr (repacked-Placed (record c { rlbytes = c.bodylen }) same h (ground (arith, grown))))
    | inr e2 ↦ rw e2 (elim (Bool-cases (head_flag w.allocs)) [
      | inl e3 ↦ rw e3 (
          inr (
            enlarged (double_to (c.bodylen + 8) (c.bodylen + 8) c.rsize) grown.0 grown.1
              (ground arith)))
      | inr e3 ↦ rw e3 (inl refl)
    ])
  ])
])
  where
    same : Fits (record c { rlbytes = c.bodylen })
    same = record { sized = f.sized; within = f.within; room = f.room; small = f.small }

    grown :
        (c.bodylen + 8 ≤ double_to (c.bodylen + 8) (c.bodylen + 8) c.rsize)
        × (c.rsize ≤ double_to (c.bodylen + 8) (c.bodylen + 8) c.rsize)
    grown = double_to-ge (c.bodylen + 8) (c.bodylen + 8) c.rsize f.room (omega arith)

    enlarged :
        (n : ℕ)
        → c.bodylen + 8 ≤ n
        → c.rsize ≤ n
        → n < int_limit
        → Placed
            (unread c)
            c.bodylen
            (pass_header (expect_body (repack (enlarge (record c { rlbytes = c.bodylen }) n))))
    enlarged n big le less =
        let (g, u) = enlarge-Fits (record c { rlbytes = c.bodylen }) n same le less in
        Placed-at (unread c) (unread (enlarge (record c { rlbytes = c.bodylen }) n)) c.bodylen
          c.bodylen _ u refl
          (unfold enlarge in repacked-Placed (enlarge (record c { rlbytes = c.bodylen }) n) g h big)
