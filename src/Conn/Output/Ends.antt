-- ===== src/Conn/Output/Ends.antt =====
-- The rounds of `add_iov` when allocations may fail.
use prefix_match_server.Prelude.{
  ℕ, zero, suc, ◌+◌, ◌≤◌, ◌<◌, ◌≡◌, refl, ap, ◌∙◌, ◌⊎◌, inl, inr, Bool, true, false, ◌||◌, List, [],
  ◌∷◌, ◌++◌, arith, Bytes, ltb, leb, ◌==◌, if◌then◌else◌, length, take, Bool-cases, length-append,
  length-take, ltb→lt,
}
use prefix_match_server.Conn.State.{Conn, World, head_flag, tail_flags}
use prefix_match_server.Conn.Output.{
  Ret, ret_ok, ret_error, ret_unfinished, add_msghdr, ensure_iov_space, limit_to_mtu, message_full,
  start_message, chunk_length, put_chunk, add_iov, add_iov_all, udp_max_payload_size,
}
use prefix_match_server.Conn.Output.Finishes.{length-push_chunk, limit-single}

abbrev pub Ended : Ret → Type 0
Ended (ret_ok c w) = Unit {0}
Ended (ret_error c w) = Unit {0}
Ended (ret_unfinished c w) = ⊥

tail_flags-le : (bs : List Bool) → length (tail_flags bs) ≤ length bs
tail_flags-le [] = omega arith
tail_flags-le (b ∷ bs) = omega arith

tail_flags-lt : (bs : List Bool) → head_flag bs ≡ false → length (tail_flags bs) < length bs
tail_flags-lt [] h = absurd (cc)
tail_flags-lt (b ∷ bs) h = omega arith

ensure-keeps :
    (c : Conn) (w : World)
    → ((ensure_iov_space c w).1.messages ≡ c.messages)
      × ((ensure_iov_space c w).1.msgbytes ≡ c.msgbytes)
      × (length (ensure_iov_space c w).2.allocs ≤ length w.allocs)
unfolding ensure_iov_space
ensure-keeps c w = ground (arith, tail_flags-le w.allocs)

-- A full message is followed by another, or an allocation has failed.
start-full :
    (c : Conn) (w : World)
    → message_full c ≡ true
    → (((start_message c w).0.messages ≡ c.messages ++ [] ∷ [])
        × (length (start_message c w).1.allocs ≤ length w.allocs))
      ⊎ (((start_message c w).0 ≡ c) × (length (start_message c w).1.allocs < length w.allocs))
unfolding start_message add_msghdr
start-full c w full = rw full (elim (Bool-cases (c.msgsize == length c.messages)) [
  | inr e ↦ rw e (inl (refl, omega arith))
  | inl e ↦ rw e (elim (Bool-cases (head_flag w.allocs)) [
    | inl e2 ↦ rw e2 (inl (refl, tail_flags-le w.allocs))
    | inr e2 ↦ rw e2 (inr (refl, tail_flags-lt w.allocs e2))
  ])
])

start-room : (c : Conn) (w : World) → message_full c ≡ false → start_message c w ≡ (c, w)
unfolding start_message
start-room c w room = rw room refl

by_bytes-full :
    (d : Conn)
    → length d.messages ≡ 1
    → leb udp_max_payload_size d.msgbytes ≡ true
    → message_full d ≡ true
unfolding message_full limit_to_mtu
by_bytes-full d one e = rw (one, e) (or_true _)
  where
    or_true : (b : Bool) → (b || true) ≡ true
    or_true true = refl
    or_true false = refl

-- A limited message is full after a chunk that leaves some of the buffer.
chunk-fills :
    (d : Conn) (len n : ℕ)
    → n ≡ chunk_length true d len
    → ltb n len ≡ true
    → leb udp_max_payload_size (d.msgbytes + n) ≡ true
unfolding chunk_length
chunk-fills d len n e more = ground arith

-- What is left of the rounds: enough for the message that is there.
abbrev Enough : ℕ → Conn → World → Type 0
Enough fuel c w =
    ((limit_to_mtu c ≡ false) × (1 ≤ fuel))
    ⊎ ((message_full c ≡ true) × (length w.allocs + 2 ≤ fuel))
    ⊎ (length w.allocs + 3 ≤ fuel)

Ended-round :
    (ok more : Bool) (x y z : Ret)
    → (more ≡ true → Ended x)
    → Ended y
    → Ended z
    → Ended (if ok then if more then x else y else z)
Ended-round true true x y z hx hy hz = hx refl
Ended-round true false x y z hx hy hz = hy
Ended-round false more x y z hx hy hz = hz

Enough-full :
    (fuel : ℕ) (c : Conn) (w : World)
    → limit_to_mtu c ≡ true
    → Enough fuel c w
    → length w.allocs + 2 ≤ fuel
Enough-full fuel c w l (inl (free, h)) = absurd (cc)
Enough-full fuel c w l (inr (inl (full, h))) = h
Enough-full fuel c w l (inr (inr h)) = omega arith

Enough-room :
    (fuel : ℕ) (c : Conn) (w : World)
    → limit_to_mtu c ≡ true
    → message_full c ≡ false
    → Enough fuel c w
    → length w.allocs + 3 ≤ fuel
Enough-room fuel c w l room (inl (free, h)) = absurd (cc)
Enough-room fuel c w l room (inr (inl (full, h))) = absurd (cc)
Enough-room fuel c w l room (inr (inr h)) = h

two-free : (e : Conn) (k : ℕ) → 0 < k → length e.messages ≡ k + 1 → limit_to_mtu e ≡ false
unfolding limit_to_mtu
two-free e k h two = ground arith

-- After a round that leaves some of the buffer, the rounds left are enough again.
module _ (fuel : ℕ) (c d : Conn) (w v : World) (buf : Bytes) (enough : Enough (suc fuel) c w)
    (ms : d.messages ≡ (start_message c w).0.messages)
    (mb : d.msgbytes ≡ (start_message c w).0.msgbytes)
    (al : length v.allocs ≤ length (start_message c w).1.allocs) where
  abbrev taken : ℕ
  taken = chunk_length (limit_to_mtu c) d (length buf)

  abbrev after : Conn
  after = put_chunk d (take taken buf)

  length-after : length after.messages ≡ length d.messages
  unfolding put_chunk
  length-after = length-push_chunk d.messages (take taken buf)

  -- A message that was single, and is still.
  full-after :
      limit_to_mtu c ≡ true
      → (start_message c w).0 ≡ c
      → ltb taken (length buf) ≡ true
      → message_full after ≡ true
  full-after l same more =
      by_bytes-full after
        (length-after ∙ ap length ms ∙ ap (λ (x : Conn). length x.messages) same ∙ limit-single c l)
        (ap (leb udp_max_payload_size) bytes
          ∙ chunk-fills d (length buf) taken (ap (λ b. chunk_length b d (length buf)) l) more)
    where
      bytes : after.msgbytes ≡ d.msgbytes + taken
      bytes = unfold put_chunk in omega (arith, length-take taken buf, ltb→lt _ _ more)

  not-free : limit_to_mtu c ≡ false → ltb taken (length buf) ≡ true → ⊥
  unfolding chunk_length
  not-free free more =
      let z : taken ≡ length buf = rw free refl in omega (arith, z, ltb→lt _ _ more)

  Enough-next : ltb taken (length buf) ≡ true → Enough fuel after v
  Enough-next more = elim (Bool-cases (limit_to_mtu c)) [
    | inr free ↦ absurd (not-free free more)
    | inl l ↦ elim (Bool-cases (message_full c)) [
      | inl full ↦ elim (start-full c w full) [
        | inl (m2, a2) ↦ inl (
          two-free after (length c.messages) (omega (arith, limit-single c l))
              (length-after ∙ ap length ms ∙ ap length m2 ∙ length-append c.messages ([] ∷ [])),
          omega (arith, Enough-full (suc fuel) c w l enough),
        )
        | inr (same, a2) ↦
            inr (inl (full-after l same more, omega (arith, Enough-full (suc fuel) c w l enough)))
      ]
      | inr room ↦ inr (
          inl (
            full-after l (ap (λ (x : Conn × World). x.0) (start-room c w room)) more,
            omega (
              arith,
              Enough-room (suc fuel) c w l room enough,
              ap (λ (x : Conn × World). length x.1.allocs) (start-room c w room),
            ),
          ))
    ]
  ]

Enough-pos : (fuel : ℕ) (c : Conn) (w : World) → Enough fuel c w → 1 ≤ fuel
Enough-pos fuel c w (inl (a, h)) = h
Enough-pos fuel c w (inr (inl (a, h))) = omega arith
Enough-pos fuel c w (inr (inr h)) = omega arith

add_iov-Ended :
    (fuel : ℕ) (c : Conn) (w : World) (buf : Bytes) → Enough fuel c w → Ended (add_iov fuel c w buf)
unfolding add_iov
add_iov-Ended zero c w buf h = absurd (omega (arith, Enough-pos zero c w h))
add_iov-Ended (suc fuel) c w buf h =
    let s = start_message c w in
    let (ms, mb, al) = ensure-keeps s.0 s.1 in
    Ended-round (ensure_iov_space s.0 s.1).0
      (ltb (taken fuel c (ensure_iov_space s.0 s.1).1 w (ensure_iov_space s.0 s.1).2 buf h ms mb al)
        (length buf))
      _ (ret_ok _ _) (ret_error _ _)
      (λ more. add_iov-Ended fuel _ _ _ (
        Enough-next fuel c (ensure_iov_space s.0 s.1).1 w (ensure_iov_space s.0 s.1).2 buf h ms mb
          al more))
      tt tt

-- `add_iov` comes to an end for every connection and buffer, whichever allocations fail: it takes at
-- most three rounds and one for each allocation that is answered.
pub add_iov_all-Ended : (c : Conn) (w : World) (buf : Bytes) → Ended (add_iov_all c w buf)
unfolding add_iov_all
add_iov_all-Ended c w buf =
    add_iov-Ended (suc (suc (suc (length w.allocs)))) c w buf (inr (inr (omega arith)))
