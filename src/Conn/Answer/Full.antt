-- ===== src/Conn/Answer/Full.antt =====
-- The messages of an answer: `add_iov` of server.cpp leaves no empty chunk and no empty message.
use prefix_match_server.Prelude.{
  ℕ, zero, suc, ◌<◌, ◌≡◌, refl, sym, ap, ◌∙◌, subst, ◌⊎◌, inl, inr, Bool, true, false, ◌&&◌, List,
  [], ◌∷◌, ◌++◌, arith, Bytes, ltb, if◌then◌else◌, length, take, drop, All, Bool-cases, length-take,
  length-drop,
}
use prefix_match_server.Conn.State.{Conn, World, Message}
use prefix_match_server.Conn.Output.{
  Ret, ret_ok, ret_error, ret_unfinished, ensure_iov_space, push_chunk, last_length, limit_to_mtu,
  message_full, start_message, chunk_length, put_chunk, add_iov, udp_max_payload_size,
}
use prefix_match_server.Conn.Output.Finishes.{room-left, ensure_free, start_free}

-- A message with a chunk, and no chunk that is empty.
abbrev pub Chunks : Message → Type 0
Chunks m = All (λ (chunk : Bytes). 0 < length chunk) m

abbrev pub Full : List Message → Type 0
Full ms = All (λ (m : Message). Chunks m × (0 < length m)) ms

-- The messages are full, or the last one has just been started.
abbrev pub Open : Conn → Type 0
Open c =
    Full c.messages
    ⊎ ((us : List Message) × Full us × (c.messages ≡ us ++ [] ∷ []) × (c.msgbytes ≡ 0))

Chunks-append :
    (m : Message) (chunk : Bytes) → Chunks m → 0 < length chunk → Chunks (m ++ chunk ∷ [])
Chunks-append [] chunk h pos = (pos, tt)
Chunks-append (a ∷ m) chunk h pos = (h.0, Chunks-append m chunk h.1 pos)

pushed_length : (m : Message) (chunk : Bytes) → 0 < length (m ++ chunk ∷ [])
pushed_length [] chunk = omega arith
pushed_length (a ∷ m) chunk = omega arith

push_chunk-Full :
    (ms : List Message) (chunk : Bytes) → Full ms → 0 < length chunk → Full (push_chunk ms chunk)
unfolding push_chunk
push_chunk-Full [] chunk h pos = tt
push_chunk-Full (m ∷ []) chunk h pos =
    ((Chunks-append m chunk h.0.0 pos, pushed_length m chunk), tt)
push_chunk-Full (m ∷ n ∷ ms) chunk h pos = (h.0, push_chunk-Full (n ∷ ms) chunk h.1 pos)

push_chunk-started :
    (us : List Message) (chunk : Bytes)
    → Full us
    → 0 < length chunk
    → Full (push_chunk (us ++ [] ∷ []) chunk)
unfolding push_chunk
push_chunk-started [] chunk h pos = (((pos, tt), omega arith), tt)
push_chunk-started (m ∷ []) chunk h pos = (h.0, push_chunk-started [] chunk tt pos)
push_chunk-started (m ∷ n ∷ us) chunk h pos = (h.0, push_chunk-started (n ∷ us) chunk h.1 pos)

put_chunk-Full :
    (c : Conn) (chunk : Bytes) → Open c → 0 < length chunk → Full (put_chunk c chunk).messages
unfolding put_chunk
put_chunk-Full c chunk (inl h) pos = push_chunk-Full c.messages chunk h pos
put_chunk-Full c chunk (inr (us, h, e, z)) pos =
    subst (λ ms. Full (push_chunk ms chunk)) (sym e) (push_chunk-started us chunk h pos)

last_length-started : (us : List Message) → last_length (us ++ [] ∷ []) ≡ 0
unfolding last_length
last_length-started [] = refl
last_length-started (m ∷ []) = refl
last_length-started (m ∷ n ∷ us) = last_length-started (n ∷ us)

-- A message that was just started is not full.
started_open :
    (c : Conn) (us : List Message)
    → c.messages ≡ us ++ [] ∷ []
    → c.msgbytes ≡ 0
    → message_full c ≡ false
unfolding message_full
started_open c us e z =
    let n : last_length c.messages ≡ 0 = ap last_length e ∙ last_length-started us in
    rw (n, z) (and_false (limit_to_mtu c))
  where
    and_false : (b : Bool) → (b && false) ≡ false
    and_false true = refl
    and_false false = refl

-- There is room for a chunk.
abbrev Room : Conn → Conn → Type 0
Room c d = (d.msgbytes < udp_max_payload_size) ⊎ (limit_to_mtu c ≡ false)

start_message-Open :
    (c : Conn) (w : World)
    → w.allocs ≡ []
    → Open c
    → Open (start_message c w).0 × Room c (start_message c w).0
start_message-Open c w free h = elim (Bool-cases (message_full c)) [
  | inl e ↦ full h e
  | inr e ↦
      let same = (start_free c w free).2 e in
      (subst Open (sym same) h, subst (Room c) (sym same) (room e))
]
  where
    full :
        Open c → message_full c ≡ true → Open (start_message c w).0 × Room c (start_message c w).0
    full (inl a) e =
        let (m, z) = (start_free c w free).1 e in
        (inr (c.messages, a, m, z), inl (omega (arith, z)))
    full (inr (us, a, m, z)) e = absurd (cc (started_open c us m z))

    room : message_full c ≡ false → Room c c
    room e = elim (Bool-cases (limit_to_mtu c)) [ inl l ↦ inl (room-left c l e) | inr l ↦ inr l ]

ensure_iov_space-Open :
    (c : Conn) (w : World) → w.allocs ≡ [] → Open c → Open (ensure_iov_space c w).1
ensure_iov_space-Open c w free (inl h) = inl (subst Full (sym (ensure_free c w free).2) h)
ensure_iov_space-Open c w free (inr (us, h, e, z)) =
    inr (us, h, (ensure_free c w free).2 ∙ e, (ensure_free c w free).3 ∙ z)

chunk_positive :
    (limit : Bool) (d : Conn) (len : ℕ)
    → 0 < len
    → (d.msgbytes < udp_max_payload_size) ⊎ (limit ≡ false)
    → 0 < chunk_length limit d len
unfolding chunk_length
chunk_positive limit d len pos (inl h) = ground arith
chunk_positive limit d len pos (inr h) = ground arith

-- What `add_iov` returns.
abbrev pub FullRet : Ret → Type 0
FullRet (ret_ok d w) = Full d.messages
FullRet (ret_error d w) = Unit
FullRet (ret_unfinished d w) = Unit

FullRet-if :
    (ok more : Bool) (x : Ret) (d : Conn) (v : World) (z : Conn) (u : World)
    → (more ≡ true → FullRet x)
    → Full d.messages
    → FullRet (if ok then if more then x else ret_ok d v else ret_error z u)
FullRet-if true true x d v z u hx hy = hx refl
FullRet-if true false x d v z u hx hy = hy
FullRet-if false more x d v z u hx hy = tt

-- For messages that are full or just started, a buffer that is not empty, and no allocation that
-- fails: if `add_iov` returns 0, no message and no chunk is empty.
pub add_iov-Full :
    (fuel : ℕ) (c : Conn) (w : World) (buf : Bytes)
    → w.allocs ≡ []
    → Open c
    → 0 < length buf
    → FullRet (add_iov fuel c w buf)
unfolding add_iov
add_iov-Full zero c w buf free h pos = tt
add_iov-Full (suc fuel) c w buf free h pos =
    let s = start_message c w in
    let r = ensure_iov_space s.0 s.1 in
    let n = chunk_length (limit_to_mtu c) r.1 (length buf) in
    let (opened, room) = start_message-Open c w free h in
    let s_free = (start_free c w free).0 in
    let some_bytes : 0 < n = chunk_positive (limit_to_mtu c) r.1 (length buf) pos (
      subst (λ k. (k < udp_max_payload_size) ⊎ (limit_to_mtu c ≡ false))
        (sym (ensure_free s.0 s.1 s_free).3) room) in
    let full =
      put_chunk-Full r.1 (take n buf) (ensure_iov_space-Open s.0 s.1 s_free opened)
        (omega (arith, length-take n buf, some_bytes, pos)) in
    FullRet-if r.0 (ltb n (length buf)) _ (put_chunk r.1 (take n buf)) r.2 r.1 r.2
      (λ e.
        add_iov-Full fuel (put_chunk r.1 (take n buf)) r.2 (drop n buf)
          (ensure_free s.0 s.1 s_free).1 (inl full) (ground (arith, length-drop n buf)))
      full
