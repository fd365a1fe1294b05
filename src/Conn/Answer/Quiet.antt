-- ===== src/Conn/Answer/Quiet.antt =====
-- `add_msghdr` and `add_iov` of server.cpp while no allocation fails.
use prefix_match_server.Prelude.{
  ℕ, zero, suc, ◌≡◌, ◌≢◌, refl, sym, ◌∙◌, inl, inr, Bool, true, false, [], ◌∷◌, ◌++◌, arith, Bytes,
  ltb, ◌==◌, if◌then◌else◌, length, take, drop, append-nil, Bool-cases,
}
use prefix_match_server.Conn.State.{Conn, World}
use prefix_match_server.Conn.Output.{
  Ret, ret_ok, ret_error, ret_unfinished, add_msghdr, ensure_iov_space, limit_to_mtu, message_full,
  start_message, chunk_length, put_chunk, add_iov, add_iov_all, settle, add_part,
}
use prefix_match_server.Conn.Output.Added.{
  payload, push_chunk-ne-nil, append-ne-nil, Adds, add_iov-Adds,
}
use prefix_match_server.Conn.Output.Finishes.{add_iov-Finishes}

-- There is a message, no allocation fails, and the next message to send is the one it was.
abbrev pub Quiet : ℕ → Conn × World → Type 0
Quiet k (d, v) = (d.messages ≢ []) × (d.msgcurr ≡ k) × (v.allocs ≡ [])

pub add_msghdr-Quiet :
    (c : Conn) (w : World)
    → w.allocs ≡ []
    → ((add_msghdr c w).0 ≡ true)
      × ((add_msghdr c w).1.messages ≡ c.messages ++ [] ∷ [])
      × Quiet c.msgcurr ((add_msghdr c w).1, (add_msghdr c w).2)
unfolding add_msghdr
add_msghdr-Quiet c w free = elim (Bool-cases (c.msgsize == length c.messages)) [
  | inl e ↦ rw (e, free) (refl, refl, (append-ne-nil c.messages [], refl, refl))
  | inr e ↦ rw e (refl, refl, (append-ne-nil c.messages [], refl, free))
]

pub wbuf-add_msghdr : (c : Conn) (w : World) → (add_msghdr c w).1.wbuf ≡ c.wbuf
unfolding add_msghdr
wbuf-add_msghdr c w = ground arith

start_message-Quiet :
    (c : Conn) (w : World) → c.messages ≢ [] → w.allocs ≡ [] → Quiet c.msgcurr (start_message c w)
unfolding start_message
start_message-Quiet c w ne free = elim (Bool-cases (message_full c)) [
  | inl e ↦ rw e (add_msghdr-Quiet c w free).2
  | inr e ↦ rw e (ne, refl, free)
]

ensure_iov_space-Quiet :
    (k : ℕ) (c : Conn) (w : World)
    → Quiet k (c, w)
    → Quiet k ((ensure_iov_space c w).1, (ensure_iov_space c w).2)
ensure_iov_space-Quiet k c w (ne, e, free) =
    (λ z. ne (sym same ∙ z), cur ∙ e, unfold ensure_iov_space in ground arith)
  where
    same : (ensure_iov_space c w).1.messages ≡ c.messages
    same = unfold ensure_iov_space in ground arith

    cur : (ensure_iov_space c w).1.msgcurr ≡ c.msgcurr
    cur = unfold ensure_iov_space in ground arith

put_chunk-Quiet :
    (k : ℕ) (c : Conn) (w : World) (chunk : Bytes) → Quiet k (c, w) → Quiet k (put_chunk c chunk, w)
unfolding put_chunk
put_chunk-Quiet k c w chunk (ne, e, free) = (push_chunk-ne-nil c.messages chunk ne, e, free)

-- The same for what `add_iov` returns.
abbrev QuietRet : ℕ → Ret → Type 0
QuietRet k (ret_ok d v) = Quiet k (d, v)
QuietRet k (ret_error d v) = Unit
QuietRet k (ret_unfinished d v) = Unit

QuietRet-if :
    (k : ℕ) (ok more : Bool) (x : Ret) (d : Conn) (v : World) (z : Conn) (u : World)
    → QuietRet k x
    → Quiet k (d, v)
    → QuietRet k (if ok then if more then x else ret_ok d v else ret_error z u)
QuietRet-if k true true x d v z u hx hy = hx
QuietRet-if k true false x d v z u hx hy = hy
QuietRet-if k false more x d v z u hx hy = tt

add_iov-Quiet :
    (fuel k : ℕ) (c : Conn) (w : World) (buf : Bytes)
    → Quiet k (c, w)
    → QuietRet k (add_iov fuel c w buf)
unfolding add_iov
add_iov-Quiet zero k c w buf q = tt
add_iov-Quiet (suc fuel) k c w buf (ne, e, free) =
    let s = start_message c w in
    let r = ensure_iov_space s.0 s.1 in
    let n = chunk_length (limit_to_mtu c) r.1 (length buf) in
    let (ne', e', free') = start_message-Quiet c w ne free in
    let q =
      put_chunk-Quiet k r.1 r.2 (take n buf)
        (ensure_iov_space-Quiet k s.0 s.1 (ne', e' ∙ e, free')) in
    QuietRet-if k r.0 (ltb n (length buf)) _ (put_chunk r.1 (take n buf)) r.2 r.1 r.2
      (add_iov-Quiet fuel k (put_chunk r.1 (take n buf)) r.2 (drop n buf) q) q

-- A buffer that is added while no allocation fails is behind the bytes of the messages.
abbrev pub Appends : ℕ → Conn → Bytes → Conn × World → Type 0
Appends k c buf r = Quiet k r × (payload r.0.messages ≡ payload c.messages ++ buf)

settled :
    (k : ℕ) (c : Conn) (buf : Bytes) (r : Ret) (d : Conn) (v : World)
    → r ≡ ret_ok d v
    → QuietRet k r
    → Adds c buf r
    → Appends k c buf (settle r)
unfolding settle
settled k c buf (ret_ok x u) d v e q a = (q, a)
settled k c buf (ret_error x u) d v e q a = absurd (cc)
settled k c buf (ret_unfinished x u) d v e q a = absurd (cc)

pub add_iov_all-Appends :
    (k : ℕ) (c : Conn) (w : World) (buf : Bytes)
    → Quiet k (c, w)
    → Appends k c buf (settle (add_iov_all c w buf))
unfolding add_iov_all
add_iov_all-Appends k c w buf (ne, e, free) =
    let n = suc (suc (suc (length w.allocs))) in
    let (d, v, r) = add_iov-Finishes (length w.allocs) c w buf free ne in
    settled k c buf (add_iov n c w buf) d v r (add_iov-Quiet n k c w buf (ne, e, free))
      (add_iov-Adds n c w buf ne)

pub add_part-Appends :
    (k : ℕ) (c : Conn) (w : World) (buf : Bytes)
    → Quiet k (c, w)
    → Appends k c buf (add_part (c, w) buf)
unfolding add_part
add_part-Appends k c w [] q = (q, sym (append-nil (payload c.messages)))
add_part-Appends k c w (b ∷ buf) q = add_iov_all-Appends k c w (b ∷ buf) q
