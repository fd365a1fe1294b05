-- ===== src/Conn/Machine/Untouched.antt =====
-- What the output functions leave alone of a connection.
use prefix_match_server.Prelude.{
  ℕ, zero, suc, ◌≡◌, refl, ◌∙◌, ◌⊎◌, inl, inr, Bool, true, false, [], ◌∷◌, arith, Bytes, codes, ltb,
  ◌==◌, if◌then◌else◌, length, take, drop, Bool-cases, Option-cases,
}
use prefix_match_server.Wire.Response.{response_header}
use prefix_match_server.Conn.State.{
  ConnStates, Conn, World, conn_mwrite, conn_new_cmd, conn_closing, head_flag, write_at,
  update_event, conn_set_state, SendReply, sent, send_blocks, send_fails, Message, ev_write_persist,
}
use prefix_match_server.Conn.Output.{
  Ret, ret_ok, ret_error, ret_unfinished, add_msghdr, ensure_iov_space, start_message, put_chunk,
  add_iov, add_iov_all, settle, limit_to_mtu, chunk_length, message_full, clear_messages,
  out_string, add_bin_header, add_part, response_enomem, write_bin_error, write_bin_response,
  transmit, advance, after_send, current, next_send, later_sends, TransmitResult,
  transmit_soft_error, transmit_hard_error,
}
use prefix_match_server.Conn.Read.Ends.{SameBuffer}

pub SameBuffer-trans : (c d e : Conn) → SameBuffer c d → SameBuffer d e → SameBuffer c e
SameBuffer-trans c d e (a, b, f, g) (a', b', f', g') = (a' ∙ a, b' ∙ b, f' ∙ f, g' ∙ g)

-- The read buffer, the state and the state behind a write are as they were.
abbrev pub Same : Conn → Conn → Type 0
Same c d = SameBuffer c d × (d.state ≡ c.state) × (d.write_and_go ≡ c.write_and_go)

pub Same-refl : (c : Conn) → Same c c
Same-refl c = ((refl, refl, refl, refl), refl, refl)

pub Same-trans : (c d e : Conn) → Same c d → Same d e → Same c e
Same-trans c d e (b, s, g) (b', s', g') = (SameBuffer-trans c d e b b', s' ∙ s, g' ∙ g)

pub add_msghdr-Same : (c : Conn) (w : World) → Same c (add_msghdr c w).1
unfolding add_msghdr
add_msghdr-Same c w = elim (Bool-cases (c.msgsize == length c.messages)) [
  | inr e ↦ rw e (Same-refl c)
  | inl e ↦ rw e (elim (Bool-cases (head_flag w.allocs)) [
    | inl e2 ↦ rw e2 (Same-refl c)
    | inr e2 ↦ rw e2 (Same-refl c)
  ])
]

ensure_iov_space-Same : (c : Conn) (w : World) → Same c (ensure_iov_space c w).1
unfolding ensure_iov_space
ensure_iov_space-Same c w = ground arith

start_message-Same : (c : Conn) (w : World) → Same c (start_message c w).0
unfolding start_message
start_message-Same c w = elim (Bool-cases (message_full c)) [
  | inr e ↦ rw e (Same-refl c)
  | inl e ↦ rw e (add_msghdr-Same c w)
]

-- The same for what `add_iov` returns.
abbrev pub SameRet : Conn → Ret → Type 0
SameRet c (ret_ok d w) = Same c d
SameRet c (ret_error d w) = Same c d
SameRet c (ret_unfinished d w) = Same c d

SameRet-trans : (c d : Conn) (r : Ret) → Same c d → SameRet d r → SameRet c r
SameRet-trans c d (ret_ok e w) h k = Same-trans c d e h k
SameRet-trans c d (ret_error e w) h k = Same-trans c d e h k
SameRet-trans c d (ret_unfinished e w) h k = Same-trans c d e h k

SameRet-if :
    (c : Conn) (ok more : Bool) (x y z : Ret)
    → SameRet c x
    → SameRet c y
    → SameRet c z
    → SameRet c (if ok then if more then x else y else z)
SameRet-if c true true x y z hx hy hz = hx
SameRet-if c true false x y z hx hy hz = hy
SameRet-if c false more x y z hx hy hz = hz

add_iov-Same : (fuel : ℕ) (c : Conn) (w : World) (buf : Bytes) → SameRet c (add_iov fuel c w buf)
unfolding add_iov
add_iov-Same zero c w buf = Same-refl c
add_iov-Same (suc fuel) c w buf =
    let s = start_message c w in
    let r = ensure_iov_space s.0 s.1 in
    let n = chunk_length (limit_to_mtu c) r.1 (length buf) in
    let h = Same-trans c s.0 r.1 (start_message-Same c w) (ensure_iov_space-Same s.0 s.1) in
    SameRet-if c r.0 (ltb n (length buf))
      (add_iov fuel (put_chunk r.1 (take n buf)) r.2 (drop n buf)) (ret_ok _ _) (ret_error _ _)
      (SameRet-trans c (put_chunk r.1 (take n buf)) _ (unfold put_chunk in h)
        (add_iov-Same fuel _ r.2 (drop n buf)))
      (unfold put_chunk in h) h

pub add_iov_all-Same : (c : Conn) (w : World) (buf : Bytes) → SameRet c (add_iov_all c w buf)
unfolding add_iov_all
add_iov_all-Same c w buf = add_iov-Same (suc (suc (suc (length w.allocs)))) c w buf

settle-Same : (c : Conn) (r : Ret) → SameRet c r → Same c (settle r).0
unfolding settle
settle-Same c (ret_ok d w) h = h
settle-Same c (ret_error d w) h = h
settle-Same c (ret_unfinished d w) h = h

pub out_string-SameBuffer :
    (c : Conn) (w : World) (str : Bytes) → SameBuffer c (out_string c w str).0
unfolding out_string clear_messages
out_string-SameBuffer c w str = (add_msghdr-Same (clear_messages c) w).0

add_bin_header-SameBuffer :
    (c : Conn) (w : World) (err len : ℕ) → SameBuffer c (add_bin_header c w err len).0
unfolding add_bin_header clear_messages
add_bin_header-SameBuffer c w err len = elim (Bool-cases (add_msghdr (clear_messages c) w).0) [
  | inl e ↦ rw e (
      SameBuffer-trans c d (settle (add_iov_all d v header)).0 m.0
        (settle-Same d _ (add_iov_all-Same d v header)).0)
  | inr e ↦ rw e (
      let a = (add_msghdr (clear_messages c) w).1 in
      SameBuffer-trans c a (out_string a v text).0 m.0 (out_string-SameBuffer a v text))
]
  where
    m : Same (clear_messages c) (add_msghdr (clear_messages c) w).1
    m = add_msghdr-Same (clear_messages c) w

    text : Bytes
    text = codes "SERVER_ERROR out of memory"

    v : World
    v = (add_msghdr (clear_messages c) w).2

    header : Bytes
    header = response_header err len (drop 2 (add_msghdr (clear_messages c) w).1.wbuf)

    d : Conn
    d = record (add_msghdr (clear_messages c) w).1 {
      wbuf = write_at (add_msghdr (clear_messages c) w).1.wbuf 0 header;
    }

add_part-SameBuffer : (c : Conn) (w : World) (buf : Bytes) → SameBuffer c (add_part (c, w) buf).0
unfolding add_part
add_part-SameBuffer c w [] = (refl, refl, refl, refl)
add_part-SameBuffer c w (b ∷ buf) = (settle-Same c _ (add_iov_all-Same c w (b ∷ buf))).0

-- The answers: the read buffer is as it was, and the answer is sent next.
abbrev pub Answers : Conn → Conn → Type 0
Answers c d = SameBuffer c d × (d.state ≡ conn_mwrite) × (d.write_and_go ≡ conn_new_cmd)

pub write_bin_error-Answers : (c : Conn) (w : World) → Answers c (write_bin_error c w 0).0
unfolding write_bin_error
write_bin_error-Answers c w = (
  let h = add_bin_header c w response_enomem 13 in
      SameBuffer-trans c h.0 (add_part h (codes "Out of memory")).0
        (add_bin_header-SameBuffer c w response_enomem 13)
        (add_part-SameBuffer h.0 h.1 (codes "Out of memory")),
  refl,
  refl,
)

pub write_bin_response-Answers :
    (c : Conn) (w : World) (body : Bytes) → Answers c (write_bin_response c w body).0
unfolding write_bin_response
write_bin_response-Answers c w body = (
  let h = add_bin_header c w 0 (length body) in
      SameBuffer-trans c h.0 (add_part h body).0 (add_bin_header-SameBuffer c w 0 (length body))
        (add_part-SameBuffer h.0 h.1 body),
  refl,
  refl,
)

pub update_event-Same : (c : Conn) (flags : ℕ) (w : World) → Same c (update_event c flags w).1
unfolding update_event
update_event-Same c flags w = ground arith

-- `transmit` leaves the buffer alone, and the state or closes.
abbrev pub Transmits : Conn → Conn → Type 0
Transmits c d =
    SameBuffer c d
    × ((d.state ≡ c.state) ⊎ (d.state ≡ conn_closing))
    × (d.write_and_go ≡ c.write_and_go)

Transmits-if :
    (c : Conn) (b : Bool) (x y : TransmitResult × Conn × World)
    → Transmits c x.1
    → Transmits c y.1
    → Transmits c (if b then x else y).1
Transmits-if c true x y hx hy = hx
Transmits-if c false x y hx hy = hy

after_send-Transmits :
    (c : Conn) (w : World) (m : Message) (reply : SendReply)
    → Transmits c (after_send c w m reply).1
unfolding after_send
after_send-Transmits c w m (sent n) =
    Transmits-if c _ _ _ ((refl, refl, refl, refl), inr refl, refl)
      ((refl, refl, refl, refl), inl refl, refl)
after_send-Transmits c w m send_blocks =
    let (b, s, g) = update_event-Same c ev_write_persist w in
    Transmits-if c (update_event c ev_write_persist w).0
      (transmit_soft_error, (update_event c ev_write_persist w).1, _)
      (transmit_hard_error, conn_set_state (update_event c ev_write_persist w).1 conn_closing, _)
      (b, inl s, g) (b, inr refl, g)
after_send-Transmits c w m send_fails = ((refl, refl, refl, refl), inr refl, refl)

advance-Same : (c : Conn) → Same c (advance c)
unfolding advance
advance-Same c = ground arith

pub transmit-Transmits : (c : Conn) (w : World) → Transmits c (transmit c w).1
unfolding transmit
transmit-Transmits c w =
    let (b, s, g) = advance-Same c in
    elim (Option-cases (current (advance c))) [
      | inl e ↦ rw (e, transmit) (b, inl s, g)
      | inr (m, e) ↦
          rw (e, transmit)
            (let (b', s', g') =
                after_send-Transmits (advance c) (record w { sends = later_sends w.sends }) m
                  (next_send w.sends) in
              (
                SameBuffer-trans c (advance c)
                    (after_send (advance c) (record w { sends = later_sends w.sends }) m
                      (next_send w.sends)).1
                    b b',
                from s s',
                g' ∙ g,
              ))
    ]
  where
    from :
        {a b d : ConnStates} → b ≡ a → (d ≡ b) ⊎ (d ≡ conn_closing) → (d ≡ a) ⊎ (d ≡ conn_closing)
    from s (inl e) = inl (e ∙ s)
    from s (inr e) = inr e
