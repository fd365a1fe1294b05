-- ===== src/Conn/Answer/Sends.antt =====
-- `complete_nread` of server.cpp sends nothing itself.
use prefix_match_server.Prelude.{
  ◌%◌, ltb, true, arith, ◌<◌, ◌^◌, ◌+◌, ℕ, zero, suc, ◌≡◌, refl, ◌∙◌, inl, inr, Bool, false, Option,
  some, List, [], ◌∷◌, Bytes, if◌then◌else◌, length, take, drop, Bool-cases,
}
use prefix_match_server.Wire.Response.{reply_length, response_header, response_body}
use prefix_match_server.Conn.State.{int_limit, Conn, World, SendReply, write_at}
use prefix_match_server.Conn.Output.{
  Ret, ret_ok, ret_error, add_msghdr, ensure_iov_space, message_full, limit_to_mtu, start_message,
  chunk_length, put_chunk, add_iov, add_iov_all, settle, clear_messages, out_string, add_bin_header,
  add_part, write_bin_response,
}
use prefix_match_server.Conn.Command.{
  request_key, item_value, word_at, reply_to, asked_key, calloc_size,
}

sends-add_msghdr : (c : Conn) (w : World) → (add_msghdr c w).2.sends ≡ w.sends
unfolding add_msghdr
sends-add_msghdr c w = ground arith

sends-ensure : (c : Conn) (w : World) → (ensure_iov_space c w).2.sends ≡ w.sends
unfolding ensure_iov_space
sends-ensure c w = ground arith

sends-start_message : (c : Conn) (w : World) → (start_message c w).1.sends ≡ w.sends
unfolding start_message
sends-start_message c w = elim (Bool-cases (message_full c)) [
  | inl e ↦ rw e (sends-add_msghdr c w)
  | inr e ↦ rw e refl
]

if_sends :
    (ok more : Bool) (x : Ret) (d : Conn) (v : World) (z : Conn) (ss : List SendReply)
    → (settle x).1.sends ≡ ss
    → v.sends ≡ ss
    → (settle (if ok then if more then x else ret_ok d v else ret_error z v)).1.sends ≡ ss
unfolding settle
if_sends true true x d v z ss h k = h
if_sends true false x d v z ss h k = k
if_sends false more x d v z ss h k = k

sends-add_iov :
    (fuel : ℕ) (c : Conn) (w : World) (buf : Bytes)
    → (settle (add_iov fuel c w buf)).1.sends ≡ w.sends
unfolding add_iov
sends-add_iov zero c w buf = unfold settle in refl
sends-add_iov (suc fuel) c w buf =
    let s = start_message c w in
    let r = ensure_iov_space s.0 s.1 in
    let n = chunk_length (limit_to_mtu c) r.1 (length buf) in
    let h : r.2.sends ≡ w.sends = sends-ensure s.0 s.1 ∙ sends-start_message c w in
    if_sends r.0 (ltb n (length buf)) _ (put_chunk r.1 (take n buf)) r.2 r.1 w.sends
      (sends-add_iov fuel (put_chunk r.1 (take n buf)) r.2 (drop n buf) ∙ h) h

sends-add_iov_all :
    (c : Conn) (w : World) (buf : Bytes) → (settle (add_iov_all c w buf)).1.sends ≡ w.sends
unfolding add_iov_all
sends-add_iov_all c w buf = sends-add_iov (suc (suc (suc (length w.allocs)))) c w buf

sends-add_part : (c : Conn) (w : World) (buf : Bytes) → (add_part (c, w) buf).1.sends ≡ w.sends
unfolding add_part
sends-add_part c w [] = refl
sends-add_part c w (b ∷ buf) = sends-add_iov_all c w (b ∷ buf)

sends-add_bin_header :
    (c : Conn) (w : World) (err len : ℕ) → (add_bin_header c w err len).1.sends ≡ w.sends
unfolding add_bin_header out_string
sends-add_bin_header c w err len =
    let a = add_msghdr (clear_messages c) w in
    elim (Bool-cases a.0) [
      | inl e ↦ rw e (
          sends-add_iov_all
            (record a.1 { wbuf = write_at a.1.wbuf 0 (response_header err len (drop 2 a.1.wbuf)) })
            a.2 (response_header err len (drop 2 a.1.wbuf))
          ∙ sends-add_msghdr (clear_messages c) w)
      | inr e ↦
          rw e (sends-add_msghdr (clear_messages a.1) a.2 ∙ sends-add_msghdr (clear_messages c) w)
    ]

sends-write_bin_response :
    (c : Conn) (w : World) (body : Bytes) → (write_bin_response c w body).1.sends ≡ w.sends
unfolding write_bin_response
sends-write_bin_response c w body =
    let r = add_bin_header c w 0 (length body) in
    sends-add_part r.0 r.1 body ∙ sends-add_bin_header c w 0 (length body)

pub sends-reply_to :
    (get : Bytes → Option (List Bytes)) (c : Conn) (w : World) (res : List Bytes)
    → get (request_key c.bodylen (drop 4 (item_value c))) ≡ some res
    → w.allocs ≡ []
    → reply_length res 4 + 1 < int_limit
    → (reply_to get c w).1.sends ≡ w.sends
unfolding reply_to asked_key calloc_size
sends-reply_to get c w res f free less =
    let less_int : ltb ((reply_length res 4 + 1) % 2 ^ 32) int_limit ≡ true = ground arith in
    let body = response_body (word_at (item_value c)) res in
    rw (f, reply_to, free, less_int)
      (sends-write_bin_response (record c { write_and_free = some body }) (record w { allocs = [] })
        body)
