-- ===== src/Conn/Answer/Ready.antt =====
-- What is left to send is never an empty part of a message, from `complete_nread` of server.cpp to
-- the last `sendmsg`.
use prefix_match_server.Prelude.{
  ◌%◌, ltb, true, arith, ◌<◌, ◌^◌, ◌+◌, ℕ, suc, ◌≡◌, ◌≢◌, refl, inl, inr, Option, some, List, [],
  ◌∷◌, Bytes, ◌==◌, length, drop, Bool-cases,
}
use prefix_match_server.Wire.Response.{reply_length, response_header, response_body}
use prefix_match_server.Conn.State.{int_limit, Conn, World, write_at}
use prefix_match_server.Conn.Output.{
  Ret, ret_ok, ret_error, ret_unfinished, add_msghdr, add_iov, add_iov_all, settle, clear_messages,
  add_bin_header, add_part, write_bin_response,
}
use prefix_match_server.Conn.Output.Finishes.{add_iov-Finishes}
use prefix_match_server.Conn.Command.{
  request_key, item_value, word_at, reply_to, asked_key, calloc_size,
}
use prefix_match_server.Conn.Answer.Quiet.{
  Quiet, add_msghdr-Quiet, add_iov_all-Appends, add_part-Appends,
}
use prefix_match_server.Conn.Answer.Full.{Full, Open, FullRet, add_iov-Full}

settled-Full :
    (r : Ret) (d : Conn) (v : World) → r ≡ ret_ok d v → FullRet r → Full (settle r).0.messages
unfolding settle
settled-Full (ret_ok x u) d v e h = h
settled-Full (ret_error x u) d v e h = absurd (cc)
settled-Full (ret_unfinished x u) d v e h = absurd (cc)

add_iov_all-Full :
    (c : Conn) (w : World) (buf : Bytes)
    → w.allocs ≡ []
    → c.messages ≢ []
    → Open c
    → 0 < length buf
    → Full (settle (add_iov_all c w buf)).0.messages
unfolding add_iov_all
add_iov_all-Full c w buf free ne h pos =
    let n = suc (suc (suc (length w.allocs))) in
    let (d, v, r) = add_iov-Finishes (length w.allocs) c w buf free ne in
    settled-Full (add_iov n c w buf) d v r (add_iov-Full n c w buf free h pos)

add_part-Full :
    (c : Conn) (w : World) (buf : Bytes)
    → Quiet 0 (c, w)
    → Full c.messages
    → Full (add_part (c, w) buf).0.messages
unfolding add_part
add_part-Full c w [] q h = h
add_part-Full c w (b ∷ buf) (ne, k, free) h =
    add_iov_all-Full c w (b ∷ buf) free ne (inl h) (omega arith)

msgbytes-add_msghdr : (c : Conn) (w : World) → w.allocs ≡ [] → (add_msghdr c w).1.msgbytes ≡ 0
unfolding add_msghdr
msgbytes-add_msghdr c w free = elim (Bool-cases (c.msgsize == length c.messages)) [
  | inl e ↦ rw (e, free) refl
  | inr e ↦ rw e refl
]

add_bin_header-Full :
    (c : Conn) (w : World) (len : ℕ)
    → w.allocs ≡ []
    → Quiet 0 (add_bin_header c w 0 len) × Full (add_bin_header c w 0 len).0.messages
unfolding add_bin_header
add_bin_header-Full c w len free =
    let (ok, one, quiet) = add_msghdr-Quiet (clear_messages c) w free in
    let d = (add_msghdr (clear_messages c) w).1 in
    let v = (add_msghdr (clear_messages c) w).2 in
    let h = response_header 0 len (drop 2 d.wbuf) in
    let x = record d { wbuf = write_at d.wbuf 0 h } in
    let pos : 0 < length h = unfold response_header in omega arith in
    rw ok (
      (add_iov_all-Appends 0 x v h quiet).0,
      add_iov_all-Full x v h quiet.2 quiet.0
          (inr ([], tt, one, msgbytes-add_msghdr (clear_messages c) w free)) pos,
    )

write_bin_response-Full :
    (c : Conn) (w : World) (body : Bytes)
    → w.allocs ≡ []
    → Quiet 0 (write_bin_response c w body) × Full (write_bin_response c w body).0.messages
unfolding write_bin_response
write_bin_response-Full c w body free =
    let (q, h) = add_bin_header-Full c w (length body) free in
    let r = add_bin_header c w 0 (length body) in
    ((add_part-Appends 0 r.0 r.1 body q).0, add_part-Full r.0 r.1 body q h)

pub reply_to-Full :
    (get : Bytes → Option (List Bytes)) (c : Conn) (w : World) (res : List Bytes)
    → get (request_key c.bodylen (drop 4 (item_value c))) ≡ some res
    → w.allocs ≡ []
    → reply_length res 4 + 1 < int_limit
    → Quiet 0 (reply_to get c w) × Full (reply_to get c w).0.messages
unfolding reply_to asked_key calloc_size
reply_to-Full get c w res f free less =
    let less_int : ltb ((reply_length res 4 + 1) % 2 ^ 32) int_limit ≡ true = ground arith in
    let body = response_body (word_at (item_value c)) res in
    rw (f, reply_to, free, less_int)
      (write_bin_response-Full (record c { write_and_free = some body }) (record w { allocs = [] })
        body refl)
