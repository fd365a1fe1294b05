-- ===== src/Conn/Answer/Built.antt =====
-- What `write_bin_response` and `complete_nread` of server.cpp leave to send.
use prefix_match_server.Prelude.{
  ◌%◌, ltb, true, arith, ◌<◌, ◌^◌, ◌+◌, ℕ, ◌≡◌, refl, ap, ◌∙◌, inl, inr, false, ◌==◌, Bool-cases,
  ◌-◌, Option, some, List, [], ◌∷◌, ◌++◌, Bytes, length, take, drop,
}
use mathlib.Core.Path.{ap₂}
use prefix_match_server.Search.Query.{c_str}
use prefix_match_server.Wire.Words.{put32, get32-put32}
use prefix_match_server.Wire.Response.{reply_length, response_header, response_body}
use prefix_match_server.Conn.State.{int_limit, Conn, World, conn_mwrite, write_at}
use prefix_match_server.Conn.Output.{
  add_msghdr, clear_messages, add_bin_header, add_part, write_bin_response,
}
use prefix_match_server.Conn.Command.{
  request_key, item_value, word_at, reply_to, asked_key, calloc_size,
}
use prefix_match_server.Conn.Output.Added.{join, payload}
use prefix_match_server.Conn.Output.Sent.{unsent}
use prefix_match_server.Conn.Answer.Quiet.{
  Quiet, add_msghdr-Quiet, wbuf-add_msghdr, add_iov_all-Appends, add_part-Appends,
}

-- The header of a success, for a body of some length, with the padding that stands in `wbuf`.
abbrev pub ok_header : Conn → ℕ → Bytes
ok_header c len = response_header 0 len (drop 2 c.wbuf)

add_bin_header-Appends :
    (c : Conn) (w : World) (len : ℕ)
    → w.allocs ≡ []
    → Quiet 0 (add_bin_header c w 0 len)
      × (payload (add_bin_header c w 0 len).0.messages ≡ ok_header c len)
unfolding add_bin_header payload join
add_bin_header-Appends c w len free =
    let (ok, one, quiet) = add_msghdr-Quiet (clear_messages c) w free in
    let d = (add_msghdr (clear_messages c) w).1 in
    let v = (add_msghdr (clear_messages c) w).2 in
    let h = response_header 0 len (drop 2 d.wbuf) in
    let (q, e) = add_iov_all-Appends 0 (record d { wbuf = write_at d.wbuf 0 h }) v h quiet in
    let same = wbuf-add_msghdr (clear_messages c) w in
    rw ok (q, e ∙ ap (λ ms. payload ms ++ h) one ∙ ap (λ b. response_header 0 len (drop 2 b)) same)

unsent-start : (c : Conn) → c.msgcurr ≡ 0 → unsent c ≡ payload c.messages
unsent-start c e = ap (λ k. payload (drop k c.messages)) e

-- If no allocation fails, the answer that `write_bin_response` leaves to send, in `conn_mwrite`, is a
-- header with the length of the body, and the body.
pub write_bin_response-Built :
    (c : Conn) (w : World) (body : Bytes)
    → w.allocs ≡ []
    → ((write_bin_response c w body).0.state ≡ conn_mwrite)
      × (unsent (write_bin_response c w body).0 ≡ ok_header c (length body) ++ body)
unfolding write_bin_response
write_bin_response-Built c w body free =
    let (q, e) = add_bin_header-Appends c w (length body) free in
    let r = add_bin_header c w 0 (length body) in
    let (p, f) = add_part-Appends 0 r.0 r.1 body q in
    (refl, unsent-start (add_part r body).0 p.1 ∙ f ∙ ap (λ b. b ++ body) e)

-- The key of a request is the text in front of the first NUL, whatever stands behind the body.
request_key-append : (key tail : Bytes) → request_key (4 + length key) (key ++ tail) ≡ c_str key
unfolding request_key
request_key-append key tail =
    let n : 4 + length key - 4 ≡ length key = omega arith in
    let le : ltb (4 + length key) 4 ≡ false = ground arith in rw (le, n) (clip key)
  where
    clip : (k : Bytes) → take (length k) (c_str (k ++ tail)) ≡ c_str k
    clip [] = unfold c_str in refl
    clip (b ∷ k) = elim (Bool-cases (b == 0)) [
      | inl e ↦ unfold c_str in rw e refl
      | inr e ↦ unfold c_str in rw e (ap (◌∷◌ b) (clip k))
    ]

-- The count at the front of a body, and the key behind it.
pub word_at-put32 : (n : ℕ) (rest : Bytes) → n < 2 ^ 32 → word_at (put32 n ++ rest) ≡ n
unfolding word_at
word_at-put32 n rest h = rw (get32-put32 n rest h, word_at) refl

pub request_key-item :
    (c : Conn) (number : ℕ) (key tail : Bytes)
    → item_value c ≡ put32 number ++ (key ++ tail)
    → c.bodylen ≡ 4 + length key
    → request_key c.bodylen (drop 4 (item_value c)) ≡ c_str key
request_key-item c number key tail value len =
    let behind : drop 4 (put32 number ++ (key ++ tail)) ≡ key ++ tail = unfold put32 in refl in
    ap₂ request_key len (ap (drop 4) value ∙ behind) ∙ request_key-append key tail

-- A body that holds a count and a key, of which `Get` finds some results, while no allocation fails
-- and the body and a byte more are below the limit of an int: the answer that `complete_nread` leaves
-- to send, in `conn_mwrite`, is a header of success with the length of the body, and the body for the
-- count and the results.
pub reply_to-Built :
    (get : Bytes → Option (List Bytes)) (c : Conn) (w : World) (number : ℕ) (key tail : Bytes)
    (res : List Bytes)
    → item_value c ≡ put32 number ++ (key ++ tail)
    → c.bodylen ≡ 4 + length key
    → number < 2 ^ 32
    → get (c_str key) ≡ some res
    → w.allocs ≡ []
    → reply_length res 4 + 1 < int_limit
    → ((reply_to get c w).0.state ≡ conn_mwrite)
      × (unsent (reply_to get c w).0
          ≡ ok_header c (length (response_body number res)) ++ response_body number res)
unfolding reply_to asked_key calloc_size
reply_to-Built get c w number key tail res value len small found free less =
    let less_int : ltb ((reply_length res 4 + 1) % 2 ^ 32) int_limit ≡ true = ground arith in
    let k = request_key-item c number key tail value len in
    let n : word_at (item_value c) ≡ number =
      ap word_at value ∙ word_at-put32 number (key ++ tail) small in
    let f : get (request_key c.bodylen (drop 4 (item_value c))) ≡ some res = ap get k ∙ found in
    rw (f, reply_to, n, free, less_int)
      (write_bin_response-Built (record c { write_and_free = some (response_body number res) })
        (record w { allocs = [] }) (response_body number res) refl)
