-- ===== src/Conn/Answer/Exchange.antt =====
-- A request and its answer: `drive_machine` of server.cpp from the body of a request to the state
-- for the next one.
use prefix_match_server.Prelude.{
  ℕ, ◌+◌, ◌^◌, ◌≤◌, ◌<◌, ◌≡◌, refl, sym, ap, ◌∙◌, subst, true, false, Option, some, List, [], ◌∷◌,
  ◌++◌, append_assoc, arith, Bytes, ◌==◌, if◌then◌else◌, length, take, drop, take-append-drop,
  take-length_append,
}
use mathlib.Core.Path.{ap₂}
use prefix_match_server.Search.Query.{c_str}
use prefix_match_server.Wire.Words.{put32}
use prefix_match_server.Wire.Response.{
  reply_length, response_header, response_body, client_read, default_get_number,
}
use prefix_match_server.Wire.Response.RoundTrip.{
  Short, client_read-response_body, reply_length-response_body,
}
use prefix_match_server.Conn.State.{int_limit, Conn, World, conn_nread, conn_mwrite, conn_new_cmd}
use prefix_match_server.Conn.Command.{
  item_value, header_size, request_key, reply_to, complete_nread, asked_key, writes_behind,
}
use prefix_match_server.Conn.Command.Placed.{HasRoom}
use prefix_match_server.Conn.Output.Sent.{unsent}
use prefix_match_server.Conn.Machine.{next_turn, on_nread, turn, turn_in}
use prefix_match_server.Conn.Machine.Body.{Arrives, Arrives-Moved, item_value-Arrives}
use prefix_match_server.Conn.Machine.Stream.{stream}
use prefix_match_server.Conn.Answer.Built.{ok_header, request_key-item, reply_to-Built}
use prefix_match_server.Conn.Answer.Delivers.{Delivers, Delivers-unsent}
use prefix_match_server.Conn.Answer.Comes.{Comes, Takes, turns-Comes}
use prefix_match_server.Conn.Answer.Flows.{Full-Ready}
use prefix_match_server.Conn.Answer.Ready.{reply_to-Full}
use prefix_match_server.Conn.Answer.Sends.{sends-reply_to}

pub same_length : (xs ys us vs : Bytes) → xs ++ us ≡ ys ++ vs → length xs ≡ length ys → xs ≡ ys
same_length xs ys us vs e n =
    sym (take-length_append xs us) ∙ ap₂ take n e ∙ take-length_append ys vs

-- The body that arrived, in front of what stands behind it in the buffer.
value-Arrived :
    (d : Conn) (body str rest : Bytes) (n : ℕ)
    → d.bodylen ≡ n
    → length body ≡ n
    → (length (take d.bodylen (item_value d)) ≡ n)
      × (take d.bodylen (item_value d) ++ str ≡ body ++ rest)
    → item_value d ≡ body ++ drop d.bodylen (item_value d)
value-Arrived d body str rest n b lb (l, e) =
    sym (take-append-drop d.bodylen (item_value d))
    ∙ ap (λ x. x ++ drop d.bodylen (item_value d))
        (same_length (take d.bodylen (item_value d)) body str rest e (l ∙ sym lb))

-- The turn behind the last byte of a body, if the answer of `Get` and a byte more are below the limit
-- of an int.
turn_complete :
    (get : Bytes → Option (List Bytes)) (d : Conn) (v : World) (n : ℕ) (res : List Bytes)
    → d.state ≡ conn_nread
    → d.rlbytes ≡ 0
    → get (asked_key d) ≡ some res
    → reply_length res 4 + 1 < int_limit
    → turn get d v n ≡ next_turn (reply_to get d v).0 (reply_to get d v).1 n
unfolding turn
turn_complete get d v n res st none_left found less =
    let z : (d.rlbytes == 0) ≡ true = ground arith in
    let inside : writes_behind v (get (asked_key d)) ≡ false =
      subst (λ o. writes_behind v o ≡ false) (sym found) (unfold writes_behind in ground arith) in
    ap (λ s. turn_in s get d v n) st
    ∙ unfold turn_in on_nread in unfold complete_nread in rw (z, inside) refl

-- What goes out for a request: a header of success with the length of the body, and the body.
abbrev pub answer : Conn → ℕ → List Bytes → Bytes
answer d number res = ok_header d (length (response_body number res)) ++ response_body number res

-- The client passes over the header, and reads the body.
client_read-answer :
    (d : Conn) (number : ℕ) (res : List Bytes)
    → 4 ≤ length d.wbuf
    → length res < 2 ^ 32
    → Short res
    → client_read (drop header_size (answer d number res))
      ≡ some (take (if number == 0 then default_get_number else number) res)
client_read-answer d number res room few short =
    ap client_read (behind d.wbuf room) ∙ client_read-response_body number res few short
  where
    behind :
        (b : Bytes)
        → 4 ≤ length b
        → drop 8 (
            response_header 0 (length (response_body number res)) (drop 2 b)
            ++ response_body number res)
          ≡ response_body number res
    behind (a0 ∷ a1 ∷ a2 ∷ a3 ∷ b) h = unfold response_header put32 in refl
    behind [] h = absurd (omega arith)
    behind (a0 ∷ []) h = absurd (omega arith)
    behind (a0 ∷ a1 ∷ []) h = absurd (omega arith)
    behind (a0 ∷ a1 ∷ a2 ∷ []) h = absurd (omega arith)

-- The connection that is to read a body of some length, with room for it, from the stream.
pub record Expects (len : ℕ) (after : Bytes) (d : Conn) (v : World) : Type 0 where
  pub state : d.state ≡ conn_nread
  pub has_room : HasRoom d
  pub all : d.rlbytes ≡ d.bodylen
  pub announced : d.bodylen ≡ len
  pub body : stream d v ≡ after

module _ (get : Bytes → Option (List Bytes)) (c d : Conn) (w v : World) (number : ℕ)
    (key rest : Bytes) (res : List Bytes)
    (expects : Expects (4 + length key) ((put32 number ++ key) ++ rest) c w)
    (arrives : Arrives get c w d v) (none_left : d.rlbytes ≡ 0) (small : number < 2 ^ 32)
    (found : get (c_str key) ≡ some res) (free : v.allocs ≡ [])
    (size : length (response_body number res) + 1 < int_limit) where
  less : reply_length res 4 + 1 < int_limit
  less = omega (arith, reply_length-response_body number res, size)

  bodylen-kept : d.bodylen ≡ 4 + length key
  bodylen-kept = (Arrives-Moved get c w expects.has_room arrives).2 ∙ expects.announced

  value : item_value d ≡ put32 number ++ (key ++ drop d.bodylen (item_value d))
  value =
      value-Arrived d (put32 number ++ key) (stream d v) rest (4 + length key) bodylen-kept
        (unfold put32 in omega arith) (arrived.0 ∙ expects.announced, arrived.1 ∙ expects.body)
      ∙ append_assoc (put32 number) key (drop d.bodylen (item_value d))
    where
      arrived :
          (length (take d.bodylen (item_value d)) ≡ c.bodylen)
          × (take d.bodylen (item_value d) ++ stream d v ≡ stream c w)
      arrived = item_value-Arrives get c w d v expects.has_room expects.all arrives none_left

  found_here : get (request_key d.bodylen (drop 4 (item_value d))) ≡ some res
  found_here =
      ap get (request_key-item d number key (drop d.bodylen (item_value d)) value bodylen-kept)
      ∙ found

  found_asked : get (asked_key d) ≡ some res
  found_asked = unfold asked_key in found_here

  built :
      ((reply_to get d v).0.state ≡ conn_mwrite)
      × (unsent (reply_to get d v).0 ≡ answer d number res)
  built =
      reply_to-Built get d v number key (drop d.bodylen (item_value d)) res value bodylen-kept small
        found free less

  -- On a connection that is to read a request of a count and a key, with room for it, of which
  -- nothing has arrived: after any turns that read it whole, while no allocation fails, and `Get`
  -- finds some results for the key, fewer than 2 ^ 32 and each shorter than 8096 bytes, the size of
  -- the client's buffer, with a body for them that is with a byte more below the limit of an int. The
  -- next turn leads to `conn_mwrite`, and what any turns from there to `conn_new_cmd` put on the wire
  -- is a header of success and the body for those results, from which the client reads as many of
  -- them, in order, as the count asks for (10 for 0).
  pub exchange :
      (n : ℕ) (bytes : Bytes) (e : Conn) (u : World)
      → d.state ≡ conn_nread
      → 4 ≤ length d.wbuf
      → length res < 2 ^ 32
      → Short res
      → Delivers get (reply_to get d v).0 (reply_to get d v).1 bytes e u
      → e.state ≡ conn_new_cmd
      → (turn get d v n ≡ next_turn (reply_to get d v).0 (reply_to get d v).1 n)
        × (bytes ≡ answer d number res)
        × (client_read (drop header_size bytes)
            ≡ some (take (if number == 0 then default_get_number else number) res))
  exchange n bytes e u st wide few short sends over =
      let out : bytes ≡ answer d number res =
        (Delivers-unsent get (reply_to get d v).0 (reply_to get d v).1 built.0 sends).1 over
        ∙ built.1 in
      (
        turn_complete get d v n res st none_left found_asked less,
        out,
        ap (λ b. client_read (drop header_size b)) out
            ∙ client_read-answer d number res wide few short,
      )

  -- On a connection that is to read a request of a count and a key, with room for it, of which
  -- nothing has arrived: after any turns that read it whole, while no allocation fails, and `Get`
  -- finds some results for the key, with a body for them that is with a byte more below the limit of an
  -- int: if `sendmsg` takes something
  -- each time, for as many times as the answer has bytes, then after the next turn there are turns that
  -- come to `conn_new_cmd`, and what they put on the wire is a header of success and the body.
  pub exchange_comes :
      (n : ℕ)
      → d.state ≡ conn_nread
      → length (answer d number res) ≤ length v.sends
      → Takes v.sends
      → (turn get d v n ≡ next_turn (reply_to get d v).0 (reply_to get d v).1 n)
        × (s : Comes get (reply_to get d v).0 (reply_to get d v).1) × (s.bytes
            ≡ answer d number res)
  exchange_comes n st enough takes =
      let kept = sends-reply_to get d v res found_here free less in
      let ready =
        Full-Ready (reply_to get d v).0 (reply_to-Full get d v res found_here free less).1 in
      let s =
        turns-Comes get (reply_to get d v).0 (reply_to get d v).1 built.0 ready
          (omega (arith, ap length built.1, ap length kept, enough))
          (subst Takes (sym kept) takes) in
      (
        turn_complete get d v n res st none_left found_asked less,
        s,
        (Delivers-unsent get (reply_to get d v).0 (reply_to get d v).1 built.0 s.delivers).1 s.new
            ∙ built.1,
      )
