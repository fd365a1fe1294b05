-- ===== src/Conn/Answer/Comes.antt =====
-- `drive_machine` of server.cpp sends a whole answer, if `sendmsg` always takes something.
use prefix_match_server.Prelude.{
  ℕ, zero, suc, ◌≤◌, ◌<◌, ◌≡◌, refl, sym, ap, ◌∙◌, subst, inl, inr, Option, none, some, List, [],
  ◌∷◌, ◌++◌, arith, Bytes, length, drop, All, Option-cases, length-append,
}
use prefix_match_server.Conn.State.{
  Conn, World, Message, SendReply, sent, conn_mwrite, conn_new_cmd,
}
use prefix_match_server.Conn.Output.{
  TransmitResult, transmit_complete, transmit_incomplete, current, is_done, advance, next_send,
  later_sends, transmit,
}
use prefix_match_server.Conn.Output.Added.{join, payload}
use prefix_match_server.Conn.Output.Sent.{unsent, unsent-advance, unsent-current, length-join}
use prefix_match_server.Conn.Machine.{
  next_turn, free_answer, complete_in, after_complete, on_mwrite, turn_in, turn,
}
use prefix_match_server.Conn.Machine.Body.{Left}
use prefix_match_server.Conn.Answer.Delivers.{Delivers, start, send}
use prefix_match_server.Conn.Answer.Sending.{sent_by}
use prefix_match_server.Conn.Answer.Flows.{
  Ready, current-Started, after_send-Less, size_positive, advance-Ready,
}

-- Every answer of `sendmsg` takes something.
abbrev pub Takes : List SendReply → Type 0
Takes sends = All (λ s. (n : ℕ) × (s ≡ sent n) × (0 < n)) sends

next-Takes :
    (sends : List SendReply)
    → Takes sends
    → 0 < length sends
    → (n : ℕ) × (next_send sends ≡ sent n)
      × (0 < n)
      × Takes (later_sends sends)
      × (length sends ≡ suc (length (later_sends sends)))
next-Takes [] h pos = absurd (omega arith)
next-Takes (s ∷ ss) (h, t) pos = (h.0, h.1, h.2, t, refl)

advance_same :
    (c : Conn) → ((advance c).state ≡ c.state) × ((advance c).write_and_free ≡ c.write_and_free)
unfolding advance
advance_same c = ground arith

some_left :
    (c : Conn) (m : Message) → Ready c → current (advance c) ≡ some m → 0 < length (unsent c)
some_left c m h e =
    let (ch, st) = current-Started c m h e in
    let rest = payload (drop (suc (advance c).msgcurr) (advance c).messages) in
    omega (
      arith,
      ap length (sym (unsent-advance c) ∙ unsent-current (advance c) m e),
      length-append (join m) rest,
      length-join m,
      size_positive m ch st,
    )

-- What the answer of `transmit` leads to.
module _ (c d : Conn) (w v : World) where
  mwrite_complete :
      transmit c w ≡ (transmit_complete, d, v) → on_mwrite c w 0 ≡ next_turn (after_complete d) v 0
  unfolding on_mwrite
  mwrite_complete t =
      rw (t, on_mwrite)
        (ap (λ (r : TransmitResult × Conn × World). next_turn (after_complete r.1) r.2 0) t)

  mwrite_incomplete : transmit c w ≡ (transmit_incomplete, d, v) → on_mwrite c w 0 ≡ next_turn d v 0
  unfolding on_mwrite
  mwrite_incomplete t =
      rw (t, on_mwrite) (ap (λ (r : TransmitResult × Conn × World). next_turn r.1 r.2 0) t)

module _ (get : Bytes → Option (List Bytes)) (c : Conn) (w : World)
    (st : c.state ≡ conn_mwrite) where
  turn_mwrite : turn get c w 0 ≡ on_mwrite c w 0
  unfolding turn turn_in
  turn_mwrite = ap (λ s. turn_in s get c w 0) st

  complete_turn :
      current (advance c) ≡ none
      → turn get c w 0 ≡ next_turn (free_answer c.write_and_free (advance c)) w 0
  complete_turn e = turn_mwrite ∙ sends ∙ ap (λ d. next_turn d w 0) frees
    where
      sends : on_mwrite c w 0 ≡ next_turn (after_complete (advance c)) w 0
      sends = mwrite_complete c (advance c) w w (unfold transmit in rw (e, transmit) refl)

      frees : after_complete (advance c) ≡ free_answer c.write_and_free (advance c)
      frees =
          unfold after_complete complete_in in
          ap (λ s. complete_in s (advance c)) ((advance_same c).0 ∙ st)
          ∙ ap (λ a. free_answer a (advance c)) (advance_same c).1

  more_turn :
      (m : Message) (n : ℕ)
      → Ready c
      → current (advance c) ≡ some m
      → next_send w.sends ≡ sent n
      → 0 < n
      → (d : Conn) × (turn get c w 0 ≡ next_turn d (record w { sends = later_sends w.sends }) 0)
        × Ready d
        × (d.state ≡ conn_mwrite)
        × (length (unsent d) < length (unsent c))
  more_turn m n h e reply pos =
      let (ch, some_chunk) = current-Started c m h e in
      let v = record w { sends = later_sends w.sends } in
      let (d, s, r, same, less) =
        after_send-Less (advance c) v m n (advance-Ready c h) e ch some_chunk pos in
      let t : transmit c w ≡ (transmit_incomplete, d, v) =
        unfold transmit in rw (e, transmit, reply) s in
      (
        d,
        turn_mwrite ∙ mwrite_incomplete c d w v t,
        r,
        same ∙ (advance_same c).0 ∙ st,
        omega (arith, less, ap length (unsent-advance c)),
      )

freed_done :
    (c : Conn) (buf : Bytes)
    → current c ≡ none
    → current (advance (free_answer (some buf) c)) ≡ none
unfolding advance free_answer current is_done
freed_done c buf e = rw (e, is_done) e

-- The turns from a connection to `conn_new_cmd`, with what they put on the wire.
pub record Comes (get : Bytes → Option (List Bytes)) (c : Conn) (w : World) : Type 0 where
  pub bytes : Bytes
  pub last : Conn
  pub world : World
  pub delivers : Delivers get c w bytes last world
  pub new : last.state ≡ conn_new_cmd

module _ (get : Bytes → Option (List Bytes)) (c : Conn) (w : World) where
  -- One turn more.
  one_more :
      {bytes : Bytes} {d : Conn} {v : World} (e : Conn) (u : World)
      → Delivers get c w bytes d v
      → d.state ≡ conn_mwrite
      → turn get d v 0 ≡ next_turn e u 0
      → Delivers get c w (bytes ++ sent_by d v) e u
  one_more e u r st t = send 0 r st (subst (Left e u) (sym t) (refl, refl))

  freed-Comes :
      {bytes : Bytes} {d : Conn} {v : World}
      → d.write_and_free ≡ none
      → Delivers get c w bytes d v
      → d.state ≡ conn_mwrite
      → current (advance d) ≡ none
      → Comes get c w
  freed-Comes {d = d} {v = v} f r st e = record {
    bytes = _;
    last = free_answer none (advance d);
    world = v;
    delivers =
        one_more _ v r st
          (complete_turn get d v st e ∙ ap (λ a. next_turn (free_answer a (advance d)) v 0) f);
    new = unfold free_answer in refl;
  }

  complete-Comes :
      (a : Option Bytes) {bytes : Bytes} {d : Conn} {v : World}
      → d.write_and_free ≡ a
      → Delivers get c w bytes d v
      → d.state ≡ conn_mwrite
      → current (advance d) ≡ none
      → Comes get c w
  complete-Comes none f r st e = freed-Comes f r st e
  complete-Comes (some buf) {d = d} {v = v} f r st e =
      freed-Comes {d = free_answer (some buf) (advance d)} {v = v} (unfold free_answer in refl)
        (one_more (free_answer (some buf) (advance d)) v r st
          (complete_turn get d v st e ∙ ap (λ a. next_turn (free_answer a (advance d)) v 0) f))
        (unfold free_answer in (advance_same d).0 ∙ st) (freed_done (advance d) buf e)

  go :
      (k : ℕ) {bytes : Bytes} (d : Conn) (v : World)
      → Delivers get c w bytes d v
      → d.state ≡ conn_mwrite
      → Ready d
      → length (unsent d) ≤ k
      → k ≤ length v.sends
      → Takes v.sends
      → Comes get c w
  go zero d v r st h le room takes = elim (Option-cases (current (advance d))) [
    | inl e ↦ complete-Comes d.write_and_free refl r st e
    | inr (m, e) ↦ absurd (omega (arith, some_left d m h e, le))
  ]
  go (suc k) d v r st h le room takes = elim (Option-cases (current (advance d))) [
    | inl e ↦ complete-Comes d.write_and_free refl r st e
    | inr (m, e) ↦
        let (n, reply, pos, later, len) = next-Takes v.sends takes (omega (arith, room)) in
        let (x, t, ready, same, less) = more_turn get d v st m n h e reply pos in
        go k x (record v { sends = later_sends v.sends }) (one_more x _ r st t) same ready
          (omega (arith, less, le)) (omega (arith, len, room)) later
  ]

-- For a connection in `conn_mwrite` with no empty part of a message to send: if `sendmsg` takes
-- something each time, for as many times as there are bytes to send, then turns come to
-- `conn_new_cmd`, and what they put on the wire is all that was to be sent.
pub turns-Comes :
    (get : Bytes → Option (List Bytes)) (c : Conn) (w : World)
    → c.state ≡ conn_mwrite
    → Ready c
    → length (unsent c) ≤ length w.sends
    → Takes w.sends
    → Comes get c w
turns-Comes get c w st h room takes =
    go get c w (length (unsent c)) c w start st h (omega arith) room takes
