-- ===== src/Conn/Machine/Sound/Reading.antt =====
-- The turns that read a body, and those that swallow bytes.
use prefix_match_server.Prelude.{
  ℕ, ◌^◌, ◌⊎◌, ◌&&◌, true, none, ◌+◌, ◌-◌, ◌≤◌, ◌≡◌, ◌≢◌, refl, sym, ◌∙◌, inl, inr, false, Option,
  some, List, arith, Bytes, ltb, ◌==◌, if◌then◌else◌, length, drop, Bool-cases, subst, Option-cases,
}
use prefix_match_server.Conn.State.{
  int_limit, ConnStates, conn_listening, conn_new_cmd, conn_nread, conn_swallow, conn_closing,
  conn_max_state, Conn, World, Io, received, would_block, failed, update_event, conn_set_state,
  head_flag, tail_flags, read, ev_read_persist,
}
use prefix_match_server.Conn.Read.Fits.{Fits, read-le, length-write_at}
use prefix_match_server.Conn.Command.{
  complete_nread, request_key, word_at, reply_to, asked_key, calloc_size, writes_behind,
}
use prefix_match_server.Wire.Response.{response_body, reply_length}
use prefix_match_server.Conn.Command.Placed.{HasRoom}
use prefix_match_server.Conn.Machine.{
  next_turn, overrun, wait_for, copy_leftovers, store_item, after_read, read_item, on_nread,
  swallow_leftovers, swallow_bytes, on_swallow,
}
use prefix_match_server.Conn.Machine.Bounds.{
  copy_leftovers-Within, no_leftovers, store_item-Within, set_state-Within, update_event-Within,
}
use prefix_match_server.Conn.Machine.Untouched.{
  update_event-Same, Answers, write_bin_error-Answers, write_bin_response-Answers,
}
use prefix_match_server.Conn.Machine.Sound.{
  Goes, Sound, Quiet, Keeps, Quiet-Sound, same-Sound, Fits-state, wait_for-Keeps,
}

-- The body is being read, with room.
pub reads-Sound : (d : Conn) → HasRoom d → d.state ≡ conn_nread → Goes d.write_and_go → Sound d
reads-Sound d h e g = record {
  fits = h.fits;
  client = ((λ z. absurd (not_listening (sym e ∙ z))), (λ z. absurd (not_max (sym e ∙ z))));
  goes = g;
  reading = λ _. h;
}
  where
    not_listening : conn_nread ≢ conn_listening
    not_listening z = cc

    not_max : conn_nread ≢ conn_max_state
    not_max z = cc

module _ (o : Type 0) where
  pub closing-Sound :
      (c : Conn) → Fits c → Goes c.write_and_go → Sound (conn_set_state c conn_closing)
  closing-Sound c f g =
      Quiet-Sound (conn_set_state c conn_closing) (Fits-state c conn_closing f) tt g

  pub after_read-Keeps :
      (store : Bytes → Conn) (s : ConnStates) (c : Conn) (io : Io) (w : World) (n : ℕ)
      → Fits c
      → Goes c.write_and_go
      → ((bytes : Bytes) → io ≡ received bytes → Sound (store bytes))
      → Keeps o (wait_for s ev_read_persist c w n)
      → Keeps o (after_read store s c io w n)
  unfolding after_read
  after_read-Keeps store s c (received bytes) w n f g k wait =
      elim (Bool-cases (length bytes == 0)) [
        | inl e ↦ rw e (closing-Sound c f g)
        | inr e ↦ rw e (k bytes refl)
      ]
  after_read-Keeps store s c would_block w n f g k wait = wait
  after_read-Keeps store s c failed w n f g k wait = closing-Sound c f g

  pub wait_nread-Keeps :
      (c : Conn) (w : World) (n : ℕ)
      → HasRoom c
      → Goes c.write_and_go
      → Keeps o (wait_for conn_nread ev_read_persist c w n)
  unfolding wait_for
  wait_nread-Keeps c w n h g =
      let d = (update_event c ev_read_persist w).1 in
      let (b, st, go) = update_event-Same c ev_read_persist w in
      let g' = subst Goes (sym go) g in
      let r = update_event-Within (c.ritem + c.rlbytes) c ev_read_persist w (h, refl) in
      elim (Bool-cases (update_event c ev_read_persist w).0) [
        | inl e ↦ rw e (
            reads-Sound (conn_set_state d conn_nread) (set_state-Within _ d conn_nread r).0 refl g')
        | inr e ↦ rw e (closing-Sound d r.0.fits g')
      ]

  read_item-Keeps :
      (c : Conn) (w : World) (n : ℕ)
      → HasRoom c
      → c.state ≡ conn_nread
      → c.rbytes ≡ 0
      → Goes c.write_and_go
      → Keeps o (read_item c w n)
  unfolding read_item
  read_item-Keeps c w n h e z g =
      after_read-Keeps (store_item c) conn_nread c (read c.rlbytes w.reads).0 _ n h.fits g
        (λ bytes r.
          reads-Sound (store_item c bytes)
            (store_item-Within (c.ritem + c.rlbytes) c bytes (h, refl) z
              (read-le c.rlbytes w.reads bytes r)).0
            (unfold store_item in e) (unfold store_item in g))
        (wait_nread-Keeps c _ n h g)

  pub answer-Sound : (c d : Conn) → Fits c → Answers c d → Sound d
  answer-Sound c d f (b, st, go) = same-Sound c d f b (subst Quiet (sym st) tt) (inl go)

  reply_to-Sound :
      (get : Bytes → Option (List Bytes)) (c : Conn) (w : World)
      → Fits c
      → Sound (reply_to get c w).0
  unfolding reply_to asked_key calloc_size
  reply_to-Sound get c w f = elim (Option-cases (get key)) [
    | inl e ↦ rw (e, reply_to) (answer-Sound c _ f (write_bin_error-Answers c w))
    | inr (res, e) ↦
        rw (e, reply_to)
          (elim (Bool-cases (head_flag w.allocs && ltb (calloc_size res) int_limit)) [
            | inl e2 ↦ rw e2 (
                answer-Sound (record c { write_and_free = some (body res) }) _
                  (record { sized = f.sized; within = f.within; room = f.room; small = f.small })
                  (write_bin_response-Answers (record c { write_and_free = some (body res) })
                    (record w { allocs = tail_flags w.allocs }) (body res)))
            | inr e2 ↦ rw e2 (
                answer-Sound c _ f
                  (write_bin_error-Answers c (record w { allocs = tail_flags w.allocs })))
          ])
  ]
    where
      value : Bytes
      value = drop (c.ritem - c.bodylen) c.rbuf

      key : Bytes
      key = request_key c.bodylen (drop 4 value)

      body : List Bytes → Bytes
      body res = response_body (word_at value) res

  pub on_nread-Keeps :
      (get : Bytes → Option (List Bytes)) (c : Conn) (w : World) (n : ℕ)
      → HasRoom c
      → c.state ≡ conn_nread
      → Goes c.write_and_go
      → ((res : List Bytes) → get (asked_key c) ≡ some res → 2 ^ 32 ≤ reply_length res 4 + 1 → o)
      → Keeps o (on_nread get c w n)
  unfolding on_nread
  on_nread-Keeps get c w n h e g long = elim (Bool-cases (c.rlbytes == 0)) [
    | inl z ↦ rw z (answered (Bool-cases (writes_behind w (get (asked_key c)))))
    | inr z ↦ rw z (elim (Bool-cases (ltb 0 c.rbytes)) [
      | inr y ↦ rw y (read_item-Keeps c w n h e (ground arith) g)
      | inl y ↦ rw y (elim (Bool-cases ((copy_leftovers c).rlbytes == 0)) [
        | inl x ↦ rw x (
            reads-Sound (copy_leftovers c) copied (unfold copy_leftovers in e)
              (unfold copy_leftovers in g))
        | inr x ↦ rw x (
            read_item-Keeps (copy_leftovers c) w n copied (unfold copy_leftovers in e)
              (no_leftovers c x) (unfold copy_leftovers in g))
      ])
    ])
  ]
    where
      behind-long : (r : Option (List Bytes)) → get (asked_key c) ≡ r → writes_behind w r ≡ true → o
      behind-long none q b = unfold writes_behind in absurd (cc)
      behind-long (some res) q b = long res q (unfold writes_behind in ground arith)

      answered :
          (writes_behind w (get (asked_key c)) ≡ true)
            ⊎ (writes_behind w (get (asked_key c)) ≡ false)
          → Keeps o
              (elim (complete_nread get c w) [ none ↦ overrun | some (d, v) ↦ next_turn d v n ])
      answered (inl b) = unfold complete_nread in rw b (behind-long (get (asked_key c)) refl b)
      answered (inr b) = unfold complete_nread in rw b (reply_to-Sound get c w h.fits)

      copied : HasRoom (copy_leftovers c)
      copied = (copy_leftovers-Within (c.ritem + c.rlbytes) c (h, refl)).0

  pub on_swallow-Keeps :
      (c : Conn) (w : World) (n : ℕ) → Sound c → c.state ≡ conn_swallow → Keeps o (on_swallow c w n)
  unfolding on_swallow
  on_swallow-Keeps c w n h e = elim (Bool-cases (c.sbytes == 0)) [
    | inl z ↦
        rw z
          (Quiet-Sound (conn_set_state c conn_new_cmd) (Fits-state c conn_new_cmd h.fits) tt h.goes)
    | inr z ↦ rw z (elim (Bool-cases (ltb 0 c.rbytes)) [
      | inl y ↦ rw y (
          Quiet-Sound (swallow_leftovers c) passed
            (unfold swallow_leftovers in subst Quiet (sym e) tt)
            (unfold swallow_leftovers in h.goes))
      | inr y ↦ rw y (
          after_read-Keeps (swallow_bytes c) conn_swallow c (read room w.reads).0
            (record w { reads = (read room w.reads).1 }) n h.fits h.goes
            (λ bytes r.
              Quiet-Sound (swallow_bytes c bytes) (swallowed y bytes (read-le room w.reads bytes r))
                (unfold swallow_bytes in subst Quiet (sym e) tt) (unfold swallow_bytes in h.goes))
            (wait_for-Keeps o conn_swallow ev_read_persist c
              (record w { reads = (read room w.reads).1 }) n h.fits h.goes tt))
    ])
  ]
    where
      f : Fits c
      f = h.fits

      room : ℕ
      room = if ltb c.sbytes c.rsize then c.sbytes else c.rsize

      room-le : room ≤ c.rsize
      room-le = ground arith

      passed : Fits (swallow_leftovers c)
      passed =
          unfold swallow_leftovers in
          record {
            sized = f.sized;
            within = ground (arith, f.within);
            room = f.room;
            small = f.small;
          }

      swallowed :
          ltb 0 c.rbytes ≡ false
          → (bytes : Bytes) → length bytes ≤ room
          → Fits (swallow_bytes c bytes)
      swallowed y bytes le =
          unfold swallow_bytes in
          record {
            sized = length-write_at c.rbuf bytes 0 (omega (arith, f.sized, room-le, le)) ∙ f.sized;
            within = f.within;
            room = f.room;
            small = f.small;
          }
