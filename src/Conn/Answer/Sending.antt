-- ===== src/Conn/Answer/Sending.antt =====
-- The turns in `conn_mwrite`, and the bytes that `sendmsg` takes in each.
use prefix_match_server.Prelude.{
  ℕ, zero, suc, ◌≡◌, refl, sym, ap, ◌∙◌, inl, inr, true, Option, none, some, [], ◌++◌, append_assoc,
  arith, Bytes, ltb, ◌==◌, if◌then◌else◌, length, take, drop, set, take-append-drop, take_all,
  Bool-cases, Option-cases,
}
use prefix_match_server.Conn.State.{
  conn_closing, Conn, World, Message, SendReply, sent, send_blocks, send_fails, conn_set_state,
  update_event, ev_write_persist,
}
use prefix_match_server.Conn.Output.{
  TransmitResult, transmit_incomplete, transmit_hard_error, take_sent, message_size, current,
  advance, after_send, next_send, later_sends, transmit,
}
use prefix_match_server.Conn.Output.Added.{join, payload}
use prefix_match_server.Conn.Output.Sent.{
  unsent, unsent-advance, unsent-current, unsent-set, join-take_sent, length-join,
  unsent-update_event,
}

-- The bytes that `sendmsg` takes of the message it is given, for its answer.
unfoldable pub taken : Option Message → SendReply → Bytes
unfolding join
taken none reply = []
taken (some m) (sent n) = take n (join m)
taken (some m) send_blocks = []
taken (some m) send_fails = []

-- What a call of `transmit` puts on the wire.
unfoldable pub sent_by : Conn → World → Bytes
unfolding taken current advance
sent_by c w = taken (current (advance c)) (next_send w.sends)

-- As many bytes of a text as there are, if more are asked for.
take-clip :
    (bytes : Bytes) (size n : ℕ)
    → size ≡ length bytes
    → take n bytes ≡ take (if ltb size n then size else n) bytes
take-clip bytes size n e = elim (Bool-cases (ltb size n)) [
  | inl h ↦ rw h (take_all bytes n (ground arith) ∙ sym (take_all bytes size (ground arith)))
  | inr h ↦ rw h refl
]

take_none : (bytes : Bytes) (k : ℕ) → (k == 0) ≡ true → take k bytes ≡ []
take_none bytes zero h = refl
take_none bytes (suc k) h = absurd (ground arith)

module _ (c : Conn) (w : World) (m : Message) (h : current c ≡ some m) where
  abbrev after_some : ℕ → TransmitResult × Conn × World
  after_some k = if k == 0 then (transmit_hard_error, conn_set_state c conn_closing, w) else (
    transmit_incomplete,
    record c { messages = set c.messages c.msgcurr (take_sent k m) },
    w,
  )

  sent_some : (k : ℕ) → take k (join m) ++ unsent (after_some k).1 ≡ unsent c
  sent_some k = elim (Bool-cases (k == 0)) [
    | inl e ↦ rw e (ap (λ b. b ++ unsent c) (take_none (join m) k e))
    | inr e ↦ rw e (
        ap (◌++◌ (take k (join m))) (
          unsent-set c m (take_sent k m) h
          ∙ ap (λ b. b ++ payload (drop (suc c.msgcurr) c.messages)) (join-take_sent k m))
        ∙ sym (append_assoc (take k (join m)) (drop k (join m)) _)
        ∙ ap (λ b. b ++ payload (drop (suc c.msgcurr) c.messages)) (take-append-drop k (join m))
        ∙ sym (unsent-current c m h))
  ]

  pub taken-after_send :
      (reply : SendReply) → taken (some m) reply ++ unsent (after_send c w m reply).1 ≡ unsent c
  unfolding after_send taken
  taken-after_send (sent n) =
      ap (λ b. b ++ unsent (after_send c w m (sent n)).1)
        (take-clip (join m) (message_size m) n (length-join m))
      ∙ sent_some (if ltb (message_size m) n then message_size m else n)
  taken-after_send send_blocks = elim (Bool-cases (update_event c ev_write_persist w).0) [
    | inl e ↦ rw e (unsent-update_event c ev_write_persist w)
    | inr e ↦ rw e (unsent-update_event c ev_write_persist w)
  ]
  taken-after_send send_fails = refl

-- What a call of `transmit` puts on the wire, with what is left to send behind it, is what was left
-- to send before.
pub sent_by-unsent : (c : Conn) (w : World) → sent_by c w ++ unsent (transmit c w).1 ≡ unsent c
unfolding sent_by transmit
sent_by-unsent c w = elim (Option-cases (current (advance c))) [
  | inl e ↦ rw (e, transmit, taken) (unsent-advance c)
  | inr (m, e) ↦
      rw (e, transmit)
        (taken-after_send (advance c) (record w { sends = later_sends w.sends }) m e
            (next_send w.sends)
          ∙ unsent-advance c)
]
