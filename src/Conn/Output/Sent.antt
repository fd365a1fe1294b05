-- ===== src/Conn/Output/Sent.antt =====
-- The bytes that are left to send before and after `transmit`.
use prefix_match_server.Prelude.{
  ℕ, zero, suc, ◌+◌, ◌-◌, ◌≤◌, ◌<◌, ◌≡◌, refl, sym, ap, subst, ◌∙◌, ◌⊎◌, inl, inr, true, Option,
  none, some, List, [], ◌∷◌, ◌++◌, arith, Bytes, ltb, leb, ◌==◌, if◌then◌else◌, length, drop,
  get_elem?, set, Bool-cases, Option-cases, length-append, leb→le,
}
use prefix_match_server.Conn.State.{
  conn_closing, Conn, World, Message, SendReply, sent, send_blocks, send_fails, conn_set_state,
  update_event, ev_write_persist,
}
use prefix_match_server.Conn.Output.{
  TransmitResult, transmit_complete, transmit_incomplete, transmit_soft_error, transmit_hard_error,
  take_sent, message_size, current, is_done, advance, after_send, next_send, later_sends, transmit,
}
use prefix_match_server.Conn.Output.Added.{join, payload}

-- What is still to be sent.
abbrev pub unsent : Conn → Bytes
unsent c = payload (drop c.msgcurr c.messages)

pub drop-append : (n : ℕ) (xs ys : Bytes) → n ≤ length xs → drop n (xs ++ ys) ≡ drop n xs ++ ys
drop-append zero xs ys h = refl
drop-append (suc n) [] ys h = absurd (omega arith)
drop-append (suc n) (x ∷ xs) ys h = drop-append n xs ys (omega arith)

drop-past : (n : ℕ) (xs ys : Bytes) → length xs ≤ n → drop n (xs ++ ys) ≡ drop (n - length xs) ys
drop-past n [] ys h = ap (λ k. drop k ys) (omega arith)
drop-past zero (x ∷ xs) ys h = absurd (omega arith)
drop-past (suc n) (x ∷ xs) ys h =
    drop-past n xs ys (omega arith) ∙ ap (λ k. drop k ys) (omega arith)

pub length-join : (m : Message) → message_size m ≡ length (join m)
unfolding message_size join
length-join [] = refl
length-join (chunk ∷ m) = omega (arith, length-append chunk (join m), length-join m)

pub drop-nil : (n : ℕ) → drop {A = ℕ} n [] ≡ []
drop-nil zero = refl
drop-nil (suc n) = refl

pub join-take_sent : (res : ℕ) (m : Message) → join (take_sent res m) ≡ drop res (join m)
unfolding take_sent join
join-take_sent res [] = sym (drop-nil res)
join-take_sent res (chunk ∷ m) = elim (Bool-cases (leb (length chunk) res)) [
  | inl e ↦
      rw e
        (join-take_sent (res - length chunk) m ∙ sym (drop-past res chunk (join m) (leb→le _ _ e)))
  | inr e ↦ rw e (sym (drop-append res chunk (join m) (ground arith)))
]

pub drop-current :
    (ms : List Message) (k : ℕ) (m : Message)
    → get_elem? ms k ≡ some m
    → drop k ms ≡ m ∷ drop (suc k) ms
drop-current [] k m h = absurd (cc)
drop-current (x ∷ ms) zero m h = ap (λ y. y ∷ ms) (cc)
drop-current (x ∷ ms) (suc k) m h = drop-current ms k m h

drop-set :
    (ms : List Message) (k : ℕ) (m n : Message)
    → get_elem? ms k ≡ some m
    → drop k (set ms k n) ≡ n ∷ drop (suc k) ms
drop-set [] k m n h = absurd (cc)
drop-set (x ∷ ms) zero m n h = refl
drop-set (x ∷ ms) (suc k) m n h = drop-set ms k m n h

pub drop-end : (ms : List Message) (k : ℕ) → get_elem? ms k ≡ none → drop k ms ≡ []
drop-end [] zero h = refl
drop-end [] (suc k) h = refl
drop-end (x ∷ ms) zero h = absurd (cc)
drop-end (x ∷ ms) (suc k) h = drop-end ms k h

pub is_done-nil : (o : Option Message) → is_done o ≡ true → o ≡ some []
unfolding is_done
is_done-nil none h = absurd (cc)
is_done-nil (some []) h = refl
is_done-nil (some (chunk ∷ m)) h = absurd (cc)

pub unsent-advance : (c : Conn) → unsent (advance c) ≡ unsent c
unfolding advance
unsent-advance c = elim (Bool-cases (is_done (current c))) [
  | inl e ↦ rw e (
      let d = drop-current c.messages c.msgcurr [] (unfold current in is_done-nil (current c) e) in
      let k : c.msgcurr + 1 ≡ suc c.msgcurr = omega arith in
      ap (λ n. payload (drop n c.messages)) k ∙ unfold payload join in sym (ap payload d))
  | inr e ↦ rw e refl
]

-- What a call of `transmit` does to the bytes to be sent, for the answer of `sendmsg`.
abbrev pub Sends : Bytes → SendReply → TransmitResult × Conn × World → Type 0
Sends before reply (r, d, w) =
    ((r ≡ transmit_complete) × (before ≡ []) × (unsent d ≡ []))
    ⊎ ((n : ℕ) × (k : ℕ) × (reply ≡ sent n)
        × (r ≡ transmit_incomplete)
        × (0 < k)
        × (k ≤ n)
        × (k ≤ length before)
        × (unsent d ≡ drop k before))
    ⊎ (((r ≡ transmit_soft_error) ⊎ (r ≡ transmit_hard_error)) × (unsent d ≡ before))

pub unsent-current :
    (c : Conn) (m : Message)
    → current c ≡ some m
    → unsent c ≡ join m ++ payload (drop (suc c.msgcurr) c.messages)
unfolding current payload
unsent-current c m h = ap payload (drop-current c.messages c.msgcurr m h)

pub unsent-set :
    (c : Conn) (m n : Message)
    → current c ≡ some m
    → unsent (record c { messages = set c.messages c.msgcurr n })
      ≡ join n ++ payload (drop (suc c.msgcurr) c.messages)
unfolding current payload
unsent-set c m n h = ap payload (drop-set c.messages c.msgcurr m n h)

-- `k` bytes of the current message are sent.
sent_count :
    (c : Conn) (w : World) (m : Message) (n k : ℕ)
    → current c ≡ some m
    → k ≤ n
    → k ≤ message_size m
    → Sends (unsent c) (sent n) (
        if k == 0 then (transmit_hard_error, conn_set_state c conn_closing, w) else (
          transmit_incomplete,
          record c { messages = set c.messages c.msgcurr (take_sent k m) },
          w,
        ))
sent_count c w m n k h le size = elim (Bool-cases (k == 0)) [
  | inl e ↦ rw e (inr (inr (inr refl, refl)))
  | inr e ↦ rw e (
      inr (
        inl (
          n,
          k,
          refl,
          refl,
          ground arith,
          le,
          omega (
            arith,
            ap length (unsent-current c m h),
            length-append (join m) (payload (drop (suc c.msgcurr) c.messages)),
            length-join m,
          ),
          unsent-set c m (take_sent k m) h
              ∙ ap (λ b. b ++ payload (drop (suc c.msgcurr) c.messages)) (join-take_sent k m)
              ∙ sym (drop-append k (join m) _ (omega (arith, length-join m)))
              ∙ ap (drop k) (sym (unsent-current c m h)),
        )))
]

pub unsent-update_event :
    (c : Conn) (flags : ℕ) (w : World) → unsent (update_event c flags w).1 ≡ unsent c
unfolding update_event
unsent-update_event c flags w = ground arith

after_send-Sends :
    (c : Conn) (w : World) (m : Message) (reply : SendReply)
    → current c ≡ some m
    → Sends (unsent c) reply (after_send c w m reply)
unfolding after_send
after_send-Sends c w m (sent n) h =
    sent_count c w m n (if ltb (message_size m) n then message_size m else n) h (ground arith)
      (ground arith)
after_send-Sends c w m send_blocks h = elim (Bool-cases (update_event c ev_write_persist w).0) [
  | inl e ↦ rw e (inr (inr (inl refl, unsent-update_event c ev_write_persist w)))
  | inr e ↦ rw e (inr (inr (inr refl, unsent-update_event c ev_write_persist w)))
]
after_send-Sends c w m send_fails h = inr (inr (inr refl, refl))

-- In every state, `transmit` either finds nothing left to send; or it returns "incomplete", and
-- the bytes still to be sent are those from before without the first k, for a k above 0 that is at
-- most the number that `sendmsg` answered; or it returns an error and leaves them as they are.
pub transmit-Sends : (c : Conn) (w : World) → Sends (unsent c) (next_send w.sends) (transmit c w)
unfolding transmit
transmit-Sends c w = elim (Option-cases (current (advance c))) [
  | inl e ↦ rw (e, transmit) (inl (refl, sym (unsent-advance c) ∙ nothing e, nothing e))
  | inr (m, e) ↦
      rw (e, transmit)
        (from_advance
          (after_send (advance c) (record w { sends = later_sends w.sends }) m (next_send w.sends))
          (after_send-Sends (advance c) _ m (next_send w.sends) e))
]
  where
    nothing : current (advance c) ≡ none → unsent (advance c) ≡ []
    nothing e =
        ap payload (drop-end (advance c).messages (advance c).msgcurr (unfold current in e))
        ∙ unfold payload in refl

    from_advance :
        (r : TransmitResult × Conn × World)
        → Sends (unsent (advance c)) (next_send w.sends) r
        → Sends (unsent c) (next_send w.sends) r
    from_advance r h = subst (λ b. Sends b (next_send w.sends) r) (unsent-advance c) h
