-- ===== src/Conn/Answer/Flows.antt =====
-- The turns in `conn_mwrite` come to `conn_new_cmd` if `sendmsg` always takes something.
use prefix_match_server.Prelude.{
  ℕ, zero, suc, ◌+◌, ◌-◌, ◌<◌, ◌≡◌, refl, sym, ap, ◌∙◌, subst, inl, inr, true, false, Option, none,
  some, List, [], ◌∷◌, ◌++◌, arith, ltb, leb, ◌==◌, if◌then◌else◌, length, drop, All, get_elem?,
  set, Bool-cases, length-drop, length-append, length-take, take,
}
use prefix_match_server.Conn.State.{Conn, World, Message, sent}
use prefix_match_server.Conn.Output.{
  TransmitResult, transmit_incomplete, take_sent, message_size, current, is_done, advance,
  after_send,
}
use prefix_match_server.Conn.Output.Sent.{unsent, drop-current, length-join}
use prefix_match_server.Conn.Output.Added.{join}
use prefix_match_server.Conn.Answer.Sending.{taken, taken-after_send}
use prefix_match_server.Conn.Answer.Full.{Chunks, Full}

abbrev Started : Message → Type 0
Started m = 0 < length m

-- No chunk is empty, and no message behind the current one.
pub record Ready (c : Conn) : Type 0 where
  chunks : All Chunks c.messages
  later : All Started (drop (suc c.msgcurr) c.messages)

module _ (P : Message → Type 0) where
  All-get : (ms : List Message) (k : ℕ) (m : Message) → All P ms → get_elem? ms k ≡ some m → P m
  All-get [] k m h e = absurd (cc)
  All-get (x ∷ ms) zero m h e = subst P (ap (λ o. elim o [ none ↦ x | some y ↦ y ]) e) h.0
  All-get (x ∷ ms) (suc k) m h e = All-get ms k m h.1 e

  All-drop : (ms : List Message) (k : ℕ) → All P ms → All P (drop k ms)
  All-drop ms zero h = h
  All-drop [] (suc k) h = tt
  All-drop (x ∷ ms) (suc k) h = All-drop ms k h.1

  All-next : (ms : List Message) (k : ℕ) → All P (drop k ms) → All P (drop (suc k) ms)
  All-next [] k h = tt
  All-next (x ∷ ms) zero h = h.1
  All-next (x ∷ ms) (suc k) h = All-next ms k h

  All-set : (ms : List Message) (k : ℕ) (m : Message) → All P ms → P m → All P (set ms k m)
  All-set [] k m h p = tt
  All-set (x ∷ ms) zero m h p = (p, h.1)
  All-set (x ∷ ms) (suc k) m h p = (h.0, All-set ms k m h.1 p)

drop-set_later :
    (ms : List Message) (k : ℕ) (m : Message) → drop (suc k) (set ms k m) ≡ drop (suc k) ms
drop-set_later [] k m = refl
drop-set_later (x ∷ ms) zero m = refl
drop-set_later (x ∷ ms) (suc k) m = drop-set_later ms k m

take_sent-Chunks : (res : ℕ) (m : Message) → Chunks m → Chunks (take_sent res m)
unfolding take_sent
take_sent-Chunks res [] h = tt
take_sent-Chunks res (chunk ∷ m) h = elim (Bool-cases (leb (length chunk) res)) [
  | inl e ↦ rw e (take_sent-Chunks (res - length chunk) m h.1)
  | inr e ↦ rw e ((ground (arith, length-drop res chunk)), h.1)
]

pub size_positive : (m : Message) → Chunks m → Started m → 0 < message_size m
unfolding message_size
size_positive [] h s = absurd (omega arith)
size_positive (chunk ∷ m) h s = omega (arith, h.0)

pub Full-Ready : (c : Conn) → Full c.messages → Ready c
Full-Ready c h = record {
  chunks = split_chunks c.messages h;
  later = All-drop Started c.messages (suc c.msgcurr) (split_started c.messages h);
}
  where
    split_chunks : (ms : List Message) → Full ms → All Chunks ms
    split_chunks [] a = tt
    split_chunks (m ∷ ms) a = (a.0.0, split_chunks ms a.1)

    split_started : (ms : List Message) → Full ms → All Started ms
    split_started [] a = tt
    split_started (m ∷ ms) a = (a.0.1, split_started ms a.1)

pub advance-Ready : (c : Conn) → Ready c → Ready (advance c)
unfolding advance
advance-Ready c h = elim (Bool-cases (is_done (current c))) [
  | inr e ↦ rw e h
  | inl e ↦ rw e record {
    chunks = h.chunks;
    later =
        let k : c.msgcurr + 1 ≡ suc c.msgcurr = omega arith in
        subst (λ j. All Started (drop (suc j) c.messages)) (sym k)
          (All-next Started c.messages (suc c.msgcurr) h.later);
  }
]

head-Started :
    (ms : List Message) (k : ℕ) (m : Message)
    → All Started (drop k ms)
    → get_elem? ms k ≡ some m
    → Started m
head-Started ms k m h e = (subst (All Started) (drop-current ms k m e) h).0

not_done : (o : Option Message) (m : Message) → is_done o ≡ false → o ≡ some m → Started m
unfolding is_done
not_done none m h e = absurd (cc)
not_done (some []) m h e = absurd (cc)
not_done (some (chunk ∷ x)) m h e =
    subst (λ (o : Option Message). elim o [ none ↦ Unit | some y ↦ 0 < length y ]) e (omega arith)

advance_done :
    (c : Conn) → is_done (current c) ≡ true → advance c ≡ record c { msgcurr = c.msgcurr + 1 }
unfolding advance
advance_done c e = rw e refl

pub advance_stay : (c : Conn) → is_done (current c) ≡ false → advance c ≡ c
unfolding advance
advance_stay c e = rw e refl

-- The message that `sendmsg` is given.
pub current-Started :
    (c : Conn) (m : Message) → Ready c → current (advance c) ≡ some m → Chunks m × Started m
current-Started c m h e = (
  All-get Chunks (advance c).messages (advance c).msgcurr m (advance-Ready c h).chunks
      (unfold current in e),
  elim (Bool-cases (is_done (current c))) [
    | inl y ↦ started y
    | inr y ↦ not_done (current c) m y (sym (ap current (advance_stay c y)) ∙ e)
  ],
)
  where
    started : is_done (current c) ≡ true → Started m
    started y =
        let k : c.msgcurr + 1 ≡ suc c.msgcurr = omega arith in
        let next : current (record c { msgcurr = c.msgcurr + 1 }) ≡ some m =
          sym (ap current (advance_done c y)) ∙ e in
        head-Started c.messages (suc c.msgcurr) m h.later
          (ap (get_elem? c.messages) (sym k) ∙ unfold current in next)

pub after_send-Less :
    (c : Conn) (w : World) (m : Message) (n : ℕ)
    → Ready c
    → current c ≡ some m
    → Chunks m
    → Started m
    → 0 < n
    → (d : Conn) × (after_send c w m (sent n) ≡ (transmit_incomplete, d, w))
      × Ready d
      × (d.state ≡ c.state)
      × (length (unsent d) < length (unsent c))
unfolding after_send
after_send-Less c w m n h e ch st pos = (
  d,
  sends,
  record {
    chunks = All-set Chunks c.messages c.msgcurr (take_sent k m) h.chunks (take_sent-Chunks k m ch);
    later = subst (All Started) (sym (drop-set_later c.messages c.msgcurr (take_sent k m))) h.later;
  },
  refl,
  less,
)
  where
    k : ℕ
    k = if ltb (message_size m) n then message_size m else n

    d : Conn
    d = record c { messages = set c.messages c.msgcurr (take_sent k m) }

    size : 0 < message_size m
    size = size_positive m ch st

    some_bytes : (k == 0) ≡ false
    some_bytes = ground (arith, size)

    sends : after_send c w m (sent n) ≡ (transmit_incomplete, d, w)
    sends = rw some_bytes refl

    less : length (unsent d) < length (unsent c)
    less =
        let cut : take n (join m) ++ unsent d ≡ unsent c =
          ap (λ (r : TransmitResult × Conn × World). take n (join m) ++ unsent r.1) (sym sends)
          ∙ unfold taken in taken-after_send c w m e (sent n) in
        omega (
          arith,
          ap length cut,
          length-append (take n (join m)) (unsent d),
          length-take n (join m),
          length-join m,
          size,
          pos,
        )
