-- ===== src/Conn/Answer/Delivers.antt =====
-- `drive_machine` of server.cpp from `conn_mwrite` to `conn_new_cmd`.
use prefix_match_server.Prelude.{
  ℕ, ◌≡◌, ◌≢◌, refl, sym, ap, ◌∙◌, ◌⊎◌, inl, inr, Option, none, some, List, [], ◌++◌, append-nil,
  append_assoc, subst, Bytes,
}
use prefix_match_server.Conn.State.{
  ConnStates, conn_mwrite, conn_new_cmd, conn_closing, Conn, World,
}
use prefix_match_server.Conn.Output.{transmit}
use prefix_match_server.Conn.Output.Sent.{unsent, transmit-Sends}
use prefix_match_server.Conn.Machine.{
  free_answer, complete_in, after_complete, on_mwrite, turn_in, turn,
}
use prefix_match_server.Conn.Machine.Bounds.{Leaves}
use prefix_match_server.Conn.Machine.Body.{Left, Leaves-Left}
use prefix_match_server.Conn.Machine.Untouched.{transmit-Transmits}
use prefix_match_server.Conn.Answer.Sending.{sent_by, sent_by-unsent}

-- Turns in `conn_mwrite`, with the bytes that they put on the wire, in order.
pub data Delivers (get : Bytes → Option (List Bytes)) (c : Conn) (w : World)
    : Bytes → Conn → World → Type 0 where
  start : Delivers get c w [] c w
  send :
      {bytes : Bytes} {d e : Conn} {v u : World} (n : ℕ)
      → Delivers get c w bytes d v
      → d.state ≡ conn_mwrite
      → Left e u (turn get d v n)
      → Delivers get c w (bytes ++ sent_by d v) e u

-- The bytes that a turn put on the wire and those that it left, and that it leaves none behind.
abbrev Turned : Bytes → Conn → Conn → Type 0
Turned bytes c d = (bytes ++ unsent d ≡ unsent c) × (d.state ≡ conn_new_cmd → unsent d ≡ [])

unsent-free : (a : Option Bytes) (c : Conn) → unsent (free_answer a c) ≡ unsent c
unfolding free_answer
unsent-free none c = refl
unsent-free (some buf) c = refl

unsent_complete :
    (s t : ConnStates) (c : Conn)
    → t ≡ conn_mwrite
    → (s ≡ t) ⊎ (s ≡ conn_closing)
    → unsent (complete_in s c) ≡ unsent c
unfolding complete_in
unsent_complete s t c h (inl e) = rw (e, h) (unsent-free c.write_and_free c)
unsent_complete s t c h (inr e) = rw e refl

not_new : (s t : ConnStates) → s ≡ conn_mwrite → (t ≡ s) ⊎ (t ≡ conn_closing) → t ≢ conn_new_cmd
not_new s t h (inl e) z = absurd (cc)
not_new s t h (inr e) z = absurd (cc)

on_mwrite-Turned :
    (c : Conn) (w : World) (n : ℕ)
    → c.state ≡ conn_mwrite
    → Leaves (Turned (sent_by c w) c) (on_mwrite c w n)
unfolding on_mwrite
on_mwrite-Turned c w n h = elim (transmit-Sends c w) [
  | inl (e, before, after) ↦
      rw (e, on_mwrite)
        (let same : unsent (after_complete (transmit c w).1) ≡ unsent (transmit c w).1 =
            unfold after_complete in
            unsent_complete (transmit c w).1.state c.state (transmit c w).1 h
              (transmit-Transmits c w).1 in
          (ap (◌++◌ (sent_by c w)) same ∙ sent_by-unsent c w, λ z. same ∙ after))
  | inr (inl (k, j, reply, e, pos, small, fits, cut)) ↦
      rw (e, on_mwrite) (sent_by-unsent c w, going)
  | inr (inr (inl e, same)) ↦ rw (e, on_mwrite) (sent_by-unsent c w, going)
  | inr (inr (inr e, same)) ↦ rw (e, on_mwrite) (sent_by-unsent c w, going)
]
  where
    going : (transmit c w).1.state ≡ conn_new_cmd → unsent (transmit c w).1 ≡ []
    going z = absurd (not_new c.state (transmit c w).1.state h (transmit-Transmits c w).1 z)

Turned-turn :
    (get : Bytes → Option (List Bytes)) (c : Conn) (w : World) (n : ℕ)
    → c.state ≡ conn_mwrite
    → Leaves (Turned (sent_by c w) c) (turn get c w n)
unfolding turn turn_in
Turned-turn get c w n h =
    subst (λ s. Leaves (Turned (sent_by c w) c) (turn_in s get c w n)) (sym h)
      (on_mwrite-Turned c w n h)

-- For a connection in `conn_mwrite`, what any turns in that state put on the wire, with what is left
-- to send behind it, is what was to be sent, and nothing is left where they reach `conn_new_cmd`.
pub Delivers-unsent :
    (get : Bytes → Option (List Bytes)) (c : Conn) (w : World) {bytes : Bytes} {d : Conn}
    {v : World}
    → c.state ≡ conn_mwrite
    → Delivers get c w bytes d v
    → (bytes ++ unsent d ≡ unsent c) × (d.state ≡ conn_new_cmd → bytes ≡ unsent c)
Delivers-unsent get c w h start = (refl, λ z. absurd (cc))
Delivers-unsent get c w h (send {bytes = bytes} {d = d} {e = e} {v = v} {u = u} n r st l) =
    let (left, done) =
      Leaves-Left (Turned (sent_by d v) d) e u (turn get d v n) l (Turned-turn get d v n st) in
    let all : (bytes ++ sent_by d v) ++ unsent e ≡ unsent c =
      append_assoc bytes (sent_by d v) (unsent e)
      ∙ ap (◌++◌ bytes) left
      ∙ (Delivers-unsent get c w h r).0 in
    (all, λ z. sym (append-nil _) ∙ ap (◌++◌ (bytes ++ sent_by d v)) (sym (done z)) ∙ all)
