-- ===== src/Conn/Machine/Sound/Writing.antt =====
-- The turns that send an answer, and the one between requests.
use prefix_match_server.Prelude.{
  ℕ, zero, suc, ◌≡◌, ap, sym, ◌∙◌, ◌⊎◌, inl, inr, Option, none, some, Bytes, ltb, ◌==◌, Bool-cases,
  subst,
}
use prefix_match_server.Conn.State.{
  ConnStates, conn_new_cmd, conn_write, conn_closing, conn_mwrite, Conn, World, update_event,
  conn_set_state, ev_write_persist,
}
use prefix_match_server.Conn.Output.{
  Ret, ret_ok, ret_error, ret_unfinished, add_iov_all, TransmitResult, transmit_complete,
  transmit_incomplete, transmit_soft_error, transmit_hard_error, transmit,
}
use prefix_match_server.Conn.Output.Ends.{Ended, add_iov_all-Ended}
use prefix_match_server.Conn.Read.Fits.{Fits}
use prefix_match_server.Conn.Command.Parses.{Fits-same}
use prefix_match_server.Conn.Machine.{
  next_turn, stopped, stuck, on_new_cmd, free_answer, complete_in, after_complete, on_mwrite,
  on_write,
}
use prefix_match_server.Conn.Machine.Untouched.{
  Same, update_event-Same, transmit-Transmits, SameRet, add_iov_all-Same,
}
use prefix_match_server.Conn.Machine.Sound.{
  Goes, Sound, Quiet, Keeps, Quiet-Sound, same-Sound, Fits-state, reset_cmd_handler-Sound,
}
use prefix_match_server.Conn.Machine.Sound.Reading.{closing-Sound}

module _ (o : Type 0) where
  pub on_new_cmd-Keeps :
      (c : Conn) (w : World) (n : ℕ) → Sound c → c.state ≡ conn_new_cmd → Keeps o (on_new_cmd c w n)
  unfolding on_new_cmd
  on_new_cmd-Keeps c w (suc n) h e = reset_cmd_handler-Sound c w h
  on_new_cmd-Keeps c w zero h e = elim (Bool-cases (ltb 0 c.rbytes)) [
    | inr y ↦ rw y h
    | inl y ↦ rw y (elim (Bool-cases (update_event c ev_write_persist w).0) [
      | inl z ↦ rw z (
          same-Sound c (update_event c ev_write_persist w).1 h.fits k.0
            (subst Quiet (sym (k.1 ∙ e)) tt) (subst Goes (sym k.2) h.goes))
      | inr z ↦ rw z (
          closing-Sound o (update_event c ev_write_persist w).1
            (Fits-same c (update_event c ev_write_persist w).1 h.fits k.0).0
            (subst Goes (sym k.2) h.goes))
    ])
  ]
    where
      k : Same c (update_event c ev_write_persist w).1
      k = update_event-Same c ev_write_persist w

  -- The states in which bytes are sent.
  abbrev Writes : ConnStates → Type 0
  Writes s = (s ≡ conn_write) ⊎ (s ≡ conn_mwrite)

  pub Quiet-Goes : (s : ConnStates) → Goes s → Quiet s
  Quiet-Goes s (inl e) = subst Quiet (sym e) tt
  Quiet-Goes s (inr e) = subst Quiet (sym e) tt

  free_answer-Sound :
      (a : Option Bytes) (d : Conn)
      → Fits d
      → Goes d.write_and_go
      → Quiet d.state
      → Sound (free_answer a d)
  unfolding free_answer
  free_answer-Sound none d f g q =
      Quiet-Sound (conn_set_state d conn_new_cmd) (Fits-state d conn_new_cmd f) tt g
  free_answer-Sound (some buf) d f g q =
      Quiet-Sound (record d { write_and_free = none })
        (record { sized = f.sized; within = f.within; room = f.room; small = f.small }) q g

  after_complete-Sound :
      (d : Conn)
      → Fits d
      → Goes d.write_and_go
      → Writes d.state ⊎ (d.state ≡ conn_closing)
      → Sound (after_complete d)
  unfolding after_complete complete_in
  after_complete-Sound d f g (inl (inl e)) =
      rw (e, after_complete)
        (Quiet-Sound (record d { write_and_free = none; state = d.write_and_go })
          (record { sized = f.sized; within = f.within; room = f.room; small = f.small })
          (Quiet-Goes d.write_and_go g) g)
  after_complete-Sound d f g (inl (inr e)) =
      subst Sound (sym (ap (λ s. complete_in s d) e))
        (free_answer-Sound d.write_and_free d f g (subst Quiet (sym e) tt))
  after_complete-Sound d f g (inr e) =
      subst Sound (sym (ap (λ s. complete_in s d) e)) (closing-Sound o d f g)

  pub on_mwrite-Keeps :
      (c : Conn) (w : World) (n : ℕ)
      → Fits c
      → Goes c.write_and_go
      → Writes c.state
      → Keeps o (on_mwrite c w n)
  unfolding on_mwrite
  on_mwrite-Keeps c w n f g ws =
      let (b, st, go) = transmit-Transmits c w in
      let d = (transmit c w).1 in
      let fd = (Fits-same c d f b).0 in
      let gd = subst Goes (sym go) g in
      by_result (transmit c w).0 d (transmit c w).2 fd gd (from st ws)
    where
      from :
          {s t : ConnStates}
          → (t ≡ s) ⊎ (t ≡ conn_closing)
          → Writes s
          → Writes t ⊎ (t ≡ conn_closing)
      from (inl e) (inl a) = inl (inl (e ∙ a))
      from (inl e) (inr a) = inl (inr (e ∙ a))
      from (inr e) a = inr e

      quiet : (s : ConnStates) → Writes s ⊎ (s ≡ conn_closing) → Quiet s
      quiet s (inl (inl e)) = subst Quiet (sym e) tt
      quiet s (inl (inr e)) = subst Quiet (sym e) tt
      quiet s (inr e) = subst Quiet (sym e) tt

      by_result :
          (r : TransmitResult) (d : Conn) (w' : World)
          → Fits d
          → Goes d.write_and_go
          → Writes d.state ⊎ (d.state ≡ conn_closing)
          → Keeps o (elim r [
            | transmit_complete ↦ next_turn (after_complete d) w' n
            | transmit_incomplete ↦ next_turn d w' n
            | transmit_hard_error ↦ next_turn d w' n
            | transmit_soft_error ↦ stopped d w' n
          ])
      by_result transmit_complete d w' f g s = after_complete-Sound d f g s
      by_result transmit_incomplete d w' f g s = Quiet-Sound d f (quiet d.state s) g
      by_result transmit_hard_error d w' f g s = Quiet-Sound d f (quiet d.state s) g
      by_result transmit_soft_error d w' f g s = Quiet-Sound d f (quiet d.state s) g

  pub on_write-Keeps :
      (c : Conn) (w : World) (n : ℕ) → Sound c → c.state ≡ conn_write → Keeps o (on_write c w n)
  unfolding on_write
  on_write-Keeps c w n h e = elim (Bool-cases (c.iovused == 0)) [
    | inr z ↦ rw z (on_mwrite-Keeps c w n h.fits h.goes (inl e))
    | inl z ↦ rw z (
        added (add_iov_all c w c.wpending) (add_iov_all-Same c w c.wpending)
          (add_iov_all-Ended c w c.wpending))
  ]
    where
      added :
          (r : Ret)
          → SameRet c r
          → Ended r
          → Keeps o (elim r [
            | ret_ok d w' ↦ on_mwrite d w' n
            | ret_error d w' ↦ next_turn (conn_set_state d conn_closing) w' n
            | ret_unfinished d w' ↦ stuck
          ])
      added (ret_ok d w') (b, st, go) k =
          on_mwrite-Keeps d w' n (Fits-same c d h.fits b).0 (subst Goes (sym go) h.goes)
            (inl (st ∙ e))
      added (ret_error d w') (b, st, go) k =
          closing-Sound o d (Fits-same c d h.fits b).0 (subst Goes (sym go) h.goes)
      added (ret_unfinished d w') s k = absurd k
