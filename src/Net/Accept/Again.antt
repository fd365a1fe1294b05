-- ===== src/Net/Accept/Again.antt =====
-- The listening connections while there are no files left, and afterwards.
use mathlib.Core.Path.{ap₂}
use prefix_match_server.Prelude.{
  ℕ, ◌==◌, ◌≡◌, refl, sym, ap, ◌∙◌, inl, inr, true, some, List, [], ◌∷◌, ◌++◌, arith, All,
  Bool-cases,
}
use prefix_match_server.Conn.State.{Conn, World, update_event, ev_read_persist}
use prefix_match_server.Queue.{NewBlock}
use prefix_match_server.Net.Accept.{
  Listener, do_accept, over_listeners, do_accept_new_conns, Accepted, no_files, Main, refuse_new,
  accept_loop, drive_listening,
}
use prefix_match_server.Net.Accept.Handed.{Passes, skipped_lem}

-- A listener with its events, and with the backlog of its last `listen`.
abbrev pub Set : ℕ → ℕ → Listener → Type 0
Set flags backlog l = (l.conn.ev_flags ≡ flags) × (l.backlog ≡ backlog)

-- While events can be changed.
update_event_free :
    (c : Conn) (flags : ℕ) (w : World)
    → w.events ≡ []
    → ((update_event c flags w).1 ≡ record c { ev_flags = flags })
      × ((update_event c flags w).2.events ≡ [])
unfolding update_event
update_event_free c flags w free = elim (Bool-cases (c.ev_flags == flags)) [
  | inl e ↦
      let k : c.ev_flags ≡ flags = ground (arith, e) in
      rw e (ap (λ f. record c { ev_flags = f }) k, free)
  | inr e ↦ rw (e, free) (refl, refl)
]

over_listeners-cons :
    (flags backlog : ℕ) (l : Listener) (ls : List Listener) (w : World)
    → (over_listeners flags backlog (l ∷ ls) w).0
      ≡ record { conn = (update_event l.conn flags w).1; backlog = backlog }
        ∷ (over_listeners flags backlog ls (update_event l.conn flags w).2).0
unfolding over_listeners do_accept
over_listeners-cons flags backlog l ls w = refl

over_listeners-Set :
    (flags backlog : ℕ) (ls : List Listener) (w : World)
    → w.events ≡ []
    → All (Set flags backlog) (over_listeners flags backlog ls w).0
unfolding over_listeners do_accept
over_listeners-Set flags backlog [] w free = tt
over_listeners-Set flags backlog (l ∷ ls) w free =
    let (c, v) = update_event_free l.conn flags w free in
    ((ap (λ (d : Conn). d.ev_flags) c, refl), over_listeners-Set flags backlog ls _ v)

-- Listeners that are set to something else and back are as they were.
set_back :
    (flags backlog off none_waiting : ℕ) (ls : List Listener) (w v : World)
    → All (Set flags backlog) ls
    → w.events ≡ []
    → v.events ≡ []
    → (over_listeners flags backlog (over_listeners off none_waiting ls w).0 v).0 ≡ ls
unfolding over_listeners do_accept
set_back flags backlog off none_waiting [] w v h fw fv = refl
set_back flags backlog off none_waiting (l ∷ ls) w v ((f, b), h) fw fv =
    let (c, w') = update_event_free l.conn off w fw in
    let d = (update_event l.conn off w).1 in
    let (e, v') = update_event_free d flags v fv in
    let conn : (update_event d flags v).1 ≡ l.conn =
      e
      ∙ ap (λ (x : Conn). record x { ev_flags = flags }) c
      ∙ ap (λ k. record l.conn { ev_flags = k }) (sym f) in
    ap₂ (λ (x : Listener) xs. x ∷ xs) (ap₂ (λ x k. record { conn = x; backlog = k }) conn (sym b))
      (set_back flags backlog off none_waiting ls _ _ h w' v')

-- For listeners that wait for connections, while events can be changed, and answers of `accept` of
-- which the loop passes over some and the next is that there are no files left: it ends with no events
-- asked for on any listener, and a backlog of 0; and the next `do_accept_new_conns(true)`, as of
-- `conn_close`, leaves the listeners as they were.
pub drive_listening-Again :
    (fresh : NewBlock) (num_threads backlog : ℕ) (m : Main) (before rest : List Accepted)
    (v : World)
    → m.accepts ≡ before ++ no_files ∷ rest
    → All Passes before
    → All (Set ev_read_persist backlog) m.listeners
    → m.world.events ≡ []
    → v.events ≡ []
    → (n : Main) × (drive_listening fresh num_threads backlog m ≡ some n)
      × All (Set 0 0) n.listeners
      × ((do_accept_new_conns true backlog n.listeners v).0 ≡ m.listeners)
unfolding drive_listening accept_loop refuse_new do_accept_new_conns
drive_listening-Again fresh num_threads backlog m before rest v e pass set fw fv = (
  _,
  ap (λ as'. accept_loop fresh num_threads backlog as' m) e
      ∙ skipped_lem fresh num_threads backlog before (no_files ∷ rest) m pass,
  over_listeners-Set 0 0 m.listeners m.world fw,
  set_back ev_read_persist backlog 0 0 m.listeners m.world v set fw fv,
)
