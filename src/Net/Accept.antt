-- ===== src/Net/Accept.antt =====
-- `drive_machine` of server.cpp on a listening connection, `accept_new_conns` of thread.cpp and
-- `do_accept_new_conns` of network.cpp.
pub mod Again
pub mod Handed
use prefix_match_server.Prelude.{
  ℕ, Bool, true, false, Option, none, some, List, [], ◌∷◌, ◌++◌, if◌then◌else◌,
}
use prefix_match_server.Conn.State.{
  Conn, World, conn_new_cmd, update_event, ev_read_persist, data_buffer_size,
}
use prefix_match_server.Queue.{CqItem, NewBlock}
use prefix_match_server.Queue.Dispatch.{Threads, dispatch_conn_new}

-- A connection of `listen_conn`, with the backlog of the last `listen`.
pub record Listener : Type 0 where
  pub conn : Conn
  pub backlog : ℕ

-- A listener whose events could be changed or not; `listen` is called in any case.
unfoldable pub do_accept : ℕ → ℕ → Listener → World → Listener × World
do_accept flags backlog l w =
    let (ok, c, w') = update_event l.conn flags w in (record { conn = c; backlog = backlog }, w')

unfoldable pub over_listeners : ℕ → ℕ → List Listener → World → List Listener × World
unfolding do_accept
over_listeners flags backlog [] w = ([], w)
over_listeners flags backlog (l ∷ ls) w =
    let (k, w') = do_accept flags backlog l w in
    let (ks, w'') = over_listeners flags backlog ls w' in (k ∷ ks, w'')

-- `do_accept_new_conns`, for the backlog of the settings.
unfoldable pub do_accept_new_conns : Bool → ℕ → List Listener → World → List Listener × World
unfolding over_listeners
do_accept_new_conns true backlog ls w = over_listeners ev_read_persist backlog ls w
do_accept_new_conns false backlog ls w = over_listeners 0 0 ls w

-- What `accept` answers: a socket, with whether `fcntl` makes it nonblocking, or an error: EINTR,
-- EAGAIN, EMFILE or another.
pub data Accepted : Type 0 where
  accepted : ℕ → Bool → Accepted
  interrupted would_block no_files other_error : Accepted

-- The answers to come, the listeners, the threads, and the sockets that were closed again.
pub record Main : Type 0 where
  pub accepts : List Accepted
  pub listeners : List Listener
  pub world : World
  pub threads : Threads
  pub closed : List ℕ

-- What `dispatch_conn_new` is told of a new connection.
unfoldable pub new_item : ℕ → CqItem
new_item sfd = record {
  sfd = sfd;
  init_state = conn_new_cmd;
  event_flags = ev_read_persist;
  read_buffer_size = data_buffer_size;
  next = none;
}

unfoldable pub with_threads : Main → Option Threads → Option Main
with_threads m none = none
with_threads m (some threads) = some (record m { threads = threads })

unfoldable pub hand_to_thread : NewBlock → ℕ → ℕ → Main → Option Main
unfolding new_item with_threads
hand_to_thread fresh num_threads sfd m =
    with_threads m (dispatch_conn_new fresh num_threads (new_item sfd) m.threads)

unfoldable pub refuse_new : ℕ → Main → Main
unfolding do_accept_new_conns
refuse_new backlog m =
    let (ls, w) = do_accept_new_conns false backlog m.listeners m.world in
    record m { listeners = ls; world = w }

-- `while (!stop)` in `conn_listening`, on the answers to come, which end with EAGAIN; `none` is a write
-- through NULL or a division by zero.
unfoldable pub accept_loop : NewBlock → ℕ → ℕ → List Accepted → Main → Option Main
unfolding hand_to_thread refuse_new
accept_loop fresh num_threads backlog [] m = some (record m { accepts = [] })
accept_loop fresh num_threads backlog (accepted sfd true ∷ rest) m =
    hand_to_thread fresh num_threads sfd (record m { accepts = rest })
accept_loop fresh num_threads backlog (accepted sfd false ∷ rest) m =
    accept_loop fresh num_threads backlog rest (record m { closed = m.closed ++ sfd ∷ [] })
accept_loop fresh num_threads backlog (interrupted ∷ rest) m =
    accept_loop fresh num_threads backlog rest m
accept_loop fresh num_threads backlog (would_block ∷ rest) m = some (record m { accepts = rest })
accept_loop fresh num_threads backlog (no_files ∷ rest) m =
    some (refuse_new backlog (record m { accepts = rest }))
accept_loop fresh num_threads backlog (other_error ∷ rest) m = some (record m { accepts = rest })

unfoldable pub drive_listening : NewBlock → ℕ → ℕ → Main → Option Main
unfolding accept_loop
drive_listening fresh num_threads backlog m = accept_loop fresh num_threads backlog m.accepts m
