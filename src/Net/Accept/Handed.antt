-- ===== src/Net/Accept/Handed.antt =====
-- What becomes of the connections that a listening connection accepts.
use prefix_match_server.Prelude.{
  ℕ, ◌<◌, ◌≡◌, refl, sym, ap, ◌∙◌, true, false, some, List, [], ◌∷◌, ◌++◌, append_assoc, append-nil,
  All,
}
use prefix_match_server.Queue.{Pointer, Heap, NewBlock, cqi_new}
use prefix_match_server.Queue.Fifo.{Fresh}
use prefix_match_server.Queue.Dispatch.Contents.{IsOutside}
use prefix_match_server.Queue.Dispatch.Turns.{AllHold, Hands, dispatch_conn_new-AllHold}
use prefix_match_server.Net.Accept.{
  Accepted, accepted, interrupted, would_block, no_files, other_error, Main, new_item, with_threads,
  hand_to_thread, accept_loop, drive_listening,
}

-- Answers that the loop passes over: it asks again.
abbrev pub Passes : Accepted → Type 0
Passes (accepted sfd nonblocking) = nonblocking ≡ false
Passes interrupted = Unit
Passes would_block = ⊥
Passes no_files = ⊥
Passes other_error = ⊥

-- The sockets among them.
unfoldable pub refused : List Accepted → List ℕ
refused [] = []
refused (accepted sfd nonblocking ∷ as') = sfd ∷ refused as'
refused (interrupted ∷ as') = refused as'
refused (would_block ∷ as') = refused as'
refused (no_files ∷ as') = refused as'
refused (other_error ∷ as') = refused as'

module _ (fresh : NewBlock) (num_threads backlog : ℕ) where
  pub skipped_lem :
      (before rest : List Accepted) (m : Main)
      → All Passes before
      → accept_loop fresh num_threads backlog (before ++ rest) m
        ≡ accept_loop fresh num_threads backlog rest
            (record m { closed = m.closed ++ refused before })
  unfolding accept_loop refused
  skipped_lem [] rest m h =
      ap (λ fds. accept_loop fresh num_threads backlog rest (record m { closed = fds }))
        (sym (append-nil m.closed))
  skipped_lem (accepted sfd true ∷ before) rest m h = absurd (cc (h.0))
  skipped_lem (accepted sfd false ∷ before) rest m h =
      skipped_lem before rest (record m { closed = m.closed ++ sfd ∷ [] }) h.1
      ∙ ap (λ fds. accept_loop fresh num_threads backlog rest (record m { closed = fds }))
          (append_assoc m.closed (sfd ∷ []) (refused before))
  skipped_lem (interrupted ∷ before) rest m h = skipped_lem before rest m h.1
  skipped_lem (would_block ∷ before) rest m h = absurd h.0
  skipped_lem (no_files ∷ before) rest m h = absurd h.0
  skipped_lem (other_error ∷ before) rest m h = absurd h.0

  -- For at least one thread, queues of which no two share an item, a new item for them, while memory
  -- that `malloc` returns has none of their items, and answers of `accept` of which the loop passes
  -- over some and the next is a connection: it ends, with an item that says this connection behind
  -- those of the thread whose turn it is, the sockets before it closed, and the answers behind it not
  -- asked for.
  pub drive_listening-Handed :
      (m : Main) (before rest : List Accepted) (sfd : ℕ) (items : ℕ → List ℕ) (item : ℕ) (h : Heap)
      (freelist : Pointer)
      → 0 < num_threads
      → m.accepts ≡ before ++ accepted sfd true ∷ rest
      → All Passes before
      → cqi_new fresh m.threads.heap m.threads.cqi_freelist ≡ (some item, h, freelist)
      → AllHold m.threads.heap m.threads.queues items
      → ((t : ℕ) → Fresh item (items t))
      → ((t : ℕ) → IsOutside fresh.block (items t))
      → (n : Main) × (drive_listening fresh num_threads backlog m ≡ some n)
        × (n.closed ≡ m.closed ++ refused before)
        × (n.accepts ≡ rest)
        × Hands num_threads (new_item sfd) m.threads items item n.threads
  unfolding drive_listening
  drive_listening-Handed m before rest sfd items item h freelist lt e pass new holds unused out =
      let (u, r, hands) =
        dispatch_conn_new-AllHold fresh num_threads (new_item sfd) m.threads items item h freelist
          lt new holds unused out in
      (
        record m { accepts = rest; closed = m.closed ++ refused before; threads = u },
        ap (λ as'. accept_loop fresh num_threads backlog as' m) e
            ∙ skipped_lem before (accepted sfd true ∷ rest) m pass
            ∙ (unfold accept_loop hand_to_thread with_threads in
                ap (with_threads (record m { accepts = rest; closed = m.closed ++ refused before }))
                  r),
        refl,
        refl,
        hands,
      )
