-- ===== src/Net/Sockets/Kept.antt =====
-- The sockets that are open behind `server_socket` and `server_socket_unix`.
use prefix_match_server.Prelude.{
  ℕ, ◌+◌, ◌<◌, ◌≡◌, ◌≢◌, refl, sym, ap, ◌∙◌, ◌⊎◌, inl, inr, Bool, true, false, ◌&&◌, not, Option,
  none, some, List, [], ◌∷◌, ◌++◌, arith, ◌==◌, length, Bool-cases, Option-cases, subst,
  append_assoc, length-append,
}
use prefix_match_server.Net.Sockets.{
  Process, Bound, bound, in_use, bind_fails, Attempt, Address, Ending, returned, exited, aborted,
  remove, close, new_socket, Round, next, ends, free_list, listens, binds, use_socket, one_address,
  all_addresses, note_port, server_socket,
}

pub close_own : (fd : ℕ) (fds : List ℕ) → remove fd (fd ∷ fds) ≡ fds
unfolding remove
close_own fd fds = let e : (fd == fd) ≡ true = ground arith in rw e refl

-- The sockets that were added are open, and listen.
record Added (p : Process) (fds : List ℕ) (q : Process) : Type 0 where
  opened : q.open_fds ≡ fds ++ p.open_fds
  listening : q.listen_conn ≡ fds ++ p.listen_conn

Added-none :
    (p q : Process) → q.open_fds ≡ p.open_fds → q.listen_conn ≡ p.listen_conn → Added p [] q
Added-none p q o l = record { opened = o; listening = l }

-- The round goes on with as many more sockets as it counts more, or ends the function with none more.
abbrev Rounds : ℕ → Process → Round → Type 0
Rounds success p (next n q) =
    (fds : List ℕ) × Added p fds q × (n ≡ length fds + success) × (q.freed ≡ p.freed)
Rounds success p (ends (returned n q)) = (n ≡ 1) × Added p [] q × (q.freed ≡ p.freed + 1)
Rounds success p (ends exited) = Unit
Rounds success p (ends aborted) = Unit

module _ (to_file : Bool) (a : Address) (success : ℕ) (p : Process) where
  -- The process with a new socket.
  abbrev with_fd : ℕ → Process
  with_fd fd = record p { open_fds = fd ∷ p.open_fds }

  note_port_same :
      (q : Process)
      → ((note_port to_file a.name q).open_fds ≡ q.open_fds)
        × ((note_port to_file a.name q).listen_conn ≡ q.listen_conn)
        × ((note_port to_file a.name q).freed ≡ q.freed)
  note_port_same q = go to_file a.name
    where
      go :
          (b : Bool) (o : Option (Bool × ℕ))
          → ((note_port b o q).open_fds ≡ q.open_fds)
            × ((note_port b o q).listen_conn ≡ q.listen_conn)
            × ((note_port b o q).freed ≡ q.freed)
      go false o = unfold note_port in (refl, refl, refl)
      go true none = unfold note_port in (refl, refl, refl)
      go true (some line) = unfold note_port in (refl, refl, refl)

  listens-Rounds : (fd : ℕ) → Rounds success p (listens to_file a fd success (with_fd fd))
  unfolding listens close free_list
  listens-Rounds fd = elim (Bool-cases a.attempt.listen_ok) [
    | inr y ↦ rw (y, listens) (refl, Added-none p _ (close_own fd p.open_fds) refl, refl)
    | inl y ↦ elim (Bool-cases a.attempt.conn_ok) [
      | inr z ↦ rw (y, z, listens) tt
      | inl z ↦
          let (o, l, f) = note_port_same (with_fd fd) in
          rw (y, z, listens)
            (fd ∷ [], record { opened = o; listening = ap (λ fds. fd ∷ fds) l }, omega arith, f)
    ]
  ]

  binds-Rounds : (fd : ℕ) → Rounds success p (binds to_file a fd success (with_fd fd))
  unfolding binds close free_list
  binds-Rounds fd = by_reply a.attempt.bind refl
    where
      by_reply :
          (b : Bound)
          → a.attempt.bind ≡ b
          → Rounds success p (binds to_file a fd success (with_fd fd))
      by_reply bind_fails e =
          rw (e, binds) (refl, Added-none p _ (close_own fd p.open_fds) refl, refl)
      by_reply in_use e =
          rw (e, binds) ([], Added-none p _ (close_own fd p.open_fds) refl, omega arith, refl)
      by_reply bound e = rw (e, binds) (listens-Rounds fd)

  use_socket-Rounds :
      (fd : ℕ) → Rounds success p (use_socket to_file a success (some fd, with_fd fd))
  unfolding use_socket close
  use_socket-Rounds fd = elim (Bool-cases (a.ipv6 && not a.v6only_ok)) [
    | inl y ↦ rw y ([], Added-none p _ (close_own fd p.open_fds) refl, omega arith, refl)
    | inr y ↦ rw y (binds-Rounds fd)
  ]

  no_socket-Rounds :
      (q : Process)
      → Added p [] q
      → q.freed ≡ p.freed
      → Rounds success p (use_socket to_file a success (none, q))
  unfolding use_socket
  no_socket-Rounds q h f = elim (Bool-cases a.attempt.emfile) [
    | inl y ↦ rw y tt
    | inr y ↦ rw y ([], h, omega arith, f)
  ]

-- `new_socket` returns a new socket, or leaves none open.
pub new_socket_cases :
    (a : Attempt) (p : Process)
    → ((fd : ℕ) × (new_socket a p ≡ (some fd, record p { open_fds = fd ∷ p.open_fds })))
      ⊎ (new_socket a p ≡ (none, p))
unfolding new_socket close
new_socket_cases a p = elim (Option-cases a.socket) [
  | inl e ↦ inr (rw (e, new_socket) refl)
  | inr (fd, e) ↦ elim (Bool-cases a.nonblocking) [
    | inl b ↦ inl (fd, rw (e, b, new_socket) refl)
    | inr b ↦ inr (
        rw (e, b, new_socket)
          (ap (λ fds. (none, record p { open_fds = fds })) (close_own fd p.open_fds)))
  ]
]

one_address-Rounds :
    (to_file : Bool) (a : Address) (success : ℕ) (p : Process)
    → Rounds success p (one_address to_file a success p)
unfolding one_address
one_address-Rounds to_file a success p = elim (new_socket_cases a.attempt p) [
  | inl (fd, e) ↦
      subst (λ r. Rounds success p (use_socket to_file a success r)) (sym e)
        (use_socket-Rounds to_file a success p fd)
  | inr e ↦
      subst (λ r. Rounds success p (use_socket to_file a success r)) (sym e)
        (no_socket-Rounds to_file a success p p (Added-none p p refl refl) refl)
]

-- Behind a return, the sockets that were added to those that are open are those that were added to
-- those that listen, the list of addresses was freed once, and if 0 was returned, some socket listens.
abbrev KeptFrom : ℕ → Process → Ending → Type 0
KeptFrom success p (returned n q) =
    (fds : List ℕ) × Added p fds q × (q.freed ≡ p.freed + 1) × (n ≡ 0 → 0 < length fds + success)
KeptFrom success p exited = Unit
KeptFrom success p aborted = Unit

KeptFrom-later :
    (p q : Process) (success n : ℕ) (fds : List ℕ) (e : Ending)
    → Added p fds q
    → n ≡ length fds + success
    → q.freed ≡ p.freed
    → KeptFrom n q e
    → KeptFrom success p e
KeptFrom-later p q success n fds (returned k r) h len f (gds, g, f', some_fd) = (
  gds ++ fds,
  record {
    opened = g.opened ∙ ap (◌++◌ gds) h.opened ∙ sym (append_assoc gds fds p.open_fds);
    listening = g.listening ∙ ap (◌++◌ gds) h.listening ∙ sym (append_assoc gds fds p.listen_conn);
  },
  f' ∙ ap (λ k. k + 1) f,
  λ z. omega (arith, some_fd z, len, length-append gds fds),
)
KeptFrom-later p q success n fds exited h len f k = tt
KeptFrom-later p q success n fds aborted h len f k = tt

all_addresses-KeptFrom :
    (to_file : Bool) (list : List Address) (success : ℕ) (p : Process)
    → KeptFrom success p (all_addresses to_file list success p)
unfolding all_addresses free_list
all_addresses-KeptFrom to_file [] success p =
    ([], Added-none p _ refl refl, refl, λ z. ground arith)
all_addresses-KeptFrom to_file (a ∷ rest) success p =
    by_round (one_address to_file a success p) (one_address-Rounds to_file a success p)
      (λ n q. all_addresses-KeptFrom to_file rest n q)
  where
    by_round :
        (r : Round)
        → Rounds success p r
        → ((n : ℕ) (q : Process) → KeptFrom n q (all_addresses to_file rest n q))
        → KeptFrom success p (elim r [ next n q ↦ all_addresses to_file rest n q | ends e ↦ e ])
    by_round (next n q) (fds, h, len, f) go =
        KeptFrom-later p q success n fds (all_addresses to_file rest n q) h len f (go n q)
    by_round (ends (returned n q)) (e, h, f) go = ([], h, f, λ z. absurd (cc))
    by_round (ends exited) h go = tt
    by_round (ends aborted) h go = tt

-- What `server_socket` keeps, for the list of addresses.
abbrev pub Kept : Option (List Address) → Process → Ending → Type 0
Kept list p (returned n q) =
    (fds : List ℕ) × (q.open_fds ≡ fds ++ p.open_fds)
    × (q.listen_conn ≡ fds ++ p.listen_conn)
    × (n ≡ 0 → fds ≢ [])
    × (q.freed ≡ p.freed + elim list [ none ↦ 0 | some addresses ↦ 1 ])
Kept list p exited = Unit
Kept list p aborted = Unit

-- Whatever the system answers for the addresses: if `server_socket` returns, then the sockets that it
-- leaves open are those that it puts on the list of listening connections, none else, whichever call
-- failed on the way; the list of addresses is freed once if there is one; and if 0 is returned, some
-- socket was added.
pub server_socket-Kept :
    (to_file : Bool) (list : Option (List Address)) (p : Process)
    → Kept list p (server_socket to_file list p)
unfolding server_socket
server_socket-Kept to_file none p = ([], refl, refl, λ z. absurd (cc), omega arith)
server_socket-Kept to_file (some list) p =
    from (all_addresses to_file list 0 p) (all_addresses-KeptFrom to_file list 0 p)
  where
    from : (e : Ending) → KeptFrom 0 p e → Kept (some list) p e
    from (returned n q) (fds, h, f, some_fd) =
        (fds, h.opened, h.listening, λ z y. omega (arith, some_fd z, ap length y), f)
    from exited h = tt
    from aborted h = tt
