-- ===== src/Net/Sockets/Unix.antt =====
-- What is left behind `server_socket_unix`.
use prefix_match_server.Prelude.{
  ℕ, ◌+◌, ◌≡◌, refl, sym, ap, ◌∙◌, ◌⊎◌, inl, inr, Bool, true, false, Option, none, some, [], ◌∷◌,
  Bytes, ltb, if◌then◌else◌, length, Bool-cases, subst,
}
use prefix_match_server.Net.Sockets.{
  Process, Bound, bound, in_use, bind_fails, Attempt, Ending, returned, exited, aborted, remove,
  close, sun_path_size, bind_unix, use_unix, server_socket_unix,
}
use prefix_match_server.Net.Sockets.Kept.{close_own, new_socket_cases}

-- The umask is that of before; the one socket that was added listens, or none was added.
abbrev pub UnixKept : Process → Ending → Type 0
UnixKept p (returned n q) =
    (q.mask ≡ p.mask)
    × (((n ≡ 0) × (fd : ℕ) × (q.open_fds ≡ fd ∷ p.open_fds) × (q.listen_conn ≡ fd ∷ []))
        ⊎ ((n ≡ 1) × (q.open_fds ≡ p.open_fds) × (q.listen_conn ≡ p.listen_conn)))
UnixKept p exited = Unit
UnixKept p aborted = Unit

module _ (access_mask : ℕ) (a : Attempt) (p q : Process) (fd : ℕ)
    (opened : q.open_fds ≡ fd ∷ p.open_fds) (listening : q.listen_conn ≡ p.listen_conn)
    (mask : q.mask ≡ p.mask) where
  closed_again : remove fd q.open_fds ≡ p.open_fds
  closed_again = ap (remove fd) opened ∙ close_own fd p.open_fds

  bind_unix-UnixKept : UnixKept p (bind_unix access_mask fd a q)
  unfolding bind_unix close
  bind_unix-UnixKept = by_reply a.bind refl
    where
      by_reply : (b : Bound) → a.bind ≡ b → UnixKept p (bind_unix access_mask fd a q)
      by_reply bind_fails e = rw (e, bind_unix) (mask, inr (refl, closed_again, listening))
      by_reply in_use e = rw (e, bind_unix) (mask, inr (refl, closed_again, listening))
      by_reply bound e = elim (Bool-cases a.listen_ok) [
        | inr y ↦ rw (e, y, bind_unix) (mask, inr (refl, closed_again, listening))
        | inl y ↦ elim (Bool-cases a.conn_ok) [
          | inr z ↦ rw (e, y, z, bind_unix) tt
          | inl z ↦ rw (e, y, z, bind_unix) (mask, inl (refl, fd, opened, refl))
        ]
      ]

use_unix-UnixKept :
    (path : Bytes) (access_mask : ℕ) (left_over : Bool) (a : Attempt) (p : Process) (fd : ℕ)
    → UnixKept p
        (use_unix path access_mask left_over a (some fd, record p { open_fds = fd ∷ p.open_fds }))
unfolding use_unix
use_unix-UnixKept path access_mask left_over a p fd =
    elim (Bool-cases (ltb (length path) sun_path_size)) [
      | inr y ↦ rw y tt
      | inl y ↦ rw y (by_file left_over)
    ]
  where
    by_file :
        (b : Bool)
        → UnixKept p (
            bind_unix access_mask fd a (
              if b
              then record p { open_fds = fd ∷ p.open_fds; unlinked = p.unlinked + 1 }
              else record p { open_fds = fd ∷ p.open_fds }))
    by_file true = bind_unix-UnixKept access_mask a p _ fd refl refl refl
    by_file false = bind_unix-UnixKept access_mask a p _ fd refl refl refl

-- Whatever the system answers for a path: if `server_socket_unix` returns, the umask is what it was;
-- and it returns 0 with one more socket open, which listens, or 1 with the sockets as they were.
pub server_socket_unix-UnixKept :
    (path : Option Bytes) (access_mask : ℕ) (left_over : Bool) (a : Attempt) (p : Process)
    → UnixKept p (server_socket_unix path access_mask left_over a p)
unfolding server_socket_unix
server_socket_unix-UnixKept none access_mask left_over a p = (refl, inr (refl, refl, refl))
server_socket_unix-UnixKept (some path) access_mask left_over a p = elim (new_socket_cases a p) [
  | inl (fd, e) ↦
      subst (λ r. UnixKept p (use_unix path access_mask left_over a r)) (sym e)
        (use_unix-UnixKept path access_mask left_over a p fd)
  | inr e ↦
      subst (λ r. UnixKept p (use_unix path access_mask left_over a r)) (sym e)
        (unfold use_unix in (refl, inr (refl, refl, refl)))
]
