-- ===== src/Net/Sockets.antt =====
-- The listening sockets: `new_socket`, `server_socket`, `server_sockets`, `new_socket_unix` and
-- `server_socket_unix` of network.cpp.
pub mod Kept
pub mod Unix
use prefix_match_server.Prelude.{
  ℕ, zero, suc, ◌+◌, ◌-◌, ◌%◌, Bool, true, false, ◌&&◌, not, Option, none, some, List, [], ◌∷◌,
  Bytes, ltb, ◌==◌, if◌then◌else◌, length,
}

-- What the process holds: its open sockets, the connections that listen (`listen_conn`, the last
-- first), how often a list of addresses was freed, the port numbers that were written (the last
-- first), with whether the address is one of IPv6, the umask, and how often a path was unlinked.
pub record Process : Type 0 where
  pub open_fds : List ℕ
  pub listen_conn : List ℕ
  pub freed : ℕ
  pub ports : List (Bool × ℕ)
  pub mask : ℕ
  pub unlinked : ℕ

-- What `bind` answers.
pub data Bound : Type 0 where
  bound in_use bind_fails : Bound

-- `none` stands for a socket that cannot be had, with whether the error is EMFILE.
pub record Attempt : Type 0 where
  pub socket : Option ℕ
  pub nonblocking : Bool
  pub emfile : Bool
  pub bind : Bound
  pub listen_ok : Bool
  pub conn_ok : Bool

-- The answers for an address of the list. `name` is what `getsockname` returns for an address of IPv4
-- (`false`) or IPv6.
pub record Address : Type 0 where
  pub attempt : Attempt
  pub ipv6 : Bool
  pub v6only_ok : Bool
  pub name : Option (Bool × ℕ)

-- How a function ends, with what it returns.
pub data Ending : Type 0 where
  returned : ℕ → Process → Ending
  exited aborted : Ending

unfoldable pub remove : ℕ → List ℕ → List ℕ
remove fd [] = []
remove fd (x ∷ fds) = if x == fd then fds else x ∷ remove fd fds

unfoldable pub close : ℕ → Process → Process
unfolding remove
close fd p = record p { open_fds = remove fd p.open_fds }

-- `new_socket`, and `new_socket_unix`: `none` is -1.
unfoldable pub new_socket : Attempt → Process → Option ℕ × Process
unfolding close
new_socket a p = elim a.socket [
  | none ↦ (none, p)
  | some fd ↦
      if a.nonblocking
      then (some fd, record p { open_fds = fd ∷ p.open_fds })
      else (none, close fd (record p { open_fds = fd ∷ p.open_fds }))
]

-- A round of the loop: on to the next address, or the end of the function.
pub data Round : Type 0 where
  next : ℕ → Process → Round
  ends : Ending → Round

unfoldable pub free_list : Process → Process
free_list p = record p { freed = p.freed + 1 }

-- The line for `portnumber_file`, if there is one.
unfoldable pub note_port : Bool → Option (Bool × ℕ) → Process → Process
note_port false line p = p
note_port true none p = p
note_port true (some line) p = record p { ports = line ∷ p.ports }

-- Behind `bind`, where the address is bound.
unfoldable pub listens : Bool → Address → ℕ → ℕ → Process → Round
unfolding close free_list note_port
listens to_file a fd success p =
    let q = note_port to_file a.name p in
    if a.attempt.listen_ok
    then if a.attempt.conn_ok
      then next (success + 1) (record q { listen_conn = fd ∷ q.listen_conn })
      else ends exited
    else ends (returned 1 (free_list (close fd p)))

unfoldable pub binds : Bool → Address → ℕ → ℕ → Process → Round
unfolding listens
binds to_file a fd success p = elim a.attempt.bind [
  | bind_fails ↦ ends (returned 1 (free_list (close fd p)))
  | in_use ↦ next success (close fd p)
  | bound ↦ listens to_file a fd success p
]

-- What the loop does with the socket that `new_socket` returned.
unfoldable pub use_socket : Bool → Address → ℕ → Option ℕ × Process → Round
unfolding close binds
use_socket to_file a success (none, p) = if a.attempt.emfile then ends exited else next success p
use_socket to_file a success (some sfd, p) =
    if a.ipv6 && not a.v6only_ok then next success (close sfd p) else binds to_file a sfd success p

-- The body of the loop, with the number of addresses that were bound.
unfoldable pub one_address : Bool → Address → ℕ → Process → Round
unfolding new_socket use_socket
one_address to_file a success p = use_socket to_file a success (new_socket a.attempt p)

unfoldable pub all_addresses : Bool → List Address → ℕ → Process → Ending
unfolding one_address free_list
all_addresses to_file [] success p = returned (if success == 0 then 1 else 0) (free_list p)
all_addresses to_file (a ∷ rest) success p = elim (one_address to_file a success p) [
  | next n q ↦ all_addresses to_file rest n q
  | ends e ↦ e
]

-- `server_socket`, and `server_sockets`: `none` is an error of `getaddrinfo`.
unfoldable pub server_socket : Bool → Option (List Address) → Process → Ending
unfolding all_addresses
server_socket to_file none p = returned 1 p
server_socket to_file (some list) p = all_addresses to_file list 0 p

-- `sizeof(addr.sun_path)`
abbrev pub sun_path_size : ℕ
sun_path_size = 108

-- Behind the check of the path, with the umask of before; `umask` keeps nine bits.
unfoldable pub bind_unix : ℕ → ℕ → Attempt → Process → Ending
unfolding close
bind_unix access_mask sfd a p =
    let masked = record p { mask = 511 - access_mask % 512 } in
    let restored = record masked { mask = p.mask } in
    elim a.bind [
      | bind_fails ↦ returned 1 (record (close sfd masked) { mask = p.mask })
      | in_use ↦ returned 1 (record (close sfd masked) { mask = p.mask })
      | bound ↦
          if a.listen_ok
          then if a.conn_ok then returned 0 (record restored { listen_conn = sfd ∷ [] }) else exited
          else returned 1 (close sfd restored)
    ]

unfoldable pub use_unix : Bytes → ℕ → Bool → Attempt → Option ℕ × Process → Ending
unfolding bind_unix
use_unix path access_mask left_over a (none, p) = returned 1 p
use_unix path access_mask left_over a (some sfd, p) =
    if ltb (length path) sun_path_size
    then bind_unix access_mask sfd a
        (if left_over then record p { unlinked = p.unlinked + 1 } else p)
    else aborted

-- The answers for a path, with whether a socket of that name is there already.
unfoldable pub server_socket_unix : Option Bytes → ℕ → Bool → Attempt → Process → Ending
unfolding new_socket use_unix
server_socket_unix none access_mask left_over a p = returned 1 p
server_socket_unix (some path) access_mask left_over a p =
    use_unix path access_mask left_over a (new_socket a p)
