-- ===== src/Tests/Network.antt =====
-- The theorems on sockets, signals and the HTTP monitor at concrete answers of the system.
use prefix_match_server.Prelude.{
  ℕ, ◌+◌, ◌≤◌, ◌≡◌, refl, ◌⊎◌, ℤ, pos, Bool, true, false, Option, none, some, List, [], ◌∷◌, ◌++◌,
  arith, Bytes, codes, leb, length, map, All,
}
use prefix_match_server.Search.Query.{concat}
use prefix_match_server.Queue.{cqi_new}
use prefix_match_server.Queue.Dispatch.Turns.{Hands}
use prefix_match_server.Net.Sndbuf.{max_sendbuf_size, maximize_sndbuf}
use prefix_match_server.Net.Sndbuf.Search.{Monotone, maximize_sndbuf-largest}
use prefix_match_server.Net.Sockets.{
  Process, bound, bind_fails, Attempt, Address, server_socket, server_socket_unix,
}
use prefix_match_server.Net.Sockets.Kept.{Kept, server_socket-Kept}
use prefix_match_server.Net.Sockets.Unix.{UnixKept, server_socket_unix-UnixKept}
use prefix_match_server.Net.Accept.{
  Listener, Accepted, accepted, interrupted, no_files, Main, new_item, drive_listening,
  do_accept_new_conns,
}
use prefix_match_server.Net.Accept.Handed.{refused, drive_listening-Handed}
use prefix_match_server.Net.Accept.Again.{Set, drive_listening-Again}
use prefix_match_server.Http.{
  Request, page, set_up, not_set_up, not_reached, item, get_head, page_end, asked_number,
  process_http_cb,
}
use prefix_match_server.Http.Listing.{wanted}
use prefix_match_server.Http.Replies.{process_http_cb-Replies, process_http_cb-lists}
use prefix_match_server.Sig.{sigmgr_thread}
use prefix_match_server.Sig.Handled.{user1_count, has_int, sigmgr_thread-handled}
use prefix_match_server.Tests.Connections.{connection, system}
use prefix_match_server.Tests.Queues.{heap}
use prefix_match_server.Tests.Dispatching.{
  items, threads, items-AllHold, seven-free, fresh, items-IsOutside,
}

-- A system that takes buffers of up to 100,000 bytes.
abbrev accepts : ℕ → Bool
accepts n = leb n 100000

accepts-Monotone : Monotone accepts
accepts-Monotone m n h e = ground (arith, h, e)

maximize_sndbuf-largest_example :
    (size : ℕ) × (maximize_sndbuf accepts (some 16384) ≡ some size)
    × ((size ≡ 0) ⊎ ((accepts size ≡ true) × (16384 ≤ size) × (size ≤ max_sendbuf_size)))
    × ((m : ℕ) → 16384 ≤ m → m ≤ max_sendbuf_size → accepts m ≡ true → m ≤ size)
maximize_sndbuf-largest_example = maximize_sndbuf-largest accepts accepts-Monotone 16384

-- A process with one socket.
abbrev process : Process
process = record {
  open_fds = 2 ∷ [];
  listen_conn = [];
  freed = 0;
  ports = [];
  mask = 18;
  unlinked = 0;
}

abbrev attempt : Attempt
attempt = record {
  socket = some 5;
  nonblocking = true;
  emfile = false;
  bind = bound;
  listen_ok = true;
  conn_ok = true;
}

abbrev addresses : List Address
addresses =
    record { attempt = attempt; ipv6 = false; v6only_ok = true; name = some (false, 8080) }
    ∷ record {
      attempt = record attempt { socket = some 6; bind = bind_fails };
      ipv6 = true;
      v6only_ok = true;
      name = none;
    }
    ∷ []

server_socket-Kept_example :
    Kept (some addresses) process (server_socket true (some addresses) process)
server_socket-Kept_example = server_socket-Kept true (some addresses) process

server_socket_unix-UnixKept_example :
    UnixKept process (server_socket_unix (some (codes "/tmp/s")) 448 true attempt process)
server_socket_unix-UnixKept_example =
    server_socket_unix-UnixKept (some (codes "/tmp/s")) 448 true attempt process

-- A listening connection, and answers of `accept`.
abbrev listener : Listener
listener = record { conn = connection; backlog = 1024 }

abbrev main_thread : List Accepted → Main
main_thread accepts = record {
  accepts = accepts;
  listeners = listener ∷ [];
  world = system;
  threads = threads;
  closed = [];
}

abbrev passed : List Accepted
passed = interrupted ∷ accepted 8 false ∷ []

drive_listening-Handed_example :
    (n : Main) × (drive_listening fresh 4 1024
        (main_thread (passed ++ accepted 9 true ∷ no_files ∷ []))
      ≡ some n)
    × (n.closed ≡ [] ++ refused passed)
    × (n.accepts ≡ no_files ∷ [])
    × Hands 4 (new_item 9) threads items 7 n.threads
drive_listening-Handed_example =
    drive_listening-Handed fresh 4 1024 (main_thread (passed ++ accepted 9 true ∷ no_files ∷ []))
      passed (no_files ∷ []) 9 items 7 heap none (omega arith) refl (tt, (refl, tt))
      (unfold cqi_new in refl) items-AllHold seven-free items-IsOutside

drive_listening-Again_example :
    (n : Main) × (drive_listening fresh 4 1024 (main_thread (passed ++ no_files ∷ [])) ≡ some n)
    × All (Set 0 0) n.listeners
    × ((do_accept_new_conns true 1024 n.listeners system).0 ≡ listener ∷ [])
drive_listening-Again_example =
    drive_listening-Again fresh 4 1024 (main_thread (passed ++ no_files ∷ [])) passed [] system refl
      (tt, (refl, tt)) ((refl, refl), tt) refl refl

-- A system on which every key has two results, and every number is 1.
abbrev find : Bytes → Option (List Bytes)
find key = some (codes "ab" ∷ codes "ac" ∷ [])

abbrev one : Bytes → ℤ
one s = pos 1

abbrev loads : Option Bytes → Bool
loads path = true

abbrev request : Request
request = record {
  good_uri = true;
  path = some (codes "/");
  decoded_path = some (codes "/");
  query = record {
    opt = some (codes "get");
    key = some (codes "a");
    number = some (codes "1");
    indexpath = none;
  };
}

process_http_cb-Replies_example :
    let out = process_http_cb find one loads (codes "i") request in
    ((length out.replies ≡ 1)
      × (out.cleanup ≡ set_up)
      × (request.good_uri ≡ true)
      × (decoded : Bytes) × (request.decoded_path ≡ some decoded))
    ⊎ ((length out.replies ≡ 1) × (out.cleanup ≡ not_reached) × (request.good_uri ≡ false))
    ⊎ ((out.replies ≡ [])
        × (out.cleanup ≡ not_set_up)
        × (request.good_uri ≡ true)
        × (request.decoded_path ≡ none))
process_http_cb-Replies_example = process_http_cb-Replies find one loads (codes "i") request

process_http_cb-lists_example :
    (process_http_cb find one loads (codes "i") request).replies
    ≡ page (codes "OK") (
        get_head (codes "/") (codes "/")
        ++ concat (
            map item (
              wanted
                (asked_number find one loads (codes "i") (some (codes "1")))
                (codes "ab" ∷ codes "ac" ∷ [])))
        ++ page_end)
      ∷ []
process_http_cb-lists_example =
    process_http_cb-lists find one loads (codes "i") request (codes "/") (codes "/") (codes "a")
      (codes "ab") (codes "ac" ∷ []) refl refl refl refl refl (λ e. cc) refl
      (unfold asked_number in omega arith) (omega arith)

sigmgr_thread-handled_example :
    sigmgr_thread
      (some 10 ∷ none ∷ some 1 ∷ some 2 ∷ some 10 ∷ [])
      (record { reloads = 0; exited = false })
    ≡ record {
      reloads = 0 + user1_count (some 10 ∷ none ∷ some 1 ∷ some 2 ∷ some 10 ∷ []);
      exited = has_int (some 10 ∷ none ∷ some 1 ∷ some 2 ∷ some 10 ∷ []);
    }
sigmgr_thread-handled_example =
    sigmgr_thread-handled (some 10 ∷ none ∷ some 1 ∷ some 2 ∷ some 10 ∷ [])
      (record { reloads = 0; exited = false }) refl
