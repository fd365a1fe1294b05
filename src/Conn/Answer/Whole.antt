-- ===== src/Conn/Answer/Whole.antt =====
-- A request from its header on: `conn_parse_cmd` of server.cpp, and then its body and its answer.
use mathlib.Core.Path.{ap₂}
use prefix_match_server.Prelude.{
  ℕ, ◌+◌, ltb, false, ◌^◌, ◌≤◌, ◌<◌, ◌≡◌, refl, sym, ap, ◌∙◌, inl, inr, Bool, Option, List, [], ◌∷◌,
  ◌++◌, append_assoc, arith, Bytes, length, take, drop, length-take, length-drop, take-append-drop,
  drop-length_append,
}
use prefix_match_server.Wire.Words.{put32, htonl, htonl_twice}
use prefix_match_server.Conn.State.{Conn, World, conn_parse_cmd, conn_nread}
use prefix_match_server.Conn.Output.{add_msghdr, clear_messages}
use prefix_match_server.Conn.Read.Fits.{Fits, unread}
use prefix_match_server.Conn.Read.Ends.{add_msghdr-SameBuffer}
use prefix_match_server.Conn.Command.{
  header_size, leaves_int, byte_at, word_at, read_header, enlarge, repack, expect_body, pass_header,
  bin_read_key, after_key, place_body, run_command, try_read_command,
}
use prefix_match_server.Conn.Command.Parses.{Fits-same, add_msghdr-same}
use prefix_match_server.Conn.Command.Placed.{place_body-Placed, leaves_int-small}
use prefix_match_server.Conn.Machine.{next_turn, parse_turn, on_parse_cmd, turn_in, turn}
use prefix_match_server.Conn.Machine.Stream.{stream}
use prefix_match_server.Conn.Read.Incoming.{incoming}
use prefix_match_server.Conn.Answer.Quiet.{add_msghdr-Quiet}
use prefix_match_server.Conn.Answer.Built.{word_at-put32}
use prefix_match_server.Conn.Answer.Exchange.{same_length, Expects}

-- While no allocation fails, the body is read next, and nothing is read yet.
module _ (c : Conn) (w : World) (free : w.allocs ≡ []) where
  place_body_free :
      ((place_body c w).0.state ≡ conn_nread)
      × ((place_body c w).0.bodylen ≡ c.bodylen)
      × ((place_body c w).1.reads ≡ w.reads)
  unfolding place_body enlarge repack expect_body
  place_body_free = rw free (ground arith, ground arith, ground arith)

-- The header of a request: magic, opcode, two bytes that are not looked at, and the length of the body.
abbrev pub request_header : ℕ → ℕ → ℕ → ℕ → Bytes
request_header opcode x y len = 0x80 ∷ opcode ∷ x ∷ y ∷ put32 (htonl len)

htonl-small : (n : ℕ) → htonl n < 2 ^ 32
unfolding htonl
htonl-small n = omega arith

module _ (c : Conn) (opcode x y len : ℕ) (rest : Bytes)
    (at : drop c.rcurr c.rbuf ≡ request_header opcode x y len ++ rest) where
  magic : byte_at (drop c.rcurr c.rbuf) 0 ≡ 0x80
  unfolding byte_at
  magic = ap (λ b. byte_at b 0) at

  announced : len < 2 ^ 32 → (read_header c).bodylen ≡ len
  unfolding read_header
  announced small =
      ap (λ b. htonl (word_at (drop 4 b))) at
      ∙ ap htonl (word_at-put32 (htonl len) rest (htonl-small len))
      ∙ htonl_twice len small

-- The bytes from `rcurr` on, for what is unread.
behind_rcurr :
    (c : Conn) (head after str : Bytes)
    → unread c ++ str ≡ head ++ after
    → length head ≤ length (unread c)
    → (rest : Bytes) × (drop c.rcurr c.rbuf ≡ head ++ rest)
      × (drop (length head) (unread c) ++ str ≡ after)
behind_rcurr c head after str e le =
    let n = length head in
    let first : take n (unread c) ≡ head =
      same_length (take n (unread c)) head (drop n (unread c) ++ str) after
        (sym (append_assoc (take n (unread c)) (drop n (unread c)) str)
          ∙ ap (λ b. b ++ str) (take-append-drop n (unread c))
          ∙ e)
        (omega (arith, length-take n (unread c), le)) in
    let whole : unread c ≡ head ++ drop n (unread c) =
      sym (take-append-drop n (unread c)) ∙ ap (λ b. b ++ drop n (unread c)) first in
    (
      drop n (unread c) ++ drop c.rbytes (drop c.rcurr c.rbuf),
      sym (take-append-drop c.rbytes (drop c.rcurr c.rbuf))
          ∙ ap (λ b. b ++ drop c.rbytes (drop c.rcurr c.rbuf)) whole
          ∙ append_assoc head (drop n (unread c)) _,
      tail_same
          (sym (append_assoc head (drop n (unread c)) str) ∙ ap (λ b. b ++ str) (sym whole) ∙ e),
    )
  where
    tail_same : {us vs : Bytes} → head ++ us ≡ head ++ vs → us ≡ vs
    tail_same {us = us} {vs = vs} q =
        sym (drop-length_append head us) ∙ ap (drop (length head)) q ∙ drop-length_append head vs

reads-add_msghdr : (c : Conn) (w : World) → (add_msghdr c w).2.reads ≡ w.reads
unfolding add_msghdr
reads-add_msghdr c w = ground arith

length-unread : (c : Conn) → Fits c → length (unread c) ≡ c.rbytes
length-unread c f = omega (
  arith,
  length-take c.rbytes (drop c.rcurr c.rbuf),
  length-drop c.rcurr c.rbuf,
  f.sized,
  f.within,
)

-- The connection and the system behind `add_msghdr`.
abbrev with_message : Conn → World → Conn
with_message c w = (add_msghdr (clear_messages (read_header c)) w).1

abbrev later : Conn → World → World
later c w = (add_msghdr (clear_messages (read_header c)) w).2

module _ (c : Conn) (w : World) (len : ℕ) (after : Bytes) (fits : Fits c)
    (whole : header_size ≤ c.rbytes) (less : len + header_size ≤ 2 ^ 30) (free : w.allocs ≡ [])
    (header_len : (read_header c).bodylen ≡ len)
    (tail : drop header_size (unread c) ++ incoming w.reads ≡ after) where
  same_bytes : Fits (with_message c w) × (unread (with_message c w) ≡ unread c)
  unfolding clear_messages read_header
  same_bytes =
      Fits-same c (with_message c w) fits (add_msghdr-SameBuffer (clear_messages (read_header c)) w)

  message_len : (with_message c w).bodylen ≡ len
  message_len =
      (add_msghdr-same (clear_messages (read_header c)) w).0 ∙ (unfold clear_messages in header_len)

  keeps_int : leaves_int (with_message c w) (later c w) ≡ false
  keeps_int =
      leaves_int-small (with_message c w) (later c w) same_bytes.0
        (omega (arith, message_len, less))

  expects :
      Expects len after
        (pass_header (place_body (with_message c w) (later c w)).0)
        (place_body (with_message c w) (later c w)).1
  expects =
      let (nread, kept, reads) =
        place_body_free (with_message c w) (later c w)
          (add_msghdr-Quiet (clear_messages (read_header c)) w free).2.2 in
      let bytes : (with_message c w).rbytes ≡ c.rbytes =
        sym (length-unread (with_message c w) same_bytes.0)
        ∙ ap length same_bytes.1
        ∙ length-unread c fits in
      let still : (pass_header (place_body (with_message c w) (later c w)).0).bodylen
          ≡ (with_message c w).bodylen =
        unfold pass_header in kept in
      elim (place_body-Placed (with_message c w) (later c w) same_bytes.0
        (omega (arith, bytes, whole)) keeps_int) [
          | inl e ↦ absurd (cc)
          | inr p ↦ record {
            state = p.reading;
            has_room = p.has_room;
            all = p.body ∙ sym still;
            announced = still ∙ message_len;
            body =
                ap₂ (λ b ios. b ++ incoming ios) (p.rest ∙ ap (drop 8) same_bytes.1)
                  (reads ∙ reads-add_msghdr (clear_messages (read_header c)) w)
                ∙ tail;
          }
        ]

-- A whole header with the right magic is run.
parse_whole :
    (c : Conn) (w : World) (n : ℕ)
    → header_size ≤ c.rbytes
    → byte_at (drop c.rcurr c.rbuf) 0 ≡ 0x80
    → on_parse_cmd c w n ≡ (
        let r = run_command (add_msghdr (clear_messages (read_header c)) w) in
        parse_turn r.0 r.1 r.2 n)
unfolding on_parse_cmd try_read_command
parse_whole c w n whole magic = rw (less, magic) refl
  where
    less : ltb c.rbytes 8 ≡ false
    less = ground arith

-- On a connection in `conn_parse_cmd` with unread bytes within its buffer, of which there are as many
-- as a header has, and a stream that begins with the header of a request for a body that is, with the
-- header, of 2 ^ 30 bytes at most, while no allocation fails: the next turn leads to a connection
-- that is to read a body of that length, with room for it, from what follows the header in the
-- stream.
pub turn-Expects :
    (get : Bytes → Option (List Bytes)) (c : Conn) (w : World) (n opcode x y len : ℕ)
    (after : Bytes)
    → c.state ≡ conn_parse_cmd
    → Fits c
    → header_size ≤ c.rbytes
    → stream c w ≡ request_header opcode x y len ++ after
    → len + header_size ≤ 2 ^ 30
    → w.allocs ≡ []
    → (d : Conn) × (v : World) × (turn get c w n ≡ next_turn d v n) × Expects len after d v
turn-Expects get c w n opcode x y len after st fits whole request less free =
    let eight : length (request_header opcode x y len) ≡ 8 = unfold put32 in refl in
    let (rest, at, tail) =
      behind_rcurr c (request_header opcode x y len) after (incoming w.reads) request
        (omega (arith, eight, length-unread c fits, whole)) in
    let len_read = announced c opcode x y len rest at (omega (arith, less)) in
    let ok = (add_msghdr-Quiet (clear_messages (read_header c)) w free).0 in
    (
      pass_header (place_body (with_message c w) (later c w)).0,
      (place_body (with_message c w) (later c w)).1,
      unfold turn in
          ap (λ s. turn_in s get c w n) st
          ∙ parse_whole c w n whole (magic c opcode x y len rest at)
          ∙ ap
              (λ (b : Bool).
                let r = run_command (b, with_message c w, later c w) in parse_turn r.0 r.1 r.2 n)
              ok
          ∙ (unfold run_command bin_read_key after_key parse_turn in
              rw
                (keeps_int c w len after fits whole less free len_read
                  (ap (λ k. drop k (unread c) ++ incoming w.reads) (sym eight) ∙ tail))
                refl),
      expects c w len after fits whole less free len_read
          (ap (λ k. drop k (unread c) ++ incoming w.reads) (sym eight) ∙ tail),
    )
