-- ===== src/Conn/Machine/Sound/Input.antt =====
-- The turns that read and parse keep a connection sound.
use prefix_match_server.Prelude.{
  ℕ, ◌^◌, zero, suc, ◌+◌, ◌-◌, ◌*◌, ◌≤◌, ◌≡◌, ◌≢◌, refl, sym, ◌∙◌, ◌⊎◌, inl, inr, Bool, true, false,
  ◌&&◌, Option, none, some, arith, List, Bytes, codes, ltb, leb, ◌==◌, if◌then◌else◌, length, drop,
  Bool-cases, subst,
}
use prefix_match_server.Conn.State.{
  int_limit, conn_listening, conn_waiting, conn_parse_cmd, conn_write, conn_nread, conn_closing,
  conn_max_state, Conn, World, conn_set_state, head_flag, read,
}
use prefix_match_server.Conn.Output.{out_string, add_msghdr, clear_messages}
use prefix_match_server.Conn.Read.{
  TryReadResult, read_data_received, read_no_data_received, read_error, read_memory_error, Reader,
  read_once, read_loop, try_read_network, out_of_memory, store_read, grow, pack,
}
use prefix_match_server.Conn.Read.Fits.{Fits}
use prefix_match_server.Conn.Read.Ends.{try_read_network-Ends, Io-cases}
use prefix_match_server.Conn.Command.{
  header_size, enlarge, repack, bin_read_key, after_key, leaves_int, place_body, grown_size,
  pass_header, run_command, try_read_command, byte_at, read_header,
}
use prefix_match_server.Conn.Command.Placed.{place_body-Placed, leaves_int-small}
use prefix_match_server.Conn.Command.Parses.{Fits-same, add_msghdr-same}
use prefix_match_server.Conn.Machine.{read_turn, on_read, parse_turn, on_parse_cmd}
use prefix_match_server.Conn.Machine.Untouched.{Same, add_msghdr-Same, out_string-SameBuffer}
use prefix_match_server.Conn.Machine.Sound.{
  Goes, Sound, Quiet, Keeps, Overlong, Quiet-Sound, same-Sound, Fits-state,
}

-- A read leads to a good state, and goes on to the line that it may have written.
abbrev GoesOn : Option (TryReadResult × Conn × World) → Type 0
GoesOn none = Unit {0}
GoesOn (some (r, d, w)) = Goes d.write_and_go × (r ≡ read_memory_error → d.state ≡ conn_write)

GoesOn-if :
    (b : Bool) (x y : Option (TryReadResult × Conn × World))
    → GoesOn x
    → GoesOn y
    → GoesOn (if b then x else y)
GoesOn-if true x y hx hy = hx
GoesOn-if false x y hx hy = hy

ReadsOn : Reader → Type 0
ReadsOn again =
    (c : Conn) (w : World) (g : TryReadResult)
    → Goes c.write_and_go
    → g ≢ read_memory_error
    → GoesOn (again c w g)

read_once-GoesOn : (again : Reader) → ReadsOn again → ReadsOn (read_once again)
unfolding read_once ReadsOn
read_once-GoesOn again ih c w g h ne = elim (Io-cases (read (c.rsize - c.rbytes) w.reads).0) [
  | inl (bytes, e) ↦
      rw (e, read_once)
        (GoesOn-if (length bytes == 0) (some (read_error, c, _)) _ (h, λ m. absurd (cc))
          (GoesOn-if (length bytes == c.rsize - c.rbytes) _
            (some (read_data_received, store_read c bytes, _))
            (ih (store_read c bytes) _ read_data_received (unfold store_read in h) (λ m. cc))
            (unfold store_read in h, λ m. absurd (cc))))
  | inr (inl e) ↦ rw (e, read_once) (h, λ m. absurd (ne m))
  | inr (inr e) ↦ rw (e, read_once) (h, λ m. absurd (cc))
]

out_of_memory-GoesOn : (c : Conn) (w : World) → GoesOn (some (out_of_memory c w))
unfolding out_of_memory out_string
out_of_memory-GoesOn c w = (inr refl, λ m. refl)

read_loop-ReadsOn : (fuel allocs : ℕ) → ReadsOn (read_loop fuel allocs)
unfolding read_loop ReadsOn
read_loop-ReadsOn zero allocs c w g h ne = tt
read_loop-ReadsOn (suc fuel) zero c w g h ne =
    GoesOn-if (leb c.rsize c.rbytes) (some (g, c, w)) _ (h, λ m. absurd (ne m))
      (read_once-GoesOn (read_loop fuel zero) (read_loop-ReadsOn fuel zero) c w g h ne)
read_loop-ReadsOn (suc fuel) (suc allocs) c w g h ne =
    GoesOn-if (leb c.rsize c.rbytes) _ _
      (GoesOn-if (head_flag w.allocs && ltb (c.rsize * 2) int_limit) _ _
        (read_once-GoesOn (read_loop fuel allocs) (read_loop-ReadsOn fuel allocs) (grow c) _ g
          (unfold grow in h) ne)
        (out_of_memory-GoesOn c _))
      (read_once-GoesOn (read_loop fuel (suc allocs)) (read_loop-ReadsOn fuel (suc allocs)) c w g h
        ne)

try_read_network-GoesOn :
    (c : Conn) (w : World) → Goes c.write_and_go → GoesOn (try_read_network c w)
unfolding try_read_network pack ReadsOn
try_read_network-GoesOn c w h = elim (Bool-cases (c.rcurr == 0)) [
  | inl e ↦ rw e (read_loop-ReadsOn 6 4 c w read_no_data_received h (λ m. cc))
  | inr e ↦ rw e (read_loop-ReadsOn 6 4 _ w read_no_data_received h (λ m. cc))
]

read_turn-Keeps :
    (o : Type 0) (r : TryReadResult) (d : Conn) (w : World) (n : ℕ)
    → Fits d
    → GoesOn (some (r, d, w))
    → Keeps o (read_turn r d w n)
unfolding read_turn
read_turn-Keeps o read_no_data_received d w n f (g, m) =
    Quiet-Sound (conn_set_state d conn_waiting) (Fits-state d conn_waiting f) tt g
read_turn-Keeps o read_data_received d w n f (g, m) =
    Quiet-Sound (conn_set_state d conn_parse_cmd) (Fits-state d conn_parse_cmd f) tt g
read_turn-Keeps o read_error d w n f (g, m) =
    Quiet-Sound (conn_set_state d conn_closing) (Fits-state d conn_closing f) tt g
read_turn-Keeps o read_memory_error d w n f (g, m) =
    Quiet-Sound d f (subst Quiet (sym (m refl)) tt) g

pub on_read-Keeps : (o : Type 0) (c : Conn) (w : World) (n : ℕ) → Sound c → Keeps o (on_read c w n)
unfolding on_read
on_read-Keeps o c w n h =
    let (r, d, w', e, out) = try_read_network-Ends c w h.fits in
    rw (e, on_read)
      (read_turn-Keeps o r d w' n out.fits (subst GoesOn e (try_read_network-GoesOn c w h.goes)))

repack-go : (d : Conn) → (repack d).write_and_go ≡ d.write_and_go
unfolding repack
repack-go d = ground arith

-- The way out of `place_body` without memory, and the others.
place_body-cases :
    (c : Conn) (w : World)
    → ((place_body c w).0.write_and_go ≡ c.write_and_go)
      × (((place_body c w).0 ≡ conn_set_state (record c { rlbytes = c.bodylen }) conn_closing)
          ⊎ ((place_body c w).0.state ≡ conn_nread))
unfolding place_body
place_body-cases c w = elim (Bool-cases (ltb c.rsize (c.rcurr + 8 + c.bodylen))) [
  | inr e ↦ rw e (refl, inr refl)
  | inl e ↦ rw e (elim (Bool-cases (grown_size c == c.rsize)) [
    | inl e2 ↦ rw e2 (repack-go (record c { rlbytes = c.bodylen }), inr refl)
    | inr e2 ↦ rw e2 (elim (Bool-cases (head_flag w.allocs)) [
      | inl e3 ↦ rw e3 (
        unfold enlarge in repack-go (enlarge (record c { rlbytes = c.bodylen }) (grown_size c)),
        inr refl,
      )
      | inr e3 ↦ rw e3 (refl, inl refl)
    ])
  ])
]

Fits-pass_header : (d : Conn) → Fits d → header_size ≤ d.rbytes → Fits (pass_header d)
unfolding pass_header
Fits-pass_header d f h = record {
  sized = f.sized;
  within = omega (arith, f.within);
  room = f.room;
  small = f.small;
}

place_body-Sound :
    (c : Conn) (w : World)
    → Fits c
    → header_size ≤ c.rbytes
    → Goes c.write_and_go
    → leaves_int c w ≡ false
    → Sound (pass_header (place_body c w).0)
place_body-Sound c w f h g int = elim (place_body-cases c w).1 [
  | inl e ↦ rw e (
      Quiet-Sound (pass_header closing)
        (Fits-pass_header closing
          (Fits-state (record c { rlbytes = c.bodylen }) conn_closing
            (record { sized = f.sized; within = f.within; room = f.room; small = f.small }))
          h)
        (unfold pass_header in tt) (unfold pass_header in g))
  | inr e ↦ elim (place_body-Placed c w f h int) [
    | inl e2 ↦ absurd (cc)
    | inr p ↦ record {
      fits = p.has_room.fits;
      client = (
        (λ z. absurd (differs (sym p.reading ∙ z))),
        (λ z. absurd (differs2 (sym p.reading ∙ z))),
      );
      goes = unfold pass_header in subst Goes (sym (place_body-cases c w).0) g;
      reading = λ z. p.has_room;
    }
  ]
]
  where
    closing : Conn
    closing = conn_set_state (record c { rlbytes = c.bodylen }) conn_closing

    differs : conn_nread ≢ conn_listening
    differs z = cc

    differs2 : conn_nread ≢ conn_max_state
    differs2 z = cc

run_command-Keeps :
    (get : Bytes → Option (List Bytes)) (o d : Conn) (ok : Bool) (w : World) (n : ℕ)
    → o.state ≡ conn_parse_cmd
    → d.bodylen ≡ (read_header o).bodylen
    → Fits d
    → header_size ≤ d.rbytes
    → Goes d.write_and_go
    → Keeps (Overlong get o) (
        parse_turn
          (run_command (ok, d, w)).0
          (run_command (ok, d, w)).1
          (run_command (ok, d, w)).2
          n)
unfolding run_command parse_turn after_key bin_read_key
run_command-Keeps get o d true w n parse len f h g = elim (Bool-cases (leaves_int d w)) [
  | inr int ↦ rw int (place_body-Sound d w f h g int)
  | inl long ↦ rw long (
      let small : d.bodylen + 8 ≤ 2 ^ 30 → leaves_int d w ≡ false = leaves_int-small d w f in
      elim (Bool-cases (leb (d.bodylen + 8) (2 ^ 30))) [
        | inl le ↦ let int = small (ground arith) in absurd (cc)
        | inr gt ↦ inl (parse, ground (arith, len))
      ])
]
run_command-Keeps get o d false w n parse len f h g =
    let e = (out_string d w (codes "SERVER_ERROR out of memory")).0 in
    same-Sound d (conn_set_state e conn_waiting) f
      (out_string-SameBuffer d w (codes "SERVER_ERROR out of memory")) tt
      (unfold out_string in inl refl)

pub on_parse_cmd-Keeps :
    (get : Bytes → Option (List Bytes)) (c : Conn) (w : World) (n : ℕ)
    → Sound c
    → c.state ≡ conn_parse_cmd
    → Keeps (Overlong get c) (on_parse_cmd c w n)
unfolding on_parse_cmd try_read_command clear_messages
on_parse_cmd-Keeps get c w n h parse = elim (Bool-cases (ltb c.rbytes 8)) [
  | inl e ↦ rw e (
      unfold parse_turn in
      Quiet-Sound (conn_set_state c conn_waiting) (Fits-state c conn_waiting h.fits) tt h.goes)
  | inr e ↦ rw e (elim (Bool-cases (byte_at (drop c.rcurr c.rbuf) 0 == 0x80)) [
    | inr e2 ↦ rw e2 (
        unfold parse_turn in
        Quiet-Sound (conn_set_state c conn_closing) (Fits-state c conn_closing h.fits) tt h.goes)
    | inl e2 ↦ rw e2 (
        run_command-Keeps get c (add_msghdr d w).1 (add_msghdr d w).0 (add_msghdr d w).2 n parse
          (add_msghdr-same d w).0 (Fits-same c (add_msghdr d w).1 h.fits kept.0).0
          (ground (arith, kept.0.3)) (subst Goes (sym kept.2) h.goes))
  ])
]
  where
    d : Conn
    d = clear_messages (read_header c)

    kept : Same c (add_msghdr d w).1
    kept = unfold read_header in add_msghdr-Same d w
