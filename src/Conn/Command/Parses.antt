-- ===== src/Conn/Command/Parses.antt =====
-- What `try_read_command` makes of the unread bytes.
use prefix_match_server.Prelude.{
  ◌^◌, ◌≤◌, ◌<◌, ◌+◌, ◌≢◌, ◌≡◌, refl, sym, ap, ◌∙◌, ◌⊎◌, inl, inr, Bool, true, false, arith, ltb,
  ◌==◌, length, take, drop, Bool-cases,
}
use mathlib.Core.Path.{ap₂}
use prefix_match_server.Conn.State.{Conn, World, conn_closing, head_flag}
use prefix_match_server.Conn.Output.{add_msghdr, clear_messages}
use prefix_match_server.Conn.Read.Fits.{Fits, unread}
use prefix_match_server.Conn.Read.Ends.{SameBuffer, add_msghdr-SameBuffer}
use prefix_match_server.Conn.Command.{
  header_size, Parsed, need_more_data, bad_magic, command, pass_header, read_header, run_command,
  bin_read_key, after_key, place_body, grown_size, expect_body, try_read_command, byte_at,
}
use prefix_match_server.Conn.Command.Placed.{Placed, Placed-at, place_body-Placed, leaves_int-small}
use prefix_match_server.Conn.Read.Incoming.{Refused, Refused-head, Refused-tail}

-- What `try_read_command` makes of the unread bytes, and why.
abbrev pub Parses : Conn → World → Parsed × Conn × World → Type 0
Parses c w (r, d, w') =
    ((r ≡ need_more_data) × ((c.rbytes < header_size) ⊎ Refused w.allocs))
    ⊎ ((r ≡ bad_magic)
        × (header_size ≤ c.rbytes)
        × (byte_at (drop c.rcurr c.rbuf) 0 ≢ 0x80)
        × (d.state ≡ conn_closing))
    ⊎ ((r ≡ command)
        × (header_size ≤ c.rbytes)
        × (byte_at (drop c.rcurr c.rbuf) 0 ≡ 0x80)
        × (((d.state ≡ conn_closing) × Refused w.allocs)
            ⊎ Placed (unread c) (read_header c).bodylen d))

pub Fits-same : (c d : Conn) → Fits c → SameBuffer c d → Fits d × (unread d ≡ unread c)
Fits-same c d f (b, cu, si, by) = (
  record {
    sized = ap length b ∙ f.sized ∙ sym si;
    within = omega (arith, f.within, cu, by, si);
    room = omega (arith, f.room, si);
    small = omega (arith, f.small, si);
  },
  ap₂ take by (ap₂ drop cu b),
)

pub add_msghdr-same :
    (c : Conn) (w : World)
    → ((add_msghdr c w).1.bodylen ≡ c.bodylen)
      × ((add_msghdr c w).0 ≡ false → Refused w.allocs)
      × (Refused (add_msghdr c w).2.allocs → Refused w.allocs)
unfolding add_msghdr
add_msghdr-same c w = elim (Bool-cases (c.msgsize == length c.messages)) [
  | inl e ↦ rw e (elim (Bool-cases (head_flag w.allocs)) [
    | inl e2 ↦ rw e2 (refl, (λ h. absurd (cc)), Refused-tail w.allocs)
    | inr e2 ↦ rw e2 (refl, (λ h. Refused-head w.allocs e2), Refused-tail w.allocs)
  ])
  | inr e ↦ rw e (refl, (λ h. absurd (cc)), λ h. h)
]

-- A body that gets no place is one without memory.
place_body-closing :
    (c : Conn) (w : World) → (place_body c w).0.state ≡ conn_closing → Refused w.allocs
unfolding place_body expect_body
place_body-closing c w = elim (Bool-cases (ltb c.rsize (c.rcurr + 8 + c.bodylen))) [
  | inr e ↦ rw e (λ z. absurd (cc))
  | inl e ↦ rw e (elim (Bool-cases (grown_size c == c.rsize)) [
    | inl e2 ↦ rw e2 (λ z. absurd (cc))
    | inr e2 ↦ rw e2 (elim (Bool-cases (head_flag w.allocs)) [
      | inl e3 ↦ rw e3 (λ z. absurd (cc))
      | inr e3 ↦ rw e3 (λ z. Refused-head w.allocs e3)
    ])
  ])
]

run_command-Parses :
    (c d : Conn) (w w' : World) (ok : Bool)
    → Fits c
    → header_size ≤ c.rbytes
    → byte_at (drop c.rcurr c.rbuf) 0 ≡ 0x80
    → SameBuffer c d
    → d.bodylen ≡ (read_header c).bodylen
    → d.bodylen + 8 ≤ 2 ^ 30
    → (ok ≡ false → Refused w.allocs)
    → (Refused w'.allocs → Refused w.allocs)
    → Parses c w (run_command (ok, d, w'))
unfolding run_command bin_read_key after_key
run_command-Parses c d w w' true f h magic s b small g k =
    let (fd, u) = Fits-same c d f s in
    let int = leaves_int-small d w' fd small in
    rw int (
      inr (
        inr (
          refl,
          h,
          magic,
          elim (place_body-Placed d w' fd (omega (arith, h, s.3)) int) [
            | inl e ↦ inl (unfold pass_header in e, k (place_body-closing d w' e))
            | inr p ↦
                inr (Placed-at (unread c) (unread d) (read_header c).bodylen d.bodylen _ u b p)
          ],
        )))
run_command-Parses c d w w' false f h magic s b small g k = inl (refl, inr (g refl))

-- For a connection whose unread bytes lie within its buffer and whose request announces a body that
-- is, with a header, of 2 ^ 30 bytes at most: `try_read_command` asks for more data only if there is no
-- whole header or an allocation fails; it closes the connection for a whole header with a wrong magic;
-- and for a right one it closes it only if an allocation fails, and else reads the body next, of the
-- length that the header has, with room for all of it in the buffer, and what is unread is what was,
-- less the header.
pub try_read_command-Parses :
    (c : Conn) (w : World)
    → Fits c
    → (read_header c).bodylen + header_size ≤ 2 ^ 30
    → Parses c w (try_read_command c w)
unfolding try_read_command clear_messages
try_read_command-Parses c w f small = elim (Bool-cases (ltb c.rbytes 8)) [
  | inl e ↦ rw e (inl (refl, inl (ground arith)))
  | inr e ↦ rw e (elim (Bool-cases (byte_at (drop c.rcurr c.rbuf) 0 == 0x80)) [
    | inr e2 ↦ rw e2 (inr (inl (refl, ground arith, (λ z. ground arith), refl)))
    | inl e2 ↦ rw e2 (
        let d = clear_messages (read_header c) in
        run_command-Parses c (add_msghdr d w).1 w (add_msghdr d w).2 (add_msghdr d w).0 f
          (ground arith) (ground arith) (unfold read_header in add_msghdr-SameBuffer d w)
          (add_msghdr-same d w).0 (omega (arith, (add_msghdr-same d w).0, small))
          (add_msghdr-same d w).1 (add_msghdr-same d w).2)
  ])
]
