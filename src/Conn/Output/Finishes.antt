-- ===== src/Conn/Output/Finishes.antt =====
-- The rounds of `add_iov`.
use prefix_match_server.Prelude.{
  ℕ, suc, ◌+◌, ◌<◌, ◌≡◌, ◌≢◌, refl, ap, ◌∙◌, inl, inr, Bool, true, false, ◌||◌, List, [], ◌∷◌, ◌++◌,
  arith, Bytes, ltb, ◌==◌, if◌then◌else◌, length, take, drop, Bool-cases, length-append,
  length-take, le→ltb,
}
use prefix_match_server.Conn.State.{Conn, World, Message}
use prefix_match_server.Conn.Output.{
  Ret, ret_ok, add_msghdr, ensure_iov_space, push_chunk, limit_to_mtu, message_full, start_message,
  chunk_length, put_chunk, add_iov, udp_max_payload_size,
}

abbrev pub Finishes : Ret → Type 0
Finishes r = (d : Conn) × (w : World) × (r ≡ ret_ok d w)

pub length-push_chunk :
    (ms : List Message) (chunk : Bytes) → length (push_chunk ms chunk) ≡ length ms
unfolding push_chunk
length-push_chunk [] chunk = refl
length-push_chunk (m ∷ []) chunk = refl
length-push_chunk (m ∷ n ∷ ms) chunk = ap suc (length-push_chunk (n ∷ ms) chunk)

module _ (c : Conn) (w : World) (free : w.allocs ≡ []) where
  pub ensure_free :
      ((ensure_iov_space c w).0 ≡ true)
      × ((ensure_iov_space c w).2.allocs ≡ [])
      × ((ensure_iov_space c w).1.messages ≡ c.messages)
      × ((ensure_iov_space c w).1.msgbytes ≡ c.msgbytes)
  unfolding ensure_iov_space
  ensure_free = ground arith

  pub start_free :
      ((start_message c w).1.allocs ≡ [])
      × (message_full c ≡ true
          → ((start_message c w).0.messages ≡ c.messages ++ [] ∷ [])
            × ((start_message c w).0.msgbytes ≡ 0))
      × (message_full c ≡ false → (start_message c w).0 ≡ c)
  unfolding start_message add_msghdr
  start_free = (ground arith, λ h. ground arith, λ h. rw h)

-- The connection after the first part of a round, and after all of it.
module _ (c : Conn) (w : World) (buf : Bytes) where
  abbrev before : Conn
  before = (ensure_iov_space (start_message c w).0 (start_message c w).1).1

  abbrev world : World
  world = (ensure_iov_space (start_message c w).0 (start_message c w).1).2

  abbrev share : ℕ
  share = chunk_length (limit_to_mtu c) before (length buf)

  abbrev after : Conn
  after = put_chunk before (take share buf)

  world_free : w.allocs ≡ [] → world.allocs ≡ []
  world_free free =
      (ensure_free (start_message c w).0 (start_message c w).1 (start_free c w free).0).1

  round :
      (fuel : ℕ)
      → w.allocs ≡ []
      → add_iov (suc fuel) c w buf ≡ (
          if ltb share (length buf)
          then add_iov fuel after world (drop share buf)
          else ret_ok after world)
  unfolding add_iov
  round fuel free =
      rw (ensure_free (start_message c w).0 (start_message c w).1 (start_free c w free).0).0 refl

  -- A message that is not limited takes the whole buffer.
  round_free :
      (fuel : ℕ) → w.allocs ≡ [] → limit_to_mtu c ≡ false → Finishes (add_iov (suc fuel) c w buf)
  round_free fuel free l = (after, world, round fuel free ∙ rw e refl)
    where
      e : ltb share (length buf) ≡ false
      e = unfold chunk_length in rw l (le→ltb (length buf) (length buf) (omega arith))

  -- The next round finishes, or none is needed.
  round_then :
      (fuel : ℕ)
      → w.allocs ≡ []
      → (ltb share (length buf) ≡ true → Finishes (add_iov fuel after world (drop share buf)))
      → Finishes (add_iov (suc fuel) c w buf)
  round_then fuel free next = elim (Bool-cases (ltb share (length buf))) [
    | inl e ↦ let r = next e in (r.0, r.1, round fuel free ∙ rw e r.2)
    | inr e ↦ (after, world, round fuel free ∙ rw e refl)
  ]

  messages-after : w.allocs ≡ [] → length after.messages ≡ length (start_message c w).0.messages
  unfolding put_chunk
  messages-after free =
      length-push_chunk before.messages (take share buf)
      ∙ ap length
          (ensure_free (start_message c w).0 (start_message c w).1 (start_free c w free).0).2

  msgbytes-after :
      w.allocs ≡ [] → after.msgbytes ≡ (start_message c w).0.msgbytes + length (take share buf)
  unfolding put_chunk
  msgbytes-after free =
      ap (λ k. k + length (take share buf))
        (ensure_free (start_message c w).0 (start_message c w).1 (start_free c w free).0).3

abbrev Single : Conn → Type 0
Single c = length c.messages ≡ 1

-- A second message is started, and the round after takes all that is left.
full-Finishes :
    (fuel : ℕ) (c : Conn) (w : World) (buf : Bytes)
    → w.allocs ≡ []
    → c.messages ≢ []
    → message_full c ≡ true
    → Finishes (add_iov (suc (suc fuel)) c w buf)
full-Finishes fuel c w buf free ne full = round_then c w buf (suc fuel) free λ e.
    round_free (after c w buf) (world c w buf) (drop (share c w buf) buf) fuel
      (world_free c w buf free) limit
  where
    two : length (after c w buf).messages ≡ length c.messages + 1
    two =
        messages-after c w buf free
        ∙ ap length ((start_free c w free).1 full).0
        ∙ length-append c.messages ([] ∷ [])

    limit : limit_to_mtu (after c w buf) ≡ false
    limit = unfold limit_to_mtu in rw two (at c.messages ne)
      where
        at : (ms : List Message) → ms ≢ [] → ((length ms + 1) == 1) ≡ false
        at [] h = absurd (h refl)
        at (m ∷ ms) h = ground arith

-- The first chunk of a limited message fills it, if it does not take the whole buffer.
share_fills :
    (limit : Bool) (d : Conn) (len : ℕ)
    → d.msgbytes < udp_max_payload_size
    → limit ≡ true
    → ltb (chunk_length limit d len) len ≡ true
    → (chunk_length limit d len + d.msgbytes ≡ udp_max_payload_size)
      × (chunk_length limit d len < len)
unfolding chunk_length
share_fills limit d len lt l e = ground arith

filled_full :
    (d : Conn) → length d.messages ≡ 1 → d.msgbytes ≡ udp_max_payload_size → message_full d ≡ true
unfolding message_full limit_to_mtu
filled_full d one full = rw (one, full) (or_true _)
  where
    or_true : (b : Bool) → (b || true) ≡ true
    or_true true = refl
    or_true false = refl

pub limit-single : (c : Conn) → limit_to_mtu c ≡ true → length c.messages ≡ 1
unfolding limit_to_mtu
limit-single c h = ground arith

pub room-left :
    (c : Conn) → limit_to_mtu c ≡ true → message_full c ≡ false → c.msgbytes < udp_max_payload_size
unfolding message_full
room-left c l h = ground arith

-- For a connection with a message, if no allocation fails, then `add_iov` returns 0 within three
-- rounds, for every buffer.
pub add_iov-Finishes :
    (fuel : ℕ) (c : Conn) (w : World) (buf : Bytes)
    → w.allocs ≡ []
    → c.messages ≢ []
    → Finishes (add_iov (suc (suc (suc fuel))) c w buf)
add_iov-Finishes fuel c w buf free ne = elim (Bool-cases (limit_to_mtu c)) [
  | inr l ↦ round_free c w buf (suc (suc fuel)) free l
  | inl l ↦ elim (Bool-cases (message_full c)) [
    | inl full ↦ full-Finishes (suc fuel) c w buf free ne full
    | inr room ↦ third l room
  ]
]
  where
    third :
        limit_to_mtu c ≡ true
        → message_full c ≡ false
        → Finishes (add_iov (suc (suc (suc fuel))) c w buf)
    third l room = round_then c w buf (suc (suc fuel)) free λ e.
        let same = (start_free c w free).2 room in
        let mb : (before c w buf).msgbytes ≡ c.msgbytes =
          (ensure_free (start_message c w).0 (start_message c w).1 (start_free c w free).0).3
          ∙ ap (λ (x : Conn). x.msgbytes) same in
        let one : length (after c w buf).messages ≡ 1 =
          messages-after c w buf free
          ∙ ap (λ (x : Conn). length x.messages) same
          ∙ limit-single c l in
        let f =
          share_fills (limit_to_mtu c) (before c w buf) (length buf)
            (omega (arith, mb, room-left c l room)) l e in
        let bytes : (after c w buf).msgbytes ≡ udp_max_payload_size =
          msgbytes-after c w buf free
          ∙ omega (
            arith,
            ap (λ (x : Conn). x.msgbytes) same,
            mb,
            f.0,
            f.1,
            length-take (share c w buf) buf,
          ) in
        let single : (after c w buf).messages ≢ [] =
          λ z. absurd (omega (arith, one, ap length z)) in
        full-Finishes fuel (after c w buf) (world c w buf) (drop (share c w buf) buf)
          (world_free c w buf free) single (filled_full (after c w buf) one bytes)
