-- ===== src/Conn/Machine/Stream.antt =====
-- The state `conn_nread` and the bytes that arrive.
use mathlib.Core.Path.{ap₂}
use prefix_match_server.Prelude.{
  ℕ, zero, suc, ◌+◌, ◌-◌, ◌≤◌, ◌<◌, ◌≡◌, refl, sym, ap, ◌∙◌, inl, inr, true, false, Option, List,
  [], ◌∷◌, ◌++◌, arith, Bytes, ltb, ◌==◌, if◌then◌else◌, length, take, drop, Bool-cases, append-nil,
  append_assoc, take-append-drop,
}
use prefix_match_server.Conn.State.{
  ConnStates, conn_nread, conn_closing, Conn, World, Io, received, would_block, failed, read,
  conn_set_state, update_event, ev_read_persist, head_flag,
}
use prefix_match_server.Conn.Read.Incoming.{incoming, got, incoming-read}
use prefix_match_server.Conn.Read.Fits.{unread, take-write_at, read-le}
use prefix_match_server.Conn.Command.Placed.{HasRoom, drop_add, take_sub}
use prefix_match_server.Conn.Machine.{
  Turn, next_turn, stopped, closed, stuck, overrun, wait_for, copy_leftovers, store_item,
  after_read, read_item, on_nread,
}
use prefix_match_server.Conn.Machine.Bounds.{copy_leftovers-Within, no_leftovers}

-- What is unread, and what is still to come.
abbrev pub stream : Conn → World → Bytes
stream c w = unread c ++ incoming w.reads

-- The buffer up to where the body is written next.
abbrev pub filled : Conn → Bytes
filled c = take c.ritem c.rbuf

-- Bytes at the front of the stream are appended to the body.
abbrev pub Moved : Bytes → Bytes → Conn → World → Type 0
Moved body str d w = (bytes : Bytes) × (filled d ≡ body ++ bytes) × (bytes ++ stream d w ≡ str)

abbrev pub Moves : Bytes → Bytes → Turn → Type 0
Moves body str (next_turn d w n) = Moved body str d w
Moves body str (stopped d w n) = Moved body str d w
Moves body str (closed d w) = Moved body str d w
Moves body str stuck = ⊥
Moves body str overrun = ⊥

take_add : (n k : ℕ) (xs : Bytes) → take (n + k) xs ≡ take n xs ++ take k (drop n xs)
take_add zero k xs = let e : zero + k ≡ k = omega arith in ap (λ m. take m xs) e
take_add (suc n) zero [] =
    let e : suc n + zero ≡ suc n = omega arith in ap (λ m. take {A = ℕ} m []) e
take_add (suc n) (suc k) [] =
    let e : suc n + suc k ≡ suc (n + suc k) = omega arith in ap (λ m. take {A = ℕ} m []) e
take_add (suc n) k (x ∷ xs) =
    let e : suc n + k ≡ suc (n + k) = omega arith in
    ap (λ m. take m (x ∷ xs)) e ∙ ap (λ t. x ∷ t) (take_add n k xs)

take-take : (n k : ℕ) (xs : Bytes) → n ≤ k → take n (take k xs) ≡ take n xs
take-take zero k xs h = refl
take-take (suc n) zero xs h = absurd (omega arith)
take-take (suc n) (suc k) [] h = refl
take-take (suc n) (suc k) (x ∷ xs) h = ap (λ t. x ∷ t) (take-take n k xs (omega arith))

-- A move from a connection, with what came before.
pub Moved-after :
    (c : Conn) (w : World) (d : Conn) (w' : World) (body str : Bytes)
    → Moved body str c w
    → Moved (filled c) (stream c w) d w'
    → Moved body str d w'
Moved-after c w d w' body str (x, b, s) (y, e, t) = (
  x ++ y,
  e ∙ ap (λ z. z ++ y) b ∙ append_assoc body x y,
  append_assoc x y (stream d w') ∙ ap (◌++◌ x) t ∙ s,
)

copy_leftovers-Moved :
    (c : Conn) (w : World) → HasRoom c → Moved (filled c) (stream c w) (copy_leftovers c) w
unfolding copy_leftovers
copy_leftovers-Moved c w h =
    let at : (c.ritem == c.rcurr) ≡ true = ground (arith, h.at_rcurr) in
    rw at (moved (if ltb c.rlbytes c.rbytes then c.rlbytes else c.rbytes) (ground arith))
  where
    moved :
        (t : ℕ)
        → t ≤ c.rbytes
        → (bytes : Bytes) × (take (c.ritem + t) c.rbuf ≡ take c.ritem c.rbuf ++ bytes)
          × (bytes ++ (take (c.rbytes - t) (drop (c.rcurr + t) c.rbuf) ++ incoming w.reads)
              ≡ unread c ++ incoming w.reads)
    moved t le = (
      take t (unread c),
      take_add c.ritem t c.rbuf
          ∙ ap (◌++◌ (take c.ritem c.rbuf)) (
              ap (λ k. take t (drop k c.rbuf)) h.at_rcurr
              ∙ sym (take-take t c.rbytes (drop c.rcurr c.rbuf) le)),
      ap (λ r. take t (unread c) ++ (r ++ incoming w.reads))
            (ap (take (c.rbytes - t)) (drop_add c.rcurr t c.rbuf)
              ∙ take_sub c.rbytes t (drop c.rcurr c.rbuf))
          ∙ sym (append_assoc (take t (unread c)) (drop t (unread c)) (incoming w.reads))
          ∙ ap (λ b. b ++ incoming w.reads) (take-append-drop t (unread c)),
    )

store_item-Moved :
    (c : Conn) (w w' : World) (bytes : Bytes)
    → HasRoom c
    → c.rbytes ≡ 0
    → length bytes ≤ c.rlbytes
    → bytes ++ incoming w'.reads ≡ incoming w.reads
    → Moved (filled c) (stream c w) (store_item c bytes) w'
unfolding store_item
store_item-Moved c w w' bytes h z le s = (
  bytes,
  take-write_at c.rbuf bytes c.ritem (omega (arith, h.room, h.fits.sized)),
  ap
        (λ k.
          bytes
          ++ (take k (drop (store_item c bytes).rcurr (store_item c bytes).rbuf)
              ++ incoming w'.reads))
        z
      ∙ s
      ∙ ap (λ k. take k (drop c.rcurr c.rbuf) ++ incoming w.reads) (sym z),
)

-- Nothing moves.
same-Moved :
    (c d : Conn) (w w' : World)
    → filled d ≡ filled c
    → unread d ≡ unread c
    → incoming w'.reads ≡ incoming w.reads
    → Moved (filled c) (stream c w) d w'
same-Moved c d w w' f u i = ([], f ∙ sym (append-nil _), ap₂ ◌++◌ u i)

-- `update_event` changes neither the buffer nor the stream.
update_event-same :
    (c : Conn) (flags : ℕ) (w : World)
    → (filled (update_event c flags w).1 ≡ filled c)
      × (unread (update_event c flags w).1 ≡ unread c)
      × ((update_event c flags w).2.reads ≡ w.reads)
unfolding update_event
update_event-same c flags w = elim (Bool-cases (c.ev_flags == flags)) [
  | inl e ↦ rw e (refl, refl, refl)
  | inr e ↦ rw e (elim (Bool-cases (head_flag w.events)) [
    | inl e2 ↦ rw e2 (refl, refl, refl)
    | inr e2 ↦ rw e2 (refl, refl, refl)
  ])
]

wait_for-Moves :
    (s : ConnStates) (flags : ℕ) (c : Conn) (w w' : World) (n : ℕ)
    → incoming w'.reads ≡ incoming w.reads
    → Moves (filled c) (stream c w) (wait_for s flags c w' n)
unfolding wait_for
wait_for-Moves s flags c w w' n i =
    let (f, u, r) = update_event-same c flags w' in
    elim (Bool-cases (update_event c flags w').0) [
      | inl e ↦ rw e (
          same-Moved c (conn_set_state (update_event c flags w').1 s) w (update_event c flags w').2
            f u (ap incoming r ∙ i))
      | inr e ↦ rw e (
          same-Moved c (conn_set_state (update_event c flags w').1 conn_closing) w
            (update_event c flags w').2 f u (ap incoming r ∙ i))
    ]

after_read-Moves :
    (c : Conn) (io : Io) (w w' : World) (n : ℕ)
    → HasRoom c
    → c.rbytes ≡ 0
    → ((bytes : Bytes) → io ≡ received bytes → length bytes ≤ c.rlbytes)
    → got io ++ incoming w'.reads ≡ incoming w.reads
    → Moves (filled c) (stream c w) (after_read (store_item c) conn_nread c io w' n)
unfolding after_read
after_read-Moves c (received bytes) w w' n h z le s = elim (Bool-cases (length bytes == 0)) [
  | inl e ↦ rw e (
      same-Moved c (conn_set_state c conn_closing) w w' refl refl (none_got bytes (ground arith) s))
  | inr e ↦ rw e (store_item-Moved c w w' bytes h z (le bytes refl) s)
]
  where
    none_got :
        (b : Bytes)
        → length b ≡ 0
        → b ++ incoming w'.reads ≡ incoming w.reads
        → incoming w'.reads ≡ incoming w.reads
    none_got [] e q = q
    none_got (x ∷ b) e q = absurd (omega (arith, e))
after_read-Moves c would_block w w' n h z le s =
    wait_for-Moves conn_nread ev_read_persist c w w' n s
after_read-Moves c failed w w' n h z le s =
    same-Moved c (conn_set_state c conn_closing) w w' refl refl s

read_item-Moves :
    (c : Conn) (w : World) (n : ℕ)
    → HasRoom c
    → c.rbytes ≡ 0
    → Moves (filled c) (stream c w) (read_item c w n)
unfolding read_item
read_item-Moves c w n h z =
    after_read-Moves c (read c.rlbytes w.reads).0 w
      (record w { reads = (read c.rlbytes w.reads).1 }) n h z
      (λ bytes e. read-le c.rlbytes w.reads bytes e) (incoming-read c.rlbytes w.reads)

Moves-after :
    (c : Conn) (w : World) (body str : Bytes) (t : Turn)
    → Moved body str c w
    → Moves (filled c) (stream c w) t
    → Moves body str t
Moves-after c w body str (next_turn d w' n) m t = Moved-after c w d w' body str m t
Moves-after c w body str (stopped d w' n) m t = Moved-after c w d w' body str m t
Moves-after c w body str (closed d w') m t = Moved-after c w d w' body str m t
Moves-after c w body str stuck m t = t
Moves-after c w body str overrun m t = t

-- For a connection whose body goes to where the unread bytes begin and has room in the buffer, and
-- of whose body some is left to read: a turn in `conn_nread` appends some bytes to what the buffer
-- holds in front of the place where the body goes on, and these are the first bytes of the stream,
-- the unread ones and then those that reads deliver; the rest of the stream is left.
pub on_nread-Moves :
    (get : Bytes → Option (List Bytes)) (c : Conn) (w : World) (nreqs : ℕ)
    → HasRoom c
    → 0 < c.rlbytes
    → Moves (filled c) (stream c w) (on_nread get c w nreqs)
unfolding on_nread
on_nread-Moves get c w n h pos =
    let e0 : (c.rlbytes == 0) ≡ false = ground arith in
    rw e0 (elim (Bool-cases (ltb 0 c.rbytes)) [
      | inr e ↦ rw e (read_item-Moves c w n h (ground arith))
      | inl e ↦ rw e (elim (Bool-cases ((copy_leftovers c).rlbytes == 0)) [
        | inl e2 ↦ rw e2 (copy_leftovers-Moved c w h)
        | inr e2 ↦ rw e2 (
            Moves-after (copy_leftovers c) w (filled c) (stream c w)
              (read_item (copy_leftovers c) w n) (copy_leftovers-Moved c w h)
              (read_item-Moves (copy_leftovers c) w n
                (copy_leftovers-Within (c.ritem + c.rlbytes) c (h, refl)).0 (no_leftovers c e2)))
      ])
    ])
