-- ===== src/Conn/Life/Pooled.antt =====
-- What holds of the free connections.
use prefix_match_server.Prelude.{
  ℕ, ◌*◌, ◌<◌, ◌≡◌, refl, inl, inr, Bool, true, false, Option, none, some, List, [], ◌∷◌, Bytes,
  length, ltb, ◌==◌, if◌then◌else◌, All, Bool-cases, Option-cases, ◌⊎◌, arith, subst,
}
use prefix_match_server.Conn.State.{int_limit, ConnStates, Conn, conn_new_cmd, read_buffer_highwat}
use prefix_match_server.Conn.Machine.Sound.{Sound, Quiet-Sound}
use prefix_match_server.Conn.Pool.{FreeConns, conn_from_freelist, from_stack, conn_add_to_freelist}
use prefix_match_server.Conn.Life.{
  Conns, Grants, put_conn, fresh_conn, reset_conn, obtain, give_up, set_up, conn_new, conn_close,
}

-- The read buffer has its size, an int that is not 0.
pub record Buffered (c : Conn) : Type 0 where
  pub sized : length c.rbuf ≡ c.rsize
  pub room : 0 < c.rsize
  pub small : c.rsize < int_limit

-- Every free connection has its buffer.
abbrev pub IsPooled : Conns → Type 0
IsPooled s = All (λ c. Buffered (s.conns c)) s.free_conns.conns

-- Memory that `malloc` grants has the size that was asked for.
abbrev pub Granted : ℕ → Option (Bytes × Bytes) → Type 0
Granted size none = Unit {0}
Granted size (some (rbuf, wbuf)) = length rbuf ≡ size

put_conn-Buffered :
    (c : ℕ) (conn : Conn) (s : Conns) (d : ℕ)
    → Buffered conn
    → Buffered (s.conns d)
    → Buffered ((put_conn c conn s).conns d)
unfolding put_conn
put_conn-Buffered c conn s d b k = elim (Bool-cases (d == c)) [ inl e ↦ rw e b | inr e ↦ rw e k ]

put_conn-All :
    (c : ℕ) (conn : Conn) (s : Conns) (ds : List ℕ)
    → Buffered conn
    → All (λ d. Buffered (s.conns d)) ds
    → All (λ d. Buffered ((put_conn c conn s).conns d)) ds
put_conn-All c conn s [] b h = tt
put_conn-All c conn s (d ∷ ds) b h =
    (put_conn-Buffered c conn s d b h.0, put_conn-All c conn s ds b h.1)

conns-put_conn : (c : ℕ) (conn : Conn) (s : Conns) → (put_conn c conn s).conns c ≡ conn
unfolding put_conn
conns-put_conn c conn s = let e : (c == c) ≡ true = ground arith in rw e refl

give_up-IsPooled :
    (c : ℕ) (realloc : Bool) (s : Conns)
    → Buffered (s.conns c)
    → IsPooled s
    → IsPooled (give_up c realloc s)
unfolding give_up conn_add_to_freelist
give_up-IsPooled c realloc s b h =
    elim (Bool-cases (ltb (length s.free_conns.conns) s.free_conns.freetotal)) [
      | inl e ↦ rw e (b, h)
      | inr e ↦ rw e (full realloc)
    ]
  where
    full :
        (realloc : Bool)
        → All
            (λ d. Buffered (s.conns d))
            (if◌then◌else◌ {A = Bool × FreeConns} realloc
              (
                false,
                record { conns = c ∷ s.free_conns.conns; freetotal = s.free_conns.freetotal * 2 },
              )
              (true, s.free_conns)).1.conns
    full true = (b, h)
    full false = h

-- What `conn_new` leaves: a connection that is sound and has no bytes, and free ones with buffers.
abbrev pub Opens : Option ℕ × Conns → Type 0
Opens (none, t) = IsPooled t
Opens (some c, t) =
    Sound (t.conns c) × ((t.conns c).rbytes ≡ 0) × ((t.conns c).messages ≡ []) × IsPooled t

-- A connection to be set up.
abbrev Obtains : Option ℕ × Conns → Type 0
Obtains (none, t) = IsPooled t
Obtains (some c, t) = Buffered (t.conns c) × IsPooled t

reset_conn-Buffered :
    (init : ConnStates) (flags : ℕ) (c : Conn) → Buffered c → Buffered (reset_conn init flags c)
unfolding reset_conn
reset_conn-Buffered init flags c b = record { sized = b.sized; room = b.room; small = b.small }

reset_conn-Sound : (flags : ℕ) (c : Conn) → Buffered c → Sound (reset_conn conn_new_cmd flags c)
unfolding reset_conn
reset_conn-Sound flags c b =
    Quiet-Sound _ (record { sized = b.sized; within = omega arith; room = b.room; small = b.small })
      tt (inl refl)

set_up-Opens :
    (p : Option ℕ × Conns) (event_add realloc : Bool) (flags : ℕ)
    → Obtains p
    → Opens (set_up p event_add realloc conn_new_cmd flags)
unfolding set_up
set_up-Opens (none, s) event_add realloc flags h = h
set_up-Opens (some c, s) true realloc flags (b, h) = (
  rw (conns-put_conn c (reset_conn conn_new_cmd flags (s.conns c)) s)
      (reset_conn-Sound flags (s.conns c) b),
  rw (conns-put_conn c (reset_conn conn_new_cmd flags (s.conns c)) s) (unfold reset_conn in refl),
  rw (conns-put_conn c (reset_conn conn_new_cmd flags (s.conns c)) s) (unfold reset_conn in refl),
  put_conn-All c _ s s.free_conns.conns (reset_conn-Buffered conn_new_cmd flags (s.conns c) b) h,
)
set_up-Opens (some c, s) false realloc flags (b, h) =
    give_up-IsPooled c realloc (put_conn c (reset_conn conn_new_cmd flags (s.conns c)) s)
      (put_conn-Buffered c _ s c (reset_conn-Buffered conn_new_cmd flags (s.conns c) b) b)
      (put_conn-All c _ s s.free_conns.conns (reset_conn-Buffered conn_new_cmd flags (s.conns c) b)
        h)

obtain-Obtains :
    (found calloc : Option ℕ) (mallocs : Option (Bytes × Bytes)) (init : ConnStates) (size : ℕ)
    (s : Conns)
    → 0 < size
    → size < int_limit
    → Granted size mallocs
    → ((c : ℕ) → found ≡ some c → Buffered (s.conns c))
    → IsPooled s
    → Obtains (obtain found calloc mallocs init size s)
unfolding obtain
obtain-Obtains (some c) calloc mallocs init size s lt small g b h = (b c refl, h)
obtain-Obtains none none mallocs init size s lt small g b h = h
obtain-Obtains none (some c) none init size s lt small g b h = h
obtain-Obtains none (some c) (some (rbuf, wbuf)) init size s lt small g b h =
    let fresh : Buffered (fresh_conn init size rbuf wbuf) =
      unfold fresh_conn in record { sized = g; room = lt; small = small } in
    (
      rw (conns-put_conn c (fresh_conn init size rbuf wbuf) s) fresh,
      put_conn-All c _ s s.free_conns.conns fresh h,
    )

-- The connection that the free list gives, and the others.
found-Buffered :
    (s : Conns) (cs : List ℕ) (total : ℕ)
    → All (λ c. Buffered (s.conns c)) cs
    → ((c : ℕ) → (from_stack total cs).0 ≡ some c → Buffered (s.conns c))
      × All (λ c. Buffered (s.conns c)) (from_stack total cs).1.conns
unfolding from_stack
found-Buffered s [] total h = ((λ c e. cc), tt)
found-Buffered s (d ∷ cs) total h =
    ((λ c e. subst (λ x. Buffered (s.conns x)) (some_same d c e) h.0), h.1)
  where
    some_same : (d c : ℕ) → some d ≡ some c → d ≡ c
    some_same d c e = cc

-- The connection that is set up if `event_add` succeeds: the free one that was added last, or a new one
-- if there is none.
abbrev pub Comes : Grants → Conns → ℕ → Type 0
Comes g s c =
    ((rest : List ℕ) × (s.free_conns.conns ≡ c ∷ rest))
    ⊎ ((s.free_conns.conns ≡ [])
        × (g.calloc ≡ some c)
        × (bufs : Bytes × Bytes) × (g.mallocs ≡ some bufs))

-- No connection is free, and an allocation fails.
abbrev pub NoMemory : Grants → Conns → Type 0
NoMemory g s = (s.free_conns.conns ≡ []) × ((g.calloc ≡ none) ⊎ (g.mallocs ≡ none))

-- When `conn_new` returns a connection, and which one.
abbrev pub Answers : Grants → Conns → Option ℕ → Type 0
Answers g s none = (g.event_add ≡ false) ⊎ NoMemory g s
Answers g s (some c) = (g.event_add ≡ true) × Comes g s c

obtain-Comes :
    (g : Grants) (init : ConnStates) (size : ℕ) (s : Conns) (cs : List ℕ) (total : ℕ) (t : Conns)
    → s.free_conns.conns ≡ cs
    → ((obtain (from_stack total cs).0 g.calloc g.mallocs init size t).0 ≡ none) × NoMemory g s
      ⊎ ((c : ℕ) × ((obtain (from_stack total cs).0 g.calloc g.mallocs init size t).0 ≡ some c)
          × Comes g s c)
unfolding obtain from_stack
obtain-Comes g init size s (c ∷ rest) total t e = inr (c, refl, inl (rest, e))
obtain-Comes g init size s [] total t e = elim (Option-cases g.calloc) [
  | inl z ↦ rw (z, obtain) (inl (refl, (e, inl refl)))
  | inr (c, z) ↦ rw z (elim (Option-cases g.mallocs) [
    | inl y ↦ rw (y, obtain) (inl (refl, (e, inr refl)))
    | inr ((rbuf, wbuf), y) ↦ rw (y, obtain) (inr (c, refl, inr (e, refl, (rbuf, wbuf), refl)))
  ])
]

set_up-Answers :
    (g : Grants) (s : Conns) (p : Option ℕ × Conns) (init : ConnStates) (flags : ℕ)
    → ((p.0 ≡ none) × NoMemory g s) ⊎ ((c : ℕ) × (p.0 ≡ some c) × Comes g s c)
    → Answers g s (set_up p g.event_add g.realloc init flags).0
unfolding set_up
set_up-Answers g s (none, t) init flags (inl (e, why)) = inr why
set_up-Answers g s (none, t) init flags (inr (c, e, comes)) = absurd (cc)
set_up-Answers g s (some d, t) init flags (inl (e, why)) = absurd (cc)
set_up-Answers g s (some d, t) init flags (inr (c, e, comes)) = elim (Bool-cases g.event_add) [
  | inl z ↦ let same : c ≡ d = cc in rw (z, set_up) (refl, subst (λ x. Comes g s x) same comes)
  | inr z ↦ rw (z, set_up) (inl refl)
]

-- If every free connection has its buffer and memory that is granted has the size asked for, an int
-- that is not 0: `conn_new` returns a connection exactly if `event_add` succeeds and there is a free
-- connection, the last of which it returns, or all allocations for a new one succeed; and then it is
-- sound, with nothing read and nothing to send, be it new or used before. With it, or without it,
-- every free connection has its buffer.
pub conn_new-Opens :
    (g : Grants) (flags size : ℕ) (s : Conns)
    → 0 < size
    → size < int_limit
    → Granted size g.mallocs
    → IsPooled s
    → Opens (conn_new g conn_new_cmd flags size s)
      × Answers g s (conn_new g conn_new_cmd flags size s).0
unfolding conn_new conn_from_freelist
conn_new-Opens g flags size s lt small granted h =
    let (b, k) = found-Buffered s s.free_conns.conns s.free_conns.freetotal h in
    let t = record s { free_conns = (from_stack s.free_conns.freetotal s.free_conns.conns).1 } in
    let p =
      obtain (from_stack s.free_conns.freetotal s.free_conns.conns).0 g.calloc g.mallocs
        conn_new_cmd size t in
    (
      set_up-Opens p g.event_add g.realloc flags (
          obtain-Obtains (from_stack s.free_conns.freetotal s.free_conns.conns).0 g.calloc g.mallocs
            conn_new_cmd size t lt small granted b k),
      set_up-Answers g s p conn_new_cmd flags
          (obtain-Comes g conn_new_cmd size s s.free_conns.conns s.free_conns.freetotal t refl),
    )

-- Closing a sound connection keeps the buffers of the free ones, among which it is then unless its own
-- is above the mark or there is no memory to keep it.
pub conn_close-IsPooled :
    (c : ℕ) (realloc : Bool) (s : Conns)
    → Sound (s.conns c)
    → IsPooled s
    → IsPooled (conn_close c realloc s)
unfolding conn_close
conn_close-IsPooled c realloc s sound h =
    elim (Bool-cases (ltb read_buffer_highwat (s.conns c).rsize)) [
      | inl e ↦ rw e (put_conn-All c _ s s.free_conns.conns cleaned h)
      | inr e ↦ rw e (
          give_up-IsPooled c realloc _ (put_conn-Buffered c _ s c cleaned own)
            (put_conn-All c _ s s.free_conns.conns cleaned h))
    ]
  where
    own : Buffered (s.conns c)
    own = record { sized = sound.fits.sized; room = sound.fits.room; small = sound.fits.small }

    cleaned : Buffered (record (s.conns c) { write_and_free = none })
    cleaned = record { sized = own.sized; room = own.room; small = own.small }
