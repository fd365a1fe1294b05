-- ===== src/Conn/Pool/Reuse.antt =====
-- A free connection from `conn_add_to_freelist` to `conn_from_freelist`.
use prefix_match_server.Prelude.{
  ℕ, ◌*◌, ◌≤◌, ◌<◌, ◌≡◌, refl, ◌⊎◌, inl, inr, Bool, true, false, some, ◌∷◌, length, ltb,
  if◌then◌else◌, Bool-cases, arith,
}
use prefix_match_server.Conn.Pool.{FreeConns, conn_from_freelist, conn_add_to_freelist}

-- The array has a place for every free connection, and for some.
pub record InArray (s : FreeConns) : Type 0 where
  pub within : length s.conns ≤ s.freetotal
  pub some_place : 0 < s.freetotal

-- The connection was kept, and is the next one to be used, with the others behind it; or there was
-- neither a place nor memory for it.
abbrev pub Reuses : FreeConns → ℕ → Bool → Bool × FreeConns → Type 0
Reuses s c alloc (failed, t) =
    ((failed ≡ false)
      × InArray t
      × ((conn_from_freelist t).0 ≡ some c)
      × ((conn_from_freelist t).1.conns ≡ s.conns))
    ⊎ ((failed ≡ true) × (t ≡ s) × (alloc ≡ false) × (length s.conns ≡ s.freetotal))

-- For free connections that the array has places for: `conn_add_to_freelist` returns false and keeps
-- the connection within the array, so that `conn_from_freelist` returns it next and leaves the
-- others; or it returns true and leaves the list, which is full, and there is no memory.
pub conn_add_to_freelist-Reuses :
    (s : FreeConns) (c : ℕ) (alloc : Bool)
    → InArray s
    → Reuses s c alloc (conn_add_to_freelist s c alloc)
unfolding conn_add_to_freelist conn_from_freelist
conn_add_to_freelist-Reuses s c alloc i = elim (Bool-cases (ltb (length s.conns) s.freetotal)) [
  | inl e ↦
      rw e (inl (refl, record { within = ground arith; some_place = i.some_place }, refl, refl))
  | inr e ↦ rw e (full alloc (ground (arith, i.within)))
]
  where
    full :
        (alloc : Bool)
        → length s.conns ≡ s.freetotal
        → Reuses s c alloc (
            if alloc
            then (false, record { conns = c ∷ s.conns; freetotal = s.freetotal * 2 })
            else (true, s))
    full true e = inl (
      refl,
      record { within = omega (arith, e, i.some_place); some_place = omega (arith, i.some_place) },
      refl,
      refl,
    )
    full false e = inr (refl, refl, refl, e)
