-- ===== src/Net/Sndbuf/Search.antt =====
-- The binary search of `maximize_sndbuf`.
use prefix_match_server.Prelude.{
  ℕ, zero, suc, ◌+◌, ◌-◌, ◌/◌, ◌^◌, ◌≤◌, ◌<◌, ◌≡◌, refl, ap, ◌∙◌, ◌⊎◌, inl, inr, Bool, true, false,
  some, ltb, leb, leb→le, arith, Bool-cases,
}
use prefix_match_server.Net.Sndbuf.{max_sendbuf_size, size_loop, maximize_sndbuf}

-- The largest size that is accepted from `min` up to below `limit`; `last` if there is none.
record Largest (accepts : ℕ → Bool) (min limit last size : ℕ) : Type 0 where
  taken : (size ≡ last) ⊎ ((accepts size ≡ true) × (min ≤ size) × (size < limit))
  largest : (m : ℕ) → min ≤ m → m < limit → accepts m ≡ true → m ≤ size

-- A size that is accepted makes every smaller one accepted.
abbrev pub Monotone : (ℕ → Bool) → Type 0
Monotone accepts = (m n : ℕ) → m ≤ n → accepts n ≡ true → accepts m ≡ true

double_pow : (k : ℕ) → 2 ^ suc k ≡ 2 ^ k + 2 ^ k
double_pow k = omega arith

middle :
    (min limit p : ℕ)
    → min < limit
    → limit < min + (p + p)
    → (min ≤ (min + (limit - 1)) / 2)
      × ((min + (limit - 1)) / 2 < limit)
      × (limit < (min + (limit - 1)) / 2 + 1 + p)
      × ((min + (limit - 1)) / 2 < min + p)
middle min limit p lt h = (omega arith, omega arith, omega arith, omega arith)

module _ (accepts : ℕ → Bool) (monotone : Monotone accepts) where
  higher-Largest :
      (min avg limit last size : ℕ)
      → min ≤ avg
      → avg < limit
      → accepts avg ≡ true
      → Largest accepts (avg + 1) limit avg size
      → Largest accepts min limit last size
  higher-Largest min avg limit last size lo hi e h = record {
    taken = inr (good h.taken);
    largest = λ m lo' hi' f. elim (Bool-cases (leb m avg)) [
      | inl y ↦ omega (arith, good h.taken, least h.taken, leb→le m avg y)
      | inr y ↦ h.largest m (ground arith) hi' f
    ];
  }
    where
      good :
          (size ≡ avg) ⊎ ((accepts size ≡ true) × (avg + 1 ≤ size) × (size < limit))
          → (accepts size ≡ true) × (min ≤ size) × (size < limit)
      good (inl z) = (ap accepts z ∙ e, omega arith, omega arith)
      good (inr (a, b, c)) = (a, omega arith, c)

      least :
          (size ≡ avg) ⊎ ((accepts size ≡ true) × (avg + 1 ≤ size) × (size < limit)) → avg ≤ size
      least (inl z) = omega arith
      least (inr (a, b, c)) = omega arith

  lower-Largest :
      (min avg limit last size : ℕ)
      → avg < limit
      → accepts avg ≡ false
      → Largest accepts min avg last size
      → Largest accepts min limit last size
  lower-Largest min avg limit last size hi e h = record {
    taken = elim h.taken [ inl z ↦ inl z | inr (a, b, c) ↦ inr (a, b, omega arith) ];
    largest = λ m lo hi' f. elim (Bool-cases (ltb m avg)) [
      | inl y ↦ h.largest m lo (ground arith) f
      | inr y ↦ absurd (cc (monotone avg m (ground arith) f))
    ];
  }

  halves :
      (k : ℕ) (min limit last : ℕ)
      → limit < min + 2 ^ k
      → (size : ℕ) × (size_loop accepts k min limit last ≡ some size)
        × Largest accepts min limit last size
  unfolding size_loop
  halves zero min limit last h =
      let e : ltb min limit ≡ false = ground arith in
      (last, rw e refl, record { taken = inl refl; largest = λ m lo hi f. absurd (omega arith) })
  halves (suc k) min limit last h = elim (Bool-cases (ltb min limit)) [
    | inr y ↦
        (last, rw y refl, record { taken = inl refl; largest = λ m lo hi f. absurd (ground arith) })
    | inl y ↦
        let avg = (min + (limit - 1)) / 2 in
        let (lo, hi, up, down) =
          middle min limit (2 ^ k) (ground arith) (omega (arith, double_pow k, h)) in
        elim (Bool-cases (accepts avg)) [
          | inl a ↦
              let (size, r, l) = halves k (avg + 1) limit avg up in
              (size, rw (y, a) r, higher-Largest min avg limit last size lo hi a l)
          | inr a ↦
              let (size, r, l) = halves k min avg last down in
              (size, rw (y, a) r, lower-Largest min avg limit last size hi a l)
        ]
  ]

  -- If a size is accepted wherever a larger one is, then for every size of the buffer the search ends
  -- within its 29 rounds, and what is set last is the largest size that is accepted from that size up
  -- to `MAX_SENDBUF_SIZE`, or nothing (0) if none is.
  pub maximize_sndbuf-largest :
      (old_size : ℕ)
      → (size : ℕ) × (maximize_sndbuf accepts (some old_size) ≡ some size)
        × ((size ≡ 0) ⊎ ((accepts size ≡ true) × (old_size ≤ size) × (size ≤ max_sendbuf_size)))
        × ((m : ℕ) → old_size ≤ m → m ≤ max_sendbuf_size → accepts m ≡ true → m ≤ size)
  unfolding maximize_sndbuf
  maximize_sndbuf-largest old_size =
      let (size, r, l) = halves 29 old_size (max_sendbuf_size + 1) 0 (omega arith) in
      (
        size,
        r,
        elim l.taken [ inl z ↦ inl z | inr (a, b, c) ↦ inr (a, b, omega arith) ],
        λ m lo hi f. l.largest m lo (omega arith) f,
      )
