-- ===== src/Util/Delstr/InPlace.antt =====
-- The in-place sweep of `delstr` against deletion from a list.
use prefix_match_server.Prelude.{
  ℕ, suc, ◌+◌, ◌-◌, ◌≡◌, refl, sym, ap, ◌∙◌, true, false, inl, inr, [], ◌∷◌, ◌++◌, append_assoc,
  append-nil, arith, Bytes, if◌then◌else◌, length, get_or, set, replicate, length-append,
  Bool-cases, set-append, get_or-append, suc-ne-zero,
}
use mathlib.Core.Path.{ap₂}
use prefix_match_server.Util.Chars.{contains}
use prefix_match_server.Util.Delstr.{Sweep, sweep_at, sweep, clear, delstr}

-- The text without the characters of the set.
unfoldable pub without : Bytes → Bytes → Bytes
without delchs [] = []
without delchs (c ∷ s) = if contains delchs c then without delchs s else c ∷ without delchs s

-- The buffer between rounds: what is kept, then as many stale bytes as were deleted, then the rest.
abbrev state : Bytes → Bytes → Bytes → Sweep
state kept stale rest = record { str = kept ++ stale ++ rest; span = length stale }

-- The byte that a round reads.
read_at :
    (kept stale rest : Bytes) (c : ℕ)
    → get_or (kept ++ stale ++ c ∷ rest) (length kept + length stale) 0 ≡ c
read_at kept stale rest c = rw (← length-append kept stale) (get_or-append (kept ++ stale) c rest 0)

module _ (delchs kept rest : Bytes) (c : ℕ) where
  round_delete :
      (stale : Bytes)
      → contains delchs c ≡ true
      → sweep_at delchs (length kept + length stale) (state kept stale (c ∷ rest))
        ≡ state kept (stale ++ c ∷ []) rest
  unfolding sweep_at
  round_delete stale h =
      rw (read_at kept stale rest c, h)
        (ap₂ (λ (l : Bytes) n. record { str = l; span = n }) regroup count)
    where
      regroup : kept ++ stale ++ c ∷ rest ≡ kept ++ (stale ++ c ∷ []) ++ rest
      regroup = simp append_assoc

      count : length stale + 1 ≡ length (stale ++ c ∷ [])
      count = omega (arith, length-append stale (c ∷ []))

  round_keep_first :
      contains delchs c ≡ false
      → sweep_at delchs (length kept + 0) (state kept [] (c ∷ rest))
        ≡ state (kept ++ c ∷ []) [] rest
  unfolding sweep_at
  round_keep_first h =
      rw (read_at kept [] rest c, h) (ap (λ (l : Bytes). record { str = l; span = 0 }) regroup)
    where
      regroup : kept ++ [] ++ c ∷ rest ≡ kept ++ c ∷ [] ++ [] ++ rest
      regroup = simp (append_assoc, append-nil)

  round_keep :
      (x : ℕ) (stale : Bytes)
      → contains delchs c ≡ false
      → sweep_at delchs (length kept + length (x ∷ stale)) (state kept (x ∷ stale) (c ∷ rest))
        ≡ state (kept ++ c ∷ []) (stale ++ c ∷ []) rest
  unfolding sweep_at
  round_keep x stale h =
      rw (read_at kept (x ∷ stale) rest c, h, suc-ne-zero (length stale), there)
        (ap₂ (λ (l : Bytes) n. record { str = l; span = n })
          (ap (λ l. set l (length kept) c) (append_assoc kept (x ∷ stale) (c ∷ rest))
            ∙ set-append kept x (stale ++ c ∷ rest) c
            ∙ regroup)
          count)
    where
      there : length kept + suc (length stale) - suc (length stale) ≡ length kept
      there = omega arith

      regroup : kept ++ c ∷ (stale ++ c ∷ rest) ≡ kept ++ c ∷ [] ++ (stale ++ c ∷ []) ++ rest
      regroup = simp append_assoc

      count : suc (length stale) ≡ length (stale ++ c ∷ [])
      count = omega (arith, length-append stale (c ∷ []))

-- Where the rounds lead from one state: the deleted characters are stale bytes at the end.
abbrev Sweeps : Bytes → Bytes → Bytes → Bytes → ℕ → Type 0
Sweeps delchs kept stale rest i =
    (stale' : Bytes) × (length stale' + length (without delchs rest) ≡ length stale + length rest)
    × (sweep delchs (length rest) i (state kept stale rest)
        ≡ state (kept ++ without delchs rest) stale' [])

module _ (delchs kept rest : Bytes) (c : ℕ) where
  after_delete :
      (stale : Bytes)
      → contains delchs c ≡ true
      → Sweeps delchs kept (stale ++ c ∷ []) rest (length kept + length (stale ++ c ∷ []))
      → Sweeps delchs kept stale (c ∷ rest) (length kept + length stale)
  unfolding sweep without
  after_delete stale h v = rw h (
    v.0,
    omega (arith, v.1, length-append stale (c ∷ [])),
    ap₂ (sweep delchs (length rest)) next (round_delete delchs kept rest c stale h) ∙ v.2,
  )
    where
      next : length kept + length stale + 1 ≡ length kept + length (stale ++ c ∷ [])
      next = omega (arith, length-append stale (c ∷ []))

  after_keep :
      (stale : Bytes)
      → contains delchs c ≡ false
      → ((stale' : Bytes)
          → Sweeps delchs (kept ++ c ∷ []) stale' rest (length (kept ++ c ∷ []) + length stale'))
      → Sweeps delchs kept stale (c ∷ rest) (length kept + length stale)
  unfolding sweep without
  after_keep [] h v = rw h (
    (v []).0,
    omega (arith, (v []).1),
    ap₂ (sweep delchs (length rest)) next (round_keep_first delchs kept rest c h)
        ∙ (v []).2
        ∙ ap (λ l. state l (v []).0 []) (append_assoc kept (c ∷ []) _),
  )
    where
      next : length kept + 0 + 1 ≡ length (kept ++ c ∷ []) + 0
      next = omega (arith, length-append kept (c ∷ []))
  after_keep (x ∷ stale) h v = rw h (
    w.0,
    omega (arith, w.1, length-append stale (c ∷ [])),
    ap₂ (sweep delchs (length rest)) next (round_keep delchs kept rest c x stale h)
        ∙ w.2
        ∙ ap (λ l. state l w.0 []) (append_assoc kept (c ∷ []) _),
  )
    where
      w :
          Sweeps delchs
            (kept ++ c ∷ [])
            (stale ++ c ∷ [])
            rest
            (length (kept ++ c ∷ []) + length (stale ++ c ∷ []))
      w = v (stale ++ c ∷ [])

      next :
          length kept + suc (length stale) + 1 ≡ length (kept ++ c ∷ []) + length (stale ++ c ∷ [])
      next = omega (arith, length-append kept (c ∷ []), length-append stale (c ∷ []))

-- The rounds keep the characters that are not in the set, in order.
sweep_lem :
    (delchs rest kept stale : Bytes) → Sweeps delchs kept stale rest (length kept + length stale)
unfolding sweep without
sweep_lem delchs [] kept stale =
    (stale, omega arith, ap (λ (l : Bytes). state l stale []) (sym (append-nil kept)))
sweep_lem delchs (c ∷ rest) kept stale = elim (Bool-cases (contains delchs c)) [
  | inl h ↦ after_delete delchs kept rest c stale h (sweep_lem delchs rest kept (stale ++ c ∷ []))
  | inr h ↦
      after_keep delchs kept rest c stale h
        (λ stale'. sweep_lem delchs rest (kept ++ c ∷ []) stale')
]

clear_lem :
    (kept stale : Bytes)
    → clear (length stale) (length kept) (kept ++ stale) ≡ kept ++ replicate (length stale) 0
unfolding clear
clear_lem kept [] = refl
clear_lem kept (x ∷ stale) =
    ap₂ (clear (length stale)) next
      (set-append kept x stale 0 ∙ sym (append_assoc kept (0 ∷ []) stale))
    ∙ clear_lem (kept ++ 0 ∷ []) stale
    ∙ append_assoc kept (0 ∷ []) _
  where
    next : length kept + 1 ≡ length (kept ++ 0 ∷ [])
    next = omega (arith, length-append kept (0 ∷ []))

-- For every text and set, `delstr` leaves in the buffer the characters that are not in the set, in
-- their order, then a NUL for each one deleted, and returns the number of those kept.
pub delstr-without :
    (str delchs : Bytes)
    → let kept = without delchs str in
      delstr str delchs ≡ (kept ++ replicate (length str - length kept) 0, length kept)
unfolding delstr
delstr-without str delchs =
    let v = sweep_lem delchs str [] [] in
    let n : length str - length (without delchs str) ≡ length v.0 = omega (arith, v.1) in
    let m : length str - length v.0 ≡ length (without delchs str) = omega (arith, v.1) in
    rw (n, v.2, m, append-nil)
      (ap (λ l. (l, length (without delchs str))) (clear_lem (without delchs str) v.0))
