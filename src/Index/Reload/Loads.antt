-- ===== src/Index/Reload/Loads.antt =====
-- The mappings that are in place when an index is loaded.
use prefix_match_server.Prelude.{
  ℕ, ◌%◌, ◌^◌, ◌-◌, ◌≤◌, ltb, ◌&&◌, subst, Option-cases, ◌==◌, ◌≡◌, ◌≢◌, refl, sym, ap, ◌∙◌, ◌⊎◌,
  inl, inr, Bool, true, false, not, Option, none, some, Bool-cases, arith,
}
use prefix_match_server.Index.Reload.{
  Live, map_at, Answers, mmap_file, deinit_index, map_index, init_index, IsNew,
}

pub same_or : (t u : ℕ) → (t ≡ u) ⊎ (t ≢ u)
same_or t u = elim (Bool-cases (t == u)) [
  | inl e ↦ inl (ground arith)
  | inr e ↦ inr (λ z. ground arith)
]

-- A mapping that is made, and one that was in place before.
pub map_at_self : (live : Live) (m : ℕ) (b : Bool) → map_at live m b m ≡ b
unfolding map_at
map_at_self live m b = let e : (m == m) ≡ true = ground arith in rw e refl

pub map_at-other : (live : Live) (m : ℕ) (b : Bool) (a : ℕ) → a ≢ m → map_at live m b a ≡ live a
unfolding map_at
map_at-other live m b a ne = let e : (a == m) ≡ false = ground arith in rw e refl

pub live-ne : (live : Live) (a m : ℕ) → live a ≡ true → live m ≡ false → a ≢ m
live-ne live a m h k e = cc (ap live e)

-- What `init_index` does to the mappings in place.
abbrev pub Maps : Answers → Live → Option ℕ × Live → Type 0
Maps a live (some n, after) =
    (a.mmap ≡ some n)
    × (live n ≡ false)
    × (after n ≡ true)
    × ((b : ℕ) → live b ≡ true → after b ≡ true)
Maps a live (none, after) =
    ((b : ℕ) → after b ≡ live b)
    ⊎ ((n : ℕ) × (a.mmap ≡ some n)
        × (2 ^ 31 ≤ a.st_size)
        × ((b : ℕ) → after b ≡ map_at live n true b))

-- A mapping that is made and unmapped again.
unmapped_again :
    (live : Live) (m : ℕ)
    → live m ≡ false
    → (b : ℕ) → map_at (map_at live m true) m false b ≡ live b
unmapped_again live m h b = elim (same_or b m) [
  | inl e ↦
      ap (map_at (map_at live m true) m false) e
      ∙ map_at_self (map_at live m true) m false
      ∙ sym h
      ∙ ap live (sym e)
  | inr ne ↦ map_at-other (map_at live m true) m false b ne ∙ map_at-other live m true b ne
]

map_index-Maps :
    (a : Answers) (live : Live) (m : ℕ)
    → a.mmap ≡ some m
    → live m ≡ false
    → (a.st_size % 2 ^ 32 == 0) ≡ false
    → Maps a live (map_index live a.assigns (some (m, a.st_size % 2 ^ 32)))
unfolding map_index deinit_index
map_index-Maps a live m e h nonzero = elim (Bool-cases (a.st_size % 2 ^ 32 == 2 ^ 32 - 1)) [
  | inl y ↦ rw y (inr (m, e, ground arith, λ b. refl))
  | inr y ↦ rw y (elim (Bool-cases a.assigns) [
    | inl z ↦ rw z (
      e,
      h,
      map_at_self live m true,
      λ b l. map_at-other live m true b (live-ne live b m l h) ∙ l,
    )
    | inr z ↦
        rw z (elim (Bool-cases (ltb 0 (a.st_size % 2 ^ 32) && ltb (a.st_size % 2 ^ 32) (2 ^ 31))) [
          | inl x ↦ rw x (inl (unmapped_again live m h))
          | inr x ↦ rw x (inr (m, e, ground arith, λ b. refl))
        ])
  ])
]

pub init_index-Maps :
    (live : Live) (a : Answers) → IsNew live a.mmap → Maps a live (init_index live a)
unfolding init_index mmap_file
init_index-Maps live a h = elim (Bool-cases a.opens) [
  | inr e ↦ rw e (inl (λ b. refl))
  | inl e ↦ rw e (elim (Bool-cases (not a.stats)) [
    | inl e2 ↦ rw e2 (unfold map_index in inl (λ b. refl))
    | inr e2 ↦ rw e2 (elim (Bool-cases (a.st_size % 2 ^ 32 == 0)) [
      | inl e3 ↦ rw e3 (unfold map_index in inl (λ b. refl))
      | inr e3 ↦ rw e3 (mapped (Option-cases a.mmap) e3)
    ])
  ])
]
  where
    mapped :
        (a.mmap ≡ none) ⊎ ((m : ℕ) × (a.mmap ≡ some m))
        → (a.st_size % 2 ^ 32 == 0) ≡ false
        → Maps a live (
            map_index live a.assigns
              (elim a.mmap [ none ↦ none | some mem ↦ some (mem, a.st_size % 2 ^ 32) ]))
    mapped (inl e) nonzero =
        subst
          (λ (o : Option ℕ). Maps a live (
            map_index live a.assigns (elim o as (λ x. Option (ℕ × ℕ)) [
              | none ↦ none
              | some mem ↦ some (mem, a.st_size % 2 ^ 32)
            ])))
          (sym e) (unfold map_index in inl (λ b. refl))
    mapped (inr (m, e)) nonzero =
        subst
          (λ (o : Option ℕ). Maps a live (
            map_index live a.assigns (elim o as (λ x. Option (ℕ × ℕ)) [
              | none ↦ none
              | some mem ↦ some (mem, a.st_size % 2 ^ 32)
            ])))
          (sym e) (map_index-Maps a live m e (subst (IsNew live) e h) nonzero)

-- A mapping in place stays there.
pub stays :
    (a : Answers) (live after : Live) (b : ℕ)
    → Maps a live (none, after)
    → live b ≡ true
    → after b ≡ true
unfolding map_at
stays a live after b (inl k) l = k b ∙ l
stays a live after b (inr (n, e, big, k)) l = elim (Bool-cases (b == n)) [
  | inl x ↦ k b ∙ rw x refl
  | inr x ↦ k b ∙ rw x l
]
