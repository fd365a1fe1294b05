-- ===== src/Log/Buffers/Content.antt =====
-- The bytes that have arrived of a buffer, and those that stand in it.
use prefix_match_server.Prelude.{
  ℕ, ◌≡◌, refl, sym, ap, ◌∙◌, true, false, List, [], ◌∷◌, ◌++◌, append-nil, append_assoc, arith,
  Bytes, ◌==◌, Bool-cases, inl, inr,
}
use prefix_match_server.Log.{Logger, Disk, fill}
use prefix_match_server.Log.Buffers.{of}

pub of-append : (i : ℕ) (xs ys : List (ℕ × Bytes)) → of i (xs ++ ys) ≡ of i xs ++ of i ys
unfolding of
of-append i [] ys = refl
of-append i ((j, buf) ∷ xs) ys = elim (Bool-cases (j == i)) [
  | inl e ↦
      rw e (ap (λ z. buf ++ z) (of-append i xs ys) ∙ sym (append_assoc buf (of i xs) (of i ys)))
  | inr e ↦ rw e (of-append i xs ys)
]

-- What has arrived of a buffer, and behind it what stands in it.
unfoldable pub whole : ℕ → Logger → Disk → Bytes
whole j l disk = of j disk.arrived ++ l.buffer j

pub buffer-fill : (i : ℕ) (buf : Bytes) (l : Logger) → (fill i buf l).buffer i ≡ buf
unfolding fill
buffer-fill i buf l = let e : (i == i) ≡ true = ground arith in rw e refl

buffer-fill_other :
    (j i : ℕ) (buf : Bytes) (l : Logger) → (j == i) ≡ false → (fill i buf l).buffer j ≡ l.buffer j
unfolding fill
buffer-fill_other j i buf l e = rw e refl

pub of-one : (i : ℕ) (buf : Bytes) → of i ((i, buf) ∷ []) ≡ buf
unfolding of
of-one i buf = let e : (i == i) ≡ true = ground arith in rw e (append-nil buf)

pub of-other : (j i : ℕ) (buf : Bytes) → (j == i) ≡ false → of j ((i, buf) ∷ []) ≡ []
unfolding of
of-other j i buf h = let e : (i == j) ≡ false = ground arith in rw e refl

-- The disk after a write of a buffer.
unfoldable pub written : ℕ → Bytes → Disk → Disk
written i buf disk = record { answers = []; arrived = disk.arrived ++ (i, buf) ∷ [] }

-- A buffer that is written and emptied.
pub whole-written :
    (j i : ℕ) (l : Logger) (disk : Disk)
    → whole j (fill i [] l) (written i (l.buffer i) disk) ≡ whole j l disk
unfolding whole written
whole-written j i l disk = elim (Bool-cases (j == i)) [
  | inl e ↦
      let q : j ≡ i = ground arith in
      rw
        (
          q,
          of-append i disk.arrived ((i, l.buffer i) ∷ []),
          of-one i (l.buffer i),
          buffer-fill i [] l,
        )
        (append-nil _)
  | inr e ↦
      rw
        (
          of-append j disk.arrived ((i, l.buffer i) ∷ []),
          of-other j i (l.buffer i) e,
          buffer-fill_other j i [] l e,
        )
        (ap (λ z. z ++ l.buffer j) (append-nil _))
]

-- A buffer to which a message is added.
pub whole-added :
    (j i : ℕ) (str : Bytes) (l : Logger) (disk : Disk)
    → whole j (fill i (l.buffer i ++ str) l) disk ≡ whole j l disk ++ of j ((i, str) ∷ [])
unfolding whole
whole-added j i str l disk = elim (Bool-cases (j == i)) [
  | inl e ↦
      let q : j ≡ i = ground arith in
      rw (q, of-one i str, buffer-fill i (l.buffer i ++ str) l)
        (sym (append_assoc _ (l.buffer i) str))
  | inr e ↦
      rw (of-other j i str e, buffer-fill_other j i (l.buffer i ++ str) l e) (sym (append-nil _))
]

pub refill :
    (i : ℕ) (str : Bytes) (l : Logger) (disk : Disk) (j : ℕ)
    → whole j (fill i str (fill i [] l)) disk ≡ whole j (fill i [] l) disk ++ of j ((i, str) ∷ [])
refill i str l disk j =
    ap (λ buf. whole j (fill i (buf ++ str) (fill i [] l)) disk) (sym (buffer-fill i [] l))
    ∙ whole-added j i str (fill i [] l) disk

pub of_empty : (j i : ℕ) → of j ((i, []) ∷ []) ≡ []
unfolding of
of_empty j i = elim (Bool-cases (i == j)) [ inl e ↦ rw e refl | inr e ↦ rw e refl ]
