-- ===== src/Util/Sep/Pieces.antt =====
-- `sepstr` against the pieces between separators, read off the text byte by byte.
use prefix_match_server.Prelude.{
  ℕ, zero, suc, ◌+◌, ◌<◌, ◌≡◌, refl, sym, ap, ◌∙◌, Bool, true, false, inl, inr, none, some, List,
  [], ◌∷◌, ◌++◌, append_assoc, append-nil, arith, Bytes, if◌then◌else◌, length, take, drop, All,
  Bool-cases, Option-cases, length-drop,
}
use prefix_match_server.Util.Chars.{contains, NotIn}
use prefix_match_server.Util.Sep.{find_first_of, is_empty, push_piece, piece, sep_loop, sepstr}

-- A byte in front of the pieces of what follows.
unfoldable pub onto_first : ℕ → List Bytes → List Bytes
onto_first c [] = (c ∷ []) ∷ []
onto_first c (p ∷ ps) = (c ∷ p) ∷ ps

-- The pieces between separators: n separators make n + 1 pieces.
unfoldable pub pieces : Bytes → Bytes → List Bytes
unfolding onto_first
pieces sep [] = [] ∷ []
pieces sep (c ∷ s) = if contains sep c then [] ∷ pieces sep s else onto_first c (pieces sep s)

unfoldable pub nonempty : List Bytes → List Bytes
nonempty [] = []
nonempty ([] ∷ ps) = nonempty ps
nonempty ((c ∷ p) ∷ ps) = (c ∷ p) ∷ nonempty ps

abbrev pub kept : Bool → List Bytes → List Bytes
kept true ps = ps
kept false ps = nonempty ps

find_shift :
    (sep s : Bytes) (i : ℕ)
    → find_first_of sep s i ≡ elim (find_first_of sep s 0) [ none ↦ none | some k ↦ some (k + i) ]
unfolding find_first_of
find_shift sep [] i = refl
find_shift sep (c ∷ s) i = ground (arith, find_shift sep s (i + 1), find_shift sep s 1)

pub pieces-none : (sep s : Bytes) → find_first_of sep s 0 ≡ none → pieces sep s ≡ s ∷ []
unfolding find_first_of pieces onto_first
pieces-none sep [] h = refl
pieces-none sep (c ∷ s) h = ground (arith, find_shift sep s 1, pieces-none sep s)

pub pieces-some :
    (sep s : Bytes) (k : ℕ)
    → find_first_of sep s 0 ≡ some k
    → (k < length s) × (pieces sep s ≡ take k s ∷ pieces sep (drop (suc k) s))
unfolding find_first_of pieces onto_first
pieces-some sep [] k h = cc
pieces-some sep (c ∷ s) zero h = ground (arith, find_shift sep s 1)
pieces-some sep (c ∷ s) (suc k) h = ground (arith, find_shift sep s 1, pieces-some sep s k)

piece-take : (s : Bytes) (k : ℕ) → piece s k ≡ take k s
unfolding piece
piece-take s zero = refl
piece-take s (suc k) = ground arith

push_piece-kept :
    (w : Bool) (p : Bytes) (vt ps : List Bytes)
    → push_piece w p vt ++ kept w ps ≡ vt ++ kept w (p ∷ ps)
unfolding push_piece is_empty nonempty
push_piece-kept true p vt ps = append_assoc vt (p ∷ []) ps
push_piece-kept false [] vt ps = refl
push_piece-kept false (c ∷ p) vt ps = append_assoc vt ((c ∷ p) ∷ []) (nonempty ps)

kept-nil : (w : Bool) → kept w [] ≡ []
unfolding nonempty
kept-nil true = refl
kept-nil false = refl

sep_loop_lem :
    (sep : Bytes) (w : Bool) (fuel : ℕ) (s : Bytes) (vt : List Bytes)
    → length s < fuel
    → sep_loop sep w fuel s vt ≡ some (vt ++ kept w (pieces sep s))
unfolding sep_loop
sep_loop_lem sep w zero s vt h = elim h [ ]
sep_loop_lem sep w (suc fuel) s vt h = elim (Option-cases (find_first_of sep s 0)) [
  | inl e ↦
      rw (e, sep_loop, pieces-none sep s e)
        (ap some (
          sym (append-nil _)
          ∙ ap (◌++◌ (push_piece w s vt)) (sym (kept-nil w))
          ∙ push_piece-kept w s vt []))
  | inr (k, e) ↦
      let p = pieces-some sep s k e in
      let k1 : k + 1 ≡ suc k = omega arith in
      rw (e, sep_loop, p.1, k1)
        (sep_loop_lem sep w fuel (drop (suc k) s) _ (omega (arith, length-drop (suc k) s))
          ∙ ap some (
              push_piece-kept w (piece s k) vt (pieces sep (drop (suc k) s))
              ∙ ap (λ q. vt ++ kept w (q ∷ pieces sep (drop (suc k) s))) (piece-take s k)))
]

-- For every text, set of separators and flag, `sepstr` ends and returns the pieces between the
-- separators in order, all of them with `withEmpty` and the non-empty ones without.
pub sepstr-pieces : (str sep : Bytes) (w : Bool) → sepstr str sep w ≡ some (kept w (pieces sep str))
unfolding sepstr
sepstr-pieces str sep w = sep_loop_lem sep w (suc (length str)) str [] (omega arith)

-- Pieces hold no separator.
onto_first-All :
    (sep : Bytes) (c : ℕ) (ps : List Bytes)
    → NotIn sep c
    → All (All (NotIn sep)) ps
    → All (All (NotIn sep)) (onto_first c ps)
unfolding onto_first
onto_first-All sep c [] h v = ((h, tt), tt)
onto_first-All sep c (p ∷ ps) h v = ((h, v.0), v.1)

pub pieces-clean : (sep s : Bytes) → All (All (NotIn sep)) (pieces sep s)
unfolding pieces
pieces-clean sep [] = (tt, tt)
pieces-clean sep (c ∷ s) = elim (Bool-cases (contains sep c)) [
  | inl h ↦ rw (h, pieces) (tt, pieces-clean sep s)
  | inr h ↦ rw (h, pieces) (onto_first-All sep c _ h (pieces-clean sep s))
]
