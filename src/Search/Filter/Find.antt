-- ===== src/Search/Filter/Find.antt =====
-- The tests of `filter_result` against parts of a text.
use mathlib.Core.Path.{subst}
use prefix_match_server.Prelude.{
  ◌≡◌, refl, sym, ap, inl, inr, true, List, [], ◌∷◌, ◌++◌, arith, Bytes, All, Bool-cases,
}
use prefix_match_server.Search.Filter.{stands_at, find, passes}

-- The pattern is a part of the text.
abbrev pub Occurs : Bytes → Bytes → Type 0
Occurs pattern text = (pre : Bytes) × (post : Bytes) × (text ≡ pre ++ (pattern ++ post))

stands_at_sound : (p t : Bytes) → stands_at p t ≡ true → (post : Bytes) × (t ≡ p ++ post)
unfolding stands_at
stands_at_sound [] t h = (t, refl)
stands_at_sound (p ∷ ps) [] h = absurd (cc)
stands_at_sound (p ∷ ps) (c ∷ t) h =
    let r = stands_at_sound ps t (ground arith) in (r.0, ground (arith, r.1))

stands_at_complete : (p post : Bytes) → stands_at p (p ++ post) ≡ true
unfolding stands_at
stands_at_complete [] post = refl
stands_at_complete (c ∷ p) post = ground (arith, stands_at_complete p post)

find_sound : (p t : Bytes) → find p t ≡ true → Occurs p t
unfolding find
find_sound p [] h = let r = stands_at_sound p [] h in ([], r.0, r.1)
find_sound p (c ∷ t) h = elim (Bool-cases (stands_at p (c ∷ t))) [
  | inl e ↦ let r = stands_at_sound p (c ∷ t) e in ([], r.0, r.1)
  | inr e ↦ let r = find_sound p t (ground arith) in (c ∷ r.0, r.1, ap (◌∷◌ c) r.2)
]

find_front : (p post : Bytes) → find p (p ++ post) ≡ true
unfolding find stands_at
find_front [] [] = refl
find_front [] (c ∷ post) = refl
find_front (c ∷ p) post = rw (stands_at_complete (c ∷ p) post) refl

find_complete : (pre p post : Bytes) → find p (pre ++ (p ++ post)) ≡ true
unfolding find
find_complete [] p post = find_front p post
find_complete (c ∷ pre) p post = ground (arith, find_complete pre p post)

-- Every rule is a part of the name.
abbrev pub Matches : List Bytes → Bytes → Type 0
Matches rules name = All (λ rule. Occurs rule name) rules

pub passes_sound :
    (name : Bytes) (rules : List Bytes) → passes name rules ≡ true → Matches rules name
unfolding passes
passes_sound name [] h = tt
passes_sound name (rule ∷ rules) h =
    (find_sound rule name (ground arith), passes_sound name rules (ground arith))

pub passes_complete :
    (name : Bytes) (rules : List Bytes) → Matches rules name → passes name rules ≡ true
unfolding passes
passes_complete name [] h = refl
passes_complete name (rule ∷ rules) ((pre, post, e), h) =
    rw (subst (λ t. find rule t ≡ true) (sym e) (find_complete pre rule post))
      (passes_complete name rules h)
