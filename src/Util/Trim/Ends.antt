-- ===== src/Util/Trim/Ends.antt =====
-- What `trim` removes in its character mode, and what it keeps.
use prefix_match_server.Prelude.{
  ℕ, zero, suc, ◌+◌, ◌≤◌, ◌<◌, ◌≡◌, refl, sym, ap, subst, ◌∙◌, true, inl, inr, [], ◌∷◌, ◌++◌,
  append-nil, append_assoc, arith, Bytes, ◌==◌, if◌then◌else◌, length, get_or, take, drop, All,
  All-append, Bool-cases, take_all, take-append-drop,
}
use prefix_match_server.Util.Chars.{contains, In, NotIn}
use prefix_match_server.Util.Trim.{scan_left, scan_right, trimleft, trimright, trim}

-- The text does not begin, and does not end, with a character of the set.
abbrev pub StartsClean : Bytes → Bytes → Type 0
StartsClean set t = (c : ℕ) (rest : Bytes) → t ≡ c ∷ rest → NotIn set c

abbrev pub EndsClean : Bytes → Bytes → Type 0
EndsClean set t = (init : Bytes) (c : ℕ) → t ≡ init ++ c ∷ [] → NotIn set c

-- `t` is `s` without a prefix and a suffix of characters of the set, and its ends are clean.
pub record IsTrimmed (set s t : Bytes) : Type 0 where
  pub before : Bytes
  pub after : Bytes
  pub before_in : All (In set) before
  pub after_in : All (In set) after
  pub parts : s ≡ before ++ (t ++ after)
  pub starts : StartsClean set t
  pub ends : EndsClean set t

scan_left_shift : (set s : Bytes) (pos : ℕ) → scan_left set s pos ≡ pos + scan_left set s 0
unfolding scan_left
scan_left_shift set [] pos = omega arith
scan_left_shift set (c ∷ s) pos =
    ground (arith, scan_left_shift set s (pos + 1), scan_left_shift set s 1)

-- What the loop of `trimleft` skips.
record Skips (set s : Bytes) (pos : ℕ) : Type 0 where
  skipped : All (In set) (take pos s)
  clean : StartsClean set (drop pos s)

Skips-cons : (set s : Bytes) (c k : ℕ) → In set c → Skips set s k → Skips set (c ∷ s) (suc k)
Skips-cons set s c k h v = record { skipped = (h, v.skipped); clean = v.clean }

scan_left-Skips : (set s : Bytes) → Skips set s (scan_left set s 0)
unfolding scan_left
scan_left-Skips set [] = record { skipped = tt; clean = λ c rest e. cc }
scan_left-Skips set (c ∷ s) = elim (Bool-cases (contains set c)) [
  | inl h ↦ rw (h, scan_left) (rw e (Skips-cons set s c _ h (scan_left-Skips set s)))
  | inr h ↦
      rw (h, scan_left)
        (record {
          skipped = tt;
          clean = λ d rest e'. subst (NotIn set) (ap (λ (l : Bytes). get_or l 0 0) e') h;
        })
]
  where
    e : scan_left set s 1 ≡ suc (scan_left set s 0)
    e = omega (arith, scan_left_shift set s 1)

take-suc : (s : Bytes) (p : ℕ) → p < length s → take (suc p) s ≡ take p s ++ get_or s p 0 ∷ []
take-suc [] p h = absurd (omega arith)
take-suc (c ∷ s) zero h = refl
take-suc (c ∷ s) (suc p) h = ap (◌∷◌ c) (take-suc s p (omega arith))

-- The last byte of a text is unique.
snoc-last : (xs ys : Bytes) (a b : ℕ) → xs ++ a ∷ [] ≡ ys ++ b ∷ [] → a ≡ b
snoc-last [] [] a b e = ap (λ (l : Bytes). get_or l 0 0) e
snoc-last [] (y ∷ []) a b e = cc
snoc-last [] (y ∷ z ∷ ys) a b e = cc
snoc-last (x ∷ []) [] a b e = cc
snoc-last (x ∷ z ∷ xs) [] a b e = cc
snoc-last (x ∷ xs) (y ∷ ys) a b e = snoc-last xs ys a b (ap (drop 1) e)

-- What the loop of `trimright` cuts off the first `n` bytes.
record Cuts (set s : Bytes) (n m : ℕ) : Type 0 where
  post : Bytes
  post_in : All (In set) post
  split : take n s ≡ take m s ++ post
  clean : EndsClean set (take m s)

nil-EndsClean : (set : Bytes) → EndsClean set []
nil-EndsClean set [] c e = cc
nil-EndsClean set (x ∷ init) c e = cc

scan_right-Cuts : (set s : Bytes) (n : ℕ) → n ≤ length s → Cuts set s n (scan_right set s n)
unfolding scan_right
scan_right-Cuts set s zero h = record {
  post = [];
  post_in = tt;
  split = refl;
  clean = nil-EndsClean set;
}
scan_right-Cuts set s (suc p) h = elim (Bool-cases (contains set (get_or s p 0))) [
  | inl e ↦ rw (e, scan_right) (extend e (scan_right-Cuts set s p (omega arith)))
  | inr e ↦
      rw (e, scan_right)
        (record {
          post = [];
          post_in = tt;
          split = sym (append-nil _);
          clean = λ init c e'.
              subst (NotIn set) (snoc-last (take p s) init _ c (sym (take-suc s p h) ∙ e')) e;
        })
]
  where
    extend :
        In set (get_or s p 0)
        → Cuts set s p (scan_right set s p)
        → Cuts set s (suc p) (scan_right set s p)
    extend e v = record {
      post = v.post ++ get_or s p 0 ∷ [];
      post_in = All-append (In set) v.post (get_or s p 0 ∷ []) v.post_in (e, tt);
      split = rw (take-suc s p h, v.split) (append_assoc _ v.post _);
      clean = v.clean;
    }

-- The early returns for a position at an end change nothing.
trimleft-drop : (set s : Bytes) → trimleft s set true ≡ drop (scan_left set s 0) s
unfolding trimleft
trimleft-drop set [] = refl
trimleft-drop set (c ∷ s) = pick (scan_left set (c ∷ s) 0)
  where
    pick : (n : ℕ) → (if n == 0 then c ∷ s else drop n (c ∷ s)) ≡ drop n (c ∷ s)
    pick zero = refl
    pick (suc n) = ground arith

trimright-take : (set s : Bytes) → trimright s set true ≡ take (scan_right set s (length s)) s
unfolding trimright
trimright-take set [] = refl
trimright-take set (c ∷ s) = elim (Bool-cases (n == length (c ∷ s))) [
  | inl e ↦ rw e (sym (take_all (c ∷ s) n (ground arith)))
  | inr e ↦ rw e refl
]
  where
    n : ℕ
    n = scan_right set (c ∷ s) (length (c ∷ s))

trimleft_lem :
    (set s : Bytes)
    → (before : Bytes) × All (In set) before
      × (s ≡ before ++ trimleft s set true)
      × StartsClean set (trimleft s set true)
trimleft_lem set s =
    let v = scan_left-Skips set s in
    let n = scan_left set s 0 in
    rw (trimleft-drop set s) (take n s, v.skipped, sym (take-append-drop n s), v.clean)

trimright_lem :
    (set s : Bytes)
    → (after : Bytes) × All (In set) after
      × (s ≡ trimright s set true ++ after)
      × EndsClean set (trimright s set true)
trimright_lem set s =
    let v = scan_right-Cuts set s (length s) (omega arith) in
    rw (trimright-take set s)
      (v.post, v.post_in, sym (take_all s _ (omega arith)) ∙ v.split, v.clean)

trim-both : (set s : Bytes) → trim s set true ≡ trimright (trimleft s set true) set true
unfolding trim
trim-both set [] = unfold trimleft trimright in refl
trim-both set (c ∷ s) = refl

-- A text with a clean start keeps it when its end is cut off.
prefix-StartsClean : (set t u : Bytes) → StartsClean set (t ++ u) → StartsClean set t
prefix-StartsClean set t u h c rest e = h c (rest ++ u) (ap (λ l. l ++ u) e)

-- For every text and set of characters, `trim` in character mode removes a prefix and a suffix that
-- consist of characters of the set, and the result neither begins nor ends with one.
pub trim-IsTrimmed : (set s : Bytes) → IsTrimmed set s (trim s set true)
trim-IsTrimmed set s =
    let l = trimleft_lem set s in
    let r = trimright_lem set (trimleft s set true) in
    rw (trim-both set s) (record {
      before = l.0;
      after = r.0;
      before_in = l.1;
      after_in = r.1;
      parts = l.2 ∙ ap (◌++◌ l.0) r.2;
      starts = prefix-StartsClean set _ r.0 (subst (StartsClean set) r.2 l.3);
      ends = r.3;
    })
