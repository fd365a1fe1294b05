-- ===== src/Util/Utf8/Encoding.antt =====
-- `getUTF8Len` on a text in UTF-8, and at a byte that begins no character.
use prefix_match_server.Prelude.{
  ℕ, zero, suc, ◌+◌, ◌/◌, ◌%◌, ◌≤◌, ◌<◌, ◌≡◌, refl, ap, ◌∙◌, ◌⊎◌, List, [], ◌∷◌, ◌++◌, append_assoc,
  append-nil, ◌-◌, arith, Bytes, ltb, le→ltb, if◌then◌else◌, length, All, length-append,
  take-length_append, drop-length_append,
}
use prefix_match_server.Util.Utf8.{utf8_len, finished, unfinished, walk}

-- The code points that UTF-8 encodes, but for NUL, which ends a C string.
abbrev pub IsScalar : ℕ → Type 0
IsScalar cp = (0 < cp) × (cp < 0x110000)

-- UTF-8, after its definition.
unfoldable pub encode : ℕ → Bytes
encode cp =
    if ltb cp 0x80
    then cp ∷ []
    else if ltb cp 0x800
    then (0xc0 + cp / 64) ∷ (0x80 + cp % 64) ∷ []
    else if ltb cp 0x10000
    then (0xe0 + cp / 4096) ∷ (0x80 + cp / 64 % 64) ∷ (0x80 + cp % 64) ∷ []
    else (0xf0 + cp / 262144)
      ∷ (0x80 + cp / 4096 % 64)
      ∷ (0x80 + cp / 64 % 64)
      ∷ (0x80 + cp % 64)
      ∷ []

unfoldable pub text : List ℕ → Bytes
text [] = []
text (cp ∷ cps) = encode cp ++ text cps

-- What a loop makes of the characters in turn.
unfoldable pub emit_all {ℓ} : {A : Type ℓ} → (A → Bytes → A) → A → List ℕ → A
emit_all emit acc [] = acc
emit_all emit acc (cp ∷ cps) = emit_all emit (emit acc (encode cp)) cps

-- A byte at which `getUTF8Len` returns 0: NUL, a continuation byte, or one that UTF-8 never uses.
abbrev pub StandsStill : ℕ → Type 0
StandsStill b = (b ≡ 0) ⊎ ((0x80 ≤ b) × (b < 0xc0)) ⊎ ((0xf8 ≤ b) × (b < 0x100))

pub utf8_len-zero : (b : ℕ) (rest : Bytes) → StandsStill b → utf8_len (b ∷ rest) ≡ 0
unfolding utf8_len
utf8_len-zero b rest h = ground arith

-- The length of a character is read off its first byte.
pub utf8_len-encode :
    (cp : ℕ) (rest : Bytes) → IsScalar cp → utf8_len (encode cp ++ rest) ≡ length (encode cp)
unfolding utf8_len encode
utf8_len-encode cp rest h = ground arith

length-encode : (cp : ℕ) → (1 ≤ length (encode cp)) × (length (encode cp) ≤ 4)
unfolding encode
length-encode cp = ground arith

walk_step {ℓ} :
    {A : Type ℓ} (emit : A → Bytes → A) (fuel : ℕ) (c rest : Bytes) (acc : A)
    → utf8_len (c ++ rest) ≡ length c
    → 1 ≤ length c
    → walk emit (suc fuel) (c ++ rest) acc ≡ walk emit fuel rest (emit acc c)
unfolding walk
walk_step emit fuel [] rest acc h p = absurd (omega arith)
walk_step emit fuel (b ∷ c) rest acc h p = rw (
  h,
  le→ltb (suc (suc (length (c ++ rest)))) (suc (length c)) (omega (arith, length-append c rest)),
  drop-length_append c rest,
  append_assoc c rest (0 ∷ []),
  take-length_append c (rest ++ 0 ∷ []),
)

-- A loop that walks an encoded text takes one round for each character, and stands behind it then.
walk-text {ℓ} :
    {A : Type ℓ} (emit : A → Bytes → A) (cps : List ℕ) (fuel : ℕ) (rest : Bytes) (acc : A)
    → All IsScalar cps
    → walk emit (length cps + fuel) (text cps ++ rest) acc
      ≡ walk emit fuel rest (emit_all emit acc cps)
unfolding text emit_all
walk-text emit [] fuel rest acc h = ap (λ n. walk emit n rest acc) (omega arith)
walk-text emit (cp ∷ cps) fuel rest acc h =
    let e : suc (length cps) + fuel ≡ suc (length cps + fuel) = omega arith in
    rw (e, append_assoc (encode cp) (text cps) rest)
      (walk_step emit (length cps + fuel) (encode cp) (text cps ++ rest) acc
          (utf8_len-encode cp _ h.0) (length-encode cp).0
        ∙ walk-text emit cps fuel rest (emit acc (encode cp)) h.1)

length-text : (cps : List ℕ) → length cps ≤ length (text cps)
unfolding text
length-text [] = omega arith
length-text (cp ∷ cps) =
    omega (arith, length-append (encode cp) (text cps), length-encode cp, length-text cps)

-- For every sequence of code points, with one round for each byte and one more, a loop over their
-- UTF-8 encoding ends, and it has handled exactly the encoded characters, in order.
pub walk_finishes {ℓ} :
    {A : Type ℓ} (emit : A → Bytes → A) (cps : List ℕ) (fuel : ℕ) (acc : A)
    → All IsScalar cps
    → length (text cps) < fuel
    → walk emit fuel (text cps) acc ≡ finished (emit_all emit acc cps)
walk_finishes emit cps fuel acc h lt =
    let more : suc (fuel - length cps - 1) ≡ fuel - length cps = omega (arith, length-text cps) in
    let sum : fuel ≡ length cps + suc (fuel - length cps - 1) = omega (arith, length-text cps) in
    rw (sum, ← append-nil (text cps))
      (walk-text emit cps (suc (fuel - length cps - 1)) [] acc h ∙ unfold walk in refl)

walk_still {ℓ} :
    {A : Type ℓ} (emit : A → Bytes → A) (fuel b : ℕ) (rest : Bytes) (acc : A)
    → utf8_len (b ∷ rest) ≡ 0
    → walk emit fuel (b ∷ rest) acc ≡ unfinished
unfolding walk
walk_still emit zero b rest acc h = refl
walk_still emit (suc fuel) b rest acc h =
    rw (h, le→ltb (suc (suc (length rest))) 0 (omega arith))
      (walk_still emit fuel b rest (emit acc []) h)

-- If a byte at which `getUTF8Len` returns 0 stands behind any number of encoded characters, no
-- number of rounds ends the loop.
pub walk_hangs {ℓ} :
    {A : Type ℓ} (emit : A → Bytes → A) (cps : List ℕ) (b : ℕ) (rest : Bytes) (fuel : ℕ) (acc : A)
    → All IsScalar cps
    → StandsStill b
    → walk emit fuel (text cps ++ b ∷ rest) acc ≡ unfinished
unfolding text
walk_hangs emit [] b rest fuel acc h s = walk_still emit fuel b rest acc (utf8_len-zero b rest s)
walk_hangs emit (cp ∷ cps) b rest zero acc h s = unfold walk in refl
walk_hangs emit (cp ∷ cps) b rest (suc fuel) acc h s =
    rw (append_assoc (encode cp) (text cps) (b ∷ rest)) (
      walk_step emit fuel (encode cp) (text cps ++ b ∷ rest) acc (utf8_len-encode cp _ h.0)
        (length-encode cp).0
      ∙ walk_hangs emit cps b rest fuel (emit acc (encode cp)) h.1 s)
