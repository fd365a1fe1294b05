-- ===== src/Config/Texts.antt =====
-- What `parse_config` makes of a line `key = value`.
use prefix_match_server.Prelude.{
  ℕ, zero, suc, ◌<◌, ◌≡◌, ◌≢◌, refl, ap, ◌∙◌, false, some, [], ◌∷◌, ◌++◌, arith, Bytes, codes, ◌==◌,
  length, take, take-length_append, All,
}
use prefix_match_server.Util.Delstr.{delstr}
use prefix_match_server.Util.Delstr.InPlace.{without, delstr-without}
use prefix_match_server.Util.Chars.{contains}
use prefix_match_server.Util.Sep.Pieces.{pieces, onto_first}
use prefix_match_server.Util.Fields.Split.{parse_string_fast-pieces}
use prefix_match_server.Config.{
  Settings, next_line, c_string, cut_last, cut_return, set_config, set_fields, set_line, parse_line,
}

-- A character of a key or a value: no NUL, blank, line end, `=` or `#`.
abbrev pub IsPlain : ℕ → Type 0
IsPlain c = (c ≢ 0) × (c ≢ 9) × (c ≢ 10) × (c ≢ 13) × (c ≢ 32) × (c ≢ 35) × (c ≢ 61)

-- A character of a line.
unfoldable pub InLine : ℕ → Type 0
InLine c = (c ≢ 0) × (c ≢ 10) × (c ≢ 13)

-- `key = value`
unfoldable pub setting : Bytes → Bytes → Bytes
setting key value = key ++ (32 ∷ 61 ∷ 32 ∷ value)

pub next_line-InLine :
    (text rest : Bytes) (room : ℕ)
    → All InLine text
    → length text < room
    → next_line room (text ++ 10 ∷ rest) ≡ (text ++ 10 ∷ [], rest)
unfolding next_line InLine
next_line-InLine [] rest zero h lt = absurd (omega arith)
next_line-InLine [] rest (suc room) h lt = refl
next_line-InLine (c ∷ text) rest zero h lt = absurd (omega arith)
next_line-InLine (c ∷ text) rest (suc room) h lt =
    let e : (c == 10) ≡ false = ground (arith, h.0.1) in
    rw (e, next_line-InLine text rest room h.1 (omega arith)) refl

c_string-InLine : (text : Bytes) → All InLine text → c_string (text ++ 10 ∷ []) ≡ text ++ 10 ∷ []
unfolding c_string InLine
c_string-InLine [] h = refl
c_string-InLine (c ∷ text) h =
    let e : (c == 0) ≡ false = ground (arith, h.0.0) in rw (e, c_string-InLine text h.1) refl

cut_last-append : (text : Bytes) → cut_last (text ++ 10 ∷ []) ≡ some text
unfolding cut_last
cut_last-append [] = refl
cut_last-append (c ∷ []) = refl
cut_last-append (c ∷ d ∷ text) = rw (cut_last-append (d ∷ text)) refl

cut_return-InLine :
    (c : ℕ) (text : Bytes) → All InLine (c ∷ text) → cut_return (c ∷ text) ≡ some (c ∷ text)
unfolding cut_return InLine
cut_return-InLine c [] h = let e : (c == 13) ≡ false = ground (arith, h.0.2) in rw e refl
cut_return-InLine c (d ∷ text) h = rw (cut_return-InLine d text h.1) refl

without-plain :
    (key rest : Bytes)
    → All IsPlain key
    → without (codes " \t") (key ++ rest) ≡ key ++ without (codes " \t") rest
unfolding without contains
without-plain [] rest h = refl
without-plain (c ∷ key) rest h =
    let e : (32 == c) ≡ false = ground (arith, h.0.4) in
    let f : (9 == c) ≡ false = ground (arith, h.0.1) in
    rw (e, f) (ap (λ s. c ∷ s) (without-plain key rest h.1))

without-All : (key : Bytes) → All IsPlain key → without (codes " \t") key ≡ key
unfolding without contains
without-All [] h = refl
without-All (c ∷ key) h =
    let e : (32 == c) ≡ false = ground (arith, h.0.4) in
    let f : (9 == c) ≡ false = ground (arith, h.0.1) in
    rw (e, f) (ap (λ s. c ∷ s) (without-All key h.1))

without-equals :
    (value : Bytes) → All IsPlain value → without (codes " \t") (32 ∷ 61 ∷ 32 ∷ value) ≡ 61 ∷ value
unfolding without contains
without-equals value h = ap (λ s. 61 ∷ s) (without-All value h)

without-setting :
    (key value : Bytes)
    → All IsPlain key
    → All IsPlain value
    → without (codes " \t") (setting key value) ≡ key ++ 61 ∷ value
unfolding setting
without-setting key value h k =
    without-plain key (32 ∷ 61 ∷ 32 ∷ value) h ∙ ap (λ s. key ++ s) (without-equals value k)

pieces-plain : (value : Bytes) → All IsPlain value → pieces (61 ∷ []) value ≡ value ∷ []
unfolding pieces contains onto_first
pieces-plain [] h = refl
pieces-plain (c ∷ value) h =
    let e : (61 == c) ≡ false = ground (arith, h.0.6) in rw (e, pieces-plain value h.1) refl

pieces-setting :
    (key value : Bytes)
    → All IsPlain key
    → All IsPlain value
    → pieces (61 ∷ []) (key ++ 61 ∷ value) ≡ key ∷ value ∷ []
unfolding pieces contains onto_first
pieces-setting [] value h k = rw (pieces-plain value k) refl
pieces-setting (c ∷ key) value h k =
    let e : (61 == c) ≡ false = ground (arith, h.0.6) in rw (e, pieces-setting key value h.1 k) refl

-- A blank or `=` may stand in a line.
IsPlain-InLine : (key rest : Bytes) → All IsPlain key → All InLine rest → All InLine (key ++ rest)
unfolding InLine
IsPlain-InLine [] rest h k = k
IsPlain-InLine (c ∷ key) rest h k = ((h.0.0, h.0.2, h.0.3), IsPlain-InLine key rest h.1 k)

All-InLine : (value : Bytes) → All IsPlain value → All InLine value
unfolding InLine
All-InLine [] h = tt
All-InLine (c ∷ value) h = ((h.0.0, h.0.2, h.0.3), All-InLine value h.1)

pub setting-InLine :
    (key value : Bytes) → All IsPlain key → All IsPlain value → All InLine (setting key value)
unfolding setting InLine
setting-InLine key value h k = IsPlain-InLine key (32 ∷ 61 ∷ 32 ∷ value) h (
  (λ e. absurd (omega arith), λ e. absurd (omega arith), λ e. absurd (omega arith)),
  (
    (λ e. absurd (omega arith), λ e. absurd (omega arith), λ e. absurd (omega arith)),
    (
      (λ e. absurd (omega arith), λ e. absurd (omega arith), λ e. absurd (omega arith)),
      All-InLine value k,
    ),
  ),
)

cut_return-setting :
    (key value : Bytes)
    → All IsPlain key
    → All IsPlain value
    → cut_return (setting key value) ≡ some (setting key value)
cut_return-setting [] value h k =
    unfold setting in
    cut_return-InLine 32 (61 ∷ 32 ∷ value) (unfold setting in setting-InLine [] value h k)
cut_return-setting (c ∷ key) value h k =
    unfold setting in
    cut_return-InLine c (key ++ 32 ∷ 61 ∷ 32 ∷ value)
      (unfold setting in setting-InLine (c ∷ key) value h k)

delstr-setting :
    (key value : Bytes)
    → All IsPlain key
    → All IsPlain value
    → take (delstr (setting key value) (codes " \t")).1 (delstr (setting key value) (codes " \t")).0
      ≡ key ++ 61 ∷ value
delstr-setting key value h k =
    ap (λ p. take p.1 p.0) (delstr-without (setting key value) (codes " \t"))
    ∙ take-length_append (without (codes " \t") (setting key value)) _
    ∙ without-setting key value h k

module _ (atoi : Bytes → ℕ) where
  set_line-setting :
      (key value : Bytes) (s : Settings)
      → All IsPlain key
      → All IsPlain value
      → set_line atoi (key ++ 61 ∷ value) s ≡ set_config atoi key value s
  unfolding set_line set_fields
  set_line-setting [] value s h k =
      rw (parse_string_fast-pieces (61 ∷ value) 61, pieces-setting [] value h k) refl
  set_line-setting (c ∷ key) value s h k =
      let e : (c == 35) ≡ false = ground (arith, h.0.5) in
      rw
        (e, parse_string_fast-pieces (c ∷ key ++ 61 ∷ value) 61, pieces-setting (c ∷ key) value h k)
        refl

  pub parse_line-setting :
      (key value : Bytes) (s : Settings)
      → All IsPlain key
      → All IsPlain value
      → parse_line atoi (setting key value ++ 10 ∷ []) s ≡ some (set_config atoi key value s)
  unfolding parse_line
  parse_line-setting key value s h k =
      rw
        (
          c_string-InLine (setting key value) (setting-InLine key value h k),
          cut_last-append (setting key value),
          cut_return-setting key value h k,
          delstr-setting key value h k,
        )
        (ap some (set_line-setting key value s h k))
