-- ===== src/Util/Tokens/Words.antt =====
-- `tokenize_command` against the words of a text.
use prefix_match_server.Prelude.{
  ℕ, ◌+◌, ◌-◌, ◌≤◌, ◌<◌, ◌≡◌, refl, sym, ap, ◌∙◌, ◌⊎◌, inl, inr, Bool, true, false, Option, none,
  some, List, [], ◌∷◌, ◌++◌, append_assoc, append-nil, subst, arith, Bytes, ◌==◌, if◌then◌else◌,
  length, All, Bool-cases, All-append,
}
use prefix_match_server.Util.Chars.{contains}
use prefix_match_server.Util.Sep.{is_empty}
use prefix_match_server.Util.Sep.Pieces.{onto_first, pieces, nonempty}
use prefix_match_server.Util.Tokens.{Tokens, unprocessed, tokens_loop, tokenize_command}

-- The words of a text: what stands between spaces, and is not empty.
unfoldable pub words : Bytes → List Bytes
unfolding pieces nonempty
words s = nonempty (pieces (32 ∷ []) s)

-- What a terminal token leaves.
abbrev pub left : Option Bytes → Bytes
left none = []
left (some s) = s

abbrev NoSpace : Bytes → Type 0
NoSpace s = All (λ c. (c == 32) ≡ false) s

pieces-word :
    (s rest : Bytes) → NoSpace s → pieces (32 ∷ []) (s ++ 32 ∷ rest) ≡ s ∷ pieces (32 ∷ []) rest
unfolding pieces onto_first contains
pieces-word [] rest h = refl
pieces-word (c ∷ s) rest h =
    let e : (32 == c) ≡ false = ground (arith, h.0) in rw (e, pieces-word s rest h.1) refl

pieces-end : (s : Bytes) → NoSpace s → pieces (32 ∷ []) s ≡ s ∷ []
unfolding pieces onto_first contains
pieces-end [] h = refl
pieces-end (c ∷ s) h =
    let e : (32 == c) ≡ false = ground (arith, h.0) in rw (e, pieces-end s h.1) refl

words-end : (s : Bytes) → NoSpace s → words s ≡ (if is_empty s then [] else s ∷ [])
unfolding words nonempty is_empty
words-end s h = rw (pieces-end s h) (by_case s)
  where
    by_case : (x : Bytes) → nonempty (x ∷ []) ≡ (if is_empty x then [] else x ∷ [])
    by_case [] = unfold nonempty is_empty in refl
    by_case (c ∷ x) = unfold nonempty is_empty in refl

words-word :
    (s rest : Bytes)
    → NoSpace s
    → words (s ++ 32 ∷ rest) ≡ (if is_empty s then words rest else s ∷ words rest)
unfolding words nonempty is_empty
words-word s rest h = rw (pieces-word s rest h) (by_case s)
  where
    by_case :
        (x : Bytes)
        → nonempty (x ∷ pieces (32 ∷ []) rest) ≡ (if is_empty x then words rest else x ∷ words rest)
    by_case [] = unfold nonempty is_empty words in refl
    by_case (c ∷ x) = unfold nonempty is_empty words in refl

left-unprocessed : (e : Bytes) → left (unprocessed e) ≡ e
unfolding unprocessed
left-unprocessed [] = refl
left-unprocessed (c ∷ e) = refl

-- The tokens from a text on, with how many there may be.
record Splits (max ntokens : ℕ) (text : Bytes) (t : Tokens) : Type 0 where
  all_words : t.values ++ words (left t.terminal) ≡ words text
  room : ntokens + length t.values < max
  full : (t.terminal ≡ none) ⊎ (ntokens + length t.values + 1 ≡ max)

word-then :
    (s e : Bytes) (c : ℕ) (b : Bool)
    → NoSpace s
    → (c == 32) ≡ true
    → is_empty s ≡ b
    → words (s ++ c ∷ e) ≡ (if b then words e else s ∷ words e)
word-then s e c b h y z =
    let k : c ≡ 32 = ground (arith, y) in
    ap (λ x. words (s ++ x ∷ e)) k
    ∙ words-word s e h
    ∙ ap (λ (x : Bool). if x then words e else s ∷ words e) z

words-nil : words [] ≡ []
unfolding words pieces nonempty
words-nil = refl

last-Splits :
    (max ntokens : ℕ) (s : Bytes)
    → NoSpace s
    → ntokens + 1 < max
    → Splits max ntokens
        (s ++ [])
        (record { values = if is_empty s then [] else s ∷ []; terminal = none })
last-Splits max ntokens s h lt = record {
  all_words =
      ap (λ ws. (if is_empty s then [] else s ∷ []) ++ ws) words-nil
      ∙ append-nil (if is_empty s then [] else s ∷ [])
      ∙ sym (ap words (append-nil s) ∙ words-end s h);
  room = few (is_empty s);
  full = inl refl;
}
  where
    few : (b : Bool) → ntokens + length (if b then [] else s ∷ []) < max
    few true = omega arith
    few false = omega arith

tokens_loop-Splits :
    (max ntokens : ℕ) (s e : Bytes)
    → NoSpace s
    → ntokens + 1 < max
    → Splits max ntokens (s ++ e) (tokens_loop max ntokens s e)
unfolding tokens_loop
tokens_loop-Splits max ntokens s [] h lt = last-Splits max ntokens s h lt
tokens_loop-Splits max ntokens s (c ∷ e) h lt = elim (Bool-cases (c == 32)) [
  | inr y ↦ rw y (
      subst (λ t. Splits max ntokens t (tokens_loop max ntokens (s ++ c ∷ []) e))
        (append_assoc s (c ∷ []) e)
        (tokens_loop-Splits max ntokens (s ++ c ∷ []) e
          (All-append (λ x. (x == 32) ≡ false) s (c ∷ []) h (y, tt)) lt))
  | inl y ↦ elim (Bool-cases (is_empty s)) [
    | inl z ↦
        let k = tokens_loop-Splits max ntokens [] e tt lt in
        rw (y, z)
          record {
            all_words = k.all_words ∙ sym (word-then s e c true h y z);
            room = k.room;
            full = k.full;
          }
    | inr z ↦ elim (Bool-cases (ntokens + 1 == max - 1)) [
      | inl x ↦
          rw (y, z, x)
            record {
              all_words =
                  ap (λ t. s ∷ words t) (left-unprocessed e) ∙ sym (word-then s e c false h y z);
              room = ground (arith, lt);
              full = inr (ground (arith, lt, x));
            }
      | inr x ↦
          let k = tokens_loop-Splits max (ntokens + 1) [] e tt (ground (arith, lt, x)) in
          rw (y, z, x)
            record {
              all_words = ap (λ ws. s ∷ ws) k.all_words ∙ sym (word-then s e c false h y z);
              room = omega (arith, k.room);
              full = elim k.full [ inl n ↦ inl n | inr n ↦ inr (omega (arith, n)) ];
            }
    ]
  ]
]

-- For every text, and room for two tokens or more: the tokens are the first words of the text, in
-- order, and the terminal token leaves the others, so that none is lost; there is room for all tokens
-- and the terminal one; and something is left only if the room is used up.
pub tokenize_command-words :
    (command : Bytes) (max_tokens : ℕ)
    → 1 < max_tokens
    → let t = tokenize_command command max_tokens in
      (t.values ++ words (left t.terminal) ≡ words command)
      × (length t.values + 1 ≤ max_tokens)
      × ((t.terminal ≡ none) ⊎ (length t.values + 1 ≡ max_tokens))
unfolding tokenize_command
tokenize_command-words command max_tokens h =
    let k = tokens_loop-Splits max_tokens 0 [] command tt h in
    (
      k.all_words,
      omega (arith, k.room),
      elim k.full [ inl n ↦ inl n | inr n ↦ inr (omega (arith, n)) ],
    )
