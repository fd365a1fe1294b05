-- ===== src/Letters/Convert/Spelling.antt =====
-- What the two versions of `convert_to_letters` return for a text in UTF-8.
use prefix_match_server.Prelude.{
  ℕ, ◌≤◌, ◌<◌, ◌≡◌, refl, sym, ap, ◌∙◌, inl, inr, Bool, true, false, none, some, List, [], ◌∷◌,
  ◌++◌, map, append-nil, append_assoc, arith, Bytes, leb, ltb, if◌then◌else◌, length, take, All,
  Option-cases,
}
use prefix_match_server.Util.Utf8.{finished, unfinished}
use prefix_match_server.Util.Utf8.Encoding.{
  IsScalar, StandsStill, encode, text, emit_all, walk_finishes, walk_hangs,
}
use prefix_match_server.Letters.Table.{HashMap, lookup}
use prefix_match_server.Letters.Product.{get_all_results}
use prefix_match_server.Letters.Convert.{
  all_english_char, push_reading, convert_to_letters, Found, push_found, words_of, index_letters,
}

-- The readings of the characters that the table has, in order.
unfoldable pub readings : HashMap → List ℕ → List (List Bytes)
readings table [] = []
readings table (cp ∷ cps) = elim (lookup (encode cp) table) [
  | none ↦ readings table cps
  | some v ↦ v ∷ readings table cps
]

-- The first letters of each reading.
unfoldable pub initials : List (List Bytes) → List (List Bytes)
initials [] = []
initials (v ∷ all) = map (take 1) v ∷ initials all

push_reading_all :
    (table : HashMap) (cps : List ℕ) (all : List (List Bytes))
    → emit_all (push_reading table) all cps ≡ all ++ readings table cps
unfolding emit_all push_reading readings
push_reading_all table [] all = sym (append-nil all)
push_reading_all table (cp ∷ cps) all = elim (Option-cases (lookup (encode cp) table)) [
  | inl e ↦ rw (e, push_reading, readings) (push_reading_all table cps all)
  | inr (v, e) ↦
      rw (e, push_reading, readings)
        (push_reading_all table cps (all ++ v ∷ []) ∙ append_assoc all (v ∷ []) _)
]

-- An encoded text has a byte above ASCII exactly if it has a character above ASCII.
unfoldable pub all_ascii : List ℕ → Bool
all_ascii [] = true
all_ascii (cp ∷ cps) = if ltb cp 0x80 then all_ascii cps else false

pub english-text : (cps : List ℕ) → all_english_char (text cps) ≡ all_ascii cps
unfolding all_english_char text all_ascii encode
english-text [] = refl
english-text (cp ∷ cps) = ground (arith, english-text cps)

-- For every text in UTF-8 with a character above ASCII, and one round for each byte and one more,
-- the server's `convert_to_letters` ends, with the choices of one reading for each character that
-- the table has; the characters that it lacks are left out.
pub convert_to_letters-readings :
    (table : HashMap) (cps : List ℕ) (fuel : ℕ)
    → All IsScalar cps
    → all_ascii cps ≡ false
    → length (text cps) < fuel
    → convert_to_letters fuel (text cps) table ≡ finished (get_all_results (readings table cps) [])
unfolding convert_to_letters
convert_to_letters-readings table cps fuel h wide lt = rw (
  english-text cps,
  wide,
  walk_finishes (push_reading table) cps fuel [] h lt,
  push_reading_all table cps [],
)

english-wide :
    (pre : Bytes) (b : ℕ) (rest : Bytes) → 0x80 ≤ b → all_english_char (pre ++ b ∷ rest) ≡ false
unfolding all_english_char
english-wide [] b rest h = ground arith
english-wide (c ∷ pre) b rest h = ground (arith, english-wide pre b rest h)

-- If behind any encoded characters stands a byte above ASCII at which `getUTF8Len` returns 0, the
-- server's `convert_to_letters` does not end, however many rounds it is given.
pub convert_to_letters_hangs :
    (table : HashMap) (cps : List ℕ) (b : ℕ) (rest : Bytes) (fuel : ℕ)
    → All IsScalar cps
    → StandsStill b
    → 0x80 ≤ b
    → convert_to_letters fuel (text cps ++ b ∷ rest) table ≡ unfinished
unfolding convert_to_letters
convert_to_letters_hangs table cps b rest fuel h s wide =
    rw (english-wide (text cps) b rest wide, walk_hangs (push_reading table) cps b rest fuel [] h s)

-- The three variables of the indexer's loop move independently.
module _ (table : HashMap) (f : Found) (key : Bytes) where
  vec_all-push_found : (push_found table f key).vec_all ≡ push_reading table f.vec_all key
  unfolding push_found push_reading
  vec_all-push_found = ground arith

  vec_fc-push_found :
      (push_found table f key).vec_fc
      ≡ elim (lookup key table) [ none ↦ f.vec_fc | some v ↦ f.vec_fc ++ map (take 1) v ∷ [] ]
  unfolding push_found
  vec_fc-push_found = ground arith

  flag-push_found :
      (push_found table f key).all_chinese_flag
      ≡ (if leb (length key) 1 then false else f.all_chinese_flag)
  unfolding push_found
  flag-push_found = ground arith

vec_all-emit_all :
    (table : HashMap) (cps : List ℕ) (f : Found)
    → (emit_all (push_found table) f cps).vec_all ≡ emit_all (push_reading table) f.vec_all cps
unfolding emit_all
vec_all-emit_all table [] f = refl
vec_all-emit_all table (cp ∷ cps) f =
    vec_all-emit_all table cps (push_found table f (encode cp))
    ∙ ap (λ a. emit_all (push_reading table) a cps) (vec_all-push_found table f (encode cp))

vec_fc-emit_all :
    (table : HashMap) (cps : List ℕ) (f : Found)
    → (emit_all (push_found table) f cps).vec_fc ≡ f.vec_fc ++ initials (readings table cps)
unfolding emit_all readings initials
vec_fc-emit_all table [] f = sym (append-nil f.vec_fc)
vec_fc-emit_all table (cp ∷ cps) f =
    vec_fc-emit_all table cps (push_found table f (encode cp))
    ∙ elim (Option-cases (lookup (encode cp) table)) [
      | inl e ↦ rw (vec_fc-push_found table f (encode cp), e, readings) refl
      | inr (v, e) ↦
          rw (vec_fc-push_found table f (encode cp), e, readings)
            (append_assoc f.vec_fc (map (take 1) v ∷ []) _)
    ]

-- No character is ASCII.
unfoldable pub none_ascii : List ℕ → Bool
none_ascii [] = true
none_ascii (cp ∷ cps) = if ltb cp 0x80 then false else none_ascii cps

short-encode : (cp : ℕ) → leb (length (encode cp)) 1 ≡ ltb cp 0x80
unfolding encode
short-encode cp = ground arith

flag-emit_all :
    (table : HashMap) (cps : List ℕ) (f : Found)
    → (emit_all (push_found table) f cps).all_chinese_flag
      ≡ (if none_ascii cps then f.all_chinese_flag else false)
unfolding emit_all none_ascii
flag-emit_all table [] f = refl
flag-emit_all table (cp ∷ cps) f =
    flag-emit_all table cps (push_found table f (encode cp))
    ∙ rw (flag-push_found table f (encode cp), short-encode cp) (ground arith)

abbrev start : Found
start = record { vec_all = []; vec_fc = []; all_chinese_flag = true }

-- For every text in UTF-8 with a character above ASCII, and one round for each byte and one more,
-- the indexer's `convert_to_letters` ends with the words of the server's, and behind them, exactly if
-- no character is ASCII, the same choices among the first letters of the readings.
pub index_letters-initials :
    (table : HashMap) (cps : List ℕ) (fuel : ℕ)
    → All IsScalar cps
    → all_ascii cps ≡ false
    → length (text cps) < fuel
    → index_letters fuel (text cps) table
      ≡ finished (
          get_all_results (readings table cps) []
          ++ (if none_ascii cps then get_all_results (initials (readings table cps)) [] else []))
unfolding index_letters words_of
index_letters-initials table cps fuel h wide lt =
    rw (english-text cps, wide, walk_finishes (push_found table) cps fuel start h lt)
      (ap finished (
        rw
          (
            flag-emit_all table cps start,
            vec_all-emit_all table cps start,
            vec_fc-emit_all table cps start,
            push_reading_all table cps [],
          )
          (choose (none_ascii cps))))
  where
    choose :
        (b : Bool)
        → (if (if b then true else false)
            then get_all_results (readings table cps) []
              ++ get_all_results (initials (readings table cps)) []
            else get_all_results (readings table cps) [])
          ≡ get_all_results (readings table cps) []
            ++ (if b then get_all_results (initials (readings table cps)) [] else [])
    choose true = refl
    choose false = sym (append-nil _)
