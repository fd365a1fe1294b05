-- ===== src/Letters/Convert.antt =====
-- `all_english_char` and the two versions of `convert_to_letters`.
pub mod Spelling
use prefix_match_server.Prelude.{
  ℕ, suc, Bool, true, false, ◌&&◌, Option, none, some, List, [], ◌∷◌, ◌++◌, map, Bytes, ltb, leb,
  if◌then◌else◌, length, take,
}
use prefix_match_server.Util.Utf8.{Walk, finished, overread, unfinished, walk}
use prefix_match_server.Letters.Table.{HashMap, lookup}
use prefix_match_server.Letters.Product.{get_all_results}

-- `while (p < pEnd)`: the list is the text from `p` on.
unfoldable pub all_english_char : Bytes → Bool
all_english_char [] = true
all_english_char (c ∷ str) = if leb 0x80 c then false else all_english_char str

-- A round of the server's loop: `find` and, on a hit, `vecAll.push_back(iter->second)`.
unfoldable pub push_reading : HashMap → List (List Bytes) → Bytes → List (List Bytes)
push_reading table all key = elim (lookup key table) [ none ↦ all | some v ↦ all ++ v ∷ [] ]

-- What follows a loop that has come to its end.
unfoldable pub and_then {ℓ κ} : {A : Type ℓ} {B : Type κ} → Walk A → (A → B) → Walk B
and_then (finished a) f = finished (f a)
and_then overread f = overread
and_then unfinished f = unfinished

-- `convert_to_letters` of prefixmatch.cpp: `vOut`, which starts empty. `fuel` bounds the rounds.
unfoldable pub convert_to_letters : ℕ → Bytes → HashMap → Walk (List Bytes)
unfolding and_then
convert_to_letters fuel str table =
    if all_english_char str
    then finished (str ∷ [])
    else and_then (walk (push_reading table) fuel str []) (λ all. get_all_results all [])

-- The variables of the indexer's loop.
pub record Found : Type 0 where
  pub vec_all : List (List Bytes)
  pub vec_fc : List (List Bytes)
  pub all_chinese_flag : Bool

-- A round of the indexer's loop. `s <= 1` is a test on the length of the key.
unfoldable pub push_found : HashMap → Found → Bytes → Found
push_found table f key =
    let g = if leb (length key) 1 then record f { all_chinese_flag = false } else f in
    elim (lookup key table) [
      | none ↦ g
      | some v ↦ record g {
        vec_all = g.vec_all ++ v ∷ [];
        vec_fc = g.vec_fc ++ map (take 1) v ∷ [];
      }
    ]

-- The two calls of `get_all_results`, the second for initials.
unfoldable pub words_of : Found → List Bytes
words_of f =
    if f.all_chinese_flag
    then get_all_results f.vec_all [] ++ get_all_results f.vec_fc []
    else get_all_results f.vec_all []

-- `convert_to_letters` of indexer.cpp.
unfoldable pub index_letters : ℕ → Bytes → HashMap → Walk (List Bytes)
unfolding and_then
index_letters fuel str table =
    if all_english_char str
    then finished (str ∷ [])
    else and_then
        (walk (push_found table) fuel str
          (record { vec_all = []; vec_fc = []; all_chinese_flag = true }))
        words_of
