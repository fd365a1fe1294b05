-- ===== src/Search/Query/Returns.antt =====
-- What `Query` returns for a text in UTF-8, and for one that is not.
use prefix_match_server.Prelude.{
  ℕ, ◌<◌, ◌≡◌, refl, sym, ◌∙◌, ◌⊎◌, inl, inr, none, some, List, [], ◌∷◌, ◌++◌, append-nil,
  append_assoc, arith, Bytes, ltb, ◌==◌, if◌then◌else◌, length, All, Bool-cases,
}
use prefix_match_server.Util.Utf8.{finished, unfinished}
use prefix_match_server.Util.Utf8.Encoding.{
  IsScalar, StandsStill, encode, text, emit_all, walk_finishes, walk_hangs,
}
use prefix_match_server.Letters.Product.{get_all_results}
use prefix_match_server.Letters.Convert.{convert_to_letters}
use prefix_match_server.Letters.Convert.Spelling.{
  readings, all_ascii, english-text, convert_to_letters-readings,
}
use prefix_match_server.Search.Filter.{rank_compare, filter_result}
use prefix_match_server.Search.Filter.Answer.{Answer, Sorts, filter_result-Answer}
use prefix_match_server.Search.Query.{
  push_chinese, Env, reached, search_letters, after_letters, after_chinese, query,
}

-- The characters above ASCII, in order.
unfoldable pub wide : List ℕ → List Bytes
wide [] = []
wide (cp ∷ cps) = if ltb cp 0x80 then wide cps else encode cp ∷ wide cps

short-encode : (cp : ℕ) → (length (encode cp) == 1) ≡ ltb cp 0x80
unfolding encode
short-encode cp = ground arith

push_chinese_all :
    (cps : List ℕ) (out : List Bytes) → emit_all push_chinese out cps ≡ out ++ wide cps
unfolding emit_all push_chinese wide
push_chinese_all [] out = sym (append-nil out)
push_chinese_all (cp ∷ cps) out = elim (Bool-cases (ltb cp 0x80)) [
  | inl e ↦ rw (short-encode cp, e) (push_chinese_all cps out)
  | inr e ↦
      rw (short-encode cp, e)
        (push_chinese_all cps (out ++ encode cp ∷ []) ∙ append_assoc out (encode cp ∷ []) _)
]

module _ {I F : Type 0} (env : Env I F) where
  -- The spellings of a text: itself, if it is ASCII, and else the choices of readings.
  unfoldable pub spellings : List ℕ → List Bytes
  spellings cps =
      if all_ascii cps then text cps ∷ [] else get_all_results (readings env.chinese_map cps) []

  convert-spellings :
      (cps : List ℕ) (fuel : ℕ)
      → All IsScalar cps
      → length (text cps) < fuel
      → convert_to_letters fuel (text cps) env.chinese_map ≡ finished (spellings cps)
  unfolding spellings
  convert-spellings cps fuel h lt = elim (Bool-cases (all_ascii cps)) [
    | inl e ↦ rw e (unfold convert_to_letters in rw (english-text cps, e))
    | inr e ↦ rw e (convert_to_letters-readings env.chinese_map cps fuel h e lt)
  ]

  query_lem :
      (index : I) (cps : List ℕ) (fuel max : ℕ)
      → All IsScalar cps
      → length (text cps) < fuel
      → query env fuel index (text cps) max
        ≡ finished (search_letters env index (wide cps) (spellings cps) max)
  unfolding query after_chinese after_letters
  query_lem index cps fuel max h lt = rw (
    walk_finishes push_chinese cps fuel [] h lt,
    push_chinese_all cps [],
    convert-spellings cps fuel h lt,
  )

  -- For every text in UTF-8, and one round for each byte and one more, `Query` ends. If the text has
  -- no spelling, it returns -1. Otherwise it returns an answer (`Answer`) to the nodes that the trie
  -- reaches from the spellings, with the characters above ASCII as the rules: with a sort that
  -- sorts, the names hold every such character and come in the order of their weights.
  pub query-Answer :
      (index : I) (cps : List ℕ) (fuel max : ℕ)
      → All IsScalar cps
      → length (text cps) < fuel
      → Sorts (rank_compare env.weight_lt) env.sort
      → ((spellings cps ≡ []) × (query env fuel index (text cps) max ≡ finished none))
        ⊎ ((out : List Bytes) × (query env fuel index (text cps) max ≡ finished (some out))
            × Answer env.weight_lt (reached env index (spellings cps)) (wide cps) max out)
  query-Answer index cps fuel max h lt law = at (spellings cps) refl
    where
      at :
          (letters : List Bytes)
          → spellings cps ≡ letters
          → ((spellings cps ≡ []) × (query env fuel index (text cps) max ≡ finished none))
            ⊎ ((out : List Bytes) × (query env fuel index (text cps) max ≡ finished (some out))
                × Answer env.weight_lt (reached env index (spellings cps)) (wide cps) max out)
      at [] e = inl (e, query_lem index cps fuel max h lt ∙ rw e (unfold search_letters in refl))
      at (it ∷ letters) e = inr (
        filter_result env.weight_lt env.sort (reached env index (it ∷ letters)) (wide cps) [] max,
        query_lem index cps fuel max h lt ∙ rw e (unfold search_letters in refl),
        rw e (
            filter_result-Answer env.weight_lt env.sort (reached env index (it ∷ letters))
              (wide cps) max law),
      )

  -- If behind any encoded characters stands a byte at which `getUTF8Len` returns 0, `Query` does not
  -- end, however many rounds its loops are given.
  pub query_hangs :
      (index : I) (cps : List ℕ) (b : ℕ) (rest : Bytes) (fuel max : ℕ)
      → All IsScalar cps
      → StandsStill b
      → query env fuel index (text cps ++ b ∷ rest) max ≡ unfinished
  unfolding query after_chinese
  query_hangs index cps b rest fuel max h s = rw (walk_hangs push_chinese cps b rest fuel [] h s)
