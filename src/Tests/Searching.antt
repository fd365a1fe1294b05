-- ===== src/Tests/Searching.antt =====
-- The search at a small index.
use prefix_match_server.Prelude.{
  ℕ, ◌≡◌, refl, ◌⊎◌, inl, inr, false, none, some, List, [], ◌∷◌, ◌++◌, arith, Bytes, codes, ltb,
}
use prefix_match_server.Util.Utf8.{finished, unfinished}
use prefix_match_server.Util.Utf8.Encoding.{encode, text}
use prefix_match_server.Search.Order.{str_lt}
use prefix_match_server.Search.Set.{NodeItem, set_insert}
use prefix_match_server.Search.Filter.{filter_result, collect, passes, find, rank_compare}
use prefix_match_server.Search.Filter.Answer.{Answer, filter_result-Answer}
use prefix_match_server.Search.Query.{Env, query, reached}
use prefix_match_server.Search.Query.Returns.{spellings, wide, query-Answer, query_hangs}
use prefix_match_server.Tests.Sorting.{insertion_sort, insertion_sort-Sorts}

abbrev node : Bytes → ℕ → NodeItem ℕ
node name rank = record { name = name; rank = rank }

-- U+4F60 alone, and with a letter behind it.
abbrev you : Bytes
you = 0xe4 ∷ 0xbd ∷ 0xa0 ∷ []

abbrev results : List (NodeItem ℕ)
results = node (you ++ codes "b") 5 ∷ node (codes "nil") 1 ∷ node you 3 ∷ node you 9 ∷ []

-- An index is the list of the values that it finds for every key.
abbrev env : Env (List (List (NodeItem ℕ))) ℕ
env = record {
  children = λ index key n. index;
  weight_lt = ltb;
  sort = insertion_sort;
  chinese_map = (you, codes "ni" ∷ []) ∷ [];
  max_depth = 10;
  exiting = false;
}

filter_result_run :
    filter_result ltb insertion_sort results (you ∷ []) [] 10 ≡ you ∷ (you ++ codes "b") ∷ []
unfolding filter_result collect passes find set_insert rank_compare insertion_sort str_lt
filter_result_run = refl

filter_result-Answer_example :
    Answer ltb results (you ∷ []) 1 (filter_result ltb insertion_sort results (you ∷ []) [] 1)
filter_result-Answer_example =
    filter_result-Answer ltb insertion_sort results (you ∷ []) 1 insertion_sort-Sorts

query-Answer_example :
    ((spellings env (0x4f60 ∷ []) ≡ [])
      × (query env 4 (results ∷ []) (text (0x4f60 ∷ [])) 10 ≡ finished none))
    ⊎ ((out : List Bytes) × (query env 4 (results ∷ []) (text (0x4f60 ∷ [])) 10
          ≡ finished (some out))
        × Answer ltb
            (reached env (results ∷ []) (spellings env (0x4f60 ∷ [])))
            (wide (0x4f60 ∷ []))
            10
            out)
query-Answer_example =
    query-Answer env (results ∷ []) (0x4f60 ∷ []) 4 10 (omega arith)
      (unfold text encode in omega arith) insertion_sort-Sorts

query_hangs_example : query env 1000 [] (text (0x4f60 ∷ []) ++ 0x80 ∷ []) 10 ≡ unfinished
query_hangs_example =
    query_hangs env [] (0x4f60 ∷ []) 0x80 [] 1000 10 (omega arith) (inr (inl (omega arith)))
