-- ===== src/Search/Query.antt =====
-- `Query` and `Get`. The trie is a parameter: `children index key n` stands for the values that
-- `getChildren(key, …, n)` appends.
pub mod Returns
use prefix_match_server.Prelude.{
  ℕ, Bool, true, false, Option, none, some, List, [], ◌∷◌, ◌++◌, Bytes, codes, ◌==◌, if◌then◌else◌,
  length,
}
use prefix_match_server.Util.Trim.{trim}
use prefix_match_server.Util.Utf8.{Walk, finished, overread, unfinished, walk}
use prefix_match_server.Letters.Table.{HashMap}
use prefix_match_server.Letters.Convert.{convert_to_letters}
use prefix_match_server.Search.Set.{NodeItem}
use prefix_match_server.Search.Filter.{Sort, filter_result}

-- A round of the first loop of `Query`: characters of one byte are passed over.
unfoldable pub push_chinese : List Bytes → Bytes → List Bytes
push_chinese chinese key = if length key == 1 then chinese else chinese ++ key ∷ []

-- The text in front of the first NUL.
unfoldable pub c_str : Bytes → Bytes
c_str [] = []
c_str (c ∷ s) = if c == 0 then [] else c ∷ c_str s

-- `vTmpNode`: the nodes of all values, in order.
unfoldable pub concat {ℓ} : {A : Type ℓ} → List (List A) → List A
concat [] = []
concat (v ∷ vs) = v ++ concat vs

-- What the search uses besides its arguments.
pub record Env (I F : Type 0) : Type 0 where
  pub children : I → Bytes → ℕ → List (List (NodeItem F))
  pub weight_lt : F → F → Bool
  pub sort : Sort F
  pub chinese_map : HashMap
  pub max_depth : ℕ
  pub exiting : Bool

module _ {I F : Type 0} (env : Env I F) where
  open env use {children, weight_lt, sort, chinese_map, max_depth, exiting}

  -- The loop over the spellings, and the nodes of what it finds.
  unfoldable pub reached : I → List Bytes → List (NodeItem F)
  reached index [] = []
  reached index (it ∷ letters) =
      concat (children index (c_str it) max_depth) ++ reached index letters

  -- `Query` behind its loops: `none` is the return of -1.
  unfoldable pub search_letters : I → List Bytes → List Bytes → ℕ → Option (List Bytes)
  search_letters index chinese [] max = none
  search_letters index chinese (it ∷ letters) max =
      some (filter_result weight_lt sort (reached index (it ∷ letters)) chinese [] max)

  after_letters : I → List Bytes → Walk (List Bytes) → ℕ → Walk (Option (List Bytes))
  unfolding search_letters
  after_letters index chinese (finished letters) max =
      finished (search_letters index chinese letters max)
  after_letters index chinese overread max = overread
  after_letters index chinese unfinished max = unfinished

  after_chinese : I → Bytes → Walk (List Bytes) → ℕ → ℕ → Walk (Option (List Bytes))
  unfolding after_letters
  after_chinese index str (finished chinese) fuel max =
      after_letters index chinese (convert_to_letters fuel str chinese_map) max
  after_chinese index str overread fuel max = overread
  after_chinese index str unfinished fuel max = unfinished

  -- `fuel` bounds the rounds of each of the two loops over the text.
  unfoldable pub query : ℕ → I → Bytes → ℕ → Walk (Option (List Bytes))
  unfolding after_chinese
  query fuel index str max = after_chinese index str (walk push_chinese fuel str []) fuel max

  -- `Get`; `none` is the return of -1.
  unfoldable pub get_line : ℕ → I → Bytes → Walk (Option (List Bytes))
  get_line fuel index [] = if exiting then finished (some []) else finished none
  get_line fuel index (c ∷ line) =
      if exiting
      then finished (some [])
      else query fuel index (trim (c ∷ line) (codes " \t\r") true) max_depth
