-- ===== src/Http.antt =====
-- The HTTP monitor: `process_http_cb` of server.cpp.
pub mod Listing
pub mod Replies
use prefix_match_server.Prelude.{
  ℕ, zero, suc, ◌+◌, ◌-◌, ◌%◌, ◌^◌, ℤ, pos, negsuc, Bool, true, false, ◌||◌, not, Option, none,
  some, List, [], ◌∷◌, ◌++◌, Bytes, codes, ltb, ◌==◌, bytes_eq, if◌then◌else◌, length, get_elem?,
}
use prefix_match_server.Search.Query.{c_str}

-- What `evhttp_find_header` returns for the parameters of a request; `none` is NULL.
pub record Query : Type 0 where
  pub opt : Option Bytes
  pub key : Option Bytes
  pub number : Option Bytes
  pub indexpath : Option Bytes

-- Whether `evhttp_uri_parse` takes the URI, what `evhttp_uri_get_path` and `evhttp_uridecode` return,
-- and the parameters.
pub record Request : Type 0 where
  pub good_uri : Bool
  pub path : Option Bytes
  pub decoded_path : Option Bytes
  pub query : Query

-- What is sent: `evhttp_send_error` with a status, or `evhttp_send_reply` with HTTP_OK, a reason and
-- a page.
pub data Reply : Type 0 where
  error : ℕ → Reply
  page : Bytes → Bytes → Reply

abbrev pub http_badrequest : ℕ
http_badrequest = 400

abbrev pub http_nocontent : ℕ
http_nocontent = 204

abbrev pub http_notfound : ℕ
http_notfound = 404

-- What the code behind `done` is given: it is not reached; `http_query` and `evb` as they were set
-- up; or neither set up, an uninitialised list of headers and NULL.
pub data Cleanup : Type 0 where
  not_reached set_up not_set_up : Cleanup

-- What a call does: its replies, its calls of `Reload_index`, and its cleaning up.
pub record Outcome : Type 0 where
  pub replies : List Reply
  pub reloads : List (Option Bytes)
  pub cleanup : Cleanup

-- `p == NULL || strlen(p) == 0`
unfoldable pub missing : Option Bytes → Bool
missing none = true
missing (some []) = true
missing (some (c ∷ s)) = false

-- A parameter that is not missing.
unfoldable pub text : Option Bytes → Bytes
text none = []
text (some s) = s

-- `number > vRes.size()`, where the `int` becomes a `size_t`, and the size an `int`.
unfoldable pub as_size : ℤ → ℕ
as_size (pos n) = n
as_size (negsuc n) = 2 ^ 64 - suc n

unfoldable pub as_int : ℕ → ℤ
as_int n = let m = n % 2 ^ 32 in if ltb m (2 ^ 31) then pos m else negsuc (2 ^ 32 - suc m)

unfoldable pub clamp : ℤ → ℕ → ℤ
unfolding as_size as_int
clamp number size = if ltb size (as_size number) then as_int size else number

-- The rounds of `for (int i = 0; i < number; i++)`.
unfoldable pub rounds : ℤ → ℕ
rounds (pos n) = n
rounds (negsuc n) = 0

-- The line of a result; nothing stands for a read behind the end of `vRes`.
unfoldable pub item : Bytes → Bytes
unfolding c_str
item v = codes "    <li>" ++ (c_str v ++ codes "</a>\n")

unfoldable pub item_at : List Bytes → ℕ → Bytes
unfolding item
item_at res i = elim (get_elem? res i) [ none ↦ [] | some v ↦ item v ]

unfoldable pub items : ℕ → ℕ → List Bytes → Bytes
unfolding item_at
items zero i res = []
items (suc k) i res = item_at res i ++ items k (i + 1) res

unfoldable pub ends_with_slash : Bytes → Bool
ends_with_slash [] = false
ends_with_slash (c ∷ []) = c == 47
ends_with_slash (c ∷ d ∷ s) = ends_with_slash (d ∷ s)

-- The page around the items of a `get`, for the path and its decoded form.
unfoldable pub get_head : Bytes → Bytes → Bytes
unfolding ends_with_slash
get_head path decoded =
    codes "<html>\n <head>\n  <title>"
    ++ decoded
    ++ codes "</title>\n  <base href='"
    ++ path
    ++ (if ends_with_slash path then [] else codes "/")
    ++ codes "'>\n </head>\n <body>\n  <h1>"
    ++ decoded
    ++ codes "</h1>\n  <ul>\n"

abbrev pub page_end : Bytes
page_end = codes "</ul></body></html>\n"

-- The page of a `reload`: its head up to the title, and what became of it.
unfoldable pub reload_page : Bytes → Bytes → Bytes → Bytes → Bytes
reload_page indent decoded index_path result =
    codes "<html>\n <head>\n"
    ++ indent
    ++ codes "<title>"
    ++ decoded
    ++ codes "</title>\n </head>\n <body>\n  <ul>\n    <li>reload index "
    ++ index_path
    ++ result
    ++ codes "</a>\n"
    ++ page_end

-- `get` is the call of `Get`, where `none` is a return value other than 0; `atoi` is the library's;
-- `reload` is whether `Reload_index` returns 0; and `index_path` is the setting.
module _ (get : Bytes → Option (List Bytes)) (atoi : Bytes → ℤ) (reload : Option Bytes → Bool)
    (index_path : Bytes) where
  unfoldable pub asked_number : Option Bytes → ℤ
  unfolding missing text
  asked_number number = if missing number then pos 10 else atoi (text number)

  -- The reply to a `get`.
  unfoldable pub listing : Bytes → Bytes → ℤ → List Bytes → Reply
  unfolding get_head items rounds clamp
  listing path decoded number [] = error http_nocontent
  listing path decoded number (v ∷ res) = page (codes "OK") (
      get_head path decoded
      ++ items (rounds (clamp number (length (v ∷ res)))) 0 (v ∷ res)
      ++ page_end)

  unfoldable pub http_get : Bytes → Bytes → Query → Reply
  unfolding listing asked_number
  http_get path decoded q =
      if missing q.key then error http_badrequest else elim (get (text q.key)) [
        | none ↦ error http_nocontent
        | some res ↦ listing path decoded (asked_number q.number) res
      ]

  unfoldable pub http_reload : Bytes → Query → Reply
  unfolding reload_page missing text
  http_reload decoded q =
      let shown = if missing q.indexpath then index_path else text q.indexpath in
      if reload q.indexpath
      then page (codes "OK") (reload_page (codes "  ") decoded shown (codes " successfully"))
      else page (codes "Internal Error") (reload_page (codes " ") decoded shown (codes " failed"))

  -- The operations, once the path is decoded.
  unfoldable pub http_operation : Bytes → Bytes → Query → Outcome
  unfolding http_get http_reload
  http_operation path decoded q =
      if missing q.opt
      then record { replies = error http_badrequest ∷ []; reloads = []; cleanup = set_up }
      else if bytes_eq (text q.opt) (codes "get")
      then record { replies = http_get path decoded q ∷ []; reloads = []; cleanup = set_up }
      else if bytes_eq (text q.opt) (codes "reload")
      then record {
        replies = http_reload decoded q ∷ [];
        reloads = q.indexpath ∷ [];
        cleanup = set_up;
      }
      else record { replies = error http_notfound ∷ []; reloads = []; cleanup = set_up }

  unfoldable pub process_http_cb : Request → Outcome
  unfolding http_operation
  process_http_cb req =
      if req.good_uri
      then elim req.decoded_path [
        | none ↦ record { replies = []; reloads = []; cleanup = not_set_up }
        | some decoded ↦
            http_operation (elim req.path [ none ↦ codes "/" | some path ↦ path ]) decoded req.query
      ]
      else record { replies = error http_badrequest ∷ []; reloads = []; cleanup = not_reached }
