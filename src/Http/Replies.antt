-- ===== src/Http/Replies.antt =====
-- The replies of `process_http_cb` of server.cpp.
use prefix_match_server.Prelude.{
  ℤ, ◌≡◌, refl, ap, ◌∙◌, ◌⊎◌, inl, inr, Bool, true, false, Option, none, some, List, [], ◌∷◌, ◌++◌,
  ◌<◌, ◌^◌, Bytes, codes, length, map, bytes_eq, Bool-cases, Option-cases, ◌≢◌,
}
use prefix_match_server.Search.Query.{concat}
use prefix_match_server.Http.{
  Request, Query, page, Outcome, set_up, not_set_up, not_reached, missing, text, item, get_head,
  page_end, asked_number, listing, http_get, http_operation, process_http_cb,
}
use prefix_match_server.Http.Listing.{wanted, IsInt, items-wanted}

module _ (get : Bytes → Option (List Bytes)) (atoi : Bytes → ℤ) (reload : Option Bytes → Bool)
    (index_path : Bytes) where
  one_reply :
      (path decoded : Bytes) (q : Query)
      → (length (http_operation get atoi reload index_path path decoded q).replies ≡ 1)
        × ((http_operation get atoi reload index_path path decoded q).cleanup ≡ set_up)
  unfolding http_operation
  one_reply path decoded q = elim (Bool-cases (missing q.opt)) [
    | inl a ↦ rw a (refl, refl)
    | inr a ↦ elim (Bool-cases (bytes_eq (text q.opt) (codes "get"))) [
      | inl b ↦ rw (a, b) (refl, refl)
      | inr b ↦ elim (Bool-cases (bytes_eq (text q.opt) (codes "reload"))) [
        | inl c ↦ rw (a, b, c) (refl, refl)
        | inr c ↦ rw (a, b, c) (refl, refl)
      ]
    ]
  ]

  -- Every request gets exactly one reply, and what was set up is released, if a path was decoded for
  -- it; one whose URI is not taken gets one, with nothing to release; and one whose path cannot be
  -- decoded gets none, and what is released was not set up.
  pub process_http_cb-Replies :
      (req : Request)
      → let out = process_http_cb get atoi reload index_path req in
        ((length out.replies ≡ 1)
          × (out.cleanup ≡ set_up)
          × (req.good_uri ≡ true)
          × (decoded : Bytes) × (req.decoded_path ≡ some decoded))
        ⊎ ((length out.replies ≡ 1) × (out.cleanup ≡ not_reached) × (req.good_uri ≡ false))
        ⊎ ((out.replies ≡ [])
            × (out.cleanup ≡ not_set_up)
            × (req.good_uri ≡ true)
            × (req.decoded_path ≡ none))
  unfolding process_http_cb
  process_http_cb-Replies req = elim (Bool-cases req.good_uri) [
    | inr g ↦ rw g (inr (inl (refl, refl, refl)))
    | inl g ↦ elim (Option-cases req.decoded_path) [
      | inl e ↦ rw (g, e) (inr (inr (refl, refl, refl, refl)))
      | inr (decoded, e) ↦
          rw (g, e)
            (inl (
              (one_reply (elim req.path [ none ↦ codes "/" | some path ↦ path ]) decoded
                  req.query).0,
              (one_reply (elim req.path [ none ↦ codes "/" | some path ↦ path ]) decoded
                  req.query).1,
              refl,
              decoded,
              refl,
            ))
    ]
  ]

  listing_lem :
      (path decoded : Bytes) (number : ℤ) (v : Bytes) (res : List Bytes)
      → IsInt number
      → length (v ∷ res) < 2 ^ 31
      → listing get atoi reload index_path path decoded number (v ∷ res)
        ≡ page
            (codes "OK")
            (get_head path decoded ++ concat (map item (wanted number (v ∷ res))) ++ page_end)
  unfolding listing
  listing_lem path decoded number v res int small =
      ap (λ b. page (codes "OK") (get_head path decoded ++ b ++ page_end))
        (items-wanted number (v ∷ res) int small)

  http_get_lem :
      (path decoded key v : Bytes) (q : Query) (res : List Bytes)
      → q.key ≡ some key
      → key ≢ []
      → get key ≡ some (v ∷ res)
      → http_get get atoi reload index_path path decoded q
        ≡ listing get atoi reload index_path path decoded
            (asked_number get atoi reload index_path q.number)
            (v ∷ res)
  unfolding http_get missing text
  http_get_lem path decoded [] v q res k ne found = absurd (ne refl)
  http_get_lem path decoded (c ∷ s) v q res k ne found = rw (k, found) refl

  operation_lem :
      (path decoded : Bytes) (q : Query)
      → q.opt ≡ some (codes "get")
      → (http_operation get atoi reload index_path path decoded q).replies
        ≡ http_get get atoi reload index_path path decoded q ∷ []
  unfolding http_operation missing text
  operation_lem path decoded q o = rw o (unfold bytes_eq in refl)

  decoded_lem :
      (req : Request) (path decoded : Bytes)
      → req.good_uri ≡ true
      → req.path ≡ some path
      → req.decoded_path ≡ some decoded
      → process_http_cb get atoi reload index_path req
        ≡ http_operation get atoi reload index_path path decoded req.query
  unfolding process_http_cb
  decoded_lem req path decoded good p d =
      rw (good, d)
        (ap
          (λ o.
            http_operation get atoi reload index_path
              (elim o as (λ (x : Option Bytes). Bytes) [ none ↦ codes "/" | some s ↦ s ]) decoded
              req.query)
          p)

  -- For a request with a path that is decoded, the operation "get" and a key for which `Get` finds some
  -- result, if the number that is asked for is an int (10 if none is given), and the number of results
  -- too: the one reply is a page that lists, in order, as many results as are asked for, or all of them
  -- if they are fewer or the number is negative.
  pub process_http_cb-lists :
      (req : Request) (path decoded key v : Bytes) (res : List Bytes)
      → req.good_uri ≡ true
      → req.path ≡ some path
      → req.decoded_path ≡ some decoded
      → req.query.opt ≡ some (codes "get")
      → req.query.key ≡ some key
      → key ≢ []
      → get key ≡ some (v ∷ res)
      → IsInt (asked_number get atoi reload index_path req.query.number)
      → length (v ∷ res) < 2 ^ 31
      → (process_http_cb get atoi reload index_path req).replies
        ≡ page (codes "OK") (
            get_head path decoded
            ++ concat (
                map item
                  (wanted (asked_number get atoi reload index_path req.query.number) (v ∷ res)))
            ++ page_end)
          ∷ []
  process_http_cb-lists req path decoded key v res good p d o k ne found int small =
      ap (λ (x : Outcome). x.replies) (decoded_lem req path decoded good p d)
      ∙ operation_lem path decoded req.query o
      ∙ ap (λ r. r ∷ [])
          (http_get_lem path decoded key v req.query res k ne found
            ∙ listing_lem path decoded _ v res int small)
