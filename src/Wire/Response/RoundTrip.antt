-- ===== src/Wire/Response/RoundTrip.antt =====
-- The response that the server writes and the client reads.
use prefix_match_server.Prelude.{
  ℕ, zero, suc, ◌+◌, ◌%◌, ◌^◌, ◌≤◌, ◌<◌, ◌≡◌, refl, sym, ap, ◌∙◌, some, List, [], ◌∷◌, ◌++◌, arith,
  Bytes, ltb, leb, false, ◌==◌, if◌then◌else◌, le→ltb, length, take, All, length-append,
  take-length_append, drop-length_append, take_all, Bool-cases, tests, inl, inr,
}
use prefix_match_server.Wire.Words.{put32, htons, get32-put32}
use prefix_match_server.Wire.Response.{
  client_buffer, default_get_number, reply_number, reply_length, put_results, response_body,
  response_header, client_entries, client_read,
}

-- Every text has room in the client's buffer, with a NUL behind it.
abbrev pub Short : List Bytes → Type 0
Short res = All (λ (v : Bytes). length v < client_buffer) res

small_mod : (n : ℕ) → n < 2 ^ 32 → n % 2 ^ 32 ≡ n
small_mod n h = omega arith

fits_buffer : (n : ℕ) → n < client_buffer → leb client_buffer n ≡ false
fits_buffer n h = ground arith

entries_lem :
    (n : ℕ) (res : List Bytes)
    → n ≤ length res
    → Short res
    → client_entries n (put_results res) ≡ some (take n res)
unfolding client_entries put_results
entries_lem zero res h s = refl
entries_lem (suc n) [] h s = absurd (omega arith)
entries_lem (suc n) (v ∷ res) h s = rw (
  small_mod (length v) (omega (arith, s.0)),
  get32-put32 (length v) (v ++ put_results res) (omega (arith, s.0)),
  client_entries,
  le→ltb (length (v ++ put_results res)) (length v)
      (omega (arith, length-append v (put_results res))),
  fits_buffer (length v) s.0,
  drop-length_append v (put_results res),
  entries_lem n res (omega arith) s.1,
  take-length_append v (put_results res),
)

reply_number-le : (number size : ℕ) → reply_number number size ≤ size
unfolding reply_number
reply_number-le number size = ground arith

clip-take :
    (n : ℕ) (res : List Bytes)
    → take (if ltb (length res) n then length res else n) res ≡ take n res
clip-take n res = elim (Bool-cases (ltb (length res) n)) [
  | inl e ↦ rw e (take_all res (length res) (omega arith) ∙ sym (take_all res n (omega (tests))))
  | inr e ↦ rw e refl
]

-- If fewer than 2 ^ 32 results, each shorter than 8096 bytes, go into a body, the client reads from it
-- as many of them, in order, as were asked for (10 for 0), or all of them if they are fewer.
pub client_read-response_body :
    (number : ℕ) (res : List Bytes)
    → length res < 2 ^ 32
    → Short res
    → client_read (response_body number res)
      ≡ some (take (if number == 0 then default_get_number else number) res)
unfolding client_read response_body
client_read-response_body number res h s =
    rw
      (
        get32-put32 (reply_number number (length res)) (put_results res)
            (omega (arith, reply_number-le number (length res))),
        client_read,
      )
      (entries_lem _ res (reply_number-le number (length res)) s
        ∙ ap some (unfold reply_number in clip-take _ res))

-- `rlen` counts the bytes of the results.
length-put_results :
    (res : List Bytes) (rlen : ℕ) → reply_length res rlen ≡ rlen + length (put_results res)
unfolding reply_length put_results put32
length-put_results [] rlen = omega arith
length-put_results (v ∷ res) rlen =
    omega (arith, length-put_results res (rlen + 4 + length v), length-append v (put_results res))

-- The length that `complete_nread` adds up, for the buffer and the header, is that of the body that
-- it writes, for every count and all results.
pub reply_length-response_body :
    (number : ℕ) (res : List Bytes) → reply_length res 4 ≡ length (response_body number res)
unfolding response_body put32
reply_length-response_body number res = omega (arith, length-put_results res 4)

-- A status below 256, such as that of an error, is always sent as 0, the status of success.
pub response_header_status :
    (err body_len : ℕ) (padding : Bytes)
    → err < 256
    → take 2 (response_header err body_len padding) ≡ 0x81 ∷ 0 ∷ []
unfolding response_header htons
response_header_status err body_len padding h = ap (λ k. 0x81 ∷ k ∷ []) (omega arith)
