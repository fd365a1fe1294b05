-- ===== src/Wire/Response.antt =====
-- The response: the body that `complete_nread` builds, the header of `add_bin_header`, and the
-- client's loop over a body.
pub mod RoundTrip
use prefix_match_server.Prelude.{
  ℕ, zero, suc, ◌+◌, ◌%◌, ◌^◌, Bool, Option, none, some, List, [], ◌∷◌, ◌++◌, Bytes, ltb, leb, ◌||◌,
  ◌==◌, if◌then◌else◌, length, take, drop,
}
use prefix_match_server.Wire.Words.{put32, get32, htons, htonl}

-- `DEFAULT_GET_NUMBER`
abbrev pub default_get_number : ℕ
default_get_number = 10

-- The count that goes out, for the count asked for.
unfoldable pub reply_number : ℕ → ℕ → ℕ
reply_number number size =
    let n = if number == 0 then default_get_number else number in if ltb size n then size else n

-- The loop that adds up `rlen`, from the size of the count.
unfoldable pub reply_length : List Bytes → ℕ → ℕ
reply_length [] rlen = rlen
reply_length (v ∷ res) rlen = reply_length res (rlen + 4 + length v)

-- The loop over the results: the length of each (a `uint32_t`) and its bytes.
unfoldable pub put_results : List Bytes → Bytes
put_results [] = []
put_results (v ∷ res) = put32 (length v % 2 ^ 32) ++ (v ++ put_results res)

-- What is written to `resp_buf`, for the count asked for.
unfoldable pub response_body : ℕ → List Bytes → Bytes
unfolding put_results
response_body number res = put32 (reply_number number (length res)) ++ put_results res

-- `add_bin_header`: magic, status, two bytes of padding as they stand in `wbuf`, and the length in
-- network order. The status is cut down to a `uint8_t`.
unfoldable pub response_header : ℕ → ℕ → Bytes → Bytes
response_header err body_len padding =
    0x81 ∷ (htons err % 256) ∷ [] ++ (take 2 padding ++ put32 (htonl body_len))

-- `char buffer[8096]` of the client.
abbrev pub client_buffer : ℕ
client_buffer = 8096

-- The client's loop: `number` entries are read off the body. `none` is a read behind its end, or a text
-- that leaves no room for a NUL in the buffer that it is copied to and printed from.
unfoldable pub client_entries : ℕ → Bytes → Option (List Bytes)
client_entries zero body = some []
client_entries (suc n) body = elim (get32 body) [
  | none ↦ none
  | some (len, rest) ↦
      if ltb (length rest) len || leb client_buffer len
      then none
      else elim (client_entries n (drop len rest)) [
        | none ↦ none
        | some vs ↦ some (take len rest ∷ vs)
      ]
]

unfoldable pub client_read : Bytes → Option (List Bytes)
unfolding client_entries
client_read body = elim (get32 body) [
  | none ↦ none
  | some (number, rest) ↦ client_entries number rest
]
