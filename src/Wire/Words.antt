-- ===== src/Wire/Words.antt =====
-- `uint32_t` in memory, `htons`, `htonl` and `ntohl` on a little-endian host.
use prefix_match_server.Prelude.{
  ℕ, ◌+◌, ◌*◌, ◌/◌, ◌%◌, ◌^◌, ◌<◌, ◌≡◌, ap, Option, none, some, [], ◌∷◌, ◌++◌, arith, Bytes,
}

-- `memcpy(tbuf, &n, sizeof(uint32_t))`
unfoldable pub put32 : ℕ → Bytes
put32 n = n % 256 ∷ n / 256 % 256 ∷ n / 65536 % 256 ∷ n / 16777216 % 256 ∷ []

-- `*(uint32_t *)p` with the bytes behind it; `none` is a read behind the end of the buffer.
unfoldable pub get32 : Bytes → Option (ℕ × Bytes)
get32 (a ∷ b ∷ c ∷ d ∷ rest) = some (a + b * 256 + c * 65536 + d * 16777216, rest)
get32 _ = none

-- `htons` and `htonl` swap the bytes.
unfoldable pub htons : ℕ → ℕ
htons n = n % 256 * 256 + n / 256 % 256

unfoldable pub htonl : ℕ → ℕ
htonl n = n % 256 * 16777216 + n / 256 % 256 * 65536 + n / 65536 % 256 * 256 + n / 16777216 % 256

pub get32-put32 : (n : ℕ) (rest : Bytes) → n < 2 ^ 32 → get32 (put32 n ++ rest) ≡ some (n, rest)
unfolding get32 put32
get32-put32 n rest h = ap (λ k. some (k, rest)) (omega arith)

pub htonl_twice : (n : ℕ) → n < 2 ^ 32 → htonl (htonl n) ≡ n
unfolding htonl
htonl_twice n h = omega arith
