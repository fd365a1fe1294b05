-- ===== src/Net/Sndbuf.antt =====
-- `maximize_sndbuf` of network.cpp.
pub mod Search
use prefix_match_server.Prelude.{
  ℕ, zero, suc, ◌+◌, ◌-◌, ◌*◌, ◌/◌, Bool, Option, none, some, ltb, if◌then◌else◌,
}

-- `MAX_SENDBUF_SIZE`
abbrev pub max_sendbuf_size : ℕ
max_sendbuf_size = 256 * 1024 * 1024

-- `while (min <= max)`, on fuel, with the last size that was set: `accepts` is whether `setsockopt`
-- takes a size. The third number is `max + 1`, since `max` may become -1; `none` is a loop that has
-- not come to an end.
unfoldable pub size_loop : (ℕ → Bool) → ℕ → ℕ → ℕ → ℕ → Option ℕ
size_loop accepts zero min limit last_good = if ltb min limit then none else some last_good
size_loop accepts (suc fuel) min limit last_good =
    let avg = (min + (limit - 1)) / 2 in
    let higher = size_loop accepts fuel (avg + 1) limit avg in
    let lower = size_loop accepts fuel min avg last_good in
    if ltb min limit then if accepts avg then higher else lower else some last_good

-- The size that is set for a buffer of `old_size` bytes, 0 for none, in at most 29 rounds. If
-- `getsockopt` fails, none is looked for.
unfoldable pub maximize_sndbuf : (ℕ → Bool) → Option ℕ → Option ℕ
unfolding size_loop
maximize_sndbuf accepts none = some 0
maximize_sndbuf accepts (some old_size) = size_loop accepts 29 old_size (max_sendbuf_size + 1) 0
