-- ===== src/Log.antt =====
-- The log of log.cpp: a thread that writes one of two buffers to the file while messages go to the
-- other.
pub mod Buffers
pub mod Levels
pub mod Lines
use prefix_match_server.Prelude.{
  ℕ, suc, ◌+◌, ◌%◌, Bool, true, false, not, ◌&&◌, Option, none, some, List, [], ◌∷◌, ◌++◌, Bytes,
  ltb, leb, ◌==◌, if◌then◌else◌, length, take,
}

-- `struct logger`, without what only the set-up uses. A buffer is its first `buffer_wpos` bytes, and
-- `none` is the descriptor -1.
pub record Logger : Type 0 where
  pub nerror : ℕ
  pub inited : Bool
  pub fd : Option ℕ
  pub max_buffer_size : ℕ
  pub buffer_index : ℕ
  pub buffer : ℕ → Bytes

-- What `write` answers.
pub data Wrote : Type 0 where
  wrote : ℕ → Wrote
  interrupted : Wrote
  failed : Wrote

-- What the next calls of `write` answer, and what has arrived: the bytes, and of which buffer they are.
-- When the list is over, a call writes all that it is given.
pub record Disk : Type 0 where
  pub answers : List Wrote
  pub arrived : List (ℕ × Bytes)

-- `while (1)` in `my_write`, which ends at the first call that is not interrupted; `true` is 0.
unfoldable pub write_loop : ℕ → Bytes → List Wrote → List (ℕ × Bytes) → Bool × Disk
write_loop i buf [] there = (true, record { answers = []; arrived = there ++ (i, buf) ∷ [] })
write_loop i buf (wrote n ∷ answers) there =
    (true, record { answers = answers; arrived = there ++ (i, take n buf) ∷ [] })
write_loop i buf (interrupted ∷ answers) there = write_loop i buf answers there
write_loop i buf (failed ∷ answers) there = (false, record { answers = answers; arrived = there })

-- On the descriptor -1 `write` fails.
unfoldable pub my_write : Option ℕ → ℕ → Bytes → Disk → Bool × Disk
unfolding write_loop
my_write none i buf disk = (false, disk)
my_write (some fd) i buf disk = write_loop i buf disk.answers disk.arrived

-- `buffer[i]`, with `buffer_wpos[i]`, becomes the text.
unfoldable pub fill : ℕ → Bytes → Logger → Logger
fill i buf l = record l { buffer = λ j. if j == i then buf else l.buffer j }

unfoldable pub note_error : Bool → Logger → Logger
note_error ok l = if ok then l else record l { nerror = 1 }

-- `if (wpos > 0 && my_write(…) < 0) l->nerror = 1; l->buffer_wpos[index] = 0;`
unfoldable pub flush : ℕ → Logger → Disk → Logger × Disk
unfolding my_write fill note_error
flush i l disk =
    let (ok, after) = my_write l.fd i (l.buffer i) disk in
    if ltb 0 (length (l.buffer i))
    then (fill i [] (note_error ok l), after)
    else (fill i [] l, disk)

-- `_log_internal` from its lock on, with the index that it has read.
unfoldable pub log_internal : ℕ → Bytes → Logger → Disk → Logger × Disk
unfolding flush fill
log_internal i str l disk =
    if length str == 0
    then (l, disk)
    else if ltb (length (l.buffer i) + length str) l.max_buffer_size
    then (fill i (l.buffer i ++ str) l, disk)
    else let (flushed, after) = flush i l disk in (fill i str flushed, after)

-- Where the thread of `async_write` is: asleep, past the test of `nerror`, or with an index.
pub data Writer : Type 0 where
  asleep awake : Writer
  holds : ℕ → Writer

-- `if (l->nerror == 1)`: the file is closed, and what `log_open_file` returns is not kept.
unfoldable pub reopen : Bool → Logger → Logger × Writer
reopen opens l =
    if l.nerror == 1 then (record l { fd = none }, if opens then awake else asleep) else (l, awake)

-- `l->buffer_index = (l->buffer_index + 1) % 2`, with the index before.
unfoldable pub flip : Logger → Logger × Writer
flip l = (record l { buffer_index = (l.buffer_index + 1) % 2 }, holds l.buffer_index)

-- The round from there on, which `continue` skips.
unfoldable pub rest_of_round : Logger × Writer → Disk → Logger × Disk
unfolding flip flush
rest_of_round (l, asleep) disk = (l, disk)
rest_of_round (l, awake) disk = flush l.buffer_index (flip l).0 disk
rest_of_round (l, holds i) disk = (l, disk)

-- A round of `async_write`.
unfoldable pub async_write : Bool → Logger → Disk → Logger × Disk
unfolding reopen rest_of_round
async_write opens l disk = rest_of_round (reopen opens l) disk

abbrev pub log_max_len : ℕ
log_max_len = 1024

-- What `_log` hands to `_log_internal`, or an access behind the end of `buf`.
pub data Line : Type 0 where
  line : Bytes → Line
  overrun : Line

unfoldable pub ends_line : Bytes → Bool
ends_line [] = false
ends_line (c ∷ []) = c == 10
ends_line (c ∷ d ∷ s) = ends_line (d ∷ s)

-- `_log` from the two texts that `snprintf` and `vsnprintf` format and cut, whose lengths they return.
unfoldable pub log_line : Bytes → Bytes → Line
unfolding ends_line
log_line stamp msg =
    let len = length (stamp ++ msg) in
    if leb log_max_len len
    then overrun
    else if ends_line (stamp ++ msg)
    then line (stamp ++ msg)
    else if leb log_max_len (suc len)
    then overrun
    else line (stamp ++ msg ++ 10 ∷ [])

-- What becomes of a message.
pub data Logged : Type 0 where
  to_stderr : Logged
  dropped : Logged
  put : Logger → Disk → Logged
  overran : Logged

unfoldable pub log_put : Line → Logger → Disk → Logged
log_put (line str) l disk = let (m, after) = log_internal l.buffer_index str l disk in put m after
log_put overrun l disk = overran

-- `_log`
unfoldable pub log_message : Bytes → Bytes → Logger → Disk → Logged
unfolding log_put
log_message stamp msg l disk =
    if not l.inited
    then to_stderr
    else elim l.fd [ none ↦ dropped | some fd ↦ log_put (log_line stamp msg) l disk ]
