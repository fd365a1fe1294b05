-- ===== src/Tests/Logging.antt =====
-- The theorems on the log at concrete states.
use prefix_match_server.Prelude.{
  suc, ◌≤◌, ◌<◌, ◌≡◌, ◌⊎◌, refl, true, some, [], ◌∷◌, ◌++◌, Bytes, length, arith, codes,
}
use prefix_match_server.Log.{
  Logger, interrupted, Disk, asleep, awake, log_internal, reopen, async_write, Line, line, overrun,
  ends_line, log_line, log_max_len, put, log_message,
}
use prefix_match_server.Log.Lines.{log_line-Line}
use prefix_match_server.Log.Buffers.{Sys, log, Run, start, step, of}
use prefix_match_server.Log.Buffers.Kept.{Open, Run-keeps}
use prefix_match_server.Log.Buffers.Deaf.{reopen-deaf}

-- Three bytes stand in buffer 0, and the next write is interrupted.
abbrev logger : Logger
logger = record {
  nerror = 0;
  inited = true;
  fd = some 4;
  max_buffer_size = 8;
  buffer_index = 0;
  buffer = λ i. 1 ∷ 2 ∷ 3 ∷ [];
}

abbrev disk : Disk
disk = record { answers = interrupted ∷ []; arrived = (1, 9 ∷ []) ∷ [] }

abbrev at_first : Sys
at_first = record { logger = logger; disk = disk; writer = asleep }

logger-Open : Open logger disk
logger-Open = record { fd = λ e. cc; nerror = λ e. absurd (omega arith); answers = (refl, tt) }

abbrev logged_five : Sys
logged_five = record at_first {
  logger = (log_internal 0 (5 ∷ 6 ∷ 7 ∷ 8 ∷ 10 ∷ []) logger disk).0;
  disk = (log_internal 0 (5 ∷ 6 ∷ 7 ∷ 8 ∷ 10 ∷ []) logger disk).1;
}

-- The message does not fit behind what is in the buffer, so that is written first.
logged_five-arrived : logged_five.disk.arrived ≡ (1, 9 ∷ []) ∷ (0, 1 ∷ 2 ∷ 3 ∷ []) ∷ []
unfolding log_internal prefix_match_server.Log.write_loop
logged_five-arrived = refl

five_run : Run at_first ((0, 5 ∷ 6 ∷ 7 ∷ 8 ∷ 10 ∷ []) ∷ []) logged_five
five_run = step start (log 0 (5 ∷ 6 ∷ 7 ∷ 8 ∷ 10 ∷ []) (omega arith))

Run-keeps_example :
    of 0 logged_five.disk.arrived ++ logged_five.logger.buffer 0
    ≡ (of 0 disk.arrived ++ logger.buffer 0) ++ of 0 ((0, 5 ∷ 6 ∷ 7 ∷ 8 ∷ 10 ∷ []) ∷ [])
Run-keeps_example =
    Run-keeps at_first logged_five ((0, 5 ∷ 6 ∷ 7 ∷ 8 ∷ 10 ∷ []) ∷ []) 0 logger-Open five_run

-- A write has failed, and the file opens again.
abbrev after_error : Sys
after_error = record at_first { logger = record logger { nerror = 1 } }

abbrev reopened : Sys
reopened = record after_error {
  logger = (reopen true after_error.logger).0;
  writer = (reopen true after_error.logger).1;
}

abbrev reopened_five : Sys
reopened_five = record reopened {
  logger = (log_internal 0 (5 ∷ 6 ∷ 7 ∷ 8 ∷ 10 ∷ []) reopened.logger disk).0;
  disk = (log_internal 0 (5 ∷ 6 ∷ 7 ∷ 8 ∷ 10 ∷ []) reopened.logger disk).1;
}

reopen-deaf_example : reopened_five.disk ≡ disk
reopen-deaf_example =
    reopen-deaf true after_error reopened_five ((0, 5 ∷ 6 ∷ 7 ∷ 8 ∷ 10 ∷ []) ∷ []) refl
      (step start (log 0 (5 ∷ 6 ∷ 7 ∷ 8 ∷ 10 ∷ []) (omega arith)))

log_line-Line_example :
    ((t : Bytes) × (log_line (codes "[a] ") (codes "b") ≡ line t)
      × (ends_line t ≡ true)
      × ((t ≡ codes "[a] " ++ codes "b") ⊎ (t ≡ codes "[a] " ++ codes "b" ++ 10 ∷ []))
      × (length t < log_max_len))
    ⊎ ((log_line (codes "[a] ") (codes "b") ≡ overrun)
        × (log_max_len ≤ suc (length (codes "[a] " ++ codes "b"))))
log_line-Line_example = log_line-Line (codes "[a] ") (codes "b")
