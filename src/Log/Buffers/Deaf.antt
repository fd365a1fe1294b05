-- ===== src/Log/Buffers/Deaf.antt =====
-- The log after a failed write.
use prefix_match_server.Prelude.{
  ℕ, ◌+◌, ◌≡◌, refl, ◌∙◌, Bool, none, List, Bytes, ltb, ◌==◌, length, Bool-cases, inl, inr,
}
use prefix_match_server.Log.{
  Logger, Disk, my_write, fill, note_error, flush, log_internal, reopen, flip,
}
use prefix_match_server.Log.Buffers.{Sys, Step, log, wake, flip_index, write_out, Run, start, step}

-- Without a descriptor, nothing arrives.
flush_deaf :
    (i : ℕ) (l : Logger) (disk : Disk)
    → l.fd ≡ none
    → ((flush i l disk).0.fd ≡ none) × ((flush i l disk).1 ≡ disk)
unfolding flush my_write fill note_error
flush_deaf i l disk e = elim (Bool-cases (ltb 0 (length (l.buffer i)))) [
  | inl b ↦ rw (b, e) (refl, refl)
  | inr b ↦ rw b (e, refl)
]

log_deaf :
    (i : ℕ) (str : Bytes) (l : Logger) (disk : Disk)
    → l.fd ≡ none
    → ((log_internal i str l disk).0.fd ≡ none) × ((log_internal i str l disk).1 ≡ disk)
unfolding log_internal fill
log_deaf i str l disk e = elim (Bool-cases (length str == 0)) [
  | inl b ↦ rw b (e, refl)
  | inr b ↦ rw b (elim (Bool-cases (ltb (length (l.buffer i) + length str) l.max_buffer_size)) [
    | inl c ↦ rw c (e, refl)
    | inr c ↦ rw c (flush_deaf i l disk e)
  ])
]

reopen_deaf : (opens : Bool) (l : Logger) → l.fd ≡ none → (reopen opens l).0.fd ≡ none
unfolding reopen
reopen_deaf opens l e = elim (Bool-cases (l.nerror == 1)) [ inl b ↦ rw b refl | inr b ↦ rw b e ]

-- Neither the descriptor nor the file changes.
Deaf : Sys → Sys → Type 0
Deaf s u = (u.logger.fd ≡ none) × (u.disk ≡ s.disk)

Step-Deaf : {s u : Sys} {ms : List (ℕ × Bytes)} → s.logger.fd ≡ none → Step s ms u → Deaf s u
unfolding Deaf
Step-Deaf {s} e (log i str lt) = log_deaf i str s.logger s.disk e
Step-Deaf {s} e (wake opens w) = (reopen_deaf opens s.logger e, refl)
Step-Deaf {s} e (flip_index w) = (unfold flip in e, refl)
Step-Deaf {s} e (write_out i w) = flush_deaf i s.logger s.disk e

Run-Deaf : {s u : Sys} {ms : List (ℕ × Bytes)} → s.logger.fd ≡ none → Run s ms u → Deaf s u
unfolding Deaf
Run-Deaf e start = (e, refl)
Run-Deaf e (step r x) = let (f, d) = Run-Deaf e r in let (g, c) = Step-Deaf f x in (g, c ∙ d)

-- From the wake-up on at which the thread of `async_write` finds that a write has failed, and whether
-- or not the file opens again then: whatever the threads do and log from there on, nothing more
-- arrives in the file.
pub reopen-deaf :
    (opens : Bool) (s u : Sys) (logged : List (ℕ × Bytes))
    → s.logger.nerror ≡ 1
    → Run
        (record s { logger = (reopen opens s.logger).0; writer = (reopen opens s.logger).1 })
        logged
        u
    → u.disk ≡ s.disk
unfolding Deaf
reopen-deaf opens s u logged e r = (Run-Deaf closed r).1
  where
    closed : (reopen opens s.logger).0.fd ≡ none
    closed = unfold reopen in rw e refl
