-- ===== src/Log/Buffers.antt =====
-- The threads that log beside the thread of `async_write`. A section under a buffer's lock is one step.
pub mod Content
pub mod Kept
pub mod Deaf
use prefix_match_server.Prelude.{
  refl, subst, ℕ, ◌<◌, ◌≡◌, Bool, List, [], ◌∷◌, ◌++◌, Bytes, ◌==◌, if◌then◌else◌,
}
use prefix_match_server.Log.{
  Logger, Disk, async_write, rest_of_round, Writer, asleep, awake, holds, flush, log_internal,
  reopen, flip,
}

pub record Sys : Type 0 where
  pub logger : Logger
  pub disk : Disk
  pub writer : Writer

-- A step, with the message that it logs and the buffer for it. The index that a thread has read may be
-- an older one, so it is any of the two.
pub data Step (s : Sys) : List (ℕ × Bytes) → Sys → Type 0 where
  log :
      (i : ℕ) (str : Bytes)
      → i < 2
      → Step s ((i, str) ∷ []) (record s {
        logger = (log_internal i str s.logger s.disk).0;
        disk = (log_internal i str s.logger s.disk).1;
      })
  wake :
      (opens : Bool)
      → s.writer ≡ asleep
      → Step s []
          (record s { logger = (reopen opens s.logger).0; writer = (reopen opens s.logger).1 })
  flip_index :
      s.writer ≡ awake
      → Step s [] (record s { logger = (flip s.logger).0; writer = (flip s.logger).1 })
  write_out :
      (i : ℕ)
      → s.writer ≡ holds i
      → Step s [] (record {
        logger = (flush i s.logger s.disk).0;
        disk = (flush i s.logger s.disk).1;
        writer = asleep;
      })

-- Steps, with the messages that they log.
pub data Run (s : Sys) : List (ℕ × Bytes) → Sys → Type 0 where
  start : Run s [] s
  step :
      {logged more : List (ℕ × Bytes)} {t u : Sys}
      → Run s logged t
      → Step t more u
      → Run s (logged ++ more) u

-- The bytes of one buffer.
unfoldable pub of : ℕ → List (ℕ × Bytes) → Bytes
of i [] = []
of i ((j, buf) ∷ calls) = if j == i then buf ++ of i calls else of i calls

-- A round of `async_write`, from what `reopen` leaves.
round_run :
    (opens : Bool) (s : Sys) (p : Logger × Writer)
    → s.writer ≡ asleep
    → reopen opens s.logger ≡ p
    → Run s [] (record { logger = p.0; disk = s.disk; writer = p.1 })
round_run opens s p e q =
    subst (λ p. Run s [] (record { logger = p.0; disk = s.disk; writer = p.1 })) q
      (step start (wake opens e))

rest_run :
    (opens : Bool) (s : Sys) (p : Logger × Writer)
    → s.writer ≡ asleep
    → reopen opens s.logger ≡ p
    → (w : Writer) × Run s [] (record {
      logger = (rest_of_round p s.disk).0;
      disk = (rest_of_round p s.disk).1;
      writer = w;
    })
unfolding rest_of_round
rest_run opens s (m, asleep) e q = (asleep, round_run opens s (m, asleep) e q)
rest_run opens s (m, awake) e q = (
  asleep,
  step (step (round_run opens s (m, awake) e q) (flip_index refl))
      (write_out m.buffer_index (unfold flip in refl)),
)
rest_run opens s (m, holds i) e q = (holds i, round_run opens s (m, holds i) e q)

-- A round of `async_write` that no other thread disturbs is a run.
pub async_write-Run :
    (opens : Bool) (s : Sys)
    → s.writer ≡ asleep
    → (w : Writer) × Run s [] (record {
      logger = (async_write opens s.logger s.disk).0;
      disk = (async_write opens s.logger s.disk).1;
      writer = w;
    })
unfolding async_write
async_write-Run opens s e = rest_run opens s (reopen opens s.logger) e refl
