-- ===== src/Log/Buffers/Kept.antt =====
-- The log while writes do not fail.
use prefix_match_server.Prelude.{
  ℕ, ◌+◌, ◌≡◌, ◌≢◌, ◌⊎◌, refl, sym, ap, ◌∙◌, subst, Bool, true, false, Option, none, some, List, [],
  ◌∷◌, ◌++◌, append-nil, append_assoc, arith, Bytes, ltb, ◌==◌, length, All, Bool-cases, inl, inr,
}
use prefix_match_server.Log.{
  Logger, Wrote, interrupted, Disk, write_loop, my_write, fill, note_error, flush, log_internal,
  reopen, flip,
}
use prefix_match_server.Log.Buffers.Content.{
  of-append, whole, written, whole-written, whole-added, refill, of_empty,
}
use prefix_match_server.Log.Buffers.{
  Sys, Step, log, wake, flip_index, write_out, Run, start, step, of,
}

-- The file is open, and calls of `write` are interrupted at most.
pub record Open (l : Logger) (disk : Disk) : Type 0 where
  pub fd : l.fd ≢ none
  pub nerror : l.nerror ≢ 1
  pub answers : All (λ w. w ≡ interrupted) disk.answers

write_loop-All :
    (i : ℕ) (buf : Bytes) (answers : List Wrote) (there : List (ℕ × Bytes))
    → All (λ w. w ≡ interrupted) answers
    → write_loop i buf answers there
      ≡ (true, record { answers = []; arrived = there ++ (i, buf) ∷ [] })
unfolding write_loop
write_loop-All i buf [] there h = refl
write_loop-All i buf (w ∷ answers) there h = rw h.0 (write_loop-All i buf answers there h.1)

my_write-Open :
    (fd : Option ℕ) (i : ℕ) (buf : Bytes) (disk : Disk)
    → fd ≢ none
    → All (λ w. w ≡ interrupted) disk.answers
    → my_write fd i buf disk
      ≡ (true, record { answers = []; arrived = disk.arrived ++ (i, buf) ∷ [] })
unfolding my_write
my_write-Open none i buf disk ne h = absurd (ne refl)
my_write-Open (some fd) i buf disk ne h = write_loop-All i buf disk.answers disk.arrived h

-- A section that keeps the file open and puts the messages behind what there is.
record Puts (l : Logger) (disk : Disk) (ms : List (ℕ × Bytes)) (m : Logger) (after : Disk)
    : Type 0 where
  open_still : Open m after
  bytes : (j : ℕ) → whole j m after ≡ whole j l disk ++ of j ms
  size : m.max_buffer_size ≡ l.max_buffer_size

flush-Open :
    (i : ℕ) (l : Logger) (disk : Disk)
    → Open l disk
    → ((l.buffer i ≡ []) × (flush i l disk ≡ (fill i [] l, disk)))
      ⊎ (flush i l disk ≡ (fill i [] l, written i (l.buffer i) disk))
unfolding flush note_error written
flush-Open i l disk o = elim (Bool-cases (ltb 0 (length (l.buffer i)))) [
  | inl b ↦ inr (rw (b, my_write-Open l.fd i (l.buffer i) disk o.fd o.answers) refl)
  | inr b ↦ inl (empty (l.buffer i) b, rw b refl)
]
  where
    empty : (buf : Bytes) → ltb 0 (length buf) ≡ false → buf ≡ []
    empty [] e = refl
    empty (c ∷ buf) e = absurd (ground arith)

Open-fill :
    (i : ℕ) (buf : Bytes) (l : Logger) (disk : Disk) → Open l disk → Open (fill i buf l) disk
unfolding fill
Open-fill i buf l disk o = record { fd = o.fd; nerror = o.nerror; answers = o.answers }

Open-written :
    (i : ℕ) (buf : Bytes) (l : Logger) (disk : Disk) → Open l disk → Open l (written i buf disk)
unfolding written
Open-written i buf l disk o = record { fd = o.fd; nerror = o.nerror; answers = tt }

size-fill : (i : ℕ) (buf : Bytes) (l : Logger) → (fill i buf l).max_buffer_size ≡ l.max_buffer_size
unfolding fill
size-fill i buf l = refl

-- The two ways in which `flush` leaves off.
flush-Puts :
    (i : ℕ) (l : Logger) (disk : Disk)
    → Open l disk
    → Puts l disk [] (flush i l disk).0 (flush i l disk).1
unfolding of
flush-Puts i l disk o = elim (flush-Open i l disk o) [
  | inl (z, e) ↦
      subst (λ p. Puts l disk [] p.0 p.1) (sym e)
        (record {
          open_still = Open-fill i [] l disk o;
          bytes = λ j.
              ap (λ buf. whole j (fill i (buf ++ []) l) disk) (sym z)
              ∙ whole-added j i [] l disk
              ∙ ap (λ x. whole j l disk ++ x) (of_empty j i);
          size = size-fill i [] l;
        })
  | inr e ↦
      subst (λ p. Puts l disk [] p.0 p.1) (sym e)
        (record {
          open_still = Open-written i (l.buffer i) (fill i [] l) disk (Open-fill i [] l disk o);
          bytes = λ j. whole-written j i l disk ∙ sym (append-nil _);
          size = size-fill i [] l;
        })
]

-- After `flush`, the message is put into the buffer that it emptied.
flushed_then :
    (i : ℕ) (str : Bytes) (l : Logger) (disk : Disk)
    → Open l disk
    → Puts l disk ((i, str) ∷ []) (fill i str (flush i l disk).0) (flush i l disk).1
flushed_then i str l disk o =
    let p = flush-Puts i l disk o in
    record {
      open_still = Open-fill i str _ _ p.open_still;
      bytes = λ j.
          again j ∙ ap (λ x. x ++ of j ((i, str) ∷ [])) (p.bytes j ∙ unfold of in append-nil _);
      size = size-fill i str _ ∙ p.size;
    }
  where
    again :
        (j : ℕ)
        → whole j (fill i str (flush i l disk).0) (flush i l disk).1
          ≡ whole j (flush i l disk).0 (flush i l disk).1 ++ of j ((i, str) ∷ [])
    again j = elim (flush-Open i l disk o) [
      | inl (_, e) ↦ rw e (refill i str l disk j)
      | inr e ↦ rw e (refill i str l (written i (l.buffer i) disk) j)
    ]

log_internal-Puts :
    (i : ℕ) (str : Bytes) (l : Logger) (disk : Disk)
    → Open l disk
    → Puts l disk ((i, str) ∷ []) (log_internal i str l disk).0 (log_internal i str l disk).1
unfolding log_internal
log_internal-Puts i str l disk o = elim (Bool-cases (length str == 0)) [
  | inl b ↦ rw b (record {
    open_still = o;
    bytes = λ j.
        sym (append-nil _)
        ∙ ap (λ x. whole j l disk ++ x) (sym (of_empty j i))
        ∙ ap (λ s. whole j l disk ++ of j ((i, s) ∷ [])) (sym (none_there str b));
    size = refl;
  })
  | inr b ↦ rw b (elim (Bool-cases (ltb (length (l.buffer i) + length str) l.max_buffer_size)) [
    | inl c ↦ rw c (record {
      open_still = Open-fill i (l.buffer i ++ str) l disk o;
      bytes = λ j. whole-added j i str l disk;
      size = size-fill i (l.buffer i ++ str) l;
    })
    | inr c ↦ rw c (flushed_then i str l disk o)
  ])
]
  where
    none_there : (str : Bytes) → (length str == 0) ≡ true → str ≡ []
    none_there [] e = refl
    none_there (c ∷ str) e = absurd (ground arith)

reopen-Puts :
    (opens : Bool) (l : Logger) (disk : Disk) → Open l disk → Puts l disk [] (reopen opens l).0 disk
unfolding reopen of
reopen-Puts opens l disk o =
    let e : (l.nerror == 1) ≡ false = ground (arith, o.nerror) in
    rw e (record { open_still = o; bytes = λ j. sym (append-nil _); size = refl })

flip-Puts : (l : Logger) (disk : Disk) → Open l disk → Puts l disk [] (flip l).0 disk
unfolding flip whole of
flip-Puts l disk o = record {
  open_still = record { fd = o.fd; nerror = o.nerror; answers = o.answers };
  bytes = λ j. sym (append-nil _);
  size = refl;
}

Step-Puts :
    {s u : Sys} {ms : List (ℕ × Bytes)}
    → Open s.logger s.disk
    → Step s ms u
    → Puts s.logger s.disk ms u.logger u.disk
Step-Puts {s} o (log i str lt) = log_internal-Puts i str s.logger s.disk o
Step-Puts {s} o (wake opens w) = reopen-Puts opens s.logger s.disk o
Step-Puts {s} o (flip_index w) = flip-Puts s.logger s.disk o
Step-Puts {s} o (write_out i w) = flush-Puts i s.logger s.disk o

Run-Puts :
    {s u : Sys} {ms : List (ℕ × Bytes)}
    → Open s.logger s.disk
    → Run s ms u
    → Puts s.logger s.disk ms u.logger u.disk
unfolding of
Run-Puts {s} o start = record { open_still = o; bytes = λ j. sym (append-nil _); size = refl }
Run-Puts {s} o (step {logged} {more} r x) =
    let p = Run-Puts o r in
    let q = Step-Puts p.open_still x in
    record {
      open_still = q.open_still;
      bytes = λ j.
          q.bytes j
          ∙ ap (λ z. z ++ of j more) (p.bytes j)
          ∙ append_assoc (whole j s.logger s.disk) (of j logged) (of j more)
          ∙ ap (λ z. whole j s.logger s.disk ++ z) (sym (of-append j logged more));
      size = q.size ∙ p.size;
    }

-- If the file is open and calls of `write` are interrupted at most: in every interleaving of threads
-- that log with the thread of `async_write`, what has arrived of each buffer and what stands in it are,
-- in order, those from before and the messages logged to it; none is lost, repeated or torn.
pub Run-keeps :
    (s u : Sys) (logged : List (ℕ × Bytes)) (j : ℕ)
    → Open s.logger s.disk
    → Run s logged u
    → of j u.disk.arrived ++ u.logger.buffer j
      ≡ (of j s.disk.arrived ++ s.logger.buffer j) ++ of j logged
unfolding whole
Run-keeps s u logged j o r = (Run-Puts o r).bytes j
