-- ===== src/Index/Reload/Single.antt =====
-- Reloads by one thread, beside any number of readers.
use prefix_match_server.Prelude.{
  ltb, ◌&&◌, ◌^◌, Bool-cases, ℕ, ◌==◌, ◌≡◌, ◌≢◌, refl, sym, ap, ◌∙◌, ◌⊎◌, inl, inr, true, false,
  arith, subst,
}
use prefix_match_server.Index.Reload.{
  Live, deinit_index, Pc, idle, reading, copied, passed, claimed, loaded, writing, switched,
  released, Sys, go, NoReader, Step, lock_read, unlock_read, copy_index, find_reloading, find_free,
  set_reloading, load, fail_load, lock_write, switch, release, reset, Reach, start, step,
}
use prefix_match_server.Index.Reload.Loads.{
  same_or, map_at-other, live-ne, Maps, init_index-Maps, stays,
}

-- Where the thread that reloads is, the mapping that it is to release is still the index, or is no
-- longer; and the new one is in place.
abbrev PcOk : Sys → Pc → Type 0
PcOk s idle = Unit {0}
PcOk s (reading m) = Unit {0}
PcOk s (copied p) = p ≡ s.index
PcOk s (passed p) = p ≡ s.index
PcOk s (claimed p) = p ≡ s.index
PcOk s (loaded p n) = (p ≡ s.index) × (s.live n ≡ true) × (n ≢ s.index)
PcOk s (writing p n) = (p ≡ s.index) × (s.live n ≡ true) × (n ≢ s.index) × NoReader s.threads
PcOk s (switched p) = p ≢ s.index
PcOk s released = Unit {0}

-- A thread that only reads.
abbrev pub Reads : Pc → Type 0
Reads idle = Unit {0}
Reads (reading m) = Unit {0}
Reads (copied p) = ⊥
Reads (passed p) = ⊥
Reads (claimed p) = ⊥
Reads (loaded p n) = ⊥
Reads (writing p n) = ⊥
Reads (switched p) = ⊥
Reads released = ⊥

-- The index is in place, a reader reads it, and all threads but one only read.
pub record Guarded (r : ℕ) (s : Sys) : Type 0 where
  pub in_place : s.live s.index ≡ true
  pub readers : (t m : ℕ) → s.threads t ≡ reading m → m ≡ s.index
  pub reloader : PcOk s (s.threads r)
  pub others : (t : ℕ) → t ≢ r → Reads (s.threads t)

pub go_self : (f : ℕ → Pc) (t : ℕ) (pc : Pc) → go f t pc t ≡ pc
unfolding go
go_self f t pc = let e : (t == t) ≡ true = ground arith in rw e refl

pub go-other : (f : ℕ → Pc) (t : ℕ) (pc : Pc) (u : ℕ) → u ≢ t → go f t pc u ≡ f u
unfolding go
go-other f t pc u ne = let e : (u == t) ≡ false = ground arith in rw e refl

-- A reader after a thread has moved.
pub go-reading :
    (f : ℕ → Pc) (t : ℕ) (pc : Pc) (u m : ℕ)
    → go f t pc u ≡ reading m
    → ((u ≡ t) × (pc ≡ reading m)) ⊎ (f u ≡ reading m)
go-reading f t pc u m h = elim (same_or u t) [
  | inl e ↦ inl (e, sym (go_self f t pc) ∙ ap (go f t pc) (sym e) ∙ h)
  | inr ne ↦ inr (sym (go-other f t pc u ne) ∙ h)
]

-- The readers, if the index stays and the thread that moves does not come to read.
readers-go :
    (s : Sys) (t : ℕ) (pc : Pc) (i : ℕ)
    → ((u m : ℕ) → s.threads u ≡ reading m → m ≡ i)
    → ((m : ℕ) → pc ≡ reading m → m ≡ i)
    → (u m : ℕ) → go s.threads t pc u ≡ reading m
    → m ≡ i
readers-go s t pc i h k u m e = elim (go-reading s.threads t pc u m e) [
  | inl (_, r) ↦ k m r
  | inr r ↦ h u m r
]

others-go :
    (r : ℕ) (s : Sys) (t : ℕ) (pc : Pc)
    → ((u : ℕ) → u ≢ r → Reads (s.threads u))
    → (t ≢ r → Reads pc)
    → (u : ℕ) → u ≢ r
    → Reads (go s.threads t pc u)
others-go r s t pc h k u ne = elim (same_or u t) [
  | inl e ↦
      subst Reads (sym (ap (go s.threads t pc) e ∙ go_self s.threads t pc)) (k (λ z. ne (e ∙ z)))
  | inr d ↦ subst Reads (sym (go-other s.threads t pc u d)) (h u ne)
]

-- A step of the thread that reloads.
own_step :
    (r : ℕ) (s u : Sys) (t : ℕ) (pc : Pc)
    → t ≡ r
    → Guarded r s
    → u.threads ≡ go s.threads t pc
    → u.live u.index ≡ true
    → ((v m : ℕ) → s.threads v ≡ reading m → m ≡ u.index)
    → ((m : ℕ) → pc ≢ reading m)
    → PcOk u pc
    → Guarded r u
own_step r s u t pc e g th alive rd mute ok = record {
  in_place = alive;
  readers = λ v m x.
      readers-go s t pc u.index rd (λ k y. absurd (mute k y)) v m (sym (ap (λ f. f v) th) ∙ x);
  reloader =
      subst (PcOk u)
        (sym (ap (λ f. f r) th ∙ ap (go s.threads t pc) (sym e) ∙ go_self s.threads t pc)) ok;
  others = λ v ne.
      subst Reads (sym (ap (λ f. f v) th)) (others-go r s t pc g.others (λ d. absurd (d e)) v ne);
}

-- A step of a reader.
reader_step :
    (r : ℕ) (s u : Sys) (t : ℕ) (pc : Pc)
    → Guarded r s
    → Reads pc
    → u.threads ≡ go s.threads t pc
    → u.index ≡ s.index
    → u.live ≡ s.live
    → ((m : ℕ) → pc ≡ reading m → m ≡ s.index)
    → ((p n : ℕ) → s.threads r ≡ writing p n → NoReader u.threads)
    → Guarded r u
reader_step r s u t pc g reads th ix lv rd nr = record {
  in_place = ap u.live ix ∙ ap (λ l. l s.index) lv ∙ g.in_place;
  readers =
      λ v m x. readers-go s t pc s.index g.readers rd v m (sym (ap (λ f. f v) th) ∙ x) ∙ sym ix;
  reloader = at_reloader;
  others =
      λ v ne. subst Reads (sym (ap (λ f. f v) th)) (others-go r s t pc g.others (λ _. reads) v ne);
}
  where
    moved : (pc : Pc) → Reads pc → PcOk u pc
    moved idle h = tt
    moved (reading m) h = tt
    moved (copied p) h = absurd h
    moved (passed p) h = absurd h
    moved (claimed p) h = absurd h
    moved (loaded p n) h = absurd h
    moved (writing p n) h = absurd h
    moved (switched p) h = absurd h
    moved released h = absurd h

    kept : (pc : Pc) → ((p n : ℕ) → pc ≡ writing p n → NoReader u.threads) → PcOk s pc → PcOk u pc
    kept idle k h = tt
    kept (reading m) k h = tt
    kept (copied p) k h = h ∙ sym ix
    kept (passed p) k h = h ∙ sym ix
    kept (claimed p) k h = h ∙ sym ix
    kept (loaded p n) k (a, b, c) = (a ∙ sym ix, ap (λ l. l n) lv ∙ b, λ e. c (e ∙ ix))
    kept (writing p n) k (a, b, c, d) =
        (a ∙ sym ix, ap (λ l. l n) lv ∙ b, λ e. c (e ∙ ix), k p n refl)
    kept (switched p) k h = λ e. h (e ∙ ix)
    kept released k h = tt

    at_reloader : PcOk u (u.threads r)
    at_reloader = elim (same_or r t) [
      | inl e ↦
          subst (PcOk u)
            (sym (ap (λ f. f r) th ∙ ap (go s.threads t pc) e ∙ go_self s.threads t pc))
            (moved pc reads)
      | inr ne ↦
          subst (PcOk u) (sym (ap (λ f. f r) th ∙ go-other s.threads t pc r ne))
            (kept (s.threads r) nr g.reloader)
    ]

pub NoReader-go :
    (f : ℕ → Pc) (t : ℕ) (pc : Pc) → NoReader f → ((m : ℕ) → pc ≢ reading m) → NoReader (go f t pc)
NoReader-go f t pc h mute u m e = elim (go-reading f t pc u m e) [
  | inl (_, x) ↦ mute m x
  | inr x ↦ h u m x
]

-- A mapping that is not the released one.
unmapped :
    (live : Live) (p fsize a : ℕ) → a ≢ p → live a ≡ true → deinit_index live p fsize a ≡ true
unfolding deinit_index
unmapped live p fsize a ne l = elim (Bool-cases (ltb 0 fsize && ltb fsize (2 ^ 31))) [
  | inl e ↦ rw e (map_at-other live p false a ne ∙ l)
  | inr e ↦ rw e l
]

Step-Guarded : (r : ℕ) {s u : Sys} → Step (λ t. t ≡ r) s u → Guarded r s → Guarded r u
Step-Guarded r {s} (lock_read t e nw) g =
    reader_step r s _ t (reading s.index) g tt refl refl refl (λ m x. cc)
      (λ p n x. absurd (nw r p n x))
Step-Guarded r {s} (unlock_read t m e) g =
    reader_step r s _ t idle g tt refl refl refl (λ k x. cc)
      (λ p n x. NoReader-go s.threads t idle (subst (PcOk s) x g.reloader).3 (λ k y. cc))
Step-Guarded r {s} (copy_index t m e) g =
    own_step r s _ t (copied s.index) m g refl g.in_place g.readers (λ k x. cc) refl
Step-Guarded r {s} (find_reloading t p m e b) g =
    own_step r s _ t idle m g refl g.in_place g.readers (λ k x. cc) tt
Step-Guarded r {s} (find_free t p m e b) g =
    own_step r s _ t (passed p) m g refl g.in_place g.readers (λ k x. cc)
      (subst (PcOk s) (ap s.threads (sym m) ∙ e) g.reloader)
Step-Guarded r {s} (set_reloading t p m e) g =
    own_step r s _ t (claimed p) m g refl g.in_place g.readers (λ k x. cc)
      (subst (PcOk s) (ap s.threads (sym m) ∙ e) g.reloader)
Step-Guarded r {s} (load t p n live a m e new i) g =
    let (at, fresh, made, kept) = subst (Maps a s.live) i (init_index-Maps s.live a new) in
    own_step r s (record s { live = live; threads = go s.threads t (loaded p n) }) t (loaded p n) m
      g refl (kept s.index g.in_place) g.readers (λ k x. cc)
      (
        subst (PcOk s) (ap s.threads (sym m) ∙ e) g.reloader,
        made,
        λ z. live-ne s.live s.index n g.in_place fresh (sym z),
      )
Step-Guarded r {s} (fail_load t p live a m e new i) g =
    own_step r s (record s { reloading = false; live = live; threads = go s.threads t idle }) t idle
      m g refl
      (stays a s.live live s.index (subst (Maps a s.live) i (init_index-Maps s.live a new))
        g.in_place)
      g.readers (λ k x. cc) tt
Step-Guarded r {s} (lock_write t p n m e nr nw) g =
    let (a, b, c) = subst (PcOk s) (ap s.threads (sym m) ∙ e) g.reloader in
    own_step r s _ t (writing p n) m g refl g.in_place g.readers (λ k x. cc)
      (a, b, c, NoReader-go s.threads t (writing p n) nr (λ k x. cc))
Step-Guarded r {s} (switch t p n m e) g =
    let (a, b, c, nr) = subst (PcOk s) (ap s.threads (sym m) ∙ e) g.reloader in
    own_step r s (record s { index = n; threads = go s.threads t (switched p) }) t (switched p) m g
      refl b (λ v k x. absurd (nr v k x)) (λ k x. cc) (λ z. c (sym z ∙ a))
Step-Guarded r {s} (release t p fsize m e) g =
    let ne = subst (PcOk s) (ap s.threads (sym m) ∙ e) g.reloader in
    own_step r s _ t released m g refl
      (unmapped s.live p fsize s.index (λ z. ne (sym z)) g.in_place) g.readers (λ k x. cc) tt
Step-Guarded r {s} (reset t m e) g =
    own_step r s _ t idle m g refl g.in_place g.readers (λ k x. cc) tt

-- If only one thread calls `Reload_index`: in every state that any interleaving with readers leads
-- to from a state with an index in place and all threads idle, the index is in place, and a thread
-- in the search reads that index.
pub Reach-Guarded :
    (r : ℕ) (s u : Sys)
    → s.live s.index ≡ true
    → ((t : ℕ) → s.threads t ≡ idle)
    → Reach (λ t. t ≡ r) s u
    → (u.live u.index ≡ true) × ((t m : ℕ) → u.threads t ≡ reading m → m ≡ u.index)
Reach-Guarded r s u alive all h = let g = along h in (g.in_place, g.readers)
  where
    first : Guarded r s
    first = record {
      in_place = alive;
      readers = λ t m e. absurd (cc (sym (all t) ∙ e));
      reloader = subst (PcOk s) (sym (all r)) tt;
      others = λ t ne. subst Reads (sym (all t)) tt;
    }

    along : {v : Sys} → Reach (λ t. t ≡ r) s v → Guarded r v
    along start = first
    along (step h x) = Step-Guarded r x (along h)
