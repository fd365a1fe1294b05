-- ===== src/Index/Reload/Race.antt =====
-- Reloads by two threads.
use prefix_match_server.Prelude.{ℕ, ◌≡◌, ◌≢◌, refl, sym, ap, ◌∙◌, ◌⊎◌, inl, inr, true, false, some}
use prefix_match_server.Index.Reload.{
  map_at, Answers, mmap_file, deinit_index, map_index, init_index, Pc, idle, reading, copied,
  passed, claimed, loaded, writing, switched, released, Sys, go, NoReader, NoWriter, copy_index,
  find_free, set_reloading, load, lock_write, switch, release, reset, Reach, start, step,
}
use prefix_match_server.Index.Reload.Single.{NoReader-go, go_self, go-other}
use prefix_match_server.Index.Reload.Loads.{map_at_self, same_or}

NoWriter-go :
    (f : ℕ → Pc) (t : ℕ) (pc : Pc)
    → NoWriter f
    → ((p n : ℕ) → pc ≢ writing p n)
    → NoWriter (go f t pc)
NoWriter-go f t pc h mute u p n e = elim (same_or u t) [
  | inl x ↦ mute p n (sym (go_self f t pc) ∙ ap (go f t pc) (sym x) ∙ e)
  | inr ne ↦ h u p n (sym (go-other f t pc u ne) ∙ e)
]

-- Neither lock is held.
Unlocked : (ℕ → Pc) → Type 0
Unlocked f = NoReader f × NoWriter f

-- A file that loads, at an address.
abbrev pub loads_at : ℕ → Answers
loads_at n = record { opens = true; stats = true; st_size = 1; mmap = some n; assigns = true }

Unlocked-go :
    (f : ℕ → Pc) (t : ℕ) (pc : Pc)
    → Unlocked f
    → ((m : ℕ) → pc ≢ reading m)
    → ((p n : ℕ) → pc ≢ writing p n)
    → Unlocked (go f t pc)
unfolding Unlocked
Unlocked-go f t pc (a, b) x y = (NoReader-go f t pc a x, NoWriter-go f t pc b y)

-- One thread from the test of `g_reloading` to the end of `Reload_index`, with the locks free.
reload_all :
    (may : ℕ → Type 0) (o s : Sys) (t p n : ℕ)
    → may t
    → Reach may o s
    → s.threads t ≡ copied p
    → s.reloading ≡ false
    → s.live n ≡ false
    → Unlocked s.threads
    → (u : Sys) × Reach may o u
      × (u.index ≡ n)
      × (u.reloading ≡ false)
      × (u.live ≡ deinit_index (map_at s.live n true) p 1)
      × Unlocked u.threads
      × ((v : ℕ) → v ≢ t → u.threads v ≡ s.threads v)
unfolding init_index mmap_file map_index Unlocked
reload_all may o s t p n m r at free new locks = (
  _,
  step
      (step
        (step
          (step
            (step
              (step (step r (find_free t p m at free))
                (set_reloading t p m (go_self s.threads t (passed p))))
              (load t p n (map_at s.live n true) (loads_at n) m (go_self f1 t (claimed p)) new
                refl))
            (lock_write t p n m (go_self f2 t (loaded p n)) locks3.0 locks3.1))
          (switch t p n m (go_self f3 t (writing p n))))
        (release t p 1 m (go_self f4 t (switched p))))
      (reset t m (go_self f5 t released)),
  refl,
  refl,
  refl,
  last,
  away,
)
  where
    f1 : ℕ → Pc
    f1 = go s.threads t (passed p)

    f2 : ℕ → Pc
    f2 = go f1 t (claimed p)

    f3 : ℕ → Pc
    f3 = go f2 t (loaded p n)

    f4 : ℕ → Pc
    f4 = go f3 t (writing p n)

    f5 : ℕ → Pc
    f5 = go f4 t (switched p)

    locks3 : Unlocked f3
    locks3 =
        Unlocked-go f2 t (loaded p n)
          (Unlocked-go f1 t (claimed p)
            (Unlocked-go s.threads t (passed p) locks (λ k x. cc) (λ k l x. cc)) (λ k x. cc)
            (λ k l x. cc))
          (λ k x. cc) (λ k l x. cc)

    f6 : ℕ → Pc
    f6 = go f5 t released

    writes : NoReader f4 → NoReader (go f6 t idle)
    writes h =
        NoReader-go f6 t idle
          (NoReader-go f5 t released (NoReader-go f4 t (switched p) h (λ k x. cc)) (λ k x. cc))
          (λ k x. cc)

    no_writer : NoWriter (go f6 t idle)
    no_writer u q k x = elim (same_or u t) [
      | inl e ↦ absurd (cc (sym (go_self f6 t idle) ∙ ap (go f6 t idle) (sym e) ∙ x))
      | inr ne ↦ locks3.1 u q k (
          sym (go-other f3 t (writing p n) u ne)
          ∙ sym (go-other f4 t (switched p) u ne)
          ∙ sym (go-other f5 t released u ne)
          ∙ sym (go-other f6 t idle u ne)
          ∙ x)
    ]

    last : Unlocked (go f6 t idle)
    last = (writes (NoReader-go f3 t (writing p n) locks3.0 (λ k x. cc)), no_writer)

    away : (v : ℕ) → v ≢ t → go f6 t idle v ≡ s.threads v
    away v ne =
        go-other f6 t idle v ne
        ∙ go-other f5 t released v ne
        ∙ go-other f4 t (switched p) v ne
        ∙ go-other f3 t (writing p n) v ne
        ∙ go-other f2 t (loaded p n) v ne
        ∙ go-other f1 t (claimed p) v ne
        ∙ go-other s.threads t (passed p) v ne

-- If two threads call `Reload_index`: from every state with both of them idle, no reload under way
-- and the locks free, they can come to a state in which the index is a mapping that is not in place,
-- provided that the system maps a second file where the first index was, once that is unmapped.
pub reload_race :
    (a b n : ℕ) (s : Sys)
    → a ≢ b
    → s.threads a ≡ idle
    → s.threads b ≡ idle
    → s.reloading ≡ false
    → NoReader s.threads
    → NoWriter s.threads
    → s.live n ≡ false
    → (u : Sys) × Reach (λ t. (t ≡ a) ⊎ (t ≡ b)) s u × (u.live u.index ≡ false)
unfolding Unlocked deinit_index
reload_race a b n s ne ia ib free nr nw new =
    let one = step start (copy_index a (inl refl) ia) in
    let two =
      step one (
        copy_index b (inr refl) (go-other s.threads a (copied s.index) b (λ z. ne (sym z)) ∙ ib)) in
    let (u, r, ix, off, lv, locks, away) =
      reload_all may s _ a s.index n (inl refl) two
        (go-other f1 b (copied s.index) a ne ∙ go_self s.threads a (copied s.index)) free new
        (Unlocked-go f1 b (copied s.index)
          (Unlocked-go s.threads a (copied s.index) (nr, nw) (λ k x. cc) (λ k l x. cc)) (λ k x. cc)
          (λ k l x. cc)) in
    let (v, r', ix', off', lv', locks', away') =
      reload_all may s u b s.index s.index (inr refl) r
        (away b (λ z. ne (sym z)) ∙ go_self f1 b (copied s.index)) off
        (ap (λ l. l s.index) lv ∙ map_at_self (map_at s.live n true) s.index false) locks in
    (
      v,
      r',
      ap v.live ix'
          ∙ ap (λ l. l s.index) lv'
          ∙ map_at_self (map_at u.live s.index true) s.index false,
    )
  where
    may : ℕ → Type 0
    may t = (t ≡ a) ⊎ (t ≡ b)

    f1 : ℕ → Pc
    f1 = go s.threads a (copied s.index)
