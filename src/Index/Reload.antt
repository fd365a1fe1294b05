-- ===== src/Index/Reload.antt =====
-- `mmap_file`, `init_index`, `deinit_index` and `Reload_index` of prefixmatch.cpp, with `Query` as the
-- reader of the index. A mapping is the number of its address.
pub mod Loads
pub mod Single
pub mod Race
use prefix_match_server.Prelude.{
  ℕ, ◌%◌, ◌^◌, ◌-◌, ltb, ◌&&◌, ◌==◌, ◌≡◌, ◌≢◌, if◌then◌else◌, Bool, true, false, not, Option, none,
  some,
}

-- The mappings that are in place.
abbrev pub Live : Type 0
Live = ℕ → Bool

unfoldable pub map_at : Live → ℕ → Bool → Live
map_at live m b a = if a == m then b else live a

-- What the system answers when an index is loaded: `open`, `fstat`, the size of the file, `mmap`, and
-- `assign` of the trie.
pub record Answers : Type 0 where
  pub opens : Bool
  pub stats : Bool
  pub st_size : ℕ
  pub mmap : Option ℕ
  pub assigns : Bool

-- The mapping and its `fsize`, an unsigned that is returned as an int, here as 32 bits; `none` is a
-- return of -1 with nothing mapped.
unfoldable pub mmap_file : Answers → Option (ℕ × ℕ)
mmap_file a =
    if not a.stats
    then none
    else if a.st_size % 2 ^ 32 == 0
    then none
    else elim a.mmap [ none ↦ none | some mem ↦ some (mem, a.st_size % 2 ^ 32) ]

-- `munmap` of a mapping with its `fsize`, an int as 32 bits: for 0 or a negative one it fails, and the
-- mapping stays. `index.mem` is then NULL, but `index` is a copy that nothing reads again.
unfoldable pub deinit_index : Live → ℕ → ℕ → Live
unfolding map_at
deinit_index live mem fsize =
    if ltb 0 fsize && ltb fsize (2 ^ 31) then map_at live mem false else live

-- The mapping of the new index, `none` for a return of -1, and the mappings in place then. An `fsize`
-- of -1 is taken for a failure.
unfoldable pub map_index : Live → Bool → Option (ℕ × ℕ) → Option ℕ × Live
unfolding map_at deinit_index
map_index live assigns none = (none, live)
map_index live assigns (some (mem, fsize)) =
    if fsize == 2 ^ 32 - 1
    then (none, map_at live mem true)
    else if assigns
    then (some mem, map_at live mem true)
    else (none, deinit_index (map_at live mem true) mem fsize)

unfoldable pub init_index : Live → Answers → Option ℕ × Live
unfolding mmap_file map_index
init_index live a = if a.opens then map_index live a.assigns (mmap_file a) else (none, live)

-- Where a thread is: in `Query` with the read lock on an index, or in `Reload_index`, with what its
-- `prev_index` and `new_index` are.
pub data Pc : Type 0 where
  idle : Pc
  reading : ℕ → Pc
  copied passed claimed : ℕ → Pc
  loaded writing : ℕ → ℕ → Pc
  switched : ℕ → Pc
  released : Pc

-- `g_index.mem`, `g_reloading`, the mappings and the threads.
pub record Sys : Type 0 where
  pub index : ℕ
  pub reloading : Bool
  pub live : Live
  pub threads : ℕ → Pc

unfoldable pub go : (ℕ → Pc) → ℕ → Pc → ℕ → Pc
go threads t pc u = if u == t then pc else threads u

-- No thread holds the read lock, or the write lock.
abbrev pub NoReader : (ℕ → Pc) → Type 0
NoReader threads = (t m : ℕ) → threads t ≢ reading m

abbrev pub NoWriter : (ℕ → Pc) → Type 0
NoWriter threads = (t p n : ℕ) → threads t ≢ writing p n

-- The mapping that `mmap` answers with is not one that is in place.
abbrev pub IsNew : Live → Option ℕ → Type 0
IsNew live none = Unit {0}
IsNew live (some n) = live n ≡ false

-- One step of one thread. `may` says which threads call `Reload_index`; a lock is taken when the
-- other threads leave it free. The `fsize` of an index is not kept: `release` is for any.
pub data Step (may : ℕ → Type 0) (s : Sys) : Sys → Type 0 where
  lock_read :
      (t : ℕ)
      → s.threads t ≡ idle
      → NoWriter s.threads
      → Step may s (record s { threads = go s.threads t (reading s.index) })
  unlock_read :
      (t m : ℕ) → s.threads t ≡ reading m → Step may s (record s { threads = go s.threads t idle })
  copy_index :
      (t : ℕ)
      → may t
      → s.threads t ≡ idle
      → Step may s (record s { threads = go s.threads t (copied s.index) })
  find_reloading :
      (t p : ℕ)
      → may t
      → s.threads t ≡ copied p
      → s.reloading ≡ true
      → Step may s (record s { threads = go s.threads t idle })
  find_free :
      (t p : ℕ)
      → may t
      → s.threads t ≡ copied p
      → s.reloading ≡ false
      → Step may s (record s { threads = go s.threads t (passed p) })
  set_reloading :
      (t p : ℕ)
      → may t
      → s.threads t ≡ passed p
      → Step may s (record s { reloading = true; threads = go s.threads t (claimed p) })
  load :
      (t p n : ℕ) (live : Live) (a : Answers)
      → may t
      → s.threads t ≡ claimed p
      → IsNew s.live a.mmap
      → init_index s.live a ≡ (some n, live)
      → Step may s (record s { live = live; threads = go s.threads t (loaded p n) })
  fail_load :
      (t p : ℕ) (live : Live) (a : Answers)
      → may t
      → s.threads t ≡ claimed p
      → IsNew s.live a.mmap
      → init_index s.live a ≡ (none, live)
      → Step may s (record s { reloading = false; live = live; threads = go s.threads t idle })
  lock_write :
      (t p n : ℕ)
      → may t
      → s.threads t ≡ loaded p n
      → NoReader s.threads
      → NoWriter s.threads
      → Step may s (record s { threads = go s.threads t (writing p n) })
  switch :
      (t p n : ℕ)
      → may t
      → s.threads t ≡ writing p n
      → Step may s (record s { index = n; threads = go s.threads t (switched p) })
  release :
      (t p fsize : ℕ)
      → may t
      → s.threads t ≡ switched p
      → Step may s
          (record s { live = deinit_index s.live p fsize; threads = go s.threads t released })
  reset :
      (t : ℕ)
      → may t
      → s.threads t ≡ released
      → Step may s (record s { reloading = false; threads = go s.threads t idle })

pub data Reach (may : ℕ → Type 0) (s : Sys) : Sys → Type 0 where
  start : Reach may s s
  step : {t u : Sys} → Reach may s t → Step may t u → Reach may s u
