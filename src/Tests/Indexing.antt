-- ===== src/Tests/Indexing.antt =====
-- The theorems on the building and the loading of the index at concrete inputs.
use prefix_match_server.Prelude.{
  ℕ, ◌==◌, ◌≡◌, ◌≢◌, ◌⊎◌, refl, Bool, true, false, Option, none, some, arith, List, [], ◌∷◌, ◌++◌,
  map, Bytes, length, codes, if◌then◌else◌,
}
use prefix_match_server.Index.Tail.{Tails, TailsLaws, NoNul, put_array, get_array}
use prefix_match_server.Index.Tail.RoundTrip.{get_array-put_array}
use prefix_match_server.Util.Utf8.{finished}
use prefix_match_server.Util.Utf8.Encoding.{IsScalar, text, encode}
use prefix_match_server.Letters.Table.{HashMap}
use prefix_match_server.Index.Build.{Entries, no_records, created, create_index}
use prefix_match_server.Index.Build.Lines.{listed}
use prefix_match_server.Index.Build.Records.{Written, create_index-Written}
use prefix_match_server.Index.Reload.{idle, reading, Sys, go, Reach, start, step, lock_read}
use prefix_match_server.Index.Reload.Single.{Reach-Guarded}
use prefix_match_server.Index.Reload.Race.{reload_race}

-- The index is at address 5.
abbrev at_five : Sys
at_five = record { index = 5; reloading = false; live = λ m. m == 5; threads = λ t. idle }

-- Thread 3 reads.
abbrev one_reads : Sys
one_reads = record at_five { threads = go at_five.threads 3 (reading 5) }

one_reads-Reach : Reach (λ t. t ≡ 0) at_five one_reads
one_reads-Reach = step start (lock_read 3 refl (λ t p n e. cc))

Reach-Guarded_example :
    (one_reads.live one_reads.index ≡ true)
    × ((t m : ℕ) → one_reads.threads t ≡ reading m → m ≡ one_reads.index)
Reach-Guarded_example = Reach-Guarded 0 at_five one_reads refl (λ t. refl) one_reads-Reach

reload_race_example :
    (u : Sys) × Reach (λ t. (t ≡ 0) ⊎ (t ≡ 1)) at_five u × (u.live u.index ≡ false)
reload_race_example =
    reload_race 0 1 7 at_five (λ e. absurd (omega arith)) refl refl refl (λ t m e. cc)
      (λ t p n e. cc) refl

-- A character with one reading, and two lines of two fields and one of one.
abbrev readings_of : HashMap
readings_of = (encode 0x5317, codes "bei" ∷ []) ∷ []

abbrev rank_lines : List (List ℕ)
rank_lines = (0x5317 ∷ 9 ∷ 0x37 ∷ []) ∷ (0x7a ∷ []) ∷ (0x61 ∷ 9 ∷ 0x37 ∷ []) ∷ []

-- The keys are "a\t7" and "bei", and only the first is built. A weight is the length of its text.
create_index-runs :
    create_index length readings_of (some (map text rank_lines))
    ≡ finished (created ((0x61 ∷ 9 ∷ 0x37 ∷ [], record { name = 0x61 ∷ []; rank = 1 } ∷ []) ∷ []))
unfolding create_index text encode prefix_match_server.Index.Build.index_lines
    prefix_match_server.Index.Build.index_line prefix_match_server.Util.Sep.sepstr
    prefix_match_server.Util.Chars.contains prefix_match_server.Index.Build.index_fields
    prefix_match_server.Letters.Convert.index_letters
    prefix_match_server.Letters.Convert.all_english_char prefix_match_server.Util.Utf8.walk
    prefix_match_server.Util.Utf8.utf8_len prefix_match_server.Index.Build.build_range
    prefix_match_server.Index.Build.push_all prefix_match_server.Index.Build.push_item
    prefix_match_server.Letters.Convert.words_of prefix_match_server.Letters.Convert.push_found
    prefix_match_server.Letters.Table.lookup prefix_match_server.Prelude.bytes_eq
    prefix_match_server.Letters.Product.get_all_results prefix_match_server.Letters.Convert.and_then
    prefix_match_server.Search.Order.str_lt prefix_match_server.Util.Sep.find_first_of
create_index-runs = refl

IsScalar-bei : IsScalar 0x5317
IsScalar-bei = (omega arith, omega arith)

IsScalar-tab : IsScalar 9
IsScalar-tab = (omega arith, omega arith)

IsScalar-7 : IsScalar 0x37
IsScalar-7 = (omega arith, omega arith)

IsScalar-z : IsScalar 0x7a
IsScalar-z = (omega arith, omega arith)

IsScalar-a : IsScalar 0x61
IsScalar-a = (omega arith, omega arith)

create_index-Written_example :
    (((k : Bytes) → listed length readings_of k rank_lines ≡ [])
      × (create_index length readings_of (some (map text rank_lines)) ≡ finished no_records))
    ⊎ ((built : Entries ℕ) × (last : Bytes) × (create_index length readings_of
            (some (map text rank_lines))
          ≡ finished (created built))
        × Written length readings_of rank_lines built last)
create_index-Written_example = create_index-Written length readings_of rank_lines (
  (IsScalar-bei, (IsScalar-tab, (IsScalar-7, tt))),
  ((IsScalar-z, tt), ((IsScalar-a, (IsScalar-tab, (IsScalar-7, tt))), tt)),
)

-- Strings end with NUL, and a number and a weight are one byte each.
read_string : Bytes → Bytes × Bytes
read_string [] = ([], [])
read_string (b ∷ is) = let (s, rest) = read_string is in if b == 0 then ([], is) else (b ∷ s, rest)

read_byte : Bytes → ℕ × Bytes
read_byte [] = (0, [])
read_byte (b ∷ is) = (b, is)

abbrev byte_tails : Tails ℕ
byte_tails = record {
  put_uint32 = λ n. n ∷ [];
  put_string = λ s. s ++ 0 ∷ [];
  put_float = λ x. x ∷ [];
  get_uint32 = read_byte;
  get_string = read_string;
  get_float = read_byte;
}

read_string_lem : (s rest : Bytes) → NoNul s → read_string ((s ++ 0 ∷ []) ++ rest) ≡ (s, rest)
unfolding read_string
read_string_lem [] rest h = refl
read_string_lem (b ∷ s) rest h =
    let e : (b == 0) ≡ false = ground (arith, h.0) in rw (e, read_string_lem s rest h.1) refl

byte_tails-TailsLaws : TailsLaws byte_tails
byte_tails-TailsLaws = record {
  uint32 = λ n rest h. unfold read_byte in refl;
  string = read_string_lem;
  float = λ x rest. unfold read_byte in refl;
}

get_array-put_array_example :
    (bytes : Bytes) × (put_array byte_tails (record { name = 97 ∷ []; rank = 7 } ∷ []) (5 ∷ [])
      ≡ 5 ∷ [] ++ bytes)
    × (get_array byte_tails (bytes ++ 9 ∷ []) ≡ (record { name = 97 ∷ []; rank = 7 } ∷ [], 9 ∷ []))
get_array-put_array_example =
    get_array-put_array byte_tails byte_tails-TailsLaws (record { name = 97 ∷ []; rank = 7 } ∷ [])
      (5 ∷ []) (9 ∷ []) (omega arith) (((λ e. absurd (omega arith)), tt), tt)
