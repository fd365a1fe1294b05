-- ===== src/Index/Build/Lines.antt =====
-- What the loop of `create_index` over the lines makes of lines in UTF-8.
use prefix_match_server.Prelude.{
  ℕ, suc, ◌≡◌, refl, sym, ap, ◌∙◌, false, List, [], ◌∷◌, ◌++◌, map, append-nil, append_assoc, arith,
  Bytes, codes, if◌then◌else◌, length, All, Bool-cases, inl, inr,
}
use prefix_match_server.Util.Sep.Pieces.{pieces, nonempty, sepstr-pieces}
use prefix_match_server.Util.Utf8.{finished}
use prefix_match_server.Util.Utf8.Encoding.{IsScalar, text}
use prefix_match_server.Letters.Table.{HashMap}
use prefix_match_server.Letters.Product.{get_all_results}
use prefix_match_server.Letters.Convert.{and_then, index_letters}
use prefix_match_server.Letters.Convert.Spelling.{
  readings, initials, all_ascii, none_ascii, english-text, index_letters-initials,
}
use prefix_match_server.Search.Set.{NodeItem}
use prefix_match_server.Index.Build.{Entries, push_all, index_fields, index_line, index_lines}
use prefix_match_server.Index.Build.Items.{
  values, copies, KeysAscend, Filled, push_all-Ascends, push_all-Filled, values-push_all,
}

-- The spellings of a line: itself if it is ASCII, and otherwise one for each choice of readings.
unfoldable pub spellings : HashMap → List ℕ → List Bytes
spellings table cps =
    if all_ascii cps
    then text cps ∷ []
    else get_all_results (readings table cps) []
      ++ (if none_ascii cps then get_all_results (initials (readings table cps)) [] else [])

index_letters_lem :
    (table : HashMap) (cps : List ℕ)
    → All IsScalar cps
    → index_letters (suc (length (text cps))) (text cps) table ≡ finished (spellings table cps)
unfolding spellings
index_letters_lem table cps h = elim (Bool-cases (all_ascii cps)) [
  | inl e ↦ unfold index_letters in rw (english-text cps, e) refl
  | inr e ↦ rw e (index_letters-initials table cps (suc (length (text cps))) h e (omega arith))
]

module _ {F : Type 0} (atof : Bytes → F) (table : HashMap) where
  -- The item of a line of two fields, under a key as often as the key is one of the spellings.
  unfoldable pub listed_fields : Bytes → List Bytes → List Bytes → List (NodeItem F)
  listed_fields k keys [] = []
  listed_fields k keys (name ∷ []) = []
  listed_fields k keys (name ∷ weight ∷ []) =
      copies k (record { name = name; rank = atof weight }) keys
  listed_fields k keys (name ∷ weight ∷ more ∷ fields) = []

  -- The items of the lines that have a key among their spellings, in the order of the lines.
  unfoldable pub listed : Bytes → List (List ℕ) → List (NodeItem F)
  listed k [] = []
  listed k (cps ∷ lines) =
      listed_fields k (spellings table cps) (nonempty (pieces (codes "\t") (text cps)))
      ++ listed k lines

  -- The map after a line.
  entries_after : List Bytes → List Bytes → Entries F → Entries F
  entries_after keys [] entries = entries
  entries_after keys (name ∷ []) entries = entries
  entries_after keys (name ∷ weight ∷ []) entries =
      push_all keys (record { name = name; rank = atof weight }) entries
  entries_after keys (name ∷ weight ∷ more ∷ fields) entries = entries

  index_fields_lem :
      (cps : List ℕ) (fields : List Bytes) (entries : Entries F)
      → All IsScalar cps
      → index_fields atof table (text cps) fields entries
        ≡ finished (entries_after (spellings table cps) fields entries)
  unfolding index_fields entries_after and_then
  index_fields_lem cps [] entries h = refl
  index_fields_lem cps (name ∷ []) entries h = refl
  index_fields_lem cps (name ∷ weight ∷ []) entries h = rw (index_letters_lem table cps h) refl
  index_fields_lem cps (name ∷ weight ∷ more ∷ fields) entries h = refl

  entries_after-Ascends :
      (keys fields : List Bytes) (entries : Entries F)
      → KeysAscend entries
      → KeysAscend (entries_after keys fields entries)
  unfolding entries_after
  entries_after-Ascends keys [] entries a = a
  entries_after-Ascends keys (name ∷ []) entries a = a
  entries_after-Ascends keys (name ∷ weight ∷ []) entries a = push_all-Ascends keys _ entries a
  entries_after-Ascends keys (name ∷ weight ∷ more ∷ fields) entries a = a

  entries_after-Filled :
      (keys fields : List Bytes) (entries : Entries F)
      → Filled entries
      → Filled (entries_after keys fields entries)
  unfolding entries_after
  entries_after-Filled keys [] entries a = a
  entries_after-Filled keys (name ∷ []) entries a = a
  entries_after-Filled keys (name ∷ weight ∷ []) entries a = push_all-Filled keys _ entries a
  entries_after-Filled keys (name ∷ weight ∷ more ∷ fields) entries a = a

  values-entries_after :
      (k : Bytes) (keys fields : List Bytes) (entries : Entries F)
      → KeysAscend entries
      → values k (entries_after keys fields entries)
        ≡ values k entries ++ listed_fields k keys fields
  unfolding entries_after listed_fields
  values-entries_after k keys [] entries a = sym (append-nil _)
  values-entries_after k keys (name ∷ []) entries a = sym (append-nil _)
  values-entries_after k keys (name ∷ weight ∷ []) entries a = values-push_all k keys _ entries a
  values-entries_after k keys (name ∷ weight ∷ more ∷ fields) entries a = sym (append-nil _)

  -- The map holds the items of the lines behind those from before.
  pub record Indexed (before : Entries F) (lines : List (List ℕ)) (entries : Entries F)
      : Type 0 where
    pub ascend : KeysAscend entries
    pub filled : Filled entries
    pub lists : (k : Bytes) → values k entries ≡ values k before ++ listed k lines

  next_line :
      (line : Bytes) (lines : List Bytes) (before next : Entries F)
      → index_line atof table line before ≡ finished next
      → index_lines atof table (line ∷ lines) before ≡ index_lines atof table lines next
  unfolding index_lines
  next_line line lines before next e = rw (e, index_lines) refl

  index_line_lem :
      (cps : List ℕ) (before : Entries F)
      → All IsScalar cps
      → index_line atof table (text cps) before
        ≡ finished
            (entries_after (spellings table cps) (nonempty (pieces (codes "\t") (text cps))) before)
  unfolding index_line
  index_line_lem cps before h =
      rw (sepstr-pieces (text cps) (codes "\t") false, index_line)
        (index_fields_lem cps (nonempty (pieces (codes "\t") (text cps))) before h)

  -- For lines in UTF-8: the loop ends, and it puts under each key, in the order of the keys, the items
  -- of the lines of two fields that have the key among their spellings, in the order of the lines.
  pub index_lines-Indexed :
      (lines : List (List ℕ)) (before : Entries F)
      → All (All IsScalar) lines
      → KeysAscend before
      → Filled before
      → (entries : Entries F) × (index_lines atof table (map text lines) before ≡ finished entries)
        × Indexed before lines entries
  unfolding index_lines
  index_lines-Indexed [] before h a f = (
    before,
    refl,
    record { ascend = a; filled = f; lists = λ k. unfold listed in sym (append-nil _) },
  )
  index_lines-Indexed (cps ∷ lines) before h a f =
      let (entries, e, is) =
        index_lines-Indexed lines next h.1 (entries_after-Ascends keys fields before a)
          (entries_after-Filled keys fields before f) in
      (
        entries,
        next_line (text cps) (map text lines) before next (index_line_lem cps before h.0) ∙ e,
        record {
          ascend = is.ascend;
          filled = is.filled;
          lists = λ k.
              is.lists k
              ∙ ap (λ x. x ++ listed k lines) (values-entries_after k keys fields before a)
              ∙ append_assoc (values k before) (listed_fields k keys fields) (listed k lines)
              ∙ unfold listed in refl;
        },
      )
    where
      keys : List Bytes
      keys = spellings table cps

      fields : List Bytes
      fields = nonempty (pieces (codes "\t") (text cps))

      next : Entries F
      next = entries_after keys fields before
