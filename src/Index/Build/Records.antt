-- ===== src/Index/Build/Records.antt =====
-- Which records `create_index` hands to the builder.
use prefix_match_server.Prelude.{
  ℕ, ◌≡◌, ◌≢◌, ◌⊎◌, refl, sym, ap, ◌∙◌, true, some, List, [], ◌∷◌, map, Bytes, if◌then◌else◌, All,
  Bool-cases, inl, inr, bytes_eq, bytes_eq_refl, bytes_eq_sound, subst,
}
use prefix_match_server.Util.Utf8.{finished}
use prefix_match_server.Util.Utf8.Encoding.{IsScalar, text}
use prefix_match_server.Letters.Table.{HashMap}
use prefix_match_server.Letters.Convert.{and_then}
use prefix_match_server.Search.Order.{str_lt}
use prefix_match_server.Search.Set.{NodeItem}
use prefix_match_server.Index.Build.{
  Entries, no_records, created, before_last, build_range, index_lines, create_index,
}
use prefix_match_server.Index.Build.Items.{values, KeysAscend, KeysAbove, Filled, bytes_ne}
use prefix_match_server.Index.Build.Lines.{listed, Indexed, index_lines-Indexed}

module _ {F : Type 0} where
  -- The last entry.
  last_of : Bytes × List (NodeItem F) → Entries F → Bytes × List (NodeItem F)
  last_of e [] = e
  last_of e (f ∷ entries) = last_of f entries

  above-last :
      (k : Bytes) (e : Bytes × List (NodeItem F)) (entries : Entries F)
      → KeysAbove k (e ∷ entries)
      → str_lt k (last_of e entries).0 ≡ true
  unfolding last_of
  above-last k e [] a = a.0
  above-last k e (f ∷ entries) a = above-last k f entries a.1

  KeysAbove-before_last :
      (k : Bytes) (e : Bytes × List (NodeItem F)) (entries : Entries F)
      → KeysAbove k (e ∷ entries)
      → KeysAbove k (before_last e entries)
  unfolding before_last
  KeysAbove-before_last k e [] a = tt
  KeysAbove-before_last k e (f ∷ entries) a = (a.0, KeysAbove-before_last k f entries a.1)

  before_last-Ascends :
      (e : Bytes × List (NodeItem F)) (entries : Entries F)
      → KeysAscend (e ∷ entries)
      → KeysAscend (before_last e entries)
  unfolding before_last
  before_last-Ascends e [] a = tt
  before_last-Ascends e (f ∷ entries) a =
      (KeysAbove-before_last e.0 f entries a.0, before_last-Ascends f entries a.1)

  -- The entries but the last: the last key is gone, and the others keep their items.
  values_last :
      (e : Bytes × List (NodeItem F)) (entries : Entries F)
      → KeysAscend (e ∷ entries)
      → values (last_of e entries).0 (before_last e entries) ≡ []
  unfolding before_last values last_of
  values_last e [] a = refl
  values_last e (f ∷ entries) a =
      let lt : str_lt e.0 (last_of f entries).0 ≡ true = above-last e.0 f entries a.0 in
      rw (bytes_ne e.0 (last_of f entries).0 lt) (values_last f entries a.1)

  values-before_last :
      (k : Bytes) (e : Bytes × List (NodeItem F)) (entries : Entries F)
      → k ≢ (last_of e entries).0
      → values k (before_last e entries) ≡ values k (e ∷ entries)
  unfolding before_last values last_of
  values-before_last k e [] ne = elim (Bool-cases (bytes_eq e.0 k)) [
    | inl q ↦ absurd (ne (sym (bytes_eq_sound e.0 k q)))
    | inr q ↦ rw q refl
  ]
  values-before_last k e (f ∷ entries) ne =
      ap (λ x. if bytes_eq e.0 k then e.1 else x) (values-before_last k f entries ne)

  values-last_of :
      (e : Bytes × List (NodeItem F)) (entries : Entries F)
      → KeysAscend (e ∷ entries)
      → Filled (e ∷ entries)
      → values (last_of e entries).0 (e ∷ entries) ≢ []
  unfolding values last_of
  values-last_of e [] a f = rw (bytes_eq_refl e.0) f.0
  values-last_of e (g ∷ entries) a f =
      rw (bytes_ne e.0 (last_of g entries).0 (above-last e.0 g entries a.0))
        (values-last_of g entries a.1 f.1)

  values-above :
      (k : Bytes) (e : Bytes × List (NodeItem F)) (entries : Entries F)
      → KeysAscend (e ∷ entries)
      → values k (e ∷ entries) ≢ []
      → k ≢ (last_of e entries).0
      → str_lt k (last_of e entries).0 ≡ true
  unfolding values last_of
  values-above k e [] a some_item ne = elim (Bool-cases (bytes_eq e.0 k)) [
    | inl q ↦ absurd (ne (sym (bytes_eq_sound e.0 k q)))
    | inr q ↦ absurd (some_item (rw q refl))
  ]
  values-above k e (f ∷ entries) a some_item ne = elim (Bool-cases (bytes_eq e.0 k)) [
    | inl q ↦
        subst (λ x. str_lt x (last_of f entries).0 ≡ true) (bytes_eq_sound e.0 k q)
          (above-last e.0 f entries a.0)
    | inr q ↦ values-above k f entries a.1 (λ z. some_item (rw q z)) ne
  ]

-- The records are those of the index, but for the greatest key, which has an item too and is not among
-- them.
pub record Written {F : Type 0} (atof : Bytes → F) (table : HashMap) (lines : List (List ℕ))
    (built : Entries F) (last : Bytes) : Type 0 where
  pub ascend : KeysAscend built
  pub lists : (k : Bytes) → k ≢ last → values k built ≡ listed atof table k lines
  pub lacks : values last built ≡ []
  pub had : listed atof table last lines ≢ []
  pub greatest : (k : Bytes) → listed atof table k lines ≢ [] → k ≢ last → str_lt k last ≡ true

module _ {F : Type 0} (atof : Bytes → F) (table : HashMap) where
  build_range-Written :
      (lines : List (List ℕ)) (entries : Entries F)
      → Indexed atof table [] lines entries
      → (((k : Bytes) → listed atof table k lines ≡ []) × (build_range entries ≡ no_records))
        ⊎ ((built : Entries F) × (last : Bytes) × (build_range entries ≡ created built)
            × Written atof table lines built last)
  unfolding build_range values
  build_range-Written lines [] is = inl (λ k. sym (is.lists k), refl)
  build_range-Written lines (e ∷ entries) is = inr (
    before_last e entries,
    (last_of e entries).0,
    refl,
    record {
      ascend = before_last-Ascends e entries is.ascend;
      lists = λ k ne. values-before_last k e entries ne ∙ is.lists k;
      lacks = values_last e entries is.ascend;
      greatest =
          λ k had ne. values-above k e entries is.ascend (λ z. had (sym (is.lists k) ∙ z)) ne;
      had = λ z. values-last_of e entries is.ascend is.filled (is.lists (last_of e entries).0 ∙ z);
    },
  )

  -- For lines in UTF-8, `create_index` ends. If no line of two fields has a spelling, it calls `build`
  -- with an empty vector. Otherwise the records that it builds are in the order of their keys, and hold
  -- under each key the items of the lines of two fields that have the key among their spellings, in the
  -- order of the lines; but the greatest key that has such lines is missing.
  pub create_index-Written :
      (lines : List (List ℕ))
      → All (All IsScalar) lines
      → (((k : Bytes) → listed atof table k lines ≡ [])
          × (create_index atof table (some (map text lines)) ≡ finished no_records))
        ⊎ ((built : Entries F) × (last : Bytes) × (create_index atof table (some (map text lines))
              ≡ finished (created built))
            × Written atof table lines built last)
  create_index-Written lines h =
      let (entries, e, is) = index_lines-Indexed atof table lines [] h tt tt in
      elim (build_range-Written lines entries is) [
        | inl (none_at, b) ↦ inl (none_at, whole entries e ∙ ap finished b)
        | inr (built, last, b, w) ↦ inr (built, last, whole entries e ∙ ap finished b, w)
      ]
    where
      whole :
          (entries : Entries F)
          → index_lines atof table (map text lines) [] ≡ finished entries
          → create_index atof table (some (map text lines)) ≡ finished (build_range entries)
      whole entries e = unfold create_index in unfold and_then in rw e refl
