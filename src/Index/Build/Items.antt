-- ===== src/Index/Build/Items.antt =====
-- What the map from keys to items holds when items are put in.
use prefix_match_server.Prelude.{
  ◌≡◌, ◌≢◌, refl, sym, ap, ◌∙◌, subst, true, false, List, [], ◌∷◌, ◌++◌, append-nil, append_assoc,
  arith, Bytes, if◌then◌else◌, bytes_eq, bytes_eq_sound, Bool-cases, inl, inr,
}
use prefix_match_server.Search.Order.{str_lt, str_lt_irrefl, str_lt_trans, str_lt_total}
use prefix_match_server.Search.Set.{NodeItem}
use prefix_match_server.Index.Build.{Entries, push_item, push_all}

-- Keys in order are not equal.
pub bytes_ne : (i j : Bytes) → str_lt i j ≡ true → bytes_eq i j ≡ false
bytes_ne i j h = elim (Bool-cases (bytes_eq i j)) [
  | inl e ↦ absurd (cc (sym h ∙ ap (str_lt i) (sym (bytes_eq_sound i j e)) ∙ str_lt_irrefl i))
  | inr e ↦ e
]

bytes_ne_sym : (i j : Bytes) → str_lt i j ≡ true → bytes_eq j i ≡ false
bytes_ne_sym i j h = elim (Bool-cases (bytes_eq j i)) [
  | inl e ↦ absurd (cc (sym h ∙ ap (str_lt i) (bytes_eq_sound j i e) ∙ str_lt_irrefl i))
  | inr e ↦ e
]

one_nonempty : {F : Type 0} (item : NodeItem F) → item ∷ [] ≢ []
one_nonempty item e = cc

append_nonempty : {F : Type 0} (v w : List (NodeItem F)) → w ≢ [] → v ++ w ≢ []
append_nonempty [] w h = h
append_nonempty (x ∷ v) w h = λ e. cc

module _ {F : Type 0} where
  -- The items under a key.
  unfoldable pub values : Bytes → Entries F → List (NodeItem F)
  values k [] = []
  values k ((j, v) ∷ entries) = if bytes_eq j k then v else values k entries

  -- An item as often as a key stands among the keys.
  unfoldable pub copies : Bytes → NodeItem F → List Bytes → List (NodeItem F)
  copies k item [] = []
  copies k item (key ∷ keys) =
      if bytes_eq key k then item ∷ copies k item keys else copies k item keys

  -- Every key is above the given one.
  abbrev pub KeysAbove : Bytes → Entries F → Type 0
  KeysAbove k [] = Unit {0}
  KeysAbove k ((j, v) ∷ entries) = (str_lt k j ≡ true) × KeysAbove k entries

  abbrev pub KeysAscend : Entries F → Type 0
  KeysAscend [] = Unit {0}
  KeysAscend ((j, v) ∷ entries) = KeysAbove j entries × KeysAscend entries

  KeysAbove-trans :
      (i k : Bytes) (entries : Entries F)
      → str_lt i k ≡ true
      → KeysAbove k entries
      → KeysAbove i entries
  KeysAbove-trans i k [] h a = tt
  KeysAbove-trans i k ((j, v) ∷ entries) h a =
      (str_lt_trans i k j h a.0, KeysAbove-trans i k entries h a.1)

  KeysAbove-push :
      (k key : Bytes) (item : NodeItem F) (entries : Entries F)
      → str_lt k key ≡ true
      → KeysAbove k entries
      → KeysAbove k (push_item key item entries)
  unfolding push_item
  KeysAbove-push k key item [] h a = (h, tt)
  KeysAbove-push k key item ((j, v) ∷ entries) h a =
      ground (arith, KeysAbove-push k key item entries)

  push_item-Ascends :
      (key : Bytes) (item : NodeItem F) (entries : Entries F)
      → KeysAscend entries
      → KeysAscend (push_item key item entries)
  unfolding push_item
  push_item-Ascends key item [] a = (tt, tt)
  push_item-Ascends key item ((j, v) ∷ entries) a = ground (
    arith,
    push_item-Ascends key item entries,
    KeysAbove-trans key j entries,
    KeysAbove-push j key item entries,
  )

  -- A key below all others is not there.
  pub values_below : (k : Bytes) (entries : Entries F) → KeysAbove k entries → values k entries ≡ []
  unfolding values
  values_below k [] a = refl
  values_below k ((j, v) ∷ entries) a = rw (bytes_ne_sym k j a.0) (values_below k entries a.1)

  -- Every key has an item.
  abbrev pub Filled : Entries F → Type 0
  Filled [] = Unit {0}
  Filled ((j, v) ∷ entries) = (v ≢ []) × Filled entries

  push_item-Filled :
      (key : Bytes) (item : NodeItem F) (entries : Entries F)
      → Filled entries
      → Filled (push_item key item entries)
  unfolding push_item
  push_item-Filled key item [] f = (λ e. cc, tt)
  push_item-Filled key item ((j, v) ∷ entries) f =
      ground
        (arith, push_item-Filled key item entries, one_nonempty item, append_nonempty v (item ∷ []))

  pub push_all-Filled :
      (keys : List Bytes) (item : NodeItem F) (entries : Entries F)
      → Filled entries
      → Filled (push_all keys item entries)
  unfolding push_all
  push_all-Filled [] item entries f = f
  push_all-Filled (key ∷ keys) item entries f =
      push_all-Filled keys item (push_item key item entries) (push_item-Filled key item entries f)

  -- An item as often as one key is the other.
  abbrev pub copy : Bytes → NodeItem F → Bytes → List (NodeItem F)
  copy k item key = if bytes_eq key k then item ∷ [] else []

  values-push_item :
      (k key : Bytes) (item : NodeItem F) (entries : Entries F)
      → KeysAscend entries
      → values k (push_item key item entries) ≡ values k entries ++ copy k item key
  unfolding values push_item
  values-push_item k key item [] a = refl
  values-push_item k key item ((j, v) ∷ entries) a = elim (Bool-cases (str_lt key j)) [
    | inl e ↦ rw e (elim (Bool-cases (bytes_eq key k)) [
      | inl q ↦
          let gone : values k ((j, v) ∷ entries) ≡ [] = values_below k ((j, v) ∷ entries) (
            subst (λ x. KeysAbove x ((j, v) ∷ entries)) (bytes_eq_sound key k q)
              (e, KeysAbove-trans key j entries e a.0)) in
          rw q (sym (ap (λ x. x ++ item ∷ []) gone))
      | inr q ↦ rw q (sym (append-nil _))
    ])
    | inr e ↦ rw e (elim (Bool-cases (str_lt j key)) [
      | inl e2 ↦ rw e2 (elim (Bool-cases (bytes_eq j k)) [
        | inl q ↦
            let ne : bytes_eq key k ≡ false =
              subst (λ x. bytes_eq key x ≡ false) (bytes_eq_sound j k q) (bytes_ne_sym j key e2) in
            rw (q, ne) (sym (append-nil v))
        | inr q ↦ rw q (values-push_item k key item entries a.1)
      ])
      | inr e2 ↦ rw e2 (
          rw (str_lt_total key j e e2) (elim (Bool-cases (bytes_eq j k)) [
            | inl q ↦ rw q refl
            | inr q ↦ rw q (sym (append-nil _))
          ]))
    ])
  ]

  copies-cons :
      (k key : Bytes) (item : NodeItem F) (keys : List Bytes)
      → copies k item (key ∷ keys) ≡ copy k item key ++ copies k item keys
  unfolding copies
  copies-cons k key item keys = elim (Bool-cases (bytes_eq key k)) [
    | inl e ↦ rw e refl
    | inr e ↦ rw e refl
  ]

  pub push_all-Ascends :
      (keys : List Bytes) (item : NodeItem F) (entries : Entries F)
      → KeysAscend entries
      → KeysAscend (push_all keys item entries)
  unfolding push_all
  push_all-Ascends [] item entries a = a
  push_all-Ascends (key ∷ keys) item entries a =
      push_all-Ascends keys item (push_item key item entries) (push_item-Ascends key item entries a)

  -- The loop over `vChinese` puts the item under each of the keys, behind the items from before.
  pub values-push_all :
      (k : Bytes) (keys : List Bytes) (item : NodeItem F) (entries : Entries F)
      → KeysAscend entries
      → values k (push_all keys item entries) ≡ values k entries ++ copies k item keys
  unfolding push_all
  values-push_all k [] item entries a = unfold copies in sym (append-nil _)
  values-push_all k (key ∷ keys) item entries a =
      values-push_all k keys item (push_item key item entries)
        (push_item-Ascends key item entries a)
      ∙ ap (λ x. x ++ copies k item keys) (values-push_item k key item entries a)
      ∙ append_assoc (values k entries) (copy k item key) (copies k item keys)
      ∙ ap (λ x. values k entries ++ x) (sym (copies-cons k key item keys))
