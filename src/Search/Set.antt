-- ===== src/Search/Set.antt =====
-- `NodeItem` and `set<NodeItem>`, which keeps the first node of each name in the order of the names.
use prefix_match_server.Prelude.{
  ◌≡◌, refl, ap, ◌⊎◌, inl, inr, true, List, [], ◌∷◌, arith, Bytes, if◌then◌else◌, Distinct, Elem,
  Bool-cases,
}
use mathlib.Core.Path.{subst}
use prefix_match_server.Search.Order.{str_lt, str_lt_irrefl, str_lt_trans, str_lt_total}

pub record NodeItem (F : Type 0) : Type 0 where
  pub name : Bytes
  pub rank : F

module _ {F : Type 0} where
  -- The names of nodes.
  abbrev pub names : List (NodeItem F) → List Bytes
  names [] = []
  names (x ∷ xs) = x.name ∷ names xs

  unfoldable pub set_insert : NodeItem F → List (NodeItem F) → List (NodeItem F)
  set_insert x [] = x ∷ []
  set_insert x (y ∷ ys) =
      if str_lt x.name y.name
      then x ∷ y ∷ ys
      else if str_lt y.name x.name
      then y ∷ set_insert x ys
      else y ∷ ys

  -- Every name of the list is above the given one.
  abbrev Above : Bytes → List (NodeItem F) → Type 0
  Above k [] = Unit
  Above k (x ∷ xs) = (str_lt k x.name ≡ true) × Above k xs

  abbrev pub Ascends : List (NodeItem F) → Type 0
  Ascends [] = Unit
  Ascends (x ∷ xs) = Above x.name xs × Ascends xs

  Above-trans : (j k : Bytes) (xs : List (NodeItem F)) → str_lt j k ≡ true → Above k xs → Above j xs
  Above-trans j k [] h a = tt
  Above-trans j k (x ∷ xs) h a = (str_lt_trans j k x.name h a.0, Above-trans j k xs h a.1)

  Above-insert :
      (k : Bytes) (x : NodeItem F) (xs : List (NodeItem F))
      → str_lt k x.name ≡ true
      → Above k xs
      → Above k (set_insert x xs)
  unfolding set_insert
  Above-insert k x [] h a = (h, tt)
  Above-insert k x (y ∷ ys) h a = ground (arith, Above-insert k x ys)

  pub set_insert-Ascends :
      (x : NodeItem F) (xs : List (NodeItem F)) → Ascends xs → Ascends (set_insert x xs)
  unfolding set_insert
  set_insert-Ascends x [] a = (tt, tt)
  set_insert-Ascends x (y ∷ ys) a =
      ground
        (arith, set_insert-Ascends x ys, Above-trans x.name y.name ys, Above-insert y.name x ys)

  not-Elem-Above : (k : Bytes) (xs : List (NodeItem F)) → Above k xs → ¬ Elem k (names xs)
  not-Elem-Above k [] a h = elim h [ ]
  not-Elem-Above k (x ∷ xs) a (inl e) =
      let q : str_lt k k ≡ true = rw (ap (str_lt k) e) a.0 in cc (str_lt_irrefl k)
  not-Elem-Above k (x ∷ xs) a (inr h) = not-Elem-Above k xs a.1 h

  pub Ascends-Distinct : (xs : List (NodeItem F)) → Ascends xs → Distinct (names xs)
  Ascends-Distinct [] a = tt
  Ascends-Distinct (x ∷ xs) a = (not-Elem-Above x.name xs a.0, Ascends-Distinct xs a.1)

  -- Where an insertion puts the node.
  insert_cases :
      (x y : NodeItem F) (ys : List (NodeItem F))
      → (set_insert x (y ∷ ys) ≡ x ∷ y ∷ ys)
        ⊎ (set_insert x (y ∷ ys) ≡ y ∷ set_insert x ys)
        ⊎ ((set_insert x (y ∷ ys) ≡ y ∷ ys) × (x.name ≡ y.name))
  unfolding set_insert
  insert_cases x y ys = elim (Bool-cases (str_lt x.name y.name)) [
    | inl e ↦ inl (rw e refl)
    | inr e ↦ inr (elim (Bool-cases (str_lt y.name x.name)) [
      | inl f ↦ inl (rw (e, f) refl)
      | inr f ↦ inr (rw (e, f) refl, str_lt_total x.name y.name e f)
    ])
  ]

  -- What an insertion adds, and that a name once in the set stays there.
  pub Elem-set_insert :
      (z x : NodeItem F) (xs : List (NodeItem F)) → Elem z (set_insert x xs) → (z ≡ x) ⊎ Elem z xs
  Elem-set_insert z x [] h = unfold set_insert in elim h [ inl e ↦ inl e | inr n ↦ inr n ]
  Elem-set_insert z x (y ∷ ys) h = at (insert_cases x y ys) (Elem-set_insert z x ys)
    where
      at :
          (set_insert x (y ∷ ys) ≡ x ∷ y ∷ ys)
            ⊎ (set_insert x (y ∷ ys) ≡ y ∷ set_insert x ys)
            ⊎ ((set_insert x (y ∷ ys) ≡ y ∷ ys) × (x.name ≡ y.name))
          → (Elem z (set_insert x ys) → (z ≡ x) ⊎ Elem z ys)
          → (z ≡ x) ⊎ Elem z (y ∷ ys)
      at (inl e) ih = subst (Elem z) e h
      at (inr (inl e)) ih = elim (subst (Elem z) e h) [
        | inl q ↦ inr (inl q)
        | inr m ↦ elim (ih m) [ inl q ↦ inl q | inr n ↦ inr (inr n) ]
      ]
      at (inr (inr (e, f))) ih = inr (subst (Elem z) e h)

  pub set_insert_self :
      (x : NodeItem F) (xs : List (NodeItem F)) → Elem x.name (names (set_insert x xs))
  set_insert_self x [] = unfold set_insert in inl refl
  set_insert_self x (y ∷ ys) = at (insert_cases x y ys) (set_insert_self x ys)
    where
      at :
          (set_insert x (y ∷ ys) ≡ x ∷ y ∷ ys)
            ⊎ (set_insert x (y ∷ ys) ≡ y ∷ set_insert x ys)
            ⊎ ((set_insert x (y ∷ ys) ≡ y ∷ ys) × (x.name ≡ y.name))
          → Elem x.name (names (set_insert x ys))
          → Elem x.name (names (set_insert x (y ∷ ys)))
      at (inl e) ih = rw e (inl refl)
      at (inr (inl e)) ih = rw e (inr ih)
      at (inr (inr (e, f))) ih = rw e (inl f)

  pub set_insert-keeps :
      (k : Bytes) (x : NodeItem F) (xs : List (NodeItem F))
      → Elem k (names xs)
      → Elem k (names (set_insert x xs))
  set_insert-keeps k x [] h = elim h [ ]
  set_insert-keeps k x (y ∷ ys) h = at (insert_cases x y ys) h (set_insert-keeps k x ys)
    where
      at :
          (set_insert x (y ∷ ys) ≡ x ∷ y ∷ ys)
            ⊎ (set_insert x (y ∷ ys) ≡ y ∷ set_insert x ys)
            ⊎ ((set_insert x (y ∷ ys) ≡ y ∷ ys) × (x.name ≡ y.name))
          → Elem k (names (y ∷ ys))
          → (Elem k (names ys) → Elem k (names (set_insert x ys)))
          → Elem k (names (set_insert x (y ∷ ys)))
      at (inl e) m ih = rw e (inr m)
      at (inr (inl e)) (inl q) ih = rw e (inl q)
      at (inr (inl e)) (inr m) ih = rw e (inr (ih m))
      at (inr (inr (e, f))) m ih = rw e m
