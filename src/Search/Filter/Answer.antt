-- ===== src/Search/Filter/Answer.antt =====
-- What `filter_result` returns, under what `std::sort` promises.
use mathlib.Core.Path.{subst}
use prefix_match_server.Prelude.{
  ℕ, ◌≡◌, refl, sym, ap, ◌⊎◌, inl, inr, Bool, true, false, List, [], ◌∷◌, Bytes, if◌then◌else◌,
  take, Elem, Distinct, Bool-cases,
}
use prefix_match_server.Prelude.Permutes.{
  Permutes, nil, skip, swap, trans, Permutes-sym, Permutes-Elem, Permutes-Distinct,
}
use prefix_match_server.Search.Set.{
  NodeItem, names, set_insert, Ascends, set_insert-Ascends, Ascends-Distinct, Elem-set_insert,
  set_insert_self, set_insert-keeps,
}
use prefix_match_server.Search.Filter.{passes, collect, Sort, rank_compare, filter_result}
use prefix_match_server.Search.Filter.Find.{Matches, passes_sound, passes_complete}

-- No node is followed at once by one that the comparison puts in front of it.
abbrev pub Ordered : {F : Type 0} → (NodeItem F → NodeItem F → Bool) → List (NodeItem F) → Type 0
Ordered lt [] = Unit
Ordered lt (x ∷ []) = Unit
Ordered lt (x ∷ y ∷ xs) = (lt y x ≡ false) × Ordered lt (y ∷ xs)

-- What `std::sort` promises for the comparison: a permutation, and no inversion.
abbrev pub Sorts : {F : Type 0} → (NodeItem F → NodeItem F → Bool) → Sort F → Type 0
Sorts {F} lt sort = (xs : List (NodeItem F)) → Permutes xs (sort lt xs) × Ordered lt (sort lt xs)

-- An answer lists the first names of nodes that are in the order of their weights, have distinct
-- names, are results that match, and name every result that matches.
pub record Answer {F : Type 0} (weight_lt : F → F → Bool) (results : List (NodeItem F))
    (rules : List Bytes) (max : ℕ) (answer : List Bytes) : Type 0 where
  pub nodes : List (NodeItem F)
  pub listed : answer ≡ names (take max nodes)
  pub ordered : Ordered (rank_compare weight_lt) nodes
  pub distinct : Distinct (names nodes)
  pub sound : (z : NodeItem F) → Elem z nodes → Elem z results × Matches rules z.name
  pub complete :
      (z : NodeItem F) → Elem z results → Matches rules z.name → Elem z.name (names nodes)

module _ {F : Type 0} (rules : List Bytes) where
  collect-Ascends :
      (results set : List (NodeItem F)) → Ascends set → Ascends (collect rules results set)
  unfolding collect
  collect-Ascends [] set a = a
  collect-Ascends (node ∷ results) set a = elim (Bool-cases (passes node.name rules)) [
    | inl e ↦ rw e (collect-Ascends results (set_insert node set) (set_insert-Ascends node set a))
    | inr e ↦ rw e (collect-Ascends results set a)
  ]

  collect_sound :
      (results set : List (NodeItem F)) (z : NodeItem F)
      → Elem z (collect rules results set)
      → (Elem z results × Matches rules z.name) ⊎ Elem z set
  unfolding collect
  collect_sound [] set z h = inr h
  collect_sound (node ∷ results) set z h = elim (Bool-cases (passes node.name rules)) [
    | inl e ↦
        elim (collect_sound results (set_insert node set) z (
          subst (λ b. Elem z (collect rules results (if b then set_insert node set else set))) e
            h)) [
              | inl r ↦ inl (inr r.0, r.1)
              | inr m ↦ elim (Elem-set_insert z node set m) [
                | inl q ↦ inl (
                  inl q,
                  subst (Matches rules) (sym (ap (λ (x : NodeItem F). x.name) q))
                      (passes_sound node.name rules e),
                )
                | inr n ↦ inr n
              ]
            ]
    | inr e ↦
        elim (collect_sound results set z (
          subst (λ b. Elem z (collect rules results (if b then set_insert node set else set))) e
            h)) [ inl r ↦ inl (inr r.0, r.1) | inr n ↦ inr n ]
  ]

  collect-keeps :
      (results set : List (NodeItem F)) (k : Bytes)
      → Elem k (names set)
      → Elem k (names (collect rules results set))
  unfolding collect
  collect-keeps [] set k h = h
  collect-keeps (node ∷ results) set k h = elim (Bool-cases (passes node.name rules)) [
    | inl e ↦ rw e (collect-keeps results (set_insert node set) k (set_insert-keeps k node set h))
    | inr e ↦ rw e (collect-keeps results set k h)
  ]

  collect_complete :
      (results set : List (NodeItem F)) (z : NodeItem F)
      → Elem z results
      → Matches rules z.name
      → Elem z.name (names (collect rules results set))
  unfolding collect
  collect_complete [] set z h m = elim h [ ]
  collect_complete (node ∷ results) set z (inl e) m =
      let p : passes node.name rules ≡ true =
        subst (λ n. passes n rules ≡ true) (ap (λ (x : NodeItem F). x.name) e)
          (passes_complete z.name rules m) in
      rw (p, e) (collect-keeps results (set_insert node set) node.name (set_insert_self node set))
  collect_complete (node ∷ results) set z (inr h) m =
      collect_complete results (if passes node.name rules then set_insert node set else set) z h m

names-Permutes :
    {F : Type 0} {xs ys : List (NodeItem F)} → Permutes xs ys → Permutes (names xs) (names ys)
names-Permutes nil = nil
names-Permutes (skip x p) = skip x.name (names-Permutes p)
names-Permutes (swap x y xs) = swap x.name y.name (names xs)
names-Permutes (trans p q) = trans (names-Permutes p) (names-Permutes q)

-- If `std::sort` sorts by the weights, then `filter_result`, started with no results, returns the
-- first `max` names, in the order of their weights, of nodes with distinct names that are results
-- with every rule as a part of the name; and every result with such a name is named by those nodes.
pub filter_result-Answer :
    {F : Type 0} (weight_lt : F → F → Bool) (sort : Sort F) (results : List (NodeItem F))
    (rules : List Bytes) (max : ℕ)
    → Sorts (rank_compare weight_lt) sort
    → Answer weight_lt results rules max (filter_result weight_lt sort results rules [] max)
unfolding filter_result
filter_result-Answer weight_lt sort results rules max law =
    let set = collect rules results [] in
    let s = law set in
    record {
      nodes = sort (rank_compare weight_lt) set;
      listed = refl;
      ordered = s.1;
      distinct =
          Permutes-Distinct (names-Permutes s.0)
            (Ascends-Distinct set (collect-Ascends rules results [] tt));
      sound = λ z h.
          elim (collect_sound rules results [] z (Permutes-Elem z (Permutes-sym s.0) h)) [
            | inl r ↦ r
            | inr n ↦ elim n [ ]
          ];
      complete = λ z h m.
          Permutes-Elem z.name (names-Permutes s.0) (collect_complete rules results [] z h m);
    }
