-- ===== src/Prelude/Permutes.antt =====
-- Permutations of a list, by their derivations.
use mathlib.Core.Logic.{inl, inr}
use mathlib.Core.Path.{sym}
use mathlib.Core.List.{List, [], ◌∷◌}
use prefix_match_server.Prelude.Lists.{Elem, Distinct}

pub data Permutes {ℓ} {A : Type ℓ} : List A → List A → Type ℓ where
  nil : Permutes [] []
  skip : (x : A) {xs ys : List A} → Permutes xs ys → Permutes (x ∷ xs) (x ∷ ys)
  swap : (x y : A) (xs : List A) → Permutes (x ∷ y ∷ xs) (y ∷ x ∷ xs)
  trans : {xs ys zs : List A} → Permutes xs ys → Permutes ys zs → Permutes xs zs

module _ {ℓ} {A : Type ℓ} where
  pub Permutes-refl : (xs : List A) → Permutes xs xs
  Permutes-refl [] = nil
  Permutes-refl (x ∷ xs) = skip x (Permutes-refl xs)

  pub Permutes-sym : {xs ys : List A} → Permutes xs ys → Permutes ys xs
  Permutes-sym nil = nil
  Permutes-sym (skip x p) = skip x (Permutes-sym p)
  Permutes-sym (swap x y xs) = swap y x xs
  Permutes-sym (trans p q) = trans (Permutes-sym q) (Permutes-sym p)

  pub Permutes-Elem : (z : A) {xs ys : List A} → Permutes xs ys → Elem z xs → Elem z ys
  Permutes-Elem z nil h = h
  Permutes-Elem z (skip x p) (inl e) = inl e
  Permutes-Elem z (skip x p) (inr h) = inr (Permutes-Elem z p h)
  Permutes-Elem z (swap x y xs) (inl e) = inr (inl e)
  Permutes-Elem z (swap x y xs) (inr (inl e)) = inl e
  Permutes-Elem z (swap x y xs) (inr (inr h)) = inr (inr h)
  Permutes-Elem z (trans p q) h = Permutes-Elem z q (Permutes-Elem z p h)

  pub Permutes-Distinct : {xs ys : List A} → Permutes xs ys → Distinct xs → Distinct ys
  Permutes-Distinct nil d = d
  Permutes-Distinct (skip x p) d =
      (λ h. d.0 (Permutes-Elem x (Permutes-sym p) h), Permutes-Distinct p d.1)
  Permutes-Distinct (swap x y xs) d =
      (λ h. elim h [ inl e ↦ d.0 (inl (sym e)) | inr m ↦ d.1.0 m ], (λ m. d.0 (inr m), d.1.1))
  Permutes-Distinct (trans p q) d = Permutes-Distinct q (Permutes-Distinct p d)
