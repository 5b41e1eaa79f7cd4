-- ===== src/Prelude/Lists.antt =====
-- Lists measured by native numbers, and predicates on lists by recursion.
use Prim.Native.Nat.{ℕ, suc, ◌+◌}
use mathlib.Core.Path.{◌≡◌, sym, subst}
use mathlib.Core.Logic.{◌⊎◌, inl, inr}
use mathlib.Core.List.{List, [], ◌∷◌, ◌++◌}
use native.Mathlib.Omega.{arith}

module _ {ℓ} {A : Type ℓ} where
  abbrev pub length : List A → ℕ
  length [] = 0
  length (x ∷ xs) = suc (length xs)

  pub length-append : (xs ys : List A) → length (xs ++ ys) ≡ length xs + length ys
  length-append [] ys = omega arith
  length-append (x ∷ xs) ys = omega (arith, length-append xs ys)

-- Every element has the property.
abbrev pub All {ℓ κ} : {A : Type ℓ} → (A → Type κ) → List A → Type κ
All P [] = Unit
All P (x ∷ xs) = P x × All P xs

module _ {ℓ κ} {A : Type ℓ} (P : A → Type κ) where
  pub All-append : (xs ys : List A) → All P xs → All P ys → All P (xs ++ ys)
  All-append [] ys hx hy = hy
  All-append (x ∷ xs) ys hx hy = (hx.0, All-append xs ys hx.1 hy)

-- The element stands somewhere in the list.
pub data Member {ℓ} {A : Type ℓ} (a : A) : List A → Type ℓ where
  here : {x : A} {xs : List A} → a ≡ x → Member a (x ∷ xs)
  there : {x : A} {xs : List A} → Member a xs → Member a (x ∷ xs)

module _ {ℓ} {A : Type ℓ} (a : A) where
  pub Member-append_left : (xs ys : List A) → Member a xs → Member a (xs ++ ys)
  Member-append_left [] ys m = elim m [ ]
  Member-append_left (x ∷ xs) ys (here e) = here e
  Member-append_left (x ∷ xs) ys (there m) = there (Member-append_left xs ys m)

  pub Member-append_right : (xs ys : List A) → Member a ys → Member a (xs ++ ys)
  Member-append_right [] ys m = m
  Member-append_right (x ∷ xs) ys m = there (Member-append_right xs ys m)

  pub Member-append : (xs ys : List A) → Member a (xs ++ ys) → Member a xs ⊎ Member a ys
  Member-append [] ys m = inr m
  Member-append (x ∷ xs) ys (here e) = inl (here e)
  Member-append (x ∷ xs) ys (there m) = elim (Member-append xs ys m) [
    | inl before ↦ inl (there before)
    | inr behind ↦ inr behind
  ]

pub Member-cons {ℓ} :
    {A : Type ℓ} {a x : A} {xs : List A} → Member a (x ∷ xs) → (a ≡ x) ⊎ Member a xs
Member-cons (here e) = inl e
Member-cons (there m) = inr m

module _ {ℓ κ} {A : Type ℓ} (P : A → Type κ) where
  pub All-Member : (a : A) (xs : List A) → All P xs → Member a xs → P a
  All-Member a [] h m = elim m [ ]
  All-Member a (x ∷ xs) h (here e) = subst P (sym e) h.0
  All-Member a (x ∷ xs) h (there m) = All-Member a xs h.1 m

pub All-map {ℓ κ μ} :
    {A : Type ℓ} (P : A → Type κ) (Q : A → Type μ) (xs : List A)
    → ((a : A) → P a → Q a)
    → All P xs
    → All Q xs
All-map P Q [] f h = tt
All-map P Q (x ∷ xs) f h = (f x h.0, All-map P Q xs f h.1)
