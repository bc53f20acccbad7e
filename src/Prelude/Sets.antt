-- ===== src/Prelude/Sets.antt =====
-- Finite sets as lists, over keys with a decidable equality: `HashSet` and the tests on vectors.
use mathlib.Core.Path.{◌≡◌, refl, sym, ◌∙◌}
use mathlib.Core.Logic.{ite, if_pos, if_neg}
use mathlib.Core.Bool.{Bool, true, false, ◌||◌}
use mathlib.Core.List.{List, [], ◌∷◌, ◌++◌}
use native.Mathlib.Omega.{arith}
use chibidb.Prelude.Tests.{if◌then◌else◌}

module _ {ℓ} {A : Type ℓ} (dec : Discrete A) where
  abbrev pub contains : A → List A → Bool
  contains a [] = false
  contains a (x ∷ xs) = ite (dec x a) true (contains a xs)

  -- `HashSet::insert`.
  abbrev pub add : A → List A → List A
  add a xs = if contains a xs then xs else a ∷ xs

  -- `HashSet::remove`, and `retain(|x| x != a)`: every element but `a`, in order.
  abbrev pub without : A → List A → List A
  without a [] = []
  without a (x ∷ xs) = ite (dec x a) (without a xs) (x ∷ without a xs)

  -- `HashSet::extend`.
  abbrev pub add_all : List A → List A → List A
  add_all [] ys = ys
  add_all (x ∷ xs) ys = add_all xs (add x ys)

module _ {ℓ} {A : Type ℓ} (dec : Discrete A) where
  pub contains_head : (a : A) (xs : List A) → contains dec a (a ∷ xs) ≡ true
  contains_head a xs = elim (dec a a) [ yes p ↦ ground arith | no p ↦ absurd (p refl) ]

  pub contains-without :
      (a b : A) (xs : List A)
      → contains dec b (without dec a xs) ≡ ite (dec a b) false (contains dec b xs)
  contains-without a b [] = ground arith
  contains-without a b (x ∷ xs) = elim (dec x a) [
    | yes p ↦ rw (if_pos _ p) (
        contains-without a b xs ∙ elim (dec a b) [
          | yes q ↦ rw (if_pos _ q, if_pos _ q)
          | no q ↦ rw (if_neg _ q, if_neg _ q) (sym (if_neg (dec x b) (λ r. q (sym p ∙ r)) _ _))
        ])
    | no p ↦ rw (if_neg _ p) (elim (dec x b) [
      | yes q ↦ rw (if_pos _ q, if_pos _ q) (sym (if_neg (dec a b) (λ r. p (q ∙ sym r)) false true))
      | no q ↦ rw (if_neg _ q, if_neg _ q) (contains-without a b xs)
    ])
  ]

  pub contains-add :
      (a b : A) (xs : List A)
      → contains dec b (add dec a xs) ≡ ite (dec a b) true (contains dec b xs)
  contains-add a b xs = ground arith

  pub contains-append :
      (a : A) (xs ys : List A)
      → contains dec a (xs ++ ys) ≡ (contains dec a xs || contains dec a ys)
  contains-append a [] ys = refl
  contains-append a (x ∷ xs) ys = ground (arith, contains-append a xs ys)

  pub contains-add_all :
      (a : A) (xs ys : List A)
      → contains dec a (add_all dec xs ys) ≡ (contains dec a xs || contains dec a ys)
  contains-add_all a [] ys = refl
  contains-add_all a (x ∷ xs) ys =
      ground (arith, contains-add_all a xs (add dec x ys), contains-add x a ys)

-- No element twice.
abbrev pub Distinct {ℓ} : {A : Type ℓ} → Discrete A → List A → Type 0
Distinct dec [] = Unit {0}
Distinct dec (x ∷ xs) = (contains dec x xs ≡ false) × Distinct dec xs
