-- ===== src/Prelude/Result.antt =====
-- src/error.rs: the error of every fallible operation, and its result type.
use Prim.Native.String.{String}
use Prim.Native.Nat.{ℕ}
use mathlib.Core.Option.{Option}
use mathlib.Core.Path.{◌≡◌, refl, ap}
use mathlib.Core.Logic.{◌⊎◌, inl, inr}

pub data Error : Type 0 where
  syntax : String → Option ℕ → Error
  runtime : String → Error
  page_full retry unsupported : Error

pub data Result {ℓ} (A : Type ℓ) : Type ℓ where
  ok : A → Result A
  err : Error → Result A

infixl 5 ◌>>=◌
abbrev pub ◌>>=◌ {ℓ κ} : {A : Type ℓ} {B : Type κ} → Result A → (A → Result B) → Result B
ok a >>= f = f a
err e >>= f = err e

pub Result-cases {ℓ} :
    {A : Type ℓ} (r : Result A) → ((e : Error) × (r ≡ err e)) ⊎ ((a : A) × (r ≡ ok a))
Result-cases (err e) = inl (e, refl)
Result-cases (ok a) = inr (a, refl)

pub ok_pair_injective : {A B : Type 0} (p q : A × B) → ok p ≡ ok q → (p.0 ≡ q.0) × (p.1 ≡ q.1)
ok_pair_injective p q h = let same : p ≡ q = cc in (ap (λ x. x.0) same, ap (λ x. x.1) same)
