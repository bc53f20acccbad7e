-- ===== src/Prelude/Bytes.antt =====
-- Byte strings in the order of `memcmp`, a prefix before what extends it.
use Prim.Native.Nat.{ℕ}
use mathlib.Core.Path.{◌≡◌, refl}
use mathlib.Core.Bool.{Bool, true, false, ◌&&◌, ◌||◌}
use mathlib.Core.List.{List, [], ◌∷◌}
use native.Mathlib.Omega.{arith}
use chibidb.Prelude.Tests.{ltb, ◌==◌}

unfoldable pub lt_bytes : List ℕ → List ℕ → Bool
lt_bytes [] [] = false
lt_bytes [] (b ∷ ys) = true
lt_bytes (a ∷ xs) [] = false
lt_bytes (a ∷ xs) (b ∷ ys) = let rest = lt_bytes xs ys in ltb a b || (a == b && rest)

pub lt_bytes_irrefl : (a : List ℕ) → lt_bytes a a ≡ false
unfolding lt_bytes
lt_bytes_irrefl [] = refl
lt_bytes_irrefl (a ∷ xs) = ground (arith, lt_bytes_irrefl xs)

pub lt_bytes_trans :
    (a b c : List ℕ) → lt_bytes a b ≡ true → lt_bytes b c ≡ true → lt_bytes a c ≡ true
unfolding lt_bytes
lt_bytes_trans [] [] c h j = ground arith
lt_bytes_trans [] (b ∷ ys) [] h j = ground arith
lt_bytes_trans [] (b ∷ ys) (c ∷ zs) h j = refl
lt_bytes_trans (a ∷ xs) [] c h j = ground arith
lt_bytes_trans (a ∷ xs) (b ∷ ys) [] h j = ground arith
lt_bytes_trans (a ∷ xs) (b ∷ ys) (c ∷ zs) h j = ground (arith, lt_bytes_trans xs ys zs)

-- Of two byte strings that are not ordered either way, the two are the same.
pub lt_bytes_connex : (a b : List ℕ) → lt_bytes a b ≡ false → lt_bytes b a ≡ false → a ≡ b
unfolding lt_bytes
lt_bytes_connex [] [] h j = refl
lt_bytes_connex [] (b ∷ ys) h j = ground arith
lt_bytes_connex (a ∷ xs) [] h j = ground arith
lt_bytes_connex (a ∷ xs) (b ∷ ys) h j = ground (arith, lt_bytes_connex xs ys)

pub lt_bytes_asymm : (a b : List ℕ) → lt_bytes a b ≡ true → lt_bytes b a ≡ false
unfolding lt_bytes
lt_bytes_asymm [] [] h = refl
lt_bytes_asymm [] (b ∷ ys) h = refl
lt_bytes_asymm (a ∷ xs) [] h = ground arith
lt_bytes_asymm (a ∷ xs) (b ∷ ys) h = ground (arith, lt_bytes_asymm xs ys)
