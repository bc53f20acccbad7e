-- ===== src/Prelude/Bits.antt =====
-- Masks on one byte as arithmetic; each is a table of 256 entries, checked by evaluation.
use Prim.Native.Nat.{ℕ, zero, suc, ◌+◌, ◌*◌, ◌/◌, ◌%◌, ◌^◌, ◌<◌, bit_and, bit_or}
use chibidb.Prelude.Tests.{◌==◌}
use mathlib.Core.Path.{◌≡◌, refl}
use mathlib.Core.Bool.{Bool, true, false, not, ◌||◌}
use mathlib.Core.Logic.{ite}
use native.Mathlib.Decide.{ℕ_discrete}
use native.Mathlib.Omega.{arith}

module _ (f g : ℕ → ℕ) where
  agree_below : ℕ → Bool
  unfolding ℕ_discrete
  agree_below zero = true
  agree_below (suc n) = ite (ℕ_discrete (f n) (g n)) (agree_below n) false

  eq_of_agree_below : (n : ℕ) → agree_below n ≡ true → (i : ℕ) → i < n → f i ≡ g i
  unfolding agree_below
  eq_of_agree_below zero e i h = absurd (omega arith)
  eq_of_agree_below (suc n) e i h = ground (arith, eq_of_agree_below n (ground arith) i)

pub low_bits : (b : ℕ) → b < 256 → bit_and b 0x7f ≡ b % 128
unfolding agree_below
low_bits = eq_of_agree_below _ _ 256 refl

pub top_bit : (b : ℕ) → b < 256 → bit_and b 0x80 ≡ b / 128 * 128
unfolding agree_below
top_bit = eq_of_agree_below _ _ 256 refl

pub set_top_bit : (b : ℕ) → b < 256 → bit_or b 0x80 ≡ b % 128 + 128
unfolding agree_below
set_top_bit = eq_of_agree_below _ _ 256 refl

-- The bit `j` of a byte.
abbrev pub bit_test : ℕ → ℕ → Bool
bit_test b j = not (bit_and b (2 ^ j) == 0)

abbrev as_number : Bool → ℕ
as_number true = 1
as_number false = 0

-- A byte and two of its bits in one number.
abbrev after_set : ℕ → ℕ
after_set n = as_number (bit_test (bit_or (n % 256) (2 ^ (n / 256 % 8))) (n / 2048))

abbrev before_set : ℕ → ℕ
before_set n = as_number ((n / 256 % 8 == n / 2048) || bit_test (n % 256) (n / 2048))

table : (n : ℕ) → n < 16384 → after_set n ≡ before_set n
unfolding agree_below
table = eq_of_agree_below after_set before_set 16384 refl

pub bit_test-bit_or :
    (b i j : ℕ)
    → b < 256
    → i < 8
    → j < 8
    → bit_test (bit_or b (2 ^ i)) j ≡ ((i == j) || bit_test b j)
bit_test-bit_or b i j hb hi hj =
    unpack (b + 256 * (i + 8 * j)) (omega arith) (omega arith) (omega arith)
      (table (b + 256 * (i + 8 * j)) (omega arith))
  where
    same_number : (p q : Bool) → as_number p ≡ as_number q → p ≡ q
    same_number true true h = refl
    same_number false false h = refl
    same_number true false h = absurd (omega arith)
    same_number false true h = absurd (omega arith)

    unpack :
        (n : ℕ)
        → n % 256 ≡ b
        → n / 256 % 8 ≡ i
        → n / 2048 ≡ j
        → after_set n ≡ before_set n
        → bit_test (bit_or b (2 ^ i)) j ≡ ((i == j) || bit_test b j)
    unpack n p q r t = same_number _ _ (rw (p, q, r) at t)

-- Setting a bit of a byte gives a byte.
abbrev set_excess : ℕ → ℕ
set_excess n = bit_or (n % 256) (2 ^ (n / 256)) / 256

pub bit_or_below : (b i : ℕ) → b < 256 → i < 8 → bit_or b (2 ^ i) < 256
unfolding agree_below
bit_or_below b i hb hi =
    unpack (b + 256 * i) (omega arith) (omega arith)
      (eq_of_agree_below set_excess (λ n. 0) 2048 refl (b + 256 * i) (omega arith))
  where
    unpack : (n : ℕ) → n % 256 ≡ b → n / 256 ≡ i → set_excess n ≡ 0 → bit_or b (2 ^ i) < 256
    unpack n p q t = let s = rw (p, q) at t in omega arith

pub bit_test_zero : (j : ℕ) → j < 8 → bit_test 0 j ≡ false
unfolding agree_below
bit_test_zero j h =
    none_set _ (eq_of_agree_below (λ i. as_number (bit_test 0 i)) (λ i. 0) 8 refl j h)
  where
    none_set : (b : Bool) → as_number b ≡ 0 → b ≡ false
    none_set true e = absurd (omega arith)
    none_set false e = refl
