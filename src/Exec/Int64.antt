-- ===== src/Exec/Int64.antt =====
-- `i64` as the number of its 64 bits, and its checked operations, which give nothing when the exact result
-- does not fit.
use chibidb.Prelude.{
  ℕ, zero, suc, ◌+◌, ◌-◌, ◌*◌, ◌/◌, ◌%◌, ◌^◌, ltb, if◌then◌else◌, Option, none, some,
}

-- An integer, over the native numbers; `negsuc n` is -(n + 1).
pub data ℤ : Type 0 where
  pos : ℕ → ℤ
  negsuc : ℕ → ℤ

abbrev pub neg : ℤ → ℤ
neg (ℤ.pos zero) = ℤ.pos 0
neg (ℤ.pos (suc n)) = ℤ.negsuc n
neg (ℤ.negsuc n) = ℤ.pos (suc n)

infixl 60 ◌+ℤ◌
abbrev pub ◌+ℤ◌ : ℤ → ℤ → ℤ
ℤ.pos a +ℤ ℤ.pos b = ℤ.pos (a + b)
ℤ.pos a +ℤ ℤ.negsuc b = if ltb b a then ℤ.pos (a - b - 1) else ℤ.negsuc (b - a)
ℤ.negsuc a +ℤ ℤ.pos b = if ltb a b then ℤ.pos (b - a - 1) else ℤ.negsuc (a - b)
ℤ.negsuc a +ℤ ℤ.negsuc b = ℤ.negsuc (a + b + 1)

infixl 60 ◌-ℤ◌
abbrev pub ◌-ℤ◌ : ℤ → ℤ → ℤ
a -ℤ b = a +ℤ neg b

infixl 70 ◌*ℤ◌
abbrev pub ◌*ℤ◌ : ℤ → ℤ → ℤ
ℤ.pos a *ℤ ℤ.pos b = ℤ.pos (a * b)
ℤ.pos a *ℤ ℤ.negsuc b = neg (ℤ.pos (a * suc b))
ℤ.negsuc a *ℤ ℤ.pos b = neg (ℤ.pos (suc a * b))
ℤ.negsuc a *ℤ ℤ.negsuc b = ℤ.pos (suc a * suc b)

-- `/` and `%` of Rust: the quotient is rounded towards zero, the remainder has the sign of the dividend.
abbrev pub quot : ℤ → ℤ → ℤ
quot (ℤ.pos a) (ℤ.pos b) = ℤ.pos (a / b)
quot (ℤ.pos a) (ℤ.negsuc b) = neg (ℤ.pos (a / suc b))
quot (ℤ.negsuc a) (ℤ.pos b) = neg (ℤ.pos (suc a / b))
quot (ℤ.negsuc a) (ℤ.negsuc b) = ℤ.pos (suc a / suc b)

abbrev pub rem : ℤ → ℤ → ℤ
rem (ℤ.pos a) (ℤ.pos b) = ℤ.pos (a % b)
rem (ℤ.pos a) (ℤ.negsuc b) = ℤ.pos (a % suc b)
rem (ℤ.negsuc a) (ℤ.pos b) = neg (ℤ.pos (suc a % b))
rem (ℤ.negsuc a) (ℤ.negsuc b) = neg (ℤ.pos (suc a % suc b))

-- The integer of 64 bits, and the bits of an integer that fits.
unfoldable pub to_int : ℕ → ℤ
to_int n = if ltb n (2 ^ 63) then ℤ.pos n else ℤ.negsuc (2 ^ 64 - 1 - n)

unfoldable pub of_int : ℤ → Option ℕ
of_int (ℤ.pos m) = if ltb m (2 ^ 63) then some m else none
of_int (ℤ.negsuc m) = if ltb m (2 ^ 63) then some (2 ^ 64 - 1 - m) else none

unfoldable pub checked_add : ℕ → ℕ → Option ℕ
checked_add a b = of_int (to_int a +ℤ to_int b)

unfoldable pub checked_sub : ℕ → ℕ → Option ℕ
checked_sub a b = of_int (to_int a -ℤ to_int b)

unfoldable pub checked_mul : ℕ → ℕ → Option ℕ
checked_mul a b = of_int (to_int a *ℤ to_int b)

unfoldable pub checked_div : ℕ → ℕ → Option ℕ
checked_div a b = of_int (quot (to_int a) (to_int b))

-- It gives nothing where the quotient does not fit.
unfoldable pub checked_rem : ℕ → ℕ → Option ℕ
checked_rem a b = elim (checked_div a b) [
  | none ↦ none
  | some q ↦ of_int (rem (to_int a) (to_int b))
]

unfoldable pub checked_neg : ℕ → Option ℕ
checked_neg a = of_int (neg (to_int a))
