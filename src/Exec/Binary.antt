-- ===== src/Exec/Binary.antt =====
-- src/exec/eval.rs: the operators on values. A value is the bits of Index/Key. The arithmetic of f64 is a
-- parameter; its order and its tests for zero are read off the bits.
pub mod Logic
pub mod Compare
mod Tests
use chibidb.Prelude.{
  ℕ, ◌+◌, ◌-◌, ◌*◌, ◌/◌, ◌%◌, ◌^◌, Bool, true, false, not, ◌&&◌, ◌||◌, ltb, ◌==◌, if◌then◌else◌,
  List, Option, none, some,
}
use chibidb.Prelude.Bytes.{lt_bytes}
use chibidb.Prelude.Result.{Error, Result, ok, err, ◌>>=◌}
use chibidb.Index.Key.{Value, flip_sign, normal_zero, ordered}
use chibidb.Exec.Int64.{
  checked_add, checked_sub, checked_mul, checked_div, checked_rem, checked_neg,
}
use chibidb.Sql.Datetime.{parse_date}
use Prim.Native.Nat.{compare, Ordering}

pub data BinOp : Type 0 where
  add sub mul div mod_op eq not_eq lt le gt ge and or : BinOp

pub data UnOp : Type 0 where
  neg not_op : UnOp

abbrev pub type_mismatch {ℓ} : {A : Type ℓ} → Result A
type_mismatch = err (Error.runtime "type mismatch in expression")

abbrev pub div_by_zero {ℓ} : {A : Type ℓ} → Result A
div_by_zero = err (Error.runtime "division by zero")

-- `unreachable!()` of the source.
abbrev pub unreachable {ℓ} : {A : Type ℓ} → Result A
unreachable = err (Error.runtime "unreachable")

-- The arithmetic of f64 on the bits, and `as f64` of an i64.
pub record Floats : Type 0 where
  pub of_i64 : ℕ → ℕ
  pub add_f : ℕ → ℕ → ℕ
  pub sub_f : ℕ → ℕ → ℕ
  pub mul_f : ℕ → ℕ → ℕ
  pub div_f : ℕ → ℕ → ℕ
  pub rem_f : ℕ → ℕ → ℕ

abbrev pub or_overflow : Option ℕ → Result Value
or_overflow none = err (Error.runtime "integer overflow")
or_overflow (some n) = ok (Value.int n)

pub int_arith : BinOp → ℕ → ℕ → Result Value
int_arith BinOp.add a b = or_overflow (checked_add a b)
int_arith BinOp.sub a b = or_overflow (checked_sub a b)
int_arith BinOp.mul a b = or_overflow (checked_mul a b)
int_arith BinOp.div a b = if b == 0 then div_by_zero else or_overflow (checked_div a b)
int_arith BinOp.mod_op a b = if b == 0 then div_by_zero else or_overflow (checked_rem a b)
int_arith op a b = unreachable

-- `b == 0.0`.
abbrev pub is_zero_f : ℕ → Bool
is_zero_f b = normal_zero b == 0

pub float_arith : Floats → BinOp → ℕ → ℕ → Result Value
float_arith floats BinOp.add a b = ok (Value.float (floats.add_f a b))
float_arith floats BinOp.sub a b = ok (Value.float (floats.sub_f a b))
float_arith floats BinOp.mul a b = ok (Value.float (floats.mul_f a b))
float_arith floats BinOp.div a b =
    if is_zero_f b then div_by_zero else ok (Value.float (floats.div_f a b))
float_arith floats BinOp.mod_op a b =
    if is_zero_f b then div_by_zero else ok (Value.float (floats.rem_f a b))
float_arith floats op a b = unreachable

pub arithmetic : Floats → BinOp → Value → Value → Result Value
arithmetic floats op Value.null Value.null = ok Value.null
arithmetic floats op Value.null (Value.int b) = ok Value.null
arithmetic floats op Value.null (Value.float b) = ok Value.null
arithmetic floats op (Value.int a) Value.null = ok Value.null
arithmetic floats op (Value.float a) Value.null = ok Value.null
arithmetic floats op (Value.int a) (Value.int b) = int_arith op a b
arithmetic floats op (Value.float a) (Value.float b) = float_arith floats op a b
arithmetic floats op (Value.int a) (Value.float b) = float_arith floats op (floats.of_i64 a) b
arithmetic floats op (Value.float a) (Value.int b) = float_arith floats op a (floats.of_i64 b)
arithmetic floats op l r = type_mismatch

-- The order of two numbers of `w` bits with a sign.
abbrev pub compare_signed : ℕ → ℕ → ℕ → Ordering
compare_signed w a b = compare (flip_sign w a) (flip_sign w b)

abbrev pub is_nan : ℕ → Bool
is_nan b = ltb 0x7FF0000000000000 (b % 2 ^ 63)

-- `partial_cmp` of f64.
abbrev pub compare_floats : ℕ → ℕ → Option Ordering
compare_floats a b =
    if is_nan a || is_nan b
    then none
    else some (compare (ordered (normal_zero a)) (ordered (normal_zero b)))

abbrev pub compare_bytes : List ℕ → List ℕ → Ordering
compare_bytes a b =
    if lt_bytes a b then Ordering.lt else if lt_bytes b a then Ordering.gt else Ordering.eq

abbrev pub compare_bools : Bool → Bool → Ordering
compare_bools true true = Ordering.eq
compare_bools true false = Ordering.gt
compare_bools false true = Ordering.lt
compare_bools false false = Ordering.eq

pub cmp_values : Floats → Value → Value → Result (Option Ordering)
cmp_values floats Value.null r = ok none
cmp_values floats (Value.int a) Value.null = ok none
cmp_values floats (Value.float a) Value.null = ok none
cmp_values floats (Value.str a) Value.null = ok none
cmp_values floats (Value.bool a) Value.null = ok none
cmp_values floats (Value.date a) Value.null = ok none
cmp_values floats (Value.int a) (Value.int b) = ok (some (compare_signed 64 a b))
cmp_values floats (Value.int a) (Value.float b) = ok (compare_floats (floats.of_i64 a) b)
cmp_values floats (Value.float a) (Value.int b) = ok (compare_floats a (floats.of_i64 b))
cmp_values floats (Value.float a) (Value.float b) = ok (compare_floats a b)
cmp_values floats (Value.str a) (Value.str b) = ok (some (compare_bytes a b))
cmp_values floats (Value.bool a) (Value.bool b) = ok (some (compare_bools a b))
cmp_values floats (Value.date a) (Value.date b) = ok (some (compare_signed 32 a b))
cmp_values floats (Value.date a) (Value.str b) =
    parse_date b >>= (λ d. ok (some (compare_signed 32 a d)))
cmp_values floats (Value.str a) (Value.date b) =
    parse_date a >>= (λ d. ok (some (compare_signed 32 d b)))
cmp_values floats l r = type_mismatch

-- The `matches!` of `compare` for each result of the comparison.
pub holds : BinOp → Option Ordering → Bool
holds BinOp.not_eq none = true
holds BinOp.lt (some Ordering.lt) = true
holds BinOp.le (some Ordering.lt) = true
holds BinOp.not_eq (some Ordering.lt) = true
holds BinOp.le (some Ordering.eq) = true
holds BinOp.ge (some Ordering.eq) = true
holds BinOp.eq (some Ordering.eq) = true
holds BinOp.gt (some Ordering.gt) = true
holds BinOp.ge (some Ordering.gt) = true
holds BinOp.not_eq (some Ordering.gt) = true
holds op result = false

abbrev pub is_null : Value → Bool
is_null Value.null = true
is_null v = false

pub compare_values : Floats → BinOp → Value → Value → Result Value
compare_values floats op l r =
    if is_null l || is_null r
    then ok Value.null
    else cmp_values floats l r >>= (λ result. ok (Value.bool (holds op result)))

pub and_values : Value → Value → Result Value
and_values (Value.bool false) r = ok (Value.bool false)
and_values l (Value.bool false) = ok (Value.bool false)
and_values (Value.bool true) (Value.bool true) = ok (Value.bool true)
and_values (Value.bool true) Value.null = ok Value.null
and_values Value.null (Value.bool true) = ok Value.null
and_values Value.null Value.null = ok Value.null
and_values l r = type_mismatch

pub or_values : Value → Value → Result Value
or_values (Value.bool true) r = ok (Value.bool true)
or_values l (Value.bool true) = ok (Value.bool true)
or_values (Value.bool false) (Value.bool false) = ok (Value.bool false)
or_values (Value.bool false) Value.null = ok Value.null
or_values Value.null (Value.bool false) = ok Value.null
or_values Value.null Value.null = ok Value.null
or_values l r = type_mismatch

pub eval_binary : Floats → BinOp → Value → Value → Result Value
eval_binary floats BinOp.and l r = and_values l r
eval_binary floats BinOp.or l r = or_values l r
eval_binary floats BinOp.add l r = arithmetic floats BinOp.add l r
eval_binary floats BinOp.sub l r = arithmetic floats BinOp.sub l r
eval_binary floats BinOp.mul l r = arithmetic floats BinOp.mul l r
eval_binary floats BinOp.div l r = arithmetic floats BinOp.div l r
eval_binary floats BinOp.mod_op l r = arithmetic floats BinOp.mod_op l r
eval_binary floats op l r = compare_values floats op l r

-- The `match` of a unary operator; `-x` of f64 flips the highest bit.
pub eval_unary : UnOp → Value → Result Value
eval_unary UnOp.neg Value.null = ok Value.null
eval_unary UnOp.neg (Value.int n) = or_overflow (checked_neg n)
eval_unary UnOp.neg (Value.float x) = ok (Value.float ((x + 2 ^ 63) % 2 ^ 64))
eval_unary UnOp.not_op Value.null = ok Value.null
eval_unary UnOp.not_op (Value.bool b) = ok (Value.bool (not b))
eval_unary op v = type_mismatch
