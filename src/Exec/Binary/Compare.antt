-- ===== src/Exec/Binary/Compare.antt =====
-- The six comparisons fit together.
use chibidb.Prelude.{
  ℕ, ◌≡◌, refl, sym, ap, inl, inr, Bool, true, false, not, ◌||◌, List, Option, none, some,
  Bool-cases, arith,
}
use chibidb.Prelude.Bytes.{lt_bytes_asymm}
use chibidb.Prelude.Result.{Result, ok, err, ◌>>=◌, Result-cases}
use chibidb.Index.Key.{Value, flip_sign, normal_zero, ordered}
use chibidb.Sql.Datetime.{parse_date}
use chibidb.Exec.Binary.{
  BinOp, UnOp, Floats, eval_unary, or_values, compare_floats, compare_bytes, compare_bools,
  cmp_values, holds, is_null, compare_values, eval_binary,
}
use Prim.Native.Nat.{compare, Ordering}

abbrev opposite : Ordering → Ordering
opposite Ordering.lt = Ordering.gt
opposite Ordering.eq = Ordering.eq
opposite Ordering.gt = Ordering.lt

abbrev opposite? : Option Ordering → Option Ordering
opposite? none = none
opposite? (some o) = some (opposite o)

compare_swap : (a b : ℕ) → compare b a ≡ opposite (compare a b)
compare_swap a b = ground arith

compare_floats_swap : (a b : ℕ) → compare_floats b a ≡ opposite? (compare_floats a b)
compare_floats_swap a b =
    ground (arith, compare_swap (ordered (normal_zero a)) (ordered (normal_zero b)))

compare_bytes_swap : (a b : List ℕ) → compare_bytes b a ≡ opposite (compare_bytes a b)
compare_bytes_swap a b = ground (arith, lt_bytes_asymm a b, lt_bytes_asymm b a)

compare_bools_swap : (a b : Bool) → compare_bools b a ≡ opposite (compare_bools a b)
compare_bools_swap true true = refl
compare_bools_swap true false = refl
compare_bools_swap false true = refl
compare_bools_swap false false = refl

abbrev swapped : Result (Option Ordering) → Result (Option Ordering)
swapped (ok o) = ok (opposite? o)
swapped (err e) = err e

cmp_values_swap :
    (floats : Floats) (l r : Value) → cmp_values floats r l ≡ swapped (cmp_values floats l r)
unfolding cmp_values
cmp_values_swap floats (Value.int a) (Value.int b) =
    ap (λ (o : Ordering). ok (some o)) (compare_swap (flip_sign 64 a) (flip_sign 64 b))
cmp_values_swap floats (Value.int a) (Value.float b) =
    ap (λ (o : Option Ordering). ok o) (compare_floats_swap (floats.of_i64 a) b)
cmp_values_swap floats (Value.float a) (Value.int b) =
    ap (λ (o : Option Ordering). ok o) (compare_floats_swap a (floats.of_i64 b))
cmp_values_swap floats (Value.float a) (Value.float b) =
    ap (λ (o : Option Ordering). ok o) (compare_floats_swap a b)
cmp_values_swap floats (Value.str a) (Value.str b) =
    ap (λ (o : Ordering). ok (some o)) (compare_bytes_swap a b)
cmp_values_swap floats (Value.bool a) (Value.bool b) =
    ap (λ (o : Ordering). ok (some o)) (compare_bools_swap a b)
cmp_values_swap floats (Value.date a) (Value.date b) =
    ap (λ (o : Ordering). ok (some o)) (compare_swap (flip_sign 32 a) (flip_sign 32 b))
cmp_values_swap floats (Value.date a) (Value.str b) = elim (Result-cases (parse_date b)) [
  | inl (e, g) ↦ rw g refl
  | inr (d, g) ↦
      rw g (ap (λ (o : Ordering). ok (some o)) (compare_swap (flip_sign 32 a) (flip_sign 32 d)))
]
cmp_values_swap floats (Value.str a) (Value.date b) = elim (Result-cases (parse_date a)) [
  | inl (e, g) ↦ rw g refl
  | inr (d, g) ↦
      rw g (ap (λ (o : Ordering). ok (some o)) (compare_swap (flip_sign 32 d) (flip_sign 32 b)))
]
cmp_values_swap floats l r = ground arith

-- The operator that says of the swapped operands what another says of the operands.
abbrev mirror : BinOp → BinOp
mirror BinOp.lt = BinOp.gt
mirror BinOp.le = BinOp.ge
mirror BinOp.gt = BinOp.lt
mirror BinOp.ge = BinOp.le
mirror op = op

holds-mirror : (op : BinOp) (o : Option Ordering) → holds (mirror op) (opposite? o) ≡ holds op o
unfolding holds
holds-mirror op o = ground arith

compare_values-mirror :
    (floats : Floats) (op : BinOp) (l r : Value)
    → compare_values floats (mirror op) r l ≡ compare_values floats op l r
unfolding compare_values
compare_values-mirror floats op l r = elim (Bool-cases (is_null l)) [
  | inl e ↦ elim (Bool-cases (is_null r)) [ inl f ↦ rw (e, f) refl | inr f ↦ rw (e, f) refl ]
  | inr e ↦ elim (Bool-cases (is_null r)) [
    | inl f ↦ rw (e, f) refl
    | inr f ↦
        rw (e, f, cmp_values_swap floats l r)
          (elim (Result-cases (cmp_values floats l r)) [
            | inl (x, g) ↦ rw g refl
            | inr (o, g) ↦ rw g (ap (λ (b : Bool). ok (Value.bool b)) (holds-mirror op o))
          ])
  ]
]

holds_le : (o : Option Ordering) → holds BinOp.le o ≡ (holds BinOp.lt o || holds BinOp.eq o)
unfolding holds
holds_le o = ground arith

holds_not_eq : (o : Option Ordering) → holds BinOp.not_eq o ≡ not (holds BinOp.eq o)
unfolding holds
holds_not_eq o = ground arith

or_values_bools : (a b : Bool) → or_values (Value.bool a) (Value.bool b) ≡ ok (Value.bool (a || b))
unfolding or_values
or_values_bools a b = ground arith

module _ (floats : Floats) (l r : Value) where
  compare_values-le : compare_values floats BinOp.le l r ≡ (
      compare_values floats BinOp.lt l r
      >>= (λ a. compare_values floats BinOp.eq l r >>= (λ b. or_values a b)))
  unfolding compare_values
  compare_values-le = elim (Bool-cases (is_null l || is_null r)) [
    | inl e ↦ rw e (unfold or_values in refl)
    | inr e ↦ rw e (elim (Result-cases (cmp_values floats l r)) [
      | inl (x, g) ↦ rw g refl
      | inr (o, g) ↦
          rw (g, holds_le o) (sym (or_values_bools (holds BinOp.lt o) (holds BinOp.eq o)))
    ])
  ]

  compare_values-not_eq :
      compare_values floats BinOp.not_eq l r
      ≡ (compare_values floats BinOp.eq l r >>= (λ b. eval_unary UnOp.not_op b))
  unfolding compare_values eval_unary
  compare_values-not_eq = elim (Bool-cases (is_null l || is_null r)) [
    | inl e ↦ rw e refl
    | inr e ↦ rw e (elim (Result-cases (cmp_values floats l r)) [
      | inl (x, g) ↦ rw g refl
      | inr (o, g) ↦ rw (g, holds_not_eq o) refl
    ])
  ]

  -- On all values, NULL, NaN and operands that cannot be compared included: `>` and `>=` are `<` and `<=` of the
  -- swapped operands, `=` does not depend on their order, `<=` is `<` OR `=`, and `<>` is NOT `=`.
  pub eval_binary-comparisons :
      (eval_binary floats BinOp.gt l r ≡ eval_binary floats BinOp.lt r l)
      × (eval_binary floats BinOp.ge l r ≡ eval_binary floats BinOp.le r l)
      × (eval_binary floats BinOp.eq l r ≡ eval_binary floats BinOp.eq r l)
      × (eval_binary floats BinOp.le l r ≡ (
          eval_binary floats BinOp.lt l r
          >>= (λ a. eval_binary floats BinOp.eq l r >>= (λ b. eval_binary floats BinOp.or a b))))
      × (eval_binary floats BinOp.not_eq l r
          ≡ (eval_binary floats BinOp.eq l r >>= (λ b. eval_unary UnOp.not_op b)))
  unfolding eval_binary
  eval_binary-comparisons = (
    sym (compare_values-mirror floats BinOp.gt l r),
    sym (compare_values-mirror floats BinOp.ge l r),
    sym (compare_values-mirror floats BinOp.eq l r),
    compare_values-le,
    compare_values-not_eq,
  )
