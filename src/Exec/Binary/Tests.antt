-- ===== src/Exec/Binary/Tests.antt =====
-- Operators on small values, with a stand-in for the arithmetic of f64.
use chibidb.Prelude.{ℕ, ◌-◌, ◌^◌, ◌≡◌, refl, true}
use chibidb.Prelude.Result.{Error, ok, err, ◌>>=◌}
use chibidb.Index.Key.{Value}
use chibidb.Exec.Int64.{to_int, of_int, checked_add, checked_div, checked_rem}
use chibidb.Exec.Binary.{BinOp, UnOp, Floats, int_arith, or_values, eval_binary, eval_unary}
use chibidb.Exec.Binary.Logic.{Truth, of_truth, least, greatest, opposite, eval_binary-Truth}
use chibidb.Exec.Binary.Compare.{eval_binary-comparisons}

abbrev floats : Floats
floats = record {
  of_i64 = λ n. n;
  add_f = λ a b. a;
  sub_f = λ a b. a;
  mul_f = λ a b. a;
  div_f = λ a b. a;
  rem_f = λ a b. a;
}

-- -7 and 2.
abbrev minus_seven : ℕ
minus_seven = 2 ^ 64 - 7

overflows : int_arith BinOp.add (2 ^ 63 - 1) 1 ≡ err (Error.runtime "integer overflow")
unfolding int_arith checked_add to_int of_int
overflows = refl

least_by_minus_one :
    int_arith BinOp.mod_op (2 ^ 63) (2 ^ 64 - 1) ≡ err (Error.runtime "integer overflow")
unfolding int_arith checked_rem checked_div to_int of_int
least_by_minus_one = refl

null_or_true : eval_binary floats BinOp.or Value.null (Value.bool true) ≡ ok (Value.bool true)
unfolding eval_binary or_values
null_or_true = refl

eval_binary-Truth_example :
    (eval_binary floats BinOp.and (of_truth Truth.unknown) (of_truth Truth.no)
      ≡ ok (of_truth (least Truth.unknown Truth.no)))
    × (eval_binary floats BinOp.or (of_truth Truth.unknown) (of_truth Truth.no)
        ≡ ok (of_truth (greatest Truth.unknown Truth.no)))
    × (eval_unary UnOp.not_op (of_truth Truth.unknown) ≡ ok (of_truth (opposite Truth.unknown)))
    × (eval_binary floats BinOp.and (Value.int 3) Value.null
        ≡ eval_binary floats BinOp.and Value.null (Value.int 3))
    × (eval_binary floats BinOp.or (Value.int 3) Value.null
        ≡ eval_binary floats BinOp.or Value.null (Value.int 3))
eval_binary-Truth_example = eval_binary-Truth floats Truth.unknown Truth.no (Value.int 3) Value.null

eval_binary-comparisons_example :
    (eval_binary floats BinOp.gt (Value.int minus_seven) (Value.int 2)
      ≡ eval_binary floats BinOp.lt (Value.int 2) (Value.int minus_seven))
    × (eval_binary floats BinOp.ge (Value.int minus_seven) (Value.int 2)
        ≡ eval_binary floats BinOp.le (Value.int 2) (Value.int minus_seven))
    × (eval_binary floats BinOp.eq (Value.int minus_seven) (Value.int 2)
        ≡ eval_binary floats BinOp.eq (Value.int 2) (Value.int minus_seven))
    × (eval_binary floats BinOp.le (Value.int minus_seven) (Value.int 2) ≡ (
        eval_binary floats BinOp.lt (Value.int minus_seven) (Value.int 2) >>= (λ a.
          eval_binary floats BinOp.eq (Value.int minus_seven) (Value.int 2)
          >>= (λ b. eval_binary floats BinOp.or a b))))
    × (eval_binary floats BinOp.not_eq (Value.int minus_seven) (Value.int 2) ≡ (
        eval_binary floats BinOp.eq (Value.int minus_seven) (Value.int 2)
        >>= (λ b. eval_unary UnOp.not_op b)))
eval_binary-comparisons_example =
    eval_binary-comparisons floats (Value.int minus_seven) (Value.int 2)
