-- ===== src/Exec/Binary/Logic.antt =====
-- AND, OR and NOT are Kleene's: false, unknown, true in this order.
use chibidb.Prelude.{ℕ, ◌≡◌, true, false, leb, if◌then◌else◌, arith}
use chibidb.Prelude.Result.{ok}
use chibidb.Index.Key.{Value}
use chibidb.Exec.Binary.{BinOp, UnOp, Floats, and_values, or_values, eval_binary, eval_unary}

-- A truth value of SQL, unknown being NULL.
pub data Truth : Type 0 where
  no unknown yes : Truth

abbrev pub of_truth : Truth → Value
of_truth Truth.no = Value.bool false
of_truth Truth.unknown = Value.null
of_truth Truth.yes = Value.bool true

abbrev pub rank : Truth → ℕ
rank Truth.no = 0
rank Truth.unknown = 1
rank Truth.yes = 2

abbrev pub least : Truth → Truth → Truth
least s t = if leb (rank s) (rank t) then s else t

abbrev pub greatest : Truth → Truth → Truth
greatest s t = if leb (rank s) (rank t) then t else s

and_values_comm : (l r : Value) → and_values l r ≡ and_values r l
unfolding and_values
and_values_comm l r = ground arith

or_values_comm : (l r : Value) → or_values l r ≡ or_values r l
unfolding or_values
or_values_comm l r = ground arith

and_values-least : (s t : Truth) → and_values (of_truth s) (of_truth t) ≡ ok (of_truth (least s t))
unfolding and_values
and_values-least s t = ground arith

or_values-greatest :
    (s t : Truth) → or_values (of_truth s) (of_truth t) ≡ ok (of_truth (greatest s t))
unfolding or_values
or_values-greatest s t = ground arith

abbrev pub opposite : Truth → Truth
opposite Truth.no = Truth.yes
opposite Truth.unknown = Truth.unknown
opposite Truth.yes = Truth.no

eval_unary-opposite : (s : Truth) → eval_unary UnOp.not_op (of_truth s) ≡ ok (of_truth (opposite s))
unfolding eval_unary
eval_unary-opposite s = ground arith

-- On truth values AND is the least, OR the greatest and NOT turns the order around, with NULL in the middle; on all
-- values, errors included, AND and OR do not depend on the order of their operands.
pub eval_binary-Truth :
    (floats : Floats) (s t : Truth) (l r : Value)
    → (eval_binary floats BinOp.and (of_truth s) (of_truth t) ≡ ok (of_truth (least s t)))
      × (eval_binary floats BinOp.or (of_truth s) (of_truth t) ≡ ok (of_truth (greatest s t)))
      × (eval_unary UnOp.not_op (of_truth s) ≡ ok (of_truth (opposite s)))
      × (eval_binary floats BinOp.and l r ≡ eval_binary floats BinOp.and r l)
      × (eval_binary floats BinOp.or l r ≡ eval_binary floats BinOp.or r l)
unfolding eval_binary
eval_binary-Truth floats s t l r = (
  and_values-least s t,
  or_values-greatest s t,
  eval_unary-opposite s,
  and_values_comm l r,
  or_values_comm l r,
)
