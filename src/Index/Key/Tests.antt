-- ===== src/Index/Key/Tests.antt =====
-- Runs of the key encoding, and the theorem at concrete values.
use chibidb.Prelude.{ℕ, ◌-◌, ◌^◌, ◌≡◌, refl, true, List, [], ◌∷◌, arith}
use chibidb.Prelude.Bytes.{lt_bytes}
use chibidb.Prelude.Result.{Error, ok, err}
use chibidb.Index.Key.{Value, to_be_bytes, flip_sign, ordered, encode_key_into, encode_key}
use chibidb.Index.Key.Order.{lt_value, encode_key-order}

program : Unit {0}
unfolding to_be_bytes flip_sign ordered encode_key_into encode_key
program = tt

-- -7 and 42.
abbrev minus_seven : Value
minus_seven = Value.int (2 ^ 64 - 7)

abbrev minus_seven_key : List ℕ
minus_seven_key = 1 ∷ 127 ∷ 255 ∷ 255 ∷ 255 ∷ 255 ∷ 255 ∷ 255 ∷ 249 ∷ []

abbrev forty_two_key : List ℕ
forty_two_key = 1 ∷ 128 ∷ 0 ∷ 0 ∷ 0 ∷ 0 ∷ 0 ∷ 0 ∷ 42 ∷ []

minus_seven_run : encode_key minus_seven ≡ ok minus_seven_key
unfolding program
minus_seven_run = refl

forty_two_run : encode_key (Value.int 42) ≡ ok forty_two_key
unfolding program
forty_two_run = refl

bool_run : encode_key (Value.bool true) ≡ err (Error.runtime "cannot index boolean values")
unfolding program
bool_run = refl

zeros_run : encode_key (Value.float (2 ^ 63)) ≡ encode_key (Value.float 0)
unfolding program
zeros_run = refl

encode_key-order_example :
    lt_bytes minus_seven_key forty_two_key ≡ lt_value minus_seven (Value.int 42)
encode_key-order_example =
    encode_key-order minus_seven (Value.int 42) minus_seven_key forty_two_key (omega arith)
      (omega arith) minus_seven_run forty_two_run
