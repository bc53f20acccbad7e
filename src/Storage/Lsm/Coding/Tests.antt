-- ===== src/Storage/Lsm/Coding/Tests.antt =====
-- Runs of the coding, and the theorems at concrete words.
use chibidb.Prelude.{ℕ, ◌≡◌, refl, List, [], ◌∷◌}
use chibidb.Prelude.Result.{Error, ok, err}
use chibidb.Storage.Lsm.Coding.{
  put_rounds, put_varint32, put_varint64, take_byte, get_rounds, get_varint32, get_varint64,
  take_slice, put_fixed32, get_fixed32,
}

program : Unit {0}
unfolding put_rounds put_varint32 put_varint64 take_byte get_rounds get_varint32 get_varint64
    take_slice put_fixed32 get_fixed32
program = tt

put_run : put_varint32 (7 ∷ []) 300 ≡ 7 ∷ 172 ∷ 2 ∷ []
unfolding program
put_run = refl

get_run : get_varint32 (7 ∷ 172 ∷ 2 ∷ 9 ∷ []) 1 ≡ ok (300, 3)
unfolding program
get_run = refl

truncated_run : get_varint32 (172 ∷ []) 0 ≡ err (Error.runtime "truncated varint")
unfolding program
truncated_run = refl

abbrev input : List ℕ
input = 7 ∷ 172 ∷ 2 ∷ 9 ∷ []
