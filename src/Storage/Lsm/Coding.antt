-- ===== src/Storage/Lsm/Coding.antt =====
-- src/storage/lsm/coding.rs: varints and little-endian words. A byte slice is a list of numbers, and
-- the position that the source advances in place is returned.
pub mod Varint
pub mod Fixed
pub mod Words
mod Tests
use chibidb.Prelude.{
  ℕ, zero, suc, ◌+◌, ◌*◌, ◌/◌, ◌%◌, ◌^◌, Bool, ltb, ◌==◌, if◌then◌else◌, List, [], ◌∷◌, ◌++◌, none,
  some, length, get_elem?, take, drop,
}
use chibidb.Prelude.Result.{Error, Result, ok, err, ◌>>=◌}
use Prim.Native.Nat.{bit_and, bit_or}

-- The loop of `put_varint32` and `put_varint64`; each round writes seven bits.
unfoldable pub put_rounds : ℕ → List ℕ → ℕ → List ℕ
put_rounds zero buf value = buf ++ (value % 256 ∷ [])
put_rounds (suc rounds) buf value =
    let more = put_rounds rounds (buf ++ (bit_or (value % 256) 0x80 ∷ [])) (value / 128) in
    if ltb value 0x80 then buf ++ (value % 256 ∷ []) else more

unfoldable pub put_varint32 : List ℕ → ℕ → List ℕ
put_varint32 = put_rounds 4

unfoldable pub put_varint64 : List ℕ → ℕ → List ℕ
put_varint64 = put_rounds 9

unfoldable pub take_byte : List ℕ → ℕ → Result (ℕ × ℕ)
take_byte bytes pos = elim (get_elem? bytes pos) [
  | none ↦ err (Error.runtime "truncated varint")
  | some b ↦ ok (b, pos + 1)
]

-- `for shift in (0..).step_by(7)` with the rounds left, for a result of `w` bits. The bits of
-- `result` are below `shift`, so `|=` adds.
unfoldable pub get_rounds : ℕ → Error → ℕ → ℕ → ℕ → List ℕ → ℕ → Result (ℕ × ℕ)
get_rounds w overflow zero shift result bytes pos = err overflow
get_rounds w overflow (suc rounds) shift result bytes pos = elim (take_byte bytes pos) [
  | err e ↦ err e
  | ok (byte, next) ↦
      let result' = result + bit_and byte 0x7f * 2 ^ shift % 2 ^ w in
      let more = get_rounds w overflow rounds (shift + 7) result' bytes next in
      if bit_and byte 0x80 == 0 then ok (result', next) else more
]

unfoldable pub get_varint32 : List ℕ → ℕ → Result (ℕ × ℕ)
get_varint32 = get_rounds 32 (Error.runtime "varint32 overflows 32 bits") 5 0 0

pub get_varint64 : List ℕ → ℕ → Result (ℕ × ℕ)
get_varint64 = get_rounds 64 (Error.runtime "varint64 overflows 64 bits") 10 0 0

-- `take` of the source.
pub take_slice : List ℕ → ℕ → ℕ → Result (List ℕ × ℕ)
take_slice bytes pos n =
    if ltb (length bytes) (pos + n)
    then err (Error.runtime "truncated block data")
    else ok (take n (drop pos bytes), pos + n)

abbrev pub to_le_bytes : ℕ → ℕ → List ℕ
to_le_bytes zero value = []
to_le_bytes (suc n) value = value % 256 ∷ to_le_bytes n (value / 256)

abbrev pub from_le_bytes : List ℕ → ℕ
from_le_bytes [] = 0
from_le_bytes (b ∷ bs) = b + 256 * from_le_bytes bs

unfoldable pub put_fixed32 : List ℕ → ℕ → List ℕ
put_fixed32 buf value = buf ++ to_le_bytes 4 value

pub get_fixed32 : List ℕ → ℕ → Result (ℕ × ℕ)
get_fixed32 bytes pos = elim (take_slice bytes pos 4) [
  | err e ↦ err e
  | ok (word, next) ↦ ok (from_le_bytes word, next)
]
