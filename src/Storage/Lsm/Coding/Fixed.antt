-- ===== src/Storage/Lsm/Coding/Fixed.antt =====
-- Little-endian words of 32 bits.
use chibidb.Prelude.{
  ℕ, ◌+◌, ◌^◌, ◌<◌, ◌≡◌, ap, List, ◌++◌, length, length-append, drop-append_length,
  take-append_length, arith,
}
use chibidb.Prelude.Result.{ok}
use chibidb.Storage.Lsm.Coding.{take_slice, to_le_bytes, put_fixed32, get_fixed32}
use mathlib.Core.List.{append_assoc}

-- A slice that lies between two others is found at the length of the first.
pub take_slice-append :
    (front mid back : List ℕ)
    → take_slice (front ++ (mid ++ back)) (length front) (length mid)
      ≡ ok (mid, length front + length mid)
unfolding take_slice
take_slice-append front mid back =
    rw (drop-append_length front (mid ++ back), take-append_length mid back, length-append)
      (ground (arith, length-append mid back))

-- A word that `put_fixed32` appends to a buffer, `get_fixed32` reads back from where the buffer ended.
pub get_fixed32-put_fixed32 :
    (v : ℕ) (front back : List ℕ)
    → v < 2 ^ 32
    → get_fixed32 (put_fixed32 front v ++ back) (length front) ≡ ok (v, length front + 4)
unfolding get_fixed32 put_fixed32
get_fixed32-put_fixed32 v front back h =
    rw
      (
        append_assoc front (to_le_bytes 4 v) back,
        get_fixed32,
        take_slice-append front (to_le_bytes 4 v) back,
      )
      (ap (λ (x : ℕ). ok (x, length front + 4)) (omega arith))
