-- ===== src/Storage/Lsm/Sstable/Handles.antt =====
-- The handles of blocks: how the index stores them, and the bytes they name.
use chibidb.Prelude.{
  ℕ, ◌+◌, ◌^◌, ◌≤◌, ◌<◌, ◌≡◌, refl, sym, ap, subst, false, ltb, leb, List, [], length,
  length-append, arith,
}
use chibidb.Prelude.Holds.{Holds, Holds-inside, sub_list-Holds}
use chibidb.Prelude.Result.{ok}
use chibidb.Storage.Lsm.Coding.{put_varint64, get_varint64}
use chibidb.Storage.Lsm.Coding.Varint.{
  get_varint64-put_varint64, put_varint64-append, length-put_varint64,
}
use chibidb.Storage.Lsm.Sstable.{BlockHandle, encode_handle, decode_handle, slice}
use mathlib.Core.List.{append-nil}

pub decode_handle-encode_handle :
    (offset size : ℕ)
    → offset < 2 ^ 64
    → size < 2 ^ 64
    → decode_handle (encode_handle (record { offset = offset; size = size }))
      ≡ ok (record { offset = offset; size = size })
unfolding decode_handle encode_handle
decode_handle-encode_handle offset size small fits =
    let front = put_varint64 [] offset in
    let whole = put_varint64 front size in
    let first : get_varint64 whole 0 ≡ ok (offset, length front) =
      subst (λ (b : List ℕ). get_varint64 b 0 ≡ ok (offset, length front))
        (sym (put_varint64-append front size))
        (get_varint64-put_varint64 offset [] (put_varint64 [] size) small) in
    let second : get_varint64 whole (length front) ≡ ok (size, length whole) =
      subst (λ (b : List ℕ). get_varint64 b (length front) ≡ ok (size, length whole))
        (append-nil whole) (get_varint64-put_varint64 size front [] fits) in
    rw (first, second) refl

pub length-encode_handle : (h : BlockHandle) → length (encode_handle h) ≤ 20
unfolding encode_handle
length-encode_handle h =
    let front = put_varint64 [] (h.offset) in
    omega (
      arith,
      ap length (put_varint64-append front (h.size)),
      length-append front (put_varint64 [] (h.size)),
      length-put_varint64 (h.offset),
      length-put_varint64 (h.size),
    )

-- The bytes that a handle names.
pub slice-Holds :
    (bytes : List ℕ) (offset : ℕ) (mid : List ℕ)
    → Holds bytes offset mid
    → length bytes < 2 ^ 64
    → slice bytes (record { offset = offset; size = length mid }) ≡ ok mid
unfolding slice
slice-Holds bytes offset mid h short =
    let inside = Holds-inside bytes offset mid h in
    let no_wrap : leb (2 ^ 64) (offset + length mid) ≡ false = ground (arith, inside, short) in
    let fits : ltb (length bytes) (offset + length mid) ≡ false = ground (arith, inside) in
    rw (no_wrap, fits) (ap ok (sub_list-Holds bytes offset mid h))
