-- ===== src/Storage/Codec.antt =====
-- src/storage/codec.rs: rows as tagged values, behind a count of 2 bytes, and behind a version header
-- of 24 bytes in a record. A value is the bits of Index/Key; a large text is kept out of line
-- by a resolver, whose store is passed along.
pub mod Utf8
pub mod Encode
pub mod Decode
pub mod Columns
mod Tests
pub mod Cells
pub mod Rows
pub mod InLine
pub mod External
pub mod Record
pub mod Passing
pub mod Slices
pub mod Into
pub mod Agree
use chibidb.Prelude.{
  ℕ, ◌+◌, ◌*◌, ◌/◌, ◌%◌, ◌^◌, ltb, if◌then◌else◌, List, length, take, drop, sub_list,
}
use chibidb.Prelude.Result.{Error, Result, ok, err}
use chibidb.Storage.Lsm.Coding.{from_le_bytes}

abbrev pub tag_null : ℕ
tag_null = 0x00

abbrev pub tag_int : ℕ
tag_int = 0x01

abbrev pub tag_float : ℕ
tag_float = 0x02

abbrev pub tag_str : ℕ
tag_str = 0x03

abbrev pub tag_bool : ℕ
tag_bool = 0x04

abbrev pub tag_date : ℕ
tag_date = 0x05

abbrev pub tag_lob : ℕ
tag_lob = 0x06

abbrev pub record_header : ℕ
record_header = 24

-- A slot is below 2 ^ 16, so `|` adds it.
pub pack_rid : ℕ → ℕ → ℕ
pack_rid page_no slot = page_no * 2 ^ 16 % 2 ^ 64 + slot

pub unpack_rid : ℕ → ℕ × ℕ
unpack_rid v = (v / 2 ^ 16 % 2 ^ 32, v % 2 ^ 16)

-- Where large texts are kept, in a store `S`.
pub record LobResolver (S : Type 0) : Type 0 where
  pub put : S → List ℕ → Result (ℕ × S)
  pub get : S → ℕ → Result (List ℕ)

abbrev pub truncated {ℓ} : {A : Type ℓ} → Result A
truncated = err (Error.runtime "truncated row bytes")

-- `take` of the source, which returns the position that it advances.
pub take_bytes : List ℕ → ℕ → ℕ → Result (List ℕ × ℕ)
take_bytes bytes pos n =
    if ltb (length bytes) (pos + n) then truncated else ok (take n (drop pos bytes), pos + n)

pub record_next_rid : List ℕ → Result ℕ
record_next_rid bytes =
    if ltb (length bytes) record_header
    then err (Error.runtime "truncated versioned record")
    else ok (from_le_bytes (sub_list 16 24 bytes))

pub record_version : List ℕ → Result (ℕ × ℕ)
record_version bytes =
    if ltb (length bytes) record_header
    then err (Error.runtime "truncated versioned record")
    else ok (from_le_bytes (sub_list 0 8 bytes), from_le_bytes (sub_list 8 16 bytes))
