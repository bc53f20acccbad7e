-- ===== src/Storage/Header.antt =====
-- src/storage/header.rs: the common prefix of the data files, 8 bytes of magic, 2 of version, 1 of
-- kind and 4 of page size.
pub mod RoundTrip
mod Tests
use chibidb.Prelude.{
  ℕ, Bool, true, false, not, ltb, ◌==◌, if◌then◌else◌, List, [], ◌∷◌, length, get_or, ite,
  Name_discrete,
}
use chibidb.Prelude.Result.{Error, Result, ok, err}
use chibidb.Storage.Slotted.{page_size, Page, copy_at, slice}
use chibidb.Storage.Lsm.Coding.{to_le_bytes, from_le_bytes}

abbrev pub format_version : ℕ
format_version = 1

abbrev pub header_len : ℕ
header_len = 15

pub data FileKind : Type 0 where
  heap index catalog : FileKind

abbrev pub as_byte : FileKind → ℕ
as_byte FileKind.heap = 0
as_byte FileKind.index = 1
as_byte FileKind.catalog = 2

pub from_byte : ℕ → Result FileKind
from_byte b =
    if b == 0
    then ok FileKind.heap
    else if b == 1
    then ok FileKind.index
    else if b == 2
    then ok FileKind.catalog
    else err (Error.runtime "unknown file kind")

-- `==` on kinds.
abbrev pub same_kind : FileKind → FileKind → Bool
same_kind a b = as_byte a == as_byte b

pub write_header : Page → List ℕ → FileKind → Page
write_header page magic kind =
    copy_at
      (copy_at (copy_at (copy_at page 0 magic) 8 (to_le_bytes 2 format_version)) 10
        (as_byte kind ∷ []))
      11 (to_le_bytes 4 page_size)

pub read_header : Page → List ℕ → FileKind → Result (Unit {0})
read_header page magic kind =
    if ltb (length page) header_len
    then err (Error.runtime "not a chibidb data file")
    else if not (ite (Name_discrete (slice page 0 8) magic) true false)
    then err (Error.runtime "not a chibidb data file")
    else if not (from_le_bytes (slice page 8 2) == format_version)
    then err (Error.runtime "unsupported file format version")
    else elim (from_byte (from_le_bytes (slice page 10 1))) [
      | err e ↦ err e
      | ok file_kind ↦
          if not (same_kind file_kind kind)
          then err (Error.runtime "file kind does not match its contents")
          else if not (from_le_bytes (slice page 11 4) == page_size)
          then err (Error.runtime "file page size does not match build page size")
          else ok tt
    ]
