-- ===== src/Storage/Header/RoundTrip.antt =====
-- A header that was written is accepted for its own magic and kind, and for no other.
use chibidb.Prelude.{
  ℕ, ◌+◌, ◌≤◌, ◌≡◌, refl, sym, ap, ◌∙◌, inl, inr, true, false, ltb, if◌then◌else◌, Bool-cases, List,
  [], ◌∷◌, length, ite, Name_discrete, arith,
}
use chibidb.Prelude.Result.{Error, ok, err}
use chibidb.Storage.Slotted.{page_size, Page, copy_at, slice}
use chibidb.Storage.Slotted.Bytes.{length-copy_at, byte-copy_at, slice-copy_at, slice_same}
use chibidb.Storage.Lsm.Coding.{to_le_bytes, from_le_bytes}
use chibidb.Storage.Header.{
  header_len, format_version, FileKind, as_byte, from_byte, same_kind, write_header, read_header,
}

-- A part of a page that lies before what is written is as it was.
slice_before :
    (p : Page) (off at len : ℕ) (bs : List ℕ)
    → at + len ≤ off
    → slice (copy_at p off bs) at len ≡ slice p at len
slice_before p off at len bs h =
    slice_same (copy_at p off bs) p at len
      (λ i lo hi. byte-copy_at p off bs i (inl (omega (arith, hi))))

from_byte-as_byte_word : (k : FileKind) → from_byte (from_le_bytes (as_byte k ∷ [])) ≡ ok k
unfolding from_byte
from_byte-as_byte_word FileKind.heap = refl
from_byte-as_byte_word FileKind.index = refl
from_byte-as_byte_word FileKind.catalog = refl

module _ (page : Page) (magic : List ℕ) (kind : FileKind) (long : header_len ≤ length page)
    (eight : length magic ≡ 8) where
  abbrev first : Page
  first = copy_at page 0 magic

  abbrev second : Page
  second = copy_at first 8 (to_le_bytes 2 format_version)

  abbrev third : Page
  third = copy_at second 10 (as_byte kind ∷ [])

  abbrev fourth : Page
  fourth = copy_at third 11 (to_le_bytes 4 page_size)

  first_len : length first ≡ length page
  first_len = length-copy_at page 0 magic

  second_len : length second ≡ length page
  second_len = length-copy_at first 8 (to_le_bytes 2 format_version) ∙ first_len

  third_len : length third ≡ length page
  third_len = length-copy_at second 10 (as_byte kind ∷ []) ∙ second_len

  magic_read : slice fourth 0 8 ≡ magic
  magic_read =
      slice_before third 11 0 8 (to_le_bytes 4 page_size) (omega arith)
      ∙ slice_before second 10 0 8 (as_byte kind ∷ []) (omega arith)
      ∙ slice_before first 8 0 8 (to_le_bytes 2 format_version) (omega arith)
      ∙ ap (slice first 0) (sym eight)
      ∙ slice-copy_at page 0 magic (omega arith)

  version_read : slice fourth 8 2 ≡ to_le_bytes 2 format_version
  version_read =
      slice_before third 11 8 2 (to_le_bytes 4 page_size) (omega arith)
      ∙ slice_before second 10 8 2 (as_byte kind ∷ []) (omega arith)
      ∙ slice-copy_at first 8 (to_le_bytes 2 format_version) (omega (arith, first_len))

  kind_read : slice fourth 10 1 ≡ as_byte kind ∷ []
  kind_read =
      slice_before third 11 10 1 (to_le_bytes 4 page_size) (omega arith)
      ∙ slice-copy_at second 10 (as_byte kind ∷ []) (omega (arith, second_len))

  size_read : slice fourth 11 4 ≡ to_le_bytes 4 page_size
  size_read = slice-copy_at third 11 (to_le_bytes 4 page_size) (omega (arith, third_len))

-- A header that was written is accepted exactly when the magic and the kind that are asked for are
-- those that were written: another magic is no data file, and another kind does not match.
pub read_header-write_header :
    (page : Page) (magic other : List ℕ) (kind wanted : FileKind)
    → header_len ≤ length page
    → length magic ≡ 8
    → read_header (write_header page magic kind) other wanted ≡ (
        if ite (Name_discrete magic other) true false
        then (if same_kind kind wanted
            then ok tt
            else err (Error.runtime "file kind does not match its contents"))
        else err (Error.runtime "not a chibidb data file"))
unfolding read_header write_header
read_header-write_header page magic other kind wanted long eight =
    rw
      (
        read_header,
        wide,
        magic_read page magic kind long eight,
        version_read page magic kind long eight,
        kind_read page magic kind long eight,
      )
      (elim (Bool-cases (ite (Name_discrete magic other) true false)) [
        | inl m ↦
            rw (m, from_byte-as_byte_word kind, size_read page magic kind long eight)
              (elim (Bool-cases (same_kind kind wanted)) [ inl k ↦ rw k refl | inr k ↦ rw k refl ])
        | inr m ↦ rw m refl
      ])
  where
    wide : ltb (length (fourth page magic kind long eight)) header_len ≡ false
    wide = ground (
      arith,
      length-copy_at (third page magic kind long eight) 11 (to_le_bytes 4 page_size),
      third_len page magic kind long eight,
    )
