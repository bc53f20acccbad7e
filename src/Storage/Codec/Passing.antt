-- ===== src/Storage/Codec/Passing.antt =====
-- The readers that pass over the cells of a row: its ranges, its large texts, and chosen columns.
use chibidb.Prelude.{
  ℕ, ◌+◌, ◌^◌, ◌<◌, ◌≡◌, refl, sym, ap, false, ltb, List, [], ◌∷◌, ◌++◌, Option, some, length,
  get_elem?, take, arith,
}
use chibidb.Prelude.Holds.{
  Holds, Holds-inside, Holds-left, Holds-right, take-Holds, get_elem?-Holds, sub_list-Holds,
}
use chibidb.Prelude.Result.{ok}
use chibidb.Index.Key.{Value}
use chibidb.Storage.Lsm.Coding.{to_le_bytes}
use chibidb.Storage.Lsm.Coding.Words.{from_le_bytes-to_le_bytes}
use chibidb.Storage.Codec.Decode.{Get}
use chibidb.Storage.Codec.Columns.{
  lob_step, collect_ids, collect_row_lob_ids, column_end, tag_at, column_ranges, row_column_ranges,
}
use chibidb.Storage.Codec.Cells.{Cell, tag, payload, cell_bytes, CellFits, take_bytes-Holds}
use chibidb.Storage.Codec.Rows.{cells_bytes, row_bytes, CellsFit}
use mathlib.Core.List.{append_assoc, append-nil}

abbrev pub spans : ℕ → List Cell → List (ℕ × ℕ)
spans pos [] = []
spans pos (c ∷ cs) = (pos, pos + length (cell_bytes c)) ∷ spans (pos + length (cell_bytes c)) cs

abbrev pub cell_ids : Cell → List ℕ
cell_ids (Cell.plain v) = []
cell_ids (Cell.lob id s) = id ∷ []

unfoldable pub lob_ids : List Cell → List ℕ
lob_ids [] = []
lob_ids (c ∷ cs) = cell_ids c ++ lob_ids cs

module _ (bytes : List ℕ) (lobs : Option Get) where
  column_end-Holds :
      (pos : ℕ) (c : Cell)
      → CellFits lobs c
      → Holds bytes pos (payload c)
      → column_end bytes pos (tag c) ≡ ok (pos + length (payload c))
  unfolding column_end tag payload CellFits
  column_end-Holds pos (Cell.plain Value.null) f h = ap (λ (p : ℕ). ok p) (omega arith)
  column_end-Holds pos (Cell.plain (Value.int n)) f h = refl
  column_end-Holds pos (Cell.plain (Value.float x)) f h = refl
  column_end-Holds pos (Cell.plain (Value.str s)) f h =
      let word = to_le_bytes 2 (length s) in
      rw
        (
          take_bytes-Holds bytes pos word (Holds-left bytes pos word s h),
          from_le_bytes-to_le_bytes 2 (length s) (f.0),
        )
        (ap (λ (p : ℕ). ok p) (omega arith))
  column_end-Holds pos (Cell.plain (Value.bool b)) f h = refl
  column_end-Holds pos (Cell.plain (Value.date d)) f h = refl
  column_end-Holds pos (Cell.lob id s) f h = refl

  tag_at-Holds :
      (pos : ℕ) (c : Cell) → Holds bytes pos (cell_bytes c) → tag_at bytes pos ≡ ok (tag c)
  unfolding tag_at cell_bytes
  tag_at-Holds pos c h = rw (tag_at, get_elem?-Holds bytes pos (tag c) (payload c) h) refl

  pub column_ranges-Holds :
      (cs : List Cell) (pos : ℕ) (ranges : List (ℕ × ℕ))
      → CellsFit lobs cs
      → Holds bytes pos (cells_bytes cs)
      → column_ranges bytes (length cs) pos ranges ≡ ok (ranges ++ spans pos cs)
  unfolding column_ranges cells_bytes CellsFit
  column_ranges-Holds [] pos ranges f h = ap (λ (r : List (ℕ × ℕ)). ok r) (sym (append-nil ranges))
  column_ranges-Holds (c ∷ cs) pos ranges f h =
      let first = Holds-left bytes pos (cell_bytes c) (cells_bytes cs) h in
      let rest = Holds-right bytes pos (cell_bytes c) (cells_bytes cs) h in
      let inner : Holds bytes (pos + 1) (payload c) =
        unfold cell_bytes in Holds-right bytes pos (tag c ∷ []) (payload c) first in
      let end : pos + 1 + length (payload c) ≡ pos + length (cell_bytes c) =
        unfold cell_bytes in omega arith in
      let inside : ltb (length bytes) (pos + length (cell_bytes c)) ≡ false =
        ground (arith, Holds-inside bytes pos (cell_bytes c) first) in
      rw
        (
          tag_at-Holds pos c first,
          column_end-Holds (pos + 1) c (f.0) inner,
          end,
          inside,
          column_ranges-Holds cs (pos + length (cell_bytes c))
              (ranges ++ ((pos, pos + length (cell_bytes c)) ∷ [])) (f.1) rest,
          append_assoc ranges ((pos, pos + length (cell_bytes c)) ∷ [])
              (spans (pos + length (cell_bytes c)) cs),
        )
        refl

  pub row_column_ranges-Holds :
      (cs : List Cell)
      → length cs < 2 ^ 16
      → CellsFit lobs cs
      → Holds bytes 0 (row_bytes cs)
      → row_column_ranges bytes ≡ ok (spans 2 cs)
  unfolding row_column_ranges row_bytes
  row_column_ranges-Holds cs few f h =
      let word = to_le_bytes 2 (length cs) in
      let inside = Holds-inside bytes 0 (row_bytes cs) h in
      let long : ltb (length bytes) 2 ≡ false = ground arith in
      let count : take 2 bytes ≡ word =
        take-Holds bytes 0 word (Holds-left bytes 0 word (cells_bytes cs) h) in
      rw (long, count, from_le_bytes-to_le_bytes 2 (length cs) few)
        (column_ranges-Holds cs 2 [] f (Holds-right bytes 0 word (cells_bytes cs) h))

  lob_step-Holds :
      (pos : ℕ) (c : Cell) (out : List ℕ)
      → CellFits lobs c
      → Holds bytes pos (payload c)
      → lob_step bytes pos (tag c) out ≡ some (pos + length (payload c), out ++ cell_ids c)
  unfolding lob_step tag payload CellFits
  lob_step-Holds pos (Cell.plain Value.null) out f h =
      let end : pos ≡ pos + 0 = omega arith in
      rw (append-nil out) (ap (λ (p : ℕ). some (p, out)) end)
  lob_step-Holds pos (Cell.plain (Value.int n)) out f h = rw (append-nil out) refl
  lob_step-Holds pos (Cell.plain (Value.float x)) out f h = rw (append-nil out) refl
  lob_step-Holds pos (Cell.plain (Value.str s)) out f h =
      let word = to_le_bytes 2 (length s) in
      let first = Holds-left bytes pos word s h in
      let inside : ltb (length bytes) (pos + 2) ≡ false =
        ground (arith, Holds-inside bytes pos word first) in
      rw
        (
          inside,
          sub_list-Holds bytes pos word first,
          from_le_bytes-to_le_bytes 2 (length s) (f.0),
          append-nil out,
        )
        (ap (λ (p : ℕ). some (p, out)) (omega arith))
  lob_step-Holds pos (Cell.plain (Value.bool b)) out f h = rw (append-nil out) refl
  lob_step-Holds pos (Cell.plain (Value.date d)) out f h = rw (append-nil out) refl
  lob_step-Holds pos (Cell.lob id s) out f h =
      let word = to_le_bytes 8 id in
      let inside : ltb (length bytes) (pos + 8) ≡ false =
        ground (arith, Holds-inside bytes pos word h) in
      rw (inside, sub_list-Holds bytes pos word h, from_le_bytes-to_le_bytes 8 id (f.0)) refl

  pub collect_ids-Holds :
      (cs : List Cell) (pos : ℕ) (out : List ℕ)
      → CellsFit lobs cs
      → Holds bytes pos (cells_bytes cs)
      → collect_ids bytes (length cs) pos out ≡ out ++ lob_ids cs
  unfolding collect_ids cells_bytes CellsFit lob_ids
  collect_ids-Holds [] pos out f h = sym (append-nil out)
  collect_ids-Holds (c ∷ cs) pos out f h =
      let first = Holds-left bytes pos (cell_bytes c) (cells_bytes cs) h in
      let rest = Holds-right bytes pos (cell_bytes c) (cells_bytes cs) h in
      let inner : Holds bytes (pos + 1) (payload c) =
        unfold cell_bytes in Holds-right bytes pos (tag c ∷ []) (payload c) first in
      let end : pos + 1 + length (payload c) ≡ pos + length (cell_bytes c) =
        unfold cell_bytes in omega arith in
      let inside : ltb (length bytes) (pos + length (cell_bytes c)) ≡ false =
        ground (arith, Holds-inside bytes pos (cell_bytes c) first) in
      let found : get_elem? bytes pos ≡ some (tag c) =
        unfold cell_bytes in get_elem?-Holds bytes pos (tag c) (payload c) first in
      rw
        (
          collect_ids,
          found,
          lob_step-Holds (pos + 1) c out (f.0) inner,
          end,
          inside,
          collect_ids-Holds cs (pos + length (cell_bytes c)) (out ++ cell_ids c) (f.1) rest,
        )
        (append_assoc out (cell_ids c) (lob_ids cs))

  pub collect_row_lob_ids-Holds :
      (cs : List Cell)
      → length cs < 2 ^ 16
      → CellsFit lobs cs
      → Holds bytes 0 (row_bytes cs)
      → collect_row_lob_ids bytes [] ≡ lob_ids cs
  unfolding collect_row_lob_ids row_bytes
  collect_row_lob_ids-Holds cs few f h =
      let word = to_le_bytes 2 (length cs) in
      let inside = Holds-inside bytes 0 (row_bytes cs) h in
      let long : ltb (length bytes) 2 ≡ false = ground arith in
      let count : take 2 bytes ≡ word =
        take-Holds bytes 0 word (Holds-left bytes 0 word (cells_bytes cs) h) in
      rw (long, count, from_le_bytes-to_le_bytes 2 (length cs) few)
        (collect_ids-Holds cs 2 [] f (Holds-right bytes 0 word (cells_bytes cs) h))
