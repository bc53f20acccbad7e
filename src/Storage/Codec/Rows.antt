-- ===== src/Storage/Codec/Rows.antt =====
-- A row among bytes: its count, and its cells one after the other.
use chibidb.Prelude.{
  ℕ, ◌+◌, ◌^◌, ◌<◌, ◌≡◌, refl, ap, Bool, List, [], ◌∷◌, ◌++◌, Option, length, length-append, arith,
}
use chibidb.Prelude.Holds.{Holds, Holds-left, Holds-right}
use chibidb.Prelude.Result.{ok}
use chibidb.Index.Key.{Value}
use chibidb.Storage.Lsm.Coding.{to_le_bytes}
use chibidb.Storage.Lsm.Coding.Words.{from_le_bytes-to_le_bytes}
use chibidb.Storage.Codec.Decode.{Get, decode_values, decode_row_with}
use chibidb.Storage.Codec.Cells.{
  Cell, value, cell_bytes, CellFits, pick, take_bytes-Holds, decode_value-Holds,
}
use mathlib.Core.List.{append_assoc, append-nil}

unfoldable pub cells_bytes : List Cell → List ℕ
cells_bytes [] = []
cells_bytes (c ∷ cs) = cell_bytes c ++ cells_bytes cs

unfoldable pub row_bytes : List Cell → List ℕ
row_bytes cs = to_le_bytes 2 (length cs) ++ cells_bytes cs

unfoldable pub CellsFit : Option Get → List Cell → Type 0
CellsFit lobs [] = Unit
CellsFit lobs (c ∷ cs) = CellFits lobs c × CellsFit lobs cs

-- The row as a reader with `keep` is to see it, from the column `index` on.
abbrev pub picks : Option (List Bool) → ℕ → List Value → List Value
picks keep index [] = []
picks keep index (v ∷ row) = pick keep index v ∷ picks keep (index + 1) row

abbrev pub values : List Cell → List Value
values [] = []
values (c ∷ cs) = value c ∷ values cs

module _ (bytes : List ℕ) (lobs : Option Get) (keep : Option (List Bool)) where
  pub decode_values-Holds :
      (cs : List Cell) (index : ℕ) (row : List Value) (pos : ℕ)
      → CellsFit lobs cs
      → Holds bytes pos (cells_bytes cs)
      → decode_values bytes lobs keep (length cs) index row pos
        ≡ ok (row ++ picks keep index (values cs), pos + length (cells_bytes cs))
  unfolding decode_values cells_bytes CellsFit
  decode_values-Holds [] index row pos f h =
      let end : pos ≡ pos + 0 = omega arith in ground (arith, append-nil row)
  decode_values-Holds (c ∷ cs) index row pos f h =
      let first = Holds-left bytes pos (cell_bytes c) (cells_bytes cs) h in
      let end : pos + length (cell_bytes c) + length (cells_bytes cs)
          ≡ pos + length (cell_bytes c ++ cells_bytes cs) =
        omega (arith, length-append (cell_bytes c) (cells_bytes cs)) in
      let rest = Holds-right bytes pos (cell_bytes c) (cells_bytes cs) h in
      rw
        (
          decode_value-Holds bytes pos lobs c index keep (f.0) first,
          decode_values-Holds cs (index + 1) (row ++ (pick keep index (value c) ∷ [])) _ (f.1) rest,
          append_assoc row (pick keep index (value c) ∷ []) (picks keep (index + 1) (values cs)),
          end,
        )
        refl

  pub decode_row_with-Holds :
      (cs : List Cell)
      → length cs < 2 ^ 16
      → CellsFit lobs cs
      → Holds bytes 0 (row_bytes cs)
      → decode_row_with bytes lobs keep ≡ ok (picks keep 0 (values cs), length (row_bytes cs))
  unfolding decode_row_with row_bytes
  decode_row_with-Holds cs few f h =
      let word = to_le_bytes 2 (length cs) in
      rw
        (
          take_bytes-Holds bytes 0 word (Holds-left bytes 0 word (cells_bytes cs) h),
          from_le_bytes-to_le_bytes 2 (length cs) few,
          decode_values-Holds cs 0 [] 2 f (Holds-right bytes 0 word (cells_bytes cs) h),
        )
        (ap (λ (p : ℕ). ok (picks keep 0 (values cs), p)) (omega arith))
