-- ===== src/Storage/Codec/InLine.antt =====
-- Rows with every text in line, as the catalog keeps them.
use chibidb.Prelude.{
  ℕ, suc, ◌+◌, ◌^◌, ◌<◌, ◌≡◌, refl, sym, ap, ◌∙◌, List, [], ◌∷◌, ◌++◌, none, length, arith,
}
use chibidb.Prelude.Holds.{Holds-all}
use chibidb.Prelude.Result.{ok}
use chibidb.Index.Key.{Value}
use chibidb.Storage.Lsm.Coding.{to_le_bytes}
use chibidb.Storage.Codec.Encode.{push_value, push_values, encode_row_into, encode_row}
use chibidb.Storage.Codec.Decode.{needed, decode_row}
use chibidb.Storage.Codec.Cells.{Cell, payload, tag, cell_bytes}
use chibidb.Storage.Codec.Rows.{
  cells_bytes, row_bytes, CellsFit, picks, values, decode_row_with-Holds,
}
use mathlib.Core.List.{append_assoc, append-nil}

-- Each value as a cell.
abbrev pub plains : List Value → List Cell
plains [] = []
plains (v ∷ row) = Cell.plain v ∷ plains row

pub push_value-cell :
    (out : List ℕ) (v : Value) → push_value out v ≡ out ++ cell_bytes (Cell.plain v)
unfolding push_value cell_bytes tag payload
push_value-cell out Value.null = refl
push_value-cell out (Value.int n) = append_assoc out _ _
push_value-cell out (Value.float x) = append_assoc out _ _
push_value-cell out (Value.str s) = simp append_assoc refl
push_value-cell out (Value.bool b) = append_assoc out _ _
push_value-cell out (Value.date d) = append_assoc out _ _

push_values-cells :
    (out : List ℕ) (row : List Value) → push_values out row ≡ out ++ cells_bytes (plains row)
unfolding push_values cells_bytes
push_values-cells out [] = sym (append-nil out)
push_values-cells out (v ∷ row) =
    rw (push_values-cells (push_value out v) row, push_value-cell out v)
      (append_assoc out (cell_bytes (Cell.plain v)) (cells_bytes (plains row)))

pub length-plains : (row : List Value) → length (plains row) ≡ length row
length-plains [] = refl
length-plains (v ∷ row) = ap suc (length-plains row)

pub values-plains : (row : List Value) → values (plains row) ≡ row
values-plains [] = refl
values-plains (v ∷ row) = ap (λ (vs : List Value). v ∷ vs) (values-plains row)

pub picks_all : (index : ℕ) (row : List Value) → picks none index row ≡ row
unfolding needed
picks_all index [] = refl
picks_all index (v ∷ row) = ap (λ (vs : List Value). v ∷ vs) (picks_all (index + 1) row)

pub encode_row-bytes : (row : List Value) → encode_row row ≡ row_bytes (plains row)
unfolding encode_row encode_row_into row_bytes
encode_row-bytes row =
    push_values-cells (to_le_bytes 2 (length row)) row
    ∙ ap (λ (n : ℕ). to_le_bytes 2 n ++ cells_bytes (plains row)) (sym (length-plains row))

-- Less than 2 ^ 16 values whose words and texts fit are read back from their encoding, whatever
-- follows, and the position that is told is its end.
pub decode_row-encode_row :
    (row : List Value) (rest : List ℕ)
    → length row < 2 ^ 16
    → CellsFit none (plains row)
    → decode_row (encode_row row ++ rest) ≡ ok (row, length (encode_row row))
unfolding decode_row
decode_row-encode_row row rest few fits = rw (encode_row-bytes row) (
    decode_row_with-Holds (row_bytes (plains row) ++ rest) none none (plains row)
      (omega (arith, length-plains row)) fits (Holds-all (row_bytes (plains row)) rest)
    ∙ rw (values-plains row, picks_all 0 row) refl)
