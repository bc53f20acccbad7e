-- ===== src/Storage/Codec/Into.antt =====
-- The readers that hand the values on agree with `decode_row_with`.
use chibidb.Prelude.{
  ℕ, zero, suc, ◌+◌, ◌≡◌, refl, ap, inl, inr, Bool, List, [], ◌∷◌, ◌++◌, Option, length,
  length-append, arith,
}
use chibidb.Prelude.Result.{Result, ok, ◌>>=◌, Result-cases}
use chibidb.Index.Key.{Value}
use chibidb.Storage.Lsm.Coding.{from_le_bytes}
use chibidb.Storage.Codec.{take_bytes}
use chibidb.Storage.Codec.Decode.{
  Get, decode_value, decode_values, decode_row_with, each_value, decode_row_each, decode_row_into,
}

module _ (bytes : List ℕ) (lobs : Option Get) (keep : Option (List Bool)) where
  abbrev push_to : List Value → ℕ → Value → Result (List Value)
  push_to row index v = ok (row ++ (v ∷ []))

  each_value-push_to :
      (left index : ℕ) (row : List Value) (pos : ℕ)
      → each_value bytes lobs keep push_to left index row pos
        ≡ (decode_values bytes lobs keep left index row pos >>= (λ (r, end). ok r))
  unfolding each_value decode_values
  each_value-push_to zero index row pos = refl
  each_value-push_to (suc left) index row pos =
      elim (Result-cases (decode_value bytes pos index lobs keep)) [
        | inl (e, g) ↦ rw g refl
        | inr ((v, next), g) ↦ rw g (each_value-push_to left (index + 1) (row ++ (v ∷ [])) next)
      ]

  decode_values_count :
      (left index : ℕ) (row : List Value) (pos : ℕ) (r : List Value) (end : ℕ)
      → decode_values bytes lobs keep left index row pos ≡ ok (r, end)
      → length r ≡ length row + left
  unfolding decode_values
  decode_values_count zero index row pos r end h = ground arith
  decode_values_count (suc left) index row pos r end h =
      elim (Result-cases (decode_value bytes pos index lobs keep)) [
        | inl (e, g) ↦ absurd (let q = rw g at h in ground arith)
        | inr ((v, next), g) ↦ omega (
          arith,
          decode_values_count left (index + 1) (row ++ (v ∷ [])) next r end (rw g at h),
          length-append row (v ∷ []),
        )
      ]

-- On any bytes, whatever the buffer held, `decode_row_into` fails as `decode_row_with` does, and else
-- leaves the same row in the buffer and returns its length.
pub decode_row_into-decode_row_with :
    (bytes : List ℕ) (lobs : Option Get) (keep : Option (List Bool)) (out : List Value)
    → decode_row_into bytes lobs keep out
      ≡ (decode_row_with bytes lobs keep >>= (λ (row, end). ok (length row, row)))
unfolding decode_row_into decode_row_each decode_row_with
decode_row_into-decode_row_with bytes lobs keep out = elim (Result-cases (take_bytes bytes 0 2)) [
  | inl (e, g) ↦ rw g refl
  | inr ((hb, pos), g) ↦
      rw (g, each_value-push_to bytes lobs keep (from_le_bytes hb) 0 [] pos)
        (elim (Result-cases (decode_values bytes lobs keep (from_le_bytes hb) 0 [] pos)) [
          | inl (e, f) ↦ rw f refl
          | inr ((row, end), f) ↦
              let count : from_le_bytes hb ≡ length row = omega (
                arith,
                decode_values_count bytes lobs keep (from_le_bytes hb) 0 [] pos row end f,
              ) in
              rw f (ap (λ (n : ℕ). ok (n, row)) count)
        ])
]
