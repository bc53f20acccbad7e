-- ===== src/Storage/Codec/Tests.antt =====
-- Rows and records on small inputs, with a resolver that keeps its texts in a list.
use chibidb.Prelude.{
  ℕ, zero, suc, ◌+◌, ◌^◌, ◌≡◌, refl, sym, inl, inr, true, false, ltb, if◌then◌else◌, List, [], ◌∷◌,
  ◌++◌, none, some, length, get_elem?, Bool-cases, arith,
}
use chibidb.Prelude.Result.{Error, Result, ok, err, ok_pair_injective}
use chibidb.Index.Key.{Value}
use chibidb.Storage.Codec.{LobResolver, take_bytes, record_next_rid, pack_rid}
use chibidb.Storage.Codec.Encode.{
  push_value, encode_row, push_text_with, push_value_with, push_values_with, encode_row_with,
  encode_record, encoded_row_size,
}
use chibidb.Storage.Codec.Decode.{
  text_of, resolve, value_of, needed, decode_value, decode_values, decode_row_with, decode_row,
  decode_record, decode_record_pruned,
}
use chibidb.Storage.Codec.Columns.{
  row_column_ranges, collect_lob_ids, skipped_slot, decode_row_with_want,
}
use chibidb.Storage.Codec.Utf8.{utf8_from, is_utf8}
use chibidb.Storage.Codec.Cells.{CellFits}
use chibidb.Storage.Codec.Rows.{CellsFit, picks}
use chibidb.Storage.Codec.InLine.{decode_row-encode_row}
use chibidb.Storage.Codec.External.{ValueFits, RowFits, Keeps, IsLawful, long_texts}
use chibidb.Storage.Codec.Record.{decode_record-encode_record}
use chibidb.Storage.Codec.Agree.{place, decode_row_with_want-decode_row_with}
use chibidb.Storage.Codec.Slices.{
  slices, Tiles, oks, found, row_column_ranges-encode_row_with, collect_lob_ids-encode_record,
}

abbrev Store : Type 0
Store = List (List ℕ)

abbrev get_text : Store → ℕ → Result (List ℕ)
get_text store id = elim (get_elem? store id) [
  | none ↦ err (Error.runtime "no such lob")
  | some s ↦ ok s
]

abbrev put_text : Store → List ℕ → Result (ℕ × Store)
put_text store s =
    if ltb (length store) (2 ^ 64)
    then ok (length store, store ++ (s ∷ []))
    else err (Error.runtime "full")

abbrev lobs : LobResolver Store
lobs = record { put = put_text; get = get_text }

get_elem?-snoc : (xs : Store) (s : List ℕ) → get_elem? (xs ++ (s ∷ [])) (length xs) ≡ some s
get_elem?-snoc [] s = refl
get_elem?-snoc (x ∷ xs) s = get_elem?-snoc xs s

get_text-snoc :
    (xs : Store) (s : List ℕ) (id : ℕ) (t : List ℕ)
    → get_text xs id ≡ ok t
    → get_text (xs ++ (s ∷ [])) id ≡ ok t
get_text-snoc [] s id t h = ground arith
get_text-snoc (x ∷ xs) s zero t h = h
get_text-snoc (x ∷ xs) s (suc id) t h = get_text-snoc xs s id t h

lobs-IsLawful : IsLawful lobs
unfolding IsLawful Keeps
lobs-IsLawful store s id store' h = elim (Bool-cases (ltb (length store) (2 ^ 64))) [
  | inr full ↦ absurd (let r = rw full at h in ground arith)
  | inl room ↦
      let (same_id, same_store) =
        ok_pair_injective (length store, store ++ (s ∷ [])) (id, store') (rw room at h) in
      rw (sym same_id, sym same_store)
        (
          ground arith,
          rw (get_text, get_elem?-snoc store s) refl,
          λ j t found. get_text-snoc store s j t found,
        )
]

abbrev row : List Value
row =
    Value.int 5
    ∷ Value.str (104 ∷ 105 ∷ [])
    ∷ Value.null
    ∷ Value.str (65 ∷ 66 ∷ 67 ∷ [])
    ∷ Value.bool true
    ∷ []

-- What the limit of 2 leaves of the row: a record, with one text out of line.
abbrev row_image : List ℕ
row_image =
    5 ∷ 0 ∷ 1 ∷ 5 ∷ 0 ∷ 0 ∷ 0 ∷ 0 ∷ 0 ∷ 0 ∷ 0 ∷ 3 ∷ 2 ∷ 0 ∷ 104 ∷ 105 ∷ 0 ∷ 6 ∷ 0 ∷ 0 ∷ 0 ∷ 0 ∷ 0
    ∷ 0 ∷ 0 ∷ 0 ∷ 4 ∷ 1 ∷ []

abbrev head : List ℕ
head =
    7 ∷ 0 ∷ 0 ∷ 0 ∷ 0 ∷ 0 ∷ 0 ∷ 0 ∷ 9 ∷ 0 ∷ 0 ∷ 0 ∷ 0 ∷ 0 ∷ 0 ∷ 0 ∷ 2 ∷ 0 ∷ 3 ∷ 0 ∷ 0 ∷ 0 ∷ 0 ∷ 0
    ∷ []

abbrev kept : Store
kept = (65 ∷ 66 ∷ 67 ∷ []) ∷ []

row_encodes : encode_row_with [] row (some lobs) 2 ≡ ok (row_image, kept)
unfolding encode_row_with push_values_with push_value_with push_text_with push_value
row_encodes = refl

record_encodes : encode_record 7 9 (pack_rid 3 2) row lobs 2 [] ≡ ok (head ++ row_image, kept)
unfolding encode_record encode_row_with push_values_with push_value_with push_text_with push_value
    pack_rid
record_encodes = refl

accents : is_utf8 (0xC3 ∷ 0xA9 ∷ 0xE2 ∷ 0x82 ∷ 0xAC ∷ []) ≡ true
unfolding is_utf8 utf8_from
accents = refl

surrogate : is_utf8 (0xED ∷ 0xA0 ∷ 0x80 ∷ []) ≡ false
unfolding is_utf8 utf8_from
surrogate = refl

row-RowFits : RowFits row
unfolding RowFits ValueFits is_utf8 utf8_from
row-RowFits = (omega arith, (refl, (tt, (refl, (tt, tt)))))

decode_row-encode_row_example :
    decode_row (encode_row row ++ (1 ∷ [])) ≡ ok (row, length (encode_row row))
unfolding CellsFit CellFits is_utf8 utf8_from
decode_row-encode_row_example =
    decode_row-encode_row row (1 ∷ []) (omega arith)
      (omega arith, ((omega arith, refl), (tt, ((omega arith, refl), (tt, tt)))))

decode_record-encode_record_example :
    (decode_record (head ++ row_image) (get_text kept) ≡ ok (7, 9, row))
    × (decode_record_pruned (head ++ row_image) (get_text kept) (true ∷ true ∷ true ∷ false ∷ [])
        ≡ ok (7, 9, picks (some (true ∷ true ∷ true ∷ false ∷ [])) 0 row))
    × (record_next_rid (head ++ row_image) ≡ ok (pack_rid 3 2))
    × (length (head ++ row_image) ≡ 24 + encoded_row_size row 2)
unfolding pack_rid
decode_record-encode_record_example =
    decode_record-encode_record lobs 7 9 (pack_rid 3 2) 2 row [] (head ++ row_image) kept
      (true ∷ true ∷ true ∷ false ∷ []) lobs-IsLawful (omega arith)
      (omega arith, omega arith, omega arith) (omega arith) row-RowFits record_encodes

row_column_ranges-encode_row_with_example :
    (ranges : List (ℕ × ℕ)) × (row_column_ranges row_image ≡ ok ranges)
    × Tiles 2 ranges (length row_image)
    × (slices (get_text kept) row_image ranges ≡ oks row)
row_column_ranges-encode_row_with_example =
    row_column_ranges-encode_row_with lobs 2 row [] row_image kept lobs-IsLawful (omega arith)
      (omega arith) row-RowFits row_encodes

collect_lob_ids-encode_record_example :
    found (get_text kept) (collect_lob_ids (head ++ row_image)) ≡ oks (long_texts 2 row)
collect_lob_ids-encode_record_example =
    collect_lob_ids-encode_record lobs 7 9 (pack_rid 3 2) 2 row [] (head ++ row_image) kept
      lobs-IsLawful (omega arith) (omega arith) row-RowFits record_encodes

abbrev flag_out : List Value
flag_out = Value.null ∷ []

decode_row_with_want-decode_row_with_example :
    (decode_row_with row_image (some (get_text kept)) (some (false ∷ []))
      ≡ ok (picks (some (false ∷ [])) 0 row, 28))
    × (decode_row_with_want row_image (skipped_slot ∷ 0 ∷ []) (get_text kept) flag_out
        ≡ place (skipped_slot ∷ 0 ∷ []) 0 row flag_out)
unfolding decode_row_with decode_values decode_value value_of needed text_of resolve is_utf8
    utf8_from take_bytes
decode_row_with_want-decode_row_with_example =
    decode_row_with_want-decode_row_with row_image (get_text kept) (false ∷ [])
      (skipped_slot ∷ 0 ∷ []) row flag_out 28 refl
