-- ===== src/Storage/Codec/Record.antt =====
-- Versioned records: what is written with a resolver, every reader gets back.
use chibidb.Prelude.{
  ℕ, suc, ◌+◌, ◌^◌, ◌<◌, ◌≡◌, refl, sym, ap, subst, ◌∙◌, inl, inr, Bool, List, [], ◌∷◌, ◌++◌,
  Option, none, some, length, drop, arith,
}
use chibidb.Prelude.Holds.{Holds-self}
use chibidb.Prelude.Result.{ok, Result-cases, ok_pair_injective}
use chibidb.Index.Key.{Value}
use chibidb.Storage.Lsm.Coding.{to_le_bytes}
use chibidb.Storage.Lsm.Coding.Words.{from_le_bytes-to_le_bytes}
use chibidb.Storage.Codec.{LobResolver, record_next_rid, record_version, pack_rid, unpack_rid}
use chibidb.Storage.Codec.Encode.{encode_row_with, encode_record, encoded_row_size}
use chibidb.Storage.Codec.Decode.{Get, decode_row_with, decode_record, decode_record_pruned}
use chibidb.Storage.Codec.Cells.{Cell}
use chibidb.Storage.Codec.Rows.{
  cells_bytes, row_bytes, CellsFit, picks, values, decode_row_with-Holds,
}
use chibidb.Storage.Codec.InLine.{picks_all}
use chibidb.Storage.Codec.External.{
  RowFits, long_texts, externals, IsLawful, RowWritten, row-RowWritten,
}

-- The version header.
unfoldable pub header : ℕ → ℕ → ℕ → List ℕ
header creator deleter next_rid =
    (to_le_bytes 8 creator ++ to_le_bytes 8 deleter) ++ to_le_bytes 8 next_rid

record_version-header :
    (creator deleter next_rid : ℕ) (rest : List ℕ)
    → creator < 2 ^ 64
    → deleter < 2 ^ 64
    → record_version (header creator deleter next_rid ++ rest) ≡ ok (creator, deleter)
unfolding record_version header
record_version-header creator deleter next_rid rest hc hd =
    rw (from_le_bytes-to_le_bytes 8 creator hc, from_le_bytes-to_le_bytes 8 deleter hd)
      (ground arith)

record_next_rid-header :
    (creator deleter next_rid : ℕ) (rest : List ℕ)
    → next_rid < 2 ^ 64
    → record_next_rid (header creator deleter next_rid ++ rest) ≡ ok next_rid
unfolding record_next_rid header
record_next_rid-header creator deleter next_rid rest hn =
    rw (from_le_bytes-to_le_bytes 8 next_rid hn) (ground arith)

-- A page number and a slot are got back from the word that they are packed in, which fits 64 bits.
pub unpack_rid-pack_rid :
    (page_no slot : ℕ)
    → page_no < 2 ^ 32
    → slot < 2 ^ 16
    → (unpack_rid (pack_rid page_no slot) ≡ (page_no, slot)) × (pack_rid page_no slot < 2 ^ 64)
unfolding unpack_rid pack_rid
unpack_rid-pack_rid page_no slot h k = (ground arith, omega arith)

pub length-values : (cs : List Cell) → length (values cs) ≡ length cs
length-values [] = refl
length-values (c ∷ cs) = ap suc (length-values cs)

module _ {S : Type 0} (lobs : LobResolver S) where
  -- What a record that was written is: its header and the cells of its row.
  unfoldable pub IsImage : List ℕ → ℕ → List Value → List ℕ → S → List Cell → Type 0
  IsImage head limit row bytes store' cs =
      (bytes ≡ head ++ row_bytes cs)
      × (values cs ≡ row)
      × CellsFit (some (lobs.get store')) cs
      × (encoded_row_size row limit ≡ length (row_bytes cs))
      × (externals cs ≡ long_texts limit row)

  pub row-IsImage :
      (limit : ℕ) (row : List Value) (store : S) (bytes : List ℕ) (store' : S)
      → IsLawful lobs
      → limit < 2 ^ 16
      → RowFits row
      → encode_row_with store row (some lobs) limit ≡ ok (bytes, store')
      → (cs : List Cell) × IsImage [] limit row bytes store' cs
  unfolding encode_row_with IsImage row_bytes encoded_row_size RowWritten
  row-IsImage limit row store bytes store' lawful small f h =
      let word = to_le_bytes 2 (length row) in
      let (cs, w) = row-RowWritten lobs limit row store word bytes store' lawful small f h in
      let same : length row ≡ length cs = ap length (sym (w.1)) ∙ length-values cs in
      (
        cs,
        (
          w.0 ∙ ap (λ (n : ℕ). to_le_bytes 2 n ++ cells_bytes cs) same,
          w.1,
          w.2,
          w.4 2 ∙ omega arith,
          w.5,
        ),
      )

  pub record-IsImage :
      (creator deleter next_rid limit : ℕ) (row : List Value) (store : S) (bytes : List ℕ)
      (store' : S)
      → IsLawful lobs
      → limit < 2 ^ 16
      → RowFits row
      → encode_record creator deleter next_rid row lobs limit store ≡ ok (bytes, store')
      → (cs : List Cell) × IsImage (header creator deleter next_rid) limit row bytes store' cs
  unfolding encode_record IsImage
  record-IsImage creator deleter next_rid limit row store bytes store' lawful small f h =
      elim (Result-cases (encode_row_with store row (some lobs) limit)) [
        | inl (e, g) ↦ absurd (let r = rw g at h in ground arith)
        | inr ((out, after), g) ↦
            let r = rw g at h in
            let head = (to_le_bytes 8 creator ++ to_le_bytes 8 deleter) ++ to_le_bytes 8 next_rid in
            let (same_out, same_store) = ok_pair_injective (head ++ out, after) (bytes, store') r in
            let (cs, im) =
              row-IsImage limit row store out store' lawful small f (rw same_store at g) in
            (
              cs,
              (
                sym same_out ∙ (unfold header in ap (λ (b : List ℕ). head ++ b) (im.0)),
                im.1,
                im.2,
                im.3,
                im.4,
              ),
            )
      ]

-- What the readers make of a header and cells.
module _ (get : Get) (creator deleter next_rid : ℕ) (cs : List Cell)
    (words : (creator < 2 ^ 64) × (deleter < 2 ^ 64)) (few : length cs < 2 ^ 16)
    (fit : CellsFit (some get) cs) where
  abbrev written : List ℕ
  written = header creator deleter next_rid ++ row_bytes cs

  read_row :
      (keep : Option (List Bool))
      → decode_row_with (drop 24 written) (some get) keep
        ≡ ok (picks keep 0 (values cs), length (row_bytes cs))
  unfolding header
  read_row keep =
      decode_row_with-Holds (row_bytes cs) (some get) keep cs few fit (Holds-self (row_bytes cs))

  read_record : decode_record written get ≡ ok (creator, deleter, values cs)
  unfolding decode_record
  read_record =
      rw
        (
          record_version-header creator deleter next_rid (row_bytes cs) (words.0) (words.1),
          read_row none,
          picks_all 0 (values cs),
        )
        refl

  read_record_pruned :
      (keep : List Bool)
      → decode_record_pruned written get keep
        ≡ ok (creator, deleter, picks (some keep) 0 (values cs))
  unfolding decode_record_pruned
  read_record_pruned keep =
      rw
        (
          record_version-header creator deleter next_rid (row_bytes cs) (words.0) (words.1),
          read_row (some keep),
        )
        refl

-- A record of less than 2 ^ 16 values that fit, written through a lawful resolver, is read back whole:
-- its version, its row, the row with NULL in the columns that are not kept, and its forward pointer;
-- its length is the size that `encoded_row_size` foretells, and 24.
pub decode_record-encode_record :
    {S : Type 0} (lobs : LobResolver S) (creator deleter next_rid limit : ℕ) (row : List Value)
    (store : S) (bytes : List ℕ) (store' : S) (keep : List Bool)
    → IsLawful lobs
    → limit < 2 ^ 16
    → (creator < 2 ^ 64) × (deleter < 2 ^ 64) × (next_rid < 2 ^ 64)
    → length row < 2 ^ 16
    → RowFits row
    → encode_record creator deleter next_rid row lobs limit store ≡ ok (bytes, store')
    → (decode_record bytes (lobs.get store') ≡ ok (creator, deleter, row))
      × (decode_record_pruned bytes (lobs.get store') keep
          ≡ ok (creator, deleter, picks (some keep) 0 row))
      × (record_next_rid bytes ≡ ok next_rid)
      × (length bytes ≡ 24 + encoded_row_size row limit)
unfolding IsImage
decode_record-encode_record lobs creator deleter next_rid limit row store bytes store' keep lawful
      small words few fits h =
    let (cs, im) =
      record-IsImage lobs creator deleter next_rid limit row store bytes store' lawful small fits
        h in
    let get = lobs.get store' in
    let same : length row ≡ length cs = ap length (sym (im.1)) ∙ length-values cs in
    let few' : length cs < 2 ^ 16 = subst (λ (n : ℕ). n < 2 ^ 16) same few in
    let ids : (creator < 2 ^ 64) × (deleter < 2 ^ 64) = (words.0, words.1) in
    rw (im.0) (
      read_record get creator deleter next_rid cs ids few' (im.2)
          ∙ ap (λ (r : List Value). ok (creator, deleter, r)) (im.1),
      read_record_pruned get creator deleter next_rid cs ids few' (im.2) keep
          ∙ ap (λ (r : List Value). ok (creator, deleter, picks (some keep) 0 r)) (im.1),
      record_next_rid-header creator deleter next_rid (row_bytes cs) (words.2),
      rw (im.3) (unfold header in omega arith),
    )
