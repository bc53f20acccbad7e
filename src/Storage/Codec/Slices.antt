-- ===== src/Storage/Codec/Slices.antt =====
-- What the columns of a written row are without decoding it as a whole.
use chibidb.Prelude.{
  ℕ, ◌+◌, ◌^◌, ◌<◌, ◌≡◌, refl, sym, ap, subst, ◌∙◌, List, [], ◌∷◌, ◌++◌, none, some, length,
  sub_list, length-append, arith,
}
use chibidb.Prelude.Holds.{Holds, Holds-self, Holds-left, Holds-right, sub_list-Holds}
use chibidb.Prelude.Result.{Result, ok}
use chibidb.Index.Key.{Value}
use chibidb.Storage.Lsm.Coding.{to_le_bytes}
use chibidb.Storage.Codec.{LobResolver}
use chibidb.Storage.Codec.Encode.{encode_row_with, encode_record}
use chibidb.Storage.Codec.Decode.{Get, needed, decode_tagged_value}
use chibidb.Storage.Codec.Columns.{collect_row_lob_ids, collect_lob_ids, row_column_ranges}
use chibidb.Storage.Codec.Cells.{Cell, value, cell_bytes, CellFits, decode_value-Holds}
use chibidb.Storage.Codec.Rows.{cells_bytes, row_bytes, CellsFit, values}
use chibidb.Storage.Codec.External.{RowFits, long_texts, externals, IsLawful, resolve-get}
use chibidb.Storage.Codec.Record.{header, IsImage, row-IsImage, record-IsImage, length-values}
use chibidb.Storage.Codec.Passing.{
  spans, lob_ids, row_column_ranges-Holds, collect_row_lob_ids-Holds,
}

-- The value that each range holds by itself.
unfoldable pub slices : Get → List ℕ → List (ℕ × ℕ) → List (Result Value)
slices get bytes [] = []
slices get bytes ((first, last) ∷ ranges) =
    decode_tagged_value (sub_list first last bytes) get ∷ slices get bytes ranges

-- The ranges follow each other without a gap from `first` to `last`.
unfoldable pub Tiles : ℕ → List (ℕ × ℕ) → ℕ → Type 0
Tiles first [] last = first ≡ last
Tiles first ((a, b) ∷ ranges) last = (a ≡ first) × Tiles b ranges last

abbrev pub oks {ℓ} : {A : Type ℓ} → List A → List (Result A)
oks [] = []
oks (x ∷ xs) = ok x ∷ oks xs

decode_tagged_value-cell :
    (get : Get) (c : Cell)
    → CellFits (some get) c
    → decode_tagged_value (cell_bytes c) get ≡ ok (value c)
unfolding decode_tagged_value needed
decode_tagged_value-cell get c f =
    rw (decode_value-Holds (cell_bytes c) 0 (some get) c 0 none f (Holds-self (cell_bytes c))) refl

slices-spans :
    (get : Get) (bytes : List ℕ) (cs : List Cell) (pos : ℕ)
    → CellsFit (some get) cs
    → Holds bytes pos (cells_bytes cs)
    → slices get bytes (spans pos cs) ≡ oks (values cs)
unfolding slices cells_bytes CellsFit
slices-spans get bytes [] pos f h = refl
slices-spans get bytes (c ∷ cs) pos f h =
    let first = Holds-left bytes pos (cell_bytes c) (cells_bytes cs) h in
    let rest = Holds-right bytes pos (cell_bytes c) (cells_bytes cs) h in
    rw
      (
        sub_list-Holds bytes pos (cell_bytes c) first,
        decode_tagged_value-cell get c (f.0),
        slices-spans get bytes cs (pos + length (cell_bytes c)) (f.1) rest,
      )
      refl

spans-Tiles :
    (cs : List Cell) (pos last : ℕ)
    → pos + length (cells_bytes cs) ≡ last
    → Tiles pos (spans pos cs) last
unfolding Tiles cells_bytes
spans-Tiles [] pos last e = omega (arith, e)
spans-Tiles (c ∷ cs) pos last e = (
  refl,
  spans-Tiles cs (pos + length (cell_bytes c)) last
      (omega (arith, e, length-append (cell_bytes c) (cells_bytes cs))),
)

-- The ranges of the columns of a row that was written through a lawful resolver cover the row
-- without a gap from behind its count to its end, and each range decodes by itself to the column's value.
pub row_column_ranges-encode_row_with :
    {S : Type 0} (lobs : LobResolver S) (limit : ℕ) (row : List Value) (store : S) (bytes : List ℕ)
    (store' : S)
    → IsLawful lobs
    → limit < 2 ^ 16
    → length row < 2 ^ 16
    → RowFits row
    → encode_row_with store row (some lobs) limit ≡ ok (bytes, store')
    → (ranges : List (ℕ × ℕ)) × (row_column_ranges bytes ≡ ok ranges)
      × Tiles 2 ranges (length bytes)
      × (slices (lobs.get store') bytes ranges ≡ oks row)
unfolding IsImage
row_column_ranges-encode_row_with lobs limit row store bytes store' lawful small few fits h =
    let (cs, im) = row-IsImage lobs limit row store bytes store' lawful small fits h in
    let get = lobs.get store' in
    let same : length row ≡ length cs = ap length (sym (im.1)) ∙ length-values cs in
    let few' : length cs < 2 ^ 16 = subst (λ (n : ℕ). n < 2 ^ 16) same few in
    let whole =
      subst (λ (b : List ℕ). Holds b 0 (row_bytes cs)) (sym (im.0)) (Holds-self (row_bytes cs)) in
    let size : 2 + length (cells_bytes cs) ≡ length (row_bytes cs) =
      unfold row_bytes in omega arith in
    let end : 2 + length (cells_bytes cs) ≡ length bytes = size ∙ ap length (sym (im.0)) in
    let cells : Holds bytes 2 (cells_bytes cs) =
      unfold row_bytes in Holds-right bytes 0 (to_le_bytes 2 (length cs)) (cells_bytes cs) whole in
    (
      spans 2 cs,
      row_column_ranges-Holds bytes (some get) cs few' (im.2) whole,
      spans-Tiles cs 2 (length bytes) end,
      slices-spans get bytes cs 2 (im.2) cells ∙ ap oks (im.1),
    )

abbrev pub found : Get → List ℕ → List (Result (List ℕ))
found get [] = []
found get (id ∷ rest) = get id ∷ found get rest

found-lob_ids :
    (get : Get) (cs : List Cell)
    → CellsFit (some get) cs
    → found get (lob_ids cs) ≡ oks (externals cs)
unfolding CellsFit lob_ids externals CellFits
found-lob_ids get [] f = refl
found-lob_ids get (Cell.plain v ∷ cs) f = found-lob_ids get cs (f.1)
found-lob_ids get (Cell.lob id s ∷ cs) f =
    let (one, two) = resolve-get get id s (f.0.1) in rw (one, found-lob_ids get cs (f.1)) refl

behind_header :
    (creator deleter next_rid : ℕ) (bytes : List ℕ)
    → collect_lob_ids (header creator deleter next_rid ++ bytes) ≡ collect_row_lob_ids bytes []
unfolding collect_lob_ids header
behind_header creator deleter next_rid bytes = ground arith

-- The ids that are collected from a record that was written through a lawful resolver are those of
-- its texts longer than the limit: each finds its text, in the order of the columns.
pub collect_lob_ids-encode_record :
    {S : Type 0} (lobs : LobResolver S) (creator deleter next_rid limit : ℕ) (row : List Value)
    (store : S) (bytes : List ℕ) (store' : S)
    → IsLawful lobs
    → limit < 2 ^ 16
    → length row < 2 ^ 16
    → RowFits row
    → encode_record creator deleter next_rid row lobs limit store ≡ ok (bytes, store')
    → found (lobs.get store') (collect_lob_ids bytes) ≡ oks (long_texts limit row)
unfolding IsImage
collect_lob_ids-encode_record lobs creator deleter next_rid limit row store bytes store' lawful
      small few fits h =
    let (cs, im) =
      record-IsImage lobs creator deleter next_rid limit row store bytes store' lawful small fits
        h in
    let get = lobs.get store' in
    let same : length row ≡ length cs = ap length (sym (im.1)) ∙ length-values cs in
    let few' : length cs < 2 ^ 16 = subst (λ (n : ℕ). n < 2 ^ 16) same few in
    let collected =
      collect_row_lob_ids-Holds (row_bytes cs) (some get) cs few' (im.2)
        (Holds-self (row_bytes cs)) in
    rw (im.0, behind_header creator deleter next_rid (row_bytes cs), collected)
      (found-lob_ids get cs (im.2) ∙ ap oks (im.4))
