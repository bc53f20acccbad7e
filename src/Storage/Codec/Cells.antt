-- ===== src/Storage/Codec/Cells.antt =====
-- One tagged value among bytes: a value in line, or the id of a text that is kept out of line.
use chibidb.Prelude.{
  ℕ, suc, ◌+◌, ◌^◌, ◌<◌, ◌≡◌, refl, ap, inl, inr, Bool, true, false, if◌then◌else◌, List, [], ◌∷◌,
  ◌++◌, Option, length, Bool-cases, arith,
}
use chibidb.Prelude.Holds.{Holds, Holds-inside, Holds-left, Holds-right, take-Holds}
use chibidb.Prelude.Result.{ok}
use chibidb.Index.Key.{Value}
use chibidb.Storage.Lsm.Coding.{to_le_bytes}
use chibidb.Storage.Lsm.Coding.Words.{from_le_bytes-to_le_bytes}
use chibidb.Storage.Codec.{take_bytes}
use chibidb.Storage.Codec.Utf8.{is_utf8}
use chibidb.Storage.Codec.Encode.{bool_byte}
use chibidb.Storage.Codec.Decode.{
  Get, skip_payload, text_of, resolve, value_of, needed, decode_value,
}

pub data Cell : Type 0 where
  plain : Value → Cell
  lob : (id : ℕ) (text : List ℕ) → Cell

abbrev pub value : Cell → Value
value (Cell.plain v) = v
value (Cell.lob id s) = Value.str s

unfoldable pub tag : Cell → ℕ
tag (Cell.plain Value.null) = 0
tag (Cell.plain (Value.int n)) = 1
tag (Cell.plain (Value.float x)) = 2
tag (Cell.plain (Value.str s)) = 3
tag (Cell.plain (Value.bool b)) = 4
tag (Cell.plain (Value.date d)) = 5
tag (Cell.lob id s) = 6

unfoldable pub payload : Cell → List ℕ
payload (Cell.plain Value.null) = []
payload (Cell.plain (Value.int n)) = to_le_bytes 8 n
payload (Cell.plain (Value.float x)) = to_le_bytes 8 x
payload (Cell.plain (Value.str s)) = to_le_bytes 2 (length s) ++ s
payload (Cell.plain (Value.bool b)) = bool_byte b ∷ []
payload (Cell.plain (Value.date d)) = to_le_bytes 4 d
payload (Cell.lob id s) = to_le_bytes 8 id

unfoldable pub cell_bytes : Cell → List ℕ
cell_bytes c = tag c ∷ payload c

-- The words fit, a text is UTF-8, and an id leads to its text.
unfoldable pub CellFits : Option Get → Cell → Type 0
CellFits lobs (Cell.plain Value.null) = Unit
CellFits lobs (Cell.plain (Value.int n)) = n < 2 ^ 64
CellFits lobs (Cell.plain (Value.float x)) = x < 2 ^ 64
CellFits lobs (Cell.plain (Value.str s)) = (length s < 2 ^ 16) × (is_utf8 s ≡ true)
CellFits lobs (Cell.plain (Value.bool b)) = Unit
CellFits lobs (Cell.plain (Value.date d)) = d < 2 ^ 32
CellFits lobs (Cell.lob id s) = (id < 2 ^ 64) × (resolve lobs id ≡ ok (Value.str s))

pub take_bytes-Holds :
    (bytes : List ℕ) (pos : ℕ) (mid : List ℕ)
    → Holds bytes pos mid
    → take_bytes bytes pos (length mid) ≡ ok (mid, pos + length mid)
unfolding take_bytes
take_bytes-Holds bytes pos mid h =
    rw (take-Holds bytes pos mid h) (ground (arith, Holds-inside bytes pos mid h))

module _ (bytes : List ℕ) (pos : ℕ) (lobs : Option Get) where
  pub value_of-Holds :
      (c : Cell)
      → CellFits lobs c
      → Holds bytes pos (payload c)
      → value_of bytes pos (tag c) lobs ≡ ok (value c, pos + length (payload c))
  unfolding value_of tag payload CellFits text_of
  value_of-Holds (Cell.plain Value.null) f h = ap (λ (p : ℕ). ok (Value.null, p)) (omega arith)
  value_of-Holds (Cell.plain (Value.int n)) f h =
      rw (take_bytes-Holds bytes pos (to_le_bytes 8 n) h, from_le_bytes-to_le_bytes 8 n f) refl
  value_of-Holds (Cell.plain (Value.float x)) f h =
      rw (take_bytes-Holds bytes pos (to_le_bytes 8 x) h, from_le_bytes-to_le_bytes 8 x f) refl
  value_of-Holds (Cell.plain (Value.str s)) f h =
      let word = to_le_bytes 2 (length s) in
      rw
        (
          take_bytes-Holds bytes pos word (Holds-left bytes pos word s h),
          from_le_bytes-to_le_bytes 2 (length s) (f.0),
          take_bytes-Holds bytes (pos + 2) s (Holds-right bytes pos word s h),
          f.1,
        )
        (ap (λ (p : ℕ). ok (Value.str s, p)) (omega arith))
  value_of-Holds (Cell.plain (Value.bool true)) f h =
      rw (take_bytes-Holds bytes pos (1 ∷ []) h) refl
  value_of-Holds (Cell.plain (Value.bool false)) f h =
      rw (take_bytes-Holds bytes pos (0 ∷ []) h) refl
  value_of-Holds (Cell.plain (Value.date d)) f h =
      rw (take_bytes-Holds bytes pos (to_le_bytes 4 d) h, from_le_bytes-to_le_bytes 4 d f) refl
  value_of-Holds (Cell.lob id s) f h =
      rw
        (take_bytes-Holds bytes pos (to_le_bytes 8 id) h, from_le_bytes-to_le_bytes 8 id (f.0), f.1)
        refl

  pub skip_payload-Holds :
      (c : Cell)
      → CellFits lobs c
      → Holds bytes pos (payload c)
      → skip_payload bytes pos (tag c) ≡ ok (pos + length (payload c))
  unfolding skip_payload tag payload CellFits
  skip_payload-Holds (Cell.plain Value.null) f h = ap (λ (p : ℕ). ok p) (omega arith)
  skip_payload-Holds (Cell.plain (Value.int n)) f h =
      rw (take_bytes-Holds bytes pos (to_le_bytes 8 n) h) refl
  skip_payload-Holds (Cell.plain (Value.float x)) f h =
      rw (take_bytes-Holds bytes pos (to_le_bytes 8 x) h) refl
  skip_payload-Holds (Cell.plain (Value.str s)) f h =
      let word = to_le_bytes 2 (length s) in
      rw
        (
          take_bytes-Holds bytes pos word (Holds-left bytes pos word s h),
          from_le_bytes-to_le_bytes 2 (length s) (f.0),
          take_bytes-Holds bytes (pos + 2) s (Holds-right bytes pos word s h),
        )
        (ap (λ (p : ℕ). ok p) (omega arith))
  skip_payload-Holds (Cell.plain (Value.bool b)) f h =
      rw (take_bytes-Holds bytes pos (bool_byte b ∷ []) h) refl
  skip_payload-Holds (Cell.plain (Value.date d)) f h =
      rw (take_bytes-Holds bytes pos (to_le_bytes 4 d) h) refl
  skip_payload-Holds (Cell.lob id s) f h = rw (take_bytes-Holds bytes pos (to_le_bytes 8 id) h) refl

-- A column that the query reads is its value, another is NULL.
abbrev pub pick : Option (List Bool) → ℕ → Value → Value
pick keep index v = if needed keep index then v else Value.null

pub decode_value-Holds :
    (bytes : List ℕ) (pos : ℕ) (lobs : Option Get) (c : Cell) (index : ℕ)
    (keep : Option (List Bool))
    → CellFits lobs c
    → Holds bytes pos (cell_bytes c)
    → decode_value bytes pos index lobs keep
      ≡ ok (pick keep index (value c), pos + length (cell_bytes c))
unfolding decode_value cell_bytes
decode_value-Holds bytes pos lobs c index keep f h =
    let first = Holds-left bytes pos (tag c ∷ []) (payload c) h in
    let rest = Holds-right bytes pos (tag c ∷ []) (payload c) h in
    let end : pos + 1 + length (payload c) ≡ pos + suc (length (payload c)) = omega arith in
    rw
      (
        take_bytes-Holds bytes pos (tag c ∷ []) first,
        value_of-Holds bytes (pos + 1) lobs c f rest,
        skip_payload-Holds bytes (pos + 1) lobs c f rest,
        end,
      )
      (elim (Bool-cases (needed keep index)) [ inl e ↦ rw e refl | inr e ↦ rw e refl ])
