-- ===== src/Storage/Codec/External.antt =====
-- Rows whose long texts a resolver keeps.
use chibidb.Prelude.{
  ℕ, ◌+◌, ◌^◌, ◌<◌, ◌≡◌, refl, sym, ap, subst, ◌∙◌, inl, inr, true, ltb, if◌then◌else◌, List, [],
  ◌∷◌, ◌++◌, some, length, length-append, Bool-cases, arith,
}
use chibidb.Prelude.Result.{Result, ok, Result-cases, ok_pair_injective}
use chibidb.Index.Key.{Value}
use chibidb.Storage.Lsm.Coding.{to_le_bytes}
use chibidb.Storage.Codec.{LobResolver}
use chibidb.Storage.Codec.Utf8.{is_utf8}
use chibidb.Storage.Codec.Encode.{
  push_value, push_text_with, push_value_with, push_values_with, value_size, add_sizes,
}
use chibidb.Storage.Codec.Decode.{Get, text_of, resolve}
use chibidb.Storage.Codec.Cells.{Cell, value, payload, tag, cell_bytes, CellFits}
use chibidb.Storage.Codec.Rows.{cells_bytes, CellsFit, values}
use chibidb.Storage.Codec.InLine.{push_value-cell}
use mathlib.Core.List.{append_assoc, append-nil}

-- A text that `get` finds, and the value that it resolves to.
pub resolve-get :
    (get : Get) (id : ℕ) (s : List ℕ)
    → resolve (some get) id ≡ ok (Value.str s)
    → (get id ≡ ok s) × (is_utf8 s ≡ true)
unfolding resolve text_of
resolve-get get id s h = elim (Result-cases (get id)) [
  | inl (e, g) ↦ absurd (let r = rw g at h in ground arith)
  | inr (t, g) ↦
      let r = rw g at h in
      elim (Bool-cases (is_utf8 t)) [
        | inl u ↦
            let q = rw u at r in let same : t ≡ s = ground arith in (ground arith, ground arith)
        | inr u ↦ absurd (let q = rw u at r in ground arith)
      ]
]

pub get-resolve :
    (get : Get) (id : ℕ) (s : List ℕ)
    → get id ≡ ok s
    → is_utf8 s ≡ true
    → resolve (some get) id ≡ ok (Value.str s)
unfolding resolve text_of
get-resolve get id s h u = rw (h, u) refl

-- What a value needs to be written: its words fit, and a text is UTF-8.
unfoldable pub ValueFits : Value → Type 0
ValueFits Value.null = Unit
ValueFits (Value.int n) = n < 2 ^ 64
ValueFits (Value.float x) = x < 2 ^ 64
ValueFits (Value.str s) = is_utf8 s ≡ true
ValueFits (Value.bool b) = Unit
ValueFits (Value.date d) = d < 2 ^ 32

unfoldable pub RowFits : List Value → Type 0
RowFits [] = Unit
RowFits (v ∷ row) = ValueFits v × RowFits row

-- The texts of a row that are too long to stand in line, in the order of the columns.
unfoldable pub long_text : ℕ → Value → List (List ℕ)
long_text limit Value.null = []
long_text limit (Value.int n) = []
long_text limit (Value.float x) = []
long_text limit (Value.str s) = if ltb limit (length s) then s ∷ [] else []
long_text limit (Value.bool b) = []
long_text limit (Value.date d) = []

unfoldable pub long_texts : ℕ → List Value → List (List ℕ)
long_texts limit [] = []
long_texts limit (v ∷ row) = long_text limit v ++ long_texts limit row

abbrev pub external : Cell → List (List ℕ)
external (Cell.plain v) = []
external (Cell.lob id s) = s ∷ []

unfoldable pub externals : List Cell → List (List ℕ)
externals [] = []
externals (c ∷ cs) = external c ++ externals cs

module _ {S : Type 0} (lobs : LobResolver S) where
  -- Every text that is found in one store is found in the other.
  unfoldable pub Keeps : S → S → Type 0
  Keeps store store' = (id : ℕ) (s : List ℕ) → lobs.get store id ≡ ok s → lobs.get store' id ≡ ok s

  -- `put` gives out an id of 64 bits under which `get` then finds the text, and loses no other text.
  unfoldable pub IsLawful : Type 0
  IsLawful =
      (store : S) (s : List ℕ) (id : ℕ) (store' : S)
      → lobs.put store s ≡ ok (id, store')
      → (id < 2 ^ 64) × (lobs.get store' id ≡ ok s) × Keeps store store'

  unfoldable pub Written : ℕ → S → List ℕ → Value → List ℕ → S → Cell → Type 0
  Written limit store buf v out store' c =
      (out ≡ buf ++ cell_bytes c)
      × (value c ≡ v)
      × CellFits (some (lobs.get store')) c
      × Keeps store store'
      × (length (cell_bytes c) ≡ value_size limit v)
      × (external c ≡ long_text limit v)

  CellFits-Keeps :
      (store store' : S) (c : Cell)
      → Keeps store store'
      → CellFits (some (lobs.get store)) c
      → CellFits (some (lobs.get store')) c
  unfolding CellFits Keeps
  CellFits-Keeps store store' (Cell.plain Value.null) k f = f
  CellFits-Keeps store store' (Cell.plain (Value.int n)) k f = f
  CellFits-Keeps store store' (Cell.plain (Value.float x)) k f = f
  CellFits-Keeps store store' (Cell.plain (Value.str s)) k f = f
  CellFits-Keeps store store' (Cell.plain (Value.bool b)) k f = f
  CellFits-Keeps store store' (Cell.plain (Value.date d)) k f = f
  CellFits-Keeps store store' (Cell.lob id s) k f =
      let found = resolve-get (lobs.get store) id s (f.1) in
      (f.0, get-resolve (lobs.get store') id s (k id s (found.0)) (found.1))

  module _ (lawful : IsLawful) (limit : ℕ) (small : limit < 2 ^ 16) where
    plain-Written :
        (v : Value) (store : S) (buf out : List ℕ) (store' : S)
        → ◌≡◌ {A = Result (List ℕ × S)} (ok (push_value buf v, store)) (ok (out, store'))
        → CellFits (some (lobs.get store)) (Cell.plain v)
        → length (cell_bytes (Cell.plain v)) ≡ value_size limit v
        → [] ≡ long_text limit v
        → Written limit store buf v out store' (Cell.plain v)
    unfolding Written Keeps
    plain-Written v store buf out store' h f size short =
        let (same_out, same_store) = ok_pair_injective (push_value buf v, store) (out, store') h in
        (
          sym same_out ∙ push_value-cell buf v,
          refl,
          subst (λ (st : S). CellFits (some (lobs.get st)) (Cell.plain v)) same_store f,
          λ id s g. subst (λ (st : S). lobs.get st id ≡ ok s) same_store g,
          size,
          short,
        )

    text-Written :
        (s : List ℕ) (store : S) (buf out : List ℕ) (store' : S)
        → is_utf8 s ≡ true
        → push_text_with (some lobs) limit buf store s ≡ ok (out, store')
        → (c : Cell) × Written limit store buf (Value.str s) out store' c
    unfolding push_text_with IsLawful Written CellFits
    text-Written s store buf out store' u h = elim (Bool-cases (ltb limit (length s))) [
      | inl long ↦
          let r = rw long at h in
          elim (Result-cases (lobs.put store s)) [
            | inl (e, f) ↦ absurd (let q = rw f at r in ground arith)
            | inr ((id, after), f) ↦
                let q = rw f at r in
                let (same_out, same_store) =
                  ok_pair_injective ((buf ++ (6 ∷ [])) ++ to_le_bytes 8 id, after) (out, store')
                    q in
                let (fits, found, keeps) = lawful store s id store' (rw same_store at f) in
                (
                  Cell.lob id s,
                  (
                    sym same_out
                        ∙ unfold cell_bytes tag payload in
                          append_assoc buf (6 ∷ []) (to_le_bytes 8 id),
                    refl,
                    (fits, get-resolve (lobs.get store') id s found u),
                    keeps,
                    unfold value_size cell_bytes payload in rw long refl,
                    unfold long_text in rw long refl,
                  ),
                )
          ]
      | inr short ↦ (
        Cell.plain (Value.str s),
        plain-Written (Value.str s) store buf out store' (rw short at h) (ground arith, u)
            (unfold value_size cell_bytes payload in rw short (ground arith))
            (unfold long_text in rw short refl),
      )
    ]

    value-Written :
        (v : Value) (store : S) (buf out : List ℕ) (store' : S)
        → ValueFits v
        → push_value_with (some lobs) limit buf store v ≡ ok (out, store')
        → (c : Cell) × Written limit store buf v out store' c
    unfolding push_value_with ValueFits CellFits cell_bytes payload value_size long_text
    value-Written Value.null store buf out store' f h =
        (Cell.plain Value.null, plain-Written Value.null store buf out store' h f refl refl)
    value-Written (Value.int n) store buf out store' f h =
        (Cell.plain (Value.int n), plain-Written (Value.int n) store buf out store' h f refl refl)
    value-Written (Value.float x) store buf out store' f h = (
      Cell.plain (Value.float x),
      plain-Written (Value.float x) store buf out store' h f refl refl,
    )
    value-Written (Value.str s) store buf out store' f h = text-Written s store buf out store' f h
    value-Written (Value.bool b) store buf out store' f h =
        (Cell.plain (Value.bool b), plain-Written (Value.bool b) store buf out store' h f refl refl)
    value-Written (Value.date d) store buf out store' f h =
        (Cell.plain (Value.date d), plain-Written (Value.date d) store buf out store' h f refl refl)

  CellsFit-Keeps :
      (store store' : S) (cs : List Cell)
      → Keeps store store'
      → CellsFit (some (lobs.get store)) cs
      → CellsFit (some (lobs.get store')) cs
  unfolding CellsFit
  CellsFit-Keeps store store' [] k f = f
  CellsFit-Keeps store store' (c ∷ cs) k f =
      (CellFits-Keeps store store' c k (f.0), CellsFit-Keeps store store' cs k (f.1))

  unfoldable pub RowWritten : ℕ → S → List ℕ → List Value → List ℕ → S → List Cell → Type 0
  RowWritten limit store buf row out store' cs =
      (out ≡ buf ++ cells_bytes cs)
      × (values cs ≡ row)
      × CellsFit (some (lobs.get store')) cs
      × Keeps store store'
      × ((size : ℕ) → add_sizes limit size row ≡ size + length (cells_bytes cs))
      × (externals cs ≡ long_texts limit row)

  -- What `encode_row_with` appends is the cells of the row, which fit the store that is left.
  pub row-RowWritten :
      (limit : ℕ) (row : List Value) (store : S) (buf out : List ℕ) (store' : S)
      → IsLawful
      → limit < 2 ^ 16
      → RowFits row
      → push_values_with (some lobs) limit buf store row ≡ ok (out, store')
      → (cs : List Cell) × RowWritten limit store buf row out store' cs
  unfolding push_values_with Written RowWritten RowFits cells_bytes CellsFit add_sizes Keeps
      externals long_texts
  row-RowWritten limit [] store buf out store' lawful small f h =
      let (same_out, same_store) = ok_pair_injective (buf, store) (out, store') h in
      (
        [],
        (
          sym same_out ∙ sym (append-nil buf),
          refl,
          tt,
          λ id s g. subst (λ (st : S). lobs.get st id ≡ ok s) same_store g,
          λ size. omega arith,
          refl,
        ),
      )
  row-RowWritten limit (v ∷ row) store buf out store' lawful small f h =
      elim (Result-cases (push_value_with (some lobs) limit buf store v)) [
        | inl (e, g) ↦ absurd (let r = rw g at h in ground arith)
        | inr ((buf1, store1), g) ↦
            let (c, w) = value-Written lawful limit small v store buf buf1 store1 (f.0) g in
            let (cs, ws) =
              row-RowWritten limit row store1 buf1 out store' lawful small (f.1) (rw g at h) in
            let all = ws.0 ∙ ap (λ (b : List ℕ). b ++ cells_bytes cs) (w.0) in
            (
              c ∷ cs,
              (
                all ∙ append_assoc buf (cell_bytes c) (cells_bytes cs),
                ap (λ (x : Value). x ∷ values cs) (w.1) ∙ ap (λ (r : List Value). v ∷ r) (ws.1),
                (CellFits-Keeps store1 store' c (ws.3) (w.2), ws.2),
                λ id s found. ws.3 id s (w.3 id s found),
                λ size.
                    ws.4 (size + value_size limit v)
                    ∙ omega (arith, w.4, length-append (cell_bytes c) (cells_bytes cs)),
                rw (w.5, ws.5) refl,
              ),
            )
      ]
