-- ===== src/Storage/Codec/Agree.antt =====
-- On any bytes, the readers that skip columns agree with the one that reads all.
use chibidb.Prelude.{
  ℕ, zero, suc, ◌+◌, ◌≡◌, refl, sym, ap, ◌∙◌, inl, inr, Bool, not, ◌==◌, if◌then◌else◌, List, [],
  ◌∷◌, ◌++◌, Option, none, some, get_or, Bool-cases, arith,
}
use chibidb.Prelude.Result.{Error, Result, ok, err, ◌>>=◌, Result-cases, ok_pair_injective}
use chibidb.Index.Key.{Value}
use chibidb.Storage.Lsm.Coding.{from_le_bytes}
use chibidb.Storage.Codec.{take_bytes}
use chibidb.Storage.Codec.Decode.{
  Get, skip_payload, text_of, resolve, value_of, needed, decode_value, decode_values,
  decode_row_with,
}
use chibidb.Storage.Codec.Columns.{skipped_slot, write_slot, want_values, decode_row_with_want}
use chibidb.Storage.Codec.Cells.{pick}
use chibidb.Storage.Codec.Rows.{picks}
use mathlib.Core.List.{append_assoc, append-nil}

-- Where a result that was reached through another ends.
next_of :
    {A B : Type 0} (r : Result (A × ℕ)) (f : A → B) (v : B) (next : ℕ)
    → ◌>>=◌ {B = B × ℕ} r (λ (a, n). ok (f a, n)) ≡ ok (v, next)
    → ◌>>=◌ {B = ℕ} r (λ (a, n). ok n) ≡ ok next
next_of (err e) f v next h = ground arith
next_of (ok (a, n)) f v next h = ap ok ((ok_pair_injective (f a, n) (v, next) h).1)

next_of_checked :
    {A B : Type 0} (r : Result (A × ℕ)) (f : A → Result B) (v : B) (next : ℕ)
    → ◌>>=◌ {B = B × ℕ} r (λ (a, n). f a >>= (λ b. ok (b, n))) ≡ ok (v, next)
    → ◌>>=◌ {B = ℕ} r (λ (a, n). ok n) ≡ ok next
next_of_checked (err e) f v next h = ground arith
next_of_checked (ok (a, n)) f v next h = elim (Result-cases (f a)) [
  | inl (e, g) ↦ absurd (let q = rw g at h in ground arith)
  | inr (b, g) ↦ ap ok ((ok_pair_injective (b, n) (v, next) (rw g at h)).1)
]

-- A payload that is read is passed over to the same end.
skip_payload-value_of :
    (bytes : List ℕ) (pos : ℕ) (lobs : Option Get) (v : Value) (next tag : ℕ)
    → value_of bytes pos tag lobs ≡ ok (v, next)
    → skip_payload bytes pos tag ≡ ok next
unfolding value_of skip_payload
skip_payload-value_of bytes pos lobs v next zero h =
    ap ok ((ok_pair_injective (Value.null, pos) (v, next) h).1)
skip_payload-value_of bytes pos lobs v next (suc zero) h =
    next_of (take_bytes bytes pos 8) (λ b. Value.int (from_le_bytes b)) v next h
skip_payload-value_of bytes pos lobs v next (suc (suc zero)) h =
    next_of (take_bytes bytes pos 8) (λ b. Value.float (from_le_bytes b)) v next h
skip_payload-value_of bytes pos lobs v next (suc (suc (suc zero))) h =
    elim (Result-cases (take_bytes bytes pos 2)) [
      | inl (e, g) ↦ absurd (let q = rw g at h in ground arith)
      | inr ((lb, at), g) ↦ rw g (
          next_of_checked (take_bytes bytes at (from_le_bytes lb))
            (text_of (Error.runtime "invalid utf8 in stored string")) v next (rw g at h))
    ]
skip_payload-value_of bytes pos lobs v next (suc (suc (suc (suc zero)))) h =
    next_of (take_bytes bytes pos 1) (λ b. Value.bool (not (get_or b 0 0 == 0))) v next h
skip_payload-value_of bytes pos lobs v next (suc (suc (suc (suc (suc zero))))) h =
    next_of (take_bytes bytes pos 4) (λ b. Value.date (from_le_bytes b)) v next h
skip_payload-value_of bytes pos lobs v next (suc (suc (suc (suc (suc (suc zero)))))) h =
    next_of_checked (take_bytes bytes pos 8) (λ b. resolve lobs (from_le_bytes b)) v next h
skip_payload-value_of bytes pos lobs v next (suc (suc (suc (suc (suc (suc (suc tag))))))) h =
    absurd (ground arith)

-- One column, read in full and read with `keep`.
decode_value_agrees :
    (bytes : List ℕ) (pos index : ℕ) (lobs : Option Get) (keep : Option (List Bool)) (v : Value)
    (next : ℕ)
    → decode_value bytes pos index lobs none ≡ ok (v, next)
    → decode_value bytes pos index lobs keep ≡ ok (pick keep index v, next)
unfolding decode_value needed
decode_value_agrees bytes pos index lobs keep v next h =
    elim (Result-cases (take_bytes bytes pos 1)) [
      | inl (e, g) ↦ absurd (let q = rw g at h in ground arith)
      | inr ((t, at), g) ↦
          let read : value_of bytes at (get_or t 0 0) lobs ≡ ok (v, next) = rw g at h in
          let pass = skip_payload-value_of bytes at lobs v next (get_or t 0 0) read in
          rw (g, read, pass)
            (elim (Bool-cases (needed keep index)) [ inl e ↦ rw e refl | inr e ↦ rw e refl ])
    ]

-- A column that can be read can be passed over.
want_skips :
    (bytes : List ℕ) (pos index : ℕ) (lobs : Option Get) (v : Value) (next : ℕ)
    → decode_value bytes pos index lobs none ≡ ok (v, next)
    → (t : List ℕ) × (at : ℕ) × (take_bytes bytes pos 1 ≡ ok (t, at))
      × (skip_payload bytes at (get_or t 0 0) ≡ ok next)
unfolding decode_value needed
want_skips bytes pos index lobs v next h = elim (Result-cases (take_bytes bytes pos 1)) [
  | inl (e, g) ↦ absurd (let q = rw g at h in ground arith)
  | inr ((t, at), g) ↦
      (t, at, g, skip_payload-value_of bytes at lobs v next (get_or t 0 0) (rw g at h))
]

-- The values of a row put into the slots that are wanted, from the column `index` on.
unfoldable pub place : List ℕ → ℕ → List Value → List Value → Result (List Value)
place want index [] out = ok out
place want index (v ∷ row) out =
    let rest = place want (index + 1) row out in
    let written =
      write_slot out (get_or want index skipped_slot) v
      >>= (λ out'. place want (index + 1) row out') in
    if get_or want index skipped_slot == skipped_slot then rest else written

module _ (bytes : List ℕ) (get : Get) (keep : List Bool) (want : List ℕ) where
  unfoldable pub Agrees : ℕ → ℕ → ℕ → List Value → ℕ → Type 0
  Agrees left index pos vs end =
      ((row : List Value)
        → decode_values bytes (some get) (some keep) left index row pos
          ≡ ok (row ++ picks (some keep) index vs, end))
      × ((out : List Value)
          → want_values bytes want get left index out pos ≡ place want index vs out)

  decode_values_agree :
      (left index : ℕ) (row : List Value) (pos : ℕ) (r : List Value) (end : ℕ)
      → decode_values bytes (some get) none left index row pos ≡ ok (r, end)
      → (vs : List Value) × (r ≡ row ++ vs) × Agrees left index pos vs end
  unfolding decode_values want_values Agrees place
  decode_values_agree zero index row pos r end h =
      let (same, last) = ok_pair_injective (row, pos) (r, end) h in
      ([], sym same ∙ sym (append-nil row), (λ row'. rw (append-nil row', last) refl, λ out. refl))
  decode_values_agree (suc left) index row pos r end h =
      elim (Result-cases (decode_value bytes pos index (some get) none)) [
        | inl (e, g) ↦ absurd (let q = rw g at h in ground arith)
        | inr ((v, next), g) ↦
            let (vs, same, (kept, wanted)) =
              decode_values_agree left (index + 1) (row ++ (v ∷ [])) next r end (rw g at h) in
            (
              v ∷ vs,
              same ∙ append_assoc row (v ∷ []) vs,
              (
                λ row'.
                    rw
                      (
                        decode_value_agrees bytes pos index (some get) (some keep) v next g,
                        kept (row' ++ (pick (some keep) index v ∷ [])),
                      )
                      (ap (λ (x : List Value). ok (x, end))
                        (append_assoc row' (pick (some keep) index v ∷ [])
                          (picks (some keep) (index + 1) vs))),
                λ out. elim (Bool-cases (get_or want index skipped_slot == skipped_slot)) [
                  | inl skip ↦
                      let (t, at, taken, passed) = want_skips bytes pos index (some get) v next g in
                      rw (skip, taken, passed) (wanted out)
                  | inr slot ↦
                      rw (slot, g)
                        (elim (Result-cases (write_slot out (get_or want index skipped_slot) v)) [
                          | inl (e, f) ↦ rw f refl
                          | inr (out', f) ↦ rw f (wanted out')
                        ])
                ],
              ),
            )
      ]

-- On any bytes that `decode_row_with` reads in full, it reads the same row with NULL in the columns
-- that are not kept, up to the same end, and `decode_row_with_want` puts the wanted values of that row in their
-- slots; it fails when a wanted slot is out of bounds, and in no other case.
pub decode_row_with_want-decode_row_with :
    (bytes : List ℕ) (get : Get) (keep : List Bool) (want : List ℕ) (row out : List Value) (end : ℕ)
    → decode_row_with bytes (some get) none ≡ ok (row, end)
    → (decode_row_with bytes (some get) (some keep) ≡ ok (picks (some keep) 0 row, end))
      × (decode_row_with_want bytes want get out ≡ place want 0 row out)
unfolding decode_row_with decode_row_with_want Agrees
decode_row_with_want-decode_row_with bytes get keep want row out end h =
    elim (Result-cases (take_bytes bytes 0 2)) [
      | inl (e, g) ↦ absurd (let q = rw g at h in ground arith)
      | inr ((hb, pos), g) ↦
          let (vs, same, (kept, wanted)) =
            decode_values_agree bytes get keep want (from_le_bytes hb) 0 [] pos row end
              (rw g at h) in
          rw (g, same) (kept [], wanted out)
    ]
