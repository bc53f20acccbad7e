-- ===== src/Storage/Codec/Columns.antt =====
-- The readers of src/storage/codec.rs that pass over values or pick some of them.
use chibidb.Prelude.{
  ℕ, zero, suc, ◌+◌, ◌-◌, ◌^◌, ◌||◌, ltb, ◌==◌, if◌then◌else◌, List, [], ◌∷◌, ◌++◌, Option, none,
  some, length, get_or, get_elem?, set, drop, sub_list,
}
use chibidb.Prelude.Result.{Error, Result, ok, err, ◌>>=◌}
use chibidb.Index.Key.{Value}
use chibidb.Storage.Lsm.Coding.{from_le_bytes}
use chibidb.Storage.Codec.{
  tag_null, tag_int, tag_float, tag_str, tag_bool, tag_date, tag_lob, record_header, truncated,
  take_bytes,
}
use chibidb.Storage.Codec.Decode.{Get, unknown_tag, skip_payload, decode_value}

-- The `match` of `collect_row_lob_ids`: where it goes on, and with which ids; `none` for a `return`.
unfoldable pub lob_step : List ℕ → ℕ → ℕ → List ℕ → Option (ℕ × List ℕ)
lob_step bytes pos tag out =
    if tag == tag_null
    then some (pos, out)
    else if tag == tag_int || tag == tag_float
    then some (pos + 8, out)
    else if tag == tag_bool
    then some (pos + 1, out)
    else if tag == tag_date
    then some (pos + 4, out)
    else if tag == tag_str
    then (if ltb (length bytes) (pos + 2)
        then none
        else some (pos + (2 + from_le_bytes (sub_list pos (pos + 2) bytes)), out))
    else if tag == tag_lob
    then (if ltb (length bytes) (pos + 8)
        then none
        else some (pos + 8, out ++ (from_le_bytes (sub_list pos (pos + 8) bytes) ∷ [])))
    else none

unfoldable pub collect_ids : List ℕ → ℕ → ℕ → List ℕ → List ℕ
collect_ids bytes zero pos out = out
collect_ids bytes (suc left) pos out = elim (get_elem? bytes pos) [
  | none ↦ out
  | some tag ↦ elim (lob_step bytes (pos + 1) tag out) [
    | none ↦ out
    | some (next, ids) ↦
        let rest = collect_ids bytes left next ids in if ltb (length bytes) next then ids else rest
  ]
]

unfoldable pub collect_row_lob_ids : List ℕ → List ℕ → List ℕ
collect_row_lob_ids bytes out =
    if ltb (length bytes) 2
    then out
    else collect_ids bytes (from_le_bytes (sub_list 0 2 bytes)) 2 out

unfoldable pub collect_lob_ids : List ℕ → List ℕ
collect_lob_ids bytes =
    if ltb (length bytes) record_header
    then []
    else collect_row_lob_ids (drop record_header bytes) []

-- The position that the `match` of `row_column_ranges` gets to.
unfoldable pub column_end : List ℕ → ℕ → ℕ → Result ℕ
column_end bytes pos tag =
    if tag == tag_null
    then ok pos
    else if tag == tag_int || (tag == tag_float || tag == tag_lob)
    then ok (pos + 8)
    else if tag == tag_bool
    then ok (pos + 1)
    else if tag == tag_date
    then ok (pos + 4)
    else if tag == tag_str
    then take_bytes bytes pos 2 >>= (λ (lb, at). ok (at + from_le_bytes lb))
    else unknown_tag

unfoldable pub tag_at : List ℕ → ℕ → Result ℕ
tag_at bytes pos = elim (get_elem? bytes pos) [ none ↦ truncated | some tag ↦ ok tag ]

unfoldable pub column_ranges : List ℕ → ℕ → ℕ → List (ℕ × ℕ) → Result (List (ℕ × ℕ))
column_ranges bytes zero pos ranges = ok ranges
column_ranges bytes (suc left) pos ranges = tag_at bytes pos >>= (λ tag.
    column_end bytes (pos + 1) tag >>= (λ end.
      if ltb (length bytes) end
      then truncated
      else column_ranges bytes left end (ranges ++ ((pos, end) ∷ []))))

unfoldable pub row_column_ranges : List ℕ → Result (List (ℕ × ℕ))
row_column_ranges bytes =
    if ltb (length bytes) 2
    then truncated
    else column_ranges bytes (from_le_bytes (sub_list 0 2 bytes)) 2 []

-- `usize::MAX`.
abbrev pub skipped_slot : ℕ
skipped_slot = 2 ^ 64 - 1

-- `out[slot] = v`, which panics out of bounds.
unfoldable pub write_slot : List Value → ℕ → Value → Result (List Value)
write_slot out slot v =
    if ltb slot (length out) then ok (set out slot v) else err (Error.runtime "index out of bounds")

unfoldable pub want_values : List ℕ → List ℕ → Get → ℕ → ℕ → List Value → ℕ → Result (List Value)
want_values bytes want lobs zero index out pos = ok out
want_values bytes want lobs (suc left) index out pos =
    let slot = get_or want index skipped_slot in
    if slot == skipped_slot
    then take_bytes bytes pos 1 >>= (λ (t, at).
      skip_payload bytes at (get_or t 0 0)
      >>= (λ next. want_values bytes want lobs left (index + 1) out next))
    else decode_value bytes pos index (some lobs) none >>= (λ (v, next).
      write_slot out slot v >>= (λ out'. want_values bytes want lobs left (index + 1) out' next))

unfoldable pub decode_row_with_want : List ℕ → List ℕ → Get → List Value → Result (List Value)
decode_row_with_want bytes want lobs out =
    take_bytes bytes 0 2 >>= (λ (hb, pos). want_values bytes want lobs (from_le_bytes hb) 0 out pos)
