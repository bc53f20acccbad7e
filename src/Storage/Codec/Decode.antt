-- ===== src/Storage/Codec/Decode.antt =====
-- The readers of src/storage/codec.rs. `lobs` is the `get` of a resolver on its store.
use chibidb.Prelude.{
  ℕ, zero, suc, ◌+◌, Bool, true, not, ◌||◌, ◌==◌, if◌then◌else◌, List, [], ◌∷◌, ◌++◌, Option, none,
  some, get_or, drop,
}
use chibidb.Prelude.Result.{Error, Result, ok, err, ◌>>=◌}
use chibidb.Index.Key.{Value}
use chibidb.Storage.Lsm.Coding.{from_le_bytes}
use chibidb.Storage.Codec.{
  tag_null, tag_int, tag_float, tag_str, tag_bool, tag_date, tag_lob, record_header, take_bytes,
  record_version,
}
use chibidb.Storage.Codec.Utf8.{is_utf8}

abbrev pub Get : Type 0
Get = ℕ → Result (List ℕ)

abbrev pub unknown_tag {ℓ} : {A : Type ℓ} → Result A
unknown_tag = err (Error.runtime "unknown value tag")

-- The position after the payload of a tag.
unfoldable pub skip_payload : List ℕ → ℕ → ℕ → Result ℕ
skip_payload bytes pos tag =
    if tag == tag_null
    then ok pos
    else if tag == tag_int || (tag == tag_float || tag == tag_lob)
    then take_bytes bytes pos 8 >>= (λ (b, next). ok next)
    else if tag == tag_bool
    then take_bytes bytes pos 1 >>= (λ (b, next). ok next)
    else if tag == tag_date
    then take_bytes bytes pos 4 >>= (λ (b, next). ok next)
    else if tag == tag_str
    then take_bytes bytes pos 2
      >>= (λ (lb, at). take_bytes bytes at (from_le_bytes lb) >>= (λ (b, next). ok next))
    else unknown_tag

unfoldable pub text_of : Error → List ℕ → Result Value
text_of invalid s = if is_utf8 s then ok (Value.str s) else err invalid

unfoldable pub resolve : Option Get → ℕ → Result Value
resolve none id = err (Error.runtime "lob reference without a resolver")
resolve (some get) id = get id >>= text_of (Error.runtime "invalid utf8 in stored lob")

-- The `match` of `decode_value`.
unfoldable pub value_of : List ℕ → ℕ → ℕ → Option Get → Result (Value × ℕ)
value_of bytes pos tag lobs =
    if tag == tag_null
    then ok (Value.null, pos)
    else if tag == tag_int
    then take_bytes bytes pos 8 >>= (λ (b, next). ok (Value.int (from_le_bytes b), next))
    else if tag == tag_float
    then take_bytes bytes pos 8 >>= (λ (b, next). ok (Value.float (from_le_bytes b), next))
    else if tag == tag_str
    then take_bytes bytes pos 2 >>= (λ (lb, at).
      take_bytes bytes at (from_le_bytes lb) >>= (λ (s, next).
        text_of (Error.runtime "invalid utf8 in stored string") s >>= (λ v. ok (v, next))))
    else if tag == tag_lob
    then take_bytes bytes pos 8
      >>= (λ (b, next). resolve lobs (from_le_bytes b) >>= (λ v. ok (v, next)))
    else if tag == tag_bool
    then take_bytes bytes pos 1 >>= (λ (b, next). ok (Value.bool (not (get_or b 0 0 == 0)), next))
    else if tag == tag_date
    then take_bytes bytes pos 4 >>= (λ (b, next). ok (Value.date (from_le_bytes b), next))
    else unknown_tag

unfoldable pub needed : Option (List Bool) → ℕ → Bool
needed none index = true
needed (some keep) index = get_or keep index true

unfoldable pub decode_value : List ℕ → ℕ → ℕ → Option Get → Option (List Bool) → Result (Value × ℕ)
decode_value bytes pos index lobs keep = take_bytes bytes pos 1 >>= (λ (t, at).
    if needed keep index
    then value_of bytes at (get_or t 0 0) lobs
    else skip_payload bytes at (get_or t 0 0) >>= (λ next. ok (Value.null, next)))

module _ (bytes : List ℕ) (lobs : Option Get) (keep : Option (List Bool)) where
  -- The loop of `decode_row_with`, with the columns left and the next one's index.
  unfoldable pub decode_values : ℕ → ℕ → List Value → ℕ → Result (List Value × ℕ)
  decode_values zero index row pos = ok (row, pos)
  decode_values (suc left) index row pos =
      decode_value bytes pos index lobs keep
      >>= (λ (v, next). decode_values left (index + 1) (row ++ (v ∷ [])) next)

  unfoldable pub decode_row_with : Result (List Value × ℕ)
  decode_row_with =
      take_bytes bytes 0 2 >>= (λ (hb, pos). decode_values (from_le_bytes hb) 0 [] pos)

  -- The loop of `decode_row_each`; the state of `sink` is passed along.
  unfoldable pub each_value : {T : Type 0} → (T → ℕ → Value → Result T) → ℕ → ℕ → T → ℕ → Result T
  each_value sink zero index t pos = ok t
  each_value sink (suc left) index t pos =
      decode_value bytes pos index lobs keep
      >>= (λ (v, next). sink t index v >>= (λ t'. each_value sink left (index + 1) t' next))

  unfoldable pub decode_row_each : {T : Type 0} → (T → ℕ → Value → Result T) → T → Result (ℕ × T)
  decode_row_each sink t = take_bytes bytes 0 2 >>= (λ (hb, pos).
      each_value sink (from_le_bytes hb) 0 t pos >>= (λ t'. ok (from_le_bytes hb, t')))

  -- `out` is cleared first.
  unfoldable pub decode_row_into : List Value → Result (ℕ × List Value)
  decode_row_into out = decode_row_each (λ row index v. ok (row ++ (v ∷ []))) []

unfoldable pub decode_row : List ℕ → Result (List Value × ℕ)
decode_row bytes = decode_row_with bytes none none

unfoldable pub decode_record : List ℕ → Get → Result (ℕ × ℕ × List Value)
decode_record bytes lobs = record_version bytes >>= (λ (creator, deleter).
    decode_row_with (drop record_header bytes) (some lobs) none
    >>= (λ (row, end). ok (creator, deleter, row)))

unfoldable pub decode_record_pruned : List ℕ → Get → List Bool → Result (ℕ × ℕ × List Value)
decode_record_pruned bytes lobs keep = record_version bytes >>= (λ (creator, deleter).
    decode_row_with (drop record_header bytes) (some lobs) (some keep)
    >>= (λ (row, end). ok (creator, deleter, row)))

unfoldable pub decode_tagged_value : List ℕ → Get → Result Value
decode_tagged_value bytes lobs = decode_value bytes 0 0 (some lobs) none >>= (λ (v, next). ok v)
