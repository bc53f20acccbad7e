-- ===== src/Storage/Codec/Encode.antt =====
-- The writers of src/storage/codec.rs.
use chibidb.Prelude.{
  ℕ, ◌+◌, Bool, true, false, ltb, if◌then◌else◌, List, [], ◌∷◌, ◌++◌, Option, none, some, length,
}
use chibidb.Prelude.Result.{Result, ok, ◌>>=◌}
use chibidb.Index.Key.{Value}
use chibidb.Storage.Lsm.Coding.{to_le_bytes}
use chibidb.Storage.Codec.{
  tag_null, tag_int, tag_float, tag_str, tag_bool, tag_date, tag_lob, LobResolver,
}

-- `*b as u8`.
abbrev pub bool_byte : Bool → ℕ
bool_byte true = 1
bool_byte false = 0

-- The body of the loop of `encode_row_into`.
unfoldable pub push_value : List ℕ → Value → List ℕ
push_value out Value.null = out ++ (tag_null ∷ [])
push_value out (Value.int n) = (out ++ (tag_int ∷ [])) ++ to_le_bytes 8 n
push_value out (Value.float x) = (out ++ (tag_float ∷ [])) ++ to_le_bytes 8 x
push_value out (Value.str s) = ((out ++ (tag_str ∷ [])) ++ to_le_bytes 2 (length s)) ++ s
push_value out (Value.bool b) = (out ++ (tag_bool ∷ [])) ++ (bool_byte b ∷ [])
push_value out (Value.date d) = (out ++ (tag_date ∷ [])) ++ to_le_bytes 4 d

unfoldable pub push_values : List ℕ → List Value → List ℕ
push_values out [] = out
push_values out (v ∷ row) = push_values (push_value out v) row

-- `out` is cleared first. The count keeps its 16 low bits.
unfoldable pub encode_row_into : List Value → List ℕ → List ℕ
encode_row_into row out = push_values (to_le_bytes 2 (length row)) row

unfoldable pub encode_row : List Value → List ℕ
encode_row row = encode_row_into row []

unfoldable pub encode_record_inline : ℕ → ℕ → ℕ → List Value → List ℕ
encode_record_inline creator deleter next_rid row =
    to_le_bytes 8 creator ++ (to_le_bytes 8 deleter ++ (to_le_bytes 8 next_rid ++ encode_row row))

module _ {S : Type 0} where
  unfoldable pub push_text_with :
      Option (LobResolver S) → ℕ → List ℕ → S → List ℕ → Result (List ℕ × S)
  push_text_with none inline_limit buf store s = ok (push_value buf (Value.str s), store)
  push_text_with (some lobs) inline_limit buf store s =
      let external =
        lobs.put store s
        >>= (λ (id, store'). ok ((buf ++ (tag_lob ∷ [])) ++ to_le_bytes 8 id, store')) in
      if ltb inline_limit (length s) then external else ok (push_value buf (Value.str s), store)

  -- The body of the loop of `encode_row_with`.
  unfoldable pub push_value_with :
      Option (LobResolver S) → ℕ → List ℕ → S → Value → Result (List ℕ × S)
  push_value_with lobs inline_limit buf store (Value.str s) =
      push_text_with lobs inline_limit buf store s
  push_value_with lobs inline_limit buf store v = ok (push_value buf v, store)

  unfoldable pub push_values_with :
      Option (LobResolver S) → ℕ → List ℕ → S → List Value → Result (List ℕ × S)
  push_values_with lobs inline_limit buf store [] = ok (buf, store)
  push_values_with lobs inline_limit buf store (v ∷ row) =
      push_value_with lobs inline_limit buf store v
      >>= (λ (buf', store'). push_values_with lobs inline_limit buf' store' row)

  unfoldable pub encode_row_with : S → List Value → Option (LobResolver S) → ℕ → Result (List ℕ × S)
  encode_row_with store row lobs inline_limit =
      push_values_with lobs inline_limit (to_le_bytes 2 (length row)) store row

unfoldable pub encode_record :
    {S : Type 0} → ℕ → ℕ → ℕ → List Value → LobResolver S → ℕ → S → Result (List ℕ × S)
encode_record creator deleter next_rid row lobs inline_limit store =
    let header = (to_le_bytes 8 creator ++ to_le_bytes 8 deleter) ++ to_le_bytes 8 next_rid in
    encode_row_with store row (some lobs) inline_limit
    >>= (λ (bytes, store'). ok (header ++ bytes, store'))

-- The size that the loop of `encoded_row_size` adds for a value.
unfoldable pub value_size : ℕ → Value → ℕ
value_size inline_limit Value.null = 1
value_size inline_limit (Value.int n) = 9
value_size inline_limit (Value.float x) = 9
value_size inline_limit (Value.bool b) = 2
value_size inline_limit (Value.date d) = 5
value_size inline_limit (Value.str s) = if ltb inline_limit (length s) then 9 else 3 + length s

unfoldable pub add_sizes : ℕ → ℕ → List Value → ℕ
add_sizes inline_limit size [] = size
add_sizes inline_limit size (v ∷ row) =
    add_sizes inline_limit (size + value_size inline_limit v) row

unfoldable pub encoded_row_size : List Value → ℕ → ℕ
encoded_row_size row inline_limit = add_sizes inline_limit 2 row
