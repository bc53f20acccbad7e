-- ===== src/Index/Key.antt =====
-- src/index/key.rs: keys as byte strings that `memcmp` compares. The bits of a value stand for it:
-- an i64, an i32 and an f64 are the numbers of their 64 or 32 bits, a text is its bytes.
pub mod BigEndian
pub mod Order
mod Tests
use chibidb.Prelude.{
  ℕ, zero, suc, ◌+◌, ◌-◌, ◌*◌, ◌/◌, ◌%◌, ◌^◌, Bool, true, false, ◌==◌, if◌then◌else◌, List, [], ◌∷◌,
  ◌++◌,
}
use chibidb.Prelude.Result.{Error, Result, ok, err}

pub data Value : Type 0 where
  null : Value
  bool : Bool → Value
  int : ℕ → Value
  float : ℕ → Value
  str : List ℕ → Value
  date : ℕ → Value

-- The `n` low bytes of a word, the highest first.
pub to_be_bytes : ℕ → ℕ → List ℕ
to_be_bytes zero v = []
to_be_bytes (suc n) v = to_be_bytes n (v / 256) ++ (v % 256 ∷ [])

-- `v ^ (1 << (w - 1))` on `w` bits.
pub flip_sign : ℕ → ℕ → ℕ
flip_sign w v = (v + 2 ^ (w - 1)) % 2 ^ w

-- `!bits` on 64 bits.
abbrev pub complement : ℕ → ℕ
complement bits = 2 ^ 64 - 1 - bits

-- `-0.0` is taken for `0.0`; the two are the only values that equal `0.0`.
abbrev pub normal_zero : ℕ → ℕ
normal_zero x = if x == 2 ^ 63 then 0 else x

-- The words of a float in the order of the floats.
pub ordered : ℕ → ℕ
ordered bits = if bits / 2 ^ 63 == 1 then complement bits else flip_sign 64 bits

pub encode_key_into : List ℕ → Value → Result (List ℕ)
encode_key_into buf Value.null = ok (buf ++ (0x00 ∷ []))
encode_key_into buf (Value.int n) = ok (buf ++ (0x01 ∷ to_be_bytes 8 (flip_sign 64 n)))
encode_key_into buf (Value.float x) = ok (buf ++ (0x02 ∷ to_be_bytes 8 (ordered (normal_zero x))))
encode_key_into buf (Value.str s) = ok (buf ++ (0x03 ∷ (s ++ (0x00 ∷ []))))
encode_key_into buf (Value.date d) = ok (buf ++ (0x04 ∷ to_be_bytes 4 (flip_sign 32 d)))
encode_key_into buf (Value.bool b) = err (Error.runtime "cannot index boolean values")

pub encode_key : Value → Result (List ℕ)
encode_key v = encode_key_into [] v
