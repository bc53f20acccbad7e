-- ===== src/Index/Key/Order.antt =====
-- The encoding keeps the order of the values.
use chibidb.Prelude.{
  ℕ, ◌%◌, ◌^◌, ◌<◌, ◌≡◌, refl, ◌∙◌, Bool, true, false, not, ◌&&◌, ltb, leb, ◌==◌, if◌then◌else◌,
  List, [], ◌∷◌, ◌++◌, All, arith,
}
use chibidb.Prelude.Bytes.{lt_bytes}
use chibidb.Prelude.Result.{ok}
use chibidb.Index.Key.{
  Value, to_be_bytes, flip_sign, normal_zero, ordered, encode_key_into, encode_key,
}
use chibidb.Index.Key.BigEndian.{lt_bytes-to_be_bytes, lt_bytes-terminated}

-- The values that the bits can stand for.
abbrev pub IsValue : Value → Type 0
IsValue Value.null = Unit
IsValue (Value.bool b) = Unit
IsValue (Value.int n) = n < 2 ^ 64
IsValue (Value.float x) = x < 2 ^ 64
IsValue (Value.str s) = All (λ b. b < 256) s
IsValue (Value.date d) = d < 2 ^ 32

-- The order of integers in two's complement on `w` bits, with `half` the weight of the sign.
abbrev pub lt_signed : ℕ → ℕ → ℕ → Bool
lt_signed half a b =
    if leb half a
    then (if leb half b then ltb a b else true)
    else if leb half b
    then false
    else ltb a b

-- The order of floats by sign and magnitude; zeros of either sign are alike.
abbrev pub lt_float : ℕ → ℕ → Bool
lt_float a b =
    let x = a % 2 ^ 63 in
    let y = b % 2 ^ 63 in
    if leb (2 ^ 63) a
    then (if leb (2 ^ 63) b then ltb y x else not (x == 0 && y == 0))
    else if leb (2 ^ 63) b
    then false
    else ltb x y

-- The order of the values: of one type by their own order, else by type.
abbrev pub rank : Value → ℕ
rank Value.null = 0
rank (Value.int n) = 1
rank (Value.float x) = 2
rank (Value.str s) = 3
rank (Value.date d) = 4
rank (Value.bool b) = 5

abbrev pub lt_value : Value → Value → Bool
lt_value (Value.int a) (Value.int b) = lt_signed (2 ^ 63) a b
lt_value (Value.float a) (Value.float b) = lt_float a b
lt_value (Value.str a) (Value.str b) = lt_bytes a b
lt_value (Value.date a) (Value.date b) = lt_signed (2 ^ 31) a b
lt_value a b = ltb (rank a) (rank b)

flip-order :
    (a b : ℕ)
    → a < 2 ^ 64
    → b < 2 ^ 64
    → ltb (flip_sign 64 a) (flip_sign 64 b) ≡ lt_signed (2 ^ 63) a b
unfolding flip_sign
flip-order a b ha hb = ground arith

flip-order_32 :
    (a b : ℕ)
    → a < 2 ^ 32
    → b < 2 ^ 32
    → ltb (flip_sign 32 a) (flip_sign 32 b) ≡ lt_signed (2 ^ 31) a b
unfolding flip_sign
flip-order_32 a b ha hb = ground arith

ordered-order :
    (a b : ℕ)
    → a < 2 ^ 64
    → b < 2 ^ 64
    → ltb (ordered (normal_zero a)) (ordered (normal_zero b)) ≡ lt_float a b
unfolding ordered flip_sign
ordered-order a b ha hb = ground arith

-- What the encoding appends, tag first.
abbrev payload : Value → List ℕ
payload Value.null = []
payload (Value.bool b) = []
payload (Value.int n) = to_be_bytes 8 (flip_sign 64 n)
payload (Value.float x) = to_be_bytes 8 (ordered (normal_zero x))
payload (Value.str s) = s ++ (0 ∷ [])
payload (Value.date d) = to_be_bytes 4 (flip_sign 32 d)

encode_key-payload :
    (v : Value) (x : List ℕ) → encode_key v ≡ ok x → (x ≡ rank v ∷ payload v) × (rank v < 5)
unfolding encode_key encode_key_into
encode_key-payload Value.null x e = (ground arith, omega arith)
encode_key-payload (Value.bool b) x e = absurd (ground arith)
encode_key-payload (Value.int n) x e = (ground arith, omega arith)
encode_key-payload (Value.float f) x e = (ground arith, omega arith)
encode_key-payload (Value.str s) x e = (ground arith, omega arith)
encode_key-payload (Value.date d) x e = (ground arith, omega arith)

ordered_below : (x : ℕ) → x < 2 ^ 64 → ordered (normal_zero x) < 2 ^ 64
unfolding ordered flip_sign
ordered_below x h = ground arith

flip_below : (n : ℕ) → flip_sign 64 n < 2 ^ 64
unfolding flip_sign
flip_below n = omega arith

flip_below_32 : (n : ℕ) → flip_sign 32 n < 2 ^ 32
unfolding flip_sign
flip_below_32 n = omega arith

payload-order :
    (a b : Value)
    → rank a < 5
    → rank b < 5
    → IsValue a
    → IsValue b
    → lt_bytes (rank a ∷ payload a) (rank b ∷ payload b) ≡ lt_value a b
unfolding lt_bytes
payload-order Value.null Value.null ha hb hx hy = refl
payload-order Value.null (Value.int b) ha hb hx hy = refl
payload-order Value.null (Value.float b) ha hb hx hy = refl
payload-order Value.null (Value.str b) ha hb hx hy = refl
payload-order Value.null (Value.date b) ha hb hx hy = refl
payload-order Value.null (Value.bool b) ha hb hx hy = absurd (omega arith)
payload-order (Value.int a) Value.null ha hb hx hy = refl
payload-order (Value.int a) (Value.int b) ha hb hx hy =
    lt_bytes-to_be_bytes 8 (flip_sign 64 a) (flip_sign 64 b) (flip_below a) (flip_below b)
    ∙ flip-order a b hx hy
payload-order (Value.int a) (Value.float b) ha hb hx hy = refl
payload-order (Value.int a) (Value.str b) ha hb hx hy = refl
payload-order (Value.int a) (Value.date b) ha hb hx hy = refl
payload-order (Value.int a) (Value.bool b) ha hb hx hy = absurd (omega arith)
payload-order (Value.float a) Value.null ha hb hx hy = refl
payload-order (Value.float a) (Value.int b) ha hb hx hy = refl
payload-order (Value.float a) (Value.float b) ha hb hx hy =
    lt_bytes-to_be_bytes 8 (ordered (normal_zero a)) (ordered (normal_zero b)) (ordered_below a hx)
      (ordered_below b hy)
    ∙ ordered-order a b hx hy
payload-order (Value.float a) (Value.str b) ha hb hx hy = refl
payload-order (Value.float a) (Value.date b) ha hb hx hy = refl
payload-order (Value.float a) (Value.bool b) ha hb hx hy = absurd (omega arith)
payload-order (Value.str a) Value.null ha hb hx hy = refl
payload-order (Value.str a) (Value.int b) ha hb hx hy = refl
payload-order (Value.str a) (Value.float b) ha hb hx hy = refl
payload-order (Value.str a) (Value.str b) ha hb hx hy = lt_bytes-terminated a b
payload-order (Value.str a) (Value.date b) ha hb hx hy = refl
payload-order (Value.str a) (Value.bool b) ha hb hx hy = absurd (omega arith)
payload-order (Value.date a) Value.null ha hb hx hy = refl
payload-order (Value.date a) (Value.int b) ha hb hx hy = refl
payload-order (Value.date a) (Value.float b) ha hb hx hy = refl
payload-order (Value.date a) (Value.str b) ha hb hx hy = refl
payload-order (Value.date a) (Value.date b) ha hb hx hy =
    lt_bytes-to_be_bytes 4 (flip_sign 32 a) (flip_sign 32 b) (flip_below_32 a) (flip_below_32 b)
    ∙ flip-order_32 a b hx hy
payload-order (Value.date a) (Value.bool b) ha hb hx hy = absurd (omega arith)
payload-order (Value.bool a) b ha hb hx hy = absurd (omega arith)

-- `memcmp` on two encoded keys gives the order of the values: integers and dates by their sign and
-- size, floats by sign and magnitude with both zeros alike, texts byte by byte, and values of
-- different types by the type.
pub encode_key-order :
    (a b : Value) (x y : List ℕ)
    → IsValue a
    → IsValue b
    → encode_key a ≡ ok x
    → encode_key b ≡ ok y
    → lt_bytes x y ≡ lt_value a b
encode_key-order a b x y ha hb ea eb =
    let (p, m) = encode_key-payload a x ea in
    let (q, n) = encode_key-payload b y eb in rw (p, q) (payload-order a b m n ha hb)
