-- ===== src/Storage/Lsm/Coding/Varint.antt =====
-- Varints: what a writer appends, a reader gets back.
use chibidb.Prelude.{
  ℕ, zero, suc, ◌+◌, ◌*◌, ◌/◌, ◌%◌, ◌^◌, ◌≤◌, ◌<◌, ◌≡◌, refl, sym, ap, ◌∙◌, inl, inr, ltb, ◌==◌,
  if◌then◌else◌, List, [], ◌∷◌, ◌++◌, some, length, length-append, get_elem?,
  get_elem?-append_length, Bool-cases, Option-cases, arith,
}
use chibidb.Prelude.Result.{Error, ok}
use chibidb.Prelude.Bits.{low_bits, top_bit, set_top_bit}
use chibidb.Storage.Lsm.Coding.{
  put_rounds, put_varint32, put_varint64, take_byte, get_rounds, get_varint32, get_varint64,
}
use Prim.Native.Nat.{bit_and}
use mathlib.Core.List.{append_assoc}
use native.Mathlib.Nat.{div-add-mod, mod-eq_of_lt}
use native.Mathlib.Numerals.{towards_suc}

-- The groups of seven bits that `put_rounds` appends.
abbrev pub groups : ℕ → ℕ → List ℕ
groups zero v = v % 256 ∷ []
groups (suc k) v = if ltb v 0x80 then v % 256 ∷ [] else (v % 128 + 128) ∷ groups k (v / 128)

pub put_rounds-groups : (k : ℕ) (buf : List ℕ) (v : ℕ) → put_rounds k buf v ≡ buf ++ groups k v
unfolding put_rounds
put_rounds-groups zero buf v = refl
put_rounds-groups (suc k) buf v = elim (Bool-cases (ltb v 0x80)) [
  | inl e ↦ rw e refl
  | inr e ↦
      rw (e, put_rounds-groups k, set_top_bit (v % 256) (omega arith), append_assoc)
        (cong_head (v % 256 % 128) (v % 128) (groups k (v / 128)) buf (omega arith))
]
  where
    cong_head : (a b : ℕ) (bs cs : List ℕ) → a ≡ b → cs ++ ((a + 128) ∷ bs) ≡ cs ++ ((b + 128) ∷ bs)
    cong_head a b bs cs h = ap (λ (x : ℕ). cs ++ ((x + 128) ∷ bs)) h

-- One byte of the reader's loop.
get_byte :
    (w : ℕ) (e : Error) (k shift result : ℕ) (bytes : List ℕ) (pos b : ℕ)
    → get_elem? bytes pos ≡ some b
    → b < 256
    → result + b % 128 * 2 ^ shift < 2 ^ w
    → get_rounds w e (suc k) shift result bytes pos ≡ (
        if b / 128 == 0
        then ok (result + b % 128 * 2 ^ shift, pos + 1)
        else get_rounds w e k (shift + 7) (result + b % 128 * 2 ^ shift) bytes (pos + 1))
unfolding get_rounds take_byte
get_byte w e k shift result bytes pos b at hb fits =
    rw (get_rounds, take_byte, at, low_bits b hb, top_bit b hb, no_wrap)
      (elim (Bool-cases (b / 128 == 0)) [ inl z ↦ ground arith | inr z ↦ ground arith ])
  where
    no_wrap : b % 128 * 2 ^ shift % 2 ^ w ≡ b % 128 * 2 ^ shift
    no_wrap = mod-eq_of_lt (omega arith)

split_group : (v s : ℕ) → v * 2 ^ s ≡ v % 128 * 2 ^ s + v / 128 * 2 ^ (s + 7)
split_group v s = omega (
  arith,
  ap (λ (t : ℕ). t * 2 ^ s) (div-add-mod v 128),
  ap (λ (t : ℕ). v / 128 * t) (shift_seven s),
)
  where
    shift_seven : (s : ℕ) → 2 ^ (s + 7) ≡ 128 * 2 ^ s
    shift_seven s = simp towards_suc (omega arith)

last_byte :
    (w : ℕ) (e : Error) (k shift result v : ℕ) (front back : List ℕ)
    → v < 128
    → result + v * 2 ^ shift < 2 ^ w
    → get_rounds w e (suc k) shift result (front ++ (v % 256 ∷ back)) (length front)
      ≡ ok (result + v * 2 ^ shift, length front + 1)
last_byte w e k shift result v front back hv fits = ground (
  arith,
  get_byte w e k shift result (front ++ (v % 256 ∷ back)) (length front) (v % 256)
      (get_elem?-append_length front (v % 256) back),
  same,
)
  where
    same : v % 256 % 128 ≡ v
    same = omega arith

inner_byte :
    (w : ℕ) (e : Error) (k shift result g : ℕ) (front back : List ℕ)
    → g < 128
    → result + g * 2 ^ shift < 2 ^ w
    → get_rounds w e (suc k) shift result (front ++ ((g + 128) ∷ back)) (length front)
      ≡ get_rounds w e k
          (shift + 7)
          (result + g * 2 ^ shift)
          (front ++ ((g + 128) ∷ back))
          (length front + 1)
inner_byte w e k shift result g front back hg fits = ground (
  arith,
  get_byte w e k shift result (front ++ ((g + 128) ∷ back)) (length front) (g + 128)
      (get_elem?-append_length front (g + 128) back),
  same,
)
  where
    same : (g + 128) % 128 ≡ g
    same = omega arith

inner_rest :
    (w : ℕ) (e : Error) (k shift result v : ℕ) (front back : List ℕ)
    → get_rounds w e
        (suc k)
        (shift + 7)
        (result + v % 128 * 2 ^ shift)
        ((front ++ ((v % 128 + 128) ∷ [])) ++ (groups k (v / 128) ++ back))
        (length (front ++ ((v % 128 + 128) ∷ [])))
      ≡ ok (
        result + v % 128 * 2 ^ shift + v / 128 * 2 ^ (shift + 7),
        length (front ++ ((v % 128 + 128) ∷ [])) + length (groups k (v / 128)),
      )
    → get_rounds w e
        (suc k)
        (shift + 7)
        (result + v % 128 * 2 ^ shift)
        (front ++ ((v % 128 + 128) ∷ (groups k (v / 128) ++ back)))
        (length front + 1)
      ≡ ok (result + v * 2 ^ shift, length front + suc (length (groups k (v / 128))))
inner_rest w e k shift result v front back h = ground (
  arith,
  h,
  append_assoc front ((v % 128 + 128) ∷ []) (groups k (v / 128) ++ back),
  length-append front ((v % 128 + 128) ∷ []),
  split_group v shift,
)

get_rounds-groups :
    (w : ℕ) (e : Error) (k shift result v : ℕ) (front back : List ℕ)
    → v < 128 ^ suc k
    → result + v * 2 ^ shift < 2 ^ w
    → get_rounds w e (suc k) shift result (front ++ (groups k v ++ back)) (length front)
      ≡ ok (result + v * 2 ^ shift, length front + length (groups k v))
get_rounds-groups w e zero shift result v front back hv fits =
    last_byte w e zero shift result v front back (omega arith) fits
get_rounds-groups w e (suc k) shift result v front back hv fits = elim (Bool-cases (ltb v 0x80)) [
  | inl small ↦ rw small (last_byte w e (suc k) shift result v front back (ground arith) fits)
  | inr large ↦ rw large (
      inner_byte w e (suc k) shift result (v % 128) front (groups k (v / 128) ++ back) (omega arith)
        (omega (arith, split_group v shift))
      ∙ inner_rest w e k shift result v front back (
          get_rounds-groups w e k (shift + 7) (result + v % 128 * 2 ^ shift) (v / 128)
            (front ++ ((v % 128 + 128) ∷ [])) back (omega arith)
            (omega (arith, split_group v shift))))
]

pub get_rounds-put_rounds :
    (w : ℕ) (e : Error) (k v : ℕ) (front back : List ℕ)
    → v < 128 ^ suc k
    → v < 2 ^ w
    → get_rounds w e (suc k) 0 0 (put_rounds k front v ++ back) (length front)
      ≡ ok (v, length (put_rounds k front v))
get_rounds-put_rounds w e k v front back h fits =
    rw (put_rounds-groups k front v, append_assoc, length-append)
      (get_rounds-groups w e k 0 0 v front back h (omega arith)
        ∙ ap (λ (x : ℕ). ok (x, length front + length (groups k v))) (omega arith))

-- What `put_varint32` appends to a buffer, `get_varint32` reads back from where the buffer ended,
-- whatever follows; the position it leaves is the end of the varint.
pub get_varint32-put_varint32 :
    (v : ℕ) (front back : List ℕ)
    → v < 2 ^ 32
    → get_varint32 (put_varint32 front v ++ back) (length front)
      ≡ ok (v, length (put_varint32 front v))
unfolding get_varint32 put_varint32
get_varint32-put_varint32 v front back h = get_rounds-put_rounds 32 _ 4 v front back (omega arith) h

-- What `put_varint64` appends to a buffer, `get_varint64` reads back from where the buffer ended,
-- whatever follows; the position it leaves is the end of the varint.
pub get_varint64-put_varint64 :
    (v : ℕ) (front back : List ℕ)
    → v < 2 ^ 64
    → get_varint64 (put_varint64 front v ++ back) (length front)
      ≡ ok (v, length (put_varint64 front v))
unfolding get_varint64 put_varint64
get_varint64-put_varint64 v front back h = get_rounds-put_rounds 64 _ 9 v front back (omega arith) h

get_elem?_below : (bytes : List ℕ) (i b : ℕ) → get_elem? bytes i ≡ some b → i < length bytes
get_elem?_below [] i b h = ground arith
get_elem?_below (x ∷ xs) zero b h = omega arith
get_elem?_below (x ∷ xs) (suc i) b h = omega (arith, get_elem?_below xs i b h)

get_rounds_bounds :
    (w : ℕ) (e : Error) (k shift result : ℕ) (bytes : List ℕ) (pos v next : ℕ)
    → get_rounds w e k shift result bytes pos ≡ ok (v, next)
    → (pos < next) × (next ≤ length bytes) × (next ≤ pos + k)
unfolding get_rounds take_byte
get_rounds_bounds w e zero shift result bytes pos v next h = ground arith
get_rounds_bounds w e (suc k) shift result bytes pos v next h =
    elim (Option-cases (get_elem? bytes pos)) [
      | inl out ↦ absurd (let r = rw (get_rounds, take_byte, out) at h in ground arith)
      | inr (b, at) ↦
          let r = rw (get_rounds, take_byte, at) at h in
          let below = get_elem?_below bytes pos b at in
          elim (Bool-cases (bit_and b 0x80 == 0)) [
            | inl last ↦ let s = rw last at r in ground arith
            | inr more ↦
                let s = rw more at r in
                let far = get_rounds_bounds w e k (shift + 7) _ bytes (pos + 1) v next s in
                omega (arith, far.0, far.1, far.2)
          ]
    ]

-- A varint that is read ends inside the bytes, and takes one to five of them.
pub get_varint32_bounds :
    (bytes : List ℕ) (pos v next : ℕ)
    → get_varint32 bytes pos ≡ ok (v, next)
    → (pos < next) × (next ≤ length bytes) × (next ≤ pos + 5)
unfolding get_varint32
get_varint32_bounds bytes pos v next h = get_rounds_bounds 32 _ 5 0 0 bytes pos v next h

-- The bytes of a varint of 32 bits.
pub varint : ℕ → List ℕ
varint v = groups 4 v

pub put_varint32-varint : (buf : List ℕ) (v : ℕ) → put_varint32 buf v ≡ buf ++ varint v
unfolding put_varint32 varint
put_varint32-varint buf v = put_rounds-groups 4 buf v

pub get_varint32-varint :
    (v : ℕ) (front back : List ℕ)
    → v < 2 ^ 32
    → get_varint32 (front ++ (varint v ++ back)) (length front)
      ≡ ok (v, length front + length (varint v))
get_varint32-varint v front back h =
    ap (λ (b : List ℕ). get_varint32 b (length front))
      (sym (
        ap (λ (b : List ℕ). b ++ back) (put_varint32-varint front v)
        ∙ append_assoc front (varint v) back))
    ∙ get_varint32-put_varint32 v front back h
    ∙ ap (λ (n : ℕ). ok (v, n))
        (ap length (put_varint32-varint front v) ∙ length-append front (varint v))

pub length-varint_pos : (v : ℕ) → 0 < length (varint v)
unfolding varint
length-varint_pos v = ground arith

pub put_varint64-append : (buf : List ℕ) (v : ℕ) → put_varint64 buf v ≡ buf ++ put_varint64 [] v
unfolding put_varint64
put_varint64-append buf v =
    put_rounds-groups 9 buf v ∙ ap (λ (ys : List ℕ). buf ++ ys) (sym (put_rounds-groups 9 [] v))

length-groups : (k v : ℕ) → length (groups k v) ≤ suc k
length-groups zero v = omega arith
length-groups (suc k) v = elim (Bool-cases (ltb v 0x80)) [
  | inl e ↦ rw e (omega arith)
  | inr e ↦ rw e (omega (arith, length-groups k (v / 128)))
]

pub length-put_varint64 : (v : ℕ) → length (put_varint64 [] v) ≤ 10
unfolding put_varint64
length-put_varint64 v = rw (put_rounds-groups 9 [] v) (length-groups 9 v)
