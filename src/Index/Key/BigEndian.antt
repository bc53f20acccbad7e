-- ===== src/Index/Key/BigEndian.antt =====
-- Big-endian words and terminated texts under `memcmp`.
use chibidb.Prelude.{
  ℕ, zero, suc, ◌/◌, ◌%◌, ◌^◌, ◌<◌, ◌≡◌, refl, sym, ◌∙◌, not, ◌&&◌, ◌||◌, ltb, List, [], ◌∷◌, ◌++◌,
  length, length-append, arith,
}
use chibidb.Prelude.Bytes.{lt_bytes}
use chibidb.Index.Key.{to_be_bytes}

-- A last byte decides only between strings that are alike before it.
lt_bytes-snoc :
    (xs ys : List ℕ) (a b : ℕ)
    → length xs ≡ length ys
    → lt_bytes (xs ++ (a ∷ [])) (ys ++ (b ∷ []))
      ≡ (lt_bytes xs ys || (not (lt_bytes ys xs) && ltb a b))
unfolding lt_bytes
lt_bytes-snoc [] [] a b h = ground arith
lt_bytes-snoc [] (y ∷ ys) a b h = absurd (omega arith)
lt_bytes-snoc (x ∷ xs) [] a b h = absurd (omega arith)
lt_bytes-snoc (x ∷ xs) (y ∷ ys) a b h = ground (arith, lt_bytes-snoc xs ys a b)

length-to_be_bytes : (n v : ℕ) → length (to_be_bytes n v) ≡ n
unfolding to_be_bytes
length-to_be_bytes zero v = refl
length-to_be_bytes (suc n) v =
    length-append (to_be_bytes n (v / 256)) _ ∙ omega (arith, length-to_be_bytes n (v / 256))

pub lt_bytes-to_be_bytes :
    (n u v : ℕ) → u < 256 ^ n → v < 256 ^ n → lt_bytes (to_be_bytes n u) (to_be_bytes n v) ≡ ltb u v
unfolding to_be_bytes
lt_bytes-to_be_bytes zero u v hu hv = unfold lt_bytes in ground arith
lt_bytes-to_be_bytes (suc n) u v hu hv = ground (
  arith,
  lt_bytes-snoc (to_be_bytes n (u / 256)) (to_be_bytes n (v / 256)) (u % 256) (v % 256)
      (length-to_be_bytes n (u / 256) ∙ sym (length-to_be_bytes n (v / 256))),
  lt_bytes-to_be_bytes n (u / 256) (v / 256) (omega arith) (omega arith),
  lt_bytes-to_be_bytes n (v / 256) (u / 256) (omega arith) (omega arith),
)

-- The byte 0 after each text keeps their order.
pub lt_bytes-terminated : (s t : List ℕ) → lt_bytes (s ++ (0 ∷ [])) (t ++ (0 ∷ [])) ≡ lt_bytes s t
unfolding lt_bytes
lt_bytes-terminated [] [] = refl
lt_bytes-terminated [] (b ∷ []) = ground arith
lt_bytes-terminated [] (b ∷ c ∷ t) = ground arith
lt_bytes-terminated (a ∷ []) [] = ground arith
lt_bytes-terminated (a ∷ c ∷ s) [] = ground arith
lt_bytes-terminated (a ∷ s) (b ∷ t) = ground (arith, lt_bytes-terminated s t)
