-- ===== src/Db/Clog/Horizon.antt =====
-- What `ids` lists, and what `is_committed` answers after `advance_base`.
use chibidb.Prelude.{
  max, ℕ, zero, suc, ◌+◌, ◌-◌, ◌/◌, ◌%◌, ◌≤◌, ◌<◌, ◌≡◌, refl, ◌∙◌, inl, inr, ◌⊎◌, Bool, true, false,
  ltb, leb, ◌==◌, ◌&&◌, ◌||◌, if◌then◌else◌, List, [], ◌∷◌, length, get_or, arith, Bool-cases,
  contains, contains-append, ℕ_discrete, All, get_or-replicate, get_or_beyond,
}
use chibidb.Db.Clog.{
  Word, CommitStatus, set_bit, is_committed, is_zero, trailing_zeros, clear_lowest, scan_word, scan,
  ids, at_least, set_bits, advance_base,
}
use chibidb.Db.Clog.Bits.{IsBitmap, bit_at}
use chibidb.Db.Clog.Status.{IsValid, is_committed-bit_at, set_bit-IsValid, bit_at-set_bit}

abbrev elem : ℕ → List ℕ → Bool
elem = contains ℕ_discrete

ones : Word → ℕ
ones [] = 0
ones (b ∷ w) = (if b then 1 else 0) + ones w

ones-le-length : (w : Word) → ones w ≤ length w
unfolding ones
ones-le-length [] = omega arith
ones-le-length (b ∷ w) = ground (arith, ones-le-length w)

ones-clear_lowest : (w : Word) → is_zero w ≡ false → ones (clear_lowest w) + 1 ≡ ones w
unfolding ones
ones-clear_lowest [] h = cc
ones-clear_lowest (b ∷ w) h = ground (arith, ones-clear_lowest w)

get_or_of_zero : (w : Word) (i : ℕ) → is_zero w ≡ true → get_or w i false ≡ false
get_or_of_zero [] i h = refl
get_or_of_zero (b ∷ w) zero h = ground arith
get_or_of_zero (b ∷ w) (suc i) h = ground (arith, get_or_of_zero w i)

-- The loop takes out the lowest bit that is set, and no other.
get_or-clear_lowest :
    (w : Word) (i : ℕ)
    → is_zero w ≡ false
    → get_or w i false ≡ (if trailing_zeros w == i then true else get_or (clear_lowest w) i false)
get_or-clear_lowest [] i h = cc
get_or-clear_lowest (b ∷ w) zero h = ground (arith, get_or-clear_lowest w zero)
get_or-clear_lowest (b ∷ w) (suc i) h = ground (arith, get_or-clear_lowest w i)

elem-scan_word :
    (fuel first : ℕ) (w : Word) (x : ℕ)
    → ones w ≤ fuel
    → elem x (scan_word fuel first w) ≡ (leb first x && get_or w (x - first) false)
unfolding scan_word ℕ_discrete
elem-scan_word zero first w x h = elim (Bool-cases (is_zero w)) [
  | inl e ↦ ground (arith, get_or_of_zero w (x - first))
  | inr e ↦ absurd (omega (arith, ones-clear_lowest w e))
]
elem-scan_word (suc fuel) first w x h = elim (Bool-cases (is_zero w)) [
  | inl e ↦ ground (arith, get_or_of_zero w (x - first))
  | inr e ↦ ground (
    arith,
    elem-scan_word fuel first (clear_lowest w) x (omega (arith, ones-clear_lowest w e)),
    get_or-clear_lowest w (x - first) e,
  )
]

bit_at-cons_low :
    (w : Word) (ws : List Word) (i : ℕ) → i < 64 → bit_at (w ∷ ws) i ≡ get_or w i false
bit_at-cons_low w ws i h =
    let e : i / 64 ≡ 0 = omega arith in let f : i % 64 ≡ i = omega arith in rw (e, f)

bit_at-cons_high :
    (w : Word) (ws : List Word) (i : ℕ) → 64 ≤ i → bit_at (w ∷ ws) i ≡ bit_at ws (i - 64)
bit_at-cons_high w ws i h =
    let e : i / 64 ≡ suc ((i - 64) / 64) = omega arith in
    let f : i % 64 ≡ (i - 64) % 64 = omega arith in rw (e, f)

sub_sub : (x a b : ℕ) → x - (a + b) ≡ x - a - b
sub_sub x a b = omega arith

elem-scan :
    (first : ℕ) (ws : List Word) (x : ℕ)
    → IsBitmap ws
    → elem x (scan first ws) ≡ (leb first x && bit_at ws (x - first))
unfolding scan
elem-scan first [] x h = ground (arith, get_or-replicate 64 ((x - first) % 64) false)
elem-scan first (w ∷ ws) x h = ground (
  arith,
  contains-append ℕ_discrete x (scan_word 64 first w) (scan (first + 64) ws),
  elem-scan_word 64 first w x (omega (arith, ones-le-length w)),
  elem-scan (first + 64) ws x h.1,
  get_or_beyond w (x - first) false,
  bit_at-cons_low w ws (x - first),
  bit_at-cons_high w ws (x - first),
  sub_sub x first 64,
)

-- `ids` lists exactly the ids at or above the horizon whose bit is set.
pub elem-ids :
    (c : CommitStatus) (x : ℕ)
    → IsValid c
    → elem x (ids c) ≡ (leb c.base x && bit_at c.words (x - c.base))
unfolding ids
elem-ids c x h = elem-scan c.base c.words x h

elem-at_least : (n x : ℕ) (xs : List ℕ) → elem x (at_least n xs) ≡ (leb n x && elem x xs)
unfolding at_least ℕ_discrete
elem-at_least n x [] = ground arith
elem-at_least n x (y ∷ xs) = ground (arith, elem-at_least n x xs)

base-set_bits : (c : CommitStatus) (xs : List ℕ) → (set_bits c xs).base ≡ c.base
unfolding set_bits set_bit
base-set_bits c [] = refl
base-set_bits c (x ∷ xs) = base-set_bits (set_bit c x) xs

pub set_bits-IsValid : (c : CommitStatus) (xs : List ℕ) → IsValid c → IsValid (set_bits c xs)
unfolding set_bits
set_bits-IsValid c [] h = h
set_bits-IsValid c (x ∷ xs) h = set_bits-IsValid (set_bit c x) xs (set_bit-IsValid c x h)

base-set_bit : (c : CommitStatus) (x : ℕ) → (set_bit c x).base ≡ c.base
unfolding set_bit
base-set_bit c x = refl

-- For ids at or above the horizon.
bit_at-set_bits :
    (c : CommitStatus) (xs : List ℕ) (y : ℕ)
    → IsValid c
    → All (λ x. c.base ≤ x) xs
    → c.base ≤ y
    → bit_at (set_bits c xs).words (y - c.base) ≡ (elem y xs || bit_at c.words (y - c.base))
unfolding set_bits ℕ_discrete set_bit
bit_at-set_bits c [] y h a le = refl
bit_at-set_bits c (x ∷ xs) y h a le = ground (
  arith,
  bit_at-set_bit c x (y - c.base) h,
  base-set_bit c x,
  bit_at-set_bits (set_bit c x) xs y (set_bit-IsValid c x h) a.1 le,
)

at_least-All : (n : ℕ) (xs : List ℕ) → All (λ x. n ≤ x) (at_least n xs)
unfolding at_least
at_least-All n [] = tt
at_least-All n (x ∷ xs) = elim (Bool-cases (leb n x)) [
  | inl e ↦ rw e (ground arith, at_least-All n xs)
  | inr e ↦ rw e (at_least-All n xs)
]

abbrev emptied : ℕ → CommitStatus
emptied n = record { base = n; words = [] }

advance_cases :
    (c : CommitStatus) (n : ℕ)
    → ((n ≤ c.base) × (advance_base c n ≡ c))
      ⊎ (c.base < n) × (advance_base c n ≡ set_bits (emptied n) (at_least n (ids c)))
unfolding advance_base
advance_cases c n = ground arith

pub advance_base-IsValid : (c : CommitStatus) (n : ℕ) → IsValid c → IsValid (advance_base c n)
advance_base-IsValid c n h = elim (advance_cases c n) [
  | inl (_, e) ↦ rw e h
  | inr (_, e) ↦ rw e (set_bits-IsValid (emptied n) _ tt)
]

pub base-advance_base : (c : CommitStatus) (n : ℕ) → (advance_base c n).base ≡ max c.base n
base-advance_base c n = elim (advance_cases c n) [
  | inl (le, e) ↦ rw e (omega arith)
  | inr (lt, e) ↦ rw e (base-set_bits (emptied n) _ ∙ omega arith)
]

bit_at-advanced :
    (c : CommitStatus) (n y : ℕ)
    → IsValid c
    → c.base < n
    → n ≤ y
    → bit_at (set_bits (emptied n) (at_least n (ids c))).words (y - n) ≡ bit_at c.words (y - c.base)
bit_at-advanced c n y h lt le = ground (
  arith,
  bit_at-set_bits (emptied n) (at_least n (ids c)) y tt (at_least-All n (ids c)) le,
  elem-at_least n y (ids c),
  elem-ids c y h,
  get_or-replicate 64 ((y - n) % 64) false,
)

-- Moving the horizon to `n` freezes every id below it, but 0, as committed; every other answer is
-- as before, and a horizon that is not ahead changes nothing.
pub is_committed-advance_base :
    (c : CommitStatus) (n y : ℕ)
    → IsValid c
    → is_committed (advance_base c n) y
      ≡ (if y == 0 then false else if ltb y n then true else is_committed c y)
is_committed-advance_base c n y h = elim (advance_cases c n) [
  | inl (le, e) ↦ rw e (ground (arith, is_committed-bit_at c y))
  | inr (lt, e) ↦
      let c' = set_bits (emptied n) (at_least n (ids c)) in
      rw e (
        ground (
          arith,
          is_committed-bit_at c y,
          is_committed-bit_at c' y,
          base-set_bits (emptied n) (at_least n (ids c)),
          bit_at-advanced c n y h lt,
        ))
]
