-- ===== src/Db/Clog/Bits.antt =====
-- Reads and writes of single bits of the bitmap.
use chibidb.Prelude.{
  ℕ, zero, suc, ◌+◌, ◌-◌, ◌*◌, ◌/◌, ◌%◌, ◌<◌, ◌≡◌, refl, ap, sym, ◌∙◌, inl, inr, Bool, true, false,
  leb, ◌==◌, if◌then◌else◌, List, [], ◌∷◌, ◌++◌, none, some, length, get_elem?, get_or, set,
  replicate, arith, All, get_or-set_self, get_or-set_ne, get_or-append_replicate, length-append,
  length-replicate, length-set, Bool-cases, get_or-replicate, ==_iff,
}
use chibidb.Db.Clog.{bits, Word, zero_word, fetch_or, grow}

-- Every word has its 64 bits.
abbrev pub IsBitmap : List Word → Type 0
IsBitmap = All (λ (w : Word). length w ≡ 64)

abbrev pub bit_at : List Word → ℕ → Bool
bit_at ws i = get_or (get_or ws (i / bits) zero_word) (i % bits) false

pub length-get_or : (ws : List Word) (i : ℕ) → IsBitmap ws → length (get_or ws i zero_word) ≡ 64
length-get_or [] i h = refl
length-get_or (w ∷ ws) zero h = h.0
length-get_or (w ∷ ws) (suc i) h = length-get_or ws i h.1

pub read_word :
    (ws : List Word) (i b : ℕ)
    → (elim (get_elem? ws i) [ some w ↦ get_or w b false | none ↦ false ])
      ≡ get_or (get_or ws i zero_word) b false
read_word [] i b = sym (get_or-replicate 64 b false)
read_word (w ∷ ws) zero b = refl
read_word (w ∷ ws) (suc i) b = read_word ws i b

pub set-IsBitmap :
    (ws : List Word) (i : ℕ) (v : Word) → length v ≡ 64 → IsBitmap ws → IsBitmap (set ws i v)
set-IsBitmap [] i v e h = tt
set-IsBitmap (w ∷ ws) zero v e h = (e, h.1)
set-IsBitmap (w ∷ ws) (suc i) v e h = (h.0, set-IsBitmap ws i v e h.1)

pub append-IsBitmap :
    (ws : List Word) (n : ℕ) → IsBitmap ws → IsBitmap (ws ++ replicate n zero_word)
append-IsBitmap [] zero h = tt
append-IsBitmap [] (suc n) h = (refl, append-IsBitmap [] n tt)
append-IsBitmap (w ∷ ws) n h = (h.0, append-IsBitmap ws n h.1)

pub fetch_or-IsBitmap :
    (ws : List Word) (word bit : ℕ) → IsBitmap ws → IsBitmap (fetch_or ws word bit)
fetch_or-IsBitmap ws word bit h =
    set-IsBitmap ws word _ (length-set _ bit true ∙ length-get_or ws word h) h

pub grow-IsBitmap : (ws : List Word) (word : ℕ) → IsBitmap ws → IsBitmap (grow ws word)
unfolding grow
grow-IsBitmap ws word h = elim (Bool-cases (leb (length ws) word)) [
  | inl e ↦ rw e (append-IsBitmap ws _ h)
  | inr e ↦ rw e h
]

pub bit_at-grow : (ws : List Word) (word i : ℕ) → bit_at (grow ws word) i ≡ bit_at ws i
unfolding grow
bit_at-grow ws word i = elim (Bool-cases (leb (length ws) word)) [
  | inl e ↦
      rw e (ap (λ w. get_or w (i % bits) false) (get_or-append_replicate ws _ (i / bits) zero_word))
  | inr e ↦ rw e
]

pub lt-length-grow : (ws : List Word) (word : ℕ) → word < length (grow ws word)
unfolding grow
lt-length-grow ws word = ground (
  arith,
  length-append ws (replicate ((word / 1024 + 1) * 1024 - length ws) zero_word),
  length-replicate ((word / 1024 + 1) * 1024 - length ws) zero_word,
)

split_index : (i j : ℕ) → i / 64 ≡ j / 64 → i % 64 ≡ j % 64 → i ≡ j
split_index i j p q = omega arith

-- A read after a write, of words and of bits.
get_or-set {ℓ} :
    {A : Type ℓ} (xs : List A) (i j : ℕ) (v d : A)
    → i < length xs
    → get_or (set xs i v) j d ≡ (if i == j then v else get_or xs j d)
get_or-set xs i j v d h = elim (Bool-cases (i == j)) [
  | inl e ↦ let p : i ≡ j = (==_iff i j).0 e in rw (e, ← p) (get_or-set_self xs i v d h)
  | inr e ↦ rw e (get_or-set_ne xs i j v d (λ p. ground arith))
]

-- Writing the bit of `i` changes that bit alone.
pub bit_at-fetch_or :
    (ws : List Word) (i j : ℕ)
    → IsBitmap ws
    → i / bits < length ws
    → bit_at (fetch_or ws (i / bits) (i % bits)) j ≡ (if i == j then true else bit_at ws j)
bit_at-fetch_or ws i j h lt =
    let w = get_or ws (i / 64) zero_word in
    let inner =
      get_or-set w (i % 64) (j % 64) true false (omega (arith, length-get_or ws (i / 64) h)) in
    rw (get_or-set ws (i / 64) (j / 64) (set w (i % 64) true) zero_word lt)
      (elim (Bool-cases (i / 64 == j / 64)) [
        | inl e ↦ rw e (inner ∙ ground (arith, split_index i j))
        | inr e ↦ rw e (ground arith)
      ])
