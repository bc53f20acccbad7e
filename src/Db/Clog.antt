-- ===== src/Db/Clog.antt =====
-- src/db/clog.rs: the commit-status bitmap and its vacuum horizon. A word of the bitmap is the list
-- of its 64 bits, lowest first; transaction ids do not reach 2 ^ 64.
pub mod Bits
pub mod Status
pub mod Horizon
mod Tests
use chibidb.Prelude.{
  ℕ, zero, suc, ◌+◌, ◌-◌, ◌*◌, ◌/◌, ◌%◌, Bool, true, false, not, ◌||◌, ltb, leb, ◌==◌,
  if◌then◌else◌, List, [], ◌∷◌, ◌++◌, Option, none, some, length, get_elem?, get_or, set, replicate,
}

abbrev pub bits : ℕ
bits = 64

abbrev pub words_per_chunk : ℕ
words_per_chunk = 1024

abbrev pub Word : Type 0
Word = List Bool

abbrev pub zero_word : Word
zero_word = replicate 64 false

-- `ClogInner`.
pub record CommitStatus : Type 0 where
  pub base : ℕ
  pub words : List Word

abbrev pub new : CommitStatus
new = record { base = 0; words = [] }

-- `words[word].fetch_or(1 << bit)`.
abbrev pub fetch_or : List Word → ℕ → ℕ → List Word
fetch_or words word bit = set words word (set (get_or words word zero_word) bit true)

-- `resize_with`, to whole chunks, when the word is not there yet.
pub grow : List Word → ℕ → List Word
grow words word =
    if leb (length words) word
    then words
      ++ replicate ((word / words_per_chunk + 1) * words_per_chunk - length words) zero_word
    else words

pub set_bit : CommitStatus → ℕ → CommitStatus
set_bit c xid =
    let idx = xid - c.base in
    record c { words = fetch_or (grow c.words (idx / bits)) (idx / bits) (idx % bits) }

-- The part of `mark_committed` under the read lock; `none` sends it to the write lock.
pub mark_shared : CommitStatus → ℕ → Option CommitStatus
mark_shared c xid =
    let idx = xid - c.base in
    if ltb xid c.base
    then some c
    else if ltb (idx / bits) (length c.words)
    then some (record c { words = fetch_or c.words (idx / bits) (idx % bits) })
    else none

-- The part under the write lock, which looks at the horizon again.
pub mark_exclusive : CommitStatus → ℕ → CommitStatus
mark_exclusive c xid = if ltb xid c.base then c else set_bit c xid

pub mark_committed : CommitStatus → ℕ → CommitStatus
mark_committed c xid = elim (mark_shared c xid) [ some c' ↦ c' | none ↦ mark_exclusive c xid ]

pub is_committed : CommitStatus → ℕ → Bool
is_committed c xid =
    let idx = xid - c.base in
    if xid == 0
    then false
    else if ltb xid c.base
    then true
    else elim (get_elem? c.words (idx / bits)) [
      | some w ↦ get_or w (idx % bits) false
      | none ↦ false
    ]

abbrev pub is_zero : Word → Bool
is_zero [] = true
is_zero (b ∷ w) = if b then false else is_zero w

abbrev pub trailing_zeros : Word → ℕ
trailing_zeros [] = 0
trailing_zeros (b ∷ w) = if b then 0 else suc (trailing_zeros w)

-- `bits &= bits - 1`.
abbrev pub clear_lowest : Word → Word
clear_lowest [] = []
clear_lowest (b ∷ w) = if b then false ∷ w else false ∷ clear_lowest w

-- The `while bits != 0` loop; each round clears a bit, so 64 rounds are enough.
pub scan_word : ℕ → ℕ → Word → List ℕ
scan_word zero first w = []
scan_word (suc fuel) first w =
    let rest = scan_word fuel first (clear_lowest w) in
    if is_zero w then [] else (first + trailing_zeros w) ∷ rest

pub scan : ℕ → List Word → List ℕ
scan first [] = []
scan first (w ∷ ws) = scan_word bits first w ++ scan (first + bits) ws

pub ids : CommitStatus → List ℕ
ids c = scan c.base c.words

pub at_least : ℕ → List ℕ → List ℕ
at_least n [] = []
at_least n (x ∷ xs) = if leb n x then x ∷ at_least n xs else at_least n xs

pub set_bits : CommitStatus → List ℕ → CommitStatus
set_bits c [] = c
set_bits c (x ∷ xs) = set_bits (set_bit c x) xs

-- The new state; the horizon that the source returns is its `base`.
pub advance_base : CommitStatus → ℕ → CommitStatus
advance_base c new_base =
    if leb new_base c.base
    then c
    else set_bits (record { base = new_base; words = [] }) (at_least new_base (ids c))
