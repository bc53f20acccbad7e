-- ===== src/Db/Clog/Status.antt =====
-- What `is_committed` answers after `mark_committed`.
use chibidb.Prelude.{
  ℕ, ◌-◌, ◌/◌, ◌%◌, ◌≤◌, ◌<◌, ◌≡◌, ap, ◌∙◌, inl, inr, ◌⊎◌, true, false, ltb, ◌==◌, if◌then◌else◌,
  length, arith, Bool-cases,
}
use chibidb.Db.Clog.{
  CommitStatus, fetch_or, grow, set_bit, mark_shared, mark_exclusive, mark_committed, is_committed,
}
use chibidb.Db.Clog.Bits.{
  IsBitmap, bit_at, read_word, fetch_or-IsBitmap, grow-IsBitmap, bit_at-grow, lt-length-grow,
  bit_at-fetch_or,
}

abbrev pub IsValid : CommitStatus → Type 0
IsValid c = IsBitmap c.words

pub is_committed-bit_at :
    (c : CommitStatus) (x : ℕ)
    → is_committed c x
      ≡ (if x == 0 then false else if ltb x c.base then true else bit_at c.words (x - c.base))
unfolding is_committed
is_committed-bit_at c x = rw (read_word c.words ((x - c.base) / 64) ((x - c.base) % 64))

pub set_bit-IsValid : (c : CommitStatus) (x : ℕ) → IsValid c → IsValid (set_bit c x)
unfolding set_bit
set_bit-IsValid c x h = fetch_or-IsBitmap _ _ _ (grow-IsBitmap c.words _ h)

-- The three ways through `mark_committed`.
mark_committed_cases :
    (c : CommitStatus) (x : ℕ)
    → ((x < c.base) × (mark_committed c x ≡ c))
      ⊎ (c.base ≤ x)
        × ((x - c.base) / 64 < length c.words)
        × (mark_committed c x
            ≡ record c { words = fetch_or c.words ((x - c.base) / 64) ((x - c.base) % 64) })
      ⊎ (c.base ≤ x) × (mark_committed c x ≡ set_bit c x)
unfolding mark_committed mark_shared mark_exclusive
mark_committed_cases c x = ground arith

pub mark_committed-IsValid : (c : CommitStatus) (x : ℕ) → IsValid c → IsValid (mark_committed c x)
mark_committed-IsValid c x h = elim (mark_committed_cases c x) [
  | inl (_, e) ↦ rw e h
  | inr (inl (_, _, e)) ↦ rw e (fetch_or-IsBitmap c.words _ _ h)
  | inr (inr (_, e)) ↦ rw e (set_bit-IsValid c x h)
]

pub bit_at-set_bit :
    (c : CommitStatus) (x j : ℕ)
    → IsValid c
    → bit_at (set_bit c x).words j ≡ (if x - c.base == j then true else bit_at c.words j)
unfolding set_bit
bit_at-set_bit c x j h =
    let i = x - c.base in
    bit_at-fetch_or (grow c.words (i / 64)) i j (grow-IsBitmap c.words (i / 64) h)
      (lt-length-grow c.words (i / 64))
    ∙ ap (λ b. if i == j then true else b) (bit_at-grow c.words (i / 64) j)

pub base-mark_committed : (c : CommitStatus) (x : ℕ) → (mark_committed c x).base ≡ c.base
unfolding set_bit
base-mark_committed c x = elim (mark_committed_cases c x) [
  | inl (_, e) ↦ rw e
  | inr (inl (_, _, e)) ↦ rw e
  | inr (inr (_, e)) ↦ rw e
]

-- The bits after a mark, on the fast path and on the slow one.
pub bit_at-mark_committed :
    (c : CommitStatus) (x j : ℕ)
    → IsValid c
    → c.base ≤ x
    → bit_at (mark_committed c x).words j ≡ (if x - c.base == j then true else bit_at c.words j)
bit_at-mark_committed c x j h above = elim (mark_committed_cases c x) [
  | inl (lt, e) ↦ absurd (omega arith)
  | inr (inl (_, lt, e)) ↦ rw e (bit_at-fetch_or c.words (x - c.base) j h lt)
  | inr (inr (_, e)) ↦ rw e (bit_at-set_bit c x j h)
]

below_unchanged : (c : CommitStatus) (x : ℕ) → x < c.base → mark_committed c x ≡ c
below_unchanged c x lt = elim (mark_committed_cases c x) [
  | inl (_, e) ↦ e
  | inr (inl (le, _, _)) ↦ absurd (omega arith)
  | inr (inr (le, _)) ↦ absurd (omega arith)
]

-- After a commit is recorded exactly that id has become committed, except that id 0 never does;
-- every other answer is as before, those below the horizon included.
pub is_committed-mark_committed :
    (c : CommitStatus) (x y : ℕ)
    → IsValid c
    → is_committed (mark_committed c x) y
      ≡ (if y == 0 then false else if x == y then true else is_committed c y)
is_committed-mark_committed c x y h = elim (Bool-cases (ltb x c.base)) [
  | inl below ↦ rw (below_unchanged c x (ground arith)) (ground (arith, is_committed-bit_at c y))
  | inr above ↦ ground (
    arith,
    is_committed-bit_at c y,
    is_committed-bit_at (mark_committed c x) y,
    base-mark_committed c x,
    bit_at-mark_committed c x (y - c.base) h,
  )
]
