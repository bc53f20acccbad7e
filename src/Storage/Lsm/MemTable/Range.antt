-- ===== src/Storage/Lsm/MemTable/Range.antt =====
-- Scans of a part of the table.
use chibidb.Prelude.{
  ◌≡◌, refl, sym, ◌∙◌, inl, inr, ◌⊎◌, Bool, true, false, not, ◌&&◌, if◌then◌else◌, List, [], ◌∷◌,
  Option, none, some, All, Bool-cases, ap,
}
use chibidb.Prelude.Bytes.{lt_bytes, lt_bytes_connex}
use chibidb.Storage.Lsm.MemTable.{Key, MemEntry, MemTable, find, between, range}
use chibidb.Storage.Lsm.MemTable.Sorted.{IsAfter, IsSorted, All-IsAfter, find_before}

abbrev pub in_range : Key → Key → Key → Bool
in_range start end key = not (lt_bytes key start) && lt_bytes key end

between-IsAfter :
    (start end k : Key) (m : List (Key × MemEntry))
    → All (IsAfter k) m
    → All (IsAfter k) (between start end m)
unfolding between
between-IsAfter start end k [] a = tt
between-IsAfter start end k ((j, e) ∷ m) (p, a) = elim (Bool-cases (in_range start end j)) [
  | inl c ↦ rw c (p, between-IsAfter start end k m a)
  | inr c ↦ rw c (between-IsAfter start end k m a)
]

between-IsSorted :
    (start end : Key) (m : List (Key × MemEntry)) → IsSorted m → IsSorted (between start end m)
unfolding between
between-IsSorted start end [] s = tt
between-IsSorted start end ((j, e) ∷ m) (a, s) = elim (Bool-cases (in_range start end j)) [
  | inl c ↦ rw c (between-IsAfter start end j m a, between-IsSorted start end m s)
  | inr c ↦ rw c (between-IsSorted start end m s)
]

find-between :
    (start end key : Key) (m : List (Key × MemEntry))
    → IsSorted m
    → find key (between start end m) ≡ (if in_range start end key then find key m else none)
unfolding between find
find-between start end key [] s = elim (Bool-cases (in_range start end key)) [
  | inl c ↦ rw c refl
  | inr c ↦ rw c refl
]
find-between start end key ((j, e) ∷ m) (a, s) = elim (Bool-cases (lt_bytes key j)) [
  | inl before ↦
      find_before key (between start end ((j, e) ∷ m))
        (between-IsAfter start end key ((j, e) ∷ m) (before, All-IsAfter key j m before a))
      ∙ rw before (sym (outside (in_range start end key)))
  | inr c ↦ elim (Bool-cases (lt_bytes j key)) [
    | inl after ↦ elim (Bool-cases (in_range start end j)) [
      | inl f ↦ rw (f, c, after, find) (find-between start end key m s)
      | inr f ↦ rw (f, c, after) (find-between start end key m s)
    ]
    | inr d ↦ elim (Bool-cases (in_range start end j)) [
      | inl f ↦ rw (f, c, d) (rw (same d c ∙ f) refl)
      | inr f ↦ rw (f, c, d) (find-between start end key m s ∙ rw (same d c ∙ f) refl)
    ]
  ]
]
  where
    outside : (b : Bool) → ◌≡◌ {A = Option MemEntry} (if b then none else none) none
    outside true = refl
    outside false = refl

    same :
        lt_bytes j key ≡ false
        → lt_bytes key j ≡ false
        → in_range start end key ≡ in_range start end j
    same d c = ap (in_range start end) (sym (lt_bytes_connex j key d c))

-- A scan fails exactly when its bounds are crossed. Otherwise it gives, in the order of their keys,
-- the entries from the lower bound on and before the upper one, and no others.
pub range_between :
    (t : MemTable) (start end : Key)
    → IsSorted t.entries
    → ((range t start end ≡ none) × (lt_bytes end start ≡ true))
      ⊎ ((m : List (Key × MemEntry)) × (range t start end ≡ some m)
          × IsSorted m
          × ((key : Key)
              → find key m ≡ (if in_range start end key then find key t.entries else none)))
unfolding range
range_between t start end s = elim (Bool-cases (lt_bytes end start)) [
  | inl c ↦ inl (rw c refl, c)
  | inr c ↦ inr (
    between start end t.entries,
    rw c refl,
    between-IsSorted start end t.entries s,
    λ key. find-between start end key t.entries s,
  )
]
