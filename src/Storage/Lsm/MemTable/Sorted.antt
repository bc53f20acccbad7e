-- ===== src/Storage/Lsm/MemTable/Sorted.antt =====
-- The table stays sorted, and a lookup sees the last write of its key.
use chibidb.Prelude.{
  ◌≡◌, ◌≢◌, refl, inl, inr, true, if◌then◌else◌, List, [], ◌∷◌, Option, none, some, All, ite,
  Name_discrete, if_pos, if_neg, Bool-cases, ap, subst,
}
use chibidb.Prelude.Bytes.{lt_bytes, lt_bytes_irrefl, lt_bytes_trans, lt_bytes_connex}
use chibidb.Storage.Lsm.MemTable.{Key, MemEntry, MemTable, insert_entry, find, write, get}

-- Every key of the list comes after `key`.
abbrev pub IsAfter : Key → (Key × MemEntry) → Type 0
IsAfter key (k, e) = lt_bytes key k ≡ true

abbrev pub IsSorted : List (Key × MemEntry) → Type 0
IsSorted [] = Unit
IsSorted ((k, e) ∷ m) = All (IsAfter k) m × IsSorted m

pub All-IsAfter :
    (j k : Key) (m : List (Key × MemEntry))
    → lt_bytes j k ≡ true
    → All (IsAfter k) m
    → All (IsAfter j) m
All-IsAfter j k [] h a = tt
All-IsAfter j k ((i, e) ∷ m) h (p, a) = (lt_bytes_trans j k i h p, All-IsAfter j k m h a)

insert-IsAfter :
    (key k : Key) (e : MemEntry) (m : List (Key × MemEntry))
    → lt_bytes k key ≡ true
    → All (IsAfter k) m
    → All (IsAfter k) (insert_entry key e m)
unfolding insert_entry
insert-IsAfter key k e [] h a = (h, tt)
insert-IsAfter key k e ((j, old) ∷ m) h (p, a) = elim (Bool-cases (lt_bytes key j)) [
  | inl c ↦ rw c (h, (p, a))
  | inr c ↦ rw c (elim (Bool-cases (lt_bytes j key)) [
    | inl d ↦ rw d (p, insert-IsAfter key k e m h a)
    | inr d ↦ rw d (h, a)
  ])
]

pub insert-IsSorted :
    (key : Key) (e : MemEntry) (m : List (Key × MemEntry))
    → IsSorted m
    → IsSorted (insert_entry key e m)
unfolding insert_entry
insert-IsSorted key e [] s = (tt, tt)
insert-IsSorted key e ((j, old) ∷ m) (a, s) = elim (Bool-cases (lt_bytes key j)) [
  | inl c ↦ rw c ((c, All-IsAfter key j m c a), (a, s))
  | inr c ↦ rw c (elim (Bool-cases (lt_bytes j key)) [
    | inl d ↦ rw d (insert-IsAfter key j e m d a, insert-IsSorted key e m s)
    | inr d ↦ rw d (subst (λ (k : Key). All (IsAfter k) m) (lt_bytes_connex j key d c) a, s)
  ])
]

-- A key before all the others is not found.
pub find_before : (key : Key) (m : List (Key × MemEntry)) → All (IsAfter key) m → find key m ≡ none
unfolding find
find_before key [] a = refl
find_before key ((k, e) ∷ m) (p, a) = rw p refl

find-insert_self :
    (key : Key) (e : MemEntry) (m : List (Key × MemEntry))
    → find key (insert_entry key e m) ≡ some e
unfolding find insert_entry
find-insert_self key e [] = rw (lt_bytes_irrefl key) refl
find-insert_self key e ((k, old) ∷ m) = elim (Bool-cases (lt_bytes key k)) [
  | inl c ↦ rw (c, lt_bytes_irrefl key) refl
  | inr c ↦ rw c (elim (Bool-cases (lt_bytes k key)) [
    | inl d ↦ rw (d, c, d) (find-insert_self key e m)
    | inr d ↦ rw (d, lt_bytes_irrefl key) refl
  ])
]

find-insert_ne :
    (key other : Key) (e : MemEntry) (m : List (Key × MemEntry))
    → key ≢ other
    → find other (insert_entry key e m) ≡ find other m
unfolding find insert_entry
find-insert_ne key other e [] n = elim (Bool-cases (lt_bytes other key)) [
  | inl c ↦ rw c refl
  | inr c ↦ elim (Bool-cases (lt_bytes key other)) [
    | inl d ↦ rw (c, d) refl
    | inr d ↦ absurd (n (lt_bytes_connex key other d c))
  ]
]
find-insert_ne key other e ((k, old) ∷ m) n = elim (Bool-cases (lt_bytes key k)) [
  | inl c ↦ rw c (elim (Bool-cases (lt_bytes other key)) [
    | inl d ↦ rw (d, lt_bytes_trans other key k d c) refl
    | inr d ↦ elim (Bool-cases (lt_bytes key other)) [
      | inl f ↦ rw (d, f) refl
      | inr f ↦ absurd (n (lt_bytes_connex key other f d))
    ]
  ])
  | inr c ↦ rw c (elim (Bool-cases (lt_bytes k key)) [
    | inl d ↦ rw d (
        ap
          (λ (r : Option MemEntry).
            if lt_bytes other k then none else if lt_bytes k other then r else some old)
          (find-insert_ne key other e m n))
    | inr d ↦ rw d (subst (λ (j : Key). at key e ≡ at j old) (lt_bytes_connex key k c d) unmoved)
  ])
]
  where
    at : Key → MemEntry → Option MemEntry
    at j d = if lt_bytes other j then none else if lt_bytes j other then find other m else some d

    unmoved : at key e ≡ at key old
    unmoved = elim (Bool-cases (lt_bytes other key)) [
      | inl f ↦ rw f refl
      | inr f ↦ elim (Bool-cases (lt_bytes key other)) [
        | inl g ↦ rw (f, g) refl
        | inr g ↦ absurd (n (lt_bytes_connex key other g f))
      ]
    ]

find-insert :
    (key other : Key) (e : MemEntry) (m : List (Key × MemEntry))
    → find other (insert_entry key e m) ≡ ite (Name_discrete key other) (some e) (find other m)
find-insert key other e m = elim (Name_discrete key other) [
  | yes p ↦
      rw (if_pos (Name_discrete key other) p)
        (subst (λ (k : Key). find k (insert_entry key e m) ≡ some e) p (find-insert_self key e m))
  | no n ↦ rw (if_neg (Name_discrete key other) n) (find-insert_ne key other e m n)
]

-- A lookup sees the entry that was written last under its key, a tombstone included; a write leaves
-- every other key as it was.
pub get-write :
    (t : MemTable) (key other : Key) (e : MemEntry)
    → get (write t key e) other ≡ ite (Name_discrete key other) (some e) (get t other)
unfolding get write
get-write t key other e = find-insert key other e t.entries
