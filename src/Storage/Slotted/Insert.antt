-- ===== src/Storage/Slotted/Insert.antt =====
-- Inserting a row, and reading all rows of the page after it.
use chibidb.Prelude.{
  ℕ, zero, suc, ◌+◌, ◌-◌, ◌*◌, ◌≤◌, ◌<◌, ◌≡◌, ◌≢◌, ◌⊎◌, inl, inr, refl, ap, ◌∙◌, true, false, ltb,
  leb, ◌==◌, if◌then◌else◌, ℕ_discrete, List, none, some, length, Bool-cases, Option-cases, arith,
}
use chibidb.Prelude.Result.{Error, Result, ok, err}
use chibidb.Storage.Slotted.{
  page_size, header_size, slot_size, Page, num_slots, free_upper, slot_off, slot_len, copy_at,
  slice, find_unused, page_insert, is_unused, page_get,
}
use chibidb.Storage.Slotted.Bytes.{byte-copy_at, slice-copy_at, slice_same}
use chibidb.Storage.Slotted.Layout.{
  IsValid, total, total_same, total-put, After, reused-After, fresh-After,
}

-- The slot is new to the page or unused in it, and the row fits between the directory and the rows.
pub record Fits (p : Page) (slot off n : ℕ) (row : List ℕ) : Type 0 where
  pub inside : slot < n
  pub old : (j : ℕ) → j ≢ slot → j < n → j < num_slots p
  pub kept : num_slots p ≤ n
  pub ends : off + length row ≡ free_upper p
  pub above : header_size + n * slot_size ≤ off
  pub vacant : page_get p slot ≡ ok none
  pub spare : ((n ≡ num_slots p) × (slot_len p slot ≡ 0)) ⊎ ((slot ≡ num_slots p) × (n ≡ suc slot))

After-IsValid :
    (p q : Page) (slot off n : ℕ) (row : List ℕ)
    → IsValid p
    → Fits p slot off n row
    → After p q slot off n row
    → IsValid q
After-IsValid p q slot off n row v f a = record {
  size = a.size;
  room = omega (arith, a.count, a.upper, f.above);
  top = omega (arith, a.upper, f.ends, v.top);
  live = λ i l. elim (ℕ_discrete i slot) [
    | yes e ↦ inr (
      omega (arith, a.upper, ap (slot_off q) e, a.own_off),
      omega (arith, ap (slot_off q) e, a.own_off, ap (slot_len q) e, a.own_len, f.ends, v.top),
    )
    | no ne ↦ elim (v.live i (f.old i ne (omega (arith, a.count)))) [
      | inl (x, y) ↦ inl (
        a.other_off i ne (omega (arith, a.count)) ∙ x,
        a.other_len i ne (omega (arith, a.count)) ∙ y,
      )
      | inr (x, y) ↦ inr (
        omega (arith, a.upper, f.ends, a.other_off i ne (omega (arith, a.count))),
        omega (
          arith,
          a.other_off i ne (omega (arith, a.count)),
          a.other_len i ne (omega (arith, a.count)),
        ),
      )
    ]
  ];
  packed = elim f.spare [
    | inl (x, y) ↦ omega (
      arith,
      total-put p q slot n f.inside a.other_len,
      ap (total q) a.count,
      ap (total p) x,
      a.upper,
      a.own_len,
      f.ends,
      v.packed,
    )
    | inr (x, y) ↦ omega (
      arith,
      total_same p q slot (λ j l. a.other_len j (λ e. omega arith) (omega arith)),
      ap (total q) (a.count ∙ y),
      ap (total p) x,
      a.upper,
      a.own_len,
      f.ends,
      v.packed,
    )
  ];
}

pub own_row :
    (p q : Page) (slot off n : ℕ) (row : List ℕ)
    → IsValid p
    → Fits p slot off n row
    → After p q slot off n row
    → page_get q slot ≡ ok (some row)
unfolding page_get
own_row p q slot off n row v f a =
    rw (there, used, a.own_off, a.own_len)
      (ap (λ (r : List ℕ). ok (some r))
        (slice_same q (copy_at p off row) off (length row) (λ i l r. a.rows i l)
          ∙ slice-copy_at p off row (omega (arith, f.ends, v.top, v.size))))
  where
    there : leb (num_slots q) slot ≡ false
    there = ground (arith, a.count, f.inside)

    used : is_unused q slot ≡ false
    used = ground (arith, a.own_off, f.above)

other_rows :
    (p q : Page) (slot off n j : ℕ) (row : List ℕ)
    → IsValid p
    → Fits p slot off n row
    → After p q slot off n row
    → j ≢ slot
    → page_get q j ≡ page_get p j
unfolding page_get
other_rows p q slot off n j row v f a ne = elim (Bool-cases (leb n j)) [
  | inl out ↦ rw (a.count, out, beyond (ground arith)) refl
  | inr in_page ↦
      let l = below in_page in
      rw (a.count, in_page, within l, a.other_off j ne l, a.other_len j ne l)
        (ap (λ (r : List ℕ). if is_unused p j then ok none else ok (some r))
          (same_row l (v.live j (f.old j ne l))))
]
  where
    beyond : n ≤ j → leb (num_slots p) j ≡ true
    beyond h = ground (arith, f.kept)

    below : leb n j ≡ false → j < n
    below h = ground arith

    within : j < n → leb (num_slots p) j ≡ false
    within l = ground (arith, f.old j ne l)

    same_row :
        j < n
        → ((slot_off p j ≡ 0) × (slot_len p j ≡ 0))
          ⊎ ((free_upper p ≤ slot_off p j) × (slot_off p j + slot_len p j ≤ page_size))
        → slice q (slot_off p j) (slot_len p j) ≡ slice p (slot_off p j) (slot_len p j)
    same_row l (inl (x, y)) = rw y (unfold slice in refl)
    same_row l (inr (x, y)) = slice_same q p (slot_off p j) (slot_len p j) (λ i lo hi.
        a.rows i (omega (arith, f.ends)) ∙ byte-copy_at p off row i (inr (omega (arith, f.ends))))

find_unused-off :
    (left i k : ℕ) (p : Page)
    → find_unused left p i ≡ some k
    → (i ≤ k) × (k < i + left) × (slot_off p k ≡ 0)
unfolding find_unused
find_unused-off zero i k p e = absurd (ground arith)
find_unused-off (suc left) i k p e = elim (Bool-cases (slot_off p i == 0)) [
  | inl z ↦ let r = rw z at e in ground arith
  | inr z ↦
      let r = rw z at e in
      let (lo, hi, off) = find_unused-off left (i + 1) k p r in (omega arith, omega arith, off)
]

-- What inserting a row leads to.
abbrev pub Inserted : Page → List ℕ → Result (Page × ℕ) → Type 0
Inserted p row (err e) =
    (e ≡ Error.page_full)
    × (free_upper p < header_size + suc (num_slots p) * slot_size + length row)
Inserted p row (ok (q, slot)) =
    IsValid q
    × (page_get p slot ≡ ok none)
    × (page_get q slot ≡ ok (some row))
    × ((j : ℕ) → j ≢ slot → page_get q j ≡ page_get p j)

pub filled :
    (p q : Page) (slot off n : ℕ) (row : List ℕ)
    → IsValid p
    → Fits p slot off n row
    → After p q slot off n row
    → Inserted p row (ok (q, slot))
filled p q slot off n row v f a = (
  After-IsValid p q slot off n row v f a,
  f.vacant,
  own_row p q slot off n row v f a,
  λ j ne. other_rows p q slot off n j row v f a ne,
)

pub reused-Fits :
    (p : Page) (slot : ℕ) (row : List ℕ)
    → IsValid p
    → slot < num_slots p
    → slot_off p slot ≡ 0
    → header_size + num_slots p * slot_size + length row ≤ free_upper p
    → Fits p slot (free_upper p - length row) (num_slots p) row
reused-Fits p slot row v l z h = record {
  inside = l;
  old = λ j ne m. m;
  kept = omega arith;
  ends = omega arith;
  above = omega arith;
  vacant = elim (v.live slot l) [
    | inl (x, y) ↦ unfold page_get in ground (arith, x, y)
    | inr (x, y) ↦ absurd (omega (arith, x, v.room))
  ];
  spare = inl (
    refl,
    elim (v.live slot l) [ inl (x, y) ↦ y | inr (x, y) ↦ absurd (omega (arith, x, v.room)) ],
  );
}

pub fresh-Fits :
    (p : Page) (row : List ℕ)
    → header_size + suc (num_slots p) * slot_size + length row ≤ free_upper p
    → Fits p (num_slots p) (free_upper p - length row) (num_slots p + 1) row
fresh-Fits p row h = record {
  inside = omega arith;
  old = λ j ne m. omega arith;
  kept = omega arith;
  ends = omega arith;
  above = omega arith;
  vacant = unfold page_get in ground arith;
  spare = inr (refl, omega arith);
}

-- Inserting a row into a valid page gives it a slot that held none, from which the row is then read;
-- every other slot reads as before, and the page stays valid. It is refused only as a full page, when
-- the row with a new slot does not fit between the directory and the rows.
pub page_insert-Inserted :
    (p : Page) (row : List ℕ) → IsValid p → Inserted p row (page_insert p row)
unfolding page_insert
page_insert-Inserted p row v = elim (Option-cases (find_unused (num_slots p) p 0)) [
  | inl e ↦
      rw (page_insert, e)
        (elim (Bool-cases
          (ltb (free_upper p) (header_size + (num_slots p + 1) * slot_size + length row))) [
            | inl full ↦ rw full (refl, ground arith)
            | inr fits ↦ rw fits (
                filled p _ (num_slots p) (free_upper p - length row) (num_slots p + 1) row v
                  (fresh-Fits p row (ground arith))
                  (fresh-After p (free_upper p - length row) row v.size (ground (arith, v.top))
                    (ground arith)))
          ])
  | inr (slot, e) ↦
      let (lo, hi, z) = find_unused-off (num_slots p) 0 slot p e in
      rw (page_insert, e)
        (elim (Bool-cases
          (ltb (free_upper p) (header_size + num_slots p * slot_size + length row))) [
            | inl full ↦ rw full (refl, ground arith)
            | inr fits ↦ rw fits (
                filled p _ slot (free_upper p - length row) (num_slots p) row v
                  (reused-Fits p slot row v (omega arith) z (ground arith))
                  (reused-After p slot (free_upper p - length row) row v.size (omega arith)
                    (ground (arith, v.top)) (ground arith)))
          ])
]
