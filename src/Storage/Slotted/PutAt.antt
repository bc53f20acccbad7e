-- ===== src/Storage/Slotted/PutAt.antt =====
-- Putting a row at a given slot, as the replay of the log does.
use chibidb.Prelude.{
  ℕ, suc, ◌+◌, ◌-◌, ◌*◌, ◌≤◌, ◌<◌, ◌≡◌, ◌≢◌, ◌⊎◌, inl, inr, refl, sym, ◌∙◌, true, false, ltb, leb,
  List, none, some, length, max, Bool-cases, arith,
}
use chibidb.Prelude.Result.{Error, Result, ok, err}
use chibidb.Storage.Slotted.{
  header_size, slot_size, Page, num_slots, set_free_upper, free_upper, slot_off, slot_len, slice,
  fill, is_unused, page_get, page_put_at,
}
use chibidb.Storage.Slotted.Layout.{IsValid, reused-After}
use chibidb.Storage.Slotted.Insert.{filled, reused-Fits}
use chibidb.Storage.Slotted.Grow.{gap, grown, put}
use chibidb.Storage.Slotted.Put.{grown-IsValid, grown-page_get, put-Fits, put-After}

-- What putting a row leads to.
abbrev pub PutOutcome : Page → ℕ → List ℕ → Result Page → Type 0
PutOutcome p slot row (err e) =
    ((e ≡ Error.runtime "slot already occupied") × (page_get p slot ≢ ok none))
    ⊎ ((e ≡ Error.page_full)
        × (free_upper p < header_size + max (slot + 1) (num_slots p) * slot_size + length row))
PutOutcome p slot row (ok q) =
    IsValid q
    × (page_get p slot ≡ ok none)
    × (page_get q slot ≡ ok (some row))
    × ((j : ℕ) → j ≢ slot → page_get q j ≡ page_get p j)

put_new :
    (p : Page) (slot off : ℕ) (row : List ℕ)
    → IsValid p
    → num_slots p ≤ slot
    → header_size + suc slot * slot_size ≤ off
    → off + length row ≡ free_upper p
    → PutOutcome p slot row (ok (put p slot off row))
put_new p slot off row v past above ends =
    let (valid, vacant, own, others) =
      filled (grown p slot) (put p slot off row) slot off (slot + 1) row
        (grown-IsValid p slot off row v past above ends) (put-Fits p slot off row v past above ends)
        (put-After p slot off row v past above ends) in
    let same = grown-page_get p slot off row v past above ends in
    (valid, sym (same slot) ∙ vacant, own, λ j ne. others j ne ∙ same j)

put_old :
    (p : Page) (slot : ℕ) (row : List ℕ)
    → IsValid p
    → slot < num_slots p
    → slot_off p slot ≡ 0
    → header_size + num_slots p * slot_size + length row ≤ free_upper p
    → PutOutcome p slot row (
        ok (
          set_free_upper (fill p slot (free_upper p - length row) row) (free_upper p - length row)))
put_old p slot row v l z h =
    filled p _ slot (free_upper p - length row) (num_slots p) row v (reused-Fits p slot row v l z h)
      (reused-After p slot (free_upper p - length row) row v.size l (omega (arith, v.top))
        (omega arith))

-- Putting a row at a slot of a valid page that holds none, past the end of the directory too, stores
-- it there: it is then read from that slot, every other slot reads as before, those in between being
-- empty, and the page stays valid. It is refused for a slot that holds a row, and as a full page when
-- the grown directory and the row do not fit.
pub page_put_at-PutOutcome :
    (p : Page) (slot : ℕ) (row : List ℕ)
    → IsValid p
    → PutOutcome p slot row (page_put_at p slot row)
unfolding page_put_at fill put
page_put_at-PutOutcome p slot row v = elim (Bool-cases (ltb slot (num_slots p))) [
  | inl old ↦ elim (Bool-cases (is_unused p slot)) [
    | inl z ↦
        elim (Bool-cases (
          ltb (free_upper p)
            (header_size + max (slot + 1) (num_slots p) * slot_size + length row))) [
              | inl full ↦ rw (page_put_at, old, z, full) (inr (refl, ground arith))
              | inr fits ↦
                  rw (page_put_at, old, z, fits)
                    (put_old p slot row v (ground arith) (ground arith) (ground arith))
            ]
    | inr u ↦ rw (page_put_at, old, u) (inl (refl, λ e. occupied (ground arith) u e))
  ]
  | inr new ↦
      elim (Bool-cases (
        ltb (free_upper p) (header_size + max (slot + 1) (num_slots p) * slot_size + length row))) [
          | inl full ↦ rw (page_put_at, new, full) (inr (refl, ground arith))
          | inr fits ↦
              rw (page_put_at, new, fits, some_gap new)
                (put_new p slot (free_upper p - length row) row v (ground arith) (ground arith)
                  (ground arith))
        ]
]
  where
    got :
        leb (num_slots p) slot ≡ false
        → is_unused p slot ≡ false
        → page_get p slot ≡ ok (some (slice p (slot_off p slot) (slot_len p slot)))
    got h u = unfold page_get in rw (h, u) refl

    occupied : leb (num_slots p) slot ≡ false → is_unused p slot ≡ false → page_get p slot ≢ ok none
    occupied h u e = let r = sym (got h u) ∙ e in ground arith

    some_gap : ltb slot (num_slots p) ≡ false → ltb 0 (gap p slot) ≡ true
    some_gap h = ground arith
