-- ===== src/Storage/Slotted/Delete.antt =====
-- Deleting a row, and reading all rows of the page after it.
use chibidb.Prelude.{
  ℕ, ◌+◌, ◌*◌, ◌%◌, ◌≤◌, ◌<◌, ◌≡◌, ◌≢◌, inl, inr, refl, sym, ap, ◌∙◌, false, leb, ◌==◌,
  if◌then◌else◌, ℕ_discrete, List, none, some, length, get_or, Bool-cases, arith,
}
use chibidb.Prelude.Result.{Error, Result, ok, err}
use chibidb.Storage.Slotted.{
  page_size, header_size, slot_size, Page, num_slots, read_u16, write_u16, free_upper, slot_off,
  slot_len, set_slot, slice, compact, is_unused, page_get, page_delete,
}
use chibidb.Storage.Slotted.Bytes.{length-write_u16, byte-write_u16, read-write_u16, slice_same}
use chibidb.Storage.Slotted.Layout.{IsValid, total, total_same, total-put}
use chibidb.Storage.Slotted.Collect.{slice_cong}
use chibidb.Storage.Slotted.Compacted.{Compacted, compact-Compacted}

-- The page `p` without what was in `slot`.
record Cleared (p p' : Page) (slot : ℕ) : Type 0 where
  size : length p' ≡ length p
  count : num_slots p' ≡ num_slots p
  own_off : slot_off p' slot ≡ 0
  own_len : slot_len p' slot ≡ 0
  other_off : (j : ℕ) → j ≢ slot → j < num_slots p → slot_off p' j ≡ slot_off p j
  other_len : (j : ℕ) → j ≢ slot → j < num_slots p → slot_len p' j ≡ slot_len p j
  rows : (i : ℕ) → header_size + num_slots p * slot_size ≤ i → get_or p' i 0 ≡ get_or p i 0

set_slot-Cleared :
    (p : Page) (slot : ℕ) → IsValid p → slot < num_slots p → Cleared p (set_slot p slot 0 0) slot
unfolding set_slot num_slots slot_off slot_len
set_slot-Cleared p slot v l =
    let base = header_size + slot * slot_size in
    record {
      size = length-write_u16 (write_u16 p base 0) (base + 2) 0 ∙ length-write_u16 p base 0;
      count = ground (arith, word 0);
      own_off = ground (arith, word (header_size + slot * slot_size));
      own_len = ground (arith, word (header_size + slot * slot_size + 2));
      other_off = λ j n m. ground (arith, word (header_size + j * slot_size));
      other_len = λ j n m. ground (arith, word (header_size + j * slot_size + 2));
      rows = λ i h.
          byte-write_u16 (write_u16 p base 0) (base + 2) 0 i (λ e. omega arith) (λ e. omega arith)
          ∙ byte-write_u16 p base 0 i (λ e. omega arith) (λ e. omega arith);
    }
  where
    word :
        (b : ℕ)
        → b % 2 ≡ 0
        → read_u16
            (write_u16
              (write_u16 p (header_size + slot * slot_size) 0)
              (header_size + slot * slot_size + 2)
              0)
            b
          ≡ (if header_size + slot * slot_size + 2 == b
              then 0
              else if header_size + slot * slot_size == b
              then 0
              else read_u16 p b)
    word b eb =
        let base = header_size + slot * slot_size in
        ground (
          arith,
          read-write_u16 (write_u16 p base 0) (base + 2) 0 b (omega arith) eb
              (omega (arith, length-write_u16 p base 0, v.size, v.room, v.top)) (omega arith),
          read-write_u16 p base 0 b (omega arith) eb (omega (arith, v.size, v.room, v.top))
              (omega arith),
        )

-- What deleting a row leads to.
abbrev pub Deleted : Page → ℕ → Result Page → Type 0
Deleted p slot (err e) = (e ≡ Error.runtime "no record at slot") × (page_get p slot ≡ ok none)
Deleted p slot (ok q) =
    IsValid q
    × (num_slots q ≡ num_slots p)
    × (free_upper q + total q (num_slots q) ≡ page_size)
    × (page_get q slot ≡ ok none)
    × ((j : ℕ) → j ≢ slot → page_get q j ≡ page_get p j)

module _ (p p' : Page) (slot : ℕ) (v : IsValid p) (l : slot < num_slots p)
    (c : Cleared p p' slot) where
  -- A slot of `p` without a row at an offset of its own has no length.
  unused_len : (j : ℕ) → j < num_slots p → slot_off p j ≡ 0 → slot_len p j ≡ 0
  unused_len j m z = elim (v.live j m) [
    | inl (x, y) ↦ y
    | inr (x, y) ↦ absurd (omega (arith, z, x, v.room))
  ]

  cleared_len : (j : ℕ) → j < num_slots p' → slot_off p' j ≡ 0 → slot_len p' j ≡ 0
  cleared_len j m z = elim (ℕ_discrete j slot) [
    | yes e ↦ ap (slot_len p') e ∙ c.own_len
    | no n ↦
        let m' = below j m in c.other_len j n m' ∙ unused_len j m' (sym (c.other_off j n m') ∙ z)
  ]
    where
      below : (i : ℕ) → i < num_slots p' → i < num_slots p
      below i h = omega (arith, c.count)

  cleared_total : total p' (num_slots p') ≤ total p (num_slots p)
  cleared_total =
      omega
        (arith, total-put p p' slot (num_slots p) l c.other_len, c.own_len, ap (total p') c.count)

  cleared_room : header_size + num_slots p' * slot_size + total p' (num_slots p') ≤ page_size
  cleared_room = omega (arith, cleared_total, c.count, v.room, v.packed)

  module _ (q : Page) (k : Compacted p' q) where
    kept_total : total q (num_slots q) ≡ total p' (num_slots p')
    kept_total =
        ap (total q) k.count
        ∙ total_same p' q (num_slots p') (λ j m. elim (ℕ_discrete (slot_off p' j) 0) [
          | yes z ↦ (k.dead j m z).1
          | no n ↦ (k.alive j m n).2
        ])

    compacted-IsValid : IsValid q
    compacted-IsValid = record {
      size = k.size ∙ c.size ∙ v.size;
      room = omega (arith, k.count, c.count, k.upper, cleared_room);
      top = omega (arith, k.upper);
      live = λ i m.
          let m' = inside i m in
          elim (ℕ_discrete (slot_off p' i) 0) [
            | yes z ↦ inl ((k.dead i m' z).0, (k.dead i m' z).1 ∙ cleared_len i m' z)
            | no n ↦ inr ((k.alive i m' n).0, (k.alive i m' n).1)
          ];
      packed = omega (arith, k.upper, kept_total);
    }
      where
        inside : (i : ℕ) → i < num_slots q → i < num_slots p'
        inside i h = omega (arith, k.count)

    emptied : page_get q slot ≡ ok none
    emptied =
        let m = here in
        let d = k.dead slot m c.own_off in unfold page_get in ground (arith, d.0, d.1, c.own_len)
      where
        here : slot < num_slots p'
        here = omega (arith, l, c.count)

    others : (j : ℕ) → j ≢ slot → page_get q j ≡ page_get p j
    others j ne = elim (Bool-cases (leb (num_slots p) j)) [
      | inl out ↦ unfold page_get in rw (same_count, out) refl
      | inr in_page ↦ elim (ℕ_discrete (slot_off p' j) 0) [
        | yes z ↦
            let d = k.dead j (inside in_page) z in
            let w = sym (c.other_off j ne (before in_page)) ∙ z in
            let y = cleared_len j (inside in_page) z in
            let x = unused_len j (before in_page) w in
            unfold page_get in ground (arith, d.0, d.1, w, x, y)
        | no n ↦
            unfold page_get in
            rw (same_count, in_page, used_after in_page n, used_before in_page n)
              (ap (λ (r : List ℕ). ok (some r)) (same_row in_page n))
      ]
    ]
      where
        same_count : num_slots q ≡ num_slots p
        same_count = k.count ∙ c.count

        before : leb (num_slots p) j ≡ false → j < num_slots p
        before h = ground arith

        inside : leb (num_slots p) j ≡ false → j < num_slots p'
        inside h = ground (arith, c.count)

        used_after : leb (num_slots p) j ≡ false → slot_off p' j ≢ 0 → is_unused q j ≡ false
        used_after h n =
            let a = (k.alive j (inside h) n).0 in
            let u = compacted-IsValid.room in ground (arith, a, u)

        used_before : leb (num_slots p) j ≡ false → slot_off p' j ≢ 0 → is_unused p j ≡ false
        used_before h n = ground (arith, c.other_off j ne (before h))

        same_row :
            leb (num_slots p) j ≡ false
            → slot_off p' j ≢ 0
            → slice q (slot_off q j) (slot_len q j) ≡ slice p (slot_off p j) (slot_len p j)
        same_row h n =
            (k.alive j (inside h) n).3
            ∙ slice_cong p' _ _ _ _ (c.other_off j ne (before h)) (c.other_len j ne (before h))
            ∙ slice_same p' p (slot_off p j) (slot_len p j) (λ i lo hi. c.rows i (past h n i lo))
          where
            past :
                leb (num_slots p) j ≡ false
                → slot_off p' j ≢ 0
                → (i : ℕ) → slot_off p j ≤ i
                → header_size + num_slots p * slot_size ≤ i
            past h n i lo = elim (v.live j (before h)) [
              | inl (x, y) ↦ absurd (n (c.other_off j ne (before h) ∙ x))
              | inr (x, y) ↦ omega (arith, x, lo, v.room)
            ]

-- Deleting a row of a valid page empties its slot and moves the free space together, so that the
-- rows that are left take exactly the end of the page; every other slot reads as before, and the page
-- stays valid. It is refused only for a slot that holds no row.
pub page_delete-Deleted : (p : Page) (slot : ℕ) → IsValid p → Deleted p slot (page_delete p slot)
unfolding page_delete
page_delete-Deleted p slot v = elim (Bool-cases (leb (num_slots p) slot)) [
  | inl out ↦ rw (page_delete, out) (refl, unfold page_get in ground arith)
  | inr in_page ↦ elim (Bool-cases (is_unused p slot)) [
    | inl unused ↦
        rw (page_delete, in_page, unused) (refl, unfold page_get in rw (in_page, unused) refl)
    | inr used ↦ rw (page_delete, in_page, used) (deleted (ground arith))
  ]
]
  where
    deleted : slot < num_slots p → Deleted p slot (ok (compact (set_slot p slot 0 0)))
    deleted l =
        let p' = set_slot p slot 0 0 in
        let c = set_slot-Cleared p slot v l in
        let k =
          compact-Compacted p' (c.size ∙ v.size) (cleared_room p p' slot v l c)
            (cleared_len p p' slot v l c) in
        (
          compacted-IsValid p p' slot v l c (compact p') k,
          k.count ∙ c.count,
          omega (arith, k.upper, kept_total p p' slot v l c (compact p') k),
          emptied p p' slot v l c (compact p') k,
          others p p' slot v l c (compact p') k,
        )
