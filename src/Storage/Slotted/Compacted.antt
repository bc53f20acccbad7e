-- ===== src/Storage/Slotted/Compacted.antt =====
-- The page that compaction leaves.
use chibidb.Prelude.{
  ℕ, ◌+◌, ◌*◌, ◌%◌, ◌≤◌, ◌<◌, ◌≡◌, ◌≢◌, refl, ap, ◌∙◌, Bool, true, false, ◌==◌, if◌then◌else◌, none,
  some, length, arith,
}
use chibidb.Storage.Slotted.{
  page_size, header_size, slot_size, Page, num_slots, read_u16, write_u16, set_free_upper,
  raw_free_upper, free_upper, slot_off, slot_len, slice, collect, pack, compact,
}
use chibidb.Storage.Slotted.Bytes.{length-write_u16, byte-write_u16, read-write_u16, slice_same}
use chibidb.Storage.Slotted.Layout.{total}
use chibidb.Storage.Slotted.Compact.{lookup, Packed, pack-Packed}
use chibidb.Storage.Slotted.Collect.{
  length-slice, held, row_if, lookup-collect, collect-HasOnce, collect_below, len_sum-live,
  slice_cong,
}

-- What compaction makes of a page.
pub record Compacted (p q : Page) : Type 0 where
  pub size : length q ≡ length p
  pub count : num_slots q ≡ num_slots p
  pub upper : free_upper q + total p (num_slots p) ≡ page_size
  pub dead :
      (j : ℕ)
      → j < num_slots p
      → slot_off p j ≡ 0
      → (slot_off q j ≡ 0) × (slot_len q j ≡ slot_len p j)
  pub alive :
      (j : ℕ)
      → j < num_slots p
      → slot_off p j ≢ 0
      → (free_upper q ≤ slot_off q j)
        × (slot_off q j + slot_len q j ≤ page_size)
        × (slot_len q j ≡ slot_len p j)
        × (slice q (slot_off q j) (slot_len q j) ≡ slice p (slot_off p j) (slot_len p j))

found :
    (p : Page) (j : ℕ)
    → j < num_slots p
    → slot_off p j ≢ 0
    → lookup j (collect (num_slots p) p 0) ≡ some (slice p (slot_off p j) (slot_len p j))
found p j l n = lookup-collect (num_slots p) p 0 j ∙ ap (λ (b : Bool). row_if b p j) on
  where
    on : held p 0 (0 + num_slots p) j ≡ true
    on = ground arith

missing : (p : Page) (j : ℕ) → slot_off p j ≡ 0 → lookup j (collect (num_slots p) p 0) ≡ none
missing p j z = lookup-collect (num_slots p) p 0 j ∙ ap (λ (b : Bool). row_if b p j) off
  where
    off : held p 0 (0 + num_slots p) j ≡ false
    off = ground (arith, z)

-- The words of a page once the bound of the rows is written.
bound_word :
    (r : Page) (w b : ℕ)
    → length r ≡ page_size
    → w ≤ page_size
    → b % 2 ≡ 0
    → read_u16 (write_u16 r 2 w) b ≡ (if 2 == b then w else read_u16 r b)
bound_word r w b hr hw eb = read-write_u16 r 2 w b refl eb (omega arith) (omega arith)

finish-Compacted :
    (p r : Page) (w : ℕ)
    → length p ≡ page_size
    → Packed p r page_size w (num_slots p) (collect (num_slots p) p 0)
    → header_size + num_slots p * slot_size ≤ w
    → w + total p (num_slots p) ≡ page_size
    → Compacted p (set_free_upper r w)
unfolding set_free_upper free_upper raw_free_upper num_slots slot_off slot_len
finish-Compacted p r w hp k hw sum = record {
  size = length-write_u16 r 2 w ∙ k.size;
  count = bound_word r w 0 hr le refl ∙ k.count;
  upper = ground (arith, bound_word r w 2 hr le refl);
  dead = λ j l z.
      (off j ∙ k.other_off j l (missing p j z) ∙ z, len j ∙ k.other_len j l (missing p j z));
  alive = λ j l n. (
    ground (arith, bound_word r w 2 hr le refl, off j, k.low j _ (found p j l n)),
    omega (arith, off j, len j, k.high j _ (found p j l n), k.long j _ (found p j l n)),
    len j ∙ k.long j _ (found p j l n) ∙ length-slice p _ _,
    moved j l n,
  );
}
  where
    hr : length r ≡ page_size
    hr = k.size ∙ hp

    le : w ≤ page_size
    le = omega arith

    off : (j : ℕ) → slot_off (write_u16 r 2 w) j ≡ slot_off r j
    off j = ground (arith, bound_word r w (header_size + j * slot_size) hr le)

    len : (j : ℕ) → slot_len (write_u16 r 2 w) j ≡ slot_len r j
    len j = ground (arith, bound_word r w (header_size + j * slot_size + 2) hr le)

    moved :
        (j : ℕ)
        → j < num_slots p
        → slot_off p j ≢ 0
        → slice (write_u16 r 2 w) (slot_off (write_u16 r 2 w) j) (slot_len (write_u16 r 2 w) j)
          ≡ slice p (slot_off p j) (slot_len p j)
    moved j l n =
        let row = found p j l n in
        slice_cong (write_u16 r 2 w) _ _ _ _ (off j) (len j ∙ k.long j _ row)
        ∙ slice_same (write_u16 r 2 w) r (slot_off r j) _ (λ i lo hi.
          byte-write_u16 r 2 w i (λ e. omega (arith, lo, k.low j _ row))
            (λ e. omega (arith, lo, k.low j _ row)))
        ∙ k.reads j _ row

pub compact-Compacted :
    (p : Page)
    → length p ≡ page_size
    → header_size + num_slots p * slot_size + total p (num_slots p) ≤ page_size
    → ((j : ℕ) → j < num_slots p → slot_off p j ≡ 0 → slot_len p j ≡ 0)
    → Compacted p (compact p)
unfolding compact set_free_upper
compact-Compacted p hp room empty =
    let n = num_slots p in
    let rows = collect n p 0 in
    let sum = len_sum-live p empty in
    let k =
      pack-Packed rows p page_size n hp (collect-HasOnce n p 0)
        (collect_below n p 0 n (omega arith)) (omega (arith, sum)) (omega arith) in
    finish-Compacted p (pack rows p page_size).0 (pack rows p page_size).1 hp k
      (omega (arith, sum, k.ends)) (omega (arith, sum, k.ends))
