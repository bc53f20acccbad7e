-- ===== src/Storage/Slotted/Put.antt =====
-- The page with a grown directory, and the page with a row put at its last slot.
use chibidb.Prelude.{
  ℕ, zero, suc, ◌+◌, ◌-◌, ◌*◌, ◌%◌, ◌≤◌, ◌<◌, ◌≡◌, ◌⊎◌, inl, inr, refl, sym, ap, ◌∙◌, true, false,
  ltb, leb, ◌==◌, ◌&&◌, if◌then◌else◌, List, none, some, length, get_or, Bool-cases, arith,
}
use chibidb.Prelude.Result.{ok}
use chibidb.Storage.Slotted.{
  page_size, header_size, slot_size, Page, read_u16, write_u16, num_slots, set_num_slots,
  raw_free_upper, set_free_upper, free_upper, slot_off, slot_len, set_slot, copy_at, slice,
  is_unused, page_get, clear_bytes,
}
use chibidb.Storage.Slotted.Bytes.{length-write_u16, length-copy_at, byte-write_u16, slice_same}
use chibidb.Storage.Slotted.Layout.{IsValid, After, total, total_same}
use chibidb.Storage.Slotted.Insert.{Fits}
use chibidb.Storage.Slotted.Grow.{
  length-clear_bytes, byte-clear_bytes_outside, copy_at_same, from, gap, grown, put, grown-word,
  put-word,
}

-- Slots without a length add nothing.
total_extend :
    (p q : Page) (n k : ℕ)
    → ((j : ℕ) → j < n → slot_len q j ≡ slot_len p j)
    → ((j : ℕ) → n ≤ j → j < n + k → slot_len q j ≡ 0)
    → total q (n + k) ≡ total p n
total_extend p q n zero same new =
    let e : n + 0 ≡ n = omega arith in ap (total q) e ∙ total_same p q n same
total_extend p q n (suc k) same new =
    let e : n + suc k ≡ suc (n + k) = omega arith in
    omega (
      arith,
      ap (total q) e,
      total_extend p q n k same (λ j lo hi. new j lo (omega arith)),
      new (n + k) (omega arith) (omega arith),
    )

module _ (p : Page) (slot off : ℕ) (row : List ℕ) (v : IsValid p) (past : num_slots p ≤ slot)
    (above : header_size + suc slot * slot_size ≤ off)
    (ends : off + length row ≡ free_upper p) where
  word :
      (b : ℕ)
      → b % 2 ≡ 0
      → read_u16 (grown p slot) b ≡ (
          if 0 == b
          then slot
          else if leb (from p) b && ltb b (from p + gap p slot)
          then 0
          else read_u16 p b)
  word = grown-word p slot off row v past above ends

  grown-length : length (grown p slot) ≡ length p
  unfolding grown set_num_slots
  grown-length =
      length-write_u16 (clear_bytes (gap p slot) p (from p)) 0 slot
      ∙ length-clear_bytes (gap p slot) p (from p)

  grown-count : num_slots (grown p slot) ≡ slot
  unfolding num_slots
  grown-count = ground (arith, word 0)

  grown-upper : free_upper (grown p slot) ≡ free_upper p
  unfolding free_upper raw_free_upper
  grown-upper = ground (arith, word 2)

  grown-old :
      (j : ℕ)
      → j < num_slots p
      → (slot_off (grown p slot) j ≡ slot_off p j) × (slot_len (grown p slot) j ≡ slot_len p j)
  unfolding slot_off slot_len
  grown-old j l = (
    ground (arith, word (header_size + j * slot_size)),
    ground (arith, word (header_size + j * slot_size + 2)),
  )

  grown-new :
      (j : ℕ)
      → num_slots p ≤ j
      → j < slot
      → (slot_off (grown p slot) j ≡ 0) × (slot_len (grown p slot) j ≡ 0)
  unfolding slot_off slot_len
  grown-new j lo hi = (
    ground (arith, word (header_size + j * slot_size)),
    ground (arith, word (header_size + j * slot_size + 2)),
  )

  grown-byte : (i : ℕ) → off ≤ i → get_or (grown p slot) i 0 ≡ get_or p i 0
  unfolding grown set_num_slots
  grown-byte i h =
      byte-write_u16 (clear_bytes (gap p slot) p (from p)) 0 slot i (λ e. omega arith)
        (λ e. omega arith)
      ∙ byte-clear_bytes_outside (gap p slot) p (from p) i (inr (omega arith))

  pub grown-IsValid : IsValid (grown p slot)
  grown-IsValid = record {
    size = grown-length ∙ v.size;
    room = omega (arith, grown-count, grown-upper);
    top = omega (arith, grown-upper, v.top);
    live = λ i l. elim (Bool-cases (ltb i (num_slots p))) [
      | inl h ↦ elim (v.live i (ground arith)) [
        | inl (x, y) ↦ inl ((grown-old i (ground arith)).0 ∙ x, (grown-old i (ground arith)).1 ∙ y)
        | inr (x, y) ↦ inr (
          omega (arith, grown-upper, (grown-old i (ground arith)).0),
          omega (arith, (grown-old i (ground arith)).0, (grown-old i (ground arith)).1),
        )
      ]
      | inr h ↦ inl (grown-new i (ground arith) (omega (arith, grown-count)))
    ];
    packed = omega (arith, ap (total (grown p slot)) grown-count, grown-upper, v.packed, whole);
  }
    where
      whole : total (grown p slot) slot ≡ total p (num_slots p)
      whole =
          let e : slot ≡ num_slots p + (slot - num_slots p) = omega arith in
          ap (total (grown p slot)) e
          ∙ total_extend p (grown p slot) (num_slots p) (slot - num_slots p)
              (λ j l. (grown-old j l).1) (λ j lo hi. (grown-new j lo (omega arith)).1)

  pub grown-page_get : (j : ℕ) → page_get (grown p slot) j ≡ page_get p j
  grown-page_get j = elim (Bool-cases (ltb j (num_slots p))) [
    | inl h ↦
        unfold page_get in
        rw
          (
            grown-count,
            (grown-old j (ground arith)).0,
            (grown-old j (ground arith)).1,
            shown h,
            shown_grown h,
          )
          (ap (λ (r : List ℕ). if is_unused p j then ok none else ok (some r))
            (row_kept (ground arith) (v.live j (ground arith))))
    | inr h ↦ elim (Bool-cases (ltb j slot)) [
      | inl k ↦
          let (x, y) = grown-new j (ground arith) (ground arith) in
          unfold page_get in ground (arith, x, y, grown-count)
      | inr k ↦ unfold page_get in ground (arith, grown-count)
    ]
  ]
    where
      shown : ltb j (num_slots p) ≡ true → leb (num_slots p) j ≡ false
      shown h = ground arith

      shown_grown : ltb j (num_slots p) ≡ true → leb slot j ≡ false
      shown_grown h = ground arith

      row_kept :
          j < num_slots p
          → ((slot_off p j ≡ 0) × (slot_len p j ≡ 0))
            ⊎ ((free_upper p ≤ slot_off p j) × (slot_off p j + slot_len p j ≤ page_size))
          → slice (grown p slot) (slot_off p j) (slot_len p j)
            ≡ slice p (slot_off p j) (slot_len p j)
      row_kept l (inl (x, y)) = rw y (unfold slice in refl)
      row_kept l (inr (x, y)) =
          slice_same (grown p slot) p (slot_off p j) (slot_len p j)
            (λ i lo hi. grown-byte i (omega arith))

  pub put-Fits : Fits (grown p slot) slot off (slot + 1) row
  put-Fits = record {
    inside = omega arith;
    old = λ j ne m. omega (arith, grown-count);
    kept = omega (arith, grown-count);
    ends = omega (arith, grown-upper);
    above = omega arith;
    vacant = unfold page_get in ground (arith, grown-count);
    spare = inr (sym grown-count, omega arith);
  }

  put_word_at :
      (b : ℕ)
      → b % 2 ≡ 0
      → b + 2 ≤ off
      → read_u16 (put p slot off row) b ≡ (
          if 2 == b
          then off
          else if header_size + slot * slot_size + 2 == b
          then length row
          else if header_size + slot * slot_size == b
          then off
          else if 0 == b
          then slot + 1
          else if leb (from p) b && ltb b (from p + gap p slot)
          then 0
          else read_u16 p b)
  put_word_at = put-word p slot off row v past above ends

  pub put-After : After (grown p slot) (put p slot off row) slot off (slot + 1) row
  unfolding put set_num_slots set_free_upper set_slot num_slots free_upper raw_free_upper slot_off
      slot_len
  put-After =
      let copied = copy_at p off row in
      let cleared = clear_bytes (gap p slot) copied (from p) in
      let counted = write_u16 cleared 0 (slot + 1) in
      let base = header_size + slot * slot_size in
      let placed = write_u16 counted base off in
      let sized = write_u16 placed (base + 2) (length row) in
      record {
        size =
            length-write_u16 sized 2 off
            ∙ length-write_u16 placed (base + 2) (length row)
            ∙ length-write_u16 counted base off
            ∙ length-write_u16 cleared 0 (slot + 1)
            ∙ length-clear_bytes (gap p slot) copied (from p)
            ∙ length-copy_at p off row
            ∙ v.size;
        count = ground (arith, put_word_at 0);
        upper = ground (arith, put_word_at 2);
        own_off = ground (arith, put_word_at (header_size + slot * slot_size));
        own_len = ground (arith, put_word_at (header_size + slot * slot_size + 2));
        other_off = λ j m l.
            ground (
              arith,
              put_word_at (header_size + j * slot_size),
              word (header_size + j * slot_size),
            );
        other_len = λ j m l. ground (
          arith,
          put_word_at (header_size + j * slot_size + 2),
          word (header_size + j * slot_size + 2),
        );
        rows = λ i l.
            byte-write_u16 sized 2 off i (λ e. omega arith) (λ e. omega arith)
            ∙ byte-write_u16 placed (base + 2) (length row) i (λ e. omega arith) (λ e. omega arith)
            ∙ byte-write_u16 counted base off i (λ e. omega arith) (λ e. omega arith)
            ∙ byte-write_u16 cleared 0 (slot + 1) i (λ e. omega arith) (λ e. omega arith)
            ∙ byte-clear_bytes_outside (gap p slot) copied (from p) i (inr (omega arith))
            ∙ copy_at_same p (grown p slot) off row i (sym grown-length) (sym (grown-byte i l));
      }
