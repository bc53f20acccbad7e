-- ===== src/Storage/Slotted/Layout.antt =====
-- The layout of a page, and of the page after a row was put into a slot.
use chibidb.Prelude.{
  ℕ, zero, suc, ◌+◌, ◌*◌, ◌%◌, ◌≤◌, ◌<◌, ◌≡◌, ◌≢◌, ◌⊎◌, refl, ap, ◌∙◌, ◌==◌, if◌then◌else◌,
  ℕ_discrete, List, length, get_or, arith,
}
use chibidb.Storage.Slotted.{
  page_size, header_size, slot_size, Page, read_u16, write_u16, num_slots, set_num_slots,
  raw_free_upper, set_free_upper, free_upper, slot_off, slot_len, set_slot, copy_at, fill,
}
use chibidb.Storage.Slotted.Bytes.{
  length-write_u16, length-copy_at, byte-write_u16, read-write_u16, read_u16-copy_at,
}

-- The lengths of the first `n` slots together.
abbrev pub total : Page → ℕ → ℕ
total p zero = 0
total p (suc n) = total p n + slot_len p n

pub total_same :
    (p q : Page) (n : ℕ) → ((j : ℕ) → j < n → slot_len q j ≡ slot_len p j) → total q n ≡ total p n
total_same p q zero h = refl
total_same p q (suc n) h =
    omega (arith, total_same p q n (λ j l. h j (omega arith)), h n (omega arith))

pub total-put :
    (p q : Page) (slot n : ℕ)
    → slot < n
    → ((j : ℕ) → j ≢ slot → j < n → slot_len q j ≡ slot_len p j)
    → total q n + slot_len p slot ≡ total p n + slot_len q slot
total-put p q slot zero l h = absurd (omega arith)
total-put p q slot (suc n) l h = elim (ℕ_discrete n slot) [
  | yes e ↦ omega (
    arith,
    total_same p q n (λ j m. h j (λ z. omega arith) (omega arith)),
    ap (slot_len p) e,
    ap (slot_len q) e,
  )
  | no ne ↦ omega (
    arith,
    total-put p q slot n (omega arith) (λ j z m. h j z (omega arith)),
    h n ne (omega arith),
  )
]

-- The directory ends before the rows begin; a slot is empty, or its row lies between there and the
-- end of the page. The rows take no more room than there is behind the directory's free space.
pub record IsValid (p : Page) : Type 0 where
  pub size : length p ≡ page_size
  pub room : header_size + num_slots p * slot_size ≤ free_upper p
  pub top : free_upper p ≤ page_size
  pub live :
      (i : ℕ)
      → i < num_slots p
      → ((slot_off p i ≡ 0) × (slot_len p i ≡ 0))
        ⊎ ((free_upper p ≤ slot_off p i) × (slot_off p i + slot_len p i ≤ page_size))
  pub packed : total p (num_slots p) + free_upper p ≤ page_size

-- The page `q` is `p` with a row at `off` in `slot`, and has `n` slots.
pub record After (p q : Page) (slot off n : ℕ) (row : List ℕ) : Type 0 where
  pub size : length q ≡ page_size
  pub count : num_slots q ≡ n
  pub upper : free_upper q ≡ off
  pub own_off : slot_off q slot ≡ off
  pub own_len : slot_len q slot ≡ length row
  pub other_off : (j : ℕ) → j ≢ slot → j < n → slot_off q j ≡ slot_off p j
  pub other_len : (j : ℕ) → j ≢ slot → j < n → slot_len q j ≡ slot_len p j
  pub rows : (i : ℕ) → off ≤ i → get_or q i 0 ≡ get_or (copy_at p off row) i 0

pub length-fill : (p : Page) (slot off : ℕ) (row : List ℕ) → length (fill p slot off row) ≡ length p
unfolding fill set_slot
length-fill p slot off row =
    length-write_u16 (write_u16 (copy_at p off row) (header_size + slot * slot_size) off)
      (header_size + slot * slot_size + 2) (length row)
    ∙ length-write_u16 (copy_at p off row) (header_size + slot * slot_size) off
    ∙ length-copy_at p off row

pub read-fill :
    (p : Page) (slot off b : ℕ) (row : List ℕ)
    → length p ≡ page_size
    → off + length row ≤ page_size
    → header_size + suc slot * slot_size ≤ off
    → b % 2 ≡ 0
    → b + 2 ≤ off
    → read_u16 (fill p slot off row) b ≡ (
        if header_size + slot * slot_size + 2 == b
        then length row
        else if header_size + slot * slot_size == b
        then off
        else read_u16 p b)
unfolding fill set_slot
read-fill p slot off b row hp hr hs eb hb =
    let base = header_size + slot * slot_size in
    let copied = copy_at p off row in
    ground (
      arith,
      read-write_u16 (write_u16 copied base off) (base + 2) (length row) b (omega arith) eb
          (omega (arith, length-write_u16 copied base off, length-copy_at p off row)),
      read-write_u16 copied base off b (omega arith) eb (omega (arith, length-copy_at p off row)),
      read_u16-copy_at p off row b hb,
    )

pub byte-fill :
    (p : Page) (slot off i : ℕ) (row : List ℕ)
    → header_size + suc slot * slot_size ≤ i
    → get_or (fill p slot off row) i 0 ≡ get_or (copy_at p off row) i 0
unfolding fill set_slot
byte-fill p slot off i row h =
    byte-write_u16 (write_u16 (copy_at p off row) (header_size + slot * slot_size) off)
      (header_size + slot * slot_size + 2) (length row) i (λ e. omega arith) (λ e. omega arith)
    ∙ byte-write_u16 (copy_at p off row) (header_size + slot * slot_size) off i (λ e. omega arith)
        (λ e. omega arith)

pub reused-After :
    (p : Page) (slot off : ℕ) (row : List ℕ)
    → length p ≡ page_size
    → slot < num_slots p
    → off + length row ≤ page_size
    → header_size + num_slots p * slot_size ≤ off
    → After p (set_free_upper (fill p slot off row) off) slot off (num_slots p) row
unfolding set_free_upper num_slots free_upper raw_free_upper slot_off slot_len
reused-After p slot off row hp hs hr hd = record {
  size = length-write_u16 (fill p slot off row) 2 off ∙ length-fill p slot off row ∙ hp;
  count = ground (arith, word 0);
  upper = ground (arith, word 2);
  own_off = ground (arith, word (header_size + slot * slot_size));
  own_len = ground (arith, word (header_size + slot * slot_size + 2));
  other_off = λ j n l. ground (arith, word (header_size + j * slot_size));
  other_len = λ j n l. ground (arith, word (header_size + j * slot_size + 2));
  rows = λ i l.
      byte-write_u16 (fill p slot off row) 2 off i (λ e. omega arith) (λ e. omega arith)
      ∙ byte-fill p slot off i row (omega arith);
}
  where
    word :
        (b : ℕ)
        → b % 2 ≡ 0
        → b + 2 ≤ off
        → read_u16 (write_u16 (fill p slot off row) 2 off) b ≡ (
            if 2 == b
            then off
            else if header_size + slot * slot_size + 2 == b
            then length row
            else if header_size + slot * slot_size == b
            then off
            else read_u16 p b)
    word b eb hb = ground (
      arith,
      read-write_u16 (fill p slot off row) 2 off b refl eb
          (omega (arith, length-fill p slot off row)),
      read-fill p slot off b row hp hr (omega arith) eb hb,
    )

pub fresh-After :
    (p : Page) (off : ℕ) (row : List ℕ)
    → length p ≡ page_size
    → off + length row ≤ page_size
    → header_size + suc (num_slots p) * slot_size ≤ off
    → After p
        (set_free_upper (set_num_slots (fill p (num_slots p) off row) (num_slots p + 1)) off)
        (num_slots p)
        off
        (num_slots p + 1)
        row
unfolding set_free_upper set_num_slots num_slots free_upper raw_free_upper slot_off slot_len
fresh-After p off row hp hr hd =
    let n = read_u16 p 0 in
    let filled = fill p n off row in
    record {
      size =
          length-write_u16 (write_u16 filled 0 (n + 1)) 2 off
          ∙ length-write_u16 filled 0 (n + 1)
          ∙ length-fill p n off row
          ∙ hp;
      count = ground (arith, word 0);
      upper = ground (arith, word 2);
      own_off = ground (arith, word (header_size + n * slot_size));
      own_len = ground (arith, word (header_size + n * slot_size + 2));
      other_off = λ j m l. ground (arith, word (header_size + j * slot_size));
      other_len = λ j m l. ground (arith, word (header_size + j * slot_size + 2));
      rows = λ i l.
          byte-write_u16 (write_u16 filled 0 (n + 1)) 2 off i (λ e. omega arith) (λ e. omega arith)
          ∙ byte-write_u16 filled 0 (n + 1) i (λ e. omega arith) (λ e. omega arith)
          ∙ byte-fill p n off i row (omega arith);
    }
  where
    word :
        (b : ℕ)
        → b % 2 ≡ 0
        → b + 2 ≤ off
        → read_u16
            (write_u16 (write_u16 (fill p (read_u16 p 0) off row) 0 (read_u16 p 0 + 1)) 2 off)
            b
          ≡ (if 2 == b
              then off
              else if 0 == b
              then read_u16 p 0 + 1
              else if header_size + read_u16 p 0 * slot_size + 2 == b
              then length row
              else if header_size + read_u16 p 0 * slot_size == b
              then off
              else read_u16 p b)
    word b eb hb =
        let n = read_u16 p 0 in
        let filled = fill p n off row in
        ground (
          arith,
          read-write_u16 (write_u16 filled 0 (n + 1)) 2 off b refl eb
              (omega (arith, length-write_u16 filled 0 (n + 1), length-fill p n off row)),
          read-write_u16 filled 0 (n + 1) b refl eb (omega (arith, length-fill p n off row)),
          read-fill p n off b row hp hr (omega arith) eb hb,
        )
