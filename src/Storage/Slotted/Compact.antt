-- ===== src/Storage/Slotted/Compact.antt =====
-- Compaction: the live rows are written back from the end of the page, and read as before.
use chibidb.Prelude.{
  ℕ, ◌+◌, ◌-◌, ◌*◌, ◌≤◌, ◌<◌, ◌≡◌, ◌≢◌, inl, inr, refl, subst, ap, ◌∙◌, true, ◌==◌, if◌then◌else◌,
  List, [], ◌∷◌, Option, none, some, length, get_or, All, Bool-cases, arith,
}
use chibidb.Storage.Slotted.{
  page_size, header_size, slot_size, Page, num_slots, slot_off, slot_len, copy_at, slice, fill,
  pack,
}
use chibidb.Storage.Slotted.Bytes.{byte-copy_at, slice-copy_at, slice_same}
use chibidb.Storage.Slotted.Layout.{length-fill, read-fill, byte-fill}

abbrev pub Rows : Type 0
Rows = List (ℕ × List ℕ)

abbrev pub lookup : ℕ → Rows → Option (List ℕ)
lookup j [] = none
lookup j ((i, row) ∷ rows) = if i == j then some row else lookup j rows

abbrev pub len_sum : Rows → ℕ
len_sum [] = 0
len_sum ((i, row) ∷ rows) = length row + len_sum rows

abbrev pub HasOnce : Rows → Type 0
HasOnce [] = Unit
HasOnce ((i, row) ∷ rows) = (lookup i rows ≡ none) × HasOnce rows

-- The page `q` is `p` with `rows` between `w` and `u`; there are `n` slots.
pub record Packed (p q : Page) (u w n : ℕ) (rows : Rows) : Type 0 where
  pub size : length q ≡ length p
  pub count : num_slots q ≡ num_slots p
  pub ends : w + len_sum rows ≡ u
  pub above : (i : ℕ) → u ≤ i → get_or q i 0 ≡ get_or p i 0
  pub other_off : (j : ℕ) → j < n → lookup j rows ≡ none → slot_off q j ≡ slot_off p j
  pub other_len : (j : ℕ) → j < n → lookup j rows ≡ none → slot_len q j ≡ slot_len p j
  pub low : (j : ℕ) (row : List ℕ) → lookup j rows ≡ some row → w ≤ slot_off q j
  pub high : (j : ℕ) (row : List ℕ) → lookup j rows ≡ some row → slot_off q j + length row ≤ u
  pub long : (j : ℕ) (row : List ℕ) → lookup j rows ≡ some row → slot_len q j ≡ length row
  pub reads :
      (j : ℕ) (row : List ℕ) → lookup j rows ≡ some row → slice q (slot_off q j) (length row) ≡ row

-- The words of a page after a row was put into a slot.
record Filled (p q : Page) (slot off n : ℕ) (row : List ℕ) : Type 0 where
  size : length q ≡ length p
  count : num_slots q ≡ num_slots p
  own_off : slot_off q slot ≡ off
  own_len : slot_len q slot ≡ length row
  other_off : (j : ℕ) → j ≢ slot → j < n → slot_off q j ≡ slot_off p j
  other_len : (j : ℕ) → j ≢ slot → j < n → slot_len q j ≡ slot_len p j
  rows : (i : ℕ) → off ≤ i → get_or q i 0 ≡ get_or (copy_at p off row) i 0

fill-Filled :
    (p : Page) (slot off n : ℕ) (row : List ℕ)
    → length p ≡ page_size
    → off + length row ≤ page_size
    → slot < n
    → header_size + n * slot_size ≤ off
    → Filled p (fill p slot off row) slot off n row
unfolding num_slots slot_off slot_len
fill-Filled p slot off n row hp hr hs hd = record {
  size = length-fill p slot off row;
  count = ground (arith, read-fill p slot off 0 row hp hr (omega arith) refl (omega arith));
  own_off = ground (
    arith,
    read-fill p slot off (header_size + slot * slot_size) row hp hr (omega arith) (omega arith)
        (omega arith),
  );
  own_len = ground (
    arith,
    read-fill p slot off (header_size + slot * slot_size + 2) row hp hr (omega arith) (omega arith)
        (omega arith),
  );
  other_off = λ j m l. ground (
    arith,
    read-fill p slot off (header_size + j * slot_size) row hp hr (omega arith) (omega arith)
        (omega arith),
  );
  other_len = λ j m l. ground (
    arith,
    read-fill p slot off (header_size + j * slot_size + 2) row hp hr (omega arith) (omega arith)
        (omega arith),
  );
  rows = λ i l. byte-fill p slot off i row (omega arith);
}

Packed-step :
    (p p' q : Page) (u off w n i : ℕ) (row : List ℕ) (rows : Rows)
    → length p ≡ page_size
    → off + length row ≡ u
    → u ≤ page_size
    → i < n
    → lookup i rows ≡ none
    → Filled p p' i off n row
    → Packed p' q off w n rows
    → Packed p q u w n ((i, row) ∷ rows)
Packed-step p p' q u off w n i row rows hp hu top hi once f k = record {
  size = k.size ∙ f.size;
  count = k.count ∙ f.count;
  ends = omega (arith, k.ends);
  above = λ x l.
      k.above x (omega arith)
      ∙ f.rows x (omega arith)
      ∙ byte-copy_at p off row x (inr (omega arith));
  other_off = λ j l e. elim (Bool-cases (i == j)) [
    | inl s ↦ absurd (let r = rw s at e in ground arith)
    | inr s ↦ k.other_off j l (rw s at e) ∙ f.other_off j (λ z. ground arith) l
  ];
  other_len = λ j l e. elim (Bool-cases (i == j)) [
    | inl s ↦ absurd (let r = rw s at e in ground arith)
    | inr s ↦ k.other_len j l (rw s at e) ∙ f.other_len j (λ z. ground arith) l
  ];
  low = λ j r e. elim (Bool-cases (i == j)) [
    | inl s ↦ omega (arith, own_off j s, k.ends)
    | inr s ↦ k.low j r (rw s at e)
  ];
  high = λ j r e. elim (Bool-cases (i == j)) [
    | inl s ↦ omega (arith, own_off j s, ap length (same_row j r s e))
    | inr s ↦ omega (arith, k.high j r (rw s at e))
  ];
  long = λ j r e. elim (Bool-cases (i == j)) [
    | inl s ↦ omega (arith, own_len j s, ap length (same_row j r s e))
    | inr s ↦ k.long j r (rw s at e)
  ];
  reads = λ j r e. elim (Bool-cases (i == j)) [
    | inl s ↦
        rw (own_off j s)
          (subst (λ (l : List ℕ). slice q off (length l) ≡ l) (same_row j r s e) own_row)
    | inr s ↦ k.reads j r (rw s at e)
  ];
}
  where
    own_off : (j : ℕ) → (i == j) ≡ true → slot_off q j ≡ off
    own_off j s =
        subst (λ (x : ℕ). slot_off q x ≡ off) (ground arith) (k.other_off i hi once ∙ f.own_off)

    own_len : (j : ℕ) → (i == j) ≡ true → slot_len q j ≡ length row
    own_len j s =
        subst (λ (x : ℕ). slot_len q x ≡ length row) (ground arith)
          (k.other_len i hi once ∙ f.own_len)

    same_row :
        (j : ℕ) (r : List ℕ) → (i == j) ≡ true → lookup j ((i, row) ∷ rows) ≡ some r → row ≡ r
    same_row j r s e = let z = rw s at e in cc

    own_row : slice q off (length row) ≡ row
    own_row =
        slice_same q (copy_at p off row) off (length row) (λ x l h. k.above x l ∙ f.rows x l)
        ∙ slice-copy_at p off row (omega arith)

pub pack-Packed :
    (rows : Rows) (p : Page) (u n : ℕ)
    → length p ≡ page_size
    → HasOnce rows
    → All (λ (e : ℕ × List ℕ). e.0 < n) rows
    → header_size + n * slot_size + len_sum rows ≤ u
    → u ≤ page_size
    → Packed p (pack rows p u).0 u (pack rows p u).1 n rows
unfolding pack
pack-Packed [] p u n hp once below room top = record {
  size = refl;
  count = refl;
  ends = omega arith;
  above = λ i l. refl;
  other_off = λ j l e. refl;
  other_len = λ j l e. refl;
  low = λ j r e. absurd (ground arith);
  high = λ j r e. absurd (ground arith);
  long = λ j r e. absurd (ground arith);
  reads = λ j r e. absurd (ground arith);
}
pack-Packed ((i, row) ∷ rows) p u n hp (new, once) (hi, below) room top =
    let off = u - length row in
    Packed-step p (fill p i off row) _ u off _ n i row rows hp (omega arith) top hi new
      (fill-Filled p i off n row hp (omega arith) hi (omega arith))
      (pack-Packed rows (fill p i off row) off n (length-fill p i off row ∙ hp) once below
        (omega arith) (omega arith))
