-- ===== src/Storage/Slotted/Collect.antt =====
-- The live rows of a page, as compaction gathers them.
use chibidb.Prelude.{
  ℕ, zero, suc, ◌+◌, ◌≤◌, ◌<◌, ◌≡◌, inl, inr, refl, ap, ◌∙◌, Bool, true, false, ltb, leb, ◌==◌,
  if◌then◌else◌, ℕ_discrete, List, Option, none, some, length, All, Bool-cases, arith, not, ◌&&◌,
}
use chibidb.Storage.Slotted.{Page, num_slots, slot_off, slot_len, slice, collect}
use chibidb.Storage.Slotted.Layout.{total}
use chibidb.Storage.Slotted.Compact.{lookup, len_sum, HasOnce}

pub length-slice : (p : Page) (off len : ℕ) → length (slice p off len) ≡ len
unfolding slice
length-slice p off zero = refl
length-slice p off (suc len) = ap suc (length-slice p (off + 1) len)

-- Whether slot `j` is live and among the slots from `i` on, before `last`.
abbrev pub held : Page → ℕ → ℕ → ℕ → Bool
held p i last j = leb i j && ltb j last && not (slot_off p j == 0)

abbrev pub row_if : Bool → Page → ℕ → Option (List ℕ)
row_if b p j = if b then some (slice p (slot_off p j) (slot_len p j)) else none

pub lookup-collect :
    (left : ℕ) (p : Page) (i j : ℕ)
    → lookup j (collect left p i) ≡ row_if (held p i (i + left) j) p j
unfolding collect
lookup-collect zero p i j = ap (λ (b : Bool). row_if b p j) nothing
  where
    nothing : false ≡ held p i (i + 0) j
    nothing = ground arith
lookup-collect (suc left) p i j = elim (Bool-cases (slot_off p i == 0)) [
  | inl z ↦ rw z (lookup-collect left p (i + 1) j ∙ ap (λ (b : Bool). row_if b p j) (skipped z))
  | inr z ↦ rw z (elim (Bool-cases (i == j)) [
    | inl s ↦
        rw s (ap (λ (x : ℕ). row_if true p x) (same s) ∙ ap (λ (b : Bool). row_if b p j) (mine z s))
    | inr s ↦ rw s (lookup-collect left p (i + 1) j ∙ ap (λ (b : Bool). row_if b p j) (later s))
  ])
]
  where
    same : (i == j) ≡ true → i ≡ j
    same s = ground arith

    skipped :
        (slot_off p i == 0) ≡ true → held p (i + 1) (i + 1 + left) j ≡ held p i (i + suc left) j
    skipped z = elim (ℕ_discrete i j) [
      | yes e ↦ ground (arith, ap (slot_off p) e)
      | no n ↦ ground arith
    ]

    mine : (slot_off p i == 0) ≡ false → (i == j) ≡ true → true ≡ held p i (i + suc left) j
    mine z s = ground (arith, ap (slot_off p) (same s))

    later : (i == j) ≡ false → held p (i + 1) (i + 1 + left) j ≡ held p i (i + suc left) j
    later s = ground arith

pub collect-HasOnce : (left : ℕ) (p : Page) (i : ℕ) → HasOnce (collect left p i)
unfolding collect
collect-HasOnce zero p i = tt
collect-HasOnce (suc left) p i = elim (Bool-cases (slot_off p i == 0)) [
  | inl z ↦ rw z (collect-HasOnce left p (i + 1))
  | inr z ↦ rw z (
    lookup-collect left p (i + 1) i ∙ ap (λ (b : Bool). row_if b p i) past,
    collect-HasOnce left p (i + 1),
  )
]
  where
    past : held p (i + 1) (i + 1 + left) i ≡ false
    past = ground arith

pub collect_below :
    (left : ℕ) (p : Page) (i n : ℕ)
    → i + left ≤ n
    → All (λ (e : ℕ × List ℕ). e.0 < n) (collect left p i)
unfolding collect
collect_below zero p i n h = tt
collect_below (suc left) p i n h = elim (Bool-cases (slot_off p i == 0)) [
  | inl z ↦ rw z (collect_below left p (i + 1) n (omega arith))
  | inr z ↦ rw z (omega arith, collect_below left p (i + 1) n (omega arith))
]

pub len_sum-collect :
    (left : ℕ) (p : Page) (i : ℕ)
    → ((j : ℕ) → j < i + left → slot_off p j ≡ 0 → slot_len p j ≡ 0)
    → len_sum (collect left p i) + total p i ≡ total p (i + left)
unfolding collect
len_sum-collect zero p i h = let e : i ≡ i + 0 = omega arith in omega (arith, ap (total p) e)
len_sum-collect (suc left) p i h =
    let rest = len_sum-collect left p (i + 1) (λ j l. h j (omega arith)) in
    elim (Bool-cases (slot_off p i == 0)) [
      | inl z ↦ rw z (omega (arith, rest, h i (omega arith) (ground arith), shift, one_more))
      | inr z ↦
          rw z (omega (arith, rest, length-slice p (slot_off p i) (slot_len p i), shift, one_more))
    ]
  where
    shift : total p (i + 1 + left) ≡ total p (i + suc left)
    shift = let e : i + 1 + left ≡ i + suc left = omega arith in ap (total p) e

    one_more : total p (i + 1) ≡ total p i + slot_len p i
    one_more = let e : i + 1 ≡ suc i = omega arith in ap (total p) e

pub slice_cong : (p : Page) (a b m n : ℕ) → a ≡ b → m ≡ n → slice p a m ≡ slice p b n
slice_cong p a b m n e f = cc

pub len_sum-live :
    (p : Page)
    → ((j : ℕ) → j < num_slots p → slot_off p j ≡ 0 → slot_len p j ≡ 0)
    → len_sum (collect (num_slots p) p 0) ≡ total p (num_slots p)
len_sum-live p empty =
    let e : 0 + num_slots p ≡ num_slots p = omega arith in
    omega (arith, len_sum-collect (num_slots p) p 0 (λ j l. empty j (omega arith)), ap (total p) e)
