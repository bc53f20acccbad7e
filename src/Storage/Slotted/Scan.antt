-- ===== src/Storage/Slotted/Scan.antt =====
-- The scan of a page gives what the lookups of its slots give.
use chibidb.Prelude.{
  ℕ, zero, suc, ◌+◌, ◌≡◌, refl, sym, ap, ◌∙◌, inl, inr, Bool, true, false, not, leb, ltb, ◌==◌,
  ◌&&◌, if◌then◌else◌, List, Option, none, some, Bool-cases, ℕ_discrete, arith,
}
use chibidb.Prelude.Result.{ok}
use chibidb.Storage.Slotted.{
  Page, num_slots, slot_off, slot_len, slice, is_unused, page_get, slots_from, page_slots, rows_at,
  page_iter,
}
use chibidb.Storage.Slotted.Compact.{lookup}

-- The row of slot `j`, if that is among the slots from `i` on.
abbrev scanned : Page → ℕ → ℕ → ℕ → Bool
scanned p i last j = leb i j && ltb j last && not (is_unused p j)

abbrev row_when : Bool → Page → ℕ → Option (List ℕ)
row_when b p j = if b then some (slice p (slot_off p j) (slot_len p j)) else none

lookup-slots_from :
    (left : ℕ) (p : Page) (i j : ℕ)
    → lookup j (rows_at p (slots_from left p i)) ≡ row_when (scanned p i (i + left) j) p j
unfolding slots_from rows_at
lookup-slots_from zero p i j = ap (λ (b : Bool). row_when b p j) nothing
  where
    nothing : false ≡ scanned p i (i + 0) j
    nothing = ground arith
lookup-slots_from (suc left) p i j = elim (Bool-cases (is_unused p i)) [
  | inl z ↦
      rw z (lookup-slots_from left p (i + 1) j ∙ ap (λ (b : Bool). row_when b p j) (skipped z))
  | inr z ↦ rw z (elim (Bool-cases (i == j)) [
    | inl s ↦
        rw s (
          ap (λ (x : ℕ). row_when true p x) (same s) ∙ ap (λ (b : Bool). row_when b p j) (mine z s))
    | inr s ↦
        rw s (lookup-slots_from left p (i + 1) j ∙ ap (λ (b : Bool). row_when b p j) (later s))
  ])
]
  where
    same : (i == j) ≡ true → i ≡ j
    same s = ground arith

    skipped :
        is_unused p i ≡ true → scanned p (i + 1) (i + 1 + left) j ≡ scanned p i (i + suc left) j
    skipped z = elim (ℕ_discrete i j) [
      | yes e ↦ ground (arith, ap (is_unused p) e)
      | no n ↦ ground arith
    ]

    mine : is_unused p i ≡ false → (i == j) ≡ true → true ≡ scanned p i (i + suc left) j
    mine z s = ground (arith, ap (is_unused p) (same s))

    later : (i == j) ≡ false → scanned p (i + 1) (i + 1 + left) j ≡ scanned p i (i + suc left) j
    later s = ground arith

-- The scan of any page holds, for each slot, the row that a lookup of the slot gives, and nothing
-- for a slot that holds no row.
pub page_iter-page_get : (p : Page) (j : ℕ) → page_get p j ≡ ok (lookup j (page_iter p))
unfolding page_iter page_slots
page_iter-page_get p j =
    got ∙ sym (ap (λ (r : Option (List ℕ)). ok r) (lookup-slots_from (num_slots p) p 0 j))
  where
    none_got : leb (num_slots p) j ≡ true → page_get p j ≡ ok none
    none_got h = unfold page_get in rw h refl

    unused_got : leb (num_slots p) j ≡ false → is_unused p j ≡ true → page_get p j ≡ ok none
    unused_got h z = unfold page_get in rw (h, z) refl

    row_got :
        leb (num_slots p) j ≡ false
        → is_unused p j ≡ false
        → page_get p j ≡ ok (some (slice p (slot_off p j) (slot_len p j)))
    row_got h z = unfold page_get in rw (h, z) refl

    past : leb (num_slots p) j ≡ true → false ≡ scanned p 0 (0 + num_slots p) j
    past h = ground arith

    dead : is_unused p j ≡ true → false ≡ scanned p 0 (0 + num_slots p) j
    dead z = ground arith

    alive :
        leb (num_slots p) j ≡ false → is_unused p j ≡ false → true ≡ scanned p 0 (0 + num_slots p) j
    alive h z = ground arith

    got : page_get p j ≡ ok (row_when (scanned p 0 (0 + num_slots p) j) p j)
    got = elim (Bool-cases (leb (num_slots p) j)) [
      | inl out ↦ none_got out ∙ ap (λ (b : Bool). ok (row_when b p j)) (past out)
      | inr in_page ↦ elim (Bool-cases (is_unused p j)) [
        | inl z ↦ unused_got in_page z ∙ ap (λ (b : Bool). ok (row_when b p j)) (dead z)
        | inr z ↦ row_got in_page z ∙ ap (λ (b : Bool). ok (row_when b p j)) (alive in_page z)
      ]
    ]
