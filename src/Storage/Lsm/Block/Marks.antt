-- ===== src/Storage/Lsm/Block/Marks.antt =====
-- Where the restarts of a builder point: each at an entry that shares nothing with the one before it.
use chibidb.Prelude.{
  ℕ, ◌+◌, ◌%◌, ◌^◌, ◌≤◌, ◌<◌, ◌≡◌, refl, ap, ◌⊎◌, inl, inr, true, false, ltb, List, [], ◌∷◌, ◌++◌,
  length, In, length-append, Bool-cases, arith, sym, ◌∙◌,
}
use mathlib.Core.List.{append_assoc, append-nil}
use chibidb.Storage.Lsm.Block.{BlockBuilder, new_builder, common_prefix, add_entry, is_empty}
use chibidb.Storage.Lsm.Block.Entries.{Item, item_bytes, items_bytes}
use chibidb.Storage.Lsm.Block.Build.{
  Fit, add_all, item_of, items_of, buffer-add_entry, buffer-add_all,
}
use chibidb.Storage.Lsm.Block.Get.{Split}

pub is_empty-length : (xs : List ℕ) → is_empty xs ≡ true → length xs ≡ 0
is_empty-length [] h = refl
is_empty-length (x ∷ xs) h = ground (arith, h)

pub is_empty_pos : (xs : List ℕ) → is_empty xs ≡ false → 1 ≤ length xs
is_empty_pos [] h = ground (arith, h)
is_empty_pos (x ∷ xs) h = omega arith

pub length-items_pos : (items : List Item) → 1 ≤ length (items_bytes items) → items ≡ [] → ⊥
unfolding items_bytes
length-items_pos [] h e = elim h [ ]
length-items_pos (i ∷ items) h e = ground (arith, e)

In-append_last : (r y : ℕ) (xs : List ℕ) → In r (xs ++ (y ∷ [])) → In r xs ⊎ (r ≡ y)
In-append_last r y [] (inl e) = inr e
In-append_last r y [] (inr i) = elim i [ ]
In-append_last r y (x ∷ xs) (inl e) = inl (inl e)
In-append_last r y (x ∷ xs) (inr i) = elim (In-append_last r y xs i) [
  | inl j ↦ inl (inr j)
  | inr e ↦ inr e
]

-- The entries of a run from one that shares nothing on, where the run's bytes begin at `start`.
unfoldable After : ℕ → List Item → ℕ → Type 0
After start items r =
    (front : List Item) × (i : Item) × (back : List Item) × (items ≡ front ++ (i ∷ back))
    × (r ≡ start + length (items_bytes front))
    × (i.common ≡ 0)

restarts-add_entry :
    (b : BlockBuilder) (key value : List ℕ) (later : List Item) (r : ℕ)
    → length (b.buffer) < 2 ^ 32
    → In r ((add_entry b key value).restarts)
    → In r (b.restarts) ⊎ After (length (b.buffer)) (item_of b key value ∷ later) r
unfolding add_entry After items_bytes
restarts-add_entry b key value later r short there =
    elim (Bool-cases (ltb (b.counter) (b.restart_interval))) [
      | inl c ↦ inl (rw c at there)
      | inr c ↦ elim (In-append_last r (length (b.buffer) % 2 ^ 32) (b.restarts) (rw c at there)) [
        | inl old ↦ inl old
        | inr e ↦ inr ([], item_of b key value, later, refl, omega (arith, e, short), rw c refl)
      ]
    ]

After-cons :
    (start next : ℕ) (i : Item) (items : List Item) (r : ℕ)
    → next ≡ start + length (item_bytes i)
    → After next items r
    → After start (i ∷ items) r
unfolding After items_bytes
After-cons start next i items r at (front, j, back, e, place, zeroth) = (
  i ∷ front,
  j,
  back,
  ap (λ (all : List Item). i ∷ all) e,
  omega (arith, place, at, length-append (item_bytes i) (items_bytes front)),
  zeroth,
)

restarts-add_all :
    (b : BlockBuilder) (kvs : List (List ℕ × List ℕ)) (r : ℕ)
    → Fit kvs
    → length ((add_all b kvs).buffer) < 2 ^ 32
    → In r ((add_all b kvs).restarts)
    → In r (b.restarts) ⊎ After (length (b.buffer)) (items_of b kvs) r
unfolding add_all items_of Fit
restarts-add_all b [] r fit short there = inl there
restarts-add_all b ((key, value) ∷ kvs) r (small, fits, rest) short there =
    let next = add_entry b key value in
    let i = item_of b key value in
    let size = ap length (buffer-add_all next kvs rest) in
    let sum = length-append (next.buffer) (items_bytes (items_of next kvs)) in
    let grown = ap length (buffer-add_entry b key value small fits) in
    let step = length-append (b.buffer) (item_bytes i) in
    elim (restarts-add_all next kvs r rest short there) [
      | inl old ↦
          restarts-add_entry b key value (items_of next kvs) r
            (omega (arith, short, size, sum, grown, step)) old
      | inr new ↦ inr (
          After-cons (length (b.buffer)) (length (next.buffer)) i (items_of next kvs) r
            (omega (arith, grown, step)) new)
    ]

grow_once :
    (b : BlockBuilder) (key value : List ℕ)
    → (one : List ℕ) × ((add_entry b key value).restarts ≡ b.restarts ++ one)
unfolding add_entry
grow_once b key value = elim (Bool-cases (ltb (b.counter) (b.restart_interval))) [
  | inl c ↦ ([], rw c (sym (append-nil (b.restarts))))
  | inr c ↦ (length (b.buffer) % 2 ^ 32 ∷ [], rw c refl)
]

-- The restarts of a builder stay, and others follow them.
pub restarts_grow :
    (b : BlockBuilder) (kvs : List (List ℕ × List ℕ))
    → (more : List ℕ) × ((add_all b kvs).restarts ≡ b.restarts ++ more)
unfolding add_all
restarts_grow b [] = ([], sym (append-nil (b.restarts)))
restarts_grow b ((key, value) ∷ kvs) =
    let (more, e) = restarts_grow (add_entry b key value) kvs in
    let (one, f) = grow_once b key value in
    (one ++ more, e ∙ ap (λ (rs : List ℕ). rs ++ more) f ∙ append_assoc (b.restarts) one more)

pub restarts-new :
    (interval : ℕ) (kvs : List (List ℕ × List ℕ))
    → Fit kvs
    → length ((add_all (new_builder interval) kvs).buffer) < 2 ^ 32
    → (items_of (new_builder interval) kvs ≡ [] → ⊥)
    → (r : ℕ) → In r ((add_all (new_builder interval) kvs).restarts)
    → Split (items_of (new_builder interval) kvs) r
restarts-new interval [] fit short some_items r there =
    absurd (some_items (unfold items_of in refl))
restarts-new interval ((key, value) ∷ kvs) fit short some_items r there =
    unfold Split After new_builder items_of items_bytes common_prefix in
    let new = new_builder interval in
    elim (restarts-add_all new ((key, value) ∷ kvs) r fit short there) [
      | inr (front, i, back, e, at, zeroth) ↦ (front, i, back, e, omega (arith, at), zeroth)
      | inl (inl e) ↦
          ([], item_of new key value, items_of (add_entry new key value) kvs, refl, e, ground arith)
      | inl (inr i) ↦ absurd i
    ]
