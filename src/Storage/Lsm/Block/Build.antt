-- ===== src/Storage/Lsm/Block/Build.antt =====
-- The builder: the entries that `add` appends, and the block that `finish` makes of them.
use chibidb.Prelude.{
  ℕ, ◌^◌, ◌≤◌, ◌<◌, ◌≡◌, refl, sym, ap, subst, ◌∙◌, inl, inr, ltb, if◌then◌else◌, List, [], ◌∷◌,
  ◌++◌, length, take, Bool-cases, arith,
}
use chibidb.Storage.Lsm.Block.{BlockBuilder, common_prefix, add_entry}
use chibidb.Storage.Lsm.Block.Entries.{
  Item, ItemFits, item_bytes, items_bytes, push_entry-item, pairs, Chain,
}
use mathlib.Core.List.{append_assoc, append-nil}

-- Keys and values whose lengths fit 32 bits.
unfoldable pub Fit : List (List ℕ × List ℕ) → Type 0
Fit [] = Unit {0}
Fit ((key, value) ∷ kvs) = (length key < 2 ^ 32) × (length value < 2 ^ 32) × Fit kvs

unfoldable pub add_all : BlockBuilder → List (List ℕ × List ℕ) → BlockBuilder
add_all b [] = b
add_all b ((key, value) ∷ kvs) = add_all (add_entry b key value) kvs

abbrev pub item_of : BlockBuilder → List ℕ → List ℕ → Item
item_of b key value = record {
  common = if ltb (b.counter) (b.restart_interval) then common_prefix (b.last_key) key else 0;
  key = key;
  value = value;
}

unfoldable pub items_of : BlockBuilder → List (List ℕ × List ℕ) → List Item
items_of b [] = []
items_of b ((key, value) ∷ kvs) = item_of b key value ∷ items_of (add_entry b key value) kvs

pub pairs-items_of :
    (b : BlockBuilder) (kvs : List (List ℕ × List ℕ)) → pairs (items_of b kvs) ≡ kvs
unfolding items_of
pairs-items_of b [] = refl
pairs-items_of b ((key, value) ∷ kvs) =
    ap (λ (rest : List (List ℕ × List ℕ)). (key, value) ∷ rest)
      (pairs-items_of (add_entry b key value) kvs)

-- The common prefix is a prefix of both.
common_prefix_lem :
    (a b : List ℕ)
    → (common_prefix a b ≤ length b) × (take (common_prefix a b) a ≡ take (common_prefix a b) b)
unfolding common_prefix
common_prefix_lem [] b = (omega arith, refl)
common_prefix_lem (x ∷ a) [] = (omega arith, refl)
common_prefix_lem (x ∷ a) (y ∷ b) = let (le, e) = common_prefix_lem a b in ground (arith, le, e)

item_of-fits :
    (b : BlockBuilder) (key value : List ℕ)
    → length key < 2 ^ 32
    → length value < 2 ^ 32
    → ItemFits (item_of b key value)
      × (take ((item_of b key value).common) (b.last_key) ≡ take ((item_of b key value).common) key)
unfolding ItemFits
item_of-fits b key value small fits =
    let (le, e) = common_prefix_lem (b.last_key) key in
    elim (Bool-cases (ltb (b.counter) (b.restart_interval))) [
      | inl c ↦ rw c ((le, small, fits), e)
      | inr c ↦ rw c ((omega arith, small, fits), refl)
    ]

pub last_key-add_entry :
    (b : BlockBuilder) (key value : List ℕ) → (add_entry b key value).last_key ≡ key
unfolding add_entry
last_key-add_entry b key value = ground arith

pub items_of-Chain :
    (b : BlockBuilder) (kvs : List (List ℕ × List ℕ))
    → Fit kvs
    → Chain (b.last_key) (items_of b kvs)
unfolding items_of Chain Fit
items_of-Chain b [] fit = tt
items_of-Chain b ((key, value) ∷ kvs) (small, fits, rest) =
    let (fine, shares) = item_of-fits b key value small fits in
    (
      fine,
      shares,
      subst (λ (k : List ℕ). Chain k (items_of (add_entry b key value) kvs))
          (last_key-add_entry b key value) (items_of-Chain (add_entry b key value) kvs rest),
    )

pub buffer-add_entry :
    (b : BlockBuilder) (key value : List ℕ)
    → length key < 2 ^ 32
    → length value < 2 ^ 32
    → (add_entry b key value).buffer ≡ b.buffer ++ item_bytes (item_of b key value)
unfolding add_entry
buffer-add_entry b key value small fits =
    let pushed =
      push_entry-item (b.buffer) (item_of b key value) ((item_of-fits b key value small fits).0) in
    elim (Bool-cases (ltb (b.counter) (b.restart_interval))) [
      | inl c ↦ rw c (rw c at pushed)
      | inr c ↦ rw c (rw c at pushed)
    ]

pub buffer-add_all :
    (b : BlockBuilder) (kvs : List (List ℕ × List ℕ))
    → Fit kvs
    → (add_all b kvs).buffer ≡ b.buffer ++ items_bytes (items_of b kvs)
unfolding add_all items_of items_bytes Fit
buffer-add_all b [] fit = sym (append-nil (b.buffer))
buffer-add_all b ((key, value) ∷ kvs) (small, fits, rest) =
    let i = item_of b key value in
    let later = items_of (add_entry b key value) kvs in
    buffer-add_all (add_entry b key value) kvs rest
    ∙ ap (λ (buffer : List ℕ). buffer ++ items_bytes later)
        (buffer-add_entry b key value small fits)
    ∙ append_assoc (b.buffer) (item_bytes i) (items_bytes later)
