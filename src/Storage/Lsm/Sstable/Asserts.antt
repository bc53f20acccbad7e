-- ===== src/Storage/Lsm/Sstable/Asserts.antt =====
-- With its debug assertions on, a table builder takes keys that ascend: its own assertion, that of the
-- data block, and that of the index block at each flush.
use chibidb.Prelude.{
  ◌≡◌, refl, sym, subst, ◌⊎◌, inl, inr, true, false, not, ◌||◌, leb, List, [], ◌∷◌, Option, none,
  some, ℕ, Bool-cases, arith,
}
use chibidb.Prelude.Bytes.{lt_bytes, lt_bytes_trans}
use chibidb.Storage.Lsm.Block
use chibidb.Storage.Lsm.Block.{
  BlockBuilder, new_builder, add_entry, add_asserts, is_empty, is_fresh, current_size_estimate,
}
use chibidb.Storage.Lsm.Block.Asserts.{add_asserts_holds}
use chibidb.Storage.Lsm.Block.Build.{last_key-add_entry}
use chibidb.Storage.Lsm.Block.Seek.{Over, Ascending}
use chibidb.Storage.Lsm.Sstable.{
  SsTableBuilder, new_table, note_pair, flush_block, add_pair, flush_asserts, add_pair_asserts,
  debug_add_pair, finish_table, debug_finish_table,
}
use chibidb.Storage.Lsm.Sstable.Built.{add_pairs}
use chibidb.Storage.Lsm.Sstable.Groups.{Pairs}

unfoldable pub debug_add_pairs : SsTableBuilder → Pairs → Option SsTableBuilder
debug_add_pairs b [] = some b
debug_add_pairs b ((key, value) ∷ kvs) = elim (debug_add_pair b key value) [
  | none ↦ none
  | some next ↦ debug_add_pairs next kvs
]

-- No key is in the index, or the last one there is below the builder's last key.
abbrev Behind : SsTableBuilder → Type 0
Behind b = (b.index_block.last_key ≡ []) ⊎ (lt_bytes (b.index_block.last_key) (b.last_key) ≡ true)

-- Where the last keys of the three builders stand: nothing was added, or they are the last key or
-- below it, and the index is behind while pairs wait for a flush.
abbrev Tidy : SsTableBuilder → Type 0
Tidy b =
    ((b.started ≡ false)
      × (b.current.last_key ≡ [])
      × (b.index_block.last_key ≡ [])
      × (is_fresh (b.current) ≡ true))
    ⊎ ((b.started ≡ true)
        × ((b.current.last_key ≡ []) ⊎ (b.current.last_key ≡ b.last_key))
        × ((b.index_block.last_key ≡ b.last_key) ⊎ Behind b)
        × ((is_fresh (b.current) ≡ true) ⊎ Behind b))

-- The next key is above all that were added.
abbrev Next : SsTableBuilder → List ℕ → Type 0
Next b key = (b.started ≡ false) ⊎ (lt_bytes (b.last_key) key ≡ true)

note_pair-Tidy :
    (b : SsTableBuilder) (key value : List ℕ) → Tidy b → Next b key → Behind (note_pair b key value)
note_pair-Tidy b key value (inl (idle, empty, none_yet, fresh)) next = inl none_yet
note_pair-Tidy b key value (inr (busy, current, index, waits)) (inl idle) =
    ground (arith, busy, idle)
note_pair-Tidy b key value (inr (busy, current, inl same, waits)) (inr lt) =
    inr (subst (λ (k : List ℕ). lt_bytes k key ≡ true) (sym same) lt)
note_pair-Tidy b key value (inr (busy, current, inr (inl none_yet), waits)) (inr lt) = inl none_yet
note_pair-Tidy b key value (inr (busy, current, inr (inr below), waits)) (inr lt) =
    inr (lt_bytes_trans (b.index_block.last_key) (b.last_key) key below lt)

flush_asserts_holds :
    (b : SsTableBuilder) → (is_fresh (b.current) ≡ true) ⊎ Behind b → flush_asserts b ≡ true
unfolding flush_asserts
flush_asserts_holds b (inl fresh) = rw fresh refl
flush_asserts_holds b (inr behind) =
    let holds = add_asserts_holds (b.index_block) (b.last_key) behind in ground (arith, holds)

current_asserts_holds :
    (b : SsTableBuilder) (key : List ℕ) → Tidy b → Next b key → add_asserts (b.current) key ≡ true
current_asserts_holds b key (inl (idle, empty, none_yet, fresh)) next =
    add_asserts_holds (b.current) key (inl empty)
current_asserts_holds b key (inr (busy, current, index, waits)) (inl idle) =
    ground (arith, busy, idle)
current_asserts_holds b key (inr (busy, inl empty, index, waits)) (inr lt) =
    add_asserts_holds (b.current) key (inl empty)
current_asserts_holds b key (inr (busy, inr same, index, waits)) (inr lt) =
    add_asserts_holds (b.current) key
      (inr (subst (λ (k : List ℕ). lt_bytes k key ≡ true) (sym same) lt))

add_pair_asserts_holds :
    (b : SsTableBuilder) (key value : List ℕ)
    → Tidy b
    → Next b key
    → add_pair_asserts b key value ≡ true
unfolding add_pair_asserts
add_pair_asserts_holds b key value tidy next =
    let own : (not (b.started) || lt_bytes (b.last_key) key) ≡ true = ground (arith, next) in
    let flush =
      flush_asserts_holds (note_pair b key value) (inr (note_pair-Tidy b key value tidy next)) in
    rw (own, current_asserts_holds b key tidy next, flush)
      (elim (Bool-cases
        (leb (b.block_size) (current_size_estimate (add_entry (b.current) key value)))) [
          | inl c ↦ rw c refl
          | inr c ↦ rw c refl
        ])

-- What a flush leaves of the last keys.
flush_block-Tidy :
    (b : SsTableBuilder)
    → b.started ≡ true
    → b.current.last_key ≡ b.last_key
    → Behind b
    → ((flush_block b).last_key ≡ b.last_key) × Tidy (flush_block b)
unfolding flush_block Block.finish is_fresh
flush_block-Tidy b busy current behind = elim (Bool-cases (is_empty (b.current.buffer))) [
  | inl c ↦ rw c (refl, inr (busy, inr current, inr behind, inr behind))
  | inr c ↦ rw c (
    refl,
    inr (busy, inl refl, inl (last_key-add_entry (b.index_block) (b.last_key) _), inl refl),
  )
]

add_pair-Tidy :
    (b : SsTableBuilder) (key value : List ℕ)
    → Tidy b
    → Next b key
    → ((add_pair b key value).last_key ≡ key) × Tidy (add_pair b key value)
unfolding add_pair
add_pair-Tidy b key value tidy next =
    let behind = note_pair-Tidy b key value tidy next in
    let current = last_key-add_entry (b.current) key value in
    elim (Bool-cases
      (leb (b.block_size) (current_size_estimate (add_entry (b.current) key value)))) [
        | inl c ↦ rw c (flush_block-Tidy (note_pair b key value) refl current behind)
        | inr c ↦ rw c (refl, inr (refl, inr current, inr behind, inr behind))
      ]

-- The keys are above all that were added.
abbrev NextAll : SsTableBuilder → Pairs → Type 0
NextAll b kvs = (b.started ≡ false) ⊎ Over (b.last_key) kvs

debug_add_pairs-Tidy :
    (b : SsTableBuilder) (kvs : Pairs)
    → Tidy b
    → NextAll b kvs
    → Ascending kvs
    → (debug_add_pairs b kvs ≡ some (add_pairs b kvs)) × Tidy (add_pairs b kvs)
unfolding debug_add_pairs add_pairs debug_add_pair
debug_add_pairs-Tidy b [] tidy next sorted = (refl, tidy)
debug_add_pairs-Tidy b ((key, value) ∷ kvs) tidy next (above, sorted) =
    let first : Next b key = elim next [ inl idle ↦ inl idle | inr (lt, over) ↦ inr lt ] in
    let (last, after) = add_pair-Tidy b key value tidy first in
    let over : Over ((add_pair b key value).last_key) kvs =
      subst (λ (k : List ℕ). Over k kvs) (sym last) above in
    let (rest, end) = debug_add_pairs-Tidy (add_pair b key value) kvs after (inr over) sorted in
    (rw (debug_add_pairs, add_pair_asserts_holds b key value tidy first) rest, end)

waits-Behind : (b : SsTableBuilder) → Tidy b → (is_fresh (b.current) ≡ true) ⊎ Behind b
waits-Behind b (inl (idle, empty, none_yet, fresh)) = inl fresh
waits-Behind b (inr (busy, current, index, waits)) = waits

-- No assertion fails while pairs in the ascending order of their keys are added and the table is
-- finished.
pub debug_finish_table-Ascending :
    (block_size interval : ℕ) (kvs : Pairs)
    → Ascending kvs
    → (debug_add_pairs (new_table block_size interval) kvs
        ≡ some (add_pairs (new_table block_size interval) kvs))
      × (debug_finish_table (add_pairs (new_table block_size interval) kvs)
          ≡ some (finish_table (add_pairs (new_table block_size interval) kvs)))
unfolding debug_finish_table
debug_finish_table-Ascending block_size interval kvs sorted =
    let new = new_table block_size interval in
    let fresh : Tidy new = unfold new_table new_builder is_fresh in inl (refl, refl, refl, refl) in
    let idle : NextAll new kvs = unfold new_table in inl refl in
    let (added, tidy) = debug_add_pairs-Tidy new kvs fresh idle sorted in
    (
      added,
      rw (flush_asserts_holds (add_pairs new kvs) (waits-Behind (add_pairs new kvs) tidy)) refl,
    )
