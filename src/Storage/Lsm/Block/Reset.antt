-- ===== src/Storage/Lsm/Block/Reset.antt =====
-- A block builder that has finished a block, and the size of the block.
use chibidb.Prelude.{
  ℕ, ◌+◌, ◌%◌, ◌^◌, ◌≤◌, ◌≡◌, refl, ap, ◌∙◌, true, false, if◌then◌else◌, List, [], ◌∷◌, length,
  length-append, arith,
}
use chibidb.Storage.Lsm.Coding.{put_fixed32, to_le_bytes}
use chibidb.Storage.Lsm.Block.{
  BlockBuilder, new_builder, add_entry, finish, is_empty, is_fresh, put_restarts,
}
use chibidb.Storage.Lsm.Block.Entries.{item_bytes, items_bytes, length-item_pos}
use chibidb.Storage.Lsm.Block.Restarts.{words, put_restarts-words}
use chibidb.Storage.Lsm.Block.Build.{Fit, add_all, item_of, items_of, buffer-add_all}
use chibidb.Storage.Lsm.Block.Marks.{is_empty-length}

restart_interval-add_entry :
    (b : BlockBuilder) (key value : List ℕ)
    → (add_entry b key value).restart_interval ≡ b.restart_interval
unfolding add_entry
restart_interval-add_entry b key value = ground arith

restart_interval-add_all :
    (b : BlockBuilder) (kvs : List (List ℕ × List ℕ))
    → (add_all b kvs).restart_interval ≡ b.restart_interval
unfolding add_all
restart_interval-add_all b [] = refl
restart_interval-add_all b ((key, value) ∷ kvs) =
    restart_interval-add_all (add_entry b key value) kvs ∙ restart_interval-add_entry b key value

abbrev with_interval : ℕ → BlockBuilder
with_interval n = record {
  buffer = [];
  restarts = 0 ∷ [];
  counter = 0;
  last_key = [];
  restart_interval = n;
}

module _ (interval : ℕ) (kvs : List (List ℕ × List ℕ)) where
  -- It is a new one.
  pub finish_reset : (finish (add_all (new_builder interval) kvs)).1 ≡ new_builder interval
  unfolding finish new_builder
  finish_reset = ap with_interval (restart_interval-add_all (new_builder interval) kvs)

  pub is_fresh_nonempty : is_fresh (add_all (new_builder interval) kvs) ≡ false → kvs ≡ [] → ⊥
  is_fresh_nonempty h e =
      let none : is_fresh (add_all (new_builder interval) kvs) ≡ true =
        unfold is_fresh add_all new_builder in rw e refl in
      ground (arith, h, none)

module _ (interval : ℕ) where
  pub is_fresh_empty :
      (kvs : List (List ℕ × List ℕ))
      → Fit kvs
      → is_fresh (add_all (new_builder interval) kvs) ≡ true
      → kvs ≡ []
  unfolding is_fresh
  is_fresh_empty [] fit h = refl
  is_fresh_empty ((key, value) ∷ kvs) fit h =
      unfold items_of items_bytes new_builder in
      let new = new_builder interval in
      let i = item_of new key value in
      let later = items_of (add_entry new key value) kvs in
      absurd (
        omega (
          arith,
          is_empty-length ((add_all new ((key, value) ∷ kvs)).buffer) h,
          ap length (buffer-add_all new ((key, value) ∷ kvs) fit),
          length-append (item_bytes i) (items_bytes later),
          length-item_pos i,
        ))

-- The entries are part of the block, and the count of the restarts stands behind them.
pub length-finish : (b : BlockBuilder) → length (b.buffer) + 4 ≤ length ((finish b).0)
unfolding finish put_fixed32
length-finish b =
    let rs = if is_empty (b.buffer) then [] else b.restarts in
    omega (
      arith,
      ap length (put_restarts-words (b.buffer) rs),
      length-append (b.buffer) (words rs),
      length-append (put_restarts (b.buffer) rs) (to_le_bytes 4 (length rs % 2 ^ 32)),
    )
