-- ===== src/Storage/Lsm/Sstable/Built.antt =====
-- The image that `finish` makes of a table, and where its parts stand.
use chibidb.Prelude.{ℕ, ◌≡◌, refl, sym, ap, subst, ◌∙◌, List, [], ◌∷◌, ◌++◌, length}
use chibidb.Storage.Lsm.Bloom
use chibidb.Storage.Lsm.Bloom.Membership
use chibidb.Storage.Lsm.Block.Build.{Fit, add_all}
use chibidb.Storage.Lsm.Sstable.{
  BlockHandle, SsTableBuilder, new_table, flush_block, add_pair, footer, finish_table,
  bloom_bits_per_key,
}
use chibidb.Storage.Lsm.Sstable.Groups.{
  Pairs, concat, keys_of, NoneEmpty, image, images, marks, Building, flush_block-Building,
  add_pair-Building,
}
use mathlib.Core.List.{append_assoc, append-nil}

unfoldable pub add_pairs : SsTableBuilder → Pairs → SsTableBuilder
add_pairs b [] = b
add_pairs b ((key, value) ∷ kvs) = add_pairs (add_pair b key value) kvs

pub Fit-left : (xs ys : Pairs) → Fit (xs ++ ys) → Fit xs
unfolding Fit
Fit-left [] ys fit = tt
Fit-left ((key, value) ∷ xs) ys (small, fits, rest) = (small, fits, Fit-left xs ys rest)

pub Fit-right : (xs ys : Pairs) → Fit (xs ++ ys) → Fit ys
unfolding Fit
Fit-right [] ys fit = fit
Fit-right ((key, value) ∷ xs) ys (small, fits, rest) = Fit-right xs ys rest

add_pairs-Building :
    (interval : ℕ) (b : SsTableBuilder) (groups : List Pairs) (pending kvs : Pairs)
    → Fit ((concat groups ++ pending) ++ kvs)
    → Building interval b groups pending
    → (groups' : List Pairs) × (pending' : Pairs) × Building interval
        (add_pairs b kvs)
        groups'
        pending'
      × (concat groups' ++ pending' ≡ (concat groups ++ pending) ++ kvs)
unfolding add_pairs
add_pairs-Building interval b groups pending [] fit building =
    (groups, pending, building, sym (append-nil (concat groups ++ pending)))
add_pairs-Building interval b groups pending ((key, value) ∷ kvs) fit building =
    let old = concat groups ++ pending in
    let one = (key, value) ∷ [] in
    let split : (old ++ one) ++ kvs ≡ old ++ ((key, value) ∷ kvs) = append_assoc old one kvs in
    let all : Fit ((old ++ one) ++ kvs) = subst Fit (sym split) fit in
    let here : Fit (pending ++ one) =
      Fit-right (concat groups) (pending ++ one)
        (subst Fit (append_assoc (concat groups) pending one) (Fit-left (old ++ one) kvs all)) in
    let (groups1, pending1, next, e) =
      add_pair-Building interval b groups pending key value here building in
    let (groups2, pending2, last, f) =
      add_pairs-Building interval (add_pair b key value) groups1 pending1 kvs
        (subst (λ (xs : Pairs). Fit (xs ++ kvs)) (sym e) all) next in
    (groups2, pending2, last, f ∙ ap (λ (xs : Pairs). xs ++ kvs) e ∙ split)

-- The bloom filter over the keys of some pairs.
abbrev pub filter_of : Pairs → List ℕ
filter_of kvs = Bloom.finish (Membership.add_all (Bloom.new bloom_bits_per_key) (keys_of kvs))

module _ (interval : ℕ) where
  -- The parts of a table's image before its footer, and all of it.
  abbrev pub before_footer : List Pairs → List ℕ
  before_footer groups =
      (images interval groups ++ filter_of (concat groups))
      ++ image interval (marks interval 0 groups)

  abbrev pub filter_handle : List Pairs → BlockHandle
  filter_handle groups = record {
    offset = length (images interval groups);
    size = length (filter_of (concat groups));
  }

  abbrev pub index_handle : List Pairs → BlockHandle
  index_handle groups = record {
    offset = length (images interval groups ++ filter_of (concat groups));
    size = length (image interval (marks interval 0 groups));
  }

  unfoldable pub table_image : List Pairs → List ℕ
  table_image groups = before_footer groups ++ footer (filter_handle groups) (index_handle groups)

  new_table-Building : (block_size : ℕ) → Building interval (new_table block_size interval) [] []
  unfolding Building new_table images marks add_all
  new_table-Building block_size = (refl, refl, refl, ([], refl), refl, tt)

  pub finish_table-table_image :
      (block_size : ℕ) (kvs : Pairs)
      → Fit kvs
      → (groups : List Pairs) × (finish_table (add_pairs (new_table block_size interval) kvs)
          ≡ table_image groups)
        × (concat groups ≡ kvs)
        × NoneEmpty groups
  unfolding finish_table table_image Building image
  finish_table-table_image block_size kvs fit =
      let b = add_pairs (new_table block_size interval) kvs in
      let (flushed, pending, built, e) =
        add_pairs-Building interval (new_table block_size interval) [] [] kvs fit
          (new_table-Building block_size) in
      let (groups, last, f) =
        flush_block-Building interval b flushed pending
          (Fit-right (concat flushed) pending (subst Fit (sym e) fit)) built in
      let (written, indexed, current, key, bloom, full) = last in
      let filtered : Bloom.finish ((flush_block b).bloom) ≡ filter_of (concat groups) =
        ap Bloom.finish bloom ∙ ap filter_of (append-nil (concat groups)) in
      (groups, simp (written, indexed, filtered) refl, f ∙ e, full)
