-- ===== src/Storage/Lsm/Sstable/RoundTrip.antt =====
-- A table that is built, encoded, parsed and read.
use chibidb.Storage.Lsm.Sstable.Asserts.{debug_add_pairs, debug_finish_table-Ascending}
use chibidb.Storage.Lsm.Sstable.Image.{table_of, parts, parse_table-table_image}
use chibidb.Prelude.{
  ℕ, ◌^◌, ◌<◌, ◌≡◌, refl, sym, ap, subst, ◌∙◌, inl, inr, true, false, List, [], ◌∷◌, Option, none,
  some, length, In, Bool-cases, arith,
}
use chibidb.Prelude.Bytes.{lt_bytes, lt_bytes_irrefl, lt_bytes_asymm}
use chibidb.Prelude.Result.{ok}
use chibidb.Storage.Lsm.Bloom.{maybe_contains}
use chibidb.Storage.Lsm.Block.{is_empty}
use chibidb.Storage.Lsm.Block.Build.{Fit}
use chibidb.Storage.Lsm.Block.Get.{first_of}
use chibidb.Storage.Lsm.Block.Seek.{Over, Ascending, Answers, Answers-none}
use chibidb.Storage.Lsm.Sstable.{
  new_table, finish_table, SsTable, or_empty, parse_table, may_contain, get_pair, iter_table,
  SsTableBuilder, debug_finish_table,
}
use chibidb.Storage.Lsm.Sstable.Built.{add_pairs, filter_of, table_image, finish_table-table_image}
use chibidb.Storage.Lsm.Sstable.Groups.{Pairs, concat, last_of, NoneEmpty}
use chibidb.Storage.Lsm.Sstable.Lookup.{get_in_block-images, Answers-filter, Answers-skip}
use chibidb.Storage.Lsm.Sstable.Parse.{handles, iter_blocks-images}
use mathlib.Core.List.{append-nil}

first_below :
    (key value : List ℕ) (kvs : Pairs)
    → Ascending kvs
    → In (key, value) kvs
    → lt_bytes key (or_empty (first_of kvs)) ≡ false
first_below key value [] sorted there = elim there [ ]
first_below key value ((k, v) ∷ kvs) sorted (inl e) =
    subst (λ (x : List ℕ). lt_bytes key x ≡ false) (ap (λ (p : List ℕ × List ℕ). p.0) e)
      (lt_bytes_irrefl key)
first_below key value ((k, v) ∷ kvs) (over, sorted) (inr i) =
    lt_bytes_asymm k key (Over-In k key value kvs over i)
  where
    Over-In :
        (k key value : List ℕ) (kvs : Pairs)
        → Over k kvs
        → In (key, value) kvs
        → lt_bytes k key ≡ true
    Over-In k key value [] over i = elim i [ ]
    Over-In k key value ((j, w) ∷ kvs) (lt, over) (inl e) =
        subst (λ (x : List ℕ). lt_bytes k x ≡ true) (sym (ap (λ (p : List ℕ × List ℕ). p.0) e)) lt
    Over-In k key value ((j, w) ∷ kvs) (lt, over) (inr i) = Over-In k key value kvs over i

last_above :
    (key value : List ℕ) (kvs : Pairs)
    → Ascending kvs
    → In (key, value) kvs
    → lt_bytes (last_of [] kvs) key ≡ false
unfolding Answers
last_above key value [] sorted there = elim there [ ]
last_above key value ((k, v) ∷ kvs) sorted there =
    elim (Bool-cases (lt_bytes (last_of k kvs) key)) [
      | inr ge ↦ ge
      | inl lt ↦
          let no_pair =
            Answers-skip key ((k, v) ∷ kvs) [] none (omega arith) sorted lt (Answers-none key [] tt)
              value in
          let whole = subst (In (key, value)) (sym (append-nil ((k, v) ∷ kvs))) there in
          ground (arith, (no_pair.1) whole)
    ]

module _ (interval : ℕ) where
  handles_nonempty :
      (groups : List Pairs) (pair : List ℕ × List ℕ)
      → In pair (concat groups)
      → is_empty (handles interval 0 groups) ≡ false
  unfolding handles
  handles_nonempty [] pair there = elim there [ ]
  handles_nonempty (g ∷ groups) pair there = refl

  -- The key range of a table takes in each of its keys.
  may_contain-table_of :
      (groups : List Pairs) (key value : List ℕ)
      → Ascending (concat groups)
      → In (key, value) (concat groups)
      → may_contain (table_of interval groups) key ≡ true
  unfolding may_contain handles
  may_contain-table_of groups key value sorted there =
      let not_empty : is_empty (handles interval 0 groups) ≡ false =
        handles_nonempty groups (key, value) there in
      let above : lt_bytes key (or_empty (first_of (concat groups))) ≡ false =
        first_below key value (concat groups) sorted there in
      let below : lt_bytes (last_of [] (concat groups)) key ≡ false =
        last_above key value (concat groups) sorted there in
      rw (not_empty, above, below) refl

  passed_over :
      (groups : List Pairs) (key : List ℕ) (answer : Option (List ℕ))
      → Ascending (concat groups)
      → Answers key (concat groups) answer
      → may_contain (table_of interval groups) key ≡ false
      → answer ≡ none
  unfolding Answers
  passed_over groups key none sorted answers out = refl
  passed_over groups key (some value) sorted answers out =
      let there = may_contain-table_of groups key value sorted ((answers value).0 refl) in
      ground (arith, there, out)

  get_pair-table_of :
      (groups : List Pairs) (key : List ℕ)
      → Fit (concat groups)
      → NoneEmpty groups
      → length (table_image interval groups) < 2 ^ 32
      → Ascending (concat groups)
      → (answer : Option (List ℕ)) × (get_pair (table_of interval groups) key ≡ ok answer)
        × Answers key (concat groups) answer
  unfolding get_pair
  get_pair-table_of groups key fit full short sorted =
      let (answer, result, answers) =
        get_in_block-images interval (table_of interval groups) key short 0 groups fit sorted full
          ((parts interval groups fit full short).0) in
      elim (Bool-cases (maybe_contains (filter_of (concat groups)) key)) [
        | inl c ↦ (answer, rw c result, answers)
        | inr c ↦ (none, rw c refl, Answers-filter key (concat groups) c)
      ]

module _ (block_size interval : ℕ) (kvs : Pairs) (fit : Fit kvs)
    (short : length (finish_table (add_pairs (new_table block_size interval) kvs)) < 2 ^ 32) where
  abbrev finished : List ℕ
  finished = finish_table (add_pairs (new_table block_size interval) kvs)

  iter_table-finished : (t : SsTable) × (parse_table finished ≡ ok t) × (iter_table t ≡ ok kvs)
  unfolding iter_table
  iter_table-finished =
      let (groups, written, all, full) = finish_table-table_image interval block_size kvs fit in
      let fits : Fit (concat groups) = subst Fit (sym all) fit in
      let small : length (table_image interval groups) < 2 ^ 32 =
        subst (λ (bytes : List ℕ). length bytes < 2 ^ 32) written short in
      (
        table_of interval groups,
        ap parse_table written ∙ parse_table-table_image interval groups fits full small,
        iter_blocks-images interval (table_image interval groups) 0 groups [] small fits
              ((parts interval groups fits full small).0)
            ∙ ap ok all,
      )

  -- Pairs in the ascending order of their keys, with keys and values below 2 ^ 32 bytes and a table
  -- image that is, too: no debug assertion fails while they are added and the table is finished, the
  -- image parses, and `iter` gives back every pair, in its order.
  pub iter_table-parse_table :
      Ascending kvs
      → (b : SsTableBuilder) × (image : List ℕ) × (t : SsTable) × (debug_add_pairs
            (new_table block_size interval)
            kvs
          ≡ some b)
        × (debug_finish_table b ≡ some image)
        × (parse_table image ≡ ok t)
        × (iter_table t ≡ ok kvs)
  iter_table-parse_table sorted =
      let (added, ended) = debug_finish_table-Ascending block_size interval kvs sorted in
      let (t, parsed, all) = iter_table-finished in
      (add_pairs (new_table block_size interval) kvs, finished, t, added, ended, parsed, all)

  -- A table that is built of pairs in the ascending order of their keys, shorter than 2 ^ 32 bytes and
  -- with keys and values that are, too, parses, and a lookup of any key gives the value that was added
  -- with it, and none if none was; and none is what it gives for each key outside the key range.
  pub get_pair-parse_table :
      Ascending kvs
      → (t : SsTable) × (parse_table finished ≡ ok t)
        × ((key : List ℕ)
            → (answer : Option (List ℕ)) × (get_pair t key ≡ ok answer)
              × Answers key kvs answer
              × (may_contain t key ≡ false → answer ≡ none))
  get_pair-parse_table sorted =
      let (groups, written, all, full) = finish_table-table_image interval block_size kvs fit in
      let fits : Fit (concat groups) = subst Fit (sym all) fit in
      let small : length (table_image interval groups) < 2 ^ 32 =
        subst (λ (bytes : List ℕ). length bytes < 2 ^ 32) written short in
      let ascends : Ascending (concat groups) = subst Ascending (sym all) sorted in
      (
        table_of interval groups,
        ap parse_table written ∙ parse_table-table_image interval groups fits full small,
        λ key.
            let (answer, result, answers) =
              get_pair-table_of interval groups key fits full small ascends in
            (
              answer,
              result,
              subst (λ (xs : Pairs). Answers key xs answer) all answers,
              passed_over interval groups key answer ascends answers,
            ),
      )
