-- ===== src/Storage/Lsm/Sstable/Scanner.antt =====
-- The lazy scanner of a table, against its iterator.
use chibidb.Storage.Lsm.Block.Seek.{Ascending}
use chibidb.Storage.Lsm.Sstable.Asserts.{debug_add_pairs, debug_finish_table-Ascending}
use chibidb.Prelude.{
  ℕ, zero, suc, ◌+◌, ◌^◌, ◌≤◌, ◌<◌, ◌≡◌, refl, sym, ap, subst, ◌∙◌, List, [], ◌∷◌, ◌++◌, Option,
  none, some, length, length-append, get_elem?, get_elem?-append_length, arith,
}
use chibidb.Prelude.Holds.{Holds, Holds-left, Holds-right}
use chibidb.Prelude.Result.{Result, ok, ◌>>=◌}
use chibidb.Storage.Lsm.Block.Build.{Fit}
use chibidb.Storage.Lsm.Block
use chibidb.Storage.Lsm.Sstable.{
  BlockHandle, read_block, SsTable, SsTableScanner, scanner, next_in, next_entry, new_table,
  finish_table, parse_table, SsTableBuilder, debug_finish_table,
}
use chibidb.Storage.Lsm.Sstable.Built.{
  add_pairs, Fit-left, Fit-right, finish_table-table_image, table_image,
}
use chibidb.Storage.Lsm.Sstable.Groups.{Pairs, concat, last_of, NoneEmpty, image, images, handle_of}
use chibidb.Storage.Lsm.Sstable.Parse.{handles, read_block-image}
use chibidb.Storage.Lsm.Sstable.Image.{table_of, parts, parse_table-table_image}
use mathlib.Core.List.{append_assoc}

abbrev put_first : Option (List ℕ × List ℕ) → Result Pairs → Result Pairs
put_first none rest = ok []
put_first (some pair) rest = rest >>= (λ pairs. ok (pair ∷ pairs))

-- What up to `calls` calls of `next_entry` give, until the first that gives none.
pub drain : ℕ → SsTableScanner → Result Pairs
drain zero s = ok []
drain (suc calls) s =
    next_entry s >>= (λ (entry, next). let rest = drain calls next in put_first entry rest)

get_elem?_end : (xs : List (List ℕ × BlockHandle)) → get_elem? (xs ++ []) (length xs) ≡ none
get_elem?_end [] = refl
get_elem?_end (x ∷ xs) = get_elem?_end xs

module _ (t : SsTable) (at : ℕ) where
  next_entry_held :
      (pair : List ℕ × List ℕ) (pairs : Pairs)
      → next_entry (record { table = t; next_block = at; current = pair ∷ pairs })
        ≡ ok (some pair, record { table = t; next_block = at; current = pairs })
  unfolding next_entry next_in
  next_entry_held pair pairs = refl

  next_entry_end :
      get_elem? (t.index) at ≡ none
      → next_entry (record { table = t; next_block = at; current = [] })
        ≡ ok (none, record { table = t; next_block = at; current = [] })
  unfolding next_entry next_in
  next_entry_end h = rw (next_in, h) refl

  next_entry_block :
      (key : List ℕ) (handle : BlockHandle) (block : Block.Block) (pair : List ℕ × List ℕ)
      (pairs : Pairs)
      → get_elem? (t.index) at ≡ some (key, handle)
      → read_block (t.bytes) handle ≡ ok block
      → Block.entries block ≡ ok (pair ∷ pairs)
      → next_entry (record { table = t; next_block = at; current = [] })
        ≡ ok (some pair, record { table = t; next_block = at + 1; current = pairs })
  unfolding next_entry next_in
  next_entry_block key handle block pair pairs here parsed all =
      rw (next_in, here, parsed, all) refl

module _ (interval : ℕ) (t : SsTable) (short : length (t.bytes) < 2 ^ 32) where
  drain-images :
      (calls : ℕ) (before : List (List ℕ × BlockHandle)) (start : ℕ) (groups : List Pairs)
      (current : Pairs)
      → t.index ≡ before ++ handles interval start groups
      → Fit (concat groups)
      → NoneEmpty groups
      → Holds (t.bytes) start (images interval groups)
      → suc (length current + length (concat groups)) ≤ calls
      → drain calls (record { table = t; next_block = length before; current = current })
        ≡ ok (current ++ concat groups)
  unfolding drain handles images
  drain-images zero before start groups current index fit full h enough =
      absurd (omega (arith, enough))
  drain-images (suc calls) before start groups (pair ∷ current) index fit full h enough =
      rw
        (
          next_entry_held t (length before) pair current,
          drain-images calls before start groups current index fit full h (omega (arith, enough)),
        )
        refl
  drain-images (suc calls) before start [] [] index fit full h enough =
      let stop : get_elem? (t.index) (length before) ≡ none = rw index (get_elem?_end before) in
      rw (next_entry_end t (length before) stop) refl
  drain-images (suc calls) before start ([] ∷ groups) [] index fit (some_pair, full) h enough =
      absurd (omega (arith, some_pair))
  drain-images (suc calls) before start ((pair ∷ g) ∷ groups) [] index fit (some_pair, full) h
        enough =
      let block_pairs = pair ∷ g in
      let entry : List ℕ × BlockHandle =
        (last_of [] block_pairs, handle_of interval start block_pairs) in
      let later = handles interval (start + length (image interval block_pairs)) groups in
      let here : get_elem? (t.index) (length before) ≡ some entry =
        rw index (get_elem?-append_length before entry later) in
      let (block, parsed, all, first, lookup) =
        read_block-image interval (t.bytes) start block_pairs short
          (Fit-left block_pairs (concat groups) fit)
          (Holds-left (t.bytes) start (image interval block_pairs) (images interval groups) h) in
      let place : length (before ++ (entry ∷ [])) ≡ length before + 1 =
        omega (arith, length-append before (entry ∷ [])) in
      let rest =
        drain-images calls (before ++ (entry ∷ [])) (start + length (image interval block_pairs))
          groups g (index ∙ sym (append_assoc before (entry ∷ []) later))
          (Fit-right block_pairs (concat groups) fit) full
          (Holds-right (t.bytes) start (image interval block_pairs) (images interval groups) h)
          (omega (arith, enough, length-append g (concat groups))) in
      let next : drain calls (record { table = t; next_block = length before + 1; current = g })
          ≡ ok (g ++ concat groups) =
        subst
          (λ (n : ℕ).
            drain calls (record { table = t; next_block = n; current = g })
            ≡ ok (g ++ concat groups))
          place rest in
      rw
        (
          next_entry_block t (length before) (last_of [] block_pairs)
              (handle_of interval start block_pairs) block pair g here parsed all,
          next,
        )
        refl

module _ (block_size interval : ℕ) (kvs : Pairs) (fit : Fit kvs)
    (short : length (finish_table (add_pairs (new_table block_size interval) kvs)) < 2 ^ 32) where
  drain-finished :
      (calls : ℕ)
      → length kvs < calls
      → (t : SsTable) × (parse_table (finish_table (add_pairs (new_table block_size interval) kvs))
          ≡ ok t)
        × (drain calls (scanner t) ≡ ok kvs)
  unfolding scanner
  drain-finished calls enough =
      let (groups, written, all, full) = finish_table-table_image interval block_size kvs fit in
      let fits : Fit (concat groups) = subst Fit (sym all) fit in
      let small : length (table_image interval groups) < 2 ^ 32 =
        subst (λ (bytes : List ℕ). length bytes < 2 ^ 32) written short in
      let t = table_of interval groups in
      (
        t,
        ap parse_table written ∙ parse_table-table_image interval groups fits full small,
        drain-images interval t small calls [] 0 groups [] refl fits full
              ((parts interval groups fits full small).0) (omega (arith, enough, ap length all))
            ∙ ap ok all,
      )

  -- Pairs in the ascending order of their keys, with keys and values below 2 ^ 32 bytes and a table
  -- image that is, too: no debug assertion fails while they are added and the table is finished, and a
  -- scanner of the table that the image parses to gives every pair, in its order, and none after the
  -- last.
  pub drain-scanner :
      (calls : ℕ)
      → length kvs < calls
      → Ascending kvs
      → (b : SsTableBuilder) × (image : List ℕ) × (t : SsTable) × (debug_add_pairs
            (new_table block_size interval)
            kvs
          ≡ some b)
        × (debug_finish_table b ≡ some image)
        × (parse_table image ≡ ok t)
        × (drain calls (scanner t) ≡ ok kvs)
  drain-scanner calls enough sorted =
      let (added, ended) = debug_finish_table-Ascending block_size interval kvs sorted in
      let (t, parsed, all) = drain-finished calls enough in
      (
        add_pairs (new_table block_size interval) kvs,
        finish_table (add_pairs (new_table block_size interval) kvs),
        t,
        added,
        ended,
        parsed,
        all,
      )
