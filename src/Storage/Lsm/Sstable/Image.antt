-- ===== src/Storage/Lsm/Sstable/Image.antt =====
-- The image of a table, part by part, and the table that it parses to.
use chibidb.Prelude.{
  ℕ, ◌+◌, ◌-◌, ◌^◌, ◌≤◌, ◌<◌, ◌≡◌, refl, sym, ap, subst, ◌∙◌, false, ltb, List, [], ◌∷◌, ◌++◌,
  Option, none, length, length-append, arith,
}
use chibidb.Prelude.Holds.{Holds, Holds-left, Holds-right, Holds-self}
use chibidb.Prelude.Result.{ok}
use chibidb.Storage.Lsm.Block.Build.{Fit}
use chibidb.Storage.Lsm.Block.Get.{first_of}
use chibidb.Storage.Lsm.Sstable.{
  SsTable, footer, footer_len, magic, smallest_key, largest_key, or_empty, parse_table,
}
use chibidb.Storage.Lsm.Sstable.Built.{
  Fit-left, filter_of, before_footer, filter_handle, index_handle, table_image, Fit-right,
}
use chibidb.Storage.Lsm.Sstable.Groups.{
  Pairs, concat, last_of, NoneEmpty, image, images, handle_of, marks,
}
use chibidb.Storage.Lsm.Sstable.Handles.{length-encode_handle, slice-Holds}
use chibidb.Storage.Lsm.Sstable.Parse.{
  same_bytes_refl, length-footer, footer-words, handles, read_block-image, read_index-marks,
}
use mathlib.Core.List.{append-nil}

last_of-fits : (k : List ℕ) (g : Pairs) → length k < 2 ^ 32 → Fit g → length (last_of k g) < 2 ^ 32
unfolding Fit
last_of-fits k [] h fit = h
last_of-fits k ((key, value) ∷ g) h (small, fits, rest) = last_of-fits key g small rest

last_of-append : (k : List ℕ) (g rest : Pairs) → last_of k (g ++ rest) ≡ last_of (last_of k g) rest
last_of-append k [] rest = refl
last_of-append k ((key, value) ∷ g) rest = last_of-append key g rest

module _ (interval : ℕ) where
  marks-Fit :
      (start : ℕ) (groups : List Pairs) → Fit (concat groups) → Fit (marks interval start groups)
  unfolding marks Fit
  marks-Fit start [] fit = tt
  marks-Fit start (g ∷ groups) fit = (
    last_of-fits [] g (omega arith) (Fit-left g (concat groups) fit),
    omega (arith, length-encode_handle (handle_of interval start g)),
    marks-Fit (start + length (image interval g)) groups (Fit-right g (concat groups) fit),
  )

  smallest_key-handles :
      (bytes : List ℕ) (groups : List Pairs)
      → length bytes < 2 ^ 32
      → Fit (concat groups)
      → NoneEmpty groups
      → Holds bytes 0 (images interval groups)
      → smallest_key bytes (handles interval 0 groups) ≡ ok (or_empty (first_of (concat groups)))
  unfolding smallest_key handles images
  smallest_key-handles bytes [] short fit full h = refl
  smallest_key-handles bytes (g ∷ groups) short fit (some_pair, full) h =
      let (block, parsed, all, first, lookup) =
        read_block-image interval bytes 0 g short (Fit-left g (concat groups) fit)
          (Holds-left bytes 0 (image interval g) (images interval groups) h) in
      rw (parsed, first)
        (ap (λ (key : Option (List ℕ)). ok (or_empty key))
          (first_of-append g (concat groups) some_pair))
    where
      first_of-append : (g rest : Pairs) → 1 ≤ length g → first_of g ≡ first_of (g ++ rest)
      first_of-append [] rest some_pair = absurd (omega (arith, some_pair))
      first_of-append ((key, value) ∷ g) rest some_pair = refl

  largest_key-handles :
      (k : List ℕ) (start : ℕ) (groups : List Pairs)
      → NoneEmpty groups
      → largest_key (handles interval start groups) ≡ last_of [] (concat groups)
  unfolding largest_key handles
  largest_key-handles k start [] full = refl
  largest_key-handles k start (g ∷ []) full = ap (last_of []) (sym (append-nil g))
  largest_key-handles k start (g ∷ next ∷ groups) (some_pair, (some_next, full)) =
      largest_key-handles k (start + length (image interval g)) (next ∷ groups) (some_next, full)
      ∙ later_last next (concat groups) some_next
      ∙ sym (last_of-append [] g (next ++ concat groups))
    where
      later_last :
          (next rest : Pairs)
          → 1 ≤ length next
          → last_of [] (next ++ rest) ≡ last_of (last_of [] g) (next ++ rest)
      later_last [] rest some_pair = absurd (omega (arith, some_pair))
      later_last ((key, value) ∷ next) rest some_pair = refl

  -- The table that the image of some groups parses to.
  abbrev pub table_of : List Pairs → SsTable
  table_of groups = record {
    bytes = table_image interval groups;
    index = handles interval 0 groups;
    bloom = filter_of (concat groups);
    first_key = or_empty (first_of (concat groups));
    last_key = last_of [] (concat groups);
    file_no = none;
  }

  module _ (groups : List Pairs) (fit : Fit (concat groups)) (full : NoneEmpty groups)
      (short : length (table_image interval groups) < 2 ^ 32) where
    -- Where the data blocks, the filter, the index and the footer stand.
    pub parts :
        Holds (table_image interval groups) 0 (images interval groups)
        × Holds
            (table_image interval groups)
            (length (images interval groups))
            (filter_of (concat groups))
        × Holds
            (table_image interval groups)
            (length (images interval groups ++ filter_of (concat groups)))
            (image interval (marks interval 0 groups))
        × Holds
            (table_image interval groups)
            (length (before_footer interval groups))
            (footer (filter_handle interval groups) (index_handle interval groups))
    unfolding table_image
    parts =
        let bytes = table_image interval groups in
        let data_blocks = images interval groups in
        let filter = filter_of (concat groups) in
        let index = image interval (marks interval 0 groups) in
        let last = footer (filter_handle interval groups) (index_handle interval groups) in
        let whole : Holds bytes 0 (((data_blocks ++ filter) ++ index) ++ last) = Holds-self bytes in
        let front = Holds-left bytes 0 ((data_blocks ++ filter) ++ index) last whole in
        let fore = Holds-left bytes 0 (data_blocks ++ filter) index front in
        let from_zero : (n : ℕ) → 0 + n ≡ n = λ n. omega arith in
        (
          Holds-left bytes 0 data_blocks filter fore,
          subst (λ (p : ℕ). Holds bytes p filter) (from_zero (length data_blocks))
              (Holds-right bytes 0 data_blocks filter fore),
          subst (λ (p : ℕ). Holds bytes p index) (from_zero (length (data_blocks ++ filter)))
              (Holds-right bytes 0 (data_blocks ++ filter) index front),
          subst (λ (p : ℕ). Holds bytes p last)
              (from_zero (length ((data_blocks ++ filter) ++ index)))
              (Holds-right bytes 0 ((data_blocks ++ filter) ++ index) last whole),
        )

    pub parse_table-table_image : parse_table (table_image interval groups) ≡ ok (table_of groups)
    unfolding parse_table
    parse_table-table_image =
        let bytes = table_image interval groups in
        let (at_blocks, at_filter, at_index, at_footer) = parts in
        let f = filter_handle interval groups in
        let i = index_handle interval groups in
        let size : length bytes ≡ length (before_footer interval groups) + footer_len =
          unfold table_image in
          length-append (before_footer interval groups) (footer f i)
          ∙ ap (λ (n : ℕ). length (before_footer interval groups) + n) (length-footer f i) in
        let fore =
          length-append (images interval groups ++ filter_of (concat groups))
            (image interval (marks interval 0 groups)) in
        let front = length-append (images interval groups) (filter_of (concat groups)) in
        let small : (f.offset < 2 ^ 64)
            × (f.size < 2 ^ 64)
            × (i.offset < 2 ^ 64)
            × (i.size < 2 ^ 64) =
          (
            omega (arith, short, size, fore, front),
            omega (arith, short, size, fore, front),
            omega (arith, short, size, fore, front),
            omega (arith, short, size, fore, front),
          ) in
        let (w1, w2, w3, w4, tail) =
          footer-words bytes (length (before_footer interval groups)) f i at_footer (sym size)
            small in
        let at : length bytes - footer_len ≡ length (before_footer interval groups) =
          omega (arith, size) in
        let long : ltb (length bytes) footer_len ≡ false = ground (arith, size) in
        let (block, parsed, all, first, lookup) =
          read_block-image interval bytes
            (length (images interval groups ++ filter_of (concat groups))) (marks interval 0 groups)
            short (marks-Fit 0 groups fit) at_index in
        rw
          (
            at,
            long,
            tail,
            same_bytes_refl magic,
            w1,
            w2,
            w3,
            w4,
            slice-Holds bytes (length (images interval groups)) (filter_of (concat groups))
                at_filter (omega (arith, short)),
            parsed,
            all,
            read_index-marks interval 0 groups (omega (arith, short, size, fore, front)),
            smallest_key-handles bytes groups short fit full at_blocks,
            largest_key-handles [] 0 groups full,
          )
          refl
