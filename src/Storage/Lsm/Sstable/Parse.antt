-- ===== src/Storage/Lsm/Sstable/Parse.antt =====
-- The footer of a table's image, and the parts that its handles name.
use chibidb.Prelude.{
  ℕ, suc, ◌+◌, ◌-◌, ◌^◌, ◌≤◌, ◌<◌, ◌≡◌, refl, sym, ap, subst, ◌∙◌, true, List, [], ◌∷◌, ◌++◌,
  Option, length, drop, length-append, arith,
}
use chibidb.Prelude.Bytes.{lt_bytes_irrefl}
use chibidb.Prelude.Holds.{
  Holds, Holds-left, Holds-right, sub_list-Holds, drop-Holds_end, Holds-inside,
}
use chibidb.Prelude.Result.{ok}
use chibidb.Storage.Lsm.Coding.{to_le_bytes, from_le_bytes}
use chibidb.Storage.Lsm.Coding.Words.{from_le_bytes-to_le_bytes}
use chibidb.Storage.Lsm.Block
use chibidb.Storage.Lsm.Block.{BlockBuilder, new_builder, first_key, get_value}
use chibidb.Storage.Lsm.Block.Build.{Fit, add_all}
use chibidb.Storage.Lsm.Block.Get.{first_of}
use chibidb.Storage.Lsm.Block.Reset.{length-finish}
use chibidb.Storage.Lsm.Block.RoundTrip.{parse-image}
use chibidb.Storage.Lsm.Block.Seek.{Ascending, Answers}
use chibidb.Storage.Lsm.Sstable.{
  BlockHandle, footer, magic, footer_len, word, same_bytes, read_block, read_index, iter_blocks,
}
use chibidb.Storage.Lsm.Sstable.Built.{Fit-left, Fit-right}
use chibidb.Storage.Lsm.Sstable.Groups.{Pairs, concat, last_of, image, images, handle_of, marks}
use chibidb.Storage.Lsm.Sstable.Handles.{decode_handle-encode_handle, slice-Holds}
use mathlib.Core.List.{append_assoc, append-nil}

pub word-Holds :
    (bytes : List ℕ) (at v : ℕ) → Holds bytes at (to_le_bytes 8 v) → v < 2 ^ 64 → word bytes at ≡ v
word-Holds bytes at v h small =
    ap from_le_bytes (sub_list-Holds bytes at (to_le_bytes 8 v) h)
    ∙ from_le_bytes-to_le_bytes 8 v small

pub same_bytes_refl : (xs : List ℕ) → same_bytes xs xs ≡ true
unfolding same_bytes
same_bytes_refl xs = rw (lt_bytes_irrefl xs) refl

pub length-footer : (f i : BlockHandle) → length (footer f i) ≡ footer_len
unfolding footer
length-footer f i = refl

module _ (bytes : List ℕ) (at : ℕ) (f i : BlockHandle) (h : Holds bytes at (footer f i))
    (end : at + footer_len ≡ length bytes)
    (small : (f.offset < 2 ^ 64)
      × (f.size < 2 ^ 64)
      × (i.offset < 2 ^ 64)
      × (i.size < 2 ^ 64)) where
  -- The words of the footer, and the magic behind them.
  pub footer-words :
      (word bytes at ≡ f.offset)
      × (word bytes (at + 8) ≡ f.size)
      × (word bytes (at + 16) ≡ i.offset)
      × (word bytes (at + 24) ≡ i.size)
      × (drop (length bytes - 8) bytes ≡ magic)
  unfolding footer
  footer-words =
      let a = to_le_bytes 8 (f.offset) in
      let b = to_le_bytes 8 (f.size) in
      let c = to_le_bytes 8 (i.offset) in
      let d = to_le_bytes 8 (i.size) in
      let whole : Holds bytes at (a ++ (b ++ (c ++ (d ++ magic)))) = h in
      let at_b = Holds-right bytes at a (b ++ (c ++ (d ++ magic))) whole in
      let at_c = Holds-right bytes (at + 8) b (c ++ (d ++ magic)) at_b in
      let at_d = Holds-right bytes (at + 8 + 8) c (d ++ magic) at_c in
      let at_m = Holds-right bytes (at + 8 + 8 + 8) d magic at_d in
      let two : at + 8 + 8 ≡ at + 16 = omega arith in
      let three : at + 8 + 8 + 8 ≡ at + 24 = omega arith in
      let four : at + 8 + 8 + 8 + 8 ≡ length bytes - 8 = omega (arith, end) in
      (
        word-Holds bytes at (f.offset) (Holds-left bytes at a (b ++ (c ++ (d ++ magic))) whole)
            (small.0),
        word-Holds bytes (at + 8) (f.size) (Holds-left bytes (at + 8) b (c ++ (d ++ magic)) at_b)
            (small.1),
        word-Holds bytes (at + 16) (i.offset)
            (subst (λ (p : ℕ). Holds bytes p c) two
              (Holds-left bytes (at + 8 + 8) c (d ++ magic) at_c))
            (small.2),
        word-Holds bytes (at + 24) (i.size)
            (subst (λ (p : ℕ). Holds bytes p d) three
              (Holds-left bytes (at + 8 + 8 + 8) d magic at_d))
            (small.3),
        drop-Holds_end bytes (length bytes - 8) magic
            (subst (λ (p : ℕ). Holds bytes p magic) four at_m) (omega (arith, end)),
      )

module _ (interval : ℕ) where
  -- A data block that stands in a table.
  pub read_block-image :
      (bytes : List ℕ) (start : ℕ) (g : Pairs)
      → length bytes < 2 ^ 32
      → Fit g
      → Holds bytes start (image interval g)
      → (block : Block.Block) × (read_block bytes (handle_of interval start g) ≡ ok block)
        × (Block.entries block ≡ ok g)
        × (first_key block ≡ ok (first_of g))
        × (Ascending g
            → (key : List ℕ)
            → (answer : Option (List ℕ)) × (get_value block key ≡ ok answer) × Answers key g answer)
  unfolding read_block
  read_block-image bytes start g short fit h =
      let b = add_all (new_builder interval) g in
      let part : length (b.buffer) + 4 ≤ length (image interval g) =
        unfold image in length-finish b in
      let fits : suc (length (b.buffer)) < 2 ^ 32 =
        omega (arith, short, Holds-inside bytes start (image interval g) h, part) in
      let (block, parsed, all, first, lookup) = parse-image interval g fit fits in
      (
        block,
        rw (slice-Holds bytes start (image interval g) h (omega (arith, short)))
            (unfold image in parsed),
        all,
        first,
        lookup,
      )

  -- The index of the blocks, as the reader has it.
  unfoldable pub handles : ℕ → List Pairs → List (List ℕ × BlockHandle)
  handles start [] = []
  handles start (g ∷ groups) =
      (last_of [] g, handle_of interval start g)
      ∷ handles (start + length (image interval g)) groups

  pub read_index-marks :
      (start : ℕ) (groups : List Pairs)
      → start + length (images interval groups) < 2 ^ 32
      → read_index (marks interval start groups) ≡ ok (handles start groups)
  unfolding read_index marks handles images
  read_index-marks start [] short = refl
  read_index-marks start (g ∷ groups) short =
      let size = length-append (image interval g) (images interval groups) in
      rw
        (
          decode_handle-encode_handle start (length (image interval g)) (omega (arith, short))
              (omega (arith, short, size)),
          read_index-marks (start + length (image interval g)) groups (omega (arith, short, size)),
        )
        refl

  pub iter_blocks-images :
      (bytes : List ℕ) (start : ℕ) (groups : List Pairs) (out : Pairs)
      → length bytes < 2 ^ 32
      → Fit (concat groups)
      → Holds bytes start (images interval groups)
      → iter_blocks bytes (handles start groups) out ≡ ok (out ++ concat groups)
  unfolding iter_blocks handles images
  iter_blocks-images bytes start [] out short fit h = ap ok (sym (append-nil out))
  iter_blocks-images bytes start (g ∷ groups) out short fit h =
      let (block, parsed, all, first, lookup) =
        read_block-image bytes start g short (Fit-left g (concat groups) fit)
          (Holds-left bytes start (image interval g) (images interval groups) h) in
      let rest =
        iter_blocks-images bytes (start + length (image interval g)) groups (out ++ g) short
          (Fit-right g (concat groups) fit)
          (Holds-right bytes start (image interval g) (images interval groups) h) in
      rw (parsed, all) (rest ∙ ap ok (append_assoc out g (concat groups)))
