-- ===== src/Storage/Lsm/Sstable/Tests.antt =====
-- A table of three pairs.
use chibidb.Storage.Lsm.Sstable.Asserts.{debug_add_pairs}
use chibidb.Storage.Lsm.Sstable.Scanner.{drain, drain-scanner}
use chibidb.Prelude.{
  ℕ, ◌^◌, ◌<◌, ◌≡◌, refl, false, List, [], ◌∷◌, Option, none, length, arith, some,
}
use chibidb.Prelude.Result.{ok}
use chibidb.Prelude.Bytes.{lt_bytes}
use chibidb.Storage.Lsm.Block
use chibidb.Storage.Lsm.Bloom
use chibidb.Storage.Lsm.Bloom.{hash_from, hash, delta, set_bit, set_probes, set_hashes}
use chibidb.Storage.Lsm.Block.{
  add_entry, common_prefix, push_entry, put_restarts, is_fresh, current_size_estimate, new_builder,
}
use chibidb.Storage.Lsm.Coding.{put_varint64, put_rounds, put_varint32, put_fixed32}
use chibidb.Storage.Lsm.Block.Build.{Fit}
use chibidb.Storage.Lsm.Block.Seek.{Ascending, Answers}
use chibidb.Storage.Lsm.Sstable.{
  SsTable, add_pair, flush_block, footer, encode_handle, new_table, finish_table, parse_table,
  iter_table, get_pair, may_contain, scanner, SsTableBuilder, debug_finish_table,
}
use chibidb.Storage.Lsm.Sstable.Built.{add_pairs}
use chibidb.Storage.Lsm.Sstable.RoundTrip.{iter_table-parse_table, get_pair-parse_table}

abbrev three_pairs : List (List ℕ × List ℕ)
three_pairs = (97 ∷ 97 ∷ [], 1 ∷ []) ∷ (97 ∷ 98 ∷ [], 2 ∷ []) ∷ (98 ∷ [], []) ∷ []

abbrev three_image : List ℕ
three_image = finish_table (add_pairs (new_table 64 2) three_pairs)

three_pairs-Fit : Fit three_pairs
unfolding Fit
three_pairs-Fit =
    (omega arith, omega arith, (omega arith, omega arith, (omega arith, omega arith, tt)))

three_pairs-Ascending : Ascending three_pairs
unfolding lt_bytes
three_pairs-Ascending = ((refl, (refl, tt)), ((refl, tt), (tt, tt)))

three_image_short : length three_image < 2 ^ 32
unfolding add_pairs new_table finish_table add_pair flush_block footer encode_handle put_varint64
    put_rounds put_varint32 put_fixed32 add_entry common_prefix push_entry put_restarts is_fresh
    current_size_estimate new_builder hash_from hash delta set_bit set_probes set_hashes
    Block.finish Bloom.finish Bloom.new Bloom.add
three_image_short = omega arith

iter_table-parse_table_example :
    (b : SsTableBuilder) × (image : List ℕ) × (t : SsTable) × (debug_add_pairs
        (new_table 64 2)
        three_pairs
      ≡ some b)
    × (debug_finish_table b ≡ some image)
    × (parse_table image ≡ ok t)
    × (iter_table t ≡ ok three_pairs)
iter_table-parse_table_example =
    iter_table-parse_table 64 2 three_pairs three_pairs-Fit three_image_short three_pairs-Ascending

get_pair-parse_table_example :
    (t : SsTable) × (parse_table three_image ≡ ok t)
    × ((key : List ℕ)
        → (answer : Option (List ℕ)) × (get_pair t key ≡ ok answer)
          × Answers key three_pairs answer
          × (may_contain t key ≡ false → answer ≡ none))
get_pair-parse_table_example =
    get_pair-parse_table 64 2 three_pairs three_pairs-Fit three_image_short three_pairs-Ascending

drain-scanner_example :
    (b : SsTableBuilder) × (image : List ℕ) × (t : SsTable) × (debug_add_pairs
        (new_table 64 2)
        three_pairs
      ≡ some b)
    × (debug_finish_table b ≡ some image)
    × (parse_table image ≡ ok t)
    × (drain 4 (scanner t) ≡ ok three_pairs)
drain-scanner_example =
    drain-scanner 64 2 three_pairs three_pairs-Fit three_image_short 4 (omega arith)
      three_pairs-Ascending
