-- ===== src/Storage/Lsm/Sstable.antt =====
-- src/storage/lsm/sstable.rs: immutable tables of data blocks, a bloom filter and an index block.
pub mod Handles
pub mod Groups
pub mod Built
pub mod Parse
pub mod Lookup
pub mod Asserts
pub mod Image
pub mod RoundTrip
pub mod Scanner
mod Tests
use chibidb.Prelude.{
  ℕ, zero, suc, ◌+◌, ◌-◌, ◌*◌, ◌^◌, max, Bool, true, false, ◌&&◌, not, ltb, leb, if◌then◌else◌,
  List, [], ◌∷◌, ◌++◌, Option, none, some, length, take, drop, sub_list, get_elem?, ◌||◌,
}
use chibidb.Prelude.Bytes.{lt_bytes}
use chibidb.Prelude.Result.{Error, Result, ok, err, ◌>>=◌}
use chibidb.Storage.Lsm.Coding.{put_varint64, get_varint64, to_le_bytes, from_le_bytes}
use chibidb.Storage.Lsm.Bloom
use chibidb.Storage.Lsm.Bloom.{BloomBuilder, maybe_contains}
use chibidb.Storage.Lsm.Block
use chibidb.Storage.Lsm.Block.{
  BlockBuilder, new_builder, add_entry, is_empty, is_fresh, current_size_estimate, get_value,
  add_asserts,
}

abbrev pub magic : List ℕ
magic = 83 ∷ 83 ∷ 84 ∷ 66 ∷ 76 ∷ 48 ∷ 48 ∷ 50 ∷ []

abbrev pub footer_len : ℕ
footer_len = 40

abbrev pub bloom_bits_per_key : ℕ
bloom_bits_per_key = 10

pub record BlockHandle : Type 0 where
  pub offset : ℕ
  pub size : ℕ

pub encode_handle : BlockHandle → List ℕ
encode_handle h = put_varint64 (put_varint64 [] (h.offset)) (h.size)

pub decode_handle : List ℕ → Result BlockHandle
decode_handle bytes = get_varint64 bytes 0 >>= (λ (offset, pos).
    get_varint64 bytes pos >>= (λ (size, end). ok (record { offset = offset; size = size })))

pub record SsTableBuilder : Type 0 where
  pub block_size : ℕ
  pub bytes : List ℕ
  pub index_block : BlockBuilder
  pub current : BlockBuilder
  pub bloom : BloomBuilder
  pub last_key : List ℕ
  pub started : Bool
  pub num_entries : ℕ

pub new_table : ℕ → ℕ → SsTableBuilder
new_table block_size restart_interval = record {
  block_size = max block_size 64;
  bytes = [];
  index_block = new_builder restart_interval;
  current = new_builder restart_interval;
  bloom = Bloom.new bloom_bits_per_key;
  last_key = [];
  started = false;
  num_entries = 0;
}

pub flush_block : SsTableBuilder → SsTableBuilder
flush_block b =
    let (block, current) = Block.finish (b.current) in
    let handle : BlockHandle = record { offset = length (b.bytes); size = length block } in
    if is_fresh (b.current) then b else record b {
      bytes = b.bytes ++ block;
      current = current;
      index_block = add_entry (b.index_block) (b.last_key) (encode_handle handle);
    }

-- What `add` notes of a pair, before it may flush.
abbrev pub note_pair : SsTableBuilder → List ℕ → List ℕ → SsTableBuilder
note_pair b key value = record b {
  started = true;
  last_key = key;
  current = add_entry (b.current) key value;
  bloom = Bloom.add (b.bloom) key;
  num_entries = b.num_entries + 1;
}

-- `add` without its assertions.
pub add_pair : SsTableBuilder → List ℕ → List ℕ → SsTableBuilder
add_pair b key value =
    let added = note_pair b key value in
    if leb (b.block_size) (current_size_estimate (added.current)) then flush_block added else added

-- The assertion of the index block's `add` in `flush_block`.
pub flush_asserts : SsTableBuilder → Bool
flush_asserts b = is_fresh (b.current) || add_asserts (b.index_block) (b.last_key)

-- The `debug_assert!` of `add`, that of the data block's `add`, and that of a flush.
pub add_pair_asserts : SsTableBuilder → List ℕ → List ℕ → Bool
add_pair_asserts b key value =
    let added = note_pair b key value in
    (not (b.started) || lt_bytes (b.last_key) key)
    && (add_asserts (b.current) key
        && (if leb (b.block_size) (current_size_estimate (added.current))
            then flush_asserts added
            else true))

-- `add` and `finish` where debug assertions are on; `none` is the panic of one that fails.
pub debug_add_pair : SsTableBuilder → List ℕ → List ℕ → Option SsTableBuilder
debug_add_pair b key value =
    if add_pair_asserts b key value then some (add_pair b key value) else none

pub footer : BlockHandle → BlockHandle → List ℕ
footer filter index =
    to_le_bytes 8 (filter.offset)
    ++ (to_le_bytes 8 (filter.size)
        ++ (to_le_bytes 8 (index.offset) ++ (to_le_bytes 8 (index.size) ++ magic)))

-- The table image of `finish`.
pub finish_table : SsTableBuilder → List ℕ
finish_table b =
    let last = flush_block b in
    let filter = Bloom.finish (last.bloom) in
    let filter_handle : BlockHandle = record {
      offset = length (last.bytes);
      size = length filter;
    } in
    let (index_block, reset) = Block.finish (last.index_block) in
    let index_handle : BlockHandle = record {
      offset = length (last.bytes ++ filter);
      size = length index_block;
    } in
    ((last.bytes ++ filter) ++ index_block) ++ footer filter_handle index_handle

pub debug_finish_table : SsTableBuilder → Option (List ℕ)
debug_finish_table b = if flush_asserts b then some (finish_table b) else none

pub record SsTable : Type 0 where
  pub bytes : List ℕ
  pub index : List (List ℕ × BlockHandle)
  pub bloom : List ℕ
  pub first_key : List ℕ
  pub last_key : List ℕ
  pub file_no : Option ℕ

pub slice : List ℕ → BlockHandle → Result (List ℕ)
slice bytes handle =
    if leb (2 ^ 64) (handle.offset + handle.size)
    then err (Error.runtime "sstable block handle overflows")
    else if ltb (length bytes) (handle.offset + handle.size)
    then err (Error.runtime "sstable block handle out of range")
    else ok (sub_list (handle.offset) (handle.offset + handle.size) bytes)

pub same_bytes : List ℕ → List ℕ → Bool
same_bytes xs ys = not (lt_bytes xs ys) && not (lt_bytes ys xs)

pub read_block : List ℕ → BlockHandle → Result Block.Block
read_block bytes handle = slice bytes handle >>= Block.parse

-- The word of 64 bits at a position.
abbrev pub word : List ℕ → ℕ → ℕ
word bytes at = from_le_bytes (sub_list at (at + 8) bytes)

pub read_index : List (List ℕ × List ℕ) → Result (List (List ℕ × BlockHandle))
read_index [] = ok []
read_index ((key, encoded) ∷ kvs) =
    decode_handle encoded >>= (λ handle. read_index kvs >>= (λ index. ok ((key, handle) ∷ index)))

abbrev pub or_empty : Option (List ℕ) → List ℕ
or_empty none = []
or_empty (some key) = key

-- The smallest key, from the block that stands first in the index.
pub smallest_key : List ℕ → List (List ℕ × BlockHandle) → Result (List ℕ)
smallest_key bytes [] = ok []
smallest_key bytes ((key, handle) ∷ index) =
    read_block bytes handle >>= (λ block. Block.first_key block >>= (λ first. ok (or_empty first)))

pub largest_key : List (List ℕ × BlockHandle) → List ℕ
largest_key [] = []
largest_key ((key, handle) ∷ []) = key
largest_key (pair ∷ next ∷ index) = largest_key (next ∷ index)

pub parse_table : List ℕ → Result SsTable
parse_table bytes =
    let at = length bytes - footer_len in
    let filter_handle : BlockHandle = record {
      offset = word bytes at;
      size = word bytes (at + 8);
    } in
    let index_handle : BlockHandle = record {
      offset = word bytes (at + 16);
      size = word bytes (at + 24);
    } in
    if ltb (length bytes) footer_len
    then err (Error.runtime "sstable is too short")
    else if not (same_bytes (drop (length bytes - 8) bytes) magic)
    then err (Error.runtime "sstable magic mismatch")
    else slice bytes filter_handle >>= (λ bloom. read_block bytes index_handle >>= (λ index_block.
      Block.entries index_block >>= (λ pairs. read_index pairs >>= (λ index.
        smallest_key bytes index >>= (λ first. ok (record {
          bytes = bytes;
          index = index;
          bloom = bloom;
          first_key = first;
          last_key = largest_key index;
          file_no = none;
        }))))))

pub with_file_no : SsTable → ℕ → SsTable
with_file_no t file_no = record t { file_no = some file_no }

abbrev pub num_blocks : SsTable → ℕ
num_blocks t = length (t.index)

abbrev pub unless_empty : List ℕ → Option (List ℕ)
unless_empty key = if is_empty key then none else some key

pub table_first_key : SsTable → Option (List ℕ)
table_first_key t = unless_empty (t.first_key)

pub table_last_key : SsTable → Option (List ℕ)
table_last_key t = unless_empty (t.last_key)

pub may_contain : SsTable → List ℕ → Bool
may_contain t key =
    not (is_empty (t.index))
    && (not (lt_bytes key (t.first_key)) && not (lt_bytes (t.last_key) key))

-- `partition_point` on an index in the order of its keys, and the handle there.
pub handle_for : List ℕ → List (List ℕ × BlockHandle) → Option BlockHandle
handle_for key [] = none
handle_for key ((last, handle) ∷ index) =
    let later = handle_for key index in if lt_bytes last key then later else some handle

pub get_in_block : SsTable → List ℕ → Option BlockHandle → Result (Option (List ℕ))
get_in_block t key none = ok none
get_in_block t key (some handle) = read_block (t.bytes) handle >>= (λ block. get_value block key)

pub get_pair : SsTable → List ℕ → Result (Option (List ℕ))
get_pair t key =
    let found = get_in_block t key (handle_for key (t.index)) in
    if maybe_contains (t.bloom) key then found else ok none

-- The loop of `iter`.
pub iter_blocks :
    List ℕ → List (List ℕ × BlockHandle) → List (List ℕ × List ℕ) → Result (List (List ℕ × List ℕ))
iter_blocks bytes [] out = ok out
iter_blocks bytes ((key, handle) ∷ index) out =
    read_block bytes handle
    >>= (λ block. Block.entries block >>= (λ kvs. iter_blocks bytes index (out ++ kvs)))

pub iter_table : SsTable → Result (List (List ℕ × List ℕ))
iter_table t = iter_blocks (t.bytes) (t.index) []

pub record SsTableScanner : Type 0 where
  pub table : SsTable
  pub next_block : ℕ
  pub current : List (List ℕ × List ℕ)

pub scanner : SsTable → SsTableScanner
scanner t = record { table = t; next_block = 0; current = [] }

-- The loop of `next_entry` with the rounds left, on the fields of the scanner.
pub next_in :
    ℕ → SsTable → ℕ → List (List ℕ × List ℕ) → Result (Option (List ℕ × List ℕ) × SsTableScanner)
next_in rounds t next_block (entry ∷ current) =
    ok (some entry, record { table = t; next_block = next_block; current = current })
next_in zero t next_block [] =
    ok (none, record { table = t; next_block = next_block; current = [] })
next_in (suc rounds) t next_block [] = elim (get_elem? (t.index) next_block) [
  | none ↦ ok (none, record { table = t; next_block = next_block; current = [] })
  | some (key, handle) ↦
      read_block (t.bytes) handle
      >>= (λ block. Block.entries block >>= (λ kvs. next_in rounds t (next_block + 1) kvs))
]

pub next_entry : SsTableScanner → Result (Option (List ℕ × List ℕ) × SsTableScanner)
next_entry s = next_in (suc (length (s.table.index))) (s.table) (s.next_block) (s.current)
