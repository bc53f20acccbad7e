-- ===== src/Lib.antt =====
-- chibidb: a teaching database in Rust, and a model of its core with the theorems that make it
-- correct. Every definition follows the Rust code that its file's first comment names.
--
-- The parts. A session begins a transaction with the transaction manager, which gives out an id and
-- a snapshot. Row versions carry the id of their creator and of their deleter; what a transaction
-- sees of a version is decided from its snapshot and the commit status. Writers lock rows in the lock
-- manager until their transaction ends. Serializable transactions also note the tables that they
-- read and write with the conflict tracker, and ask it for a cycle before they commit. The pages
-- under the tables are cached in buffer pools, each with an eviction policy. Heap files keep
-- their rows in slotted pages, each row encoded with its large values apart. Changes of pages go to
-- the write-ahead log before the pages do, and a restart replays those of committed transactions.
-- Indexes compare encoded keys byte by byte; the log-structured tables buffer writes in a memtable in
-- that order, and each of their files is a run of blocks with an index over them and a filter of its
-- keys. Queries evaluate operators on values, with NULL as a third truth value, and LIKE patterns.
--
-- Which file models what, with paths from the repository's root:
--   Db/Clog         src/db/clog.rs. CommitStatus is the struct of that name with its words as a list
--                   of 64-bit words; mark_committed, is_committed, ids and advance_base are its
--                   methods. mark_shared and mark_exclusive are the two halves of mark_committed,
--                   under the read and the write lock.
--   Db/Transaction  src/db/transaction.rs and the visibility test of src/db/trx.rs.
--                   TransactionManager has the counter, the open ids and the commit status; commit is
--                   also given as its single effects (count_commit, record_commit, close, commit_ssi),
--                   between which other sessions may run.
--   Db/Ssi          src/db/ssi.rs. Ssi is the struct Inner; sets are lists without duplicates and maps
--                   are association lists. The stack search of has_cycle_through is search_loop.
--   Db/LockManager  src/db/lockmgr.rs. lock is try_lock up to its loop and poll for one round of it;
--                   each function is one critical section under the table's mutex, and Safety runs
--                   them in any interleaving.
--   Storage/Replacer  src/storage/replacer.rs. The queues of LRU and FIFO and the ring of CLOCK; the
--                   pool's frames are a function to pin counts and one to reference bits.
--   Storage/Slotted  src/storage/slotted.rs on pages of 8192 bytes. get_slot is slot_off and slot_len;
--                   the loops of compact are collect and pack.
--   Storage/Lsm     src/storage/lsm. Coding is coding.rs, with the position that the source advances
--                   returned; MemTable is memtable.rs, the BTreeMap a sorted list; Bloom is bloom.rs
--                   over bytes; Block is block.rs (the loops of get are bisect and seek, that of
--                   entries is collect_entries); Sstable is sstable.rs on table images.
--   Storage/Codec   src/storage/codec.rs. The resolver of large objects is the interface LobResolver,
--                   with the laws that a store of them has in IsLawful.
--   Wal             src/wal.rs. Frames are bytes; scan_frames is the loop of the reader, plan_recovery
--                   the plan of a restart, with the file's bytes as its argument.
--   Exec/Like       like_match and compile_like of src/exec/eval.rs, on characters.
--   Exec/Int64      i64 and its checked operations, which are the standard library's: a result is there
--                   when the exact one fits.
--   Exec/Binary     the operators of src/exec/eval.rs: eval_binary with int_arith, cmp_values and the
--                   connectives, and the unary operators. The arithmetic and the order of floats are
--                   the parameter Floats.
--   Sql/Datetime    src/sql/datetime.rs: parse_date and the civil calendar.
--   Index/Key       src/index/key.rs: encode_key on the bits of a value.
--   Storage/Header  src/storage/header.rs: the common prefix of the data files.
--   Prelude         src/error.rs in Result; lists, sets and maps over the native numbers.
--
-- Integers, bounds and fuel. An id is a u64 and the counter wraps at 2 ^ 64 as the code's does; a
-- theorem that a fresh id is given out asks that the counter has not run out. The search for a cycle
-- runs on fuel, the number of edges and two; every target is pushed once at most. A varint of 32 bits
-- takes five rounds and one of 64 bits ten, seven bits each. The walk of in_cycle, the turns of CLOCK
-- and the probes of a filter are bounded in the code itself. The counters of commits and of the
-- memtable's bytes wrap at 2 ^ 64. The product of keys and bits in a filter is a usize in the code and
-- has no bound in the model: the two agree while it is below 2 ^ 64, as it is for the 10 bits that the
-- tables ask for and any number of keys that fits in memory.
-- The reader of the log has one round more than the file has bytes, and a frame has 13 bytes or more;
-- a loop that runs out of them gives none. The loops of a block run as many rounds as it has bytes or restarts, and an entry has a byte or
-- more. A block and a table are below 2 ^ 32 bytes where a theorem says so, since offsets of restarts
-- are cut off at 32 bits.
--
-- Errors. A failure is a value of Result or Option, with the variable parts of its text left out. What
-- panics in the code, as an unreachable arm does, is an error in the model. The debug assertions that
-- the keys of a block and of a table ascend are on in debug builds only: add_entry and add_pair are the
-- code without them, and debug_add, debug_add_pair and debug_finish_table the code with them, where one
-- that fails gives none. The
-- assertion that LRU is told only of keys that it has is left out: of another key, record_access_lru
-- changes nothing.
--
-- Not modelled: sleeping and waking on the condition variable, whose effect is only when the next
-- round runs; the memory orders of the atomics, each access to one being a single effect; opening,
-- writing and syncing files; the parser, the expression tree, the plans and operators of the executor,
-- the trees of the indexes, the levels of the LSM store, the catalog
-- and the network.
pub mod Prelude
pub mod Db
pub mod Storage
pub mod Index
pub mod Wal
pub mod Exec
pub mod Sql
