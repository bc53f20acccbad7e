-- ===== src/Storage/Lsm/MemTable.antt =====
-- src/storage/lsm/memtable.rs: the sorted write buffer. The `BTreeMap` is a list of entries in the
-- order of their keys, and each operation runs under the table's lock.
pub mod Sorted
pub mod Accounting
pub mod Range
mod Tests
use chibidb.Prelude.{
  ℕ, ◌+◌, ◌-◌, ◌%◌, ◌^◌, Bool, true, false, not, ◌&&◌, leb, if◌then◌else◌, List, [], ◌∷◌, Option,
  none, some, length,
}
use chibidb.Prelude.Bytes.{lt_bytes}

abbrev pub Key : Type 0
Key = List ℕ

pub data MemEntry : Type 0 where
  value : List ℕ → MemEntry
  tombstone : MemEntry

abbrev pub payload_len : MemEntry → ℕ
payload_len (MemEntry.value v) = length v
payload_len MemEntry.tombstone = 0

pub record MemTable : Type 0 where
  pub entries : List (Key × MemEntry)
  pub bytes : ℕ

abbrev pub new : MemTable
new = record { entries = []; bytes = 0 }

-- `BTreeMap::insert`.
pub insert_entry : Key → MemEntry → List (Key × MemEntry) → List (Key × MemEntry)
insert_entry key e [] = (key, e) ∷ []
insert_entry key e ((k, old) ∷ m) =
    let later = insert_entry key e m in
    if lt_bytes key k
    then (key, e) ∷ (k, old) ∷ m
    else if lt_bytes k key
    then (k, old) ∷ later
    else (key, e) ∷ m

-- `BTreeMap::get`.
pub find : Key → List (Key × MemEntry) → Option MemEntry
find key [] = none
find key ((k, e) ∷ m) =
    let later = find key m in
    if lt_bytes key k then none else if lt_bytes k key then later else some e

-- The bytes that a key with its entry counts for.
abbrev pub entry_len : ℕ → Option MemEntry → ℕ
entry_len key_len none = 0
entry_len key_len (some e) = key_len + payload_len e

-- The atomic counter is a `usize` of 64 bits, and adding and subtracting wrap.
pub account : ℕ → ℕ → Option MemEntry → MemEntry → ℕ
account bytes key_len old e =
    let old_bytes = entry_len key_len old in
    let new_bytes = key_len + payload_len e in
    if leb old_bytes new_bytes
    then (bytes + (new_bytes - old_bytes)) % 2 ^ 64
    else (bytes + (2 ^ 64 - (old_bytes - new_bytes) % 2 ^ 64)) % 2 ^ 64

pub write : MemTable → Key → MemEntry → MemTable
write t key e = record {
  entries = insert_entry key e t.entries;
  bytes = account t.bytes (length key) (find key t.entries) e;
}

pub put : MemTable → Key → List ℕ → MemTable
put t key v = write t key (MemEntry.value v)

pub delete : MemTable → Key → MemTable
delete t key = write t key MemEntry.tombstone

pub get : MemTable → Key → Option MemEntry
get t key = find key t.entries

-- The keys from `start` on, up to `end`.
pub between : Key → Key → List (Key × MemEntry) → List (Key × MemEntry)
between start end [] = []
between start end ((k, e) ∷ m) =
    let rest = between start end m in
    if not (lt_bytes k start) && lt_bytes k end then (k, e) ∷ rest else rest

-- `none` is the panic of `BTreeMap::range` when the bounds are crossed.
pub range : MemTable → Key → Key → Option (List (Key × MemEntry))
range t start end = if lt_bytes end start then none else some (between start end t.entries)

abbrev pub approx_bytes : MemTable → ℕ
approx_bytes t = t.bytes
