-- ===== src/Storage/Lsm/MemTable/Tests.antt =====
-- Runs of the memtable, and the theorems at a concrete table.
use chibidb.Prelude.{◌≡◌, refl, [], ◌∷◌, ite, none, some, Name_discrete}
use chibidb.Prelude.Bytes.{lt_bytes}
use chibidb.Storage.Lsm.MemTable.{
  Key, MemEntry, MemTable, new, insert_entry, find, account, write, put, delete, get, between,
  range, approx_bytes,
}
use chibidb.Storage.Lsm.MemTable.Sorted.{get-write}
use chibidb.Storage.Lsm.MemTable.Accounting.{IsValid, write-IsValid}

program : Unit {0}
unfolding lt_bytes insert_entry find account write put delete get between range
program = tt

abbrev a : Key
a = 97 ∷ []

abbrev b : Key
b = 98 ∷ []

abbrev two : MemTable
two = put (put new b (1 ∷ 2 ∷ [])) a (3 ∷ [])

run : two ≡ record {
  entries = (a, MemEntry.value (3 ∷ [])) ∷ (b, MemEntry.value (1 ∷ 2 ∷ [])) ∷ [];
  bytes = 5;
}
unfolding program
run = refl

delete_run : get (delete two b) b ≡ some MemEntry.tombstone
unfolding program
delete_run = refl

bytes_run : approx_bytes (delete two b) ≡ 3
unfolding program
bytes_run = refl

range_run : range two b a ≡ none
unfolding program
range_run = refl

two-IsValid : IsValid two
unfolding put
two-IsValid = write-IsValid _ _ _ (write-IsValid new _ _ (tt, refl))

get-write_example :
    get (write two a MemEntry.tombstone) b
    ≡ ite (Name_discrete a b) (some MemEntry.tombstone) (get two b)
get-write_example = get-write two a b MemEntry.tombstone

write-IsValid_example : IsValid (write two b MemEntry.tombstone)
write-IsValid_example = write-IsValid two b MemEntry.tombstone two-IsValid
