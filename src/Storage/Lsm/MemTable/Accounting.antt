-- ===== src/Storage/Lsm/MemTable/Accounting.antt =====
-- The invariant of the table, and its counter of bytes.
use chibidb.Prelude.{
  ℕ, ◌+◌, ◌%◌, ◌^◌, ◌≡◌, inl, inr, leb, List, [], ◌∷◌, Option, length, Bool-cases, arith, ap,
}
use chibidb.Prelude.Bytes.{lt_bytes, lt_bytes_connex}
use chibidb.Storage.Lsm.MemTable.{
  Key, MemEntry, payload_len, MemTable, insert_entry, find, entry_len, account, write,
}
use chibidb.Storage.Lsm.MemTable.Sorted.{IsSorted, insert-IsSorted}

-- The keys and the live values together.
abbrev pub total : List (Key × MemEntry) → ℕ
total [] = 0
total ((k, e) ∷ m) = length k + payload_len e + total m

-- The keys ascend, and the counter is the number of bytes, as far as a `usize` holds it.
abbrev pub IsValid : MemTable → Type 0
IsValid t = IsSorted t.entries × (t.bytes ≡ total t.entries % 2 ^ 64)

total-insert :
    (key : Key) (e : MemEntry) (m : List (Key × MemEntry))
    → total (insert_entry key e m) + entry_len (length key) (find key m)
      ≡ total m + (length key + payload_len e)
unfolding insert_entry find
total-insert key e [] = omega arith
total-insert key e ((k, old) ∷ m) = elim (Bool-cases (lt_bytes key k)) [
  | inl c ↦ rw c (omega arith)
  | inr c ↦ rw c (elim (Bool-cases (lt_bytes k key)) [
    | inl d ↦ rw d (omega (arith, total-insert key e m))
    | inr d ↦ rw d (omega (arith, ap length (lt_bytes_connex key k c d)))
  ])
]

-- The counter follows the number of bytes, modulo 2 ^ 64.
account_follows :
    (b key_len before after : ℕ) (old : Option MemEntry) (e : MemEntry)
    → b ≡ before % 2 ^ 64
    → after + entry_len key_len old ≡ before + (key_len + payload_len e)
    → account b key_len old e ≡ after % 2 ^ 64
unfolding account
account_follows b key_len before after old e hb h =
    elim (Bool-cases (leb (entry_len key_len old) (key_len + payload_len e))) [
      | inl up ↦ rw up (ground arith)
      | inr down ↦ rw down (ground arith)
    ]

-- A write keeps the entries in the order of their keys and the counter at the number of bytes of
-- all keys and live values, modulo 2 ^ 64.
pub write-IsValid : (t : MemTable) (key : Key) (e : MemEntry) → IsValid t → IsValid (write t key e)
unfolding write
write-IsValid t key e (s, b) = (
  insert-IsSorted key e t.entries s,
  account_follows t.bytes (length key) (total t.entries) _ (find key t.entries) e b
      (total-insert key e t.entries),
)
