-- ===== src/Storage/Slotted.antt =====
-- src/storage/slotted.rs: records in a page, behind a directory of slots. A page is the list of its
-- bytes; every index is in the page by the invariant, so that no access is one that would panic.
pub mod Bytes
pub mod Layout
pub mod Insert
pub mod Scan
pub mod Grow
pub mod Put
pub mod PutAt
pub mod Compact
pub mod Collect
pub mod Compacted
pub mod Delete
mod Tests
use chibidb.Prelude.{
  ℕ, zero, suc, ◌+◌, ◌-◌, ◌*◌, ◌/◌, ◌%◌, Bool, true, false, not, ◌&&◌, ltb, leb, ◌==◌,
  if◌then◌else◌, List, [], ◌∷◌, ◌++◌, Option, none, some, length, get_or, set, max, replicate,
}
use chibidb.Prelude.Result.{Error, Result, ok, err}

abbrev pub page_size : ℕ
page_size = 8192

abbrev pub header_size : ℕ
header_size = 4

abbrev pub slot_size : ℕ
slot_size = 4

abbrev pub Page : Type 0
Page = List ℕ

pub read_u16 : Page → ℕ → ℕ
read_u16 page a = get_or page a 0 + 256 * get_or page (a + 1) 0

-- A number is written `as u16`.
pub write_u16 : Page → ℕ → ℕ → Page
write_u16 page a v = set (set page a (v % 256)) (a + 1) (v / 256 % 256)

pub num_slots : Page → ℕ
num_slots page = read_u16 page 0

pub set_num_slots : Page → ℕ → Page
set_num_slots page n = write_u16 page 0 n

pub raw_free_upper : Page → ℕ
raw_free_upper page = read_u16 page 2

pub set_free_upper : Page → ℕ → Page
set_free_upper page v = write_u16 page 2 v

pub free_upper : Page → ℕ
free_upper page = if raw_free_upper page == 0 then page_size else raw_free_upper page

-- The two halves of `get_slot`.
pub slot_off : Page → ℕ → ℕ
slot_off page i = read_u16 page (header_size + i * slot_size)

pub slot_len : Page → ℕ → ℕ
slot_len page i = read_u16 page (header_size + i * slot_size + 2)

pub set_slot : Page → ℕ → ℕ → ℕ → Page
set_slot page i off len =
    let base = header_size + i * slot_size in write_u16 (write_u16 page base off) (base + 2) len

-- `page[off..].copy_from_slice(record)`.
pub copy_at : Page → ℕ → List ℕ → Page
copy_at page off [] = page
copy_at page off (b ∷ row) = copy_at (set page off b) (off + 1) row

-- `page[off..off + len]`.
pub slice : Page → ℕ → ℕ → List ℕ
slice page off zero = []
slice page off (suc len) = get_or page off 0 ∷ slice page (off + 1) len

-- `(0..n).find(..)` from `i` on, with the slots left.
pub find_unused : ℕ → Page → ℕ → Option ℕ
find_unused zero page i = none
find_unused (suc left) page i =
    let later = find_unused left page (i + 1) in if slot_off page i == 0 then some i else later

-- The row's bytes and its slot.
pub fill : Page → ℕ → ℕ → List ℕ → Page
fill page slot off row = set_slot (copy_at page off row) slot off (length row)

pub page_insert : Page → List ℕ → Result (Page × ℕ)
page_insert page row =
    let n = num_slots page in
    let upper = free_upper page in
    let off = upper - length row in
    elim (find_unused n page 0) [
      | some i ↦
          if ltb upper (header_size + n * slot_size + length row)
          then err Error.page_full
          else ok (set_free_upper (fill page i off row) off, i)
      | none ↦
          if ltb upper (header_size + (n + 1) * slot_size + length row)
          then err Error.page_full
          else ok (set_free_upper (set_num_slots (fill page n off row) (n + 1)) off, n)
    ]

abbrev pub is_unused : Page → ℕ → Bool
is_unused page slot = slot_off page slot == 0 && slot_len page slot == 0

pub page_get : Page → ℕ → Result (Option (List ℕ))
page_get page slot =
    if leb (num_slots page) slot
    then ok none
    else if is_unused page slot
    then ok none
    else ok (some (slice page (slot_off page slot) (slot_len page slot)))

pub page_write : Page → ℕ → List ℕ → Result Page
page_write page slot bytes =
    if leb (num_slots page) slot
    then err (Error.runtime "no record at slot")
    else if is_unused page slot
    then err (Error.runtime "no record at slot")
    else if not (length bytes == slot_len page slot)
    then err (Error.runtime "record length mismatch on rewrite")
    else ok (copy_at page (slot_off page slot) bytes)

-- The live rows with their slots, from slot `i` on, with the slots left.
pub collect : ℕ → Page → ℕ → List (ℕ × List ℕ)
collect zero page i = []
collect (suc left) page i =
    let later = collect left page (i + 1) in
    if slot_off page i == 0
    then later
    else (i, slice page (slot_off page i) (slot_len page i)) ∷ later

-- The rows written back below each other, and where they begin.
pub pack : List (ℕ × List ℕ) → Page → ℕ → Page × ℕ
pack [] page upper = (page, upper)
pack ((i, row) ∷ live) page upper =
    let off = upper - length row in pack live (fill page i off row) off

pub compact : Page → Page
compact page =
    let (packed, upper) = pack (collect (num_slots page) page 0) page page_size in
    set_free_upper packed upper

pub page_delete : Page → ℕ → Result Page
page_delete page slot =
    if leb (num_slots page) slot
    then err (Error.runtime "no record at slot")
    else if is_unused page slot
    then err (Error.runtime "no record at slot")
    else ok (compact (set_slot page slot 0 0))

-- The loop that empties the entries between the old slots and the new one.
pub clear_bytes : ℕ → Page → ℕ → Page
clear_bytes zero page from = page
clear_bytes (suc grow) page from = clear_bytes grow (set page from 0) (from + 1)

pub page_put_at : Page → ℕ → List ℕ → Result Page
page_put_at page slot row =
    let n = num_slots page in
    let upper = free_upper page in
    let grow = if ltb slot n then 0 else (slot + 1 - n) * slot_size in
    let off = upper - length row in
    let copied = copy_at page off row in
    let cleared = clear_bytes grow copied (header_size + n * slot_size) in
    let grown = if ltb 0 grow then set_num_slots cleared (slot + 1) else copied in
    if ltb slot n && not (is_unused page slot)
    then err (Error.runtime "slot already occupied")
    else if ltb upper (header_size + max (slot + 1) n * slot_size + length row)
    then err Error.page_full
    else ok (set_free_upper (set_slot grown slot off (length row)) off)

-- The live slots with the places of their rows, from slot `i` on, with the slots left.
pub slots_from : ℕ → Page → ℕ → List (ℕ × ℕ × ℕ)
slots_from zero page i = []
slots_from (suc left) page i =
    let later = slots_from left page (i + 1) in
    if not (is_unused page i) then (i, slot_off page i, slot_len page i) ∷ later else later

pub page_slots : Page → List (ℕ × ℕ × ℕ)
page_slots page = slots_from (num_slots page) page 0

pub rows_at : Page → List (ℕ × ℕ × ℕ) → List (ℕ × List ℕ)
rows_at page [] = []
rows_at page ((slot, off, len) ∷ slots) = (slot, slice page off len) ∷ rows_at page slots

pub page_iter : Page → List (ℕ × List ℕ)
page_iter page = rows_at page (page_slots page)
