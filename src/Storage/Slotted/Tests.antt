-- ===== src/Storage/Slotted/Tests.antt =====
-- Runs of the slotted page, and the theorem at a concrete page.
use chibidb.Prelude.{
  ℕ, zero, ◌+◌, ◌≤◌, ◌≡◌, refl, sym, subst, length-replicate, List, [], ◌∷◌, replicate, Option,
  some, arith,
}
use chibidb.Prelude.Result.{Error, Result, ok, err}
use chibidb.Storage.Slotted.{
  page_size, Page, read_u16, write_u16, num_slots, set_num_slots, raw_free_upper, set_free_upper,
  free_upper, slot_off, slot_len, set_slot, copy_at, slice, find_unused, fill, page_insert,
  page_get, page_write, collect, pack, compact, page_delete, clear_bytes, page_put_at, slots_from,
  page_slots, rows_at, page_iter,
}
use chibidb.Storage.Slotted.Layout.{IsValid, total}
use chibidb.Storage.Slotted.Delete.{Deleted, page_delete-Deleted}
use chibidb.Storage.Slotted.PutAt.{PutOutcome, page_put_at-PutOutcome}
use chibidb.Storage.Slotted.Insert.{Inserted, page_insert-Inserted}

program : Unit {0}
unfolding read_u16 write_u16 num_slots set_num_slots raw_free_upper set_free_upper free_upper
    slot_off slot_len set_slot copy_at slice find_unused fill page_insert page_get page_write
    collect pack compact page_delete clear_bytes page_put_at slots_from page_slots rows_at page_iter
program = tt

-- A new page.
abbrev blank : Page
blank = replicate page_size 0

abbrev row : List ℕ
row = 1 ∷ 2 ∷ 3 ∷ []

abbrev inserted : Result (Page × ℕ) → Result (Option (List ℕ))
inserted (ok (q, slot)) = page_get q slot
inserted (err e) = err e

insert_run : inserted (page_insert blank row) ≡ ok (some row)
unfolding program
insert_run = refl

blank_slots : num_slots blank ≡ 0
unfolding program
blank_slots = refl

blank_upper : free_upper blank ≡ page_size
unfolding program
blank_upper = refl

blank-IsValid : IsValid blank
blank-IsValid = record {
  size = length-replicate page_size zero;
  room = omega (arith, blank_slots, blank_upper);
  top = omega (arith, blank_upper);
  live = λ i l. absurd (omega (arith, blank_slots));
  packed =
      subst (λ (n : ℕ). total blank n + free_upper blank ≤ page_size) (sym blank_slots)
        (omega (arith, blank_upper));
}

page_insert-Inserted_example : Inserted blank row (page_insert blank row)
page_insert-Inserted_example = page_insert-Inserted blank row blank-IsValid

abbrev page_of : Result (Page × ℕ) → Page
page_of (ok (q, slot)) = q
page_of (err e) = []

abbrev one : Page
one = page_of (page_insert blank row)

one-IsValid : IsValid one
unfolding program
one-IsValid = (page_insert-Inserted blank row blank-IsValid).0

page_delete-Deleted_example : Deleted one 0 (page_delete one 0)
page_delete-Deleted_example = page_delete-Deleted one 0 one-IsValid

abbrev put_rows : Result Page → Result (List (ℕ × List ℕ))
put_rows (ok q) = ok (page_iter q)
put_rows (err e) = err e

-- Slot 1 stays empty.
put_run : put_rows (page_put_at one 2 (9 ∷ [])) ≡ ok ((0, row) ∷ (2, 9 ∷ []) ∷ [])
unfolding program
put_run = refl

occupied_run : put_rows (page_put_at one 0 row) ≡ err (Error.runtime "slot already occupied")
unfolding program
occupied_run = refl

write_run : put_rows (page_write one 0 (4 ∷ 5 ∷ 6 ∷ [])) ≡ ok ((0, 4 ∷ 5 ∷ 6 ∷ []) ∷ [])
unfolding program
write_run = refl

page_put_at-PutOutcome_example : PutOutcome one 2 (9 ∷ []) (page_put_at one 2 (9 ∷ []))
page_put_at-PutOutcome_example = page_put_at-PutOutcome one 2 (9 ∷ []) one-IsValid
