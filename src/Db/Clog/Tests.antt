-- ===== src/Db/Clog/Tests.antt =====
-- Runs of the commit status, and the theorems at a concrete bitmap.
use chibidb.Prelude.{◌≡◌, refl, true, false, ◌==◌, if◌then◌else◌, [], ◌∷◌}
use chibidb.Db.Clog.{
  CommitStatus, new, grow, set_bit, mark_shared, mark_exclusive, mark_committed, is_committed,
  scan_word, scan, ids, at_least, set_bits, advance_base,
}
use chibidb.Db.Clog.Status.{IsValid, is_committed-mark_committed, mark_committed-IsValid}

program : Unit {0}
unfolding grow set_bit mark_shared mark_exclusive mark_committed is_committed scan_word scan ids
    at_least set_bits advance_base
program = tt

abbrev marked : CommitStatus
marked = mark_committed (mark_committed new 3) 70

marked-IsValid : IsValid marked
marked-IsValid = mark_committed-IsValid _ 70 (mark_committed-IsValid new 3 tt)

ids_run : ids marked ≡ 3 ∷ 70 ∷ []
unfolding program
ids_run = refl

advance_run : ids (advance_base marked 5) ≡ 70 ∷ []
unfolding program
advance_run = refl

is_committed-mark_committed_example :
    is_committed (mark_committed marked 9) 9
    ≡ (if 9 == 0 then false else if 9 == 9 then true else is_committed marked 9)
is_committed-mark_committed_example = is_committed-mark_committed marked 9 9 marked-IsValid
