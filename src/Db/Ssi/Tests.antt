-- ===== src/Db/Ssi/Tests.antt =====
-- Runs of the conflict tracker, and the theorems at concrete graphs.
use chibidb.Prelude.{
  ◌≡◌, refl, ◌≢◌, true, false, not, ◌&&◌, ◌||◌, ◌==◌, [], ◌∷◌, arith, ℕ_discrete, Name,
  Name_discrete,
}
use chibidb.Db.Ssi.{
  Ssi, Search, new, begin, note_read, add_edges, note_write, forget, clear_if_idle, commit, abort,
  push_new, search_loop, edge_count, has_cycle_through, Call, apply, run,
}
use chibidb.Db.Ssi.Cycle.{Walk, Decides, has_cycle_through-Decides}
use chibidb.Db.Ssi.Edges.{has_edge, reads, writes, is_active, has_edge-note_write}
use chibidb.Db.Ssi.Tracked.{run-IsTracked}
use chibidb.Db.Ssi.Skew.{skew, skew-finished}

program : Unit {0}
unfolding begin note_read add_edges note_write forget clear_if_idle commit abort push_new
    search_loop edge_count has_cycle_through apply run ℕ_discrete Name_discrete
program = tt

abbrev x : Name
x = 120 ∷ []

abbrev y : Name
y = 121 ∷ []

-- Both read a table, and then both write it.
abbrev both : Ssi
both = run new (
    Call.begins 1
    ∷ Call.begins 2
    ∷ Call.reads_from 1 x
    ∷ Call.reads_from 2 x
    ∷ Call.writes_to 1 x
    ∷ Call.writes_to 2 x
    ∷ [])

both-found : has_cycle_through both 1 ≡ Search.found
unfolding program
both-found = refl

both_aborted : has_cycle_through (abort both 1) 2 ≡ Search.finished
unfolding program
both_aborted = refl

has_cycle_through-Decides_example : Decides (has_cycle_through both 1) (Walk both.out 1 1)
has_cycle_through-Decides_example = has_cycle_through-Decides both 1

has_edge-note_write_example :
    has_edge (note_write both 2 x) 1 2
    ≡ (has_edge both 1 2 || (is_active both 2 && reads both x 1 && not (1 == 2) && 2 == 2))
has_edge-note_write_example = has_edge-note_write both 2 x 1 2

reader_noted : (reads both x 1 || writes both x 1) ≡ true
unfolding program
reader_noted = refl

run-IsTracked_example : is_active both 1 ≡ true
run-IsTracked_example = run-IsTracked _ x 1 reader_noted

-- After 1 has written and committed it has no edge, and gains none when 2 writes what it read.
abbrev half : Ssi
half =
    run new (
      Call.begins 1
      ∷ Call.begins 2
      ∷ Call.reads_from 1 x
      ∷ Call.writes_to 1 y
      ∷ Call.commits 1
      ∷ [])

half_closed : (is_active half 1 ≡ false) × (has_edge half 1 2 ≡ false)
unfolding program
half_closed = (refl, refl)

names_differ : x ≢ y
names_differ = λ e. ground arith

skew-finished_example : has_cycle_through (run new (skew 1 2 x y)) 2 ≡ Search.finished
skew-finished_example = skew-finished 1 2 x y (omega arith) names_differ
