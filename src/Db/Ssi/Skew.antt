-- ===== src/Db/Ssi/Skew.antt =====
-- What a commit lets pass: a committed transaction is no longer noted as a reader, so a later write
-- draws no edge from it.
use chibidb.Prelude.{
  ℕ, ◌≡◌, ◌≢◌, false, List, [], ◌∷◌, contains-without, contains-add, ℕ_discrete, arith, Name,
}
use chibidb.Db.Ssi.{
  Search, search_loop, push_new, edge_count, has_cycle_through, Ssi, new, add_edges, begin,
  note_read, note_write, forget, clear_if_idle, commit, abort, Call, apply, run,
}
use chibidb.Db.Ssi.Edges.{
  has_edge, is_active, has_edge-note_write, has_edge-note_read, has_edge-abort, has_edge-commit,
}
use chibidb.Db.Ssi.Tracked.{IsTracked, HoldsOnly-get, apply-IsTracked}

-- No call opens `a` again.
abbrev pub NeverBegins : ℕ → List Call → Type 0
NeverBegins a [] = Unit {0}
NeverBegins a (Call.begins id ∷ cs) = (id ≢ a) × NeverBegins a cs
NeverBegins a (Call.commits id ∷ cs) = NeverBegins a cs
NeverBegins a (Call.aborts id ∷ cs) = NeverBegins a cs
NeverBegins a (Call.reads_from id t ∷ cs) = NeverBegins a cs
NeverBegins a (Call.writes_to id t ∷ cs) = NeverBegins a cs

is_active-clear_if_idle : (s : Ssi) (x : ℕ) → is_active (clear_if_idle s) x ≡ is_active s x
unfolding clear_if_idle
is_active-clear_if_idle s x = ground arith

apply_no_edge :
    (s : Ssi) (c : Call) (cs : List Call) (a y : ℕ)
    → NeverBegins a (c ∷ cs)
    → IsTracked s
    → is_active s a ≡ false
    → has_edge s a y ≡ false
    → NeverBegins a cs × (is_active (apply s c) a ≡ false) × (has_edge (apply s c) a y ≡ false)
unfolding apply begin commit abort clear_if_idle forget note_read note_write ℕ_discrete
apply_no_edge s (Call.begins id) cs a y n k off gap =
    (n.1, ground (arith, contains-add ℕ_discrete id a s.active), gap)
apply_no_edge s (Call.commits id) cs a y n k off gap = (
  n,
  ground
      (arith, is_active-clear_if_idle (forget s id) a, contains-without ℕ_discrete id a s.active),
  ground (arith, has_edge-commit s id a y),
)
apply_no_edge s (Call.aborts id) cs a y n k off gap = (
  n,
  ground (arith, contains-without ℕ_discrete id a s.active),
  ground (arith, has_edge-abort s id a y),
)
apply_no_edge s (Call.reads_from id t) cs a y n k off gap =
    (n, ground arith, ground (arith, has_edge-note_read s id t a y))
apply_no_edge s (Call.writes_to id t) cs a y n k off gap = (
  n,
  ground arith,
  ground
      (arith, has_edge-note_write s id t a y, HoldsOnly-get s.active s.readers t a k.readers_open),
)

-- From a state that any calls can have led to, an rw-antidependency of a transaction that is not
-- open is never added, whatever the others read and write, as long as its id is not used again.
pub run_gains_no_edge :
    (s : Ssi) (cs : List Call) (a y : ℕ)
    → IsTracked s
    → is_active s a ≡ false
    → NeverBegins a cs
    → has_edge s a y ≡ false
    → has_edge (run s cs) a y ≡ false
unfolding run
run_gains_no_edge s [] a y k off n gap = gap
run_gains_no_edge s (c ∷ cs) a y k off n gap =
    let (n', off', gap') = apply_no_edge s c cs a y n k off gap in
    run_gains_no_edge (apply s c) cs a y (apply-IsTracked s c k) off' n' gap'

-- Write skew in which `a` commits before `b` writes the table that `a` read.
abbrev pub skew : ℕ → ℕ → Name → Name → List Call
skew a b x y =
    Call.begins a
    ∷ Call.begins b
    ∷ Call.reads_from a x
    ∷ Call.reads_from b y
    ∷ Call.writes_to a y
    ∷ Call.commits a
    ∷ Call.writes_to b x
    ∷ []

skew_out : (a b : ℕ) (x y : Name) → a ≢ b → x ≢ y → (run new (skew a b x y)).out ≡ (b, a ∷ []) ∷ []
unfolding run apply begin commit clear_if_idle forget note_read note_write add_edges ℕ_discrete
skew_out a b x y ne nt = ground arith

-- For any two transactions and any two tables: both read, `a` writes and commits, then `b` writes
-- what `a` read. The check that `b` makes at its commit finds no cycle, so the skew is let through.
pub skew-finished :
    (a b : ℕ) (x y : Name)
    → a ≢ b
    → x ≢ y
    → has_cycle_through (run new (skew a b x y)) b ≡ Search.finished
unfolding has_cycle_through search_loop push_new edge_count ℕ_discrete
skew-finished a b x y ne nt = ground (arith, skew_out a b x y ne nt)
