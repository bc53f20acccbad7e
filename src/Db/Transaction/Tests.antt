-- ===== src/Db/Transaction/Tests.antt =====
-- Runs of the transaction manager, and the theorems at concrete states.
use chibidb.Prelude.{
  ℕ, ◌%◌, ◌≡◌, refl, inl, true, false, [], ◌∷◌, contains, arith, ℕ_discrete, get_or-replicate,
}
use chibidb.Db.Clog.Status.{is_committed-bit_at}
use chibidb.Db.Ssi
use chibidb.Db.Transaction.{
  TransactionManager, TrxState, snapshot, sort_unstable, insert_sorted, begin_open, allocate,
  insert_open, record_commit, commit, visible,
}
use chibidb.Db.Transaction.Steps.{Step, Steps, IsValid, Steps-IsValid}
use chibidb.Db.Transaction.Visibility.{Takes, visible-Steps, visible_in_flight, visible-commit}

-- Transactions 1 and 2 are open.
abbrev early : TransactionManager
early = record {
  next_id = 3;
  commits = 0;
  committed = record { base = 0; words = [] };
  open_ids = 1 ∷ 2 ∷ [];
  ssi = Ssi.new;
  serializable = false;
}

early-IsValid : IsValid early
unfolding ℕ_discrete
early-IsValid = record {
  bitmap = tt;
  opened = λ x e. ground arith;
  ended = λ x e.
      ground (arith, is_committed-bit_at early.committed x, get_or-replicate 64 (x % 64) false);
}

-- Transaction 3 begins while the snapshot of transaction 2 is taken, and then 1 commits.
abbrev late : TransactionManager
late = (begin_open early).0

abbrev now : TransactionManager
now = record_commit late 1

abbrev reader : TrxState
reader = record {
  id = 2;
  snapshot = record { xmax = early.next_id; xip = sort_unstable late.open_ids };
  explicit = true;
}

early_to_late : Steps early late
early_to_late = Steps.next Steps.here (Step.begins (omega arith))

one_is_open : contains ℕ_discrete 1 late.open_ids ≡ true
unfolding begin_open insert_open allocate ℕ_discrete
one_is_open = refl

late_to_now : Steps late now
late_to_now = Steps.next Steps.here (Step.records 1 one_is_open)

taken : Takes reader early late
taken = record { bound = refl; flight = refl }

visible-Steps_example : visible reader now.committed 1 0 ≡ visible reader late.committed 1 0
visible-Steps_example =
    visible-Steps reader early late now 1 0 early-IsValid early_to_late taken late_to_now

visible_in_flight_example : visible reader now.committed 1 0 ≡ false
visible_in_flight_example =
    visible_in_flight reader early late now 1 0 taken (omega arith) (omega arith) (inl one_is_open)

abbrev later : TrxState
later = record { id = 4; snapshot = snapshot (commit early 1); explicit = false }

visible-commit_example :
    (visible later (commit early 1).committed 1 0 ≡ true)
    × ((creator : ℕ) → visible later (commit early 1).committed creator 1 ≡ false)
visible-commit_example = visible-commit early 1 later early-IsValid (omega arith) (omega arith) refl

Steps-IsValid_example : IsValid late
Steps-IsValid_example = Steps-IsValid early_to_late early-IsValid

-- The snapshot sorts the open set, and the id that is given out is 3.
snapshot_run : (snapshot (begin_open early).0).xip ≡ 1 ∷ 2 ∷ 3 ∷ []
unfolding begin_open insert_open allocate snapshot sort_unstable insert_sorted ℕ_discrete
snapshot_run = refl
