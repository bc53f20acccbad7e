-- ===== src/Db/Transaction/Visibility.antt =====
-- What a snapshot sees while other sessions go on.
use chibidb.Prelude.{
  ℕ, ◌≤◌, ◌<◌, ◌≡◌, refl, ap, ◌∙◌, ◌≢◌, ◌⊎◌, true, false, contains, contains-without, without,
  arith, ℕ_discrete,
}
use chibidb.Db.Clog.{mark_committed, is_committed}
use chibidb.Db.Clog.Status.{is_committed-mark_committed, is_committed-bit_at}
use chibidb.Db.Clog.Horizon.{is_committed-advance_base}
use chibidb.Db.Transaction.{
  TransactionManager, TrxState, snapshot, sort_unstable, commit, record_commit, count_commit, close,
  advance_horizon, committed_before, visible,
}
use chibidb.Db.Transaction.Order.{contains-sort_unstable}
use chibidb.Db.Transaction.Steps.{
  Steps, Effect, IsValid, Step-Effect, Steps-IsValid, commit_ssi-SameCore,
}

-- The snapshot of `trx` reads the id counter in one state and the open set in a later one.
pub record Takes (trx : TrxState) (early late : TransactionManager) : Type 0 where
  pub bound : trx.snapshot.xmax ≡ early.next_id
  pub flight : trx.snapshot.xip ≡ sort_unstable late.open_ids

-- Ids that the snapshot counts as ended are not open.
record Frozen (trx : TrxState) (u : TransactionManager) : Type 0 where
  passed : trx.snapshot.xmax ≤ u.next_id
  ended :
      (x : ℕ)
      → x < trx.snapshot.xmax
      → contains ℕ_discrete x trx.snapshot.xip ≡ false
      → contains ℕ_discrete x u.open_ids ≡ false

Effect-next_id : (t u : TransactionManager) → Effect t u → t.next_id ≤ u.next_id
Effect-next_id t u (Effect.quiet e) = omega (arith, e.same_next)
Effect-next_id t u (Effect.opens n c o) = omega arith
Effect-next_id t u (Effect.commits id was n c o) = omega arith
Effect-next_id t u (Effect.ends id n c o) = omega arith

Steps-next_id : {t u : TransactionManager} → Steps t u → t.next_id ≤ u.next_id
Steps-next_id Steps.here = omega arith
Steps-next_id (Steps.next {u = u} {v = w} ss st) =
    omega (arith, Steps-next_id ss, Effect-next_id u w (Step-Effect st))

Effect-Frozen :
    (trx : TrxState) (t u : TransactionManager) → Effect t u → Frozen trx t → Frozen trx u
unfolding ℕ_discrete
Effect-Frozen trx t u (Effect.quiet e) f = record {
  passed = omega (arith, e.same_next, f.passed);
  ended = λ x h k. ground (arith, f.ended x h k);
}
Effect-Frozen trx t u (Effect.opens n c o) f = record {
  passed = omega (arith, f.passed);
  ended = λ x h k. ground (arith, f.ended x h k, o x, f.passed);
}
Effect-Frozen trx t u (Effect.commits id was n c o) f = record {
  passed = omega (arith, f.passed);
  ended = λ x h k. ground (arith, f.ended x h k);
}
Effect-Frozen trx t u (Effect.ends id n c o) f = record {
  passed = omega (arith, f.passed);
  ended = λ x h k. ground (arith, f.ended x h k, contains-without ℕ_discrete id x t.open_ids);
}

Effect-committed_before :
    (trx : TrxState) (t u : TransactionManager) (x : ℕ)
    → Effect t u
    → IsValid t
    → Frozen trx t
    → committed_before trx u.committed x ≡ committed_before trx t.committed x
unfolding committed_before
Effect-committed_before trx t u x (Effect.quiet e) v f = ground arith
Effect-committed_before trx t u x (Effect.opens n c o) v f = ground arith
Effect-committed_before trx t u x (Effect.commits id was n c o) v f = ground (
  arith,
  is_committed-mark_committed t.committed id x v.bitmap,
  is_committed-bit_at t.committed x,
  f.ended x,
)
Effect-committed_before trx t u x (Effect.ends id n c o) v f = ground arith

start-Frozen :
    (trx : TrxState) (early late : TransactionManager)
    → Takes trx early late
    → early.next_id ≤ late.next_id
    → Frozen trx late
start-Frozen trx early late k le = record {
  passed = omega (arith, k.bound);
  ended = λ x h e. ground (arith, k.flight, contains-sort_unstable x late.open_ids);
}

Steps-Frozen : {trx : TrxState} {t u : TransactionManager} → Steps t u → Frozen trx t → Frozen trx u
Steps-Frozen Steps.here f = f
Steps-Frozen {trx} (Steps.next {u = u} {v = w} ss st) f =
    Effect-Frozen trx u w (Step-Effect st) (Steps-Frozen ss f)

Steps-committed_before :
    {t u : TransactionManager} (trx : TrxState) (x : ℕ)
    → Steps t u
    → IsValid t
    → Frozen trx t
    → committed_before trx u.committed x ≡ committed_before trx t.committed x
Steps-committed_before trx x Steps.here v f = refl
Steps-committed_before trx x (Steps.next {u = u} {v = w} ss st) v f =
    Effect-committed_before trx u w x (Step-Effect st) (Steps-IsValid ss v) (Steps-Frozen ss f)
    ∙ Steps-committed_before trx x ss v f

-- Snapshot isolation: what a transaction sees of a row version never changes while others begin,
-- commit and abort, in any interleaving of their single effects; this also holds when they run
-- between the two reads that make up the snapshot.
pub visible-Steps :
    (trx : TrxState) (early late now : TransactionManager) (creator deleter : ℕ)
    → IsValid early
    → Steps early late
    → Takes trx early late
    → Steps late now
    → visible trx now.committed creator deleter ≡ visible trx late.committed creator deleter
unfolding visible
visible-Steps trx early late now creator deleter v before k after =
    let f = start-Frozen trx early late k (Steps-next_id before) in
    let v' = Steps-IsValid before v in
    rw
      (Steps-committed_before trx creator after v' f, Steps-committed_before trx deleter after v' f)

-- No dirty and no non-repeatable read: a version made by another transaction that was open when the
-- snapshot was taken, or got its id later, is not seen, even after that transaction commits.
pub visible_in_flight :
    (trx : TrxState) (early late now : TransactionManager) (creator deleter : ℕ)
    → Takes trx early late
    → creator ≢ 0
    → creator ≢ trx.id
    → (contains ℕ_discrete creator late.open_ids ≡ true) ⊎ (early.next_id ≤ creator)
    → visible trx now.committed creator deleter ≡ false
unfolding visible committed_before
visible_in_flight trx early late now creator deleter k z own at =
    ground (arith, k.bound, k.flight, contains-sort_unstable creator late.open_ids)

commit_core :
    (t : TransactionManager) (id : ℕ)
    → ((commit t id).next_id ≡ t.next_id)
      × ((commit t id).committed ≡ mark_committed t.committed id)
      × ((commit t id).open_ids ≡ without ℕ_discrete id t.open_ids)
unfolding commit count_commit record_commit close
commit_core t id =
    let same = commit_ssi-SameCore (close (record_commit (count_commit t) id) id) id in
    (same.same_next, same.same_committed, same.same_open)

committed_before-commit :
    (t : TransactionManager) (id : ℕ) (trx : TrxState)
    → IsValid t
    → id ≢ 0
    → id < t.next_id
    → trx.snapshot ≡ snapshot (commit t id)
    → committed_before trx (commit t id).committed id ≡ true
unfolding committed_before snapshot ℕ_discrete
committed_before-commit t id trx v z lt e =
    let (n, c, o) = commit_core t id in
    let bound : trx.snapshot.xmax ≡ t.next_id = ap (λ s. s.xmax) e ∙ n in
    let flight : trx.snapshot.xip ≡ sort_unstable (without ℕ_discrete id t.open_ids) =
      ap (λ s. s.xip) e ∙ ap sort_unstable o in
    ground (
      arith,
      is_committed-mark_committed t.committed id id v.bitmap,
      contains-sort_unstable id (without ℕ_discrete id t.open_ids),
      contains-without ℕ_discrete id id t.open_ids,
    )

-- A snapshot taken after a transaction commits sees the versions that it made and did not delete,
-- and no version that it deleted.
pub visible-commit :
    (t : TransactionManager) (id : ℕ) (trx : TrxState)
    → IsValid t
    → id ≢ 0
    → id < t.next_id
    → trx.snapshot ≡ snapshot (commit t id)
    → (visible trx (commit t id).committed id 0 ≡ true)
      × ((creator : ℕ) → visible trx (commit t id).committed creator id ≡ false)
unfolding visible
visible-commit t id trx v z lt e =
    let seen = committed_before-commit t id trx v z lt e in (ground arith, λ creator. ground arith)

-- Advancing the horizon over versions whose creator and deleter are each 0, at or above it, or
-- committed, as a vacuum leaves them, changes nothing that any snapshot sees.
pub visible-advance_horizon :
    (t : TransactionManager) (n : ℕ) (trx : TrxState) (creator deleter : ℕ)
    → IsValid t
    → ((creator ≡ 0) ⊎ (n ≤ creator) ⊎ (is_committed t.committed creator ≡ true))
    → ((deleter ≡ 0) ⊎ (n ≤ deleter) ⊎ (is_committed t.committed deleter ≡ true))
    → visible trx (advance_horizon t n).committed creator deleter
      ≡ visible trx t.committed creator deleter
unfolding visible committed_before advance_horizon
visible-advance_horizon t n trx creator deleter v hc hd = ground (
  arith,
  is_committed-advance_base t.committed n creator v.bitmap,
  is_committed-advance_base t.committed n deleter v.bitmap,
  is_committed-bit_at t.committed creator,
  is_committed-bit_at t.committed deleter,
)
