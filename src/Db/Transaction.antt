-- ===== src/Db/Transaction.antt =====
-- src/db/transaction.rs and src/db/trx.rs: ids, snapshots, the open set, and which row versions a
-- transaction sees. Atomic counters are 64 bits wide and wrap.
pub mod Order
pub mod Steps
pub mod Visibility
mod Tests
use chibidb.Prelude.{
  ℕ, zero, suc, ◌+◌, ◌-◌, ◌%◌, ◌^◌, Bool, true, false, not, ◌&&◌, ◌||◌, ltb, leb, ◌==◌,
  if◌then◌else◌, List, [], ◌∷◌, Option, none, some, contains, add, without, Name, ℕ_discrete,
}
use chibidb.Db.Clog.{CommitStatus, mark_committed, is_committed, advance_base}
use chibidb.Db.Clog
use chibidb.Db.Ssi.{Ssi, Search, has_cycle_through}
use chibidb.Db.Ssi

abbrev pub u64_modulus : ℕ
u64_modulus = 2 ^ 64

pub record Snapshot : Type 0 where
  pub xmax : ℕ
  pub xip : List ℕ

pub record TransactionManager : Type 0 where
  pub next_id : ℕ
  pub commits : ℕ
  pub committed : CommitStatus
  pub open_ids : List ℕ
  pub ssi : Ssi
  pub serializable : Bool

pub mark_all : CommitStatus → List ℕ → CommitStatus
mark_all c [] = c
mark_all c (id ∷ ids) = mark_all (mark_committed c id) ids

-- `TransactionManager::new`, which resumes from a recovered state.
pub new : ℕ → List ℕ → ℕ → Bool → TransactionManager
new next_id ids base serializable = record {
  next_id = next_id;
  commits = 0;
  committed = mark_all (advance_base Clog.new base) ids;
  open_ids = [];
  ssi = Ssi.new;
  serializable = serializable;
}

pub note_read : TransactionManager → ℕ → Name → TransactionManager
note_read t id table = if t.serializable then record t { ssi = Ssi.note_read t.ssi id table } else t

pub note_write : TransactionManager → ℕ → Name → TransactionManager
note_write t id table =
    if t.serializable then record t { ssi = Ssi.note_write t.ssi id table } else t

abbrev pub is_found : Search → Bool
is_found Search.found = true
is_found Search.finished = false
is_found Search.out_of_fuel = false

pub ssi_conflict : TransactionManager → ℕ → Bool
ssi_conflict t id = t.serializable && is_found (has_cycle_through t.ssi id)

-- `fetch_add(1)`: the state after it, and the id before it.
pub allocate : TransactionManager → TransactionManager × ℕ
allocate t = (record t { next_id = (t.next_id + 1) % u64_modulus }, t.next_id)

pub insert_open : TransactionManager → ℕ → TransactionManager
insert_open t id = record t {
  open_ids = add ℕ_discrete id t.open_ids;
  ssi = if t.serializable then Ssi.begin t.ssi id else t.ssi;
}

-- The id is taken and marked open under one lock.
pub begin_open : TransactionManager → TransactionManager × ℕ
begin_open t = let (t', id) = allocate t in (insert_open t' id, id)

pub ensure_next_id_at_least : TransactionManager → ℕ → TransactionManager
ensure_next_id_at_least t id =
    if leb t.next_id id
    then record t { next_id = if id == u64_modulus - 1 then id else id + 1 }
    else t

-- Insertion sort stands for `sort_unstable`; on numbers the two return the same list.
pub insert_sorted : ℕ → List ℕ → List ℕ
insert_sorted x [] = x ∷ []
insert_sorted x (y ∷ ys) = if leb x y then x ∷ y ∷ ys else y ∷ insert_sorted x ys

pub sort_unstable : List ℕ → List ℕ
sort_unstable [] = []
sort_unstable (x ∷ xs) = insert_sorted x (sort_unstable xs)

pub snapshot : TransactionManager → Snapshot
snapshot t = record { xmax = t.next_id; xip = sort_unstable t.open_ids }

pub remove_open : TransactionManager → ℕ → TransactionManager
remove_open t id = record t {
  open_ids = without ℕ_discrete id t.open_ids;
  ssi = if t.serializable then Ssi.abort t.ssi id else t.ssi;
}

-- `commit` in the order of its four effects, each of them atomic on its own.
pub count_commit : TransactionManager → TransactionManager
count_commit t = record t { commits = (t.commits + 1) % u64_modulus }

pub record_commit : TransactionManager → ℕ → TransactionManager
record_commit t id = record t { committed = mark_committed t.committed id }

pub close : TransactionManager → ℕ → TransactionManager
close t id = record t { open_ids = without ℕ_discrete id t.open_ids }

pub commit_ssi : TransactionManager → ℕ → TransactionManager
commit_ssi t id = if t.serializable then record t { ssi = Ssi.commit t.ssi id } else t

pub commit : TransactionManager → ℕ → TransactionManager
commit t id = commit_ssi (close (record_commit (count_commit t) id) id) id

pub extend_committed : TransactionManager → List ℕ → TransactionManager
extend_committed t ids = record t { committed = mark_all t.committed ids }

pub advance_horizon : TransactionManager → ℕ → TransactionManager
advance_horizon t new_base = record t { committed = advance_base t.committed new_base }

pub no_open_transactions : TransactionManager → Bool
no_open_transactions t = Ssi.is_empty t.open_ids

-- `iter().any(|&open| open != id)`.
pub any_other : ℕ → List ℕ → Bool
any_other id [] = false
any_other id (x ∷ xs) = not (x == id) || any_other id xs

pub has_open_excluding : TransactionManager → ℕ → Bool
has_open_excluding t id = any_other id t.open_ids

-- `TrxState`, less the undo log and the buffered log frames, which visibility does not read.
pub record TrxState : Type 0 where
  pub id : ℕ
  pub snapshot : Snapshot
  pub explicit : Bool

-- `binary_search(..).is_err()` on a sorted list: the value is absent.
abbrev pub absent : ℕ → List ℕ → Bool
absent x xs = not (contains ℕ_discrete x xs)

-- The commit status is shared, so it is that of the moment of the call.
pub committed_before : TrxState → CommitStatus → ℕ → Bool
committed_before trx clog xid =
    ltb xid trx.snapshot.xmax && absent xid trx.snapshot.xip && is_committed clog xid

pub visible : TrxState → CommitStatus → ℕ → ℕ → Bool
visible trx clog creator deleter =
    let creator_visible = creator == 0 || creator == trx.id || committed_before trx clog creator in
    let deleted_for_me =
      not (deleter == 0) && (deleter == trx.id || committed_before trx clog deleter) in
    creator_visible && not deleted_for_me
