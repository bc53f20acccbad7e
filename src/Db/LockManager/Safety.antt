-- ===== src/Db/LockManager/Safety.antt =====
-- Every interleaving of the critical sections of all sessions, from the empty table.
use chibidb.Prelude.{
  subst, sym, ℕ, ◌≡◌, refl, inl, inr, Bool, true, none, some, Option-cases, arith, [],
}
use chibidb.Db.LockManager.{Key, Table, empty, holder_of, try_lock, Poll, poll, unlock_all}
use chibidb.Db.LockManager.Views.{queue, holds, awaits}
use chibidb.Db.LockManager.Invariant.{IsValid}
use chibidb.Db.LockManager.Acquire.{try_lock-IsValid}
use chibidb.Db.LockManager.Polling.{PollSpec, poll-PollSpec}
use chibidb.Db.LockManager.UnlockAll.{unlock_all-IsValid}

abbrev pub table_after : Table → Poll → Table
table_after t (Poll.granted u) = u
table_after t (Poll.timed_out u) = u
table_after t (Poll.deadlocked u) = u
table_after t (Poll.waits now) = t

-- A session that waits only polls; any other may ask for a row or end its transaction.
pub data Step (t : Table) : Table → Type 0 where
  asks : (owner : ℕ) (key : Key) → awaits t owner ≡ none → Step t (try_lock t owner key).0
  polls :
      (timeout dl owner : ℕ) (key : Key) (elapsed : ℕ) (checked : Bool)
      → awaits t owner ≡ some key
      → Step t (table_after t (poll timeout dl t owner key elapsed checked))
  ends : (owner : ℕ) → awaits t owner ≡ none → Step t (unlock_all t owner)

pub data Reach : Table → Type 0 where
  start : (t : Table) → t ≡ empty → Reach t
  next : {t u : Table} → Reach t → Step t u → Reach u

empty-IsValid : IsValid empty
empty-IsValid = record {
  agree = λ o k. ground arith;
  vacant = λ k h. refl;
  queued = λ o k h. ground arith;
  awaited = λ o k h j. ground arith;
  distinct = λ k. tt;
  sets = λ o. tt;
  chosen = tt;
  apart = λ k. ground arith;
}

poll_table-IsValid :
    (timeout dl : ℕ) (t : Table) (owner : ℕ) (key : Key) (elapsed : ℕ) (checked : Bool) (p : Poll)
    → IsValid t
    → PollSpec timeout dl t owner key elapsed checked p
    → IsValid (table_after t p)
poll_table-IsValid timeout dl t owner key elapsed checked (Poll.granted u) v s = s.0
poll_table-IsValid timeout dl t owner key elapsed checked (Poll.timed_out u) v s = s.1.0
poll_table-IsValid timeout dl t owner key elapsed checked (Poll.deadlocked u) v s = s.3.0
poll_table-IsValid timeout dl t owner key elapsed checked (Poll.waits now) v s = v

Step-IsValid : {t u : Table} → Step t u → IsValid t → IsValid u
Step-IsValid {t} (Step.asks owner key idle) v = (try_lock-IsValid t owner key v idle).0
Step-IsValid {t} (Step.polls timeout dl owner key elapsed checked at) v =
    poll_table-IsValid timeout dl t owner key elapsed checked _ v
      (poll-PollSpec timeout dl t owner key elapsed checked v at)
Step-IsValid {t} (Step.ends owner idle) v = (unlock_all-IsValid t owner v idle).0

pub Reach-IsValid : {t : Table} → Reach t → IsValid t
Reach-IsValid (Reach.start t e) = subst IsValid (sym e) empty-IsValid
Reach-IsValid (Reach.next r st) = Step-IsValid st (Reach-IsValid r)

-- In every table that sessions can reach, no row is held by two owners, and no owner queues for a
-- row that nobody holds.
pub Reach-exclusive :
    (t : Table) (a b : ℕ) (k : Key)
    → Reach t
    → (holds t a k ≡ true → holds t b k ≡ true → a ≡ b) × (holder_of t k ≡ none → queue t k ≡ [])
Reach-exclusive t a b k r =
    let v = Reach-IsValid r in
    (
      λ p q. elim (Option-cases (holder_of t k)) [
        | inl e ↦ absurd (ground (arith, v.agree a k))
        | inr (h, e) ↦ ground (arith, v.agree a k, v.agree b k)
      ],
      v.vacant k,
    )
