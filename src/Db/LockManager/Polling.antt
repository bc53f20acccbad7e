-- ===== src/Db/LockManager/Polling.antt =====
-- One round of the loop of `lock`, in each of its outcomes.
use chibidb.Prelude.{
  ℕ, ◌≤◌, ◌<◌, ◌≡◌, ◌≢◌, inl, inr, Bool, true, false, not, ◌&&◌, ◌||◌, ◌==◌, leb, none, some,
  Bool-cases, contains-without, ℕ_discrete, arith, refl,
}
use chibidb.Prelude.Map.{remove, get-remove}
use chibidb.Db.LockManager.{Key, Table, holder_of, is_owner, in_cycle, abort, Poll, poll}
use chibidb.Db.LockManager.Views.{elem, queue, holds, awaits, abort_views, awaits-abort, held-abort}
use chibidb.Db.LockManager.Invariant.{IsValid}
use chibidb.Db.LockManager.Acquire.{abort-IsValid}
use chibidb.Db.LockManager.Deadlock.{Chain, in_cycle-Chain}

-- The table once `owner` has found that the row was handed to it.
wake : Table → ℕ → Table
wake t owner = record t { waiting = remove ℕ_discrete owner t.waiting }

wake-IsValid :
    (t : Table) (owner : ℕ) (key : Key)
    → IsValid t
    → awaits t owner ≡ some key
    → is_owner (holder_of t key) owner ≡ true
    → IsValid (wake t owner)
unfolding wake ℕ_discrete
wake-IsValid t owner key v at mine = record {
  agree = v.agree;
  vacant = v.vacant;
  queued = λ o k h. ground (arith, v.queued o k h, get-remove ℕ_discrete owner o t.waiting);
  awaited = λ o k h j. ground (arith, v.awaited o k, get-remove ℕ_discrete owner o t.waiting);
  distinct = v.distinct;
  sets = v.sets;
  chosen = tt;
  apart = v.apart;
}

-- The owner has the row that it waited for: it held it before, it waits for nothing, and no holder, no
-- queue and nobody else's waiting has changed.
abbrev pub WasHanded : Table → ℕ → Key → Table → Type 0
WasHanded t owner key u =
    IsValid u
    × (holds t owner key ≡ true)
    × (awaits u owner ≡ none)
    × ((o : ℕ) (k : Key) → holds u o k ≡ holds t o k)
    × ((k : Key) → queue u k ≡ queue t k)
    × ((o : ℕ) → o ≢ owner → awaits u o ≡ awaits t o)

-- The owner has given up: it waits for nothing, is in the queue no more, and nobody else gains or
-- loses a row, a place in a queue or what it waits for.
abbrev pub GaveUp : Table → ℕ → Key → Table → Type 0
GaveUp t owner key u =
    IsValid u
    × (awaits u owner ≡ none)
    × (holds u owner key ≡ false)
    × ((o : ℕ) (k : Key) → holds u o k ≡ holds t o k)
    × ((o : ℕ) → elem o (queue u key) ≡ (not (owner == o) && elem o (queue t key)))
    × ((k : Key) → k ≢ key → queue u k ≡ queue t k)
    × ((o : ℕ) → o ≢ owner → awaits u o ≡ awaits t o)

abbrev pub PollSpec : ℕ → ℕ → Table → ℕ → Key → ℕ → Bool → Poll → Type 0
PollSpec timeout dl t owner key elapsed checked (Poll.granted u) = WasHanded t owner key u
PollSpec timeout dl t owner key elapsed checked (Poll.timed_out u) =
    (timeout ≤ elapsed) × GaveUp t owner key u
PollSpec timeout dl t owner key elapsed checked (Poll.deadlocked u) =
    (checked ≡ false) × (dl ≤ elapsed) × Chain t owner owner × GaveUp t owner key u
PollSpec timeout dl t owner key elapsed checked (Poll.waits now) =
    (holds t owner key ≡ false)
    × (elapsed < timeout)
    × (now ≡ (checked || leb dl elapsed))
    × (checked ≡ false → now ≡ true → ¬ Chain t owner owner)

gave_up :
    (t : Table) (owner : ℕ) (key : Key)
    → IsValid t
    → awaits t owner ≡ some key
    → is_owner (holder_of t key) owner ≡ false
    → GaveUp t owner key (abort t owner key)
unfolding ℕ_discrete
gave_up t owner key v at other = (
  abort-IsValid t owner key v at other,
  ground (arith, awaits-abort t owner key owner),
  ground (arith, v.agree owner key, held-abort t owner key),
  λ o k. ground (arith, held-abort t owner key),
  λ o.
      ground
        (arith, abort_views t owner key key, contains-without ℕ_discrete owner o (queue t key)),
  λ k ne. ground (arith, abort_views t owner key k),
  λ o ne. ground (arith, awaits-abort t owner key o),
)

-- A round of a waiting owner. It returns with the lock only when the table says that the row is its
-- own, and then no holder, no queue and nobody else's waiting changes; it times
-- out only when the time is up; it reports a deadlock only when that was not checked before, is due,
-- and the chain of waiting comes back to it; it goes on waiting only without the row, before the
-- timeout, and, when the check fell due in this round, without such a chain. The outcomes that change
-- the table keep the invariant, and a refusal takes the owner alone out of the queue and changes no
-- other queue, no holder and nobody else's waiting.
pub poll-PollSpec :
    (timeout dl : ℕ) (t : Table) (owner : ℕ) (key : Key) (elapsed : ℕ) (checked : Bool)
    → IsValid t
    → awaits t owner ≡ some key
    → PollSpec timeout dl t owner key elapsed checked (poll timeout dl t owner key elapsed checked)
unfolding poll wake
poll-PollSpec timeout dl t owner key elapsed checked v at =
    elim (Bool-cases (is_owner (holder_of t key) owner)) [
      | inl mine ↦
          rw (mine, poll)
            (
              wake-IsValid t owner key v at mine,
              ground (arith, v.agree owner key),
              ground (arith, get-remove ℕ_discrete owner owner t.waiting),
              λ o k. refl,
              λ k. refl,
              λ o ne. ground (arith, get-remove ℕ_discrete owner o t.waiting),
            )
      | inr other ↦
          rw (other, poll)
            (elim (Bool-cases (leb timeout elapsed)) [
              | inl late ↦ rw late (ground arith, gave_up t owner key v at other)
              | inr early ↦ rw early (elim (Bool-cases (not checked && leb dl elapsed)) [
                | inl due ↦ rw due (elim (Bool-cases (in_cycle t owner)) [
                  | inl c ↦ rw c (
                    ground arith,
                    ground arith,
                    (in_cycle-Chain t owner).0 c,
                    gave_up t owner key v at other,
                  )
                  | inr c ↦ rw c (
                    ground (arith, v.agree owner key),
                    ground arith,
                    ground arith,
                    λ p q r. ground (arith, (in_cycle-Chain t owner).1 r),
                  )
                ])
                | inr quiet ↦ rw quiet (
                  ground (arith, v.agree owner key),
                  ground arith,
                  ground arith,
                  λ p q r. ground arith,
                )
              ])
            ])
    ]
