-- ===== src/Db/LockManager/Tests.antt =====
-- Runs of the lock manager, and the theorems at concrete tables.
use chibidb.Prelude.{
  ℕ, ◌≡◌, ◌↔◌, refl, true, false, if◌then◌else◌, [], ◌∷◌, none, some, ℕ_discrete, Name_discrete,
}
use chibidb.Db.LockManager.{
  Key, Key_discrete, Rid-discrete, Table, empty, holder_of, grant, enqueue, try_lock, abort, chase,
  in_cycle, poll, release_key, release_keys, unlock_all,
}
use chibidb.Db.LockManager.Views.{queue, holds, awaits}
use chibidb.Db.LockManager.Invariant.{IsValid}
use chibidb.Db.LockManager.Acquire.{try_lock-IsValid}
use chibidb.Db.LockManager.Deadlock.{Chain, in_cycle-Chain}
use chibidb.Db.LockManager.Polling.{PollSpec, poll-PollSpec}
use chibidb.Db.LockManager.UnlockAll.{first, rest_of, unlock_all-IsValid}
use chibidb.Db.LockManager.Safety.{Step, Reach, Reach-IsValid, Reach-exclusive}

program : Unit {0}
unfolding Key_discrete Rid-discrete grant enqueue try_lock abort chase in_cycle poll release_key
    release_keys unlock_all ℕ_discrete Name_discrete
program = tt

abbrev a : Key
a = (116 ∷ [], record { page_no = 1; slot = 0 })

abbrev b : Key
b = (116 ∷ [], record { page_no = 2; slot = 0 })

-- 1 holds `a` and 2 holds `b`.
abbrev two : Table
two = (try_lock (try_lock empty 1 a).0 2 b).0

idle_two : (awaits two 1 ≡ none) × (awaits two 2 ≡ none)
unfolding program
idle_two = (refl, refl)

-- 1 waits for `b`.
abbrev one_waits : Table
one_waits = (try_lock two 1 b).0

waiting_one : (awaits one_waits 1 ≡ some b) × (awaits one_waits 2 ≡ none)
unfolding program
waiting_one = (refl, refl)

-- Each waits for the other.
abbrev crossed : Table
crossed = (try_lock one_waits 2 a).0

crossed_cycle : in_cycle crossed 1 ≡ true
unfolding program
crossed_cycle = refl

handed_over : holder_of (unlock_all one_waits 2) b ≡ some 1
unfolding program
handed_over = refl

idle_empty : awaits (try_lock empty 1 a).0 2 ≡ none
unfolding program
idle_empty = refl

Reach-two : Reach two
Reach-two =
    Reach.next (Reach.next (Reach.start empty refl) (Step.asks 1 a refl)) (Step.asks 2 b idle_empty)

Reach-one_waits : Reach one_waits
Reach-one_waits = Reach.next Reach-two (Step.asks 1 b idle_two.0)

try_lock-IsValid_example :
    IsValid (try_lock two 1 b).0
    × (holds (try_lock two 1 b).0 1 b ≡ (try_lock two 1 b).1)
    × (awaits (try_lock two 1 b).0 1 ≡ (if (try_lock two 1 b).1 then none else some b))
try_lock-IsValid_example = try_lock-IsValid two 1 b (Reach-IsValid Reach-two) idle_two.0

unlock_all-IsValid_example :
    IsValid (unlock_all one_waits 2)
    × (awaits (unlock_all one_waits 2) 2 ≡ none)
    × ((k : Key) → holds (unlock_all one_waits 2) 2 k ≡ false)
    × ((k : Key)
        → holder_of (unlock_all one_waits 2) k
          ≡ (if holds one_waits 2 k then first (queue one_waits k) else holder_of one_waits k))
    × ((k : Key)
        → queue (unlock_all one_waits 2) k
          ≡ (if holds one_waits 2 k then rest_of (queue one_waits k) else queue one_waits k))
unlock_all-IsValid_example =
    unlock_all-IsValid one_waits 2 (Reach-IsValid Reach-one_waits) waiting_one.1

poll-PollSpec_example :
    PollSpec 1000 100 one_waits 1 b 150 false (poll 1000 100 one_waits 1 b 150 false)
poll-PollSpec_example =
    poll-PollSpec 1000 100 one_waits 1 b 150 false (Reach-IsValid Reach-one_waits) waiting_one.0

in_cycle-Chain_example : (in_cycle crossed 1 ≡ true) ↔ Chain crossed 1 1
in_cycle-Chain_example = in_cycle-Chain crossed 1

Reach-exclusive_example :
    (holds one_waits 2 b ≡ true → holds one_waits 2 b ≡ true → ◌≡◌ {A = ℕ} 2 2)
    × (holder_of one_waits b ≡ none → queue one_waits b ≡ [])
Reach-exclusive_example = Reach-exclusive one_waits 2 2 b Reach-one_waits
