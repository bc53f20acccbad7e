-- ===== src/Db/LockManager.antt =====
-- src/db/lockmgr.rs: row locks, held until the transaction ends and handed on first come, first
-- served. Each function is one critical section under the table's mutex; the clock is an argument.
pub mod Views
pub mod Invariant
pub mod Acquire
pub mod Release
pub mod UnlockAll
pub mod Deadlock
pub mod Polling
pub mod Safety
mod Tests
use chibidb.Prelude.{
  ℕ, zero, suc, ◌+◌, Bool, true, false, not, ◌&&◌, leb, ◌==◌, if◌then◌else◌, List, [], ◌∷◌, ◌++◌,
  Option, none, some, length, add, without, Name, Name_discrete, ℕ_discrete,
}
use chibidb.Prelude.Map.{get, insert, remove, get_default}

pub record Rid : Type 0 where
  pub page_no : ℕ
  pub slot : ℕ

abbrev pub Key : Type 0
Key = Name × Rid

pub Rid-discrete : Discrete Rid
Rid-discrete = hlevel ℕ_discrete

pub Key_discrete : Discrete Key
unfolding Rid-discrete Name_discrete
Key_discrete = hlevel (Name_discrete, Rid-discrete)

pub record LockEntry : Type 0 where
  pub holder : Option ℕ
  pub waiters : List ℕ

pub record Table : Type 0 where
  pub locks : List (Key × LockEntry)
  pub held : List (ℕ × List Key)
  pub waiting : List (ℕ × Key)

abbrev pub empty : Table
empty = record { locks = []; held = []; waiting = [] }

-- `held.entry(owner).or_default().insert(key)`.
abbrev pub hold : ℕ → Key → List (ℕ × List Key) → List (ℕ × List Key)
hold owner key held =
    insert ℕ_discrete owner (add Key_discrete key (get_default ℕ_discrete [] owner held)) held

abbrev pub entry_holder : Option LockEntry → Option ℕ
entry_holder none = none
entry_holder (some e) = e.holder

-- `locks.get(&key).and_then(|e| e.holder)`.
abbrev pub holder_of : Table → Key → Option ℕ
holder_of t key = entry_holder (get Key_discrete key t.locks)

-- `lock` up to its loop: the table, and whether the call has returned with the lock.
pub grant : Table → ℕ → Key → List ℕ → Table
grant t owner key waiters = record t {
  locks = insert Key_discrete key (record { holder = some owner; waiters = waiters }) t.locks;
  held = hold owner key t.held;
}

pub enqueue : Table → ℕ → Key → LockEntry → Table
enqueue t owner key e = record t {
  locks = insert Key_discrete key (record e { waiters = e.waiters ++ (owner ∷ []) }) t.locks;
  waiting = insert ℕ_discrete owner key t.waiting;
}

pub try_lock : Table → ℕ → Key → Table × Bool
try_lock t owner key = elim (get Key_discrete key t.locks) [
  | none ↦ (grant t owner key [], true)
  | some e ↦ elim e.holder [
    | none ↦ (grant t owner key e.waiters, true)
    | some h ↦ if h == owner then (t, true) else (enqueue t owner key e, false)
  ]
]

-- `waiters.retain(|&w| w != owner)`, and the owner stops waiting.
pub abort : Table → ℕ → Key → Table
abort t owner key = record t {
  locks = elim (get Key_discrete key t.locks) [
    | none ↦ t.locks
    | some e ↦
        insert Key_discrete key (record e { waiters = without ℕ_discrete owner e.waiters }) t.locks
  ];
  waiting = remove ℕ_discrete owner t.waiting;
}

-- Whom `owner` waits for.
abbrev pub blocker : Table → ℕ → Option ℕ
blocker t owner = elim (get ℕ_discrete owner t.waiting) [ none ↦ none | some key ↦ holder_of t key ]

-- The loop `for _ in 0..limit` of `in_cycle`, from `cur`.
pub chase : ℕ → Table → ℕ → ℕ → Bool
chase zero t start cur = false
chase (suc rounds) t start cur = elim (blocker t cur) [
  | none ↦ false
  | some h ↦ elim (h == start) [ true ↦ true | false ↦ chase rounds t start h ]
]

pub in_cycle : Table → ℕ → Bool
in_cycle t start = chase (length t.waiting + 1) t start start

-- What one round of the loop of `lock` does.
pub data Poll : Type 0 where
  granted : Table → Poll
  timed_out deadlocked : Table → Poll
  waits : Bool → Poll

abbrev pub is_owner : Option ℕ → ℕ → Bool
is_owner none owner = false
is_owner (some h) owner = h == owner

-- A round at `elapsed`, with the flag `checked_deadlock`.
pub poll : ℕ → ℕ → Table → ℕ → Key → ℕ → Bool → Poll
poll timeout deadlock_timeout t owner key elapsed checked =
    if is_owner (holder_of t key) owner
    then Poll.granted (record t { waiting = remove ℕ_discrete owner t.waiting })
    else if leb timeout elapsed
    then Poll.timed_out (abort t owner key)
    else if not checked && leb deadlock_timeout elapsed
    then (if in_cycle t owner then Poll.deadlocked (abort t owner key) else Poll.waits true)
    else Poll.waits checked

pub release_key : Table → Key → Table
release_key t key = elim (get Key_discrete key t.locks) [
  | none ↦ t
  | some e ↦ elim e.waiters [
    | [] ↦ record t { locks = remove Key_discrete key t.locks }
    | next ∷ rest ↦ grant t next key rest
  ]
]

pub release_keys : Table → List Key → Table
release_keys t [] = t
release_keys t (key ∷ keys) = release_keys (release_key t key) keys

pub unlock_all : Table → ℕ → Table
unlock_all t owner = elim (get ℕ_discrete owner t.held) [
  | none ↦ t
  | some keys ↦ release_keys (record t { held = remove ℕ_discrete owner t.held }) keys
]
