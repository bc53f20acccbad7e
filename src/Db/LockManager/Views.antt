-- ===== src/Db/LockManager/Views.antt =====
-- The lock table as four questions: who holds a row, who queues for it, what an owner holds, and
-- what it waits for; and how the operations change the answers.
use chibidb.Prelude.{
  ℕ, ◌≡◌, refl, inl, inr, ite, Bool, true, false, ◌&&◌, ◌||◌, ◌==◌, if◌then◌else◌, List, [], ◌∷◌,
  ◌++◌, Option, none, some, Option-cases, contains, contains-add, add, without, ℕ_discrete, arith,
}
use chibidb.Prelude.Map.{get, get_default, insert, remove, get-insert, get-remove}
use chibidb.Db.LockManager.{
  Key, Key_discrete, LockEntry, Table, hold, entry_holder, holder_of, grant, enqueue, abort,
}

abbrev pub elem : ℕ → List ℕ → Bool
elem = contains ℕ_discrete

abbrev pub entry_queue : Option LockEntry → List ℕ
entry_queue none = []
entry_queue (some e) = e.waiters

abbrev pub queue : Table → Key → List ℕ
queue t key = entry_queue (get Key_discrete key t.locks)

abbrev pub holds : Table → ℕ → Key → Bool
holds t owner key = contains Key_discrete key (get_default ℕ_discrete [] owner t.held)

abbrev pub awaits : Table → ℕ → Option Key
awaits t owner = get ℕ_discrete owner t.waiting

pub entry-insert :
    (t : Table) (key k : Key) (e : LockEntry)
    → (entry_holder (get Key_discrete k (insert Key_discrete key e t.locks))
        ≡ ite (Key_discrete key k) e.holder (holder_of t k))
      × (entry_queue (get Key_discrete k (insert Key_discrete key e t.locks))
          ≡ ite (Key_discrete key k) e.waiters (queue t k))
entry-insert t key k e = ground (arith, get-insert Key_discrete key k e t.locks)

pub entry-remove :
    (t : Table) (key k : Key)
    → (entry_holder (get Key_discrete k (remove Key_discrete key t.locks))
        ≡ ite (Key_discrete key k) none (holder_of t k))
      × (entry_queue (get Key_discrete k (remove Key_discrete key t.locks))
          ≡ ite (Key_discrete key k) [] (queue t k))
entry-remove t key k = ground (arith, get-remove Key_discrete key k t.locks)

pub held-hold :
    (owner o : ℕ) (key k : Key) (held : List (ℕ × List Key))
    → contains Key_discrete k (get_default ℕ_discrete [] o (hold owner key held)) ≡ (
        contains Key_discrete k (get_default ℕ_discrete [] o held)
        || (owner == o && ite (Key_discrete key k) true false))
unfolding ℕ_discrete
held-hold owner o key k held = ground (
  arith,
  get-insert ℕ_discrete owner o (add Key_discrete key (get_default ℕ_discrete [] owner held)) held,
  contains-add Key_discrete key k (get_default ℕ_discrete [] owner held),
)

pub grant_views :
    (t : Table) (owner : ℕ) (key : Key) (waiters : List ℕ) (k : Key)
    → (holder_of (grant t owner key waiters) k
        ≡ ite (Key_discrete key k) (some owner) (holder_of t k))
      × (queue (grant t owner key waiters) k ≡ ite (Key_discrete key k) waiters (queue t k))
unfolding grant
grant_views t owner key waiters k =
    entry-insert t key k (record { holder = some owner; waiters = waiters })

pub holds-grant :
    (t : Table) (owner : ℕ) (key : Key) (waiters : List ℕ) (o : ℕ) (k : Key)
    → holds (grant t owner key waiters) o k
      ≡ (holds t o k || (owner == o && ite (Key_discrete key k) true false))
unfolding grant
holds-grant t owner key waiters o k = held-hold owner o key k t.held

pub enqueue_views :
    (t : Table) (owner : ℕ) (key : Key) (e : LockEntry) (k : Key)
    → (holder_of (enqueue t owner key e) k ≡ ite (Key_discrete key k) e.holder (holder_of t k))
      × (queue (enqueue t owner key e) k
          ≡ ite (Key_discrete key k) (e.waiters ++ (owner ∷ [])) (queue t k))
unfolding enqueue
enqueue_views t owner key e k =
    entry-insert t key k (record e { waiters = e.waiters ++ (owner ∷ []) })

pub awaits-enqueue :
    (t : Table) (owner : ℕ) (key : Key) (e : LockEntry) (o : ℕ)
    → awaits (enqueue t owner key e) o ≡ (if owner == o then some key else awaits t o)
unfolding enqueue ℕ_discrete
awaits-enqueue t owner key e o = ground (arith, get-insert ℕ_discrete owner o key t.waiting)

pub abort_views :
    (t : Table) (owner : ℕ) (key k : Key)
    → (holder_of (abort t owner key) k ≡ holder_of t k)
      × (queue (abort t owner key) k
          ≡ ite (Key_discrete key k) (without ℕ_discrete owner (queue t k)) (queue t k))
unfolding abort
abort_views t owner key k = elim (Option-cases (get Key_discrete key t.locks)) [
  | inl e ↦ ground arith
  | inr (e, f) ↦
      ground
        (arith, entry-insert t key k (record e { waiters = without ℕ_discrete owner e.waiters }))
]

pub awaits-abort :
    (t : Table) (owner : ℕ) (key : Key) (o : ℕ)
    → awaits (abort t owner key) o ≡ (if owner == o then none else awaits t o)
unfolding abort ℕ_discrete
awaits-abort t owner key o = ground (arith, get-remove ℕ_discrete owner o t.waiting)

pub awaits-grant :
    (t : Table) (owner : ℕ) (key : Key) (waiters : List ℕ) (o : ℕ)
    → awaits (grant t owner key waiters) o ≡ awaits t o
unfolding grant
awaits-grant t owner key waiters o = refl

pub held-enqueue :
    (t : Table) (owner : ℕ) (key : Key) (e : LockEntry) → (enqueue t owner key e).held ≡ t.held
unfolding enqueue
held-enqueue t owner key e = refl

pub held-abort : (t : Table) (owner : ℕ) (key : Key) → (abort t owner key).held ≡ t.held
unfolding abort
held-abort t owner key = refl
