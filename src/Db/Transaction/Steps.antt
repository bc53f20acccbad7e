-- ===== src/Db/Transaction/Steps.antt =====
-- Interleavings of the operations of several sessions, and what every one of them preserves.
use chibidb.Prelude.{
  ℕ, ◌+◌, ◌<◌, ◌≡◌, refl, sym, subst, inl, inr, true, false, ◌||◌, ◌==◌, ◌∷◌, contains,
  contains-add, contains-without, without, Bool-cases, arith, ℕ_discrete, Name,
}
use chibidb.Db.Clog.{mark_committed, is_committed}
use chibidb.Db.Clog.Status.{mark_committed-IsValid, is_committed-mark_committed}
use chibidb.Db.Clog.Status
use chibidb.Db.Transaction.{
  TransactionManager, u64_modulus, allocate, insert_open, begin_open, count_commit, record_commit,
  close, commit_ssi, remove_open, note_read, note_write,
}

-- One atomic effect of some session. Only a transaction that is open records its commit, and ids do
-- not reach the modulus.
pub data Step (t : TransactionManager) : TransactionManager → Type 0 where
  begins : t.next_id + 1 < u64_modulus → Step t (begin_open t).0
  counts : Step t (count_commit t)
  records : (id : ℕ) → contains ℕ_discrete id t.open_ids ≡ true → Step t (record_commit t id)
  closes : (id : ℕ) → Step t (close t id)
  settles : (id : ℕ) → Step t (commit_ssi t id)
  aborts : (id : ℕ) → Step t (remove_open t id)
  reads : (id : ℕ) (table : Name) → Step t (note_read t id table)
  writes : (id : ℕ) (table : Name) → Step t (note_write t id table)

pub data Steps (t : TransactionManager) : TransactionManager → Type 0 where
  here : Steps t t
  next : {u v : TransactionManager} → Steps t u → Step u v → Steps t v

pub record IsValid (t : TransactionManager) : Type 0 where
  pub bitmap : Status.IsValid t.committed
  pub opened : (x : ℕ) → contains ℕ_discrete x t.open_ids ≡ true → x < t.next_id
  pub ended : (x : ℕ) → is_committed t.committed x ≡ true → x < t.next_id

next_id-begin_open :
    (t : TransactionManager)
    → t.next_id + 1 < u64_modulus
    → (begin_open t).0.next_id ≡ t.next_id + 1
unfolding begin_open insert_open allocate
next_id-begin_open t h = omega arith

open_ids-begin_open :
    (t : TransactionManager) (x : ℕ)
    → contains ℕ_discrete x (begin_open t).0.open_ids
      ≡ contains ℕ_discrete x (t.next_id ∷ t.open_ids)
unfolding begin_open insert_open allocate ℕ_discrete
open_ids-begin_open t x = ground (arith, contains-add ℕ_discrete t.next_id x t.open_ids)

committed-begin_open : (t : TransactionManager) → (begin_open t).0.committed ≡ t.committed
unfolding begin_open insert_open allocate
committed-begin_open t = refl

-- The two states differ in the commit counter and the conflict graph at most.
pub record SameCore (t u : TransactionManager) : Type 0 where
  pub same_next : u.next_id ≡ t.next_id
  pub same_committed : u.committed ≡ t.committed
  pub same_open : u.open_ids ≡ t.open_ids

pub commit_ssi-SameCore : (t : TransactionManager) (id : ℕ) → SameCore t (commit_ssi t id)
unfolding commit_ssi
commit_ssi-SameCore t id = ground arith

note_read-SameCore :
    (t : TransactionManager) (id : ℕ) (table : Name) → SameCore t (note_read t id table)
unfolding note_read
note_read-SameCore t id table = ground arith

note_write-SameCore :
    (t : TransactionManager) (id : ℕ) (table : Name) → SameCore t (note_write t id table)
unfolding note_write
note_write-SameCore t id table = ground arith

-- What a step does to the id counter, the commit status and the open set.
pub data Effect (t u : TransactionManager) : Type 0 where
  quiet : SameCore t u → Effect t u
  opens :
      u.next_id ≡ t.next_id + 1
      → u.committed ≡ t.committed
      → ((x : ℕ)
          → contains ℕ_discrete x u.open_ids ≡ contains ℕ_discrete x (t.next_id ∷ t.open_ids))
      → Effect t u
  commits :
      (id : ℕ)
      → contains ℕ_discrete id t.open_ids ≡ true
      → u.next_id ≡ t.next_id
      → u.committed ≡ mark_committed t.committed id
      → u.open_ids ≡ t.open_ids
      → Effect t u
  ends :
      (id : ℕ)
      → u.next_id ≡ t.next_id
      → u.committed ≡ t.committed
      → u.open_ids ≡ without ℕ_discrete id t.open_ids
      → Effect t u

pub Step-Effect : {t u : TransactionManager} → Step t u → Effect t u
unfolding count_commit record_commit close remove_open
Step-Effect {t} (Step.begins h) =
    Effect.opens (next_id-begin_open t h) (committed-begin_open t) (open_ids-begin_open t)
Step-Effect Step.counts =
    Effect.quiet (record { same_next = refl; same_committed = refl; same_open = refl })
Step-Effect (Step.records id o) = Effect.commits id o refl refl refl
Step-Effect (Step.closes id) = Effect.ends id refl refl refl
Step-Effect {t} (Step.settles id) = Effect.quiet (commit_ssi-SameCore t id)
Step-Effect (Step.aborts id) = Effect.ends id refl refl refl
Step-Effect {t} (Step.reads id table) = Effect.quiet (note_read-SameCore t id table)
Step-Effect {t} (Step.writes id table) = Effect.quiet (note_write-SameCore t id table)

Effect-IsValid : (t u : TransactionManager) → Effect t u → IsValid t → IsValid u
unfolding ℕ_discrete
Effect-IsValid t u (Effect.quiet e) v = record {
  bitmap = subst Status.IsValid (sym e.same_committed) v.bitmap;
  opened = λ x h. ground (arith, v.opened x);
  ended = λ x h. ground (arith, v.ended x);
}
Effect-IsValid t u (Effect.opens n c o) v = record {
  bitmap = subst Status.IsValid (sym c) v.bitmap;
  opened = λ x h. ground (arith, o x, v.opened x);
  ended = λ x h. ground (arith, v.ended x);
}
Effect-IsValid t u (Effect.commits id was n c o) v = record {
  bitmap = subst Status.IsValid (sym c) (mark_committed-IsValid t.committed id v.bitmap);
  opened = λ x h. ground (arith, v.opened x);
  ended = λ x h.
      ground
        (arith, is_committed-mark_committed t.committed id x v.bitmap, v.ended x, v.opened id was);
}
Effect-IsValid t u (Effect.ends id n c o) v = record {
  bitmap = subst Status.IsValid (sym c) v.bitmap;
  opened = λ x h. ground (arith, contains-without ℕ_discrete id x t.open_ids, v.opened x);
  ended = λ x h. ground (arith, v.ended x);
}

-- Every interleaving keeps the ids that are open or committed below the next one to be given out.
pub Steps-IsValid : {t u : TransactionManager} → Steps t u → IsValid t → IsValid u
Steps-IsValid Steps.here v = v
Steps-IsValid (Steps.next {u = u} {v = w} ss st) v =
    Effect-IsValid u w (Step-Effect st) (Steps-IsValid ss v)

-- `begin_open` gives out an id that is neither open nor committed, below the counter's limit, and
-- opens exactly that one.
pub begin_open_fresh :
    (t : TransactionManager)
    → IsValid t
    → t.next_id + 1 < u64_modulus
    → (contains ℕ_discrete (begin_open t).1 t.open_ids ≡ false)
      × (is_committed t.committed (begin_open t).1 ≡ false)
      × ((x : ℕ)
          → contains ℕ_discrete x (begin_open t).0.open_ids
            ≡ (x == (begin_open t).1 || contains ℕ_discrete x t.open_ids))
      × ((begin_open t).1 < (begin_open t).0.next_id)
unfolding begin_open insert_open allocate ℕ_discrete
begin_open_fresh t v h = (
  elim (Bool-cases (contains ℕ_discrete t.next_id t.open_ids)) [
    | inl e ↦ absurd (omega (arith, v.opened t.next_id e))
    | inr e ↦ e
  ],
  elim (Bool-cases (is_committed t.committed t.next_id)) [
    | inl e ↦ absurd (omega (arith, v.ended t.next_id e))
    | inr e ↦ e
  ],
  λ x. ground (arith, contains-add ℕ_discrete t.next_id x t.open_ids),
  omega arith,
)
