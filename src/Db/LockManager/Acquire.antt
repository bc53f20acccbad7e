-- ===== src/Db/LockManager/Acquire.antt =====
-- Taking, waiting for and giving up a lock keep the invariant.
use chibidb.Prelude.{
  Distinct, ℕ, ◌≡◌, refl, sym, subst, ◌∙◌, inl, inr, if_pos, if_neg, true, false, ◌==◌,
  if◌then◌else◌, List, [], ◌∷◌, ◌++◌, none, some, Option-cases, Bool-cases, contains-append,
  contains-without, without, ℕ_discrete, arith,
}
use chibidb.Prelude.Map.{get, get_default}
use chibidb.Db.LockManager.{
  Key, Key_discrete, LockEntry, Table, holder_of, grant, enqueue, try_lock, abort, is_owner,
}
use chibidb.Db.LockManager.Views.{
  elem, queue, holds, awaits, grant_views, holds-grant, enqueue_views, awaits-enqueue, abort_views,
  awaits-abort, awaits-grant, held-enqueue, held-abort, entry_queue,
}
use chibidb.Db.LockManager.Invariant.{IsValid, sets-grant, Distinct-ite}

-- Taking a row that nobody holds.
grant-IsValid :
    (t : Table) (owner : ℕ) (key : Key) (waiters : List ℕ)
    → IsValid t
    → awaits t owner ≡ none
    → holder_of t key ≡ none
    → waiters ≡ []
    → IsValid (grant t owner key waiters)
unfolding ℕ_discrete
grant-IsValid t owner key ws v idle free e = record {
  agree = λ o k.
      ground (arith, v.agree o k, grant_views t owner key ws k, holds-grant t owner key ws o k);
  vacant = λ k h. ground (arith, v.vacant k, grant_views t owner key ws k);
  queued = λ o k h.
      ground (arith, v.queued o k, grant_views t owner key ws k, awaits-grant t owner key ws o);
  awaited = λ o k h j. ground (
    arith,
    v.awaited o k,
    v.awaited o key,
    v.vacant key free,
    grant_views t owner key ws k,
    awaits-grant t owner key ws o,
  );
  distinct = λ k.
      Distinct-ite (Key_discrete key k) _ ws (queue t k) (grant_views t owner key ws k).1
        (λ p. subst (Distinct ℕ_discrete) (sym e) tt) (v.distinct k);
  sets = λ o. sets-grant t owner key ws o v.sets;
  chosen = tt;
  apart = λ k. ground arith;
}

Distinct-append :
    (xs : List ℕ) (a : ℕ)
    → Distinct ℕ_discrete xs
    → elem a xs ≡ false
    → Distinct ℕ_discrete (xs ++ (a ∷ []))
unfolding ℕ_discrete
Distinct-append [] a h e = (refl, tt)
Distinct-append (x ∷ xs) a h e = (
  ground (arith, contains-append ℕ_discrete x xs (a ∷ [])),
  Distinct-append xs a h.1 (ground arith),
)

-- Joining the queue of a row that another owner holds.
enqueue-IsValid :
    (t : Table) (owner : ℕ) (key : Key) (e : LockEntry) (h : ℕ)
    → IsValid t
    → awaits t owner ≡ none
    → get Key_discrete key t.locks ≡ some e
    → e.holder ≡ some h
    → (h == owner) ≡ false
    → IsValid (enqueue t owner key e)
unfolding ℕ_discrete
enqueue-IsValid t owner key e h v idle there by other = record {
  agree =
      λ o k. ground (arith, v.agree o k, enqueue_views t owner key e k, held-enqueue t owner key e);
  vacant = λ k j. ground (arith, v.vacant k, enqueue_views t owner key e k);
  queued = λ o k j. ground (
    arith,
    v.queued o k,
    enqueue_views t owner key e k,
    awaits-enqueue t owner key e o,
    contains-append ℕ_discrete o e.waiters (owner ∷ []),
  );
  awaited = λ o k j l. ground (
    arith,
    v.awaited o k,
    enqueue_views t owner key e k,
    awaits-enqueue t owner key e o,
    contains-append ℕ_discrete o e.waiters (owner ∷ []),
  );
  distinct = λ k.
      Distinct-ite (Key_discrete key k) _ (e.waiters ++ (owner ∷ [])) (queue t k)
        (enqueue_views t owner key e k).1
        (λ p.
          Distinct-append e.waiters owner
            (subst (λ q. Distinct ℕ_discrete (entry_queue q)) there (v.distinct key))
            (ground (arith, v.queued owner key)))
        (v.distinct k);
  sets = λ o.
      subst (λ m. Distinct Key_discrete (get_default ℕ_discrete [] o m))
        (sym (held-enqueue t owner key e)) (v.sets o);
  chosen = tt;
  apart = λ k. ground arith;
}

Distinct-without :
    (a : ℕ) (xs : List ℕ) → Distinct ℕ_discrete xs → Distinct ℕ_discrete (without ℕ_discrete a xs)
Distinct-without a [] h = tt
Distinct-without a (x ∷ xs) h = elim (ℕ_discrete x a) [
  | yes p ↦ rw (if_pos _ p) (Distinct-without a xs h.1)
  | no p ↦
      rw (if_neg _ p)
        (ground (arith, contains-without ℕ_discrete a x xs), Distinct-without a xs h.1)
]

-- Giving up: the owner leaves the queue, and nothing else changes.
pub abort-IsValid :
    (t : Table) (owner : ℕ) (key : Key)
    → IsValid t
    → awaits t owner ≡ some key
    → is_owner (holder_of t key) owner ≡ false
    → IsValid (abort t owner key)
unfolding ℕ_discrete
abort-IsValid t owner key v at other = record {
  agree = λ o k. ground (arith, v.agree o k, abort_views t owner key k, held-abort t owner key);
  vacant = λ k j. ground (arith, v.vacant k, v.vacant key, abort_views t owner key k);
  queued = λ o k j. ground (
    arith,
    v.queued o k,
    abort_views t owner key k,
    awaits-abort t owner key o,
    contains-without ℕ_discrete owner o (queue t k),
  );
  awaited = λ o k j l. ground (
    arith,
    v.awaited o k,
    abort_views t owner key k,
    awaits-abort t owner key o,
    contains-without ℕ_discrete owner o (queue t k),
  );
  distinct = λ k.
      Distinct-ite (Key_discrete key k) _ (without ℕ_discrete owner (queue t k)) (queue t k)
        (abort_views t owner key k).1 (λ p. Distinct-without owner (queue t k) (v.distinct k))
        (v.distinct k);
  sets = λ o.
      subst (λ m. Distinct Key_discrete (get_default ℕ_discrete [] o m))
        (sym (held-abort t owner key)) (v.sets o);
  chosen = tt;
  apart = λ k. ground arith;
}

-- The three outcomes of asking for a row.
data Asked (t : Table) (owner : ℕ) (key : Key) : Type 0 where
  free :
      (ws : List ℕ)
      → holder_of t key ≡ none
      → queue t key ≡ ws
      → try_lock t owner key ≡ (grant t owner key ws, true)
      → Asked t owner key
  mine :
      is_owner (holder_of t key) owner ≡ true → try_lock t owner key ≡ (t, true) → Asked t owner key
  taken :
      (e : LockEntry) (h : ℕ)
      → get Key_discrete key t.locks ≡ some e
      → e.holder ≡ some h
      → (h == owner) ≡ false
      → try_lock t owner key ≡ (enqueue t owner key e, false)
      → Asked t owner key

ask : (t : Table) (owner : ℕ) (key : Key) → Asked t owner key
unfolding try_lock
ask t owner key = elim (Option-cases (get Key_discrete key t.locks)) [
  | inl e ↦ Asked.free [] (rw e) (rw e) (rw (e, try_lock))
  | inr (entry, e) ↦ elim (Option-cases entry.holder) [
    | inl f ↦ Asked.free entry.waiters (rw e f) (rw e) (rw (e, try_lock) (rw f))
    | inr (h, f) ↦ elim (Bool-cases (h == owner)) [
      | inl g ↦ Asked.mine (rw e (rw f g)) (rw (e, try_lock) (rw f (rw g)))
      | inr g ↦ Asked.taken entry h e f g (rw (e, try_lock) (simp (f, g)))
    ]
  ]
]

-- An owner that is not waiting asks for a row: the call keeps the invariant, it returns with the
-- lock exactly when the owner then holds the row, and else the owner waits for that row.
pub try_lock-IsValid :
    (t : Table) (owner : ℕ) (key : Key)
    → IsValid t
    → awaits t owner ≡ none
    → IsValid (try_lock t owner key).0
      × (holds (try_lock t owner key).0 owner key ≡ (try_lock t owner key).1)
      × (awaits (try_lock t owner key).0 owner
          ≡ (if (try_lock t owner key).1 then none else some key))
unfolding ℕ_discrete
try_lock-IsValid t owner key v idle = elim (ask t owner key) [
  | Asked.free ws f q e ↦ rw e (
    grant-IsValid t owner key ws v idle f (sym q ∙ v.vacant key f),
    ground (arith, holds-grant t owner key ws owner key),
    awaits-grant t owner key ws owner ∙ idle,
  )
  | Asked.mine f e ↦ rw e (v, ground (arith, v.agree owner key), idle)
  | Asked.taken entry h there by other e ↦ rw e (
    enqueue-IsValid t owner key entry h v idle there by other,
    ground (arith, v.agree owner key, held-enqueue t owner key entry),
    ground (arith, awaits-enqueue t owner key entry owner),
  )
]
