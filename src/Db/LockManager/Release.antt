-- ===== src/Db/LockManager/Release.antt =====
-- Releasing every row of an owner: hand-over in the order of arrival.
use chibidb.Prelude.{
  Distinct, ℕ, ◌≡◌, ◌≢◌, refl, subst, ◌∙◌, inl, inr, true, false, List, [], ◌∷◌, none, some,
  Option-cases, contains_head, ◌⊎◌, ℕ_discrete, arith,
}
use chibidb.Prelude.Map.{get, remove}
use chibidb.Db.LockManager.{Key, Key_discrete, Table, holder_of, grant, release_key, is_owner}
use chibidb.Db.LockManager.Views.{
  elem, queue, awaits, entry-remove, grant_views, holds-grant, awaits-grant,
}
use chibidb.Db.LockManager.Invariant.{Inv, sets-grant, Distinct-ite}

-- The row without its entry.
unfoldable pub drop_entry : Table → Key → Table
drop_entry t key = record t { locks = remove Key_discrete key t.locks }

-- What `release_key` does with a row that is held.
pub data Released (t : Table) (key : Key) : Type 0 where
  handed :
      (next : ℕ) (rest : List ℕ)
      → queue t key ≡ next ∷ rest
      → release_key t key ≡ grant t next key rest
      → Released t key
  freed : queue t key ≡ [] → release_key t key ≡ drop_entry t key → Released t key

pub queue_cases : (xs : List ℕ) → (xs ≡ []) ⊎ ((x : ℕ) × (rest : List ℕ) × (xs ≡ x ∷ rest))
queue_cases [] = inl refl
queue_cases (x ∷ rest) = inr (x, rest, refl)

pub released : (t : Table) (key : Key) (h : ℕ) → holder_of t key ≡ some h → Released t key
unfolding release_key drop_entry
released t key h held = elim (Option-cases (get Key_discrete key t.locks)) [
  | inl e ↦ absurd (ground arith)
  | inr (entry, e) ↦ elim (queue_cases entry.waiters) [
    | inl f ↦ Released.freed (rw e f) (rw (e, release_key) (rw f))
    | inr (next, rest, f) ↦ Released.handed next rest (rw e f) (rw (e, release_key) (rw f))
  ]
]

module _ (owner : ℕ) (key : Key) (pending : List Key) (t : Table) (v : Inv owner (key ∷ pending) t)
    (idle : awaits t owner ≡ none) where
  pub holder_is_owner : is_owner (holder_of t key) owner ≡ true
  unfolding ℕ_discrete
  holder_is_owner = ground (arith, v.agree owner key, contains_head Key_discrete key pending)

  pub held_by_owner : holder_of t key ≡ some owner
  held_by_owner = elim (Option-cases (holder_of t key)) [
    | inl e ↦ absurd (ground (arith, holder_is_owner))
    | inr (h, e) ↦ ground (arith, holder_is_owner)
  ]

  freed-Inv : queue t key ≡ [] → Inv owner pending (drop_entry t key)
  unfolding drop_entry ℕ_discrete
  freed-Inv q = record {
    agree = λ o k.
        ground (arith, v.agree o k, v.apart k, v.chosen.0, held_by_owner, entry-remove t key k);
    vacant = λ k j. ground (arith, v.vacant k, entry-remove t key k);
    queued = λ o k j. ground (arith, v.queued o k, entry-remove t key k);
    awaited = λ o k j l. ground (arith, v.awaited o k, entry-remove t key k, held_by_owner);
    distinct = λ k.
        Distinct-ite (Key_discrete key k) _ [] (queue t k) (entry-remove t key k).1 (λ p. tt)
          (v.distinct k);
    sets = v.sets;
    chosen = v.chosen.1;
    apart = λ k. ground (arith, v.apart k);
  }

  -- The first waiter waits for this row, so it is not the owner that leaves, and waits once.
  next_waits :
      (next : ℕ) (rest : List ℕ)
      → queue t key ≡ next ∷ rest
      → (awaits t next ≡ some key) × (elem next rest ≡ false) × (next ≢ owner)
  unfolding ℕ_discrete
  next_waits next rest q =
      let at = v.queued next key (rw q (contains_head ℕ_discrete next rest)) in
      (at.0, (subst (Distinct ℕ_discrete) q (v.distinct key)).0, λ e. ground arith)

  handed-Inv :
      (next : ℕ) (rest : List ℕ)
      → queue t key ≡ next ∷ rest
      → Inv owner pending (grant t next key rest)
  unfolding ℕ_discrete
  handed-Inv next rest q =
      let w = next_waits next rest q in
      record {
        agree = λ o k. ground (
          arith,
          v.agree o k,
          v.apart k,
          v.chosen.0,
          held_by_owner,
          grant_views t next key rest k,
          holds-grant t next key rest o k,
        );
        vacant = λ k j. ground (arith, v.vacant k, grant_views t next key rest k);
        queued = λ o k j. ground (
          arith,
          v.queued o k,
          held_by_owner,
          grant_views t next key rest k,
          awaits-grant t next key rest o,
        );
        awaited = λ o k j l. ground (
          arith,
          v.awaited o k,
          held_by_owner,
          grant_views t next key rest k,
          awaits-grant t next key rest o,
        );
        distinct = λ k.
            Distinct-ite (Key_discrete key k) _ rest (queue t k) (grant_views t next key rest k).1
              (λ p. (subst (Distinct ℕ_discrete) q (v.distinct key)).1) (v.distinct k);
        sets = λ o. sets-grant t next key rest o v.sets;
        chosen = v.chosen.1;
        apart = λ k. ground (arith, v.apart k, holds-grant t next key rest owner k);
      }

  pub release_key-Inv :
      Inv owner pending (release_key t key) × (awaits (release_key t key) owner ≡ none)
  unfolding drop_entry
  release_key-Inv = elim (released t key owner held_by_owner) [
    | Released.handed next rest q e ↦
        rw e (handed-Inv next rest q, awaits-grant t next key rest owner ∙ idle)
    | Released.freed q e ↦ rw e (freed-Inv q, idle)
  ]
