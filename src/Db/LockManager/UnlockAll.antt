-- ===== src/Db/LockManager/UnlockAll.antt =====
-- The end of a transaction: every row that it holds goes to the first in its queue.
use chibidb.Prelude.{
  Distinct, ℕ, ◌≡◌, refl, sym, subst, inl, inr, ite, if_pos, if_neg, false, if◌then◌else◌, List, [],
  ◌∷◌, Option, none, some, Option-cases, contains, contains_head, ℕ_discrete, arith,
}
use chibidb.Prelude.Map.{get, remove, get-remove, get_default-remove}
use chibidb.Db.LockManager.{
  Key, Key_discrete, Table, holder_of, release_key, release_keys, unlock_all, is_owner,
}
use chibidb.Db.LockManager.Views.{queue, holds, awaits, entry-remove, grant_views}
use chibidb.Db.LockManager.Invariant.{Inv, IsValid}
use chibidb.Db.LockManager.Release.{
  Released, released, drop_entry, queue_cases, held_by_owner, release_key-Inv,
}

abbrev pub first : List ℕ → Option ℕ
first [] = none
first (x ∷ xs) = some x

abbrev pub rest_of : List ℕ → List ℕ
rest_of [] = []
rest_of (x ∷ xs) = xs

drop_entry_views :
    (t : Table) (key k : Key)
    → (holder_of (drop_entry t key) k ≡ ite (Key_discrete key k) none (holder_of t k))
      × (queue (drop_entry t key) k ≡ ite (Key_discrete key k) [] (queue t k))
unfolding drop_entry
drop_entry_views t key k = entry-remove t key k

release_key_views :
    (t : Table) (key k : Key) (h : ℕ)
    → holder_of t key ≡ some h
    → (holder_of (release_key t key) k
        ≡ ite (Key_discrete key k) (first (queue t key)) (holder_of t k))
      × (queue (release_key t key) k ≡ ite (Key_discrete key k) (rest_of (queue t key)) (queue t k))
release_key_views t key k h held = elim (released t key h held) [
  | Released.handed next rest q e ↦ rw (e, q) (grant_views t next key rest k)
  | Released.freed q e ↦ rw (e, q) (drop_entry_views t key k)
]

abbrev pub Keeps : ℕ → Table → Table → Type 0
Keeps owner t u = Inv owner [] u × (awaits u owner ≡ none)

release_keys-Inv :
    (owner : ℕ) (keys : List Key) (t : Table)
    → Inv owner keys t
    → awaits t owner ≡ none
    → Inv owner [] (release_keys t keys) × (awaits (release_keys t keys) owner ≡ none)
unfolding release_keys
release_keys-Inv owner [] t v idle = (v, idle)
release_keys-Inv owner (key ∷ keys) t v idle =
    let (v', idle') = release_key-Inv owner key keys t v idle in
    release_keys-Inv owner keys (release_key t key) v' idle'

release_keys_views :
    (owner : ℕ) (keys : List Key) (t : Table) (k : Key)
    → Inv owner keys t
    → awaits t owner ≡ none
    → (holder_of (release_keys t keys) k
        ≡ (if contains Key_discrete k keys then first (queue t k) else holder_of t k))
      × (queue (release_keys t keys) k
          ≡ (if contains Key_discrete k keys then rest_of (queue t k) else queue t k))
unfolding release_keys
release_keys_views owner [] t k v idle = (refl, refl)
release_keys_views owner (key ∷ keys) t k v idle =
    let (v', idle') = release_key-Inv owner key keys t v idle in
    let one = release_key_views t key k owner (held_by_owner owner key keys t v idle) in
    let more = release_keys_views owner keys (release_key t key) k v' idle' in
    elim (Key_discrete key k) [
      | yes p ↦ ground (arith, v.chosen.0)
      | no p ↦ ground (arith, v.chosen.0)
    ]

-- The table once the owner's set of rows is taken out of `held`.
leave : Table → ℕ → Table
leave t owner = record t { held = remove ℕ_discrete owner t.held }

abbrev or_empty : Option (List Key) → List Key
or_empty none = []
or_empty (some keys) = keys

leave-Inv :
    (t : Table) (owner : ℕ) (keys : List Key)
    → IsValid t
    → get ℕ_discrete owner t.held ≡ some keys
    → Inv owner keys (leave t owner)
unfolding leave ℕ_discrete
leave-Inv t owner keys v e = record {
  agree = λ o k. ground (arith, v.agree o k, get-remove ℕ_discrete owner o t.held);
  vacant = v.vacant;
  queued = v.queued;
  awaited = v.awaited;
  distinct = v.distinct;
  sets = λ o.
      subst (Distinct Key_discrete) (sym (get_default-remove ℕ_discrete [] owner o t.held))
        (elim (ℕ_discrete owner o) [
          | yes p ↦ rw (if_pos _ p) tt
          | no p ↦ rw (if_neg _ p) (v.sets o)
        ]);
  chosen = subst (λ q. Distinct Key_discrete (or_empty q)) e (v.sets owner);
  apart = λ k. ground (arith, get-remove ℕ_discrete owner owner t.held);
}

settled : (owner : ℕ) (t : Table) → Inv owner [] t → IsValid t
settled owner t v = record {
  agree = λ o k. ground (arith, v.agree o k);
  vacant = v.vacant;
  queued = v.queued;
  awaited = v.awaited;
  distinct = v.distinct;
  sets = v.sets;
  chosen = tt;
  apart = λ k. ground arith;
}

-- Whoever is first in a queue is not an owner that waits for nothing.
first_stranger :
    (t : Table) (owner : ℕ) (k : Key)
    → IsValid t
    → awaits t owner ≡ none
    → is_owner (first (queue t k)) owner ≡ false
unfolding ℕ_discrete
first_stranger t owner k v idle = elim (queue_cases (queue t k)) [
  | inl e ↦ rw e
  | inr (x, xs, e) ↦
      let at = v.queued x k (rw e (contains_head ℕ_discrete x xs)) in rw e (ground arith)
]

-- The end of a transaction that is not waiting Keeps the invariant, and the owner then holds and
-- waits for nothing. A row that it held goes to the first in the queue, or to nobody if there is
-- none, and the others move up in order; every other row Keeps its holder and its queue.
pub unlock_all-IsValid :
    (t : Table) (owner : ℕ)
    → IsValid t
    → awaits t owner ≡ none
    → IsValid (unlock_all t owner)
      × (awaits (unlock_all t owner) owner ≡ none)
      × ((k : Key) → holds (unlock_all t owner) owner k ≡ false)
      × ((k : Key)
          → holder_of (unlock_all t owner) k
            ≡ (if holds t owner k then first (queue t k) else holder_of t k))
      × ((k : Key)
          → queue (unlock_all t owner) k
            ≡ (if holds t owner k then rest_of (queue t k) else queue t k))
unfolding unlock_all leave
unlock_all-IsValid t owner v idle = elim (Option-cases (get ℕ_discrete owner t.held)) [
  | inl e ↦ rw (e, unlock_all) (v, idle, λ k. ground arith, λ k. ground arith, λ k. ground arith)
  | inr (keys, e) ↦
      let left = leave-Inv t owner keys v e in
      let (v', idle') = release_keys-Inv owner keys (leave t owner) left idle in
      let views = λ (k : Key). release_keys_views owner keys (leave t owner) k left idle in
      rw (e, unlock_all)
        (
          settled owner _ v',
          idle',
          λ k.
              ground (
                arith,
                v'.agree owner k,
                v.agree owner k,
                views k,
                first_stranger t owner k v idle,
              ),
          λ k. ground (arith, views k),
          λ k. ground (arith, views k),
        )
]
