-- ===== src/Db/LockManager/Invariant.antt =====
-- The invariant of the lock table, and that taking, waiting for and giving up a lock keep it.
use chibidb.Prelude.{
  Distinct, ℕ, ◌≡◌, sym, subst, inl, inr, ite, if_pos, if_neg, true, false, ◌&&◌, ◌||◌, ◌==◌, List,
  [], none, some, Bool-cases, contains, add, ℕ_discrete,
}
use chibidb.Prelude.Map.{get_default, get_default-insert}
use chibidb.Db.LockManager.{Key, Key_discrete, Table, hold, holder_of, grant, is_owner}
use chibidb.Db.LockManager.Views.{elem, queue, holds, awaits}

-- The invariant while `leaver` still has the rows of `pending` to release; `pending` is empty
-- between calls.
pub record Inv (leaver : ℕ) (pending : List Key) (t : Table) : Type 0 where
  pub agree :
      (o : ℕ) (k : Key)
      → (holds t o k || (leaver == o && contains Key_discrete k pending))
        ≡ is_owner (holder_of t k) o
  pub vacant : (k : Key) → holder_of t k ≡ none → queue t k ≡ []
  pub queued :
      (o : ℕ) (k : Key)
      → elem o (queue t k) ≡ true
      → (awaits t o ≡ some k) × (is_owner (holder_of t k) o ≡ false)
  pub awaited :
      (o : ℕ) (k : Key)
      → awaits t o ≡ some k
      → is_owner (holder_of t k) o ≡ false
      → elem o (queue t k) ≡ true
  pub distinct : (k : Key) → Distinct ℕ_discrete (queue t k)
  pub sets : (o : ℕ) → Distinct Key_discrete (get_default ℕ_discrete [] o t.held)
  pub chosen : Distinct Key_discrete pending
  pub apart : (k : Key) → (holds t leaver k && contains Key_discrete k pending) ≡ false

-- Between calls.
abbrev pub IsValid : Table → Type 0
IsValid = Inv 0 []

pub Distinct-add {ℓ} :
    {A : Type ℓ} (dec : Discrete A) (a : A) (xs : List A)
    → Distinct dec xs
    → Distinct dec (add dec a xs)
Distinct-add dec a xs h = elim (Bool-cases (contains dec a xs)) [
  | inl e ↦ rw e h
  | inr e ↦ rw e (e, h)
]

pub sets-hold :
    (owner : ℕ) (key : Key) (held : List (ℕ × List Key)) (o : ℕ)
    → ((p : ℕ) → Distinct Key_discrete (get_default ℕ_discrete [] p held))
    → Distinct Key_discrete (get_default ℕ_discrete [] o (hold owner key held))
sets-hold owner key held o h =
    let own = add Key_discrete key (get_default ℕ_discrete [] owner held) in
    subst (Distinct Key_discrete) (sym (get_default-insert ℕ_discrete [] owner o own held))
      (elim (ℕ_discrete owner o) [
        | yes p ↦ rw (if_pos _ p) (Distinct-add Key_discrete key _ (h owner))
        | no p ↦ rw (if_neg _ p) (h o)
      ])

pub sets-grant :
    (t : Table) (owner : ℕ) (key : Key) (waiters : List ℕ) (o : ℕ)
    → ((p : ℕ) → Distinct Key_discrete (get_default ℕ_discrete [] p t.held))
    → Distinct Key_discrete (get_default ℕ_discrete [] o (grant t owner key waiters).held)
unfolding grant
sets-grant t owner key waiters o h = sets-hold owner key t.held o h

-- A property of lists that holds on both branches of a decision.
pub Distinct-ite :
    {P : Type 0} (d : Dec P) (xs ys zs : List ℕ)
    → xs ≡ ite d ys zs
    → (P → Distinct ℕ_discrete ys)
    → Distinct ℕ_discrete zs
    → Distinct ℕ_discrete xs
Distinct-ite (yes p) xs ys zs e f g = subst (Distinct ℕ_discrete) (sym e) (f p)
Distinct-ite (no n) xs ys zs e f g = subst (Distinct ℕ_discrete) (sym e) g
