-- ===== src/Db/LockManager/Deadlock.antt =====
-- The chase of `in_cycle` against chains of waiting.
use chibidb.Prelude.{
  Distinct, ℕ, zero, suc, ◌+◌, ◌≤◌, ◌<◌, ◌≡◌, ◌≢◌, refl, subst, inl, inr, ◌↔◌, true, false, ◌==◌,
  List, [], ◌∷◌, none, some, Option-cases, Bool-cases, length, ℕ_discrete, arith,
}
use chibidb.Prelude.Map.{get, remove, get-remove}
use chibidb.Db.LockManager.{Key, Table, blocker, chase, in_cycle}
use chibidb.Db.LockManager.Views.{elem}

-- `a` waits for a row that `b` holds, or for one whose holder waits so in turn.
pub data Chain (t : Table) (b : ℕ) : ℕ → Type 0 where
  last : {a : ℕ} → blocker t a ≡ some b → Chain t b a
  link : {a c : ℕ} → blocker t a ≡ some c → Chain t b c → Chain t b a

-- A chain that visits no owner twice, with the owners that it visits.
data Simple (t : Table) (b : ℕ) : ℕ → List ℕ → Type 0 where
  last : {a : ℕ} → blocker t a ≡ some b → Simple t b a (a ∷ [])
  link :
      {a c : ℕ} {ns : List ℕ}
      → blocker t a ≡ some c
      → Simple t b c ns
      → elem a ns ≡ false
      → Simple t b a (a ∷ ns)

chase-Chain :
    (rounds : ℕ) (t : Table) (start cur : ℕ) → chase rounds t start cur ≡ true → Chain t start cur
unfolding chase
chase-Chain zero t start cur h = cc
chase-Chain (suc n) t start cur h = elim (Option-cases (blocker t cur)) [
  | inl e ↦ absurd (ground arith)
  | inr (c, e) ↦ elim (Bool-cases (c == start)) [
    | inl f ↦ Chain.last (ground arith)
    | inr f ↦ Chain.link e (chase-Chain n t start c (ground arith))
  ]
]

suffix :
    {t : Table} {b c : ℕ} {ns : List ℕ} (a : ℕ)
    → Simple t b c ns
    → elem a ns ≡ true
    → (ms : List ℕ) × Simple t b a ms
unfolding ℕ_discrete
suffix {t} {b} a (Simple.last {a = c} e) h =
    (a ∷ [], Simple.last (subst (λ x. blocker t x ≡ some b) (ground arith) e))
suffix {t} {b} a (Simple.link {a = c} {ns = ns} e s f) h = elim (ℕ_discrete c a) [
  | yes p ↦ (c ∷ ns, subst (λ x. Simple t b x (c ∷ ns)) p (Simple.link e s f))
  | no p ↦ suffix a s (ground arith)
]

simplify : {t : Table} {b a : ℕ} → Chain t b a → (ns : List ℕ) × Simple t b a ns
simplify (Chain.last {a = a} e) = (a ∷ [], Simple.last e)
simplify (Chain.link {a = a} e r) =
    let (ns, s) = simplify r in
    elim (Bool-cases (elem a ns)) [ inl f ↦ suffix a s f | inr f ↦ (a ∷ ns, Simple.link e s f) ]

Simple-Distinct : {t : Table} {b a : ℕ} {ns : List ℕ} → Simple t b a ns → Distinct ℕ_discrete ns
Simple-Distinct (Simple.last e) = (refl, tt)
Simple-Distinct (Simple.link e s f) = (f, Simple-Distinct s)

waits_of_blocked : (t : Table) (a c : ℕ) → blocker t a ≡ some c → get ℕ_discrete a t.waiting ≢ none
waits_of_blocked t a c e = λ h. ground arith

Simple-waits :
    {t : Table} {b a : ℕ} {ns : List ℕ}
    → Simple t b a ns
    → (x : ℕ) → elem x ns ≡ true
    → get ℕ_discrete x t.waiting ≢ none
unfolding ℕ_discrete
Simple-waits {t} {b} (Simple.last {a = a} e) x h = λ k. ground (arith, waits_of_blocked t a b e)
Simple-waits {t} (Simple.link {a = a} {c = c} e s f) x h = elim (ℕ_discrete a x) [
  | yes p ↦ λ k. ground (arith, waits_of_blocked t a c e)
  | no p ↦ Simple-waits s x (ground arith)
]

length-remove-le : (m : List (ℕ × Key)) (k : ℕ) → length (remove ℕ_discrete k m) ≤ length m
length-remove-le [] k = omega arith
length-remove-le ((j, v) ∷ m) k = ground (arith, length-remove-le m k)

length-remove-lt :
    (m : List (ℕ × Key)) (k : ℕ)
    → get ℕ_discrete k m ≢ none
    → length (remove ℕ_discrete k m) < length m
length-remove-lt [] k h = absurd (h refl)
length-remove-lt ((j, v) ∷ m) k h = ground (arith, length-remove-le m k, length-remove-lt m k)

-- Distinct owners that wait are at most as many as there are waits.
length-le_of_Distinct :
    (ns : List ℕ) (m : List (ℕ × Key))
    → Distinct ℕ_discrete ns
    → ((x : ℕ) → elem x ns ≡ true → get ℕ_discrete x m ≢ none)
    → length ns ≤ length m
unfolding ℕ_discrete
length-le_of_Distinct [] m d h = omega arith
length-le_of_Distinct (n ∷ ns) m d h =
    let shorter =
      length-le_of_Distinct ns (remove ℕ_discrete n m) d.1
        (λ x e. λ z. ground (arith, get-remove ℕ_discrete n x m, h x)) in
    omega (arith, shorter, length-remove-lt m n (h n (ground arith)))

chase_of_Simple :
    {t : Table} {b a : ℕ} {ns : List ℕ} (rounds : ℕ)
    → Simple t b a ns
    → length ns ≤ rounds
    → chase rounds t b a ≡ true
unfolding chase
chase_of_Simple zero (Simple.last e) h = absurd (omega arith)
chase_of_Simple zero (Simple.link e s f) h = absurd (omega arith)
chase_of_Simple (suc n) (Simple.last e) h = ground arith
chase_of_Simple (suc n) (Simple.link e s f) h =
    let more = chase_of_Simple n s (omega arith) in ground arith

-- The bounded walk of `in_cycle` answers true exactly when the chain of waiting from the owner
-- comes back to it: the bound on the rounds cuts off no cycle.
pub in_cycle-Chain : (t : Table) (start : ℕ) → (in_cycle t start ≡ true) ↔ Chain t start start
unfolding in_cycle
in_cycle-Chain t start = (
  chase-Chain (length t.waiting + 1) t start start,
  λ r.
      let (ns, s) = simplify r in
      chase_of_Simple (length t.waiting + 1) s
        (omega (arith, length-le_of_Distinct ns t.waiting (Simple-Distinct s) (Simple-waits s))),
)
