-- ===== src/Db/Ssi/Cycle.antt =====
-- The search of `has_cycle_through` against walks along the edges.
use chibidb.Prelude.{
  ℕ, zero, suc, ◌+◌, ◌≤◌, ◌<◌, ◌≡◌, refl, sym, ap, subst, contains_head, ◌≢◌, ◌⊎◌, inl, inr, Bool,
  true, false, not, ◌&&◌, ◌||◌, ◌==◌, if◌then◌else◌, List, [], ◌∷◌, ◌++◌, none, some, length,
  length-append, contains, contains-append, ℕ_discrete, Bool-cases, Option-cases, arith,
}
use chibidb.Prelude.Map.{get_default}
use chibidb.Db.Ssi.{Ssi, Search, push_new, search_loop, edge_count, has_cycle_through}

abbrev pub elem : ℕ → List ℕ → Bool
elem = contains ℕ_discrete

abbrev pub Graph : Type 0
Graph = List (ℕ × List ℕ)

abbrev pub successors : ℕ → Graph → List ℕ
successors = get_default ℕ_discrete []

-- `a` has an rw-antidependency with `b`.
abbrev pub Edge : Graph → ℕ → ℕ → Type 0
Edge out a b = elem b (successors a out) ≡ true

-- A chain of at least one edge.
pub data Walk (out : Graph) (a : ℕ) : ℕ → Type 0 where
  one : {b : ℕ} → Edge out a b → Walk out a b
  more : {b c : ℕ} → Walk out a b → Edge out b c → Walk out a c

push_new-none :
    (id : ℕ) (nexts stack seen : List ℕ)
    → push_new id nexts stack seen ≡ none
    → elem id nexts ≡ true
unfolding push_new ℕ_discrete
push_new-none id [] stack seen h = cc
push_new-none id (n ∷ nexts) stack seen h =
    ground (arith, push_new-none id nexts stack seen, push_new-none id nexts (n ∷ stack) (n ∷ seen))

record Pushed (id : ℕ) (nexts stack seen stack' seen' : List ℕ) : Type 0 where
  not_id : elem id nexts ≡ false
  seen_now : (x : ℕ) → elem x seen' ≡ (elem x seen || elem x nexts)
  stack_now : (x : ℕ) → elem x stack' ≡ (elem x stack || elem x nexts && not (elem x seen))

push_new-Pushed :
    (id : ℕ) (nexts stack seen stack' seen' : List ℕ)
    → push_new id nexts stack seen ≡ some (stack', seen')
    → Pushed id nexts stack seen stack' seen'
unfolding push_new ℕ_discrete
push_new-Pushed id [] stack seen stack' seen' h = record {
  not_id = refl;
  seen_now = λ x. ground arith;
  stack_now = λ x. ground arith;
}
push_new-Pushed id (n ∷ nexts) stack seen stack' seen' h = elim (Bool-cases (n == id)) [
  | inl e ↦ absurd (ground arith)
  | inr e ↦ elim (Bool-cases (elem n seen)) [
    | inl old ↦
        let r = push_new-Pushed id nexts stack seen stack' seen' (ground arith) in
        record {
          not_id = ground (arith, r.not_id);
          seen_now = λ x. ground (arith, r.seen_now x);
          stack_now = λ x. ground (arith, r.stack_now x);
        }
    | inr fresh ↦
        let r = push_new-Pushed id nexts (n ∷ stack) (n ∷ seen) stack' seen' (ground arith) in
        record {
          not_id = ground (arith, r.not_id);
          seen_now = λ x. ground (arith, r.seen_now x);
          stack_now = λ x. ground (arith, r.stack_now x);
        }
  ]
]

record Inv (out : Graph) (id : ℕ) (stack seen : List ℕ) : Type 0 where
  reached : (x : ℕ) → elem x stack ≡ true → (x ≡ id) ⊎ Walk out id x
  closed :
      (x y : ℕ)
      → (elem x seen ≡ true) ⊎ (x ≡ id)
      → elem x stack ≡ false
      → Edge out x y
      → (elem y seen ≡ true) × (y ≢ id)

extend-Walk :
    {out : Graph} {id cur x : ℕ} → (cur ≡ id) ⊎ Walk out id cur → Edge out cur x → Walk out id x
extend-Walk {out} {id} {cur} {x} (inl e) h = Walk.one (subst (λ c. Edge out c x) e h)
extend-Walk (inr w) h = Walk.more w h

elem-ne : (x id : ℕ) (xs : List ℕ) → elem id xs ≡ false → elem x xs ≡ true → x ≢ id
elem-ne x id xs h k e = cc (ap (λ z. elem z xs) e)

module _ (out : Graph) (id cur : ℕ) (stack seen stack' seen' : List ℕ)
    (inv : Inv out id (cur ∷ stack) seen)
    (p : Pushed id (successors cur out) stack seen stack' seen') where
  reached_next : (x : ℕ) → elem x stack' ≡ true → (x ≡ id) ⊎ Walk out id x
  unfolding ℕ_discrete
  reached_next x h = elim (Bool-cases (elem x stack)) [
    | inl old ↦ inv.reached x (ground arith)
    | inr new ↦ inr (extend-Walk (inv.reached cur (ground arith)) (ground (arith, p.stack_now x)))
  ]

  closed_next :
      (x y : ℕ)
      → (elem x seen' ≡ true) ⊎ (x ≡ id)
      → elem x stack' ≡ false
      → Edge out x y
      → (elem y seen' ≡ true) × (y ≢ id)
  unfolding ℕ_discrete
  closed_next x y at off edge = elim (ℕ_discrete cur x) [
    | yes e ↦
        let edge' : Edge out cur y = subst (λ c. Edge out c y) (sym e) edge in
        (ground (arith, p.seen_now y), elem-ne y id _ p.not_id edge')
    | no ne ↦
        let old =
          inv.closed x y (ground (arith, p.stack_now x, p.seen_now x))
            (ground (arith, p.stack_now x)) edge in
        (ground (arith, p.seen_now y), old.1)
  ]

  Inv-push_new : Inv out id stack' seen'
  Inv-push_new = record { reached = reached_next; closed = closed_next }

unseen : List ℕ → List ℕ → ℕ
unseen [] seen = 0
unseen (t ∷ ts) seen = (if elem t seen then 0 else 1) + unseen ts seen

unseen-le-length : (ts seen : List ℕ) → unseen ts seen ≤ length ts
unfolding unseen
unseen-le-length [] seen = omega arith
unseen-le-length (t ∷ ts) seen = ground (arith, unseen-le-length ts seen)

unseen-cons-le : (ts seen : List ℕ) (n : ℕ) → unseen ts (n ∷ seen) ≤ unseen ts seen
unfolding unseen ℕ_discrete
unseen-cons-le [] seen n = omega arith
unseen-cons-le (t ∷ ts) seen n = ground (arith, unseen-cons-le ts seen n)

unseen-cons-lt :
    (ts seen : List ℕ) (n : ℕ)
    → elem n ts ≡ true
    → elem n seen ≡ false
    → unseen ts (n ∷ seen) < unseen ts seen
unfolding unseen ℕ_discrete
unseen-cons-lt [] seen n h k = cc
unseen-cons-lt (t ∷ ts) seen n h k =
    ground (arith, unseen-cons-lt ts seen n, unseen-cons-le ts seen n)

push_new_measure :
    (ts : List ℕ) (id : ℕ) (nexts stack seen stack' seen' : List ℕ)
    → ((x : ℕ) → elem x nexts ≡ true → elem x ts ≡ true)
    → push_new id nexts stack seen ≡ some (stack', seen')
    → length stack' + unseen ts seen' ≤ length stack + unseen ts seen
unfolding push_new ℕ_discrete
push_new_measure ts id [] stack seen stack' seen' sub h = ground arith
push_new_measure ts id (n ∷ nexts) stack seen stack' seen' sub h = elim (Bool-cases (n == id)) [
  | inl e ↦ absurd (ground arith)
  | inr e ↦
      let sub' : (x : ℕ) → elem x nexts ≡ true → elem x ts ≡ true = λ x k. sub x (ground arith) in
      elim (Bool-cases (elem n seen)) [
        | inl old ↦ push_new_measure ts id nexts stack seen stack' seen' sub' (ground arith)
        | inr fresh ↦ omega (
          arith,
          push_new_measure ts id nexts (n ∷ stack) (n ∷ seen) stack' seen' sub' (ground arith),
          unseen-cons-lt ts seen n (sub n (contains_head ℕ_discrete n nexts)) fresh,
        )
      ]
]

targets : Graph → List ℕ
targets [] = []
targets ((k, xs) ∷ m) = xs ++ targets m

length-targets : (out : Graph) → length (targets out) ≡ edge_count out
unfolding targets edge_count
length-targets [] = refl
length-targets ((k, xs) ∷ m) = omega (arith, length-append xs (targets m), length-targets m)

successors-targets :
    (cur : ℕ) (out : Graph) (x : ℕ)
    → elem x (successors cur out) ≡ true
    → elem x (targets out) ≡ true
unfolding targets
successors-targets cur [] x h = cc
successors-targets cur ((k, xs) ∷ m) x h =
    ground (arith, contains-append ℕ_discrete x xs (targets m), successors-targets cur m x)

-- When the stack is empty, what was seen is closed under the edges and does not hold `id`.
Walk-seen :
    {out : Graph} {id y : ℕ} (seen : List ℕ)
    → Inv out id [] seen
    → Walk out id y
    → (elem y seen ≡ true) × (y ≢ id)
Walk-seen {out} {id} seen inv (Walk.one {b = y} e) = inv.closed id y (inr refl) refl e
Walk-seen {out} {id} seen inv (Walk.more {b = x} {c = y} w e) =
    inv.closed x y (inl (Walk-seen seen inv w).0) refl e

-- The answer of the search is the existence of a closed walk.
abbrev pub Decides : Search → Type 0 → Type 0
Decides Search.found P = P
Decides Search.finished P = ¬ P
Decides Search.out_of_fuel P = ⊥

search_loop-Decides :
    (fuel : ℕ) (out : Graph) (id : ℕ) (stack seen : List ℕ)
    → Inv out id stack seen
    → length stack + unseen (targets out) seen < fuel
    → Decides (search_loop fuel out id stack seen) (Walk out id id)
unfolding search_loop
search_loop-Decides zero out id stack seen inv h = absurd (omega arith)
search_loop-Decides (suc fuel) out id [] seen inv h = λ w. (Walk-seen seen inv w).1 refl
search_loop-Decides (suc fuel) out id (cur ∷ stack) seen inv h =
    elim (Option-cases (push_new id (successors cur out) stack seen)) [
      | inl e ↦
          rw (e, search_loop)
            (extend-Walk (inv.reached cur (contains_head ℕ_discrete cur stack))
              (push_new-none id (successors cur out) stack seen e))
      | inr ((stack', seen'), e) ↦
          rw (e, search_loop)
            (search_loop-Decides fuel out id stack' seen'
              (Inv-push_new out id cur stack seen stack' seen' inv
                (push_new-Pushed id (successors cur out) stack seen stack' seen' e))
              (omega (
                arith,
                push_new_measure (targets out) id (successors cur out) stack seen stack' seen'
                    (successors-targets cur out) e,
              )))
    ]

start_Inv : (out : Graph) (id : ℕ) → Inv out id (id ∷ []) []
unfolding ℕ_discrete
start_Inv out id = record {
  reached = λ x h. inl (ground arith);
  closed = λ x y at off e. absurd (ground arith);
}

-- The search ends, and it answers `found` exactly when `id` lies on a cycle of
-- rw-antidependencies.
pub has_cycle_through-Decides :
    (s : Ssi) (id : ℕ) → Decides (has_cycle_through s id) (Walk s.out id id)
unfolding has_cycle_through
has_cycle_through-Decides s id =
    search_loop-Decides (edge_count s.out + 2) s.out id (id ∷ []) [] (start_Inv s.out id)
      (omega (arith, unseen-le-length (targets s.out) [], length-targets s.out))
