-- ===== src/Db/Transaction/Order.antt =====
-- The in-flight list of a snapshot: sorted, and with the members of the open set.
use chibidb.Prelude.{
  ℕ, ◌≤◌, ◌≡◌, refl, inl, inr, leb, List, [], ◌∷◌, contains, Bool-cases, arith, ℕ_discrete, All,
}
use chibidb.Db.Transaction.{TransactionManager, insert_sorted, sort_unstable, snapshot}

abbrev pub IsSorted : List ℕ → Type 0
IsSorted [] = Unit {0}
IsSorted (x ∷ xs) = All (λ y. x ≤ y) xs × IsSorted xs

All-weaken : {a b : ℕ} (xs : List ℕ) → a ≤ b → All (λ y. b ≤ y) xs → All (λ y. a ≤ y) xs
All-weaken [] h k = tt
All-weaken (x ∷ xs) h k = (omega arith, All-weaken xs h k.1)

All-insert_sorted :
    (a x : ℕ) (xs : List ℕ) → a ≤ x → All (λ y. a ≤ y) xs → All (λ y. a ≤ y) (insert_sorted x xs)
unfolding insert_sorted
All-insert_sorted a x [] h k = (h, tt)
All-insert_sorted a x (y ∷ ys) h k = elim (Bool-cases (leb x y)) [
  | inl e ↦ rw e (h, k)
  | inr e ↦ rw e (k.0, All-insert_sorted a x ys h k.1)
]

insert_sorted-IsSorted : (x : ℕ) (xs : List ℕ) → IsSorted xs → IsSorted (insert_sorted x xs)
unfolding insert_sorted
insert_sorted-IsSorted x [] h = (tt, tt)
insert_sorted-IsSorted x (y ∷ ys) h = elim (Bool-cases (leb x y)) [
  | inl e ↦ rw e ((ground arith, All-weaken ys (ground arith) h.0), h)
  | inr e ↦ rw e (All-insert_sorted y x ys (ground arith) h.0, insert_sorted-IsSorted x ys h.1)
]

sort_unstable-IsSorted : (xs : List ℕ) → IsSorted (sort_unstable xs)
unfolding sort_unstable
sort_unstable-IsSorted [] = tt
sort_unstable-IsSorted (x ∷ xs) =
    insert_sorted-IsSorted x (sort_unstable xs) (sort_unstable-IsSorted xs)

contains-insert_sorted :
    (a x : ℕ) (xs : List ℕ)
    → contains ℕ_discrete a (insert_sorted x xs) ≡ contains ℕ_discrete a (x ∷ xs)
unfolding insert_sorted ℕ_discrete
contains-insert_sorted a x [] = refl
contains-insert_sorted a x (y ∷ ys) = ground (arith, contains-insert_sorted a x ys)

pub contains-sort_unstable :
    (a : ℕ) (xs : List ℕ) → contains ℕ_discrete a (sort_unstable xs) ≡ contains ℕ_discrete a xs
unfolding sort_unstable ℕ_discrete
contains-sort_unstable a [] = refl
contains-sort_unstable a (x ∷ xs) =
    ground (arith, contains-insert_sorted a x (sort_unstable xs), contains-sort_unstable a xs)

-- The in-flight list of a snapshot is ascending, as the binary search of `committed_before` needs,
-- and holds exactly the ids that are open.
pub snapshot-IsSorted :
    (t : TransactionManager)
    → IsSorted (snapshot t).xip
      × ((x : ℕ) → contains ℕ_discrete x (snapshot t).xip ≡ contains ℕ_discrete x t.open_ids)
unfolding snapshot
snapshot-IsSorted t = (sort_unstable-IsSorted t.open_ids, λ x. contains-sort_unstable x t.open_ids)
