-- ===== src/Db/Ssi.antt =====
-- src/db/ssi.rs: the graph of rw-antidependencies between serializable transactions. A `HashMap` is
-- an association list and a `HashSet` a list; the order of a walk over them is that of the list.
pub mod Edges
pub mod Cycle
pub mod Tracked
pub mod Skew
mod Tests
use chibidb.Prelude.{
  ℕ, zero, suc, ◌+◌, Bool, true, false, ◌==◌, if◌then◌else◌, List, [], ◌∷◌, ◌++◌, Option, none,
  some, length, contains, add, without, add_all, Name, Name_discrete, ℕ_discrete,
}
use chibidb.Prelude.Map.{get, insert, remove, get_default, map_values}

-- `Inner`.
pub record Ssi : Type 0 where
  pub active : List ℕ
  pub readers : List (Name × List ℕ)
  pub writers : List (Name × List ℕ)
  pub out : List (ℕ × List ℕ)

abbrev pub new : Ssi
new = record { active = []; readers = []; writers = []; out = [] }

abbrev pub is_empty {ℓ} : {A : Type ℓ} → List A → Bool
is_empty [] = true
is_empty (x ∷ xs) = false

-- `entry(k).or_default().insert(id)`.
abbrev pub note : {K : Type 0} → Discrete K → K → ℕ → List (K × List ℕ) → List (K × List ℕ)
note dec k id m = insert dec k (add ℕ_discrete id (get_default dec [] k m)) m

-- `retain(|_, s| !s.is_empty())`.
abbrev pub retain_filled {ℓ} : {K : Type ℓ} → List (K × List ℕ) → List (K × List ℕ)
retain_filled [] = []
retain_filled ((k, []) ∷ m) = retain_filled m
retain_filled ((k, x ∷ xs) ∷ m) = (k, x ∷ xs) ∷ retain_filled m

pub begin : Ssi → ℕ → Ssi
begin s id = record s { active = add ℕ_discrete id s.active }

pub note_read : Ssi → ℕ → Name → Ssi
note_read s id table =
    if contains ℕ_discrete id s.active
    then record s {
      readers = note Name_discrete table id s.readers;
      out = elim (get Name_discrete table s.writers) [
        | none ↦ s.out
        | some writers ↦
            let edges = without ℕ_discrete id writers in
            if is_empty edges
            then s.out
            else insert ℕ_discrete id
                (add_all ℕ_discrete edges (get_default ℕ_discrete [] id s.out)) s.out
      ];
    }
    else s

-- The loop `for r in edges` of `note_write`.
pub add_edges : ℕ → List ℕ → List (ℕ × List ℕ) → List (ℕ × List ℕ)
add_edges id [] out = out
add_edges id (r ∷ rs) out = add_edges id rs (note ℕ_discrete r id out)

pub note_write : Ssi → ℕ → Name → Ssi
note_write s id table =
    if contains ℕ_discrete id s.active
    then record s {
      writers = note Name_discrete table id s.writers;
      out = elim (get Name_discrete table s.readers) [
        | none ↦ s.out
        | some readers ↦ add_edges id (without ℕ_discrete id readers) s.out
      ];
    }
    else s

pub forget : Ssi → ℕ → Ssi
forget s id = record s {
  active = without ℕ_discrete id s.active;
  readers = retain_filled (map_values (without ℕ_discrete id) s.readers);
  writers = retain_filled (map_values (without ℕ_discrete id) s.writers);
}

-- `if inner.active.is_empty() { inner.out.clear() }`.
pub clear_if_idle : Ssi → Ssi
clear_if_idle s = if is_empty s.active then record s { out = [] } else s

pub commit : Ssi → ℕ → Ssi
commit s id = clear_if_idle (forget s id)

pub abort : Ssi → ℕ → Ssi
abort s id =
    let t = forget s id in
    clear_if_idle
      (record t { out = map_values (without ℕ_discrete id) (remove ℕ_discrete id t.out) })

-- The inner loop of the search: `none` is `return true`.
pub push_new : ℕ → List ℕ → List ℕ → List ℕ → Option (List ℕ × List ℕ)
push_new id [] stack seen = some (stack, seen)
push_new id (next ∷ nexts) stack seen =
    let skip = push_new id nexts stack seen in
    let take = push_new id nexts (next ∷ stack) (next ∷ seen) in
    if next == id then none else if contains ℕ_discrete next seen then skip else take

pub data Search : Type 0 where
  found finished out_of_fuel : Search

-- `while let Some(cur) = stack.pop()`; the top of the stack is the head of the list.
pub search_loop : ℕ → List (ℕ × List ℕ) → ℕ → List ℕ → List ℕ → Search
search_loop zero out id stack seen = Search.out_of_fuel
search_loop (suc fuel) out id [] seen = Search.finished
search_loop (suc fuel) out id (cur ∷ stack) seen =
    elim (push_new id (get_default ℕ_discrete [] cur out) stack seen) [
      | none ↦ Search.found
      | some (stack', seen') ↦ search_loop fuel out id stack' seen'
    ]

-- How many targets the edges have.
pub edge_count : List (ℕ × List ℕ) → ℕ
edge_count [] = 0
edge_count ((k, xs) ∷ m) = length xs + edge_count m

-- Each target is pushed once at most, beside the start.
pub has_cycle_through : Ssi → ℕ → Search
has_cycle_through s id = search_loop (edge_count s.out + 2) s.out id (id ∷ []) []

-- What a client can ask of the tracker.
pub data Call : Type 0 where
  begins commits aborts : ℕ → Call
  reads_from writes_to : ℕ → Name → Call

pub apply : Ssi → Call → Ssi
apply s (Call.begins id) = begin s id
apply s (Call.commits id) = commit s id
apply s (Call.aborts id) = abort s id
apply s (Call.reads_from id t) = note_read s id t
apply s (Call.writes_to id t) = note_write s id t

pub run : Ssi → List Call → Ssi
run s [] = s
run s (c ∷ cs) = run (apply s c) cs
