-- ===== src/Db/Ssi/Tracked.antt =====
-- The tables of readers and writers hold open transactions only.
use chibidb.Prelude.{
  ℕ, ◌≡◌, inl, inr, if_pos, if_neg, true, ◌||◌, List, [], ◌∷◌, contains-without, contains-add,
  without, add, ℕ_discrete, Bool-cases, arith, Name, Name_discrete,
}
use chibidb.Prelude.Map.{get_default, insert, map_values}
use chibidb.Db.Ssi.{
  Ssi, is_empty, note, retain_filled, new, begin, note_read, note_write, forget, clear_if_idle,
  commit, abort, Call, apply, run,
}
use chibidb.Db.Ssi.Cycle.{elem}
use chibidb.Db.Ssi.Edges.{reads, writes, is_active}

-- Every entry of the table holds open transactions only.
abbrev pub HoldsOnly : List ℕ → List (Name × List ℕ) → Type 0
HoldsOnly active [] = Unit {0}
HoldsOnly active ((t, xs) ∷ m) =
    ((x : ℕ) → elem x xs ≡ true → elem x active ≡ true) × HoldsOnly active m

pub record IsTracked (s : Ssi) : Type 0 where
  pub readers_open : HoldsOnly s.active s.readers
  pub writers_open : HoldsOnly s.active s.writers

pub HoldsOnly-get :
    (active : List ℕ) (m : List (Name × List ℕ)) (t : Name) (x : ℕ)
    → HoldsOnly active m
    → elem x (get_default Name_discrete [] t m) ≡ true
    → elem x active ≡ true
HoldsOnly-get active [] t x h e = cc
HoldsOnly-get active ((u, xs) ∷ m) t x h e = elim (Name_discrete u t) [
  | yes p ↦ h.0 x (ground arith)
  | no p ↦ HoldsOnly-get active m t x h.1 (ground arith)
]

HoldsOnly-insert :
    (active : List ℕ) (m : List (Name × List ℕ)) (t : Name) (xs : List ℕ)
    → ((x : ℕ) → elem x xs ≡ true → elem x active ≡ true)
    → HoldsOnly active m
    → HoldsOnly active (insert Name_discrete t xs m)
HoldsOnly-insert active [] t xs h k = (h, tt)
HoldsOnly-insert active ((u, ys) ∷ m) t xs h k = elim (Name_discrete u t) [
  | yes p ↦ rw (if_pos _ p) (h, k.1)
  | no p ↦ rw (if_neg _ p) (k.0, HoldsOnly-insert active m t xs h k.1)
]

HoldsOnly-note :
    (active : List ℕ) (m : List (Name × List ℕ)) (t : Name) (id : ℕ)
    → elem id active ≡ true
    → HoldsOnly active m
    → HoldsOnly active (note Name_discrete t id m)
unfolding ℕ_discrete
HoldsOnly-note active m t id e h =
    HoldsOnly-insert active m t _
      (λ x k. ground (
        arith,
        contains-add ℕ_discrete id x (get_default Name_discrete [] t m),
        HoldsOnly-get active m t x h,
      ))
      h

HoldsOnly-mono :
    (active active' : List ℕ) (m : List (Name × List ℕ))
    → ((x : ℕ) → elem x active ≡ true → elem x active' ≡ true)
    → HoldsOnly active m
    → HoldsOnly active' m
HoldsOnly-mono active active' [] sub h = tt
HoldsOnly-mono active active' ((t, xs) ∷ m) sub h =
    (λ x e. sub x (h.0 x e), HoldsOnly-mono active active' m sub h.1)

HoldsOnly-retain :
    (active : List ℕ) (m : List (Name × List ℕ)) (id : ℕ)
    → HoldsOnly active m
    → HoldsOnly
        (without ℕ_discrete id active)
        (retain_filled (map_values (without ℕ_discrete id) m))
HoldsOnly-retain active [] id h = tt
HoldsOnly-retain active ((t, xs) ∷ m) id h =
    filled _ (without ℕ_discrete id xs)
      (λ x e. ground (
        arith,
        contains-without ℕ_discrete id x xs,
        contains-without ℕ_discrete id x active,
        h.0 x,
      ))
      (HoldsOnly-retain active m id h.1)
  where
    filled :
        (rest : List (Name × List ℕ)) (ys : List ℕ)
        → ((x : ℕ) → elem x ys ≡ true → elem x (without ℕ_discrete id active) ≡ true)
        → HoldsOnly (without ℕ_discrete id active) (retain_filled rest)
        → HoldsOnly (without ℕ_discrete id active) (retain_filled ((t, ys) ∷ rest))
    filled rest [] k r = r
    filled rest (y ∷ ys) k r = (k, r)

begin-IsTracked : (s : Ssi) (id : ℕ) → IsTracked s → IsTracked (begin s id)
unfolding begin ℕ_discrete
begin-IsTracked s id h =
    let sub : (x : ℕ) → elem x s.active ≡ true → elem x (add ℕ_discrete id s.active) ≡ true =
      λ x e. ground (arith, contains-add ℕ_discrete id x s.active) in
    record {
      readers_open = HoldsOnly-mono s.active _ s.readers sub h.readers_open;
      writers_open = HoldsOnly-mono s.active _ s.writers sub h.writers_open;
    }

note_read-IsTracked : (s : Ssi) (id : ℕ) (t : Name) → IsTracked s → IsTracked (note_read s id t)
unfolding note_read
note_read-IsTracked s id t h = elim (Bool-cases (is_active s id)) [
  | inl e ↦
      rw (e, note_read)
        (record {
          readers_open = HoldsOnly-note s.active s.readers t id e h.readers_open;
          writers_open = h.writers_open;
        })
  | inr e ↦ rw (e, note_read) h
]

note_write-IsTracked : (s : Ssi) (id : ℕ) (t : Name) → IsTracked s → IsTracked (note_write s id t)
unfolding note_write
note_write-IsTracked s id t h = elim (Bool-cases (is_active s id)) [
  | inl e ↦
      rw (e, note_write)
        (record {
          readers_open = h.readers_open;
          writers_open = HoldsOnly-note s.active s.writers t id e h.writers_open;
        })
  | inr e ↦ rw (e, note_write) h
]

forget-IsTracked : (s : Ssi) (id : ℕ) → IsTracked s → IsTracked (forget s id)
unfolding forget
forget-IsTracked s id h = record {
  readers_open = HoldsOnly-retain s.active s.readers id h.readers_open;
  writers_open = HoldsOnly-retain s.active s.writers id h.writers_open;
}

clear_if_idle-IsTracked : (s : Ssi) → IsTracked s → IsTracked (clear_if_idle s)
unfolding clear_if_idle
clear_if_idle-IsTracked s h = elim (Bool-cases (is_empty s.active)) [
  | inl e ↦ rw e (record { readers_open = h.readers_open; writers_open = h.writers_open })
  | inr e ↦ rw e h
]

abort-IsTracked : (s : Ssi) (id : ℕ) → IsTracked s → IsTracked (abort s id)
unfolding abort
abort-IsTracked s id h =
    let t = forget-IsTracked s id h in
    clear_if_idle-IsTracked _
      (record { readers_open = t.readers_open; writers_open = t.writers_open })

pub apply-IsTracked : (s : Ssi) (c : Call) → IsTracked s → IsTracked (apply s c)
unfolding apply commit
apply-IsTracked s (Call.begins id) h = begin-IsTracked s id h
apply-IsTracked s (Call.commits id) h =
    clear_if_idle-IsTracked (forget s id) (forget-IsTracked s id h)
apply-IsTracked s (Call.aborts id) h = abort-IsTracked s id h
apply-IsTracked s (Call.reads_from id t) h = note_read-IsTracked s id t h
apply-IsTracked s (Call.writes_to id t) h = note_write-IsTracked s id t h

pub IsTracked-run : (s : Ssi) (cs : List Call) → IsTracked s → IsTracked (run s cs)
unfolding run
IsTracked-run s [] h = h
IsTracked-run s (c ∷ cs) h = IsTracked-run (apply s c) cs (apply-IsTracked s c h)

-- After any calls on a fresh tracker, whoever is noted as a reader or a writer of a table is open.
pub run-IsTracked :
    (cs : List Call) (t : Name) (x : ℕ)
    → (reads (run new cs) t x || writes (run new cs) t x) ≡ true
    → is_active (run new cs) x ≡ true
run-IsTracked cs t x h =
    let k = IsTracked-run new cs (record { readers_open = tt; writers_open = tt }) in
    ground (
      arith,
      HoldsOnly-get (run new cs).active (run new cs).readers t x k.readers_open,
      HoldsOnly-get (run new cs).active (run new cs).writers t x k.writers_open,
    )
