-- ===== src/Db/Ssi/Edges.antt =====
-- Which edges the graph has after each operation.
use chibidb.Prelude.{
  ℕ, ◌≡◌, refl, inl, inr, Bool, true, false, not, ◌&&◌, ◌||◌, ◌==◌, List, [], ◌∷◌, contains-without,
  contains-add, contains-add_all, without, add, add_all, ℕ_discrete, Bool-cases, Option-cases,
  arith, Name, Name_discrete,
}
use chibidb.Prelude.Map.{
  get, get_default, insert, remove, map_values, get-insert, get-remove, get-map_values,
}
use chibidb.Db.Ssi.{
  Ssi, is_empty, note, note_read, add_edges, note_write, forget, clear_if_idle, commit, abort,
}
use chibidb.Db.Ssi.Cycle.{elem, Graph, successors}

abbrev pub has_edge : Ssi → ℕ → ℕ → Bool
has_edge s x y = elem y (successors x s.out)

abbrev pub reads : Ssi → Name → ℕ → Bool
reads s t x = elem x (get_default Name_discrete [] t s.readers)

abbrev pub writes : Ssi → Name → ℕ → Bool
writes s t x = elem x (get_default Name_discrete [] t s.writers)

abbrev pub is_active : Ssi → ℕ → Bool
is_active s x = elem x s.active

successors-note :
    (r id : ℕ) (out : Graph) (x y : ℕ)
    → elem y (successors x (note ℕ_discrete r id out))
      ≡ (elem y (successors x out) || (r == x && id == y))
unfolding ℕ_discrete
successors-note r id out x y = ground (
  arith,
  get-insert ℕ_discrete r x (add ℕ_discrete id (successors r out)) out,
  contains-add ℕ_discrete id y (successors r out),
)

successors-add_edges :
    (id : ℕ) (rs : List ℕ) (out : Graph) (x y : ℕ)
    → elem y (successors x (add_edges id rs out))
      ≡ (elem y (successors x out) || (elem x rs && id == y))
unfolding add_edges ℕ_discrete
successors-add_edges id [] out x y = ground arith
successors-add_edges id (r ∷ rs) out x y =
    ground (
      arith,
      successors-add_edges id rs (note ℕ_discrete r id out) x y,
      successors-note r id out x y,
    )

-- A write adds the edges from the other open readers of the table to the writer, and no other;
-- the write of a transaction that is not open adds none.
pub has_edge-note_write :
    (s : Ssi) (id : ℕ) (t : Name) (x y : ℕ)
    → has_edge (note_write s id t) x y
      ≡ (has_edge s x y || (is_active s id && reads s t x && not (x == id) && y == id))
unfolding note_write ℕ_discrete
has_edge-note_write s id t x y = elim (Bool-cases (is_active s id)) [
  | inl e ↦
      rw (e, note_write)
        (elim (Option-cases (get Name_discrete t s.readers)) [
          | inl f ↦ rw f (ground arith)
          | inr (rs, f) ↦ rw f (
              ground (
                arith,
                successors-add_edges id (without ℕ_discrete id rs) s.out x y,
                contains-without ℕ_discrete id x rs,
              ))
        ])
  | inr e ↦ rw (e, note_write) (ground arith)
]

elem-empty : (xs : List ℕ) (x : ℕ) → is_empty xs ≡ true → elem x xs ≡ false
elem-empty [] x h = refl
elem-empty (y ∷ ys) x h = cc

successors-insert :
    (id : ℕ) (edges : List ℕ) (out : Graph) (x y : ℕ)
    → elem y
        (successors x (insert ℕ_discrete id (add_all ℕ_discrete edges (successors id out)) out))
      ≡ (elem y (successors x out) || (x == id && elem y edges))
unfolding ℕ_discrete
successors-insert id edges out x y = ground (
  arith,
  get-insert ℕ_discrete id x (add_all ℕ_discrete edges (successors id out)) out,
  contains-add_all ℕ_discrete y edges (successors id out),
)

-- A read adds the edges from the reader to the other open writers of the table, and no other; the
-- read of a transaction that is not open adds none.
pub has_edge-note_read :
    (s : Ssi) (id : ℕ) (t : Name) (x y : ℕ)
    → has_edge (note_read s id t) x y
      ≡ (has_edge s x y || (is_active s id && x == id && not (y == id) && writes s t y))
unfolding note_read ℕ_discrete
has_edge-note_read s id t x y = elim (Bool-cases (is_active s id)) [
  | inl e ↦
      rw (e, note_read)
        (elim (Option-cases (get Name_discrete t s.writers)) [
          | inl f ↦ rw f (ground arith)
          | inr (ws, f) ↦ rw f (
              ground (
                arith,
                successors-insert id (without ℕ_discrete id ws) s.out x y,
                contains-without ℕ_discrete id y ws,
                elem-empty (without ℕ_discrete id ws) y,
              ))
        ])
  | inr e ↦ rw (e, note_read) (ground arith)
]

successors-purge :
    (id : ℕ) (out : Graph) (x y : ℕ)
    → elem y (successors x (map_values (without ℕ_discrete id) (remove ℕ_discrete id out)))
      ≡ (elem y (successors x out) && not (x == id) && not (y == id))
unfolding ℕ_discrete
successors-purge id out x y =
    let f = without ℕ_discrete id in
    let read = get-map_values ℕ_discrete f x (remove ℕ_discrete id out) in
    elim (Option-cases (get ℕ_discrete x out)) [
      | inl e ↦ ground (arith, read, get-remove ℕ_discrete id x out)
      | inr (ys, e) ↦
          ground (arith, read, get-remove ℕ_discrete id x out, contains-without ℕ_discrete id y ys)
    ]

-- After an abort no edge touches the transaction; the edges between the others stay while a
-- serializable transaction is open, and are dropped with the last one.
pub has_edge-abort :
    (s : Ssi) (id x y : ℕ)
    → has_edge (abort s id) x y ≡ (
        has_edge s x y
        && not (x == id)
        && not (y == id)
        && not (is_empty (without ℕ_discrete id s.active)))
unfolding abort clear_if_idle forget
has_edge-abort s id x y = ground (arith, successors-purge id s.out x y)

-- A commit keeps every edge while a serializable transaction is open, and drops all of them with
-- the last one.
pub has_edge-commit :
    (s : Ssi) (id x y : ℕ)
    → has_edge (commit s id) x y
      ≡ (has_edge s x y && not (is_empty (without ℕ_discrete id s.active)))
unfolding commit clear_if_idle forget
has_edge-commit s id x y = ground arith
