-- ===== src/Wal/Committed.antt =====
-- The committed transactions that `plan_recovery` takes out of its maps and sorts.
use chibidb.Prelude.{
  ℕ, ◌≤◌, ◌<◌, ◌≡◌, ◌⊎◌, ap, inl, inr, leb, ◌==◌, List, [], ◌∷◌, some, In, Bool-cases, Option-cases,
  arith, ◌≢◌, refl, sym, ◌∙◌,
}
use chibidb.Prelude.BTreeMap.{get, remove, Above, IsSorted, get-remove, remove-IsSorted, get-Above}
use chibidb.Wal.{Record, collect_committed, insert_by_pos, sort_by_pos}

abbrev pub Redo : Type 0
Redo = ℕ × ℕ × List Record

pub insert_by_pos-In : (x e : Redo) (es : List Redo) → In x (insert_by_pos e es) → (x ≡ e) ⊎ In x es
insert_by_pos-In x e [] h = h
insert_by_pos-In x e (f ∷ fs) h = elim (Bool-cases (leb (e.0) (f.0))) [
  | inl c ↦ rw c at h
  | inr c ↦ elim (rw c at h) [
    | inl p ↦ inr (inl p)
    | inr later ↦ elim (insert_by_pos-In x e fs later) [ inl p ↦ inl p | inr q ↦ inr (inr q) ]
  ]
]

pub In-insert_by_pos : (x e : Redo) (es : List Redo) → (x ≡ e) ⊎ In x es → In x (insert_by_pos e es)
In-insert_by_pos x e [] h = h
In-insert_by_pos x e (f ∷ fs) h = elim (Bool-cases (leb (e.0) (f.0))) [
  | inl c ↦ rw c h
  | inr c ↦ rw c (elim h [
    | inl p ↦ inr (In-insert_by_pos x e fs (inl p))
    | inr (inl p) ↦ inl p
    | inr (inr q) ↦ inr (In-insert_by_pos x e fs (inr q))
  ])
]

pub sort_by_pos-In : (x : Redo) (es : List Redo) → In x (sort_by_pos es) → In x es
sort_by_pos-In x [] h = h
sort_by_pos-In x (e ∷ es) h = elim (insert_by_pos-In x e (sort_by_pos es) h) [
  | inl p ↦ inl p
  | inr q ↦ inr (sort_by_pos-In x es q)
]

pub In-sort_by_pos : (x : Redo) (es : List Redo) → In x es → In x (sort_by_pos es)
In-sort_by_pos x [] h = h
In-sort_by_pos x (e ∷ es) h =
    In-insert_by_pos x e (sort_by_pos es)
      (elim h [ inl p ↦ inl p | inr q ↦ inr (In-sort_by_pos x es q) ])

-- Positions do not go down.
pub Ascends : ℕ → List Redo → Type 0
Ascends lo [] = Unit
Ascends lo (e ∷ es) = (lo ≤ e.0) × Ascends (e.0) es

insert_by_pos-Ascends :
    (lo : ℕ) (e : Redo) (es : List Redo)
    → lo ≤ e.0
    → Ascends lo es
    → Ascends lo (insert_by_pos e es)
unfolding Ascends
insert_by_pos-Ascends lo e [] l h = (l, tt)
insert_by_pos-Ascends lo e (f ∷ fs) l h = elim (Bool-cases (leb (e.0) (f.0))) [
  | inl c ↦ rw c (l, (ground arith, h.1))
  | inr c ↦ rw c (h.0, insert_by_pos-Ascends (f.0) e fs (ground arith) (h.1))
]

pub sort_by_pos-Ascends : (es : List Redo) → Ascends 0 (sort_by_pos es)
unfolding Ascends
sort_by_pos-Ascends [] = tt
sort_by_pos-Ascends (e ∷ es) =
    insert_by_pos-Ascends 0 e (sort_by_pos es) (omega arith) (sort_by_pos-Ascends es)

module _ (t pos : ℕ) (recs : List Record) where
  -- What the rest of the map of commits has is about another transaction.
  later_commit :
      (trx p : ℕ) (rest : List (ℕ × ℕ)) (records : List (ℕ × List Record))
      → Above trx rest
      → IsSorted records
      → (get t rest ≡ some pos) × (get t (remove trx records) ≡ some recs)
      → (get t ((trx, p) ∷ rest) ≡ some pos) × (get t records ≡ some recs)
  later_commit trx p rest records above k found =
      let after : trx < t = get-Above trx t pos rest above (found.0) in
      let same = get-remove trx t records k in (ground arith, ground arith)

  pub collect_committed-In :
      (commits : List (ℕ × ℕ)) (records : List (ℕ × List Record))
      → IsSorted commits
      → IsSorted records
      → In (pos, t, recs) (collect_committed commits records)
      → (get t commits ≡ some pos) × (get t records ≡ some recs)
  unfolding collect_committed
  collect_committed-In [] records h k m = elim m [ ]
  collect_committed-In ((trx, p) ∷ rest) records h k m =
      let later =
        collect_committed-In rest (remove trx records) (h.1) (remove-IsSorted trx records k) in
      elim (Option-cases (get trx records)) [
        | inl e ↦ later_commit trx p rest records (h.0) k (later (rw (collect_committed, e) at m))
        | inr (old, e) ↦ elim (rw (collect_committed, e) at m) [
          | inl same ↦
              let pos_same : pos ≡ p = ap (λ (x : Redo). x.0) same in
              let trx_same : t ≡ trx = ap (λ (x : Redo). x.1) same in
              let recs_same : recs ≡ old = ap (λ (x : Redo). x.2) same in
              (ground arith, ground arith)
          | inr other ↦ later_commit trx p rest records (h.0) k (later other)
        ]
      ]

  pub In-collect_committed :
      (commits : List (ℕ × ℕ)) (records : List (ℕ × List Record))
      → IsSorted commits
      → IsSorted records
      → get t commits ≡ some pos
      → get t records ≡ some recs
      → In (pos, t, recs) (collect_committed commits records)
  unfolding collect_committed
  In-collect_committed [] records h k c r = ground arith
  In-collect_committed ((trx, p) ∷ rest) records h k c r = elim (Bool-cases (trx == t)) [
    | inl e ↦
        let same : trx ≡ t = ground arith in
        let found : get trx records ≡ some recs = ground arith in
        let pos_same : pos ≡ p = ground arith in rw (collect_committed, found) (inl cc)
    | inr e ↦
        let left : get t rest ≡ some pos = ground arith in
        let kept : get t (remove trx records) ≡ some recs =
          ground (arith, get-remove trx t records k) in
        let later =
          In-collect_committed rest (remove trx records) (h.1) (remove-IsSorted trx records k) left
            kept in
        elim (Option-cases (get trx records)) [
          | inl f ↦ rw (collect_committed, f) later
          | inr (old, f) ↦ rw (collect_committed, f) (inr later)
        ]
  ]

-- No two entries stand for one position.
unfoldable pub PosDistinct : List Redo → Type 0
PosDistinct [] = Unit
PosDistinct (e ∷ es) = ((x : Redo) → In x es → x.0 ≢ e.0) × PosDistinct es

insert_by_pos-PosDistinct :
    (e : Redo) (es : List Redo)
    → ((x : Redo) → In x es → x.0 ≢ e.0)
    → PosDistinct es
    → PosDistinct (insert_by_pos e es)
unfolding PosDistinct
insert_by_pos-PosDistinct e [] apart h = (λ x i. elim i [ ], tt)
insert_by_pos-PosDistinct e (f ∷ fs) apart h = elim (Bool-cases (leb (e.0) (f.0))) [
  | inl c ↦ rw c (apart, h)
  | inr c ↦ rw c (
    λ x i. elim (insert_by_pos-In x e fs i) [
      | inl same ↦ λ q. apart f (inl refl) (sym q ∙ ap (λ (y : Redo). y.0) same)
      | inr later ↦ (h.0) x later
    ],
    insert_by_pos-PosDistinct e fs (λ x i. apart x (inr i)) (h.1),
  )
]

pub sort_by_pos-PosDistinct : (es : List Redo) → PosDistinct es → PosDistinct (sort_by_pos es)
unfolding PosDistinct
sort_by_pos-PosDistinct [] h = tt
sort_by_pos-PosDistinct (e ∷ es) h =
    insert_by_pos-PosDistinct e (sort_by_pos es) (λ x i. (h.0) x (sort_by_pos-In x es i))
      (sort_by_pos-PosDistinct es (h.1))

-- Positions go up, from above `lo` on.
unfoldable pub Climbs : ℕ → List Redo → Type 0
Climbs lo [] = Unit
Climbs lo (e ∷ es) = (lo < e.0) × Climbs (e.0) es

pub Ascends-Climbs :
    (lo : ℕ) (es : List Redo)
    → ((x : Redo) → In x es → x.0 ≢ lo)
    → PosDistinct es
    → Ascends lo es
    → Climbs lo es
unfolding PosDistinct Climbs Ascends
Ascends-Climbs lo [] apart h k = tt
Ascends-Climbs lo (e ∷ es) apart h k =
    let ne = apart e (inl refl) in
    (ground (arith, ne, k.0), Ascends-Climbs (e.0) es (h.0) (h.1) (k.1))

-- A map of commits that gives no position twice.
abbrev pub IsInjective : List (ℕ × ℕ) → Type 0
IsInjective commits = (t u p : ℕ) → get t commits ≡ some p → get u commits ≡ some p → t ≡ u

get_later :
    (t p trx pos : ℕ) (rest : List (ℕ × ℕ))
    → Above trx rest
    → get t rest ≡ some p
    → get t ((trx, pos) ∷ rest) ≡ some p
get_later t p trx pos rest above e =
    let after : trx < t = get-Above trx t p rest above e in ground arith

pub collect_committed-PosDistinct :
    (commits : List (ℕ × ℕ)) (records : List (ℕ × List Record))
    → IsSorted commits
    → IsSorted records
    → IsInjective commits
    → PosDistinct (collect_committed commits records)
unfolding collect_committed PosDistinct
collect_committed-PosDistinct [] records h k inj = tt
collect_committed-PosDistinct ((trx, p) ∷ rest) records (above, h) k inj =
    let left = remove-IsSorted trx records k in
    let later = collect_committed-PosDistinct rest (remove trx records) h left (λ t u q e f.
      inj t u q (get_later t q trx p rest above e) (get_later u q trx p rest above f)) in
    elim (Option-cases (get trx records)) [
      | inl e ↦ rw (collect_committed, e) later
      | inr (recs, e) ↦
          rw (collect_committed, e)
            (
              λ x i q.
                  let there =
                    (collect_committed-In (x.1) (x.0) (x.2) rest (remove trx records) h left i).0 in
                  let after : trx < x.1 = get-Above trx (x.1) (x.0) rest above there in
                  let whole : get (x.1) ((trx, p) ∷ rest) ≡ some p =
                    get_later (x.1) p trx p rest above (there ∙ ap some q) in
                  let self : get trx ((trx, p) ∷ rest) ≡ some p = ground arith in
                  let same = inj trx (x.1) p self whole in omega (arith, after, same),
              later,
            )
    ]
