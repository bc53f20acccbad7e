-- ===== src/Storage/Replacer/SecondChance.antt =====
-- The second chance of CLOCK: in what order the hand takes its victims.
use chibidb.Prelude.{
  ℕ, zero, suc, ◌+◌, ◌*◌, ◌≤◌, ◌<◌, ◌≡◌, ◌≢◌, refl, sym, ap, ◌∙◌, ◌⊎◌, inl, inr, true, false, List,
  [], ◌∷◌, some, Bool-cases, arith, length, get_elem?, In, subst, ◌==◌, remove_at,
}
use chibidb.Storage.Replacer.{Key, Vitals, Clock, Pick, clear_referenced, turn, choose_victim}
use chibidb.Storage.Replacer.ClockHand.{
  distance, normal, Round, round, get_elem?_in_range, get_elem?-lt, pins-clear_referenced,
  cleared_false, cleared_self, not_empty, IsFair, IsVictim, choose_victim-IsFair,
}

-- No key stands twice in a ring.
abbrev pub NoRepeat : List Key → Type 0
NoRepeat [] = Unit {0}
NoRepeat (k ∷ ks) = (In k ks → ⊥) × NoRepeat ks

get_elem?-In : (ks : List Key) (i : ℕ) (k : Key) → get_elem? ks i ≡ some k → In k ks
get_elem?-In [] i k e = ground (arith, e)
get_elem?-In (x ∷ ks) zero k e = inl (ground (arith, e))
get_elem?-In (x ∷ ks) (suc i) k e = inr (get_elem?-In ks i k e)

NoRepeat-once :
    (ks : List Key) (i j : ℕ) (k : Key)
    → NoRepeat ks
    → get_elem? ks i ≡ some k
    → get_elem? ks j ≡ some k
    → i ≡ j
NoRepeat-once [] i j k h e f = ground (arith, e)
NoRepeat-once (x ∷ ks) zero zero k h e f = refl
NoRepeat-once (x ∷ ks) zero (suc j) k (apart, h) e f =
    let same : x ≡ k = ground (arith, e) in
    absurd (apart (subst (λ (y : Key). In y ks) (sym same) (get_elem?-In ks j k f)))
NoRepeat-once (x ∷ ks) (suc i) zero k (apart, h) e f =
    let same : x ≡ k = ground (arith, f) in
    absurd (apart (subst (λ (y : Key). In y ks) (sym same) (get_elem?-In ks i k e)))
NoRepeat-once (x ∷ ks) (suc i) (suc j) k (apart, h) e f = ap suc (NoRepeat-once ks i j k h e f)

-- An unpinned key at `pos` whose bit is clear lets no referenced key be taken, and none behind it.
abbrev pub TakesClear : List Key → ℕ → Vitals → ℕ → Pick → Type 0
TakesClear ring hand v pos (Pick.victim w c v') =
    (i : ℕ)
    → get_elem? ring i ≡ some w
    → (v.referenced w ≡ false) × (distance (length ring) hand i ≤ distance (length ring) hand pos)
TakesClear ring hand v pos (Pick.nobody c v') = Unit {0}
TakesClear ring hand v pos Pick.out_of_bounds = Unit {0}

-- A key whose bit was set is taken only if no unpinned key at `pos` is nearer to the hand.
abbrev pub TakesFirst : List Key → ℕ → Vitals → ℕ → Pick → Type 0
TakesFirst ring hand v pos (Pick.victim w c v') =
    (i : ℕ)
    → get_elem? ring i ≡ some w
    → v.referenced w ≡ true
    → distance (length ring) hand i ≤ distance (length ring) hand pos
TakesFirst ring hand v pos (Pick.nobody c v') = Unit {0}
TakesFirst ring hand v pos Pick.out_of_bounds = Unit {0}

cleared_other :
    (v : Vitals) (key k : Key) → key ≢ k → (clear_referenced v key).referenced k ≡ v.referenced k
unfolding clear_referenced
cleared_other v key k ne = ground (arith, ne)

module _ (ring : List Key) (once : NoRepeat ring) where
  -- How far a position is from the hand, before and after a round.
  step_distance :
      (hand i : ℕ)
      → hand ≤ length ring
      → i < length ring
      → i ≢ normal ring hand
      → distance (length ring) hand i ≡ suc (distance (length ring) (normal ring hand + 1) i)
  step_distance hand i h lt ne = ground (arith, ne)

  turned_distance :
      (hand i j : ℕ)
      → hand ≤ length ring
      → i < length ring
      → j < length ring
      → j ≢ normal ring hand
      → distance (length ring) (normal ring hand + 1) i
        ≤ distance (length ring) (normal ring hand + 1) j
      → i ≢ normal ring hand
  turned_distance hand i j h lt lt' ne le = λ e. ground (arith, ne, e, le)

  distance_here :
      (hand : ℕ)
      → hand ≤ length ring
      → 0 < length ring
      → distance (length ring) hand (normal ring hand) ≡ 0
  distance_here hand h some_key = ground arith

  module _ (hand pos : ℕ) (target : Key) (h : hand ≤ length ring)
      (there : get_elem? ring pos ≡ some target) (ne : pos ≢ normal ring hand) where
    -- A round that passes over a key.
    passed-TakesClear :
        (key : Key) (v v' : Vitals) (p : Pick)
        → get_elem? ring (normal ring hand) ≡ some key
        → ((w : Key) → key ≢ w → v'.referenced w ≡ v.referenced w)
        → TakesClear ring (normal ring hand + 1) v' pos p
        → TakesClear ring hand v pos p
    passed-TakesClear key v v' (Pick.nobody c u) here kept takes = tt
    passed-TakesClear key v v' Pick.out_of_bounds here kept takes = tt
    passed-TakesClear key v v' (Pick.victim w c u) here kept takes = λ i e.
        let (clear, le) = takes i e in
        let lt = get_elem?-lt ring i w e in
        let lt' = get_elem?-lt ring pos target there in
        let away = turned_distance hand i pos h lt lt' ne le in
        let other : key ≢ w =
          λ q. away (NoRepeat-once ring i (normal ring hand) w once e (here ∙ ap some q)) in
        (
          sym (kept w other) ∙ clear,
          omega (arith, le, step_distance hand i h lt away, step_distance hand pos h lt' ne),
        )

  turn-TakesClear :
      (rounds hand pos : ℕ) (target : Key) (v : Vitals)
      → get_elem? ring pos ≡ some target
      → v.pins target ≡ 0
      → v.referenced target ≡ false
      → hand ≤ length ring
      → TakesClear ring hand v pos (turn rounds ring hand v)
  turn-TakesClear zero hand pos target v there free clear h = unfold turn in tt
  turn-TakesClear (suc n) hand pos target v there free clear h =
      let at = normal ring hand in
      let lt = get_elem?-lt ring pos target there in
      let (key, e) = get_elem?_in_range ring at (ground (arith, lt)) in
      let next : at + 1 ≤ length ring = ground (arith, lt) in
      elim (round n ring hand v key e) [
        | Round.skips p t ↦
            let ne : pos ≢ at = λ q. ground (arith, there, e, q, p, free) in
            rw t (
              passed-TakesClear hand pos target h there ne key v v _ e (λ w o. refl)
                (turn-TakesClear n (at + 1) pos target v there free clear next))
        | Round.spares p q t ↦
            let ne : pos ≢ at = λ r. ground (arith, there, e, r, q, clear) in
            rw t (
              passed-TakesClear hand pos target h there ne key v (clear_referenced v key) _ e
                (cleared_other v key)
                (turn-TakesClear n (at + 1) pos target (clear_referenced v key) there
                  (pins-clear_referenced v key target ∙ free) (cleared_false v key target clear)
                  next))
        | Round.evicts p q t ↦ rw t (λ i f.
            let same = NoRepeat-once ring i at key once f e in
            (q, ground (arith, same, distance_here hand h (omega (arith, lt)))))
      ]

  module _ (hand pos : ℕ) (target : Key) (h : hand ≤ length ring)
      (there : get_elem? ring pos ≡ some target) where
    passed-TakesFirst :
        (key : Key) (v v' : Vitals) (p : Pick)
        → pos ≢ normal ring hand
        → get_elem? ring (normal ring hand) ≡ some key
        → ((w : Key) → key ≢ w → v'.referenced w ≡ v.referenced w)
        → TakesFirst ring (normal ring hand + 1) v' pos p
        → TakesFirst ring hand v pos p
    passed-TakesFirst key v v' (Pick.nobody c u) ne here kept takes = tt
    passed-TakesFirst key v v' Pick.out_of_bounds ne here kept takes = tt
    passed-TakesFirst key v v' (Pick.victim w c u) ne here kept takes = λ i e bit.
        let lt = get_elem?-lt ring i w e in
        let lt' = get_elem?-lt ring pos target there in
        elim (Bool-cases (i == normal ring hand)) [
          | inl same ↦ ground (arith, same, distance_here hand h (omega (arith, lt)))
          | inr other ↦
              let away : i ≢ normal ring hand = λ q. ground (arith, q, other) in
              let apart : key ≢ w =
                λ q. away (NoRepeat-once ring i (normal ring hand) w once e (here ∙ ap some q)) in
              let le = takes i e (kept w apart ∙ bit) in
              omega (arith, le, step_distance hand i h lt away, step_distance hand pos h lt' ne)
        ]

    -- The hand clears the bit of the target itself: what is taken later had its bit clear.
    spared-TakesFirst :
        (v v' : Vitals) (p : Pick)
        → pos ≡ normal ring hand
        → ((w : Key) → target ≢ w → v'.referenced w ≡ v.referenced w)
        → TakesClear ring (normal ring hand + 1) v' pos p
        → TakesFirst ring hand v pos p
    spared-TakesFirst v v' (Pick.nobody c u) here kept takes = tt
    spared-TakesFirst v v' Pick.out_of_bounds here kept takes = tt
    spared-TakesFirst v v' (Pick.victim w c u) here kept takes = λ i e bit.
        elim (Bool-cases (i == pos)) [
          | inl same ↦ ground (arith, same)
          | inr other ↦
              let apart : target ≢ w =
                λ q. ground (arith, other, NoRepeat-once ring i pos w once e (there ∙ ap some q)) in
              ground (arith, (takes i e).0, kept w apart, bit)
        ]

  turn-TakesFirst :
      (rounds hand pos : ℕ) (target : Key) (v : Vitals)
      → get_elem? ring pos ≡ some target
      → v.pins target ≡ 0
      → hand ≤ length ring
      → TakesFirst ring hand v pos (turn rounds ring hand v)
  turn-TakesFirst zero hand pos target v there free h = unfold turn in tt
  turn-TakesFirst (suc n) hand pos target v there free h =
      let at = normal ring hand in
      let lt = get_elem?-lt ring pos target there in
      let (key, e) = get_elem?_in_range ring at (ground (arith, lt)) in
      let next : at + 1 ≤ length ring = ground (arith, lt) in
      elim (round n ring hand v key e) [
        | Round.skips p t ↦
            let ne : pos ≢ at = λ q. ground (arith, there, e, q, p, free) in
            rw t (
              passed-TakesFirst hand pos target h there key v v _ ne e (λ w o. refl)
                (turn-TakesFirst n (at + 1) pos target v there free next))
        | Round.spares p q t ↦
            let left = pins-clear_referenced v key target ∙ free in
            rw t (elim (Bool-cases (pos == at)) [
              | inl here ↦
                  let where_at : pos ≡ at = ground (arith, here) in
                  let same : key ≡ target = ground (arith, there, e, where_at) in
                  spared-TakesFirst hand pos target h there v (clear_referenced v key) _ where_at
                    (λ w o. cleared_other v key w (λ r. o (sym same ∙ r)))
                    (turn-TakesClear n (at + 1) pos target (clear_referenced v key) there left
                      (cleared_self v key target same) next)
              | inr away ↦
                  passed-TakesFirst hand pos target h there key v (clear_referenced v key) _
                    (λ r. ground (arith, away, r)) e (cleared_other v key)
                    (turn-TakesFirst n (at + 1) pos target (clear_referenced v key) there left next)
            ])
        | Round.evicts p q t ↦ rw t (λ i f bit. ground (arith, q, bit))
      ]

-- How a victim `w` at `i` and an unpinned key at `pos` stand to each other: a key whose bit was clear is
-- taken before all whose bit was set, and of two whose bits were alike, the one nearer to the hand.
abbrev pub Precedes : List Key → ℕ → Vitals → ℕ → Key → ℕ → Key → Type 0
Precedes ring hand v i w pos target =
    ((v.referenced w ≡ false)
      × ((v.referenced target ≡ true)
          ⊎ (distance (length ring) hand i ≤ distance (length ring) hand pos)))
    ⊎ ((v.referenced w ≡ true)
        × (v.referenced target ≡ true)
        × (distance (length ring) hand i ≤ distance (length ring) hand pos))

-- A pick with some unpinned key in the ring: an unpinned key of the ring, which it leaves alone, and which
-- precedes that one.
abbrev pub IsSecondChance : List Key → ℕ → Vitals → ℕ → Key → Pick → Type 0
IsSecondChance ring hand v pos target (Pick.victim w c v') =
    (i : ℕ) × (get_elem? ring i ≡ some w)
    × (v.pins w ≡ 0)
    × (c.ring ≡ remove_at ring i)
    × ((c.hand < length c.ring) ⊎ (c.ring ≡ []))
    × Precedes ring hand v i w pos target
IsSecondChance ring hand v pos target (Pick.nobody c v') = ⊥
IsSecondChance ring hand v pos target Pick.out_of_bounds = ⊥

precedes :
    (ring : List Key) (hand : ℕ) (v : Vitals) (i : ℕ) (w : Key) (pos : ℕ) (target : Key)
    → (v.referenced target ≡ false
        → (v.referenced w ≡ false)
          × (distance (length ring) hand i ≤ distance (length ring) hand pos))
    → (v.referenced w ≡ true → distance (length ring) hand i ≤ distance (length ring) hand pos)
    → Precedes ring hand v i w pos target
precedes ring hand v i w pos target clear first = elim (Bool-cases (v.referenced w)) [
  | inr no_bit ↦ inl (
    no_bit,
    elim (Bool-cases (v.referenced target)) [ inl bit ↦ inl bit | inr none ↦ inr ((clear none).1) ],
  )
  | inl bit ↦ inr (
    bit,
    elim (Bool-cases (v.referenced target)) [
      | inl other ↦ other
      | inr none ↦ ground (arith, bit, (clear none).0)
    ],
    first bit,
  )
]

assembled :
    (ring : List Key) (hand : ℕ) (v : Vitals) (pos : ℕ) (target : Key) (p : Pick)
    → IsFair ring v p
    → IsVictim p
    → (v.referenced target ≡ false → TakesClear ring hand v pos p)
    → TakesFirst ring hand v pos p
    → IsSecondChance ring hand v pos target p
assembled ring hand v pos target (Pick.nobody c u) fair there clear first = there
assembled ring hand v pos target Pick.out_of_bounds fair there clear first = there
assembled ring hand v pos target (Pick.victim w c u) (i, e, free, rest, bit, inside) there clear
      first =
    (
      i,
      e,
      free,
      rest,
      inside,
      precedes ring hand v i w pos target (λ none. clear none i e) (first i e),
    )

-- With its hand in a ring in which no key stands twice and some key is unpinned, CLOCK takes a victim
-- within its bound on the rounds. The victim is an unpinned key of the ring, and it alone leaves the
-- ring, with the hand inside what is left. It precedes every other unpinned key: its bit was clear
-- where any unpinned key's was, and of the keys whose bits were like its own it is the first from the
-- hand on.
pub choose_victim-SecondChance :
    (c : Clock) (v : Vitals) (pos : ℕ) (target : Key)
    → NoRepeat c.ring
    → c.hand ≤ length c.ring
    → get_elem? c.ring pos ≡ some target
    → v.pins target ≡ 0
    → IsSecondChance c.ring c.hand v pos target (choose_victim c v)
unfolding choose_victim
choose_victim-SecondChance c v pos target once h there free =
    let rounds = 2 * length c.ring + 1 in
    let (fair, found) = choose_victim-IsFair c v h in
    let opened : choose_victim c v ≡ turn rounds c.ring c.hand v =
      rw (not_empty c.ring pos target there, choose_victim) refl in
    subst (IsSecondChance c.ring c.hand v pos target) (sym opened) (
      assembled c.ring c.hand v pos target (turn rounds c.ring c.hand v)
        (subst (IsFair c.ring v) opened fair) (subst IsVictim opened (found pos target there free))
        (λ clear. turn-TakesClear c.ring once rounds c.hand pos target v there free clear h)
        (turn-TakesFirst c.ring once rounds c.hand pos target v there free h))
