-- ===== src/Storage/Replacer/ClockHand.antt =====
-- The second-chance loop: whom it picks, and that its bound on the rounds is enough.
use chibidb.Prelude.{
  ℕ, zero, suc, ◌+◌, ◌-◌, ◌*◌, ◌≤◌, ◌<◌, ◌≡◌, ◌≢◌, refl, ◌∙◌, inl, inr, ◌⊎◌, true, false, ltb, leb,
  ◌==◌, if◌then◌else◌, List, [], ◌∷◌, some, Bool-cases, arith, length, get_elem?, remove_at,
}
use chibidb.Storage.Replacer.{
  Key, Key_discrete, Vitals, Clock, Pick, clear_referenced, remove_from_ring, turn, choose_victim,
}

-- How many rounds the hand needs to come to `pos`.
abbrev pub distance : ℕ → ℕ → ℕ → ℕ
distance n hand pos = if leb hand pos then pos - hand else pos + n - hand

pub get_elem?_in_range :
    (ring : List Key) (i : ℕ) → i < length ring → (k : Key) × (get_elem? ring i ≡ some k)
get_elem?_in_range [] i h = absurd (omega arith)
get_elem?_in_range (k ∷ ks) zero h = (k, refl)
get_elem?_in_range (k ∷ ks) (suc i) h = get_elem?_in_range ks i (omega arith)

-- A pick of an unpinned key that stood in the ring and whose reference bit was clear.
abbrev pub IsFair : List Key → Vitals → Pick → Type 0
IsFair ring v (Pick.victim key c v') =
    (i : ℕ) × (get_elem? ring i ≡ some key)
    × (v.pins key ≡ 0)
    × (c.ring ≡ remove_at ring i)
    × (v'.referenced key ≡ false)
    × ((c.hand < length c.ring) ⊎ (c.ring ≡ []))
IsFair ring v (Pick.nobody c v') = (c.ring ≡ ring) × (c.hand ≤ length ring)
IsFair ring v Pick.out_of_bounds = ⊥

pub pins-clear_referenced : (v : Vitals) (key k : Key) → (clear_referenced v key).pins k ≡ v.pins k
unfolding clear_referenced
pins-clear_referenced v key k = refl

IsFair-cleared :
    (ring : List Key) (v : Vitals) (key : Key) (p : Pick)
    → IsFair ring (clear_referenced v key) p
    → IsFair ring v p
unfolding clear_referenced
IsFair-cleared ring v key (Pick.victim k c v') h = h
IsFair-cleared ring v key (Pick.nobody c v') h = h
IsFair-cleared ring v key Pick.out_of_bounds h = h

hand_in_ring :
    (ring : List Key) (pos hand : ℕ)
    → ((remove_from_ring ring pos hand).hand < length (remove_from_ring ring pos hand).ring)
      ⊎ ((remove_from_ring ring pos hand).ring ≡ [])
unfolding remove_from_ring
hand_in_ring ring pos hand =
    elim (remove_at ring pos)
      as (λ rest. ((if leb (length rest) hand then 0 else hand) < length rest) ⊎ (rest ≡ [])) [
        | [] ↦ inr refl
        | x ∷ xs ↦ inl (ground arith)
      ]

ring-remove_from_ring :
    (ring : List Key) (pos hand : ℕ) → (remove_from_ring ring pos hand).ring ≡ remove_at ring pos
unfolding remove_from_ring
ring-remove_from_ring ring pos hand = refl

-- What the position of the hand is when a round starts.
abbrev pub normal : List Key → ℕ → ℕ
normal ring hand = if leb (length ring) hand then 0 else hand

-- The three ways through a round, once the key under the hand is known.
pub data Round (rounds : ℕ) (ring : List Key) (hand : ℕ) (v : Vitals) (key : Key) : Type 0 where
  skips :
      0 < v.pins key
      → turn (suc rounds) ring hand v ≡ turn rounds ring (normal ring hand + 1) v
      → Round rounds ring hand v key
  spares :
      v.pins key ≡ 0
      → v.referenced key ≡ true
      → turn (suc rounds) ring hand v
        ≡ turn rounds ring (normal ring hand + 1) (clear_referenced v key)
      → Round rounds ring hand v key
  evicts :
      v.pins key ≡ 0
      → v.referenced key ≡ false
      → turn (suc rounds) ring hand v
        ≡ Pick.victim key (remove_from_ring ring (normal ring hand) (normal ring hand)) v
      → Round rounds ring hand v key

pub round :
    (rounds : ℕ) (ring : List Key) (hand : ℕ) (v : Vitals) (key : Key)
    → get_elem? ring (normal ring hand) ≡ some key
    → Round rounds ring hand v key
unfolding turn
round rounds ring hand v key e = elim (Bool-cases (ltb 0 (v.pins key))) [
  | inl p ↦ Round.skips (ground arith) (rw (e, turn) (rw p))
  | inr p ↦ elim (Bool-cases (v.referenced key)) [
    | inl q ↦ Round.spares (ground arith) q (rw (e, turn) (rw (p, q)))
    | inr q ↦ Round.evicts (ground arith) q (rw (e, turn) (rw (p, q)))
  ]
]

turn-IsFair :
    (rounds : ℕ) (ring : List Key) (hand : ℕ) (v : Vitals)
    → 0 < length ring
    → hand ≤ length ring
    → IsFair ring v (turn rounds ring hand v)
unfolding turn
turn-IsFair zero ring hand v some_key h = (refl, h)
turn-IsFair (suc n) ring hand v some_key h =
    let at = normal ring hand in
    let (key, e) = get_elem?_in_range ring at (ground arith) in
    elim (round n ring hand v key e) [
      | Round.skips p t ↦ rw t (turn-IsFair n ring (at + 1) v some_key (ground arith))
      | Round.spares p q t ↦ rw t (
          IsFair-cleared ring v key _
            (turn-IsFair n ring (at + 1) (clear_referenced v key) some_key (ground arith)))
      | Round.evicts p q t ↦
          rw t (at, e, p, ring-remove_from_ring ring at at, q, hand_in_ring ring at at)
    ]

abbrev pub IsVictim : Pick → Type 0
IsVictim (Pick.victim key c v) = Unit {0}
IsVictim (Pick.nobody c v) = ⊥
IsVictim Pick.out_of_bounds = ⊥

pub get_elem?-lt : (ring : List Key) (i : ℕ) (k : Key) → get_elem? ring i ≡ some k → i < length ring
get_elem?-lt [] i k h = cc
get_elem?-lt (x ∷ ring) zero k h = omega arith
get_elem?-lt (x ∷ ring) (suc i) k h = omega (arith, get_elem?-lt ring i k h)

pub cleared_false :
    (v : Vitals) (key k : Key)
    → v.referenced k ≡ false
    → (clear_referenced v key).referenced k ≡ false
unfolding clear_referenced
cleared_false v key k h = ground arith

pub cleared_self :
    (v : Vitals) (key k : Key) → key ≡ k → (clear_referenced v key).referenced k ≡ false
unfolding clear_referenced
cleared_self v key k e = ground arith

module _ (ring : List Key) (pos : ℕ) (target : Key) (there : get_elem? ring pos ≡ some target) where
  nearer :
      (hand : ℕ)
      → hand ≤ length ring
      → normal ring hand ≢ pos
      → distance (length ring) (normal ring hand + 1) pos < distance (length ring) hand pos
  nearer hand h ne = ground (arith, get_elem?-lt ring pos target there)

  same_key : (at : ℕ) (key : Key) → get_elem? ring at ≡ some key → key ≢ target → at ≢ pos
  same_key at key e ne = λ p. ground (arith, there)

  -- Once the bit of an unpinned key is clear, the hand takes a victim no later than there.
  reach_clear :
      (rounds hand : ℕ) (v : Vitals)
      → v.pins target ≡ 0
      → v.referenced target ≡ false
      → hand ≤ length ring
      → distance (length ring) hand pos < rounds
      → IsVictim (turn rounds ring hand v)
  reach_clear zero hand v free clear h d = absurd (omega arith)
  reach_clear (suc n) hand v free clear h d =
      let at = normal ring hand in
      let (key, e) =
        get_elem?_in_range ring at (ground (arith, get_elem?-lt ring pos target there)) in
      elim (round n ring hand v key e) [
        | Round.skips p t ↦ rw t (
            reach_clear n (at + 1) v free clear (ground (arith, get_elem?-lt ring pos target there))
              (omega (arith, nearer hand h (same_key at key e (λ q. ground arith)))))
        | Round.spares p q t ↦ rw t (
            reach_clear n (at + 1) (clear_referenced v key)
              (pins-clear_referenced v key target ∙ free) (cleared_false v key target clear)
              (ground (arith, get_elem?-lt ring pos target there))
              (omega (arith, nearer hand h (same_key at key e (λ r. ground arith)))))
        | Round.evicts p q t ↦ rw t tt
      ]

  reach :
      (rounds hand : ℕ) (v : Vitals)
      → v.pins target ≡ 0
      → hand ≤ length ring
      → distance (length ring) hand pos + length ring < rounds
      → IsVictim (turn rounds ring hand v)
  reach zero hand v free h d = absurd (omega arith)
  reach (suc n) hand v free h d =
      let at = normal ring hand in
      let lt = get_elem?-lt ring pos target there in
      let (key, e) = get_elem?_in_range ring at (ground arith) in
      elim (round n ring hand v key e) [
        | Round.skips p t ↦ rw t (
            reach n (at + 1) v free (ground arith)
              (omega (arith, nearer hand h (same_key at key e (λ q. ground arith)))))
        | Round.spares p q t ↦ rw t (elim (Key_discrete key target) [
          | yes s ↦
              reach_clear n (at + 1) (clear_referenced v key)
                (pins-clear_referenced v key target ∙ free) (cleared_self v key target s)
                (ground arith) (ground arith)
          | no s ↦
              reach n (at + 1) (clear_referenced v key) (pins-clear_referenced v key target ∙ free)
                (ground arith) (omega (arith, nearer hand h (same_key at key e s)))
        ])
        | Round.evicts p q t ↦ rw t tt
      ]

distance_bound : (n hand pos : ℕ) → hand ≤ n → pos < n → distance n hand pos + n < 2 * n + 1
distance_bound n hand pos h p = ground arith

pub not_empty :
    (ring : List Key) (i : ℕ) (k : Key) → get_elem? ring i ≡ some k → (length ring == 0) ≡ false
not_empty ring i k e = ground (arith, get_elem?-lt ring i k e)

-- With its hand in the ring, CLOCK picks only an unpinned key of the ring whose reference bit is
-- clear, takes that one alone out of the ring, and leaves the hand in the ring; an index never
-- leaves the ring. Its 2n + 1 rounds are enough: if any key is unpinned a victim is found, whatever
-- the reference bits and the hand are.
pub choose_victim-IsFair :
    (c : Clock) (v : Vitals)
    → c.hand ≤ length c.ring
    → IsFair c.ring v (choose_victim c v)
      × ((i : ℕ) (key : Key)
          → get_elem? c.ring i ≡ some key
          → v.pins key ≡ 0
          → IsVictim (choose_victim c v))
unfolding choose_victim
choose_victim-IsFair c v h = (
  elim (Bool-cases (length c.ring == 0)) [
    | inl e ↦ rw (e, choose_victim) (refl, h)
    | inr e ↦
        rw (e, choose_victim) (turn-IsFair (2 * length c.ring + 1) c.ring c.hand v (ground arith) h)
  ],
  λ i key there free.
      rw (not_empty c.ring i key there, choose_victim)
        (reach c.ring i key there (2 * length c.ring + 1) c.hand v free h
          (distance_bound (length c.ring) c.hand i h (get_elem?-lt c.ring i key there))),
)
