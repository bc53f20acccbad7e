-- ===== src/Storage/Replacer/Tests.antt =====
-- Runs of the three policies, and the theorems at concrete queues.
use chibidb.Prelude.{
  ℕ, ◌≡◌, refl, true, List, [], ◌∷◌, some, arith, ℕ_discrete, inl, inr, ◌==◌, false, if◌then◌else◌,
}
use chibidb.Storage.Replacer.{
  Key, Key_discrete, Vitals, Clock, Pick, pick_oldest, drop_key, record_access_lru,
  record_access_fifo, remove_from_ring, forget, clear_referenced, turn, choose_victim,
}
use chibidb.Storage.Replacer.SecondChance.{NoRepeat, IsSecondChance, choose_victim-SecondChance}

program : Unit {0}
unfolding Key_discrete pick_oldest drop_key record_access_lru record_access_fifo remove_from_ring
    forget clear_referenced turn choose_victim ℕ_discrete
program = tt

abbrev p : ℕ → Key
p n = (1, n)

-- Every page is free, and every reference bit is set.
abbrev all_free : Vitals
all_free = record { pins = λ k. 0; referenced = λ k. true }

abbrev ring : Clock
ring = record { ring = p 1 ∷ p 2 ∷ p 3 ∷ []; hand = 1 }

lru_run : record_access_lru (p 1 ∷ p 2 ∷ p 3 ∷ []) (p 1) ≡ p 2 ∷ p 3 ∷ p 1 ∷ []
unfolding program
lru_run = refl

pick_run : pick_oldest (p 1 ∷ p 2 ∷ []) all_free ≡ (some (p 1), p 2 ∷ [])
unfolding program
pick_run = refl

drop_run : drop_key (p 1 ∷ p 2 ∷ p 3 ∷ []) (p 2) ≡ p 1 ∷ p 3 ∷ []
unfolding program
drop_run = refl

forget_run : forget ring (p 3) ≡ record { ring = p 1 ∷ p 2 ∷ []; hand = 1 }
unfolding program
forget_run = refl

clock_run :
    (v : Vitals) × (choose_victim ring all_free
      ≡ Pick.victim (p 2) (record { ring = p 1 ∷ p 3 ∷ []; hand = 1 }) v)
unfolding program
clock_run = (_, refl)

abbrev history : List Key
history = p 1 ∷ p 2 ∷ p 1 ∷ p 3 ∷ []

-- The bit of page 1 is clear, and the hand stands behind it.
abbrev one_clear : Vitals
one_clear = record { pins = λ k. 0; referenced = λ k. if k.1 == 1 then false else true }

ring-NoRepeat : NoRepeat ring.ring
ring-NoRepeat = (
  λ i. elim i [
    | inl e ↦ absurd (ground (arith, e))
    | inr j ↦ elim j [ inl e ↦ absurd (ground (arith, e)) | inr k ↦ k ]
  ],
  (λ i. elim i [ inl e ↦ absurd (ground (arith, e)) | inr k ↦ k ], (λ i. i, tt)),
)

choose_victim-SecondChance_example :
    IsSecondChance ring.ring 1 one_clear 0 (p 1) (choose_victim ring one_clear)
choose_victim-SecondChance_example =
    choose_victim-SecondChance ring one_clear 0 (p 1) ring-NoRepeat (omega arith) refl refl
