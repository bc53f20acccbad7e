-- ===== src/Storage/Replacer.antt =====
-- src/storage/replacer.rs: the eviction policies of the buffer pool. The pool's frames are seen
-- through their pin counts and reference bits, as in the source.
pub mod Queues
pub mod Recency
pub mod ClockHand
pub mod SecondChance
mod Tests
use chibidb.Prelude.{
  ℕ, zero, suc, ◌+◌, ◌*◌, Bool, true, false, ltb, leb, ◌==◌, if◌then◌else◌, List, [], ◌∷◌, ◌++◌,
  Option, none, some, length, get_elem?, remove_at, ite, ℕ_discrete,
}

-- `(FileId, PageNo)`.
abbrev pub Key : Type 0
Key = ℕ × ℕ

pub Key_discrete : Discrete Key
Key_discrete = hlevel ℕ_discrete

-- `FrameVitals`.
pub record Vitals : Type 0 where
  pub pins : Key → ℕ
  pub referenced : Key → Bool

pub clear_referenced : Vitals → Key → Vitals
clear_referenced v key = record v {
  referenced = λ k. ite (Key_discrete key k) false (v.referenced k);
}

-- `iter().position(..)`.
abbrev pub position : (Key → Bool) → List Key → Option ℕ
position p [] = none
position p (k ∷ ks) =
    if p k then some 0 else elim (position p ks) [ none ↦ none | some i ↦ some (suc i) ]

abbrev pub is_key : Key → Key → Bool
is_key key k = ite (Key_discrete k key) true false

abbrev pub unpinned : Vitals → Key → Bool
unpinned v k = v.pins k == 0

pub pick_oldest : List Key → Vitals → Option Key × List Key
pick_oldest order v = elim (position (unpinned v) order) [
  | none ↦ (none, order)
  | some i ↦ (get_elem? order i, remove_at order i)
]

pub drop_key : List Key → Key → List Key
drop_key order key = elim (position (is_key key) order) [
  | none ↦ order
  | some i ↦ remove_at order i
]

-- `Lru` and `Fifo` are queues, the oldest key first.
abbrev pub push : List Key → Key → List Key
push order key = order ++ (key ∷ [])

pub record_access_lru : List Key → Key → List Key
record_access_lru order key = elim (position (is_key key) order) [
  | none ↦ order
  | some i ↦ push (remove_at order i) key
]

pub record_access_fifo : List Key → Key → List Key
record_access_fifo order key = order

pub record Clock : Type 0 where
  pub ring : List Key
  pub hand : ℕ

abbrev pub push_ring : Clock → Key → Clock
push_ring c key = record c { ring = c.ring ++ (key ∷ []) }

-- `ring.remove(pos)`, and the hand goes back to the start when it left the ring.
pub remove_from_ring : List Key → ℕ → ℕ → Clock
remove_from_ring ring pos hand =
    let rest = remove_at ring pos in
    record { ring = rest; hand = if leb (length rest) hand then 0 else hand }

pub forget : Clock → Key → Clock
forget c key = elim (position (is_key key) c.ring) [
  | none ↦ c
  | some i ↦ remove_from_ring c.ring i c.hand
]

-- `out_of_bounds` is the panic of an index past the ring.
pub data Pick : Type 0 where
  victim : Key → Clock → Vitals → Pick
  nobody : Clock → Vitals → Pick
  out_of_bounds : Pick

-- The loop of `choose_victim`, with the rounds left.
pub turn : ℕ → List Key → ℕ → Vitals → Pick
turn zero ring hand v = Pick.nobody (record { ring = ring; hand = hand }) v
turn (suc rounds) ring hand v =
    let at = if leb (length ring) hand then 0 else hand in
    elim (get_elem? ring at) [
      | none ↦ Pick.out_of_bounds
      | some key ↦
          let skip = turn rounds ring (at + 1) v in
          let second_chance = turn rounds ring (at + 1) (clear_referenced v key) in
          if ltb 0 (v.pins key)
          then skip
          else if v.referenced key
          then second_chance
          else Pick.victim key (remove_from_ring ring at at) v
    ]

pub choose_victim : Clock → Vitals → Pick
choose_victim c v =
    let n = length c.ring in if n == 0 then Pick.nobody c v else turn (2 * n + 1) c.ring c.hand v
