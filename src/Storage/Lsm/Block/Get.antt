-- ===== src/Storage/Lsm/Block/Get.antt =====
-- The lookup of a key: the binary search over the restarts, and the linear search from the one it finds.
use chibidb.Prelude.{
  some, ℕ, zero, suc, ◌+◌, ◌-◌, ◌/◌, ◌≤◌, ◌<◌, ◌≡◌, refl, sym, ap, subst, ◌∙◌, ◌⊎◌, inl, inr, true,
  false, ltb, ◌==◌, List, [], ◌∷◌, ◌++◌, Option, none, length, In, get_or, length-append,
  Bool-cases, arith,
}
use chibidb.Prelude.Bytes.{lt_bytes, lt_bytes_trans}
use chibidb.Prelude.Holds.{Holds, Holds-left, Holds-right}
use chibidb.Prelude.Result.{ok}
use chibidb.Storage.Lsm.Block.{Block, key_at, first_key, bisect, seek, get_value, is_empty, decode}
use chibidb.Storage.Lsm.Block.Entries.{
  length-item_pos, Item, item_bytes, items_bytes, pairs, rest_of, Chain, decode-item,
}
use mathlib.Core.List.{append_assoc}
use chibidb.Storage.Lsm.Block.Seek.{
  Over, Ascending, Answers, Answers-later, Answers-none, seek-items,
}

-- The entries from one that shares nothing on, and where its bytes begin.
unfoldable pub Split : List Item → ℕ → Type 0
Split items r =
    (front : List Item) × (i : Item) × (back : List Item) × (items ≡ front ++ (i ∷ back))
    × (r ≡ length (items_bytes front))
    × (i.common ≡ 0)

items_bytes-append :
    (front back : List Item) → items_bytes (front ++ back) ≡ items_bytes front ++ items_bytes back
unfolding items_bytes
items_bytes-append [] back = refl
items_bytes-append (i ∷ front) back =
    ap (λ (bytes : List ℕ). item_bytes i ++ bytes) (items_bytes-append front back)
    ∙ sym (append_assoc (item_bytes i) (items_bytes front) (items_bytes back))

pub items_bytes_empty : (items : List Item) → length (items_bytes items) ≡ 0 → items ≡ []
unfolding items_bytes
items_bytes_empty [] h = refl
items_bytes_empty (i ∷ items) h =
    absurd (omega (arith, h, length-append (item_bytes i) (items_bytes items), length-item_pos i))

Chain-back :
    (current : List ℕ) (front : List Item) (i : Item) (back : List Item)
    → i.common ≡ 0
    → Chain current (front ++ (i ∷ back))
    → Chain [] (i ∷ back)
unfolding Chain
Chain-back current [] i back whole (fits, shares, chain) = (fits, rw whole refl, chain)
Chain-back current (j ∷ front) i back whole (fits, shares, chain) =
    Chain-back (j.key) front i back whole chain

Over-back :
    (key : List ℕ) (front : List Item) (i : Item) (back : List Item)
    → Over key (pairs (front ++ (i ∷ back)))
    → lt_bytes key (i.key) ≡ true
Over-back key [] i back (lt, over) = lt
Over-back key (j ∷ front) i back (lt, over) = Over-back key front i back over

Ascending-back :
    (front back : List Item) → Ascending (pairs (front ++ back)) → Ascending (pairs back)
Ascending-back [] back sorted = sorted
Ascending-back (j ∷ front) back (over, sorted) = Ascending-back front back sorted

-- What stands before an entry whose key is below the one looked for is not it.
Answers-back :
    (key : List ℕ) (front : List Item) (i : Item) (back : List Item) (answer : Option (List ℕ))
    → Ascending (pairs (front ++ (i ∷ back)))
    → lt_bytes (i.key) key ≡ true
    → Answers key (pairs (i ∷ back)) answer
    → Answers key (pairs (front ++ (i ∷ back))) answer
Answers-back key [] i back answer sorted lt answers = answers
Answers-back key (j ∷ front) i back answer (over, sorted) lt answers =
    Answers-later key (j.key) (j.value) (pairs (front ++ (i ∷ back))) answer
      (lt_bytes_trans (j.key) (i.key) key (Over-back (j.key) front i back over) lt)
      (Answers-back key front i back answer sorted lt answers)

get_or-In : (xs : List ℕ) (n d : ℕ) → n < length xs → In (get_or xs n d) xs
get_or-In [] n d h = elim h [ ]
get_or-In (x ∷ xs) zero d h = inl refl
get_or-In (x ∷ xs) (suc n) d h = inr (get_or-In xs n d (omega arith))

abbrev pub first_of : List (List ℕ × List ℕ) → Option (List ℕ)
first_of [] = none
first_of ((key, value) ∷ kvs) = some key

-- The bytes of a block and the entries they are.
unfoldable pub Stores : Block → List Item → Type 0
Stores block items =
    Chain [] items
    × Holds (block.bytes) 0 (items_bytes items)
    × (length (items_bytes items) ≡ block.restart_array_start)
    × ((r : ℕ) → In r (block.restarts) → Split items r)
    × (is_empty (block.restarts) ≡ true → items ≡ [])

module _ (block : Block) (items : List Item) (stores : Stores block items) where
  -- An entry that a restart names, with what follows it.
  restart-back :
      (r : ℕ)
      → In r (block.restarts)
      → (front : List Item) × (i : Item) × (back : List Item) × (items ≡ front ++ (i ∷ back))
        × Chain [] (i ∷ back)
        × Holds (block.bytes) r (items_bytes (i ∷ back))
        × (r + length (items_bytes (i ∷ back)) ≡ block.restart_array_start)
        × (i.common ≡ 0)
  unfolding Stores Split
  restart-back r there =
      let (chain, whole, end, splits, u) = stores in
      let (front, i, back, e, at, zeroth) = splits r there in
      let cut : items_bytes items ≡ items_bytes front ++ items_bytes (i ∷ back) =
        ap items_bytes e ∙ items_bytes-append front (i ∷ back) in
      (
        front,
        i,
        back,
        e,
        Chain-back [] front i back zeroth (subst (Chain []) e chain),
        subst (λ (p : ℕ). Holds (block.bytes) p (items_bytes (i ∷ back))) (omega (arith, at))
            (Holds-right (block.bytes) 0 (items_bytes front) (items_bytes (i ∷ back))
              (subst (Holds (block.bytes) 0) cut whole)),
        omega (
          arith,
          end,
          at,
          ap length cut,
          length-append (items_bytes front) (items_bytes (i ∷ back)),
        ),
        zeroth,
      )

  key_at-restart :
      (r : ℕ) (i : Item) (back : List Item)
      → Chain [] (i ∷ back)
      → Holds (block.bytes) r (items_bytes (i ∷ back))
      → r + length (items_bytes (i ∷ back)) ≡ block.restart_array_start
      → i.common ≡ 0
      → key_at block r ≡ ok (i.key)
  unfolding key_at Chain items_bytes
  key_at-restart r i back (fits, shares, chain) h end zeroth =
      let size = length-append (item_bytes i) (items_bytes back) in
      let (e, decoded, common, next, rest, value) =
        decode-item block r i fits (Holds-left (block.bytes) r (item_bytes i) (items_bytes back) h)
          (omega (arith, end, size)) in
      let all : rest_of i ≡ i.key = rw zeroth refl in rw (decoded, common, zeroth, rest) (ap ok all)

  -- The restart before `left`, where there is one, has a key below the one looked for.
  abbrev Below : List ℕ → ℕ → Type 0
  Below key left =
      (left ≡ 0)
      ⊎ ((1 ≤ left)
          × (left ≤ length (block.restarts))
          × (k : List ℕ) × (key_at block (get_or (block.restarts) (left - 1) 0) ≡ ok k)
          × (lt_bytes k key ≡ true))

  bisect-Below :
      (key : List ℕ) (rounds left right : ℕ)
      → right ≤ length (block.restarts)
      → Below key left
      → (found : ℕ) × (bisect block key rounds left right ≡ ok found) × Below key found
  unfolding bisect
  bisect-Below key zero left right inside below = (left, refl, below)
  bisect-Below key (suc rounds) left right inside below =
      let mid = (left + right) / 2 in
      elim (Bool-cases (ltb left right)) [
        | inr stop ↦ (left, rw stop refl, below)
        | inl more ↦
            let before : mid < right = ground (arith, more) in
            let r = get_or (block.restarts) mid 0 in
            let (front, i, back, e, chain, h, end, zeroth) =
              restart-back r (get_or-In (block.restarts) mid 0 (omega (arith, before, inside))) in
            let restart_key = key_at-restart r i back chain h end zeroth in
            elim (Bool-cases (lt_bytes (i.key) key)) [
              | inl lt ↦
                  let one : mid + 1 - 1 ≡ mid = omega arith in
                  let above : Below key (mid + 1) =
                    inr
                      (omega arith, omega (arith, before, inside), i.key, rw one restart_key, lt) in
                  let (found, result, there) =
                    bisect-Below key rounds (mid + 1) right inside above in
                  (found, rw (more, restart_key, lt) result, there)
              | inr ge ↦
                  let (found, result, there) =
                    bisect-Below key rounds left mid (omega (arith, before, inside)) below in
                  (found, rw (more, restart_key, ge) result, there)
            ]
      ]

  -- A search from a restart whose key is below the one looked for finds it.
  seek-restart :
      (key : List ℕ) (r : ℕ)
      → Ascending (pairs items)
      → In r (block.restarts)
      → (k : List ℕ) → key_at block r ≡ ok k
      → lt_bytes k key ≡ true
      → (answer : Option (List ℕ)) × (seek block key (block.restart_array_start) [] r ≡ ok answer)
        × Answers key (pairs items) answer
  seek-restart key r sorted there k restart_key lt =
      let (front, i, back, e, chain, h, end, zeroth) = restart-back r there in
      let same : ok k ≡ ok (i.key) = sym restart_key ∙ key_at-restart r i back chain h end zeroth in
      let below : lt_bytes (i.key) key ≡ true = ground (arith, same, lt) in
      let cut : Ascending (pairs (front ++ (i ∷ back))) =
        subst (λ (all : List Item). Ascending (pairs all)) e sorted in
      let (answer, result, answers) =
        seek-items block key (block.restart_array_start) [] r (i ∷ back) chain
          (Ascending-back front (i ∷ back) cut) h end (omega (arith, end)) in
      (
        answer,
        result,
        subst (λ (all : List Item). Answers key (pairs all) answer) (sym e)
            (Answers-back key front i back answer cut below answers),
      )

  pub get_value-Stores :
      (key : List ℕ)
      → Ascending (pairs items)
      → (answer : Option (List ℕ)) × (get_value block key ≡ ok answer)
        × Answers key (pairs items) answer
  unfolding get_value Stores
  get_value-Stores key sorted =
      let (chain, whole, end, splits, none_left) = stores in
      let n = length (block.restarts) in
      let (left, bisected, below) = bisect-Below key n 0 n (omega arith) (inl refl) in
      elim (Bool-cases (is_empty (block.restarts))) [
        | inl c ↦ (none, rw c refl, rw (none_left c) (Answers-none key [] tt))
        | inr c ↦ elim below [
          | inl first ↦
              let (answer, result, answers) =
                seek-items block key (block.restart_array_start) [] 0 items chain sorted whole
                  (omega (arith, end)) (omega (arith, end)) in
              (answer, rw (c, bisected, first) result, answers)
          | inr (one, inside, k, restart_key, lt) ↦
              let r = get_or (block.restarts) (left - 1) 0 in
              let later : (left == 0) ≡ false = ground (arith, one) in
              let (answer, result, answers) =
                seek-restart key r sorted
                  (get_or-In (block.restarts) (left - 1) 0 (omega (arith, one, inside))) k
                  restart_key lt in
              (answer, rw (c, bisected, later) result, answers)
        ]
      ]

  pub first_key-Stores :
      (block.restarts ≡ []) ⊎ ((more : List ℕ) × (block.restarts ≡ 0 ∷ more))
      → first_key block ≡ ok (first_of (pairs items))
  unfolding first_key Stores key_at decode
  first_key-Stores (inl e) =
      let (chain, whole, end, splits, none_left) = stores in
      let gone : items ≡ [] = none_left (rw e refl) in rw (e, gone) refl
  first_key-Stores (inr (more, e)) =
      let there : In 0 (block.restarts) = rw e (inl refl) in
      let (front, i, back, cut, chain, h, end, zeroth) = restart-back 0 there in
      let (all_chain, all_whole, all_end, splits, none_left) = stores in
      let size = ap length (ap items_bytes cut ∙ items_bytes-append front (i ∷ back)) in
      let none_before : length (items_bytes front) ≡ 0 =
        omega
          (arith, size, all_end, end, length-append (items_bytes front) (items_bytes (i ∷ back))) in
      let first : pairs items ≡ pairs (i ∷ back) =
        ap pairs cut
        ∙ ap (λ (all : List Item). pairs (all ++ (i ∷ back)))
            (items_bytes_empty front none_before) in
      rw (e, key_at-restart 0 i back chain h end zeroth, first) refl
