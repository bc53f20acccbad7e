-- ===== src/Storage/Lsm/Block/Seek.antt =====
-- The linear search of `get`, over entries in ascending order.
use chibidb.Prelude.{
  ℕ, zero, suc, ◌+◌, ◌≤◌, ◌≡◌, refl, sym, ap, subst, inl, inr, true, false, ltb, List, [], ◌∷◌,
  Option, none, some, length, In, length-append, Bool-cases, arith,
}
use chibidb.Prelude.Bytes.{lt_bytes, lt_bytes_irrefl, lt_bytes_trans, lt_bytes_connex}
use chibidb.Prelude.Holds.{Holds, Holds-left, Holds-right}
use chibidb.Prelude.Result.{ok}
use chibidb.Storage.Lsm.Block.{Block, DecodedEntry, seek, decode, entry_key, entry_value}
use chibidb.Storage.Lsm.Block.Entries.{
  Item, item_bytes, items_bytes, length-item_pos, pairs, Chain, decode-item, decoded_key,
}

abbrev pub Over : List ℕ → List (List ℕ × List ℕ) → Type 0
Over key [] = Unit {0}
Over key ((k, v) ∷ kvs) = (lt_bytes key k ≡ true) × Over key kvs

abbrev pub Ascending : List (List ℕ × List ℕ) → Type 0
Ascending [] = Unit {0}
Ascending ((k, v) ∷ kvs) = Over k kvs × Ascending kvs

-- The value that stands beside `key`, where one does.
unfoldable pub Answers : List ℕ → List (List ℕ × List ℕ) → Option (List ℕ) → Type 0
Answers key kvs answer =
    (value : List ℕ)
    → (answer ≡ some value → In (key, value) kvs) × (In (key, value) kvs → answer ≡ some value)

-- `key` is in no entry whose key is over it.
pub Over-absent :
    (key value : List ℕ) (kvs : List (List ℕ × List ℕ)) → Over key kvs → In (key, value) kvs → ⊥
Over-absent key value [] over i = elim i [ ]
Over-absent key value ((k, v) ∷ kvs) (lt, over) (inl e) =
    let same : lt_bytes key key ≡ true =
      subst (λ (x : List ℕ). lt_bytes key x ≡ true) (sym (ap (λ (p : List ℕ × List ℕ). p.0) e))
        lt in
    ground (arith, lt_bytes_irrefl key, same)
Over-absent key value ((k, v) ∷ kvs) (lt, over) (inr i) = Over-absent key value kvs over i

pub Over-weaker :
    (j k : List ℕ) (kvs : List (List ℕ × List ℕ)) → lt_bytes j k ≡ true → Over k kvs → Over j kvs
Over-weaker j k [] lt over = tt
Over-weaker j k ((i, v) ∷ kvs) lt (first, over) =
    (lt_bytes_trans j k i lt first, Over-weaker j k kvs lt over)

pub Answers-later :
    (key k v : List ℕ) (kvs : List (List ℕ × List ℕ)) (answer : Option (List ℕ))
    → lt_bytes k key ≡ true
    → Answers key kvs answer
    → Answers key ((k, v) ∷ kvs) answer
unfolding Answers
Answers-later key k v kvs answer lt there value =
    let (found, finds) = there value in
    (
      λ e. inr (found e),
      λ i. elim i [
        | inl e ↦
            let same : lt_bytes k k ≡ true =
              subst (λ (x : List ℕ). lt_bytes k x ≡ true) (ap (λ (p : List ℕ × List ℕ). p.0) e)
                lt in
            ground (arith, lt_bytes_irrefl k, same)
        | inr later ↦ finds later
      ],
    )

Answers-here :
    (key v : List ℕ) (kvs : List (List ℕ × List ℕ))
    → Over key kvs
    → Answers key ((key, v) ∷ kvs) (some v)
unfolding Answers
Answers-here key v kvs over value = (
  λ e. inl (ground (arith, e)),
  λ i. elim i [
    | inl e ↦ ap some (sym (ap (λ (p : List ℕ × List ℕ). p.1) e))
    | inr later ↦ absurd (Over-absent key value kvs over later)
  ],
)

pub Answers-none :
    (key : List ℕ) (kvs : List (List ℕ × List ℕ)) → Over key kvs → Answers key kvs none
unfolding Answers
Answers-none key kvs over value =
    (λ e. ground arith, λ i. absurd (Over-absent key value kvs over i))

module _ (block : Block) (key : List ℕ) (rounds : ℕ) (current : List ℕ) (pos : ℕ) (i : Item)
    (items : List Item) where
  seek_step :
      ltb pos (block.restart_array_start) ≡ true
      → (e : DecodedEntry) → decode block pos ≡ ok e
      → entry_key block current e ≡ i.key
      → entry_value block e ≡ i.value
      → (after : ℕ) → e.next ≡ after
      → (answer : Option (List ℕ)) → seek block key rounds (i.key) after ≡ ok answer
      → Over (i.key) (pairs items)
      → Answers key (pairs items) answer
      → (r : Option (List ℕ)) × (seek block key (suc rounds) current pos ≡ ok r)
        × Answers key (pairs (i ∷ items)) r
  unfolding seek
  seek_step more e decoded found value after next answer result over answers =
      elim (Bool-cases (lt_bytes (i.key) key)) [
        | inl lt ↦ (
          answer,
          rw (more, decoded, found, lt, next) result,
          Answers-later key (i.key) (i.value) (pairs items) answer lt answers,
        )
        | inr ge ↦ elim (Bool-cases (lt_bytes key (i.key))) [
          | inl gt ↦ (
            none,
            rw (more, decoded, found, ge, gt) refl,
            Answers-none key (pairs (i ∷ items))
                (gt, Over-weaker key (i.key) (pairs items) gt over),
          )
          | inr le ↦
              let same = lt_bytes_connex (i.key) key ge le in
              (
                some (i.value),
                rw (more, decoded, found, ge, le, value) refl,
                subst (λ (k : List ℕ). Answers k (pairs (i ∷ items)) (some (i.value))) same
                    (Answers-here (i.key) (i.value) (pairs items) over),
              )
        ]
      ]

pub seek-items :
    (block : Block) (key : List ℕ) (rounds : ℕ) (current : List ℕ) (pos : ℕ) (items : List Item)
    → Chain current items
    → Ascending (pairs items)
    → Holds (block.bytes) pos (items_bytes items)
    → pos + length (items_bytes items) ≡ block.restart_array_start
    → length (items_bytes items) ≤ rounds
    → (answer : Option (List ℕ)) × (seek block key rounds current pos ≡ ok answer)
      × Answers key (pairs items) answer
unfolding seek items_bytes Chain
seek-items block key zero current pos [] chain sorted h end enough =
    (none, refl, Answers-none key [] tt)
seek-items block key (suc rounds) current pos [] chain sorted h end enough =
    let stop : ltb pos (block.restart_array_start) ≡ false = ground (arith, end) in
    (none, rw stop refl, Answers-none key [] tt)
seek-items block key zero current pos (i ∷ items) chain sorted h end enough =
    absurd
      (omega (arith, enough, length-append (item_bytes i) (items_bytes items), length-item_pos i))
seek-items block key (suc rounds) current pos (i ∷ items) (fits, shares, chain) (over, sorted) h end
      enough =
    let size = length-append (item_bytes i) (items_bytes items) in
    let pos_size = length-item_pos i in
    let more : ltb pos (block.restart_array_start) ≡ true = ground (arith, end, size, pos_size) in
    let at_rest = Holds-right (block.bytes) pos (item_bytes i) (items_bytes items) h in
    let (e, decoded, common, next, rest, value) =
      decode-item block pos i fits
        (Holds-left (block.bytes) pos (item_bytes i) (items_bytes items) h)
        (omega (arith, end, size)) in
    let found : entry_key block current e ≡ i.key =
      decoded_key block current i e common shares rest in
    let (answer, result, answers) =
      seek-items block key rounds (i.key) (pos + length (item_bytes i)) items chain sorted at_rest
        (omega (arith, end, size)) (omega (arith, enough, size, pos_size)) in
    seek_step block key rounds current pos i items more e decoded found value
      (pos + length (item_bytes i)) next answer result over answers
