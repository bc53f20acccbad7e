-- ===== src/Storage/Lsm/Sstable/Lookup.antt =====
-- The lookup of a key in a table: its block, and what the block answers.
use chibidb.Prelude.{
  ℕ, ◌+◌, ◌^◌, ◌≤◌, ◌<◌, ◌≡◌, refl, sym, ap, subst, inl, inr, true, false, List, [], ◌∷◌, ◌++◌,
  Option, none, length, In, Bool-cases, arith, ◌⊎◌,
}
use chibidb.Prelude.Bytes.{lt_bytes, lt_bytes_trans, lt_bytes_connex}
use chibidb.Prelude.Holds.{Holds, Holds-left, Holds-right}
use chibidb.Prelude.Result.{ok}
use chibidb.Storage.Lsm.Bloom
use chibidb.Storage.Lsm.Bloom.{maybe_contains}
use chibidb.Storage.Lsm.Bloom.Membership
use chibidb.Storage.Lsm.Bloom.Membership.{maybe_contains-finish}
use chibidb.Storage.Lsm.Block.Build.{Fit}
use chibidb.Storage.Lsm.Block.Seek.{
  Over, Ascending, Answers, Answers-later, Answers-none, Over-absent, Over-weaker,
}
use chibidb.Storage.Lsm.Sstable.{SsTable, handle_for, get_in_block, bloom_bits_per_key}
use chibidb.Storage.Lsm.Sstable.Built.{Fit-left, Fit-right, filter_of}
use chibidb.Storage.Lsm.Sstable.Groups.{Pairs, concat, keys_of, last_of, NoneEmpty, image, images}
use chibidb.Storage.Lsm.Sstable.Parse.{handles, read_block-image}

-- Whatever is over the last key of a run is over each key of it.
below_last :
    (j v key : List ℕ) (kvs : Pairs)
    → Ascending ((j, v) ∷ kvs)
    → lt_bytes (last_of j kvs) key ≡ true
    → lt_bytes j key ≡ true
below_last j v key [] sorted lt = lt
below_last j v key ((i, w) ∷ kvs) ((first, over), sorted) lt =
    lt_bytes_trans j i key first (below_last i w key kvs sorted lt)

Ascending-left : (xs ys : Pairs) → Ascending (xs ++ ys) → Ascending xs
Ascending-left [] ys sorted = tt
Ascending-left ((k, v) ∷ xs) ys (over, sorted) =
    (Over-left k xs ys over, Ascending-left xs ys sorted)
  where
    Over-left : (k : List ℕ) (xs ys : Pairs) → Over k (xs ++ ys) → Over k xs
    Over-left k [] ys over = tt
    Over-left k ((j, v) ∷ xs) ys (lt, over) = (lt, Over-left k xs ys over)

Ascending-right : (xs ys : Pairs) → Ascending (xs ++ ys) → Ascending ys
Ascending-right [] ys sorted = sorted
Ascending-right ((k, v) ∷ xs) ys (over, sorted) = Ascending-right xs ys sorted

-- What follows a run is over its last key.
Over-last :
    (k v : List ℕ) (xs ys : Pairs) → Ascending ((k, v) ∷ (xs ++ ys)) → Over (last_of k xs) ys
Over-last k v [] ys (over, sorted) = over
Over-last k v ((j, w) ∷ xs) ys (over, sorted) = Over-last j w xs ys sorted

-- A run whose last key is below the one looked for does not hold it.
pub Answers-skip :
    (key : List ℕ) (g rest : Pairs) (answer : Option (List ℕ))
    → 1 ≤ length g
    → Ascending g
    → lt_bytes (last_of [] g) key ≡ true
    → Answers key rest answer
    → Answers key (g ++ rest) answer
Answers-skip key [] rest answer some_pair sorted lt answers = answers
Answers-skip key ((k, v) ∷ []) rest answer some_pair sorted lt answers =
    Answers-later key k v rest answer lt answers
Answers-skip key ((k, v) ∷ (j, w) ∷ g) rest answer some_pair sorted lt answers =
    Answers-later key k v ((j, w) ∷ (g ++ rest)) answer (below_last k v key ((j, w) ∷ g) sorted lt)
      (Answers-skip key ((j, w) ∷ g) rest answer (omega arith) (sorted.1) lt answers)

In-append_cases : {A : Type 0} (x : A) (xs ys : List A) → In x (xs ++ ys) → In x xs ⊎ In x ys
In-append_cases x [] ys i = inr i
In-append_cases x (y ∷ xs) ys (inl e) = inl (inl e)
In-append_cases x (y ∷ xs) ys (inr i) = elim (In-append_cases x xs ys i) [
  | inl j ↦ inl (inr j)
  | inr j ↦ inr j
]

In-append_left : {A : Type 0} (x : A) (xs ys : List A) → In x xs → In x (xs ++ ys)
In-append_left x (y ∷ xs) ys (inl e) = inl e
In-append_left x (y ∷ xs) ys (inr i) = inr (In-append_left x xs ys i)
In-append_left x [] ys i = elim i [ ]

-- A run whose last key is not below the one looked for answers for what follows, too.
Answers-front :
    (key : List ℕ) (g rest : Pairs) (answer : Option (List ℕ))
    → 1 ≤ length g
    → Ascending (g ++ rest)
    → lt_bytes (last_of [] g) key ≡ false
    → Answers key g answer
    → Answers key (g ++ rest) answer
unfolding Answers
Answers-front key [] rest answer some_pair sorted ge answers value =
    absurd (omega (arith, some_pair))
Answers-front key ((k, v) ∷ g) rest answer some_pair sorted ge answers value =
    let (found, finds) = answers value in
    let after : Over (last_of k g) rest = Over-last k v g rest sorted in
    let over : Over key rest = elim (Bool-cases (lt_bytes key (last_of k g))) [
      | inl lt ↦ Over-weaker key (last_of k g) rest lt after
      | inr le ↦ subst (λ (x : List ℕ). Over x rest) (lt_bytes_connex (last_of k g) key ge le) after
    ] in
    (
      λ e. In-append_left (key, value) ((k, v) ∷ g) rest (found e),
      λ i. elim (In-append_cases (key, value) ((k, v) ∷ g) rest i) [
        | inl j ↦ finds j
        | inr j ↦ absurd (Over-absent key value rest over j)
      ],
    )

module _ (interval : ℕ) (t : SsTable) (key : List ℕ) (short : length (t.bytes) < 2 ^ 32) where
  pub get_in_block-images :
      (start : ℕ) (groups : List Pairs)
      → Fit (concat groups)
      → Ascending (concat groups)
      → NoneEmpty groups
      → Holds (t.bytes) start (images interval groups)
      → (answer : Option (List ℕ)) × (get_in_block t key
            (handle_for key (handles interval start groups))
          ≡ ok answer)
        × Answers key (concat groups) answer
  unfolding get_in_block handle_for handles images
  get_in_block-images start [] fit sorted full h = (none, refl, Answers-none key [] tt)
  get_in_block-images start (g ∷ groups) fit sorted (some_pair, full) h =
      let rest = concat groups in
      elim (Bool-cases (lt_bytes (last_of [] g) key)) [
        | inl lt ↦
            let (answer, result, answers) =
              get_in_block-images (start + length (image interval g)) groups (Fit-right g rest fit)
                (Ascending-right g rest sorted) full
                (Holds-right (t.bytes) start (image interval g) (images interval groups) h) in
            (
              answer,
              rw lt result,
              Answers-skip key g rest answer some_pair (Ascending-left g rest sorted) lt answers,
            )
        | inr ge ↦
            let (block, parsed, all, first, lookup) =
              read_block-image interval (t.bytes) start g short (Fit-left g rest fit)
                (Holds-left (t.bytes) start (image interval g) (images interval groups) h) in
            let (answer, result, answers) = lookup (Ascending-left g rest sorted) key in
            (
              answer,
              rw (ge, parsed) result,
              Answers-front key g rest answer some_pair sorted ge answers,
            )
      ]

-- The filter passes over no key of the pairs.
filter_of_passes :
    (key value : List ℕ) (kvs : Pairs)
    → In (key, value) kvs
    → maybe_contains (filter_of kvs) key ≡ true
filter_of_passes key value kvs there =
    let (front, back, e) = keys_split key value kvs there in
    subst
      (λ (keys : List (List ℕ)).
        maybe_contains (Bloom.finish (Membership.add_all (Bloom.new bloom_bits_per_key) keys)) key
        ≡ true)
      (sym e) (maybe_contains-finish bloom_bits_per_key front key back)
  where
    keys_split :
        (key value : List ℕ) (kvs : Pairs)
        → In (key, value) kvs
        → (front : List (List ℕ)) × (back : List (List ℕ)) × (keys_of kvs ≡ front ++ (key ∷ back))
    keys_split key value [] i = elim i [ ]
    keys_split key value ((k, v) ∷ kvs) (inl e) =
        ([], keys_of kvs, ap (λ (p : List ℕ × List ℕ). p.0 ∷ keys_of kvs) (sym e))
    keys_split key value ((k, v) ∷ kvs) (inr i) =
        let (front, back, e) = keys_split key value kvs i in
        (k ∷ front, back, ap (λ (keys : List (List ℕ)). k ∷ keys) e)

pub Answers-filter :
    (key : List ℕ) (kvs : Pairs) → maybe_contains (filter_of kvs) key ≡ false → Answers key kvs none
unfolding Answers
Answers-filter key kvs rejected value =
    (λ e. ground (arith, e), λ i. ground (arith, rejected, filter_of_passes key value kvs i))
