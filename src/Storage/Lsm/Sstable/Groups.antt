-- ===== src/Storage/Lsm/Sstable/Groups.antt =====
-- What a table builder has flushed and what it has not: the pairs of each data block, in their order.
use mathlib.Core.Path.{ap₂}
use chibidb.Prelude.{
  ℕ, ◌+◌, ◌≤◌, ◌≡◌, refl, sym, ap, ◌∙◌, inl, inr, true, leb, List, [], ◌∷◌, ◌++◌, length,
  length-append, Bool-cases, arith,
}
use chibidb.Storage.Lsm.Bloom
use chibidb.Storage.Lsm.Bloom.{BloomBuilder}
use chibidb.Storage.Lsm.Bloom.Membership
use chibidb.Storage.Lsm.Block
use chibidb.Storage.Lsm.Block.{
  BlockBuilder, new_builder, add_entry, is_empty, is_fresh, current_size_estimate,
}
use chibidb.Storage.Lsm.Block.Build.{Fit, add_all}
use chibidb.Storage.Lsm.Block.Reset.{finish_reset, is_fresh_empty, is_fresh_nonempty}
use chibidb.Storage.Lsm.Sstable.{
  BlockHandle, encode_handle, SsTableBuilder, flush_block, add_pair, bloom_bits_per_key,
}
use mathlib.Core.List.{append_assoc, append-nil}

abbrev pub Pairs : Type 0
Pairs = List (List ℕ × List ℕ)

abbrev pub last_of : List ℕ → Pairs → List ℕ
last_of k [] = k
last_of k ((key, value) ∷ kvs) = last_of key kvs

abbrev pub keys_of : Pairs → List (List ℕ)
keys_of [] = []
keys_of ((key, value) ∷ kvs) = key ∷ keys_of kvs

abbrev pub concat : List Pairs → Pairs
concat [] = []
concat (g ∷ groups) = g ++ concat groups

abbrev pub NoneEmpty : List Pairs → Type 0
NoneEmpty [] = Unit {0}
NoneEmpty (g ∷ groups) = (1 ≤ length g) × NoneEmpty groups

module _ (interval : ℕ) where
  -- The data block of some pairs.
  unfoldable pub image : Pairs → List ℕ
  image kvs = (Block.finish (add_all (new_builder interval) kvs)).0

  unfoldable pub images : List Pairs → List ℕ
  images [] = []
  images (g ∷ groups) = image g ++ images groups

  abbrev pub handle_of : ℕ → Pairs → BlockHandle
  handle_of start g = record { offset = start; size = length (image g) }

  -- The index of the blocks, where the first stands at `start`.
  unfoldable pub marks : ℕ → List Pairs → Pairs
  marks start [] = []
  marks start (g ∷ groups) =
      (last_of [] g, encode_handle (handle_of start g)) ∷ marks (start + length (image g)) groups

  unfoldable pub Building : SsTableBuilder → List Pairs → Pairs → Type 0
  Building b groups pending =
      (b.bytes ≡ images groups)
      × (b.index_block ≡ add_all (new_builder interval) (marks 0 groups))
      × (b.current ≡ add_all (new_builder interval) pending)
      × ((k : List ℕ) × (b.last_key ≡ last_of k pending))
      × (b.bloom
          ≡ Membership.add_all (Bloom.new bloom_bits_per_key) (keys_of (concat groups ++ pending)))
      × NoneEmpty groups

add_all-append :
    (b : BlockBuilder) (kvs : Pairs) (key value : List ℕ)
    → add_all b (kvs ++ ((key, value) ∷ [])) ≡ add_entry (add_all b kvs) key value
unfolding add_all
add_all-append b [] key value = refl
add_all-append b ((k, v) ∷ kvs) key value = add_all-append (add_entry b k v) kvs key value

bloom-append :
    (b : BloomBuilder) (kvs : Pairs) (key value : List ℕ)
    → Membership.add_all b (keys_of (kvs ++ ((key, value) ∷ [])))
      ≡ Bloom.add (Membership.add_all b (keys_of kvs)) key
bloom-append b [] key value = refl
bloom-append b ((k, v) ∷ kvs) key value = bloom-append (Bloom.add b k) kvs key value

last_of-append :
    (k : List ℕ) (kvs : Pairs) (key value : List ℕ) → last_of k (kvs ++ ((key, value) ∷ [])) ≡ key
last_of-append k [] key value = refl
last_of-append k ((j, v) ∷ kvs) key value = last_of-append j kvs key value

last_of_any : (k j : List ℕ) (kvs : Pairs) → 1 ≤ length kvs → last_of k kvs ≡ last_of j kvs
last_of_any k j [] h = absurd (omega (arith, h))
last_of_any k j ((key, value) ∷ kvs) h = refl

concat-append : (groups : List Pairs) (g : Pairs) → concat (groups ++ (g ∷ [])) ≡ concat groups ++ g
concat-append [] g = append-nil g
concat-append (f ∷ groups) g =
    ap (λ (kvs : Pairs). f ++ kvs) (concat-append groups g) ∙ sym (append_assoc f (concat groups) g)

NoneEmpty-append :
    (groups : List Pairs) (g : Pairs)
    → 1 ≤ length g
    → NoneEmpty groups
    → NoneEmpty (groups ++ (g ∷ []))
NoneEmpty-append [] g some_pair h = (some_pair, tt)
NoneEmpty-append (f ∷ groups) g some_pair (h, rest) = (h, NoneEmpty-append groups g some_pair rest)

module _ (interval : ℕ) where
  images-append :
      (groups : List Pairs) (g : Pairs)
      → images interval (groups ++ (g ∷ [])) ≡ images interval groups ++ image interval g
  unfolding images
  images-append [] g = append-nil (image interval g)
  images-append (f ∷ groups) g =
      ap (λ (bytes : List ℕ). image interval f ++ bytes) (images-append groups g)
      ∙ sym (append_assoc (image interval f) (images interval groups) (image interval g))

  marks-append :
      (start : ℕ) (groups : List Pairs) (g : Pairs)
      → marks interval start (groups ++ (g ∷ []))
        ≡ marks interval start groups
          ++ ((
            last_of [] g,
            encode_handle (handle_of interval (start + length (images interval groups)) g),
          )
              ∷ [])
  unfolding marks images
  marks-append start [] g =
      ap (λ (at : ℕ). (last_of [] g, encode_handle (handle_of interval at g)) ∷ []) (omega arith)
  marks-append start (f ∷ groups) g =
      ap (λ (rest : Pairs). (last_of [] f, encode_handle (handle_of interval start f)) ∷ rest)
        (marks-append (start + length (image interval f)) groups g
          ∙ ap
              (λ (at : ℕ).
                marks interval (start + length (image interval f)) groups
                ++ ((last_of [] g, encode_handle (handle_of interval at g)) ∷ []))
              (omega (arith, length-append (image interval f) (images interval groups))))

  image_lem :
      (kvs : Pairs) → (Block.finish (add_all (new_builder interval) kvs)).0 ≡ image interval kvs
  unfolding image
  image_lem kvs = refl

  pending_pos : (kvs : Pairs) → (kvs ≡ [] → ⊥) → 1 ≤ length kvs
  pending_pos [] h = absurd (h refl)
  pending_pos (pair ∷ kvs) h = omega arith

  index_append :
      (groups : List Pairs) (g : Pairs) (at size : ℕ)
      → at ≡ length (images interval groups)
      → size ≡ length (image interval g)
      → add_entry
          (add_all (new_builder interval) (marks interval 0 groups))
          (last_of [] g)
          (encode_handle (record { offset = at; size = size }))
        ≡ add_all (new_builder interval) (marks interval 0 (groups ++ (g ∷ [])))
  index_append groups g at size h h' =
      let there : 0 + length (images interval groups) ≡ at = omega (arith, h) in
      rw (h', marks-append 0 groups g, there)
        (sym (
          add_all-append (new_builder interval) (marks interval 0 groups) (last_of [] g)
            (encode_handle (record { offset = at; size = length (image interval g) }))))

  -- A flush makes a data block of what is pending.
  pub flush_block-Building :
      (b : SsTableBuilder) (groups : List Pairs) (pending : Pairs)
      → Fit pending
      → Building interval b groups pending
      → (flushed : List Pairs) × Building interval (flush_block b) flushed []
        × (concat flushed ≡ concat groups ++ pending)
  unfolding flush_block Building add_all
  flush_block-Building b groups pending fit (written, indexed, current, (k, last), bloom, full) =
      elim (Bool-cases (is_fresh (b.current))) [
        | inl c ↦
            let gone : pending ≡ [] =
              is_fresh_empty interval pending fit (ap is_fresh (sym current) ∙ c) in
            (
              groups,
              rw c (
                written,
                indexed,
                current ∙ ap (add_all (new_builder interval)) gone,
                (k, last ∙ ap (last_of k) gone),
                bloom
                    ∙ ap
                        (λ (kvs : Pairs).
                          Membership.add_all (Bloom.new bloom_bits_per_key)
                            (keys_of (concat groups ++ kvs)))
                        gone,
                full,
              ),
              rw gone (sym (append-nil (concat groups))),
            )
        | inr c ↦
            let some_pair : 1 ≤ length pending =
              pending_pos pending
                (is_fresh_nonempty interval pending (ap is_fresh (sym current) ∙ c)) in
            let block = ap (λ (x : BlockBuilder). (Block.finish x).0) current ∙ image_lem pending in
            let all = concat-append groups pending in
            (
              groups ++ (pending ∷ []),
              rw c (
                ap₂ (λ (xs ys : List ℕ). xs ++ ys) written block
                    ∙ sym (images-append groups pending),
                ap₂
                      (λ (x : BlockBuilder) (k : List ℕ). add_entry x k (
                        encode_handle (record {
                          offset = length (b.bytes);
                          size = length ((Block.finish (b.current)).0);
                        })))
                      indexed (last ∙ last_of_any k [] pending some_pair)
                    ∙ index_append groups pending (length (b.bytes))
                        (length ((Block.finish (b.current)).0)) (ap length written)
                        (ap length block),
                ap (λ (x : BlockBuilder). (Block.finish x).1) current
                    ∙ finish_reset interval pending,
                (b.last_key, refl),
                bloom
                    ∙ ap
                        (λ (kvs : Pairs).
                          Membership.add_all (Bloom.new bloom_bits_per_key) (keys_of kvs))
                        (sym all ∙ sym (append-nil (concat (groups ++ (pending ∷ []))))),
                NoneEmpty-append groups pending some_pair full,
              ),
              all,
            )
      ]

  pub add_pair-Building :
      (b : SsTableBuilder) (groups : List Pairs) (pending : Pairs) (key value : List ℕ)
      → Fit (pending ++ ((key, value) ∷ []))
      → Building interval b groups pending
      → (groups' : List Pairs) × (pending' : Pairs) × Building interval
          (add_pair b key value)
          groups'
          pending'
        × (concat groups' ++ pending' ≡ (concat groups ++ pending) ++ ((key, value) ∷ []))
  unfolding add_pair
  add_pair-Building b groups pending key value fit building =
      let more = pending ++ ((key, value) ∷ []) in
      let added : SsTableBuilder = record b {
        started = true;
        last_key = key;
        current = add_entry (b.current) key value;
        bloom = Bloom.add (b.bloom) key;
        num_entries = b.num_entries + 1;
      } in
      let next : Building interval added groups more =
        unfold Building in
        let (written, indexed, current, (k, last), bloom, full) = building in
        (
          written,
          indexed,
          ap (λ (x : BlockBuilder). add_entry x key value) current
              ∙ sym (add_all-append (new_builder interval) pending key value),
          ([], sym (last_of-append [] pending key value)),
          ap (λ (x : BloomBuilder). Bloom.add x key) bloom
              ∙ sym
                  (bloom-append (Bloom.new bloom_bits_per_key) (concat groups ++ pending) key value)
              ∙ ap
                  (λ (kvs : Pairs). Membership.add_all (Bloom.new bloom_bits_per_key) (keys_of kvs))
                  (append_assoc (concat groups) pending ((key, value) ∷ [])),
          full,
        ) in
      let all = append_assoc (concat groups) pending ((key, value) ∷ []) in
      elim (Bool-cases (leb (b.block_size) (current_size_estimate (added.current)))) [
        | inl c ↦
            let (flushed, after, e) = flush_block-Building added groups more fit next in
            (flushed, [], rw c after, append-nil (concat flushed) ∙ e ∙ sym all)
        | inr c ↦ (groups, more, rw c next, sym all)
      ]
