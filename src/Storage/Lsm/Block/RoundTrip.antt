-- ===== src/Storage/Lsm/Block/RoundTrip.antt =====
-- A block that is built, encoded, parsed and read.
use chibidb.Storage.Lsm.Block.Asserts.{debug_add_all, debug_add_all-Ascending}
use chibidb.Prelude.{
  ℕ, suc, ◌%◌, ◌^◌, ◌≤◌, ◌<◌, ◌≡◌, refl, sym, ap, subst, ◌∙◌, ◌⊎◌, inl, inr, true, ltb, List, [],
  ◌∷◌, ◌++◌, Option, none, length, In, length-append, Bool-cases, arith, some,
}
use chibidb.Prelude.Holds.{Holds, Holds-all}
use chibidb.Prelude.Result.{ok}
use chibidb.Storage.Lsm.Coding.{to_le_bytes}
use chibidb.Storage.Lsm.Block.{
  BlockBuilder, new_builder, add_entry, is_empty, finish, Block, check_restarts, parse, entries,
  get_value, first_key,
}
use chibidb.Storage.Lsm.Block.Entries.{
  item_bytes, items_bytes, length-item_pos, Chain, collect_entries-items,
}
use chibidb.Storage.Lsm.Block.Restarts.{
  words, check_restarts-weaker, check_restarts-append, parse-put_restarts,
}
use chibidb.Storage.Lsm.Block.Build.{
  Fit, add_all, item_of, items_of, pairs-items_of, items_of-Chain, buffer-add_entry, buffer-add_all,
}
use chibidb.Storage.Lsm.Block.Seek.{Ascending, Answers}
use chibidb.Storage.Lsm.Block.Get.{
  items_bytes_empty, Stores, get_value-Stores, first_of, first_key-Stores,
}
use chibidb.Storage.Lsm.Block.Marks.{
  restarts-new, is_empty-length, is_empty_pos, length-items_pos, restarts_grow,
}

-- The restarts would parse, behind the entries there are; no more entries than bytes stand behind the last.
unfoldable pub Sound : BlockBuilder → Type 0
Sound b =
    (check_restarts (length (b.buffer)) none (b.restarts) ≡ ok tt)
    × (length (b.restarts) ≤ suc (length (b.buffer)))
    × (b.counter ≤ length (b.buffer))
    × (1 ≤ b.restart_interval)
    × (1 ≤ length (b.restarts))

module _ (b : BlockBuilder) (key value : List ℕ) (small : length key < 2 ^ 32)
    (fits : length value < 2 ^ 32) where
  grown : suc (length (b.buffer)) ≤ length ((add_entry b key value).buffer)
  grown = omega (
    arith,
    ap length (buffer-add_entry b key value small fits),
    length-append (b.buffer) (item_bytes (item_of b key value)),
    length-item_pos (item_of b key value),
  )

  add_entry-Sound :
      length ((add_entry b key value).buffer) < 2 ^ 32 → Sound b → Sound (add_entry b key value)
  unfolding Sound add_entry
  add_entry-Sound short (checked, few, count, interval, some_restart) =
      elim (Bool-cases (ltb (b.counter) (b.restart_interval))) [
        | inl c ↦
            let more = rw c at grown in
            rw c (
              check_restarts-weaker (length (b.buffer)) _ none (b.restarts) (omega (arith, more))
                  checked,
              omega (arith, more),
              omega (arith, more),
              interval,
              some_restart,
            )
        | inr c ↦
            let more = rw c at grown in
            let less = rw c at short in
            let cut : length (b.buffer) % 2 ^ 32 ≡ length (b.buffer) = omega (arith, more, less) in
            rw (c, cut)
              (
                check_restarts-append _ (length (b.buffer)) none (b.restarts) (ground (arith, c))
                    more refl checked,
                omega (arith, more, length-append (b.restarts) (length (b.buffer) ∷ [])),
                omega (arith, more),
                interval,
                omega (arith, length-append (b.restarts) (length (b.buffer) ∷ [])),
              )
      ]

add_all-Sound :
    (b : BlockBuilder) (kvs : List (List ℕ × List ℕ))
    → Fit kvs
    → length ((add_all b kvs).buffer) < 2 ^ 32
    → Sound b
    → Sound (add_all b kvs)
unfolding add_all Fit
add_all-Sound b [] fit short sound = sound
add_all-Sound b ((key, value) ∷ kvs) (small, fits, rest) short sound =
    let next = add_entry b key value in
    let size = ap length (buffer-add_all next kvs rest) in
    let sum = length-append (next.buffer) (items_bytes (items_of next kvs)) in
    add_all-Sound next kvs rest short
      (add_entry-Sound b key value small fits (omega (arith, short, size, sum)) sound)

-- The block that `finish` writes of a builder.
abbrev encoded : BlockBuilder → List ℕ → Block
encoded b rs = record {
  bytes = b.buffer ++ (words rs ++ to_le_bytes 4 (length rs));
  restarts = rs;
  restart_array_start = length (b.buffer);
}

finish-Sound :
    (b : BlockBuilder)
    → Sound b
    → suc (length (b.buffer)) < 2 ^ 32
    → (rs : List ℕ) × (parse ((finish b).0) ≡ ok (encoded b rs))
      × ((r : ℕ) → In r rs → In r (b.restarts) × (1 ≤ length (b.buffer)))
      × (is_empty rs ≡ true → length (b.buffer) ≡ 0)
      × ((rs ≡ []) ⊎ (rs ≡ b.restarts))
unfolding finish Sound
finish-Sound b (checked, few, count, interval, some_restart) short =
    elim (Bool-cases (is_empty (b.buffer))) [
      | inl c ↦ (
        [],
        rw c (
            parse-put_restarts (b.buffer) [] (omega arith) (omega arith)
              (unfold check_restarts in refl)),
        λ r there. elim there [ ],
        λ e. is_empty-length (b.buffer) c,
        inl refl,
      )
      | inr c ↦ (
        b.restarts,
        rw c (parse-put_restarts (b.buffer) (b.restarts) (omega arith) (omega arith) checked),
        λ r there. (there, is_empty_pos (b.buffer) c),
        λ e. absurd (omega (arith, is_empty-length (b.restarts) e, some_restart)),
        inr refl,
      )
    ]

module _ (interval : ℕ) (kvs : List (List ℕ × List ℕ)) (fit : Fit kvs)
    (short : suc (length ((add_all (new_builder interval) kvs).buffer)) < 2 ^ 32) where
  from_zero :
      (rs : List ℕ)
      → (rs ≡ []) ⊎ (rs ≡ (add_all (new_builder interval) kvs).restarts)
      → (rs ≡ []) ⊎ ((more : List ℕ) × (rs ≡ 0 ∷ more))
  from_zero rs (inl e) = inl e
  from_zero rs (inr e) =
      let (more, f) = restarts_grow (new_builder interval) kvs in
      inr (more, e ∙ (unfold new_builder in f))

  -- A block of a new builder parses to what stores the entries that were added.
  parse-Stores :
      (block : Block) × (parse ((finish (add_all (new_builder interval) kvs)).0) ≡ ok block)
      × Stores block (items_of (new_builder interval) kvs)
      × ((block.restarts ≡ []) ⊎ ((more : List ℕ) × (block.restarts ≡ 0 ∷ more)))
  unfolding Stores
  parse-Stores =
      let new = new_builder interval in
      let b = add_all new kvs in
      let items = items_of new kvs in
      let fresh : Sound new =
        unfold Sound new_builder check_restarts in
        (refl, omega arith, omega arith, ground arith, omega arith) in
      let (rs, parsed, kept, cleared, which) =
        finish-Sound b (add_all-Sound new kvs fit (omega (arith, short)) fresh) short in
      let body : b.buffer ≡ items_bytes items = unfold new_builder in buffer-add_all new kvs fit in
      let tail = words rs ++ to_le_bytes 4 (length rs) in
      let chain : Chain [] items = unfold new_builder in items_of-Chain new kvs fit in
      let whole : Holds (b.buffer ++ tail) 0 (items_bytes items) =
        subst (λ (front : List ℕ). Holds (front ++ tail) 0 (items_bytes items)) (sym body)
          (Holds-all (items_bytes items) tail) in
      (
        encoded b rs,
        parsed,
        (
          chain,
          whole,
          sym (ap length body),
          λ r there.
              let (old, pos) = kept r there in
              let some_items : items ≡ [] → ⊥ =
                λ e. length-items_pos items (omega (arith, pos, ap length body)) e in
              restarts-new interval kvs fit (omega (arith, short)) some_items r old,
          λ e. items_bytes_empty items (omega (arith, cleared e, ap length body)),
        ),
        from_zero rs which,
      )

  pub parse-image :
      (block : Block) × (parse ((finish (add_all (new_builder interval) kvs)).0) ≡ ok block)
      × (entries block ≡ ok kvs)
      × (first_key block ≡ ok (first_of kvs))
      × (Ascending kvs
          → (key : List ℕ)
          → (answer : Option (List ℕ)) × (get_value block key ≡ ok answer) × Answers key kvs answer)
  unfolding entries Stores
  parse-image =
      let items = items_of (new_builder interval) kvs in
      let same = pairs-items_of (new_builder interval) kvs in
      let (block, parsed, stores, zeroth) = parse-Stores in
      let (chain, whole, end, splits, u) = stores in
      (
        block,
        parsed,
        collect_entries-items block (block.restart_array_start) [] [] 0 items chain whole
              (omega (arith, end)) (omega (arith, end))
            ∙ ap ok same,
        first_key-Stores block items stores zeroth
            ∙ ap (λ (all : List (List ℕ × List ℕ)). ok (first_of all)) same,
        λ sorted key.
            let (answer, result, answers) =
              get_value-Stores block items stores key (subst Ascending (sym same) sorted) in
            (
              answer,
              result,
              subst (λ (all : List (List ℕ × List ℕ)). Answers key all answer) same answers,
            ),
      )

  -- Entries whose keys ascend, whose keys and values are below 2 ^ 32 bytes long and that take at most
  -- 2 ^ 32 - 2 bytes: no debug assertion fails while they are added, and the block that is built of them
  -- parses, and `entries` gives back what was added, in its order.
  pub entries-parse :
      Ascending kvs
      → (b : BlockBuilder) × (block : Block) × (debug_add_all (new_builder interval) kvs ≡ some b)
        × (parse ((finish b).0) ≡ ok block)
        × (entries block ≡ ok kvs)
  entries-parse sorted =
      let (block, parsed, all, first, lookup) = parse-image in
      (
        add_all (new_builder interval) kvs,
        block,
        debug_add_all-Ascending interval kvs sorted,
        parsed,
        all,
      )

  -- A block built of at most 2 ^ 32 - 2 bytes of entries, whose keys ascend and whose keys and values
  -- are below 2 ^ 32 bytes long, parses, and a lookup of any key gives the value that was added with it,
  -- and none if none was.
  pub get_value-parse :
      Ascending kvs
      → (block : Block) × (parse ((finish (add_all (new_builder interval) kvs)).0) ≡ ok block)
        × ((key : List ℕ)
            → (answer : Option (List ℕ)) × (get_value block key ≡ ok answer)
              × Answers key kvs answer)
  get_value-parse sorted =
      let (block, parsed, all, first, lookup) = parse-image in (block, parsed, lookup sorted)
