-- ===== src/Storage/Lsm/Block/Asserts.antt =====
-- With its debug assertions on, a builder takes keys that ascend.
use chibidb.Prelude.{
  ◌≡◌, refl, sym, ap, ◌⊎◌, inl, inr, true, List, [], ◌∷◌, Option, none, some, ℕ, arith, subst,
}
use chibidb.Prelude.Bytes.{lt_bytes}
use chibidb.Storage.Lsm.Block.{
  BlockBuilder, new_builder, add_entry, add_asserts, debug_add, is_empty,
}
use chibidb.Storage.Lsm.Block.Build.{add_all, last_key-add_entry}
use chibidb.Storage.Lsm.Block.Seek.{Over, Ascending}

unfoldable pub debug_add_all : BlockBuilder → List (List ℕ × List ℕ) → Option BlockBuilder
debug_add_all b [] = some b
debug_add_all b ((key, value) ∷ kvs) = elim (debug_add b key value) [
  | none ↦ none
  | some next ↦ debug_add_all next kvs
]

pub add_asserts_holds :
    (b : BlockBuilder) (key : List ℕ)
    → (b.last_key ≡ []) ⊎ (lt_bytes (b.last_key) key ≡ true)
    → add_asserts b key ≡ true
unfolding add_asserts
add_asserts_holds b key (inl e) = ground (arith, ap is_empty e)
add_asserts_holds b key (inr lt) = ground (arith, lt)

debug_add_all-Over :
    (b : BlockBuilder) (kvs : List (List ℕ × List ℕ))
    → (b.last_key ≡ []) ⊎ Over (b.last_key) kvs
    → Ascending kvs
    → debug_add_all b kvs ≡ some (add_all b kvs)
unfolding debug_add_all add_all debug_add
debug_add_all-Over b [] over sorted = refl
debug_add_all-Over b ((key, value) ∷ kvs) over (above, sorted) =
    let first : (b.last_key ≡ []) ⊎ (lt_bytes (b.last_key) key ≡ true) = elim over [
      | inl e ↦ inl e
      | inr (lt, rest) ↦ inr lt
    ] in
    let next : Over ((add_entry b key value).last_key) kvs =
      subst (λ (k : List ℕ). Over k kvs) (sym (last_key-add_entry b key value)) above in
    rw (debug_add_all, add_asserts_holds b key first)
      (debug_add_all-Over (add_entry b key value) kvs (inr next) sorted)

pub debug_add_all-Ascending :
    (interval : ℕ) (kvs : List (List ℕ × List ℕ))
    → Ascending kvs
    → debug_add_all (new_builder interval) kvs ≡ some (add_all (new_builder interval) kvs)
debug_add_all-Ascending interval kvs sorted =
    debug_add_all-Over (new_builder interval) kvs (unfold new_builder in inl refl) sorted
