-- ===== src/Storage/Replacer/Queues.antt =====
-- The queue policies: which key is evicted.
use chibidb.Prelude.{
  ℕ, suc, ◌≡◌, refl, ap, inl, inr, ◌⊎◌, Bool, true, false, List, [], ◌∷◌, ◌++◌, none, some,
  Bool-cases, All, arith, get_elem?, remove_at,
}
use chibidb.Storage.Replacer.{Key, Vitals, position, unpinned, pick_oldest}

abbrev pub IsPinned : Vitals → Key → Type 0
IsPinned v k = unpinned v k ≡ false

pub position_cases :
    (p : Key → Bool) (ks : List Key)
    → ((position p ks ≡ none) × All (λ k. p k ≡ false) ks)
      ⊎ ((i : ℕ) × (front : List Key) × (k : Key) × (back : List Key) × (position p ks ≡ some i)
          × (ks ≡ front ++ (k ∷ back))
          × All (λ x. p x ≡ false) front
          × (p k ≡ true)
          × (get_elem? ks i ≡ some k)
          × (remove_at ks i ≡ front ++ back))
position_cases p [] = inl (refl, tt)
position_cases p (k ∷ ks) = elim (Bool-cases (p k)) [
  | inl e ↦ inr (0, [], k, ks, rw e, refl, tt, e, refl, refl)
  | inr e ↦ elim (position_cases p ks) [
    | inl (f, a) ↦ inl (rw (e, f), (e, a))
    | inr (i, front, x, back, f, s, a, h, g, r) ↦
        inr (suc i, k ∷ front, x, back, rw (e, f), ap (◌∷◌ k) s, (e, a), h, g, ap (◌∷◌ k) r)
  ]
]

-- A queue evicts the oldest key that is not pinned and keeps the others, pinned ones included, in
-- their order; it evicts nobody, and changes nothing, exactly when every key is pinned.
pub pick_oldest_first :
    (order : List Key) (v : Vitals)
    → (All (IsPinned v) order × (pick_oldest order v ≡ (none, order)))
      ⊎ ((front : List Key) × (key : Key) × (back : List Key) × (order ≡ front ++ (key ∷ back))
          × All (IsPinned v) front
          × (v.pins key ≡ 0)
          × (pick_oldest order v ≡ (some key, front ++ back)))
unfolding pick_oldest
pick_oldest_first order v = elim (position_cases (unpinned v) order) [
  | inl (e, a) ↦ inl (a, rw (e, pick_oldest))
  | inr (i, front, k, back, e, s, a, h, g, r) ↦
      inr (front, k, back, s, a, ground arith, rw (e, pick_oldest) (rw (g, r)))
]
