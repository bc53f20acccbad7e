-- ===== src/Storage/Lsm/Bloom/Membership.antt =====
-- A filter never rejects a key that was added.
use chibidb.Prelude.{
  ℕ, zero, ◌-◌, ◌*◌, ◌/◌, ◌%◌, ◌<◌, ◌≡◌, refl, sym, ap, subst, ◌∙◌, inl, inr, true, false, leb, ltb,
  map, get_or_beyond, ◌==◌, List, [], ◌∷◌, ◌++◌, length, length-append, length-replicate, get_or,
  replicate, get_or-replicate, get_or-append_left, Bool-cases, arith,
}
use chibidb.Storage.Lsm.Bloom.{
  BloomBuilder, new, hash, add, probes, delta, set_probes, set_hashes, byte_count, finish,
  test_probes, maybe_contains,
}
use chibidb.Storage.Lsm.Bloom.BitArray.{IsArray, Within, set_probes-Within, test_probes-Within}
use native.Mathlib.Nat.{mod-lt}
use chibidb.Prelude.Bits.{bit_test_zero}
use mathlib.Core.List.{append-nil, append_assoc}

set_hashes-Within :
    (rounds bits : ℕ) (hs : List ℕ) (bytes : List ℕ)
    → IsArray bits bytes
    → IsArray bits (set_hashes rounds bits hs bytes)
      × Within bytes (set_hashes rounds bits hs bytes)
unfolding set_hashes
set_hashes-Within rounds bits [] bytes a = (a, λ q e. e)
set_hashes-Within rounds bits (h ∷ hs) bytes a =
    let (a1, w1) = set_probes-Within rounds bits (delta h) (h % bits) bytes a (mod-lt h a.filled) in
    let (a2, w2) =
      set_hashes-Within rounds bits hs (set_probes rounds bits (delta h) (h % bits) bytes) a1 in
    (a2, λ q e. w2 q (w1 q e))

-- The hashes before, one hash, and the hashes after.
test_hash :
    (rounds bits h : ℕ) (front back : List ℕ) (bytes bytes' : List ℕ)
    → IsArray bits bytes
    → Within (set_hashes rounds bits (front ++ (h ∷ back)) bytes) bytes'
    → test_probes rounds bits (delta h) (h % bits) bytes' ≡ true
unfolding set_hashes
test_hash rounds bits h [] back bytes bytes' a w =
    let (a1, w1) = set_probes-Within rounds bits (delta h) (h % bits) bytes a (mod-lt h a.filled) in
    let (a2, w2) =
      set_hashes-Within rounds bits back (set_probes rounds bits (delta h) (h % bits) bytes) a1 in
    test_probes-Within rounds bits (delta h) (h % bits) bytes bytes' a (mod-lt h a.filled)
      (λ q e. w q (w2 q e))
test_hash rounds bits h (g ∷ front) back bytes bytes' a w =
    let (a1, w1) = set_probes-Within rounds bits (delta g) (g % bits) bytes a (mod-lt g a.filled) in
    test_hash rounds bits h front back (set_probes rounds bits (delta g) (g % bits) bytes) bytes' a1
      w

empty-IsArray : (n : ℕ) → 0 < n → IsArray (n * 8) (replicate n 0)
empty-IsArray n h = record {
  size = omega (arith, length-replicate n (zero));
  filled = omega arith;
  byte = λ i. omega (arith, get_or-replicate n i zero);
}

abbrev pub add_all : BloomBuilder → List (List ℕ) → BloomBuilder
add_all b [] = b
add_all b (key ∷ keys) = add_all (add b key) keys

-- The byte of the number of probes comes after the array and hides none of its bits.
Within-append : (bytes : List ℕ) (k : ℕ) → Within bytes (bytes ++ (k ∷ []))
Within-append bytes k q on = elim (Bool-cases (ltb (q / 8) (length bytes))) [
  | inl inside ↦ rw (get_or-append_left bytes (k ∷ []) (q / 8) zero (ground arith)) on
  | inr outside ↦ absurd (
      let off = bit_test_zero (q % 8) (omega arith) in
      let r = rw (get_or_beyond bytes (q / 8) zero (ground arith)) at on in cc (off, r))
]

last_byte : (bytes : List ℕ) (k : ℕ) → get_or (bytes ++ (k ∷ [])) (length bytes) 0 ≡ k
last_byte [] k = refl
last_byte (x ∷ bytes) k = last_byte bytes k

test_encoded :
    (n k : ℕ) (bytes key : List ℕ)
    → IsArray (n * 8) bytes
    → 0 < n
    → test_probes k (n * 8) (delta (hash key)) (hash key % (n * 8)) (bytes ++ (k ∷ [])) ≡ true
    → maybe_contains (bytes ++ (k ∷ [])) key ≡ true
unfolding maybe_contains
test_encoded n k bytes key a h t = rw (wide, long, last) t
  where
    wide : leb (length (bytes ++ (k ∷ []))) 1 ≡ false
    wide = ground (arith, length-append bytes (k ∷ []), a.size)

    long : length (bytes ++ (k ∷ [])) - 1 ≡ n
    long = omega (arith, length-append bytes (k ∷ []), a.size)

    last : get_or (bytes ++ (k ∷ [])) n 0 ≡ k
    last =
        subst (λ (i : ℕ). get_or (bytes ++ (k ∷ [])) i 0 ≡ k) (omega (arith, a.size))
          (last_byte bytes k)

-- The array with its last byte, for any number of probes and of bytes.
accepts :
    (k n : ℕ) (hs front back key : List ℕ)
    → hs ≡ front ++ (hash key ∷ back)
    → 0 < n
    → maybe_contains (set_hashes k (n * 8) hs (replicate n 0) ++ (k ∷ [])) key ≡ true
accepts k n hs front back key e h =
    let a = empty-IsArray n h in
    let full = set_hashes k (n * 8) hs (replicate n 0) in
    test_encoded n k full key (set_hashes-Within k (n * 8) hs (replicate n 0) a).0 h (
      test_hash k (n * 8) (hash key) front back (replicate n 0) (full ++ (k ∷ [])) a (
        subst (λ (l : List ℕ). Within (set_hashes k (n * 8) l (replicate n 0)) (full ++ (k ∷ []))) e
          (Within-append full k)))

finish_accepts :
    (b : BloomBuilder) (key : List ℕ) (front back : List ℕ)
    → b.hashes ≡ front ++ (hash key ∷ back)
    → maybe_contains (finish b) key ≡ true
unfolding finish
finish_accepts b key front back e =
    rw (some_hash, small)
      (accepts (probes b.bits_per_key) (byte_count b) b.hashes front back key e (omega arith))
  where
    some_hash : (length b.hashes == 0) ≡ false
    some_hash = ground (arith, ap length e, length-append front (hash key ∷ back))

    small : probes b.bits_per_key % 256 ≡ probes b.bits_per_key
    small = omega arith

hashes-add_all :
    (b : BloomBuilder) (keys : List (List ℕ)) → (add_all b keys).hashes ≡ b.hashes ++ map hash keys
unfolding add
hashes-add_all b [] = sym (append-nil b.hashes)
hashes-add_all b (key ∷ keys) =
    hashes-add_all (add b key) keys ∙ append_assoc b.hashes (hash key ∷ []) (map hash keys)

map-append : (xs ys : List (List ℕ)) → map hash (xs ++ ys) ≡ map hash xs ++ map hash ys
map-append [] ys = refl
map-append (x ∷ xs) ys = ap (λ (zs : List ℕ). hash x ∷ zs) (map-append xs ys)

-- A filter that is built over any keys, with any number of bits for each, answers "maybe" for every
-- one of them: a table is never passed over wrongly.
pub maybe_contains-finish :
    (bits_per_key : ℕ) (front : List (List ℕ)) (key : List ℕ) (back : List (List ℕ))
    → maybe_contains (finish (add_all (new bits_per_key) (front ++ (key ∷ back)))) key ≡ true
unfolding new
maybe_contains-finish bits_per_key front key back =
    finish_accepts (add_all (new bits_per_key) (front ++ (key ∷ back))) key (map hash front)
      (map hash back)
      (hashes-add_all (new bits_per_key) (front ++ (key ∷ back)) ∙ map-append front (key ∷ back))
