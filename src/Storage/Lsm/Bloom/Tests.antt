-- ===== src/Storage/Lsm/Bloom/Tests.antt =====
-- Runs of the filter, and the theorem at concrete keys.
use chibidb.Prelude.{ℕ, ◌≡◌, refl, true, false, List, [], ◌∷◌, ◌++◌}
use chibidb.Storage.Lsm.Bloom.{
  new, hash_from, hash, add, delta, set_bit, set_probes, set_hashes, finish, test_probes,
  maybe_contains,
}
use chibidb.Storage.Lsm.Bloom.Membership.{add_all, maybe_contains-finish}

program : Unit {0}
unfolding new hash_from hash add delta set_bit set_probes set_hashes finish test_probes
    maybe_contains
program = tt

abbrev a : List ℕ
a = 97 ∷ []

abbrev b : List ℕ
b = 98 ∷ []

hash_run : hash a ≡ 0xaf63dc4c8601ec8c
unfolding program
hash_run = refl

held_run : maybe_contains (finish (add (new 10) a)) a ≡ true
unfolding program
held_run = refl

absent_run : maybe_contains (finish (add (new 10) a)) b ≡ false
unfolding program
absent_run = refl

empty_run : maybe_contains (finish (new 10)) b ≡ true
unfolding program
empty_run = refl

maybe_contains-finish_example :
    maybe_contains (finish (add_all (new 10) ((a ∷ []) ++ (b ∷ [])))) b ≡ true
maybe_contains-finish_example = maybe_contains-finish 10 (a ∷ []) b []
