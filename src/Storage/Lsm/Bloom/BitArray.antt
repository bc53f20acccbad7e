-- ===== src/Storage/Lsm/Bloom/BitArray.antt =====
-- The bits of a filter, and that setting probes never clears one.
use chibidb.Prelude.{
  ℕ, zero, suc, ◌+◌, ◌*◌, ◌/◌, ◌%◌, ◌^◌, ◌<◌, ◌≡◌, ◌≢◌, refl, sym, ap, Bool, true, false, ◌||◌,
  ◌==◌, List, length, length-set, get_or, get_or-set_self, get_or-set_ne, ℕ_discrete, arith,
}
use chibidb.Prelude.Bits.{bit_test, bit_test-bit_or, bit_or_below}
use chibidb.Storage.Lsm.Bloom.{step, set_bit, set_probes, test_probes}
use Prim.Native.Nat.{bit_or}
use native.Mathlib.Nat.{mod-lt}

abbrev pub bit_at : List ℕ → ℕ → Bool
bit_at bytes p = bit_test (get_or bytes (p / 8) 0) (p % 8)

-- `bits` bits in whole bytes.
pub record IsArray (bits : ℕ) (bytes : List ℕ) : Type 0 where
  pub size : bits ≡ length bytes * 8
  pub filled : 0 < bits
  pub byte : (i : ℕ) → get_or bytes i 0 < 256

pub bit_at-set_bit :
    (bits : ℕ) (bytes : List ℕ) (p q : ℕ)
    → IsArray bits bytes
    → p < bits
    → bit_at (set_bit bytes p) q ≡ ((p == q) || bit_at bytes q)
unfolding set_bit
bit_at-set_bit bits bytes p q a h = elim (ℕ_discrete (p / 8) (q / 8)) [
  | yes e ↦ rw (sym e) (
      rw
        (
          get_or-set_self bytes (p / 8) (bit_or (get_or bytes (p / 8) 0) (2 ^ (p % 8))) 0
              (omega (arith, a.size)),
          bit_test-bit_or (get_or bytes (p / 8) 0) (p % 8) (q % 8) (a.byte (p / 8)) (omega arith)
              (omega arith),
        )
        (ap (λ (b : Bool). b || bit_test (get_or bytes (p / 8) 0) (q % 8)) (same_bit e)))
  | no n ↦
      rw (get_or-set_ne bytes (p / 8) (q / 8) (bit_or (get_or bytes (p / 8) 0) (2 ^ (p % 8))) 0 n)
        (sym (ap (λ (b : Bool). b || bit_at bytes q) (other_byte n)))
]
  where
    same_bit : p / 8 ≡ q / 8 → (p % 8 == q % 8) ≡ (p == q)
    same_bit e = ground arith

    other_byte : p / 8 ≢ q / 8 → (p == q) ≡ false
    other_byte n = ground arith

set_bit-IsArray :
    (bits : ℕ) (bytes : List ℕ) (p : ℕ)
    → IsArray bits bytes
    → p < bits
    → IsArray bits (set_bit bytes p)
unfolding set_bit
set_bit-IsArray bits bytes p a h = record {
  size =
      omega
        (arith, a.size, length-set bytes (p / 8) (bit_or (get_or bytes (p / 8) 0) (2 ^ (p % 8))));
  filled = a.filled;
  byte = λ i. elim (ℕ_discrete (p / 8) i) [
    | yes e ↦ rw (sym e) (
        rw
          (get_or-set_self bytes (p / 8) (bit_or (get_or bytes (p / 8) 0) (2 ^ (p % 8))) 0
            (omega (arith, a.size)))
          (bit_or_below (get_or bytes (p / 8) 0) (p % 8) (a.byte (p / 8)) (omega arith)))
    | no n ↦
        rw (get_or-set_ne bytes (p / 8) i (bit_or (get_or bytes (p / 8) 0) (2 ^ (p % 8))) 0 n)
          (a.byte i)
  ];
}

step-below : (bits d pos : ℕ) → 0 < bits → step bits d pos < bits
step-below bits d pos h = mod-lt ((pos + d) % 2 ^ 64) h

-- Every bit of the first that is set is set in the second.
abbrev pub Within : List ℕ → List ℕ → Type 0
Within bytes bytes' = (q : ℕ) → bit_at bytes q ≡ true → bit_at bytes' q ≡ true

-- Setting probes keeps the array and clears no bit.
pub set_probes-Within :
    (rounds bits d pos : ℕ) (bytes : List ℕ)
    → IsArray bits bytes
    → pos < bits
    → IsArray bits (set_probes rounds bits d pos bytes)
      × Within bytes (set_probes rounds bits d pos bytes)
unfolding set_probes
set_probes-Within zero bits d pos bytes a h = (a, λ q e. e)
set_probes-Within (suc rounds) bits d pos bytes a h =
    let (a', w) =
      set_probes-Within rounds bits d (step bits d pos) (set_bit bytes pos)
        (set_bit-IsArray bits bytes pos a h) (step-below bits d pos a.filled) in
    (a', λ q e. w q (ground (arith, bit_at-set_bit bits bytes pos q a h)))

-- The test passes when all the probes were set.
pub test_probes-Within :
    (rounds bits d pos : ℕ) (bytes bytes' : List ℕ)
    → IsArray bits bytes
    → pos < bits
    → Within (set_probes rounds bits d pos bytes) bytes'
    → test_probes rounds bits d pos bytes' ≡ true
unfolding set_probes test_probes
test_probes-Within zero bits d pos bytes bytes' a h w = refl
test_probes-Within (suc rounds) bits d pos bytes bytes' a h w =
    let a1 = set_bit-IsArray bits bytes pos a h in
    let later =
      set_probes-Within rounds bits d (step bits d pos) (set_bit bytes pos) a1
        (step-below bits d pos a.filled) in
    let on = w pos (later.1 pos (ground (arith, bit_at-set_bit bits bytes pos pos a h))) in
    let rest =
      test_probes-Within rounds bits d (step bits d pos) (set_bit bytes pos) bytes' a1
        (step-below bits d pos a.filled) w in
    ground (arith, on, rest)
