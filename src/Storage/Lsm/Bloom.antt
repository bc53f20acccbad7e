-- ===== src/Storage/Lsm/Bloom.antt =====
-- src/storage/lsm/bloom.rs: the filter that rejects keys that no table holds. The bit array is a
-- list of bytes.
pub mod BitArray
pub mod Membership
mod Tests
use chibidb.Prelude.{
  ℕ, zero, suc, ◌+◌, ◌-◌, ◌*◌, ◌/◌, ◌%◌, ◌^◌, Bool, true, false, ltb, leb, ◌==◌, if◌then◌else◌,
  List, [], ◌∷◌, ◌++◌, length, get_or, set, replicate, min, max,
}
use Prim.Native.Nat.{bit_and, bit_or, bit_xor}

pub record BloomBuilder : Type 0 where
  pub hashes : List ℕ
  pub bits_per_key : ℕ

unfoldable pub new : ℕ → BloomBuilder
new bits_per_key = record { hashes = []; bits_per_key = max bits_per_key 1 }

-- FNV-1a, from the hash of the bytes before.
unfoldable pub hash_from : ℕ → List ℕ → ℕ
hash_from h [] = h
hash_from h (b ∷ bytes) = hash_from (bit_xor h b * 0x100000001b3 % 2 ^ 64) bytes

unfoldable pub hash : List ℕ → ℕ
hash = hash_from 0xcbf29ce484222325

unfoldable pub add : BloomBuilder → List ℕ → BloomBuilder
add b key = record b { hashes = b.hashes ++ (hash key ∷ []) }

-- `(bits_per_key * 0.69).round().clamp(1, 30)`. No product below the clamp lies near a half, so
-- that the rounding of the floats does not show.
abbrev pub probes : ℕ → ℕ
probes bits_per_key = min 30 (max 1 ((69 * bits_per_key + 50) / 100))

unfoldable pub delta : ℕ → ℕ
delta h = bit_or (h / 2 ^ 17) (h * 2 ^ 15 % 2 ^ 64)

-- The next probe.
abbrev pub step : ℕ → ℕ → ℕ → ℕ
step bits d pos = (pos + d) % 2 ^ 64 % bits

-- `bitset[pos / 8] |= 1 << (pos % 8)`.
unfoldable pub set_bit : List ℕ → ℕ → List ℕ
set_bit bitset pos = set bitset (pos / 8) (bit_or (get_or bitset (pos / 8) 0) (2 ^ (pos % 8)))

-- The inner loop of `finish`.
unfoldable pub set_probes : ℕ → ℕ → ℕ → ℕ → List ℕ → List ℕ
set_probes zero bits d pos bitset = bitset
set_probes (suc rounds) bits d pos bitset =
    set_probes rounds bits d (step bits d pos) (set_bit bitset pos)

-- The outer loop of `finish`.
unfoldable pub set_hashes : ℕ → ℕ → List ℕ → List ℕ → List ℕ
set_hashes rounds bits [] bitset = bitset
set_hashes rounds bits (h ∷ hs) bitset =
    set_hashes rounds bits hs (set_probes rounds bits (delta h) (h % bits) bitset)

abbrev pub div_ceil : ℕ → ℕ → ℕ
div_ceil a b = (a + (b - 1)) / b

-- The bytes of the bit array.
abbrev pub byte_count : BloomBuilder → ℕ
byte_count b = max (div_ceil (length b.hashes * b.bits_per_key) 8) 8

unfoldable pub finish : BloomBuilder → List ℕ
finish b =
    let k = probes b.bits_per_key in
    if length b.hashes == 0
    then k ∷ []
    else set_hashes k (byte_count b * 8) b.hashes (replicate (byte_count b) 0) ++ (k % 256 ∷ [])

-- The loop of `maybe_contains`. A probe is below `bits`, so that its byte is in the array.
pub test_probes : ℕ → ℕ → ℕ → ℕ → List ℕ → Bool
test_probes zero bits d pos bytes = true
test_probes (suc rounds) bits d pos bytes =
    let rest = test_probes rounds bits d (step bits d pos) bytes in
    if bit_and (get_or bytes (pos / 8) 0) (2 ^ (pos % 8)) == 0 then false else rest

pub maybe_contains : List ℕ → List ℕ → Bool
maybe_contains bytes key =
    let bits = (length bytes - 1) * 8 in
    let h = hash key in
    if leb (length bytes) 1
    then true
    else test_probes (get_or bytes (length bytes - 1) 0) bits (delta h) (h % bits) bytes
