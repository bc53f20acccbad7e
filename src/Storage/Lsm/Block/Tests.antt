-- ===== src/Storage/Lsm/Block/Tests.antt =====
-- A block of three entries with a restart at every second one.
use chibidb.Storage.Lsm.Block.Asserts.{debug_add_all}
use chibidb.Prelude.{ℕ, suc, ◌^◌, ◌<◌, ◌≡◌, refl, List, [], ◌∷◌, Option, some, length, arith}
use chibidb.Prelude.Result.{ok}
use chibidb.Prelude.Bytes.{lt_bytes}
use chibidb.Storage.Lsm.Coding.{
  get_rounds, take_byte, put_rounds, put_varint32, get_varint32, put_fixed32,
}
use chibidb.Storage.Lsm.Block.{
  new_builder, add_entry, push_entry, common_prefix, finish, put_restarts, current_size_estimate,
  Block, parse, entries, decode, first_key, key_at, get_value, BlockBuilder,
}
use chibidb.Storage.Lsm.Block.Seek.{Ascending, Answers}
use chibidb.Storage.Lsm.Block.Build.{Fit, add_all}
use chibidb.Storage.Lsm.Block.RoundTrip.{entries-parse, get_value-parse}

abbrev three_entries : List (List ℕ × List ℕ)
three_entries = (97 ∷ 97 ∷ [], 1 ∷ []) ∷ (97 ∷ 98 ∷ [], 2 ∷ []) ∷ (98 ∷ [], []) ∷ []

abbrev three_bytes : List ℕ
three_bytes = (finish (add_all (new_builder 2) three_entries)).0

three_entries-Fit : Fit three_entries
unfolding Fit
three_entries-Fit =
    (omega arith, omega arith, (omega arith, omega arith, (omega arith, omega arith, tt)))

three_entries-Ascending : Ascending three_entries
unfolding lt_bytes
three_entries-Ascending = ((refl, (refl, tt)), ((refl, tt), (tt, tt)))

three_entries-short : suc (length ((add_all (new_builder 2) three_entries).buffer)) < 2 ^ 32
unfolding add_all new_builder add_entry common_prefix push_entry put_varint32 put_rounds
three_entries-short = omega arith

entries-parse_example :
    (b : BlockBuilder) × (block : Block) × (debug_add_all (new_builder 2) three_entries ≡ some b)
    × (parse ((finish b).0) ≡ ok block)
    × (entries block ≡ ok three_entries)
entries-parse_example =
    entries-parse 2 three_entries three_entries-Fit three_entries-short three_entries-Ascending

get_value-parse_example :
    (block : Block) × (parse three_bytes ≡ ok block)
    × ((key : List ℕ)
        → (answer : Option (List ℕ)) × (get_value block key ≡ ok answer)
          × Answers key three_entries answer)
get_value-parse_example =
    get_value-parse 2 three_entries three_entries-Fit three_entries-short three_entries-Ascending

abbrev three_parsed : Block
three_parsed = record { bytes = three_bytes; restarts = 0 ∷ 10 ∷ []; restart_array_start = 14 }

sizes : current_size_estimate (add_all (new_builder 2) three_entries) ≡ length three_bytes
unfolding current_size_estimate finish add_all new_builder add_entry common_prefix push_entry
    put_varint32 put_rounds put_fixed32 put_restarts
sizes = refl

first_of_three : first_key three_parsed ≡ ok (some (97 ∷ 97 ∷ []))
unfolding first_key key_at decode finish add_all new_builder add_entry common_prefix push_entry
    put_varint32 put_rounds put_fixed32 put_restarts get_varint32 get_rounds take_byte
first_of_three = refl
