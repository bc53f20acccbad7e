-- ===== src/Storage/Lsm/Block.antt =====
-- src/storage/lsm/block.rs: blocks of prefix-compressed entries, with restarts where a key is whole.
pub mod Entries
pub mod Restarts
pub mod Build
pub mod Marks
pub mod Asserts
pub mod RoundTrip
pub mod Reset
pub mod Seek
pub mod Get
mod Tests
use chibidb.Prelude.{
  ℕ, zero, suc, ◌+◌, ◌-◌, ◌*◌, ◌/◌, ◌%◌, ◌^◌, max, min, Bool, true, false, ◌&&◌, ◌||◌, ltb, leb,
  ◌==◌, if◌then◌else◌, List, [], ◌∷◌, ◌++◌, Option, none, some, length, get_or, take, drop,
  sub_list,
}
use chibidb.Prelude.Bytes.{lt_bytes}
use chibidb.Prelude.Result.{Error, Result, ok, err, ◌>>=◌}
use chibidb.Storage.Lsm.Coding.{put_varint32, get_varint32, put_fixed32, get_fixed32}

pub record BlockBuilder : Type 0 where
  pub buffer : List ℕ
  pub restarts : List ℕ
  pub counter : ℕ
  pub last_key : List ℕ
  pub restart_interval : ℕ

unfoldable pub new_builder : ℕ → BlockBuilder
new_builder restart_interval = record {
  buffer = [];
  restarts = 0 ∷ [];
  counter = 0;
  last_key = [];
  restart_interval = max restart_interval 1;
}

abbrev pub is_empty {ℓ} : {A : Type ℓ} → List A → Bool
is_empty [] = true
is_empty (x ∷ xs) = false

unfoldable pub is_fresh : BlockBuilder → Bool
is_fresh b = is_empty (b.buffer)

unfoldable pub current_size_estimate : BlockBuilder → ℕ
current_size_estimate b = length (b.buffer) + length (b.restarts) * 4 + 4

unfoldable pub common_prefix : List ℕ → List ℕ → ℕ
common_prefix (a ∷ as') (b ∷ bs) = let more = common_prefix as' bs in if a == b then suc more else 0
common_prefix as' bs = 0

-- The three lengths (`as u32` cuts them off), the rest of the key and the value that `add` appends.
unfoldable pub push_entry : List ℕ → ℕ → List ℕ → List ℕ → List ℕ
push_entry buffer shared key value =
    let buffer = put_varint32 buffer (shared % 2 ^ 32) in
    let buffer = put_varint32 buffer ((length key - shared) % 2 ^ 32) in
    let buffer = put_varint32 buffer (length value % 2 ^ 32) in (buffer ++ drop shared key) ++ value

-- `add` without its assertion.
unfoldable pub add_entry : BlockBuilder → List ℕ → List ℕ → BlockBuilder
add_entry b key value =
    if ltb (b.counter) (b.restart_interval)
    then record {
      buffer = push_entry (b.buffer) (common_prefix (b.last_key) key) key value;
      restarts = b.restarts;
      counter = b.counter + 1;
      last_key = key;
      restart_interval = b.restart_interval;
    }
    else record {
      buffer = push_entry (b.buffer) 0 key value;
      restarts = b.restarts ++ (length (b.buffer) % 2 ^ 32 ∷ []);
      counter = 1;
      last_key = key;
      restart_interval = b.restart_interval;
    }

-- The `debug_assert!` of `add`: keys ascend.
unfoldable pub add_asserts : BlockBuilder → List ℕ → Bool
add_asserts b key = is_empty (b.last_key) || lt_bytes (b.last_key) key

-- `add` where debug assertions are on; `none` is the panic of one that fails.
unfoldable pub debug_add : BlockBuilder → List ℕ → List ℕ → Option BlockBuilder
debug_add b key value = if add_asserts b key then some (add_entry b key value) else none

unfoldable pub put_restarts : List ℕ → List ℕ → List ℕ
put_restarts buffer [] = buffer
put_restarts buffer (restart ∷ restarts) = put_restarts (put_fixed32 buffer restart) restarts

unfoldable pub finish : BlockBuilder → List ℕ × BlockBuilder
finish b =
    let restarts = if is_empty (b.buffer) then [] else b.restarts in
    (
      put_fixed32 (put_restarts (b.buffer) restarts) (length restarts % 2 ^ 32),
      record {
        buffer = [];
        restarts = 0 ∷ [];
        counter = 0;
        last_key = [];
        restart_interval = b.restart_interval;
      },
    )

pub record Block : Type 0 where
  pub bytes : List ℕ
  pub restarts : List ℕ
  pub restart_array_start : ℕ

pub has_no_entry : Block → Bool
has_no_entry block = is_empty (block.restarts)

pub read_restarts : List ℕ → ℕ → ℕ → List ℕ → Result (List ℕ)
read_restarts bytes zero rpos restarts = ok restarts
read_restarts bytes (suc left) rpos restarts =
    get_fixed32 bytes rpos
    >>= (λ (restart, next). read_restarts bytes left next (restarts ++ (restart ∷ [])))

abbrev pub not_above : Option ℕ → ℕ → Bool
not_above none restart = false
not_above (some previous) restart = leb restart previous

pub check_restarts : ℕ → Option ℕ → List ℕ → Result (Unit {0})
check_restarts start previous [] = ok tt
check_restarts start previous (restart ∷ restarts) =
    let rest = check_restarts start (some restart) restarts in
    if leb (max start 1) restart
    then err (Error.runtime "block restart offset out of range")
    else if not_above previous restart
    then err (Error.runtime "block restart offsets are not sorted")
    else rest

pub parse : List ℕ → Result Block
parse bytes =
    if ltb (length bytes) 4
    then err (Error.runtime "block is too short")
    else get_fixed32 bytes (length bytes - 4) >>= (λ (num_restarts, pos).
      let restart_bytes = num_restarts * 4 in
      let start = length bytes - 4 - restart_bytes in
      if leb (2 ^ 64) restart_bytes
      then err (Error.runtime "block restart count overflows")
      else if ltb (length bytes) (4 + restart_bytes)
      then err (Error.runtime "block restart array is truncated")
      else read_restarts bytes num_restarts start [] >>= (λ restarts.
        check_restarts start none restarts
        >>= (λ u. ok (record { bytes = bytes; restarts = restarts; restart_array_start = start }))))

pub record DecodedEntry : Type 0 where
  pub shared : ℕ
  pub non_shared : ℕ
  pub value_len : ℕ
  pub key_offset : ℕ
  pub value_offset : ℕ
  pub next : ℕ

pub decode : Block → ℕ → Result DecodedEntry
decode block offset =
    if leb (block.restart_array_start) offset
    then err (Error.runtime "block entry offset out of range")
    else get_varint32 (block.bytes) offset >>= (λ (shared, p).
      get_varint32 (block.bytes) p >>= (λ (non_shared, q).
        get_varint32 (block.bytes) q >>= (λ (value_len, key_offset).
          if ltb (block.restart_array_start) (key_offset + non_shared + value_len)
          then err (Error.runtime "block entry runs past the restart array")
          else ok (record {
            shared = shared;
            non_shared = non_shared;
            value_len = value_len;
            key_offset = key_offset;
            value_offset = key_offset + non_shared;
            next = key_offset + non_shared + value_len;
          }))))

-- The key of an entry behind the key before it, and its value.
pub entry_key : Block → List ℕ → DecodedEntry → List ℕ
entry_key block current e =
    take (e.shared) current ++ sub_list (e.key_offset) (e.key_offset + e.non_shared) (block.bytes)

pub entry_value : Block → DecodedEntry → List ℕ
entry_value block e = sub_list (e.value_offset) (e.value_offset + e.value_len) (block.bytes)

-- The key that `entry_at` finds.
pub key_at : Block → ℕ → Result (List ℕ)
key_at block offset = decode block offset >>= (λ e.
    if e.shared == 0
    then ok (sub_list (e.key_offset) (e.key_offset + e.non_shared) (block.bytes))
    else err (Error.runtime "restart entry must not share a prefix"))

pub first_key : Block → Result (Option (List ℕ))
first_key block = elim (block.restarts) [
  | [] ↦ ok none
  | offset ∷ rest ↦ key_at block offset >>= (λ key. ok (some key))
]

-- The binary search of `get`, with the rounds left.
pub bisect : Block → List ℕ → ℕ → ℕ → ℕ → Result ℕ
bisect block key zero left right = ok left
bisect block key (suc rounds) left right =
    let mid = (left + right) / 2 in
    let found = key_at block (get_or (block.restarts) mid 0) >>= (λ restart_key.
      let above = bisect block key rounds (mid + 1) right in
      let below = bisect block key rounds left mid in
      if lt_bytes restart_key key then above else below) in
    if ltb left right then found else ok left

-- The linear search of `get`, with the rounds left.
pub seek : Block → List ℕ → ℕ → List ℕ → ℕ → Result (Option (List ℕ))
seek block key zero current offset = ok none
seek block key (suc rounds) current offset =
    let found = decode block offset >>= (λ e.
      let later = seek block key rounds (entry_key block current e) (e.next) in
      if lt_bytes (entry_key block current e) key
      then later
      else if lt_bytes key (entry_key block current e)
      then ok none
      else ok (some (entry_value block e))) in
    if ltb offset (block.restart_array_start) then found else ok none

pub get_value : Block → List ℕ → Result (Option (List ℕ))
get_value block key =
    let found = bisect block key (length (block.restarts)) 0 (length (block.restarts)) >>= (λ left.
      let start = if left == 0 then 0 else get_or (block.restarts) (left - 1) 0 in
      seek block key (block.restart_array_start) [] start) in
    if is_empty (block.restarts) then ok none else found

-- The loop of `entries`, with the rounds left.
pub collect_entries :
    Block → ℕ → List (List ℕ × List ℕ) → List ℕ → ℕ → Result (List (List ℕ × List ℕ))
collect_entries block zero out current offset = ok out
collect_entries block (suc rounds) out current offset =
    let found = decode block offset >>= (λ e.
      collect_entries block rounds (out ++ ((entry_key block current e, entry_value block e) ∷ []))
        (entry_key block current e) (e.next)) in
    if ltb offset (block.restart_array_start) then found else ok out

pub entries : Block → Result (List (List ℕ × List ℕ))
entries block = collect_entries block (block.restart_array_start) [] [] 0
