-- ===== src/Storage/Lsm/Block/Entries.antt =====
-- One entry among bytes, and a run of entries.
use chibidb.Prelude.{
  ℕ, zero, suc, ◌+◌, ◌-◌, ◌%◌, ◌^◌, ◌≤◌, ◌<◌, ◌≡◌, refl, sym, ap, subst, ◌∙◌, true, false, ltb, leb,
  List, [], ◌∷◌, ◌++◌, length, take, drop, sub_list, length-append, arith,
}
use chibidb.Prelude.Holds.{
  Holds, Holds-split, Holds-left, Holds-right, sub_list-Holds, take-drop, length-drop,
}
use chibidb.Prelude.Result.{ok}
use chibidb.Storage.Lsm.Coding.{get_varint32}
use chibidb.Storage.Lsm.Coding.Varint.{
  varint, put_varint32-varint, get_varint32-varint, length-varint_pos,
}
use chibidb.Storage.Lsm.Block.{
  push_entry, Block, DecodedEntry, decode, entry_key, entry_value, collect_entries,
}
use mathlib.Core.List.{append_assoc, append-nil}

-- An entry as it is stored: how much of its key it shares, its key and its value.
pub record Item : Type 0 where
  pub common : ℕ
  pub key : List ℕ
  pub value : List ℕ

abbrev pub rest_of : Item → List ℕ
rest_of i = drop (i.common) (i.key)

unfoldable pub item_bytes : Item → List ℕ
item_bytes i =
    varint (i.common)
    ++ (varint (length (i.key) - i.common) ++ (varint (length (i.value)) ++ (rest_of i ++ i.value)))

unfoldable pub ItemFits : Item → Type 0
ItemFits i = (i.common ≤ length (i.key)) × (length (i.key) < 2 ^ 32) × (length (i.value) < 2 ^ 32)

pub push_entry-item :
    (buffer : List ℕ) (i : Item)
    → ItemFits i
    → push_entry buffer (i.common) (i.key) (i.value) ≡ buffer ++ item_bytes i
unfolding push_entry item_bytes ItemFits
push_entry-item buffer i fits =
    let a : i.common % 2 ^ 32 ≡ i.common = omega (arith, fits.0, fits.1) in
    let b : (length (i.key) - i.common) % 2 ^ 32 ≡ length (i.key) - i.common =
      omega (arith, fits.1) in
    let c : length (i.value) % 2 ^ 32 ≡ length (i.value) = omega (arith, fits.2) in
    rw (a, b, c, put_varint32-varint buffer (i.common), put_varint32-varint, put_varint32-varint)
      (simp append_assoc refl)

get_varint32-Holds :
    (bytes : List ℕ) (pos v : ℕ)
    → v < 2 ^ 32
    → Holds bytes pos (varint v)
    → get_varint32 bytes pos ≡ ok (v, pos + length (varint v))
get_varint32-Holds bytes pos v small h =
    let (front, back, e, at) = Holds-split bytes pos (varint v) h in
    subst (λ (b : List ℕ). get_varint32 b pos ≡ ok (v, pos + length (varint v))) (sym e)
      (subst
        (λ (p : ℕ). get_varint32 (front ++ (varint v ++ back)) p ≡ ok (v, p + length (varint v))) at
        (get_varint32-varint v front back small))

pub length-item :
    (i : Item)
    → length (item_bytes i)
      ≡ length (varint (i.common))
        + (length (varint (length (i.key) - i.common))
            + (length (varint (length (i.value))) + (length (i.key) - i.common + length (i.value))))
unfolding item_bytes
length-item i =
    let a = varint (i.common) in
    let b = varint (length (i.key) - i.common) in
    let c = varint (length (i.value)) in
    let tail = rest_of i ++ i.value in
    omega (
      arith,
      length-append a (b ++ (c ++ tail)),
      length-append b (c ++ tail),
      length-append c tail,
      length-append (rest_of i) (i.value),
      length-drop (i.common) (i.key),
    )

module _ (block : Block) (pos : ℕ) (i : Item) (fits : ItemFits i)
    (h : Holds (block.bytes) pos (item_bytes i))
    (inside : pos + length (item_bytes i) ≤ block.restart_array_start) where
  pub decode-item :
      (e : DecodedEntry) × (decode block pos ≡ ok e)
      × (e.shared ≡ i.common)
      × (e.next ≡ pos + length (item_bytes i))
      × (sub_list (e.key_offset) (e.key_offset + e.non_shared) (block.bytes) ≡ rest_of i)
      × (entry_value block e ≡ i.value)
  unfolding decode entry_value
  decode-item =
      let a = varint (i.common) in
      let b = varint (length (i.key) - i.common) in
      let c = varint (length (i.value)) in
      let tail = rest_of i ++ i.value in
      let whole : Holds (block.bytes) pos (a ++ (b ++ (c ++ tail))) = unfold item_bytes in h in
      let at_b = Holds-right (block.bytes) pos a (b ++ (c ++ tail)) whole in
      let at_c = Holds-right (block.bytes) (pos + length a) b (c ++ tail) at_b in
      let at_tail = Holds-right (block.bytes) (pos + length a + length b) c tail at_c in
      let key_offset = pos + length a + length b + length c in
      let non_shared = length (i.key) - i.common in
      let size : length (item_bytes i)
          ≡ length a + (length b + (length c + (non_shared + length (i.value)))) =
        length-item i in
      let before : leb (block.restart_array_start) pos ≡ false =
        ground (arith, inside, size, length-varint_pos (i.common)) in
      let fit : ltb (block.restart_array_start) (key_offset + non_shared + length (i.value))
          ≡ false =
        ground (arith, inside, size) in
      let small : (i.common < 2 ^ 32) × (non_shared < 2 ^ 32) =
        unfold ItemFits in (omega (arith, fits.0, fits.1), omega (arith, fits.1)) in
      let key_size : length (rest_of i) ≡ non_shared = length-drop (i.common) (i.key) in
      let rest_at = Holds-left (block.bytes) key_offset (rest_of i) (i.value) at_tail in
      let value_at = Holds-right (block.bytes) key_offset (rest_of i) (i.value) at_tail in
      (
        record {
          shared = i.common;
          non_shared = non_shared;
          value_len = length (i.value);
          key_offset = key_offset;
          value_offset = key_offset + non_shared;
          next = key_offset + non_shared + length (i.value);
        },
        rw
            (
              before,
              get_varint32-Holds (block.bytes) pos (i.common) (small.0)
                  (Holds-left (block.bytes) pos a (b ++ (c ++ tail)) whole),
              get_varint32-Holds (block.bytes) (pos + length a) non_shared (small.1)
                  (Holds-left (block.bytes) (pos + length a) b (c ++ tail) at_b),
              get_varint32-Holds (block.bytes) (pos + length a + length b) (length (i.value))
                  (unfold ItemFits in fits.2)
                  (Holds-left (block.bytes) (pos + length a + length b) c tail at_c),
              fit,
            )
            refl,
        refl,
        omega (arith, size),
        subst (λ (n : ℕ). sub_list key_offset (key_offset + n) (block.bytes) ≡ rest_of i) key_size
            (sub_list-Holds (block.bytes) key_offset (rest_of i) rest_at),
        subst
            (λ (n : ℕ).
              sub_list (key_offset + n) (key_offset + n + length (i.value)) (block.bytes) ≡ i.value)
            key_size
            (sub_list-Holds (block.bytes) (key_offset + length (rest_of i)) (i.value) value_at),
      )

pub length-item_pos : (i : Item) → 1 ≤ length (item_bytes i)
length-item_pos i = omega (arith, length-item i, length-varint_pos (i.common))

unfoldable pub items_bytes : List Item → List ℕ
items_bytes [] = []
items_bytes (i ∷ items) = item_bytes i ++ items_bytes items

abbrev pub pairs : List Item → List (List ℕ × List ℕ)
pairs [] = []
pairs (i ∷ items) = (i.key, i.value) ∷ pairs items

-- Each item shares with the key before it what it says it shares.
unfoldable pub Chain : List ℕ → List Item → Type 0
Chain current [] = Unit {0}
Chain current (i ∷ items) =
    ItemFits i × (take (i.common) current ≡ take (i.common) (i.key)) × Chain (i.key) items

pub decoded_key :
    (block : Block) (current : List ℕ) (i : Item) (e : DecodedEntry)
    → e.shared ≡ i.common
    → take (i.common) current ≡ take (i.common) (i.key)
    → sub_list (e.key_offset) (e.key_offset + e.non_shared) (block.bytes) ≡ rest_of i
    → entry_key block current e ≡ i.key
unfolding entry_key
decoded_key block current i e common shares rest =
    rw (common, shares, rest) (take-drop (i.common) (i.key))

pub collect_entries-items :
    (block : Block) (rounds : ℕ) (out : List (List ℕ × List ℕ)) (current : List ℕ) (pos : ℕ)
    (items : List Item)
    → Chain current items
    → Holds (block.bytes) pos (items_bytes items)
    → pos + length (items_bytes items) ≡ block.restart_array_start
    → length (items_bytes items) ≤ rounds
    → collect_entries block rounds out current pos ≡ ok (out ++ pairs items)
unfolding collect_entries items_bytes Chain
collect_entries-items block zero out current pos [] chain h end enough =
    ap ok (sym (append-nil out))
collect_entries-items block (suc rounds) out current pos [] chain h end enough =
    let stop : ltb pos (block.restart_array_start) ≡ false = ground (arith, end) in
    rw stop (ap ok (sym (append-nil out)))
collect_entries-items block zero out current pos (i ∷ items) chain h end enough =
    ground (arith, enough, length-append (item_bytes i) (items_bytes items), length-item_pos i)
collect_entries-items block (suc rounds) out current pos (i ∷ items) (fits, shares, chain) h end
      enough =
    let size = length-append (item_bytes i) (items_bytes items) in
    let pos_size = length-item_pos i in
    let more : ltb pos (block.restart_array_start) ≡ true = ground (arith, end, size, pos_size) in
    let at_rest = Holds-right (block.bytes) pos (item_bytes i) (items_bytes items) h in
    let (e, decoded, common, next, rest, value) =
      decode-item block pos i fits
        (Holds-left (block.bytes) pos (item_bytes i) (items_bytes items) h)
        (omega (arith, end, size)) in
    let key : entry_key block current e ≡ i.key =
      decoded_key block current i e common shares rest in
    let rec =
      collect_entries-items block rounds (out ++ ((i.key, i.value) ∷ [])) (i.key)
        (pos + length (item_bytes i)) items chain at_rest (omega (arith, end, size))
        (omega (arith, enough, size, pos_size)) in
    rw (more, decoded, key, value, next)
      (rec ∙ ap ok (append_assoc out ((i.key, i.value) ∷ []) (pairs items)))
