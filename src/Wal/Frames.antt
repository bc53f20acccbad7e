-- ===== src/Wal/Frames.antt =====
-- Frames: what `encode_frame_into` appends, and what `decode_frame` makes of it.
use chibidb.Prelude.{
  ℕ, ◌+◌, ◌-◌, ◌^◌, ◌≤◌, ◌<◌, ◌≡◌, refl, ap, ◌∙◌, inl, inr, false, ltb, if◌then◌else◌, List, [],
  ◌∷◌, ◌++◌, none, some, length, take, drop, sub_list, replicate, length-append, drop-append_beyond,
  take-append_length, length-take, take-take_shorter, Bool-cases, arith,
}
use chibidb.Storage.Lsm.Coding.{to_le_bytes, from_le_bytes}
use chibidb.Storage.Lsm.Coding.Words.{from_le_bytes-to_le_bytes}
use chibidb.Wal.{
  Record, push_record, encode_frame_into, encode_frame, decoded, decode_payload, decode_frame,
}
use mathlib.Core.List.{append_assoc}

-- The type byte and the payload of a record.
unfoldable pub tag : Record → ℕ
tag (Record.insert _ _ _) = 1
tag (Record.delete_mark _ _ _ _) = 2
tag Record.commit = 3

unfoldable pub payload : Record → List ℕ
payload (Record.insert file_no rid bytes) =
    to_le_bytes 4 file_no ++ (to_le_bytes 4 (rid.page_no) ++ (to_le_bytes 2 (rid.slot) ++ bytes))
payload (Record.delete_mark file_no rid deleter next_rid) =
    to_le_bytes 4 file_no
    ++ (to_le_bytes 4 (rid.page_no)
        ++ (to_le_bytes 2 (rid.slot) ++ (to_le_bytes 8 deleter ++ to_le_bytes 8 next_rid)))
payload Record.commit = []

unfoldable pub Fits : Record → Type 0
Fits (Record.insert file_no rid bytes) =
    (file_no < 2 ^ 32) × (rid.page_no < 2 ^ 32) × (rid.slot < 2 ^ 16)
Fits (Record.delete_mark file_no rid deleter next_rid) =
    (file_no < 2 ^ 32)
    × (rid.page_no < 2 ^ 32)
    × (rid.slot < 2 ^ 16)
    × (deleter < 2 ^ 64)
    × (next_rid < 2 ^ 64)
Fits Record.commit = Unit

-- The bytes of one frame, and those after its length.
unfoldable pub body : ℕ → Record → List ℕ
body trx rec = tag rec ∷ (to_le_bytes 8 trx ++ payload rec)

pub frame : ℕ → Record → List ℕ
frame trx rec = to_le_bytes 4 (length (body trx rec)) ++ body trx rec

pub length-frame_pos : (trx : ℕ) (rec : Record) → 1 ≤ length (frame trx rec)
unfolding frame
length-frame_pos trx rec = omega arith

push_record-frame :
    (out : List ℕ) (trx : ℕ) (rec : Record) → push_record out trx rec ≡ out ++ body trx rec
unfolding push_record body tag payload
push_record-frame out trx (Record.insert file_no rid bytes) = simp append_assoc refl
push_record-frame out trx (Record.delete_mark file_no rid deleter next_rid) = simp append_assoc refl
push_record-frame out trx Record.commit = simp append_assoc refl

-- The length that is patched in is the length of what follows it.
patched :
    (out body : List ℕ)
    → (let full = (out ++ replicate 4 0) ++ body in
        take (length out) full
        ++ (to_le_bytes 4 (length full - length out - 4) ++ drop (length out + 4) full))
      ≡ out ++ (to_le_bytes 4 (length body) ++ body)
patched out body =
    rw
      (
        append_assoc out (replicate 4 0) body,
        take-append_length out (replicate 4 0 ++ body),
        drop-append_beyond out (replicate 4 0 ++ body) 4,
        length-append out (replicate 4 0 ++ body),
      )
      (ap (λ (n : ℕ). out ++ (to_le_bytes 4 n ++ body)) (omega arith))

pub encode_frame_into-frame :
    (out : List ℕ) (trx : ℕ) (rec : Record) → encode_frame_into out trx rec ≡ out ++ frame trx rec
unfolding encode_frame_into frame
encode_frame_into-frame out trx rec =
    rw (encode_frame_into, push_record-frame (out ++ replicate 4 0) trx rec)
      (patched out (body trx rec))

-- The fields of a record and the id fit their words, and the frame's length fits 32 bits.
unfoldable pub IsWritable : ℕ → Record → Type 0
IsWritable trx rec = (trx < 2 ^ 64) × (length (body trx rec) < 2 ^ 32) × Fits rec

decode_payload-payload :
    (rec : Record) → Fits rec → decode_payload (tag rec) (payload rec) ≡ some rec
unfolding decode_payload tag payload Fits
decode_payload-payload (Record.insert file_no rid bytes) h = ground (
  arith,
  from_le_bytes-to_le_bytes 4 file_no (h.0),
  from_le_bytes-to_le_bytes 4 (rid.page_no) (h.1),
  from_le_bytes-to_le_bytes 2 (rid.slot) (h.2),
)
decode_payload-payload (Record.delete_mark file_no rid deleter next_rid) h = ground (
  arith,
  from_le_bytes-to_le_bytes 4 file_no (h.0),
  from_le_bytes-to_le_bytes 4 (rid.page_no) (h.1),
  from_le_bytes-to_le_bytes 2 (rid.slot) (h.2),
  from_le_bytes-to_le_bytes 8 deleter (h.3),
  from_le_bytes-to_le_bytes 8 next_rid (h.4),
)
decode_payload-payload Record.commit h = refl

-- What the reader makes of a length, a type and an id that fit their words.
decode_frame-words :
    (len ty trx : ℕ) (rest : List ℕ)
    → len < 2 ^ 32
    → trx < 2 ^ 64
    → 9 ≤ len
    → decode_frame (to_le_bytes 4 len ++ (ty ∷ (to_le_bytes 8 trx ++ rest))) ≡ (
        if ltb (9 + length rest) len
        then none
        else decoded trx (decode_payload ty (take (len - 9) rest)) (4 + len))
unfolding decode_frame
decode_frame-words len ty trx rest h k l =
    let cut : 4 + len - 13 ≡ len - 9 = omega arith in
    rw (from_le_bytes-to_le_bytes 4 len h, from_le_bytes-to_le_bytes 8 trx k, cut) (ground arith)

-- A frame that is written is read back, whatever follows, and its length is told.
pub decode_frame-frame :
    (trx : ℕ) (rec : Record) (rest : List ℕ)
    → IsWritable trx rec
    → decode_frame (frame trx rec ++ rest) ≡ some (trx, rec, length (frame trx rec))
unfolding frame body IsWritable
decode_frame-frame trx rec rest h =
    let len = length (body trx rec) in
    let exact : len - 9 ≡ length (payload rec) = omega arith in
    let long : ltb (9 + length (payload rec ++ rest)) len ≡ false =
      ground (arith, length-append (payload rec) rest) in
    decode_frame-words len (tag rec) trx (payload rec ++ rest) (h.1) (h.0) (omega arith)
    ∙ rw (long, exact, take-append_length (payload rec) rest, decode_payload-payload rec (h.2))
        (ap (λ (n : ℕ). some (trx, rec, n)) (omega arith))

-- A frame that is cut off is not read.
pub decode_frame-torn :
    (trx : ℕ) (rec : Record) (n : ℕ)
    → IsWritable trx rec
    → n < length (frame trx rec)
    → decode_frame (take n (frame trx rec)) ≡ none
unfolding decode_frame IsWritable
decode_frame-torn trx rec n h short =
    let cut : length (take n (frame trx rec)) ≡ n = length-take n (frame trx rec) (omega arith) in
    elim (Bool-cases (ltb n 4)) [
      | inl e ↦ rw (cut, e) refl
      | inr e ↦
          let word : from_le_bytes (sub_list 0 4 (take n (frame trx rec))) ≡ length (body trx rec) =
            ap from_le_bytes (take-take_shorter 4 n (frame trx rec) (ground arith))
            ∙ unfold frame in from_le_bytes-to_le_bytes 4 (length (body trx rec)) (h.1) in
          rw (cut, e, word) (unfold frame in ground arith)
    ]

-- A frame that is written is read back with its transaction, its record and its length, whatever follows;
-- its beginnings, the empty one included, are not read.
pub decode_frame-encode_frame :
    (trx : ℕ) (rec : Record) (rest : List ℕ)
    → IsWritable trx rec
    → (decode_frame (encode_frame trx rec ++ rest) ≡ some (trx, rec, length (encode_frame trx rec)))
      × ((n : ℕ)
          → n < length (encode_frame trx rec)
          → decode_frame (take n (encode_frame trx rec)) ≡ none)
unfolding encode_frame
decode_frame-encode_frame trx rec rest h =
    rw (encode_frame_into-frame [] trx rec)
      (decode_frame-frame trx rec rest h, λ n short. decode_frame-torn trx rec n h short)
