-- ===== src/Wal/Scan.antt =====
-- The loop of `plan_recovery`: it ends within its fuel on any bytes, and goes through the frames of a
-- log that was written, up to a torn tail.
use chibidb.Prelude.Holds.{drop-drop, length-drop}
use chibidb.Prelude.{
  ℕ, zero, suc, ◌+◌, ◌≤◌, ◌<◌, ◌≡◌, refl, sym, ap, ◌∙◌, inl, inr, ltb, ◌||◌, List, [], ◌∷◌, ◌++◌,
  none, some, length, get_or, drop, sub_list, length-append, drop-append_length, Bool-cases,
  Option-cases, arith,
}
use chibidb.Storage.Lsm.Coding.{from_le_bytes}
use chibidb.Wal.{
  wal_header_len, Record, encode_frame, decode_payload, decode_frame, ScanState, note_frame,
  scan_frames, append,
}
use chibidb.Wal.Frames.{frame, encode_frame_into-frame, decode_frame-frame, IsWritable}
use mathlib.Core.List.{append_assoc, append-nil}

-- A frame that is read is at least 13 bytes, and no more than there are.
pub decode_frame_bounds :
    (bytes : List ℕ) (trx : ℕ) (rec : Record) (n : ℕ)
    → decode_frame bytes ≡ some (trx, rec, n)
    → (13 ≤ n) × (n ≤ length bytes)
unfolding decode_frame
decode_frame_bounds bytes trx rec n h =
    let len = from_le_bytes (sub_list 0 4 bytes) in
    elim (Bool-cases (ltb (length bytes) 4)) [
      | inl e ↦ absurd (let r = rw e at h in ground arith)
      | inr e ↦ elim (Bool-cases (ltb len wal_header_len || ltb (length bytes) (4 + len))) [
        | inl f ↦ absurd (let r = rw (e, f) at h in ground arith)
        | inr f ↦
            let r = rw (e, f) at h in
            elim (Option-cases (decode_payload (get_or bytes 4 0) (sub_list 13 (4 + len) bytes))) [
              | inl g ↦ absurd (let s = rw g at r in ground arith)
              | inr (rec', g) ↦ let s = rw g at r in ground arith
            ]
      ]
    ]

pos-note_frame :
    (st : ScanState) (trx : ℕ) (rec : Record) (n : ℕ) → (note_frame st trx rec n).pos ≡ st.pos + n
unfolding note_frame
pos-note_frame st trx Record.commit n = refl
pos-note_frame st trx (Record.insert _ _ _) n = refl
pos-note_frame st trx (Record.delete_mark _ _ _ _) n = refl

-- On any bytes, with more rounds than there are bytes the loop ends, and it ends where no frame can be
-- read: its position has moved on by the bytes that it went through, and those behind them are none.
pub scan_frames_ends :
    (fuel : ℕ) (bytes : List ℕ) (st : ScanState)
    → length bytes < fuel
    → (end : ScanState) × (passed : ℕ) × (scan_frames fuel bytes st ≡ some end)
      × (end.pos ≡ st.pos + passed)
      × (passed ≤ length bytes)
      × (decode_frame (drop passed bytes) ≡ none)
unfolding scan_frames
scan_frames_ends zero bytes st h = absurd (omega arith)
scan_frames_ends (suc fuel) bytes st h = elim (Option-cases (decode_frame bytes)) [
  | inl e ↦ (st, 0, rw (scan_frames, e) refl, omega arith, omega arith, e)
  | inr ((trx, rec, n), e) ↦
      let far = decode_frame_bounds bytes trx rec n e in
      let left = length-drop n bytes in
      let (end, passed, ends, at, inside, last) =
        scan_frames_ends fuel (drop n bytes) (note_frame st trx rec n)
          (omega (arith, far.0, far.1, left)) in
      (
        end,
        n + passed,
        rw (scan_frames, e) ends,
        omega (arith, at, pos-note_frame st trx rec n),
        omega (arith, inside, left, far.1),
        ap decode_frame (sym (drop-drop n passed bytes)) ∙ last,
      )
]

-- A log as its entries, each a transaction and what it did.
abbrev pub Log : Type 0
Log = List (ℕ × Record)

-- The file after `append` of each entry.
unfoldable pub append_all : List ℕ → Log → List ℕ
append_all file [] = file
append_all file ((trx, rec) ∷ log) = append_all (append file trx rec) log

unfoldable pub AllWritable : Log → Type 0
AllWritable [] = Unit
AllWritable ((trx, rec) ∷ log) = IsWritable trx rec × AllWritable log

pub frames : Log → List ℕ
frames [] = []
frames ((trx, rec) ∷ log) = frame trx rec ++ frames log

pub append_all-frames : (file : List ℕ) (log : Log) → append_all file log ≡ file ++ frames log
unfolding append_all append encode_frame frames
append_all-frames file [] = sym (append-nil file)
append_all-frames file ((trx, rec) ∷ log) =
    rw (append_all-frames (file ++ encode_frame trx rec) log, encode_frame_into-frame [] trx rec)
      (append_assoc file (frame trx rec) (frames log))

-- The body of the loop for each entry of a log.
unfoldable pub note_all : ScanState → Log → ScanState
note_all st [] = st
note_all st ((trx, rec) ∷ log) = note_all (note_frame st trx rec (length (frame trx rec))) log

-- A frame takes bytes.
frame_shortens :
    (trx : ℕ) (rec : Record) (log : Log) (tail : List ℕ)
    → IsWritable trx rec
    → length (frames log ++ tail) < length ((frame trx rec ++ frames log) ++ tail)
frame_shortens trx rec log tail h =
    let found = decode_frame-frame trx rec [] h in
    let far = decode_frame_bounds (frame trx rec ++ []) trx rec _ found in
    omega (
      arith,
      far.0,
      length-append (frame trx rec) (frames log),
      length-append (frame trx rec ++ frames log) tail,
      length-append (frames log) tail,
    )

pub scan_frames-frames :
    (fuel : ℕ) (log : Log) (tail : List ℕ) (st : ScanState)
    → AllWritable log
    → decode_frame tail ≡ none
    → length (frames log ++ tail) < fuel
    → scan_frames fuel (frames log ++ tail) st ≡ some (note_all st log)
unfolding scan_frames frames note_all AllWritable
scan_frames-frames zero [] tail st h torn enough = absurd (omega (arith, enough))
scan_frames-frames (suc fuel) [] tail st h torn enough = rw (scan_frames, torn) refl
scan_frames-frames zero ((trx, rec) ∷ log) tail st h torn enough = absurd (omega (arith, enough))
scan_frames-frames (suc fuel) ((trx, rec) ∷ log) tail st h torn enough =
    let rest = frames log ++ tail in
    let enough' : length rest < fuel =
      omega (arith, enough, frame_shortens trx rec log tail (h.0)) in
    ap (λ (x : List ℕ). scan_frames (suc fuel) x st)
      (append_assoc (frame trx rec) (frames log) tail)
    ∙ rw
        (
          scan_frames,
          decode_frame-frame trx rec rest (h.0),
          drop-append_length (frame trx rec) rest,
        )
        (scan_frames-frames fuel log tail _ (h.1) torn enough')
