-- ===== src/Wal/Tests.antt =====
-- Runs of the log on small inputs.
use chibidb.Prelude.{
  ℕ, ◌<◌, ◌≡◌, refl, [], ◌∷◌, ◌++◌, none, some, length, take, arith, ◌≤◌, ◌+◌, drop,
}
use chibidb.Wal.{
  Record, push_record, encode_frame_into, encode_frame, decode_payload, decode_frame, scan_start,
  note_frame, scan_frames, collect_committed, plan_recovery, append, ScanState, RecoveryPlan,
}
use chibidb.Wal.Frames.{IsWritable, Fits, payload, tag, body, decode_frame-encode_frame}
use chibidb.Wal.Scan.{Log, AllWritable, append_all, scan_frames_ends}
use chibidb.Wal.Recovery.{IsPlanOf, plan_recovery-append_all}

abbrev mark : Record
mark = Record.delete_mark 3 (record { page_no = 9; slot = 4 }) 8 0

abbrev row : Record
row = Record.insert 3 (record { page_no = 9; slot = 4 }) (1 ∷ 2 ∷ 3 ∷ [])

abbrev other_row : Record
other_row = Record.insert 3 (record { page_no = 9; slot = 5 }) (4 ∷ [])

abbrev log : Log
log =
    (7, row) ∷ (8, other_row) ∷ (8, mark) ∷ (8, Record.commit) ∷ (7, Record.commit) ∷ (9, row) ∷ []

mark-IsWritable : IsWritable 300 mark
unfolding IsWritable Fits payload tag body
mark-IsWritable =
    (omega arith, omega arith, (omega arith, omega arith, omega arith, omega arith, omega arith))

log-AllWritable : AllWritable log
unfolding IsWritable Fits payload tag body AllWritable
log-AllWritable = ground arith

recovered :
    plan_recovery (append_all [] log ++ take 20 (encode_frame 300 mark))
    ≡ some (record {
      committed = (102, 8, other_row ∷ mark ∷ []) ∷ (115, 7, row ∷ []) ∷ [];
      committed_ids = 7 ∷ 8 ∷ [];
      max_trx_id = 9;
    })
unfolding plan_recovery append_all append encode_frame encode_frame_into push_record scan_frames
    decode_frame decode_payload note_frame collect_committed
recovered = refl

decode_frame-encode_frame_example :
    (decode_frame (encode_frame 300 mark ++ (5 ∷ []))
      ≡ some (300, mark, length (encode_frame 300 mark)))
    × ((n : ℕ)
        → n < length (encode_frame 300 mark)
        → decode_frame (take n (encode_frame 300 mark)) ≡ none)
decode_frame-encode_frame_example = decode_frame-encode_frame 300 mark (5 ∷ []) mark-IsWritable

scan_frames_ends_example :
    (end : ScanState) × (passed : ℕ) × (scan_frames 14 (encode_frame 7 Record.commit) scan_start
      ≡ some end)
    × (end.pos ≡ scan_start.pos + passed)
    × (passed ≤ length (encode_frame 7 Record.commit))
    × (decode_frame (drop passed (encode_frame 7 Record.commit)) ≡ none)
unfolding encode_frame encode_frame_into push_record
scan_frames_ends_example =
    scan_frames_ends 14 (encode_frame 7 Record.commit) scan_start (omega arith)

plan_recovery-append_all_example :
    (plan : RecoveryPlan) × (plan_recovery (append_all [] log ++ take 20 (encode_frame 300 mark))
      ≡ some plan)
    × IsPlanOf log plan
unfolding encode_frame encode_frame_into push_record
plan_recovery-append_all_example =
    plan_recovery-append_all log 300 mark 20 log-AllWritable mark-IsWritable (omega arith)
