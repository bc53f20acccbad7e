-- ===== src/Wal.antt =====
-- src/wal.rs: the write-ahead log. A frame is a length of 4 bytes, a type of 1, a transaction id of
-- 8, and a payload. The file is its list of bytes, and each method runs under the file's lock.
pub mod Frames
pub mod Scan
pub mod Plan
pub mod Committed
pub mod Recovery
mod Tests
use chibidb.Prelude.{
  ℕ, zero, suc, ◌+◌, ◌-◌, max, Bool, ◌||◌, ltb, leb, ◌==◌, if◌then◌else◌, List, [], ◌∷◌, ◌++◌,
  Option, none, some, length, get_or, take, drop, sub_list, replicate,
}
use chibidb.Prelude.BTreeMap.{get, entry, remove, keys}
use chibidb.Db.LockManager.{Rid}
use chibidb.Storage.Lsm.Coding.{to_le_bytes, from_le_bytes}

abbrev pub rec_insert : ℕ
rec_insert = 1

abbrev pub rec_delete_mark : ℕ
rec_delete_mark = 2

abbrev pub rec_commit : ℕ
rec_commit = 3

abbrev pub wal_header_len : ℕ
wal_header_len = 9

pub data Record : Type 0 where
  insert : (file_no : ℕ) (rid : Rid) (record_bytes : List ℕ) → Record
  delete_mark : (file_no : ℕ) (rid : Rid) (deleter next_rid : ℕ) → Record
  commit : Record

-- The type, the id and the fields of a record, pushed one after the other.
pub push_record : List ℕ → ℕ → Record → List ℕ
push_record out trx_id (Record.insert file_no rid record_bytes) =
    let out = out ++ (rec_insert ∷ []) in
    let out = out ++ to_le_bytes 8 trx_id in
    let out = out ++ to_le_bytes 4 file_no in
    let out = out ++ to_le_bytes 4 (rid.page_no) in
    let out = out ++ to_le_bytes 2 (rid.slot) in out ++ record_bytes
push_record out trx_id (Record.delete_mark file_no rid deleter next_rid) =
    let out = out ++ (rec_delete_mark ∷ []) in
    let out = out ++ to_le_bytes 8 trx_id in
    let out = out ++ to_le_bytes 4 file_no in
    let out = out ++ to_le_bytes 4 (rid.page_no) in
    let out = out ++ to_le_bytes 2 (rid.slot) in
    let out = out ++ to_le_bytes 8 deleter in out ++ to_le_bytes 8 next_rid
push_record out trx_id Record.commit =
    let out = out ++ (rec_commit ∷ []) in out ++ to_le_bytes 8 trx_id

-- The length is patched once the frame is written; `to_le_bytes 4` keeps its 32 low bits.
pub encode_frame_into : List ℕ → ℕ → Record → List ℕ
encode_frame_into out trx_id rec =
    let start = length out in
    let out = push_record (out ++ replicate 4 0) trx_id rec in
    let len = length out - start - 4 in
    take start out ++ (to_le_bytes 4 len ++ drop (start + 4) out)

pub encode_frame : ℕ → Record → List ℕ
encode_frame = encode_frame_into []

pub decode_payload : ℕ → List ℕ → Option Record
decode_payload ty payload =
    let file_no = from_le_bytes (sub_list 0 4 payload) in
    let page_no = from_le_bytes (sub_list 4 8 payload) in
    let slot = from_le_bytes (sub_list 8 10 payload) in
    let deleter = from_le_bytes (sub_list 10 18 payload) in
    let next_rid = from_le_bytes (sub_list 18 26 payload) in
    if ty == rec_insert
    then (if ltb (length payload) 10
        then none
        else some
            (Record.insert file_no (record { page_no = page_no; slot = slot }) (drop 10 payload)))
    else if ty == rec_delete_mark
    then (if ltb (length payload) 26
        then none
        else some (
            Record.delete_mark file_no (record { page_no = page_no; slot = slot }) deleter
              next_rid))
    else if ty == rec_commit
    then some Record.commit
    else none

-- The result of `decode_frame` for the record that its `match` found.
abbrev pub decoded : ℕ → Option Record → ℕ → Option (ℕ × Record × ℕ)
decoded trx_id none frame_len = none
decoded trx_id (some rec) frame_len = some (trx_id, rec, frame_len)

pub decode_frame : List ℕ → Option (ℕ × Record × ℕ)
decode_frame bytes =
    let len = from_le_bytes (sub_list 0 4 bytes) in
    let trx_id = from_le_bytes (sub_list 5 13 bytes) in
    let rec = decode_payload (get_or bytes 4 0) (sub_list 13 (4 + len) bytes) in
    if ltb (length bytes) 4
    then none
    else if ltb len wal_header_len || ltb (length bytes) (4 + len)
    then none
    else decoded trx_id rec (4 + len)

pub record RecoveryPlan : Type 0 where
  pub committed : List (ℕ × ℕ × List Record)
  pub committed_ids : List ℕ
  pub max_trx_id : ℕ

-- The variables of the loop in `plan_recovery`.
pub record ScanState : Type 0 where
  pub records : List (ℕ × List Record)
  pub commit_pos : List (ℕ × ℕ)
  pub max_seen : ℕ
  pub pos : ℕ

abbrev pub scan_start : ScanState
scan_start = record { records = []; commit_pos = []; max_seen = 0; pos = 0 }

abbrev or_insert : ℕ → Option ℕ → ℕ
or_insert pos none = pos
or_insert pos (some old) = old

abbrev push_default : Record → Option (List Record) → List Record
push_default rec none = rec ∷ []
push_default rec (some recs) = recs ++ (rec ∷ [])

-- The body of the loop.
pub note_frame : ScanState → ℕ → Record → ℕ → ScanState
note_frame st trx_id Record.commit frame_len = record {
  records = st.records;
  commit_pos = entry trx_id (or_insert (st.pos + frame_len)) (st.commit_pos);
  max_seen = max (st.max_seen) trx_id;
  pos = st.pos + frame_len;
}
note_frame st trx_id other frame_len = record {
  records = entry trx_id (push_default other) (st.records);
  commit_pos = st.commit_pos;
  max_seen = max (st.max_seen) trx_id;
  pos = st.pos + frame_len;
}

-- The `while let` with the rounds left; the bytes are those from `pos` on. `none` is a loop that has
-- not ended by then.
pub scan_frames : ℕ → List ℕ → ScanState → Option ScanState
scan_frames zero bytes st = none
scan_frames (suc fuel) bytes st = elim (decode_frame bytes) [
  | none ↦ some st
  | some (trx_id, rec, frame_len) ↦
      scan_frames fuel (drop frame_len bytes) (note_frame st trx_id rec frame_len)
]

-- The closure of `filter_map`, which takes the records out of the map.
pub collect_committed : List (ℕ × ℕ) → List (ℕ × List Record) → List (ℕ × ℕ × List Record)
collect_committed [] records = []
collect_committed ((trx, pos) ∷ rest) records =
    let later = collect_committed rest (remove trx records) in
    elim (get trx records) [ none ↦ later | some recs ↦ (pos, trx, recs) ∷ later ]

-- `sort_by_key` by the position, stable.
abbrev pub insert_by_pos :
    ℕ × ℕ × List Record → List (ℕ × ℕ × List Record) → List (ℕ × ℕ × List Record)
insert_by_pos e [] = e ∷ []
insert_by_pos e (f ∷ fs) =
    let later = insert_by_pos e fs in if leb (e.0) (f.0) then e ∷ f ∷ fs else f ∷ later

abbrev pub sort_by_pos : List (ℕ × ℕ × List Record) → List (ℕ × ℕ × List Record)
sort_by_pos [] = []
sort_by_pos (e ∷ es) = insert_by_pos e (sort_by_pos es)

abbrev pub plan_of : ScanState → RecoveryPlan
plan_of st = record {
  committed = sort_by_pos (collect_committed (st.commit_pos) (st.records));
  committed_ids = keys (st.commit_pos);
  max_trx_id = st.max_seen;
}

pub plan_recovery : List ℕ → Option RecoveryPlan
plan_recovery bytes = elim (scan_frames (suc (length bytes)) bytes scan_start) [
  | none ↦ none
  | some st ↦ some (plan_of st)
]

-- The file of the log under its methods; `append_frames` of nothing changes nothing.
pub append : List ℕ → ℕ → Record → List ℕ
append file trx_id rec = file ++ encode_frame trx_id rec

pub append_frames : List ℕ → List ℕ → List ℕ
append_frames file [] = file
append_frames file (b ∷ frames) = file ++ (b ∷ frames)

pub truncate : List ℕ → List ℕ
truncate file = []
