-- ===== src/Wal/Recovery.antt =====
-- Recovery from a log whose last frame may have been cut off by a crash.
use chibidb.Prelude.{
  ℕ, ◌<◌, ◌≡◌, ◌↔◌, refl, sym, subst, ◌∙◌, inl, inr, ◌==◌, List, [], ◌∷◌, ◌++◌, none, some, length,
  take, In, Bool-cases, arith, suc,
}
use chibidb.Prelude.BTreeMap.{get, keys, IsSorted, get-Above}
use chibidb.Wal.{
  Record, encode_frame, decode_frame, RecoveryPlan, scan_start, plan_recovery, collect_committed,
  plan_of, encode_frame_into, sort_by_pos,
}
use chibidb.Wal.Frames.{encode_frame_into-frame, decode_frame-torn, IsWritable}
use chibidb.Wal.Scan.{
  Log, AllWritable, append_all, append_all-frames, frames, note_all, scan_frames-frames,
}
use chibidb.Wal.Plan.{
  writes, first_commit, highest, extended, note_all-IsOrdered, get_records-note_all,
  get_commit_pos-note_all, max_seen-note_all, first_commit_after, first_commit_injective,
}
use chibidb.Wal.Committed.{
  sort_by_pos-In, In-sort_by_pos, sort_by_pos-Ascends, collect_committed-In, In-collect_committed,
  Redo, IsInjective, Climbs, Ascends-Climbs, sort_by_pos-PosDistinct, collect_committed-PosDistinct,
}

keys-In : (t : ℕ) (m : List (ℕ × ℕ)) → In t (keys m) → (v : ℕ) × (get t m ≡ some v)
keys-In t [] h = elim h [ ]
keys-In t ((j, v) ∷ m) (inl e) = (v, ground arith)
keys-In t ((j, v) ∷ m) (inr h) = elim (Bool-cases (j == t)) [
  | inl e ↦ (v, rw e refl)
  | inr e ↦ rw e (keys-In t m h)
]

In-keys : (t v : ℕ) (m : List (ℕ × ℕ)) → get t m ≡ some v → In t (keys m)
In-keys t v [] h = ground arith
In-keys t v ((j, w) ∷ m) h = elim (Bool-cases (j == t)) [
  | inl e ↦ inl (ground arith)
  | inr e ↦ inr (In-keys t v m (rw e at h))
]

-- Numbers that go up.
unfoldable pub Rises : List ℕ → Type 0
Rises [] = Unit
Rises (t ∷ ts) = ((u : ℕ) → In u ts → t < u) × Rises ts

keys-Rises : (m : List (ℕ × ℕ)) → IsSorted m → Rises (keys m)
unfolding Rises
keys-Rises [] h = tt
keys-Rises ((t, v) ∷ m) (above, h) =
    (λ u i. let (w, e) = keys-In u m i in get-Above t u w m above e, keys-Rises m h)

-- The plan of a log: its committed transactions that wrote something, each once, with where its first
-- commit ends and all its records in order; they come in the order of the commits. All ids with a
-- commit, each once and going up, and the highest id of any entry.
pub IsPlanOf : Log → RecoveryPlan → Type 0
IsPlanOf log plan =
    ((pos t : ℕ) (recs : List Record)
      → In (pos, t, recs) (plan.committed)
        ↔ ((first_commit t 0 log ≡ some pos) × (extended none (writes t log) ≡ some recs)))
    × Climbs 0 (plan.committed)
    × ((t : ℕ) → In t (plan.committed_ids) ↔ ((pos : ℕ) × (first_commit t 0 log ≡ some pos)))
    × Rises (plan.committed_ids)
    × (plan.max_trx_id ≡ highest 0 log)

scanned :
    (log : Log) (tail : List ℕ)
    → AllWritable log
    → decode_frame tail ≡ none
    → plan_recovery (append_all [] log ++ tail) ≡ some (plan_of (note_all scan_start log))
unfolding plan_recovery
scanned log tail h torn =
    rw
      (
        append_all-frames [] log,
        plan_recovery,
        scan_frames-frames (suc (length (frames log ++ tail))) log tail scan_start h torn
            (omega arith),
      )
      refl

note_all-IsPlanOf : (log : Log) → IsPlanOf log (plan_of (note_all scan_start log))
unfolding IsPlanOf
note_all-IsPlanOf log =
    let end = note_all scan_start log in
    let sorted = note_all-IsOrdered scan_start log (tt, tt) in
    let commits : (t : ℕ) → get t (end.commit_pos) ≡ first_commit t 0 log =
      λ t. get_commit_pos-note_all t scan_start log (tt, tt) in
    let records : (t : ℕ) → get t (end.records) ≡ extended none (writes t log) =
      λ t. get_records-note_all t scan_start log (tt, tt) in
    let entries = collect_committed (end.commit_pos) (end.records) in
    let found : (x : Redo)
        → In x (sort_by_pos entries)
        → (get (x.1) (end.commit_pos) ≡ some (x.0)) × (get (x.1) (end.records) ≡ some (x.2)) =
      λ x m.
        collect_committed-In (x.1) (x.0) (x.2) (end.commit_pos) (end.records) (sorted.1) (sorted.0)
          (sort_by_pos-In x entries m) in
    let injective : IsInjective (end.commit_pos) =
      λ t u p e f. first_commit_injective t u 0 p log (sym (commits t) ∙ e) (sym (commits u) ∙ f) in
    let distinct = sort_by_pos-PosDistinct entries (
      collect_committed-PosDistinct (end.commit_pos) (end.records) (sorted.1) (sorted.0)
        injective) in
    (
      λ pos t recs. (
        λ m. let (c, r) = found (pos, t, recs) m in (sym (commits t) ∙ c, sym (records t) ∙ r),
        λ (c, r).
            In-sort_by_pos (pos, t, recs) entries
              (In-collect_committed t pos recs (end.commit_pos) (end.records) (sorted.1) (sorted.0)
                (commits t ∙ c) (records t ∙ r)),
      ),
      Ascends-Climbs 0 (sort_by_pos entries)
          (λ x m q.
            let far = first_commit_after (x.1) 0 (x.0) log (sym (commits (x.1)) ∙ (found x m).0) in
            omega (arith, far, q))
          distinct (sort_by_pos-Ascends entries),
      λ t. (
        λ m. let (v, e) = keys-In t (end.commit_pos) m in (v, sym (commits t) ∙ e),
        λ (pos, c). In-keys t pos (end.commit_pos) (commits t ∙ c),
      ),
      keys-Rises (end.commit_pos) (sorted.1),
      max_seen-note_all scan_start log,
    )

-- After any entries were appended to an empty log, and a crash cut the next frame off anywhere before
-- its end, recovery ends with the plan that those entries say, each transaction once and in the order
-- of the commits, and stops at the cut.
pub plan_recovery-append_all :
    (log : Log) (trx : ℕ) (rec : Record) (n : ℕ)
    → AllWritable log
    → IsWritable trx rec
    → n < length (encode_frame trx rec)
    → (plan : RecoveryPlan) × (plan_recovery (append_all [] log ++ take n (encode_frame trx rec))
        ≡ some plan)
      × IsPlanOf log plan
unfolding encode_frame
plan_recovery-append_all log trx rec n h k short =
    let torn : decode_frame (take n (encode_frame_into [] trx rec)) ≡ none =
      rw (encode_frame_into-frame [] trx rec) (
        decode_frame-torn trx rec n k
          (subst (λ (x : List ℕ). n < length x) (encode_frame_into-frame [] trx rec) short)) in
    (
      plan_of (note_all scan_start log),
      scanned log (take n (encode_frame_into [] trx rec)) h torn,
      note_all-IsPlanOf log,
    )
