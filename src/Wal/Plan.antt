-- ===== src/Wal/Plan.antt =====
-- What `plan_recovery` makes of a log: an independent account of the entries.
use chibidb.Prelude.{
  ℕ, ◌+◌, max, ◌≡◌, refl, sym, ap, ◌∙◌, inl, inr, ◌==◌, if◌then◌else◌, List, [], ◌∷◌, ◌++◌, Option,
  none, some, length, Bool-cases, arith, ◌<◌,
}
use chibidb.Prelude.BTreeMap.{get, entry, IsSorted, get-entry, entry-IsSorted}
use chibidb.Wal.{Record, ScanState, or_insert, push_default, note_frame}
use chibidb.Wal.Frames.{frame, length-frame_pos}
use chibidb.Wal.Scan.{Log, note_all}
use mathlib.Core.List.{append_assoc, append-nil}

-- The redo records of a transaction, in log order.
pub writes : ℕ → Log → List Record
writes t [] = []
writes t ((trx, Record.commit) ∷ log) = writes t log
writes t ((trx, rec) ∷ log) = let later = writes t log in if trx == t then rec ∷ later else later

-- Where the first commit of a transaction ends, for a log that begins at `pos`.
pub first_commit : ℕ → ℕ → Log → Option ℕ
first_commit t pos [] = none
first_commit t pos ((trx, Record.commit) ∷ log) =
    let next = pos + length (frame trx Record.commit) in
    let later = first_commit t next log in if trx == t then some next else later
first_commit t pos ((trx, rec) ∷ log) = first_commit t (pos + length (frame trx rec)) log

-- The highest id of a log, or `seen`.
pub highest : ℕ → Log → ℕ
highest seen [] = seen
highest seen ((trx, rec) ∷ log) = highest (max seen trx) log

-- What a map has for a key, and then more.
abbrev pub extended : Option (List Record) → List Record → Option (List Record)
extended none [] = none
extended none (r ∷ rs) = some (r ∷ rs)
extended (some old) rs = some (old ++ rs)

abbrev pub or_else : Option ℕ → Option ℕ → Option ℕ
or_else none later = later
or_else (some p) later = some p

abbrev pub IsOrdered : ScanState → Type 0
IsOrdered st = IsSorted (st.records) × IsSorted (st.commit_pos)

note_frame-IsOrdered :
    (st : ScanState) (trx : ℕ) (rec : Record) (n : ℕ)
    → IsOrdered st
    → IsOrdered (note_frame st trx rec n)
unfolding note_frame
note_frame-IsOrdered st trx Record.commit n h =
    (h.0, entry-IsSorted trx (or_insert (st.pos + n)) (st.commit_pos) (h.1))
note_frame-IsOrdered st trx (Record.insert a b c) n h =
    (entry-IsSorted trx (push_default (Record.insert a b c)) (st.records) (h.0), h.1)
note_frame-IsOrdered st trx (Record.delete_mark a b c d) n h =
    (entry-IsSorted trx (push_default (Record.delete_mark a b c d)) (st.records) (h.0), h.1)

abbrev after : ScanState → ℕ → Record → ScanState
after st trx rec = note_frame st trx rec (length (frame trx rec))

after-IsOrdered :
    (st : ScanState) (trx : ℕ) (rec : Record) → IsOrdered st → IsOrdered (after st trx rec)
after-IsOrdered st trx rec = note_frame-IsOrdered st trx rec (length (frame trx rec))

pub note_all-IsOrdered : (st : ScanState) (log : Log) → IsOrdered st → IsOrdered (note_all st log)
unfolding note_all
note_all-IsOrdered st [] h = h
note_all-IsOrdered st ((trx, rec) ∷ log) h =
    note_all-IsOrdered (note_frame st trx rec _) log (note_frame-IsOrdered st trx rec _ h)

extended_push :
    (t trx : ℕ) (rec : Record) (old : Option (List Record)) (later : List Record)
    → extended (if trx == t then some (push_default rec old) else old) later
      ≡ extended old (if trx == t then rec ∷ later else later)
extended_push t trx rec none later = ground arith
extended_push t trx rec (some rs) later = ground (arith, append_assoc rs (rec ∷ []) later)

extended_nothing : (old : Option (List Record)) → extended old [] ≡ old
extended_nothing none = refl
extended_nothing (some rs) = ap some (append-nil rs)

get-push :
    (t trx : ℕ) (rec : Record) (m : List (ℕ × List Record)) (later : List Record)
    → IsSorted m
    → extended (get t (entry trx (push_default rec) m)) later
      ≡ extended (get t m) (if trx == t then rec ∷ later else later)
get-push t trx rec m later h = elim (Bool-cases (trx == t)) [
  | inl e ↦
      ground
        (arith, get-entry trx t (push_default rec) m h, extended_push t trx rec (get t m) later)
  | inr e ↦ ground (arith, get-entry trx t (push_default rec) m h)
]

pub get_records-note_all :
    (t : ℕ) (st : ScanState) (log : Log)
    → IsOrdered st
    → get t ((note_all st log).records) ≡ extended (get t (st.records)) (writes t log)
unfolding note_all note_frame writes
get_records-note_all t st [] h = sym (extended_nothing (get t (st.records)))
get_records-note_all t st ((trx, Record.commit) ∷ log) h =
    get_records-note_all t (after st trx Record.commit) log (after-IsOrdered st trx Record.commit h)
get_records-note_all t st ((trx, Record.insert a b c) ∷ log) h =
    get_records-note_all t (after st trx (Record.insert a b c)) log
      (after-IsOrdered st trx (Record.insert a b c) h)
    ∙ get-push t trx (Record.insert a b c) (st.records) (writes t log) (h.0)
get_records-note_all t st ((trx, Record.delete_mark a b c d) ∷ log) h =
    get_records-note_all t (after st trx (Record.delete_mark a b c d)) log
      (after-IsOrdered st trx (Record.delete_mark a b c d) h)
    ∙ get-push t trx (Record.delete_mark a b c d) (st.records) (writes t log) (h.0)

get-or_insert :
    (t trx pos : ℕ) (m : List (ℕ × ℕ)) (later : Option ℕ)
    → IsSorted m
    → or_else (get t (entry trx (or_insert pos) m)) later
      ≡ or_else (get t m) (if trx == t then some pos else later)
get-or_insert t trx pos m later h = ground (arith, get-entry trx t (or_insert pos) m h)

pub get_commit_pos-note_all :
    (t : ℕ) (st : ScanState) (log : Log)
    → IsOrdered st
    → get t ((note_all st log).commit_pos)
      ≡ or_else (get t (st.commit_pos)) (first_commit t (st.pos) log)
unfolding note_all note_frame first_commit
get_commit_pos-note_all t st [] h = ground arith
get_commit_pos-note_all t st ((trx, Record.commit) ∷ log) h =
    get_commit_pos-note_all t (after st trx Record.commit) log
      (after-IsOrdered st trx Record.commit h)
    ∙ get-or_insert t trx (st.pos + length (frame trx Record.commit)) (st.commit_pos) _ (h.1)
get_commit_pos-note_all t st ((trx, Record.insert a b c) ∷ log) h =
    get_commit_pos-note_all t (after st trx (Record.insert a b c)) log
      (after-IsOrdered st trx (Record.insert a b c) h)
get_commit_pos-note_all t st ((trx, Record.delete_mark a b c d) ∷ log) h =
    get_commit_pos-note_all t (after st trx (Record.delete_mark a b c d)) log
      (after-IsOrdered st trx (Record.delete_mark a b c d) h)

pub max_seen-note_all :
    (st : ScanState) (log : Log) → (note_all st log).max_seen ≡ highest (st.max_seen) log
unfolding note_all note_frame highest
max_seen-note_all st [] = refl
max_seen-note_all st ((trx, Record.commit) ∷ log) =
    max_seen-note_all (after st trx Record.commit) log
max_seen-note_all st ((trx, Record.insert a b c) ∷ log) =
    max_seen-note_all (after st trx (Record.insert a b c)) log
max_seen-note_all st ((trx, Record.delete_mark a b c d) ∷ log) =
    max_seen-note_all (after st trx (Record.delete_mark a b c d)) log

-- A commit ends behind where the log begins.
pub first_commit_after : (t pos p : ℕ) (log : Log) → first_commit t pos log ≡ some p → pos < p
unfolding first_commit
first_commit_after t pos p [] e = ground (arith, e)
first_commit_after t pos p ((trx, Record.commit) ∷ log) e =
    let next = pos + length (frame trx Record.commit) in
    let far = length-frame_pos trx Record.commit in
    elim (Bool-cases (trx == t)) [
      | inl c ↦ let here : some next ≡ some p = rw c at e in ground (arith, here, far)
      | inr c ↦ omega (arith, first_commit_after t next p log (rw c at e), far)
    ]
first_commit_after t pos p ((trx, Record.insert a b c) ∷ log) e =
    omega (arith, first_commit_after t (pos + length (frame trx (Record.insert a b c))) p log e)
first_commit_after t pos p ((trx, Record.delete_mark a b c d) ∷ log) e =
    omega
      (arith, first_commit_after t (pos + length (frame trx (Record.delete_mark a b c d))) p log e)

-- No two transactions have a commit that ends at one place.
pub first_commit_injective :
    (t u pos p : ℕ) (log : Log)
    → first_commit t pos log ≡ some p
    → first_commit u pos log ≡ some p
    → t ≡ u
unfolding first_commit
first_commit_injective t u pos p [] e f = ground (arith, e)
first_commit_injective t u pos p ((trx, Record.commit) ∷ log) e f =
    let next = pos + length (frame trx Record.commit) in
    elim (Bool-cases (trx == t)) [
      | inl c ↦ elim (Bool-cases (trx == u)) [
        | inl d ↦ ground (arith, c, d)
        | inr d ↦
            let here : some next ≡ some p = rw c at e in
            let later = first_commit_after u next p log (rw d at f) in
            absurd (ground (arith, here, later))
      ]
      | inr c ↦ elim (Bool-cases (trx == u)) [
        | inl d ↦
            let here : some next ≡ some p = rw d at f in
            let later = first_commit_after t next p log (rw c at e) in
            absurd (ground (arith, here, later))
        | inr d ↦ first_commit_injective t u next p log (rw c at e) (rw d at f)
      ]
    ]
first_commit_injective t u pos p ((trx, Record.insert a b c) ∷ log) e f =
    first_commit_injective t u (pos + length (frame trx (Record.insert a b c))) p log e f
first_commit_injective t u pos p ((trx, Record.delete_mark a b c d) ∷ log) e f =
    first_commit_injective t u (pos + length (frame trx (Record.delete_mark a b c d))) p log e f
