-- ===== src/Storage/Replacer/Recency.antt =====
-- LRU and FIFO against the history of uses.
use chibidb.Prelude.{
  subst, ◌≡◌, refl, sym, ap, ◌∙◌, inl, inr, ite, true, false, if◌then◌else◌, List, [], ◌∷◌, ◌++◌,
  Bool-cases, All, arith, contains, contains-append, contains-without, without, Distinct,
}
use mathlib.Core.List.{append_assoc, append-nil}
use chibidb.Storage.Replacer.{
  Key, Key_discrete, is_key, push, record_access_lru, record_access_fifo,
}
use chibidb.Storage.Replacer.Queues.{position_cases}

-- A use of a page: a hit if it is registered, and a load if not.
pub use_lru : List Key → Key → List Key
use_lru order key =
    if contains Key_discrete key order then record_access_lru order key else push order key

pub use_fifo : List Key → Key → List Key
use_fifo order key =
    if contains Key_discrete key order then record_access_fifo order key else push order key

pub run_lru : List Key → List Key → List Key
run_lru order [] = order
run_lru order (k ∷ ks) = run_lru (use_lru order k) ks

pub run_fifo : List Key → List Key → List Key
run_fifo order [] = order
run_fifo order (k ∷ ks) = run_fifo (use_fifo order k) ks

-- The keys of a history by their last use.
unfoldable pub last_uses : List Key → List Key
last_uses [] = []
last_uses (k ∷ ks) = if contains Key_discrete k ks then last_uses ks else k ∷ last_uses ks

-- The keys of a history by their first use.
unfoldable pub first_uses : List Key → List Key
first_uses [] = []
first_uses (k ∷ ks) = k ∷ without Key_discrete k (first_uses ks)

without_of_absent :
    (k : Key) (ks : List Key) → contains Key_discrete k ks ≡ false → without Key_discrete k ks ≡ ks
without_of_absent k [] h = refl
without_of_absent k (x ∷ ks) h = ground (arith, without_of_absent k ks)

without_front :
    (k x : Key) (front back : List Key)
    → All (λ y. is_key k y ≡ false) front
    → is_key k x ≡ true
    → contains Key_discrete k back ≡ false
    → without Key_discrete k (front ++ (x ∷ back)) ≡ front ++ back
without_front k x [] back a e h = ground (arith, without_of_absent k back)
without_front k x (y ∷ front) back a e h = ground (arith, without_front k x front back a.1)

Distinct-back :
    (k x : Key) (front back : List Key)
    → Distinct Key_discrete (front ++ (x ∷ back))
    → is_key k x ≡ true
    → contains Key_discrete k back ≡ false
Distinct-back k x [] back d e = ground arith
Distinct-back k x (y ∷ front) back d e = Distinct-back k x front back d.1 e

absent_of_All :
    (k : Key) (ks : List Key)
    → All (λ y. is_key k y ≡ false) ks
    → contains Key_discrete k ks ≡ false
absent_of_All k [] a = refl
absent_of_All k (y ∷ ks) a = ground (arith, absent_of_All k ks a.1)

use_lru_moves :
    (order : List Key) (k : Key)
    → Distinct Key_discrete order
    → use_lru order k ≡ without Key_discrete k order ++ (k ∷ [])
unfolding use_lru record_access_lru
use_lru_moves order k d = elim (position_cases (is_key k) order) [
  | inl (e, a) ↦ ground (arith, absent_of_All k order a, without_of_absent k order)
  | inr (i, front, x, back, e, s, a, h, g, r) ↦
      let back_free = Distinct-back k x front back (subst (Distinct Key_discrete) s d) h in
      let gone : without Key_discrete k order ≡ front ++ back =
        ap (without Key_discrete k) s ∙ without_front k x front back a h back_free in
      let access : record_access_lru order k ≡ (front ++ back) ++ (k ∷ []) =
        rw (e, record_access_lru) (ap (λ l. l ++ (k ∷ [])) r) in
      let present : contains Key_discrete k order ≡ true =
        ap (contains Key_discrete k) s
        ∙ ground (arith, contains-append Key_discrete k front (x ∷ back)) in
      rw (present, use_lru) (access ∙ ap (λ l. l ++ (k ∷ [])) (sym gone))
]

without_comm :
    (a b : Key) (ks : List Key)
    → without Key_discrete a (without Key_discrete b ks)
      ≡ without Key_discrete b (without Key_discrete a ks)
without_comm a b [] = refl
without_comm a b (x ∷ ks) = ground (arith, without_comm a b ks)

contains-last_uses :
    (k : Key) (ks : List Key) → contains Key_discrete k (last_uses ks) ≡ contains Key_discrete k ks
unfolding last_uses
contains-last_uses k [] = refl
contains-last_uses k (x ∷ ks) = ground (arith, contains-last_uses k ks)

last_uses-Distinct : (ks : List Key) → Distinct Key_discrete (last_uses ks)
unfolding last_uses
last_uses-Distinct [] = tt
last_uses-Distinct (x ∷ ks) = elim (Bool-cases (contains Key_discrete x ks)) [
  | inl e ↦ rw e (last_uses-Distinct ks)
  | inr e ↦ rw e (contains-last_uses x ks ∙ e, last_uses-Distinct ks)
]

last_uses-append :
    (ks : List Key) (k : Key)
    → last_uses (ks ++ (k ∷ [])) ≡ without Key_discrete k (last_uses ks) ++ (k ∷ [])
unfolding last_uses
last_uses-append [] k = refl
last_uses-append (x ∷ ks) k = ground (
  arith,
  last_uses-append ks k,
  contains-append Key_discrete x ks (k ∷ []),
  without_of_absent k (last_uses ks),
  contains-last_uses k ks,
)

run_lru_from :
    (past future : List Key) → run_lru (last_uses past) future ≡ last_uses (past ++ future)
unfolding run_lru
run_lru_from past [] = ap last_uses (sym (append-nil past))
run_lru_from past (k ∷ future) =
    ap (λ l. run_lru l future)
      (use_lru_moves (last_uses past) k (last_uses-Distinct past) ∙ sym (last_uses-append past k))
    ∙ run_lru_from (past ++ (k ∷ [])) future
    ∙ ap last_uses (append_assoc past (k ∷ []) future)

-- After any history of loads and hits the LRU queue holds each page once, in the order of the last
-- uses: its head is the page that has gone unused for longest.
pub run_lru-last_uses : (history : List Key) → run_lru [] history ≡ last_uses history
unfolding last_uses
run_lru-last_uses history = run_lru_from [] history

contains-first_uses :
    (k : Key) (ks : List Key) → contains Key_discrete k (first_uses ks) ≡ contains Key_discrete k ks
unfolding first_uses
contains-first_uses k [] = refl
contains-first_uses k (x ∷ ks) =
    ground (arith, contains-without Key_discrete x k (first_uses ks), contains-first_uses k ks)

without-append :
    (a k : Key) (ks : List Key)
    → without Key_discrete a (ks ++ (k ∷ []))
      ≡ without Key_discrete a ks ++ ite (Key_discrete k a) [] (k ∷ [])
without-append a k [] = ground arith
without-append a k (x ∷ ks) = ground (arith, without-append a k ks)

first_uses-append :
    (ks : List Key) (k : Key)
    → first_uses (ks ++ (k ∷ []))
      ≡ (if contains Key_discrete k ks then first_uses ks else push (first_uses ks) k)
unfolding first_uses
first_uses-append [] k = refl
first_uses-append (x ∷ ks) k = ground (
  arith,
  first_uses-append ks k,
  without-append x k (first_uses ks),
  append-nil (without Key_discrete x (first_uses ks)),
)

use_fifo_appends :
    (order : List Key) (k : Key)
    → use_fifo order k ≡ (if contains Key_discrete k order then order else push order k)
unfolding use_fifo record_access_fifo
use_fifo_appends order k = refl

run_fifo_from :
    (past future : List Key) → run_fifo (first_uses past) future ≡ first_uses (past ++ future)
unfolding run_fifo
run_fifo_from past [] = ap first_uses (sym (append-nil past))
run_fifo_from past (k ∷ future) =
    let step : use_fifo (first_uses past) k ≡ first_uses (past ++ (k ∷ [])) = ground (
      arith,
      use_fifo_appends (first_uses past) k,
      first_uses-append past k,
      contains-first_uses k past,
    ) in
    ap (λ l. run_fifo l future) step
    ∙ run_fifo_from (past ++ (k ∷ [])) future
    ∙ ap first_uses (append_assoc past (k ∷ []) future)

-- After any history of loads and hits the FIFO queue holds each page once, in the order of the
-- first uses: a hit does not move a page.
pub run_fifo-first_uses : (history : List Key) → run_fifo [] history ≡ first_uses history
unfolding first_uses
run_fifo-first_uses history = run_fifo_from [] history
