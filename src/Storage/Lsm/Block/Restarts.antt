-- ===== src/Storage/Lsm/Block/Restarts.antt =====
-- The array of restarts behind a block's entries: what `finish` writes, `parse` reads and checks.
use chibidb.Prelude.{
  ℕ, ◌+◌, ◌-◌, ◌*◌, ◌%◌, ◌^◌, max, ◌≤◌, ◌<◌, ◌≡◌, refl, sym, ap, subst, ◌∙◌, false, ltb, leb, List,
  [], ◌∷◌, ◌++◌, Option, none, some, length, length-append, arith,
}
use chibidb.Prelude.Holds.{Holds, Holds-split, Holds-left, Holds-right, Holds-append, Holds-end}
use chibidb.Prelude.Result.{ok}
use chibidb.Storage.Lsm.Coding.{put_fixed32, get_fixed32, to_le_bytes}
use chibidb.Storage.Lsm.Coding.Fixed.{get_fixed32-put_fixed32}
use chibidb.Storage.Lsm.Block.{put_restarts, read_restarts, check_restarts, not_above, parse}
use mathlib.Core.List.{append_assoc, append-nil}

unfoldable pub words : List ℕ → List ℕ
words [] = []
words (r ∷ rs) = to_le_bytes 4 r ++ words rs

unfoldable pub AllSmall : List ℕ → Type 0
AllSmall [] = Unit {0}
AllSmall (r ∷ rs) = (r < 2 ^ 32) × AllSmall rs

pub put_restarts-words : (buffer rs : List ℕ) → put_restarts buffer rs ≡ buffer ++ words rs
unfolding put_restarts words put_fixed32
put_restarts-words buffer [] = sym (append-nil buffer)
put_restarts-words buffer (r ∷ rs) =
    put_restarts-words (buffer ++ to_le_bytes 4 r) rs
    ∙ append_assoc buffer (to_le_bytes 4 r) (words rs)

length-words : (rs : List ℕ) → length (words rs) ≡ length rs * 4
unfolding words
length-words [] = omega arith
length-words (r ∷ rs) = omega (arith, length-append (to_le_bytes 4 r) (words rs), length-words rs)

get_fixed32-Holds :
    (bytes : List ℕ) (pos v : ℕ)
    → v < 2 ^ 32
    → Holds bytes pos (to_le_bytes 4 v)
    → get_fixed32 bytes pos ≡ ok (v, pos + 4)
get_fixed32-Holds bytes pos v small h =
    let (front, back, e, at) = Holds-split bytes pos (to_le_bytes 4 v) h in
    let there : get_fixed32 ((front ++ to_le_bytes 4 v) ++ back) (length front)
        ≡ ok (v, length front + 4) =
      unfold put_fixed32 in get_fixed32-put_fixed32 v front back small in
    let whole = e ∙ sym (append_assoc front (to_le_bytes 4 v) back) in
    subst (λ (b : List ℕ). get_fixed32 b pos ≡ ok (v, pos + 4)) (sym whole)
      (subst (λ (p : ℕ). get_fixed32 ((front ++ to_le_bytes 4 v) ++ back) p ≡ ok (v, p + 4)) at
        there)

read_restarts-words :
    (bytes : List ℕ) (pos : ℕ) (before rs : List ℕ)
    → Holds bytes pos (words rs)
    → AllSmall rs
    → read_restarts bytes (length rs) pos before ≡ ok (before ++ rs)
unfolding read_restarts words AllSmall
read_restarts-words bytes pos before [] h small = ap ok (sym (append-nil before))
read_restarts-words bytes pos before (r ∷ rs) h (first, small) =
    let rec =
      read_restarts-words bytes (pos + 4) (before ++ (r ∷ [])) rs
        (Holds-right bytes pos (to_le_bytes 4 r) (words rs) h) small in
    rw (get_fixed32-Holds bytes pos r first (Holds-left bytes pos (to_le_bytes 4 r) (words rs) h))
      (rec ∙ ap ok (append_assoc before (r ∷ []) rs))

-- What `check_restarts` has let pass: a first restart in range and behind the one before it, and the rest.
check_restarts-cons :
    (start : ℕ) (previous : Option ℕ) (r : ℕ) (rs : List ℕ)
    → check_restarts start previous (r ∷ rs) ≡ ok tt
    → (r < max start 1)
      × (not_above previous r ≡ false)
      × (check_restarts start (some r) rs ≡ ok tt)
unfolding check_restarts
check_restarts-cons start previous r rs h = ground (arith, h)

check_restarts_intro :
    (start : ℕ) (previous : Option ℕ) (r : ℕ) (rs : List ℕ)
    → r < max start 1
    → not_above previous r ≡ false
    → check_restarts start (some r) rs ≡ ok tt
    → check_restarts start previous (r ∷ rs) ≡ ok tt
unfolding check_restarts
check_restarts_intro start previous r rs inside above rest =
    let e : leb (max start 1) r ≡ false = ground (arith, inside) in rw (e, above, rest) refl

pub check_restarts-weaker :
    (start start' : ℕ) (previous : Option ℕ) (rs : List ℕ)
    → start ≤ start'
    → check_restarts start previous rs ≡ ok tt
    → check_restarts start' previous rs ≡ ok tt
check_restarts-weaker start start' previous [] le h = unfold check_restarts in refl
check_restarts-weaker start start' previous (r ∷ rs) le h =
    let (inside, above, rest) = check_restarts-cons start previous r rs h in
    check_restarts_intro start' previous r rs (ground (arith, inside, le)) above
      (check_restarts-weaker start start' (some r) rs le rest)

-- A restart where the checked ones end may follow them.
pub check_restarts-append :
    (start r : ℕ) (previous : Option ℕ) (rs : List ℕ)
    → 1 ≤ r
    → r < start
    → not_above previous r ≡ false
    → check_restarts r previous rs ≡ ok tt
    → check_restarts start previous (rs ++ (r ∷ [])) ≡ ok tt
check_restarts-append start r previous [] pos inside above h =
    check_restarts_intro start previous r [] (ground (arith, inside)) above
      (unfold check_restarts in refl)
check_restarts-append start r previous (x ∷ rs) pos inside above h =
    let (below, before, rest) = check_restarts-cons r previous x rs h in
    check_restarts_intro start previous x (rs ++ (r ∷ [])) (ground (arith, inside, below, pos))
      before
      (check_restarts-append start r (some x) rs pos inside (ground (arith, below, pos)) rest)

check_restarts-AllSmall :
    (start : ℕ) (previous : Option ℕ) (rs : List ℕ)
    → start < 2 ^ 32
    → check_restarts start previous rs ≡ ok tt
    → AllSmall rs
unfolding AllSmall
check_restarts-AllSmall start previous [] small h = tt
check_restarts-AllSmall start previous (r ∷ rs) small h =
    let (inside, above, rest) = check_restarts-cons start previous r rs h in
    (ground (arith, inside, small), check_restarts-AllSmall start (some r) rs small rest)

-- Entries and the restarts behind them, as `finish` writes them, parse to themselves.
pub parse-put_restarts :
    (body rs : List ℕ)
    → length body < 2 ^ 32
    → length rs < 2 ^ 32
    → check_restarts (length body) none rs ≡ ok tt
    → parse (put_fixed32 (put_restarts body rs) (length rs % 2 ^ 32))
      ≡ ok (record {
        bytes = body ++ (words rs ++ to_le_bytes 4 (length rs));
        restarts = rs;
        restart_array_start = length body;
      })
unfolding parse
parse-put_restarts body rs small few checked =
    let count = to_le_bytes 4 (length rs) in
    let bytes = body ++ (words rs ++ count) in
    let cut : length rs % 2 ^ 32 ≡ length rs = omega (arith, few) in
    let written : put_fixed32 (put_restarts body rs) (length rs % 2 ^ 32) ≡ bytes =
      unfold put_fixed32 in
      rw (put_restarts-words body rs, cut) (append_assoc body (words rs) count) in
    let size : length bytes ≡ length body + (length rs * 4 + 4) = omega (
      arith,
      length-append body (words rs ++ count),
      length-append (words rs) count,
      length-words rs,
    ) in
    let at_words : Holds bytes (length body) (words rs) = Holds-append body (words rs) count in
    let at_count : Holds bytes (length bytes - 4) count =
      subst (λ (p : ℕ). Holds bytes p count) (omega (arith, size, length-words rs))
        (Holds-right bytes (length body) (words rs) count (Holds-end body (words rs ++ count))) in
    let long : ltb (length bytes) 4 ≡ false = ground (arith, size) in
    let fits : leb (2 ^ 64) (length rs * 4) ≡ false = ground (arith, few) in
    let whole : ltb (length bytes) (4 + length rs * 4) ≡ false = ground (arith, size) in
    let start : length bytes - 4 - length rs * 4 ≡ length body = omega (arith, size) in
    rw
      (
        written,
        long,
        get_fixed32-Holds bytes (length bytes - 4) (length rs) few at_count,
        fits,
        whole,
        start,
        read_restarts-words bytes (length body) [] rs at_words
            (check_restarts-AllSmall (length body) none rs small checked),
        checked,
      )
      refl
