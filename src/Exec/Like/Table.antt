-- ===== src/Exec/Like/Table.antt =====
-- The table that `like_match` fills decides whether the text matches.
use chibidb.Prelude.{
  ℕ, ◌≡◌, ◌↔◌, refl, sym, ap, subst, ◌∙◌, inl, inr, Bool, true, false, ◌&&◌, ◌||◌, ◌==◌, List, [],
  ◌∷◌, ◌++◌, length, get_or, Bool-cases, arith,
}
use chibidb.Exec.Like.{LikeTok, leading, first_row, cell, fill_row, next_row, rows, match_tokens}
use chibidb.Exec.Like.Matches.{Piece, Matches, Matches-snoc, unsnoc-Matches, cut_before_last}
use mathlib.Core.List.{append_assoc, append-nil, reverse, reverse-cons, reverse-reverse}

-- Whether the tokens match the text, both given from the last to the first.
matches_back : List LikeTok → List ℕ → Bool
matches_back [] [] = true
matches_back [] (c ∷ cs) = false
matches_back (LikeTok.any ∷ toks) [] = matches_back toks []
matches_back (LikeTok.any ∷ toks) (c ∷ cs) =
    matches_back toks (c ∷ cs) || matches_back (LikeTok.any ∷ toks) cs
matches_back (LikeTok.one ∷ toks) [] = false
matches_back (LikeTok.one ∷ toks) (c ∷ cs) = matches_back toks cs
matches_back (LikeTok.lit d ∷ toks) [] = false
matches_back (LikeTok.lit d ∷ toks) (c ∷ cs) = matches_back toks cs && (c == d)

-- A row of the table for the text `txt` backwards: from the tokens before, over those to come.
table_row : List LikeTok → List LikeTok → List ℕ → List Bool
table_row before [] txt = matches_back before txt ∷ []
table_row before (t ∷ toks) txt = matches_back before txt ∷ table_row (t ∷ before) toks txt

nothing_after_stop :
    (before toks : List LikeTok) (stop : matches_back before [] ≡ false)
    → table_row before toks [] ≡ false ∷ leading false toks
unfolding table_row leading
nothing_after_stop before [] stop = rw stop refl
nothing_after_stop before (LikeTok.any ∷ toks) stop = rw stop (
    ap (λ (r : List Bool). false ∷ r)
      (nothing_after_stop (LikeTok.any ∷ before) toks (unfold matches_back in stop)))
nothing_after_stop before (LikeTok.one ∷ toks) stop = rw stop (
    ap (λ (r : List Bool). false ∷ r)
      (nothing_after_stop (LikeTok.one ∷ before) toks (unfold matches_back in refl)))
nothing_after_stop before (LikeTok.lit d ∷ toks) stop = rw stop (
    ap (λ (r : List Bool). false ∷ r)
      (nothing_after_stop (LikeTok.lit d ∷ before) toks (unfold matches_back in refl)))

first_row_from :
    (before toks : List LikeTok)
    → matches_back before [] ≡ true
    → table_row before toks [] ≡ true ∷ leading true toks
unfolding table_row leading
first_row_from before [] go = rw go refl
first_row_from before (LikeTok.any ∷ toks) go = rw go (
    ap (λ (r : List Bool). true ∷ r)
      (first_row_from (LikeTok.any ∷ before) toks (unfold matches_back in go)))
first_row_from before (LikeTok.one ∷ toks) go = rw go (
    ap (λ (r : List Bool). true ∷ r)
      (nothing_after_stop (LikeTok.one ∷ before) toks (unfold matches_back in refl)))
first_row_from before (LikeTok.lit d ∷ toks) go = rw go (
    ap (λ (r : List Bool). true ∷ r)
      (nothing_after_stop (LikeTok.lit d ∷ before) toks (unfold matches_back in refl)))

cell_matches :
    (t : LikeTok) (before : List LikeTok) (c : ℕ) (txt : List ℕ)
    → cell t c
        (matches_back before (c ∷ txt))
        (matches_back before txt)
        (matches_back (t ∷ before) txt)
      ≡ matches_back (t ∷ before) (c ∷ txt)
unfolding cell matches_back
cell_matches LikeTok.any before c txt = refl
cell_matches LikeTok.one before c txt = refl
cell_matches (LikeTok.lit d) before c txt = refl

head_row :
    (before toks : List LikeTok) (txt : List ℕ)
    → (tail : List Bool) × (table_row before toks txt ≡ matches_back before txt ∷ tail)
unfolding table_row
head_row before [] txt = ([], refl)
head_row before (t ∷ toks) txt = (table_row (t ∷ before) toks txt, refl)

fill_row_from :
    (before toks : List LikeTok) (c : ℕ) (txt : List ℕ)
    → matches_back before (c ∷ txt)
        ∷ fill_row c (matches_back before (c ∷ txt)) toks (table_row before toks txt)
      ≡ table_row before toks (c ∷ txt)
unfolding fill_row table_row
fill_row_from before [] c txt = refl
fill_row_from before (t ∷ toks) c txt =
    let (tail, e) = head_row (t ∷ before) toks txt in
    let rest = fill_row_from (t ∷ before) toks c txt in
    rw (e, cell_matches t before c txt)
      (ap (λ (r : List Bool). matches_back before (c ∷ txt) ∷ r) (rw e at rest))

next_row_back :
    (toks : List LikeTok) (c : ℕ) (back : List ℕ)
    → next_row toks (table_row [] toks back) c ≡ table_row [] toks (c ∷ back)
unfolding next_row matches_back
next_row_back toks c back = fill_row_from [] toks c back

rows-table_row :
    (toks : List LikeTok) (txt back : List ℕ)
    → rows toks txt (table_row [] toks back) ≡ table_row [] toks (reverse txt ++ back)
unfolding rows
rows-table_row toks [] back = refl
rows-table_row toks (c ∷ txt) back =
    ap (rows toks txt) (next_row_back toks c back)
    ∙ rows-table_row toks txt (c ∷ back)
    ∙ rw (reverse-cons c txt)
        (ap (table_row [] toks) (sym (append_assoc (reverse txt) (c ∷ []) back)))

last_flag :
    (before toks : List LikeTok) (txt : List ℕ)
    → get_or (table_row before toks txt) (length toks) false
      ≡ matches_back (reverse toks ++ before) txt
unfolding table_row
last_flag before [] txt = refl
last_flag before (t ∷ toks) txt =
    last_flag (t ∷ before) toks txt
    ∙ rw (reverse-cons t toks) (
        ap (λ (ts : List LikeTok). matches_back ts txt)
          (sym (append_assoc (reverse toks) (t ∷ []) before)))

match_tokens-matches_back :
    (toks : List LikeTok) (txt : List ℕ)
    → match_tokens toks txt ≡ matches_back (reverse toks) (reverse txt)
unfolding match_tokens first_row
match_tokens-matches_back toks txt =
    ap (λ (r : List Bool). get_or (rows toks txt r) (length toks) false)
      (sym (first_row_from [] toks (unfold matches_back in refl)))
    ∙ rw (rows-table_row toks txt [], append-nil (reverse txt)) (last_flag [] toks (reverse txt))
    ∙ ap (λ (ts : List LikeTok). matches_back ts (reverse txt)) (append-nil (reverse toks))

matches_back-Matches :
    (toks : List LikeTok) (txt : List ℕ)
    → matches_back toks txt ≡ true
    → Matches (reverse toks) (reverse txt)
unfolding matches_back Matches Piece
matches_back-Matches [] [] h = refl
matches_back-Matches [] (c ∷ cs) h = ground arith
matches_back-Matches (LikeTok.any ∷ toks) [] h =
    rw (reverse-cons LikeTok.any toks)
      (Matches-snoc (reverse toks) LikeTok.any [] [] (matches_back-Matches toks [] h) tt)
matches_back-Matches (LikeTok.any ∷ toks) (c ∷ cs) h =
    elim (Bool-cases (matches_back toks (c ∷ cs))) [
      | inl e ↦
          let m = matches_back-Matches toks (c ∷ cs) e in
          let all = Matches-snoc (reverse toks) LikeTok.any (reverse (c ∷ cs)) [] m tt in
          rw (reverse-cons LikeTok.any toks) (
            subst (Matches (reverse toks ++ (LikeTok.any ∷ []))) (append-nil (reverse (c ∷ cs)))
              all)
      | inr e ↦
          let before : matches_back (LikeTok.any ∷ toks) cs ≡ true = ground arith in
          let m = matches_back-Matches (LikeTok.any ∷ toks) cs before in
          let (a, p, cut, ma, piece) = unsnoc-Matches (reverse toks) LikeTok.any (reverse cs) (
            subst (λ (ts : List LikeTok). Matches ts (reverse cs)) (reverse-cons LikeTok.any toks)
              m) in
          let all = Matches-snoc (reverse toks) LikeTok.any a (p ++ (c ∷ [])) ma tt in
          rw (reverse-cons LikeTok.any toks, reverse-cons c cs, cut)
            (subst (Matches (reverse toks ++ (LikeTok.any ∷ []))) (sym (append_assoc a p (c ∷ [])))
              all)
    ]
matches_back-Matches (LikeTok.one ∷ toks) [] h = ground arith
matches_back-Matches (LikeTok.one ∷ toks) (c ∷ cs) h =
    rw (reverse-cons LikeTok.one toks, reverse-cons c cs)
      (Matches-snoc (reverse toks) LikeTok.one (reverse cs) (c ∷ [])
        (matches_back-Matches toks cs h) (c, refl))
matches_back-Matches (LikeTok.lit d ∷ toks) [] h = ground arith
matches_back-Matches (LikeTok.lit d ∷ toks) (c ∷ cs) h =
    let same : c ≡ d = ground arith in
    let before : matches_back toks cs ≡ true = ground arith in
    rw (reverse-cons (LikeTok.lit d) toks, reverse-cons c cs)
      (Matches-snoc (reverse toks) (LikeTok.lit d) (reverse cs) (c ∷ [])
        (matches_back-Matches toks cs before) (ap (λ (x : ℕ). x ∷ []) same))

snoc_not_nil : (xs : List ℕ) (c : ℕ) → xs ++ (c ∷ []) ≡ [] → ⊥
snoc_not_nil [] c h = ground arith
snoc_not_nil (x ∷ xs) c h = ground arith

both_nil : (a p : List ℕ) → [] ≡ a ++ p → (a ≡ []) × (p ≡ [])
both_nil [] p h = (refl, sym h)
both_nil (x ∷ a) p h = absurd (ground arith)

or_true : (b : Bool) → (b || true) ≡ true
or_true true = refl
or_true false = refl

-- The last token has the last piece.
last-Piece :
    (t : LikeTok) (toks : List LikeTok) (txt : List ℕ)
    → Matches (reverse (t ∷ toks)) (reverse txt)
    → (a : List ℕ) × (p : List ℕ) × (reverse txt ≡ a ++ p) × Matches (reverse toks) a × Piece t p
last-Piece t toks txt m =
    unsnoc-Matches (reverse toks) t (reverse txt)
      (subst (λ (ts : List LikeTok). Matches ts (reverse txt)) (reverse-cons t toks) m)

snoc_single : (q : List ℕ) (c d : ℕ) → q ++ (c ∷ []) ≡ d ∷ [] → (q ≡ []) × (c ≡ d)
snoc_single [] c d h = (refl, cc)
snoc_single (x ∷ []) c d h = absurd (ground arith)
snoc_single (x ∷ y ∷ q) c d h = absurd (ground arith)

-- A last piece of one character is the last character.
last_char :
    (toks : List LikeTok) (cs a p : List ℕ) (c d : ℕ)
    → reverse (c ∷ cs) ≡ a ++ p
    → p ≡ d ∷ []
    → Matches (reverse toks) a
    → (c ≡ d) × Matches (reverse toks) (reverse cs)
last_char toks cs a p c d cut single m =
    elim (cut_before_last (reverse cs) a p c (sym (reverse-cons c cs) ∙ cut)) [
      | inl none ↦ absurd (ground arith)
      | inr (q, last, before) ↦
          let (empty, same) = snoc_single q c d (sym last ∙ single) in
          let whole : a ≡ reverse cs =
            sym (append-nil a) ∙ ap (λ (x : List ℕ). a ++ x) (sym empty) ∙ sym before in
          (same, subst (Matches (reverse toks)) whole m)
    ]

Matches-matches_back :
    (toks : List LikeTok) (txt : List ℕ)
    → Matches (reverse toks) (reverse txt)
    → matches_back toks txt ≡ true
unfolding matches_back Matches Piece
Matches-matches_back [] [] m = refl
Matches-matches_back [] (c ∷ cs) m =
    absurd (snoc_not_nil (reverse cs) c (sym (reverse-cons c cs) ∙ m))
Matches-matches_back (LikeTok.any ∷ toks) [] m =
    let (a, p, cut, ma, piece) = last-Piece LikeTok.any toks [] m in
    let (empty, rest) = both_nil a p cut in
    Matches-matches_back toks [] (subst (Matches (reverse toks)) empty ma)
Matches-matches_back (LikeTok.any ∷ toks) (c ∷ cs) m =
    let (a, p, cut, ma, piece) = last-Piece LikeTok.any toks (c ∷ cs) m in
    elim (cut_before_last (reverse cs) a p c (sym (reverse-cons c cs) ∙ cut)) [
      | inl none ↦
          let whole : a ≡ reverse (c ∷ cs) =
            sym (append-nil a) ∙ ap (λ (x : List ℕ). a ++ x) (sym none) ∙ sym cut in
          rw (Matches-matches_back toks (c ∷ cs) (subst (Matches (reverse toks)) whole ma)) refl
      | inr (q, last, before) ↦
          let all = Matches-snoc (reverse toks) LikeTok.any a q ma tt in
          let shorter =
            Matches-matches_back (LikeTok.any ∷ toks) cs
              (rw (reverse-cons LikeTok.any toks, before) all) in
          rw shorter (or_true (matches_back toks (c ∷ cs)))
    ]
Matches-matches_back (LikeTok.one ∷ toks) [] m =
    let (a, p, cut, ma, (d, single)) = last-Piece LikeTok.one toks [] m in
    absurd (snoc_not_nil a d (sym (ap (λ (x : List ℕ). a ++ x) single) ∙ sym cut))
Matches-matches_back (LikeTok.one ∷ toks) (c ∷ cs) m =
    let (a, p, cut, ma, (d, single)) = last-Piece LikeTok.one toks (c ∷ cs) m in
    let (same, before) = last_char toks cs a p c d cut single ma in
    Matches-matches_back toks cs before
Matches-matches_back (LikeTok.lit d ∷ toks) [] m =
    let (a, p, cut, ma, single) = last-Piece (LikeTok.lit d) toks [] m in
    absurd (snoc_not_nil a d (sym (ap (λ (x : List ℕ). a ++ x) single) ∙ sym cut))
Matches-matches_back (LikeTok.lit d ∷ toks) (c ∷ cs) m =
    let (a, p, cut, ma, single) = last-Piece (LikeTok.lit d) toks (c ∷ cs) m in
    let (same, before) = last_char toks cs a p c d cut single ma in
    rw (Matches-matches_back toks cs before) (ground arith)

pub match_tokens-Matches :
    (toks : List LikeTok) (txt : List ℕ) → (match_tokens toks txt ≡ true) ↔ Matches toks txt
match_tokens-Matches toks txt = (
  λ h.
      rw (sym (reverse-reverse toks), sym (reverse-reverse txt))
        (matches_back-Matches (reverse toks) (reverse txt)
          (sym (match_tokens-matches_back toks txt) ∙ h)),
  λ m.
      match_tokens-matches_back toks txt
      ∙ Matches-matches_back (reverse toks) (reverse txt)
          (rw (reverse-reverse toks, reverse-reverse txt) m),
)
