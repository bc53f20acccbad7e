-- ===== src/Exec/Like/Matches.antt =====
-- What it is for a text to match a pattern: it is cut into pieces, one for each token.
use chibidb.Prelude.{ℕ, ◌≡◌, ◌⊎◌, refl, sym, ap, ◌∙◌, inl, inr, List, [], ◌∷◌, ◌++◌, arith}
use chibidb.Exec.Like.{LikeTok}
use mathlib.Core.List.{append_assoc, append-nil}

-- `%` stands for any piece, `_` for one character, another token for its character.
unfoldable pub Piece : LikeTok → List ℕ → Type 0
Piece LikeTok.any p = Unit
Piece LikeTok.one p = (c : ℕ) × (p ≡ c ∷ [])
Piece (LikeTok.lit c) p = p ≡ c ∷ []

unfoldable pub Matches : List LikeTok → List ℕ → Type 0
Matches [] txt = txt ≡ []
Matches (t ∷ toks) txt =
    (p : List ℕ) × (rest : List ℕ) × (txt ≡ p ++ rest) × Piece t p × Matches toks rest

pub Matches-snoc :
    (toks : List LikeTok) (t : LikeTok) (a p : List ℕ)
    → Matches toks a
    → Piece t p
    → Matches (toks ++ (t ∷ [])) (a ++ p)
unfolding Matches
Matches-snoc [] t a p m piece = (p, [], rw m (sym (append-nil p)), piece, refl)
Matches-snoc (u ∷ toks) t a p (q, rest, e, pu, m) piece = (
  q,
  rest ++ p,
  ap (λ (x : List ℕ). x ++ p) e ∙ append_assoc q rest p,
  pu,
  Matches-snoc toks t rest p m piece,
)

pub unsnoc-Matches :
    (toks : List LikeTok) (t : LikeTok) (txt : List ℕ)
    → Matches (toks ++ (t ∷ [])) txt
    → (a : List ℕ) × (p : List ℕ) × (txt ≡ a ++ p) × Matches toks a × Piece t p
unfolding Matches
unsnoc-Matches [] t txt (p, rest, e, piece, m) = ([], p, e ∙ rw m (append-nil p), refl, piece)
unsnoc-Matches (u ∷ toks) t txt (q, rest, e, pu, m) =
    let (a, p, e', ma, piece) = unsnoc-Matches toks t rest m in
    (
      q ++ a,
      p,
      e ∙ ap (λ (x : List ℕ). q ++ x) e' ∙ sym (append_assoc q a p),
      (q, a, refl, pu, ma),
      piece,
    )

-- Where a cut of a text with a last character can lie.
pub cut_before_last :
    (ys a p : List ℕ) (c : ℕ)
    → ys ++ (c ∷ []) ≡ a ++ p
    → (p ≡ []) ⊎ ((q : List ℕ) × (p ≡ q ++ (c ∷ [])) × (ys ≡ a ++ q))
cut_before_last ys [] p c e = inr (ys, sym e, refl)
cut_before_last [] (x ∷ []) p c e = let same : p ≡ [] = cc in inl same
cut_before_last [] (x ∷ y ∷ a) p c e = absurd (ground arith)
cut_before_last (y ∷ ys) (x ∷ a) p c e =
    let first : y ≡ x = cc in
    let later : ys ++ (c ∷ []) ≡ a ++ p = cc in
    elim (cut_before_last ys a p c later) [
      | inl none ↦ inl none
      | inr (q, same, cut) ↦ inr (q, same, ground arith)
    ]
