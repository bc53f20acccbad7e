-- ===== src/Exec/Like/Pattern.antt =====
-- What it is for a text to fit a pattern, read off the characters of the pattern, and that
-- `compile_like` and `like_match` decide it.
use chibidb.Prelude.{
  ℕ, ◌≡◌, ◌≢◌, ◌↔◌, ◌⊎◌, refl, sym, ap, ◌∙◌, inl, inr, Bool, true, false, ◌==◌, List, [], ◌∷◌, ◌++◌,
  Option, Bool-cases, arith,
}
use chibidb.Prelude.Result.{Error, ok, err}
use chibidb.Exec.Chars.{chars}
use chibidb.Exec.Like.{
  LikeTok, is_escape, token_of, compile_from, compile_like, match_tokens, like_match,
}
use chibidb.Exec.Like.Matches.{Piece, Matches}
use chibidb.Exec.Like.Table.{match_tokens-Matches}
use mathlib.Core.List.{append_assoc, append-nil}

-- What a character that does not escape the next one stands for, and what follows it, `Rest`.
abbrev pub FitsPlain : ℕ → (List ℕ → Type 0) → List ℕ → Type 0
FitsPlain c Rest txt =
    ((c ≡ 0x25) × (p : List ℕ) × (rest : List ℕ) × (txt ≡ p ++ rest) × Rest rest)
    ⊎ (((c ≡ 0x5F) × (x : ℕ) × (rest : List ℕ) × (txt ≡ x ∷ rest) × Rest rest)
        ⊎ ((c ≢ 0x25) × (c ≢ 0x5F) × (rest : List ℕ) × (txt ≡ c ∷ rest) × Rest rest))

-- A text fits a pattern: `%` takes any characters, `_` any one, another character itself, and a
-- character behind the escape character itself, whichever it is.
unfoldable pub Fits : Option ℕ → List ℕ → List ℕ → Type 0
Fits escape [] txt = txt ≡ []
Fits escape (c ∷ []) txt = (is_escape escape c ≡ false) × FitsPlain c (λ rest. rest ≡ []) txt
Fits escape (c ∷ d ∷ cs) txt =
    ((is_escape escape c ≡ true) × (rest : List ℕ) × (txt ≡ d ∷ rest) × Fits escape cs rest)
    ⊎ ((is_escape escape c ≡ false) × FitsPlain c (Fits escape (d ∷ cs)) txt)

-- The last character of a pattern is an escape character that is not escaped.
unfoldable pub Dangles : Option ℕ → List ℕ → Type 0
Dangles escape [] = ⊥
Dangles escape (c ∷ []) = is_escape escape c ≡ true
Dangles escape (c ∷ d ∷ cs) =
    ((is_escape escape c ≡ true) × Dangles escape cs)
    ⊎ ((is_escape escape c ≡ false) × Dangles escape (d ∷ cs))

-- A token of a plain character takes what the character stands for.
token_of-FitsPlain :
    (c : ℕ) (toks : List LikeTok) (Rest : List ℕ → Type 0)
    → ((txt : List ℕ) → Matches toks txt ↔ Rest txt)
    → (txt : List ℕ) → Matches (token_of c ∷ toks) txt ↔ FitsPlain c Rest txt
unfolding Matches Piece token_of
token_of-FitsPlain c toks Rest same txt = elim (Bool-cases (c == 0x25)) [
  | inl e ↦ rw e (
    λ (p, rest, cut, piece, m). inl (ground arith, p, rest, cut, (same rest).0 m),
    λ h. elim h [
      | inl (q, p, rest, cut, m) ↦ (p, rest, cut, tt, (same rest).1 m)
      | inr (inl (q, _, _, _, _)) ↦ absurd (ground (arith, q, e))
      | inr (inr (q, _, _, _, _)) ↦ absurd (q (ground (arith, e)))
    ],
  )
  | inr e ↦ elim (Bool-cases (c == 0x5F)) [
    | inl f ↦
        rw (e, f)
          (
            λ (p, rest, cut, (x, piece), m). inr (
                inl (
                  ground (arith, f),
                  x,
                  rest,
                  cut ∙ ap (λ (y : List ℕ). y ++ rest) piece,
                  (same rest).0 m,
                )),
            λ h. elim h [
              | inl (q, _, _, _, _) ↦ absurd (ground (arith, q, e))
              | inr (inl (q, x, rest, cut, m)) ↦ (x ∷ [], rest, cut, (x, refl), (same rest).1 m)
              | inr (inr (q, r, _, _, _)) ↦ absurd (r (ground (arith, f)))
            ],
          )
    | inr f ↦
        rw (e, f)
          (
            λ (p, rest, cut, piece, m). inr (
                inr (
                  λ q. ground (arith, q, e),
                  λ q. ground (arith, q, f),
                  rest,
                  cut ∙ ap (λ (y : List ℕ). y ++ rest) piece,
                  (same rest).0 m,
                )),
            λ h. elim h [
              | inl (q, _, _, _, _) ↦ absurd (ground (arith, q, e))
              | inr (inl (q, _, _, _, _)) ↦ absurd (ground (arith, q, f))
              | inr (inr (q, r, rest, cut, m)) ↦ (c ∷ [], rest, cut, refl, (same rest).1 m)
            ],
          )
  ]
]

-- What the compiled pattern is, behind the tokens `before`; or the pattern has a dangling escape
-- character.
abbrev Compiled : Option ℕ → List ℕ → List LikeTok → Type 0
Compiled escape cs before =
    ((toks : List LikeTok) × (compile_from escape cs before ≡ ok (before ++ toks))
      × (Dangles escape cs → ⊥)
      × ((txt : List ℕ) → Matches toks txt ↔ Fits escape cs txt))
    ⊎ ((compile_from escape cs before
          ≡ err (Error.runtime "LIKE pattern ends with the escape character"))
        × Dangles escape cs)

-- One token more.
behind :
    (escape : Option ℕ) (cs : List ℕ) (before : List LikeTok) (t : LikeTok) (toks : List LikeTok)
    → compile_from escape cs (before ++ (t ∷ [])) ≡ ok ((before ++ (t ∷ [])) ++ toks)
    → compile_from escape cs (before ++ (t ∷ [])) ≡ ok (before ++ (t ∷ toks))
behind escape cs before t toks e =
    e ∙ ap (λ (ts : List LikeTok). ok ts) (append_assoc before (t ∷ []) toks)

lit_same :
    (escape : Option ℕ) (c d : ℕ) (cs : List ℕ) (toks : List LikeTok)
    → is_escape escape c ≡ true
    → ((txt : List ℕ) → Matches toks txt ↔ Fits escape cs txt)
    → (txt : List ℕ) → Matches (LikeTok.lit d ∷ toks) txt ↔ Fits escape (c ∷ d ∷ cs) txt
unfolding Matches Piece Fits
lit_same escape c d cs toks e same txt = (
  λ (p, rest, cut, piece, m).
      inl (e, rest, cut ∙ ap (λ (y : List ℕ). y ++ rest) piece, (same rest).0 m),
  λ h. elim h [
    | inl (q, rest, cut, m) ↦ (d ∷ [], rest, cut, refl, (same rest).1 m)
    | inr (q, _) ↦ absurd (ground (arith, q, e))
  ],
)

compile_from-Compiled :
    (escape : Option ℕ) (cs : List ℕ) (before : List LikeTok) → Compiled escape cs before
unfolding compile_from Fits Dangles
compile_from-Compiled escape [] before = inl (
  [],
  ap (λ (ts : List LikeTok). ok ts) (sym (append-nil before)),
  λ d. d,
  λ txt. unfold Matches in (λ h. h, λ h. h),
)
compile_from-Compiled escape (c ∷ []) before = elim (Bool-cases (is_escape escape c)) [
  | inl e ↦ inr (rw e refl, e)
  | inr e ↦ inl (
    token_of c ∷ [],
    rw e refl,
    λ d. ground (arith, d, e),
    λ txt.
        let fits =
          token_of-FitsPlain c [] (λ rest. rest ≡ []) (unfold Matches in λ rest. (λ h. h, λ h. h))
            txt in
        (λ m. (e, fits.0 m), λ (q, h). fits.1 h),
  )
]
compile_from-Compiled escape (c ∷ d ∷ cs) before = elim (Bool-cases (is_escape escape c)) [
  | inl e ↦ elim (compile_from-Compiled escape cs (before ++ (LikeTok.lit d ∷ []))) [
    | inl (toks, compiled, sound, same) ↦ inl (
      LikeTok.lit d ∷ toks,
      rw e (behind escape cs before (LikeTok.lit d) toks compiled),
      λ h. elim h [ inl (q, g) ↦ sound g | inr (q, g) ↦ ground (arith, q, e) ],
      λ txt. lit_same escape c d cs toks e same txt,
    )
    | inr (failed, g) ↦ inr (rw e failed, inl (e, g))
  ]
  | inr e ↦ elim (compile_from-Compiled escape (d ∷ cs) (before ++ (token_of c ∷ []))) [
    | inl (toks, compiled, sound, same) ↦ inl (
      token_of c ∷ toks,
      rw e (behind escape (d ∷ cs) before (token_of c) toks compiled),
      λ h. elim h [ inl (q, g) ↦ ground (arith, q, e) | inr (q, g) ↦ sound g ],
      λ txt.
          let fits = token_of-FitsPlain c toks (Fits escape (d ∷ cs)) same txt in
          (
            λ m. inr (e, fits.0 m),
            λ h. elim h [
              | inl (q, _, _, _) ↦ absurd (ground (arith, q, e))
              | inr (q, g) ↦ fits.1 g
            ],
          ),
    )
    | inr (failed, g) ↦ inr (rw e failed, inr (e, g))
  ]
]

-- `like_match` on any pattern, text and escape character: either the pattern ends in a dangling escape
-- character, and that is the error, or it does not, and the answer is true exactly when the
-- characters of the text fit those of the pattern.
pub like_match-Fits :
    (pattern text : List ℕ) (escape : Option ℕ)
    → ((answer : Bool) × (like_match pattern text escape ≡ ok answer)
        × (Dangles escape (chars pattern) → ⊥)
        × ((answer ≡ true) ↔ Fits escape (chars pattern) (chars text)))
      ⊎ ((like_match pattern text escape
            ≡ err (Error.runtime "LIKE pattern ends with the escape character"))
          × Dangles escape (chars pattern))
unfolding like_match compile_like
like_match-Fits pattern text escape = elim (compile_from-Compiled escape (chars pattern) []) [
  | inl (toks, compiled, sound, same) ↦
      let decides = match_tokens-Matches toks (chars text) in
      let fits = same (chars text) in
      inl (
        match_tokens toks (chars text),
        rw compiled refl,
        sound,
        (λ e. fits.0 (decides.0 e), λ h. decides.1 (fits.1 h)),
      )
  | inr (failed, g) ↦ inr (rw failed refl, g)
]
