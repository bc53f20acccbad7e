-- ===== src/Exec/Like/Tests.antt =====
-- Patterns on small texts.
use chibidb.Prelude.{ℕ, ◌≡◌, ◌↔◌, refl, Bool, true, false, List, [], ◌∷◌, none, some, ◌⊎◌}
use chibidb.Prelude.Result.{Error, ok, err}
use chibidb.Exec.Chars.{chars_from, chars}
use chibidb.Exec.Like.{
  token_of, compile_from, compile_like, leading, first_row, cell, fill_row, next_row, rows,
  match_tokens, like_match,
}
use chibidb.Exec.Like.Pattern.{Dangles, Fits, like_match-Fits}

-- `a%_`, and `abé`.
abbrev pattern' : List ℕ
pattern' = 0x61 ∷ 0x25 ∷ 0x5F ∷ []

abbrev text : List ℕ
text = 0x61 ∷ 0x62 ∷ 0xC3 ∷ 0xA9 ∷ []

matches_text : like_match pattern' text none ≡ ok true
unfolding like_match compile_like compile_from token_of chars chars_from match_tokens first_row
    leading rows next_row fill_row cell
matches_text = refl

needs_one : like_match pattern' (0x61 ∷ []) none ≡ ok false
unfolding like_match compile_like compile_from token_of chars chars_from match_tokens first_row
    leading rows next_row fill_row cell
needs_one = refl

ends_in_escape :
    like_match (0x61 ∷ 0x21 ∷ []) text (some 0x21)
    ≡ err (Error.runtime "LIKE pattern ends with the escape character")
unfolding like_match compile_like compile_from token_of chars chars_from
ends_in_escape = refl

like_match-Fits_example :
    ((answer : Bool) × (like_match pattern' text none ≡ ok answer)
      × (Dangles none (chars pattern') → ⊥)
      × ((answer ≡ true) ↔ Fits none (chars pattern') (chars text)))
    ⊎ ((like_match pattern' text none
          ≡ err (Error.runtime "LIKE pattern ends with the escape character"))
        × Dangles none (chars pattern'))
like_match-Fits_example = like_match-Fits pattern' text none
