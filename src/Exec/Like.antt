-- ===== src/Exec/Like.antt =====
-- src/exec/eval.rs, `like_match` and `compile_like`. A text is its bytes in UTF-8, a character is its code
-- point; a row of the table is a list of m + 1 flags.
pub mod Matches
pub mod Table
pub mod Pattern
mod Tests
use chibidb.Prelude.{
  ℕ, zero, suc, ◌+◌, Bool, true, false, ◌&&◌, ◌||◌, ◌==◌, if◌then◌else◌, List, [], ◌∷◌, ◌++◌,
  Option, none, some, length, get_or,
}
use chibidb.Prelude.Result.{Error, Result, ok, err, ◌>>=◌}
use chibidb.Exec.Chars.{chars}

pub data LikeTok : Type 0 where
  any : LikeTok
  one : LikeTok
  lit : ℕ → LikeTok

-- `Some(c) == escape`.
abbrev pub is_escape : Option ℕ → ℕ → Bool
is_escape none c = false
is_escape (some e) c = e == c

-- What a character that is not the escape character stands for.
pub token_of : ℕ → LikeTok
token_of c = if c == 0x25 then LikeTok.any else if c == 0x5F then LikeTok.one else LikeTok.lit c

-- The loop of `compile_like` on the characters that are left.
pub compile_from : Option ℕ → List ℕ → List LikeTok → Result (List LikeTok)
compile_from escape [] toks = ok toks
compile_from escape (c ∷ []) toks =
    if is_escape escape c
    then err (Error.runtime "LIKE pattern ends with the escape character")
    else ok (toks ++ (token_of c ∷ []))
compile_from escape (c ∷ d ∷ cs) toks =
    let literal = compile_from escape cs (toks ++ (LikeTok.lit d ∷ [])) in
    let plain = compile_from escape (d ∷ cs) (toks ++ (token_of c ∷ [])) in
    if is_escape escape c then literal else plain

pub compile_like : List ℕ → Option ℕ → Result (List LikeTok)
compile_like pattern escape = compile_from escape (chars pattern) []

-- The flags behind the first of the first row: set up to the first token that is not `%`.
pub leading : Bool → List LikeTok → List Bool
leading before [] = []
leading before (LikeTok.any ∷ toks) = before ∷ leading before toks
leading before (t ∷ toks) = false ∷ leading false toks

pub first_row : List LikeTok → List Bool
first_row toks = true ∷ leading true toks

-- `cur[j]` from `cur[j - 1]`, `prev[j - 1]` and `prev[j]`.
pub cell : LikeTok → ℕ → Bool → Bool → Bool → Bool
cell LikeTok.any c left diagonal above = left || above
cell LikeTok.one c left diagonal above = diagonal
cell (LikeTok.lit d) c left diagonal above = diagonal && (c == d)

-- The inner loop, with the flag before and the part of `prev` from `j - 1` on.
pub fill_row : ℕ → Bool → List LikeTok → List Bool → List Bool
fill_row c left (t ∷ toks) (diagonal ∷ above ∷ prev) =
    let flag = cell t c left diagonal above in
    let rest = fill_row c flag toks (above ∷ prev) in flag ∷ rest
fill_row c left toks prev = []

pub next_row : List LikeTok → List Bool → ℕ → List Bool
next_row toks prev c = false ∷ fill_row c false toks prev

-- The outer loop.
pub rows : List LikeTok → List ℕ → List Bool → List Bool
rows toks [] prev = prev
rows toks (c ∷ txt) prev = rows toks txt (next_row toks prev c)

pub match_tokens : List LikeTok → List ℕ → Bool
match_tokens toks txt = get_or (rows toks txt (first_row toks)) (length toks) false

pub like_match : List ℕ → List ℕ → Option ℕ → Result Bool
like_match pattern text escape =
    compile_like pattern escape >>= (λ toks. ok (match_tokens toks (chars text)))
