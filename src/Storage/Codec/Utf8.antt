-- ===== src/Storage/Codec/Utf8.antt =====
-- `String::from_utf8`: which byte strings are UTF-8.
use chibidb.Prelude.{ℕ, zero, suc, Bool, false, ◌&&◌, ltb, leb, ◌==◌, if◌then◌else◌, List, [], ◌∷◌}

-- After the first byte of a character: how many bytes follow, and the bounds of the next.
abbrev pub leading : ℕ → ℕ × ℕ × ℕ
leading b =
    if ltb b 0x80
    then (0, 0, 0)
    else if ltb b 0xC2
    then (4, 0, 0)
    else if ltb b 0xE0
    then (1, 0x80, 0xBF)
    else if b == 0xE0
    then (2, 0xA0, 0xBF)
    else if b == 0xED
    then (2, 0x80, 0x9F)
    else if ltb b 0xF0
    then (2, 0x80, 0xBF)
    else if b == 0xF0
    then (3, 0x90, 0xBF)
    else if ltb b 0xF4
    then (3, 0x80, 0xBF)
    else if b == 0xF4
    then (3, 0x80, 0x8F)
    else (4, 0, 0)

-- `more` bytes of a character are to come, the next between `low` and `high`. A byte that begins no
-- character has `more` 4.
unfoldable pub utf8_from : ℕ → ℕ → ℕ → List ℕ → Bool
utf8_from more low high [] = more == 0
utf8_from zero low high (b ∷ bs) =
    let (more, low', high') = leading b in
    let rest = utf8_from more low' high' bs in if more == 4 then false else rest
utf8_from (suc more) low high (b ∷ bs) =
    let rest = utf8_from more 0x80 0xBF bs in leb low b && leb b high && rest

unfoldable pub is_utf8 : List ℕ → Bool
is_utf8 = utf8_from 0 0 0
